-- ===== src/App/Update/OneChange.antt =====
-- One pass over an app that is not managed in parallel.
use unicore.Prelude.{
  ℕ, ◌+◌, ◌^◌, ◌≤◌, ◌<◌, pos, ◌≡◌, refl, ◌∙◌, inl, inr, Bool, true, false, not, ◌||◌, Str, is_some,
  List, [], ◌∷◌, Option, none, some, arith, All, Bool-cases, drop, sym, subst,
}
use mathlib.Core.List.{reverse}
use unicore.Api.{App, AppStatus, Pod, Revision, RollingUpdate}
use unicore.App.Readiness.{get_min_ready_seconds}
use unicore.App.Platform.{Platform, World, Failure, send_app, ok, RetriesAsDocumented}
use unicore.App.Platform.Traces.{Extends-call}
use unicore.App.Platform.Changes.{pod_changes, IsQuiet, pod_changes-quiet, retried-keeps}
use unicore.App.Versions.{with_rolling, deref, ◌>>=◌, Returns, set_default_rolling_update_strategy}
use unicore.App.Versions.Partition.{Returns-bind, Returns-mono, Returns-if, Returns-ok, Partitioned}
use unicore.App.Update.Slots.{place_pods, fill_slots, filled_slots, sort_descending, find_unhealthy}
use unicore.App.Update.Slots.Fill.{NonNegative, place_pods_lem}
use unicore.App.Update.Slots.Complete.{fill_slots_lem}
use unicore.App.Update.Replicas.{Pass, visit_replicas}
use unicore.App.Update.Replicas.Ordered.{visit_replicas_ordered}
use unicore.App.Update.ScaleDown.{scale_down}
use unicore.App.Update.ScaleDown.OneAtATime.{scale_down_ordered}
use unicore.App.Update.Rolling.{InPlace, roll}
use unicore.App.Update.Rolling.OneTarget.{QuietInPlace}
use unicore.App.Update.Rolling.Target.{LoopOk, roll_lem}
use unicore.App.Update.{
  roll_with, Applied, is_parallel, write_strategy, roll_out, scale_and_roll, maintain, with_count,
  with_strategy, apply_update, recount, is_on_delete, strategy_needed,
}

-- A rolling update from a partition that is not negative.
abbrev pub Startable : Option RollingUpdate → Type 0
Startable none = ⊥
Startable (some r) = (m : ℕ) × (r.partition ≡ some (pos m))

goes_on : (e : Option Failure) (b : Bool) → is_some e || not b ≡ false → (b ≡ true) × (e ≡ none)
goes_on none true h = (refl, refl)
goes_on none false h = cc
goes_on (some f) b h = cc

module _ (p : Platform) (o : InPlace) (app : App) (current update : Str)
    (documented : RetriesAsDocumented p) (quiet : QuietInPlace o) where
  abbrev AtMostOne : World → Applied → Type 0
  AtMostOne w a = pod_changes a.world ≤ pod_changes w + 1

  roll-few :
      (r : RollingUpdate) (m : ℕ) (replicas : List Pod) (w : World) (status : AppStatus)
      → r.partition ≡ some (pos m)
      → Returns
          (λ s. pod_changes s.world ≤ pod_changes w + 1)
          (roll p o app update r replicas w status)
  roll-few r m replicas w status e =
      Returns-mono (LoopOk o update (reverse (drop m replicas)) w)
        (λ s. pod_changes s.world ≤ pod_changes w + 1) _
        (roll_lem p o app update r m replicas w status quiet e) (λ s ok. ok.0)

  after_rolling :
      (replicas : List Pod) (w : World) (status : AppStatus) (s : Option RollingUpdate)
      → Startable s
      → Returns (AtMostOne w) (deref s >>= roll_with p o app current update replicas w status)
  unfolding roll_with
  after_rolling replicas w status none h = absurd h
  after_rolling replicas w status (some r) (m, at) =
      Returns-if (AtMostOne w) r.paused _ _ (λ e. omega arith)
        (λ e.
          Returns-bind (λ s. pod_changes s.world ≤ pod_changes w + 1) (AtMostOne w)
            (roll p o app update r replicas w status) _ (roll-few r m replicas w status at)
            (λ s few. few))

  roll_out-few :
      (replicas : List Pod) (w : World) (status : AppStatus)
      → Startable app.spec.update_strategy.rolling
      → Returns (AtMostOne w) (roll_out p o app current update replicas w status)
  unfolding roll_out
  roll_out-few replicas w status h =
      elim (Bool-cases (is_on_delete app.spec.update_strategy.strategy_type)) [
        | inl e ↦ rw e (omega arith)
        | inr e ↦ rw e (elim (Bool-cases (is_some app.deletion_timestamp)) [
          | inl d ↦ rw d (omega arith)
          | inr d ↦ rw d (after_rolling replicas w status app.spec.update_strategy.rolling h)
        ])
      ]

  abbrev IsOrderedApp : Type 0
  IsOrderedApp = is_parallel app.spec.pod_management_policy ≡ false

  scale_and_roll-few :
      (replicas invalid : List Pod) (w : World) (status : AppStatus)
      → IsOrderedApp
      → Startable app.spec.update_strategy.rolling
      → Returns (AtMostOne w) (scale_and_roll p o app current update replicas invalid w status)
  unfolding scale_and_roll
  scale_and_roll-few replicas invalid w status ordered h =
      let first = (find_unhealthy replicas invalid).first in
      let down = scale_down p false first invalid w in
      let next = recount p o app current update (replicas ∷ invalid ∷ []) status in
      let few : pod_changes down.world ≤ pod_changes w + 1 =
        elim (scale_down_ordered p first invalid w) [
          | inl (empty, same) ↦ rw same (omega arith)
          | inr (exits, fine) ↦ fine
        ] in
      rw ordered (
        Returns-if (AtMostOne w) (down.should_exit || is_some down.run_err) _ _ (λ e. few)
          (λ e. elim (scale_down_ordered p first invalid w) [
            | inl (empty, same) ↦
                subst (λ v. Returns (AtMostOne w) (roll_out p o app current update replicas v next))
                  (sym same) (roll_out-few replicas w next h)
            | inr (exits, fine) ↦ let g = rw exits at e in cc
          ]))

  maintain-few :
      (replicas invalid : List Pod) (w : World) (status : AppStatus)
      → IsOrderedApp
      → Startable app.spec.update_strategy.rolling
      → Returns (AtMostOne w) (maintain p o app current update replicas invalid w status)
  unfolding maintain
  maintain-few replicas invalid w status ordered h =
      let start : Pass = record {
        world = w;
        status = status;
        all_available = true;
        run_err = none;
      } in
      let pass = visit_replicas p app (get_min_ready_seconds app) false replicas start in
      let (few, passed) =
        visit_replicas_ordered p app (get_min_ready_seconds app) replicas start documented in
      rw ordered (
        Returns-if (AtMostOne w) (is_some pass.run_err || not pass.all_available) _ _ (λ e. few)
          (λ e.
            let (all, fine) = goes_on pass.run_err pass.all_available e in
            let (still, same) = passed all fine in
            subst
              (λ k.
                Returns (λ a. pod_changes a.world ≤ k + 1)
                  (scale_and_roll p o app current update replicas invalid pass.world pass.status))
              same (scale_and_roll-few replicas invalid pass.world pass.status ordered h)))

  write_strategy-quiet :
      (r : RollingUpdate) (w : World) (s : World × App)
      → pod_changes s.0 ≡ pod_changes w
      → pod_changes (write_strategy p r s).1.0 ≡ pod_changes w
  unfolding write_strategy
  write_strategy-quiet r w s h =
      pod_changes-quiet (Extends-call {P = IsQuiet} p (send_app (with_rolling r s.1)) s.0 refl) ∙ h

  module _ (current_app update_app : App) (pods : List Pod) where
    with_count-few :
        (n : ℕ) (w : World) (status : AppStatus)
        → n < 2 ^ 63
        → All NonNegative pods
        → Partitioned current_app.spec.update_strategy.rolling
        → IsOrderedApp
        → Startable app.spec.update_strategy.rolling
        → Returns
            (AtMostOne w)
            (with_count p o app current update current_app update_app pods w status (pos n))
    unfolding with_count
    with_count-few n w status small fits part ordered h =
        Returns-bind _ (AtMostOne w) (place_pods n pods) _ (place_pods_lem n pods fits)
          (λ (slots, invalid) ok.
            Returns-bind _ (AtMostOne w)
              (fill_slots p current_app update_app current update n slots) _
              (fill_slots_lem p current_app update_app current update n slots small part ok.0 ok.1)
              (λ slots' full.
                maintain-few (filled_slots slots') (sort_descending invalid) w status ordered h))

    with_strategy-few :
        (n : ℕ) (w : World) (status : AppStatus)
        → app.spec.replicas ≡ some (pos n)
        → n < 2 ^ 63
        → All NonNegative pods
        → Partitioned current_app.spec.update_strategy.rolling
        → IsOrderedApp
        → Startable app.spec.update_strategy.rolling
        → Returns
            (AtMostOne w)
            (with_strategy p o app current update current_app update_app pods w status)
    unfolding with_strategy
    with_strategy-few n w status count small fits part ordered h =
        Returns-if (AtMostOne w) (strategy_needed p o app current update) _ _
          (λ e. omega (
            arith,
            retried-keeps (λ s. pod_changes s.0 ≡ pod_changes w)
                (write_strategy-quiet (set_default_rolling_update_strategy app).1 w)
                (documented.retried (World × App)
                  (write_strategy p (set_default_rolling_update_strategy app).1) (w, app))
                refl,
          ))
          (λ e.
            subst
              (λ c. Returns (AtMostOne w) (
                deref c >>= with_count p o app current update current_app update_app pods w status))
              (sym count) (with_count-few n w status small fits part ordered h))

-- One pass over an app that is not managed in parallel does not panic and creates or deletes at most
-- one pod, whatever the API server answers. The app has a replica count in the range of an int and
-- a rolling update with a partition from 0 up, the current revision gives an app whose rolling update
-- has a partition, every pod has an ordinal from 0 up, the retries are as documented, and the in-place
-- update does not panic and neither creates nor deletes pods.
pub apply_update_ordered :
    (p : Platform) (o : Revision → List Revision → InPlace) (app : App) (current update : Revision)
    (collision_count n : ℕ) (pods : List Pod) (revisions : List Revision) (w : World)
    → RetriesAsDocumented p
    → QuietInPlace (o update revisions)
    → is_parallel app.spec.pod_management_policy ≡ false
    → app.spec.replicas ≡ some (pos n)
    → n < 2 ^ 63
    → Startable app.spec.update_strategy.rolling
    → ((a : App) → p.patch_app app current.raw ≡ ok a → Partitioned a.spec.update_strategy.rolling)
    → All NonNegative pods
    → Returns
        (λ a. pod_changes a.world ≤ pod_changes w + 1)
        (apply_update p o app current update collision_count pods revisions w)
unfolding apply_update
apply_update_ordered p o app current update collision_count n pods revisions w documented quiet
      ordered count small start part fits =
    let kept : Failure → pod_changes w ≤ pod_changes w + 1 = λ f. omega arith in
    Returns-ok _ (p.selector_string app.spec.match_labels) _ _ kept (λ selector _.
      Returns-ok _ (p.patch_app app current.raw) _ _ kept (λ current_app e.
        Returns-ok _ (p.patch_app app update.raw) _ _ kept (λ update_app _.
          with_strategy-few p (o update revisions) app current.name update.name documented quiet
            current_app update_app pods n w _ count small fits (part current_app e) ordered start)))
