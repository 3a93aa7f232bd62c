-- ===== src/Reconciler/Requeue.antt =====
-- One call of Reconcile for an app that is not managed in parallel, and when it asks to be called again.
use unicore.Prelude.{
  if_either, ℕ, ◌+◌, ◌^◌, ◌≤◌, ◌<◌, pos, ltb_ℤ, ◌≡◌, refl, ◌∙◌, ap, sym, subst, true, false, not,
  ◌&&◌, Str, is_empty, is_some, List, [], ◌∷◌, Option, none, some, arith, All, All-mono,
}
use unicore.Api.{App, Pod, Revision}
use unicore.RequeueDuration.{pop}
use unicore.RequeueDuration.Shortest.{pop-pop}
use unicore.App.Platform.{Platform, World, Failure, Result, ok, err, RetriesAsDocumented}
use unicore.App.Platform.Changes.{pod_changes, pod_changes-quiet}
use unicore.App.Versions.{Returns}
use unicore.App.Versions.Partition.{Returns-ok, Returns-bind, Partitioned}
use unicore.App.Update.{is_parallel}
use unicore.App.Update.Slots.Fill.{NonNegative}
use unicore.App.Update.Replicas.{app_key}
use unicore.App.Update.Rolling.{InPlace}
use unicore.App.Update.Rolling.OneTarget.{QuietInPlace}
use unicore.App.Update.OneChange.{Startable}
use unicore.App.Revisions.{History, limit_of, update_app}
use unicore.App.Revisions.Choice.{QuietHistory, HoldsHistory, AllHeld}
use unicore.App.Revisions.Sync.{update_app_ordered}
use unicore.Reconciler.{
  Owners, Reconciled, is_pod_of, adopt_orphan_revisions, get_app_pods, remove_finalizer,
  after_update, deferred, with_pods, from_pods, from_selector, with_app, has_finalizer, found,
  reconcile, is_zero, other_finalizers,
}
use unicore.Reconciler.Adoption.{
  QuietOwners, write_with_retry-quiet, adopt_orphan_revisions-IsQuiet,
}
use unicore.Reconciler.Claimed.{is_pod_of-NonNegative}

-- What Reconcile leaves: at most one pod changed, and no error goes with no duration.
abbrev pub ReconciledOk : World → Reconciled → Type 0
ReconciledOk w r =
    (pod_changes r.world ≤ pod_changes w + 1) × (r.error ≡ none → r.requeue_after ≡ pos 0)

after_update-ok :
    (p : Platform) (h : History) (in_place : Revision → List Revision → InPlace) (o : Owners)
    (app : App) (r : Option Failure × World)
    → ((after_update p h in_place o app r).error ≡ none
        → (after_update p h in_place o app r).requeue_after ≡ pos 0)
      × (pod_changes (after_update p h in_place o app r).world ≡ pod_changes r.1)
unfolding after_update pod_changes
after_update-ok p h in_place o app (some f, w) = (λ e. cc, refl)
after_update-ok p h in_place o app (none, w) =
    if_either
      (λ (r : Reconciled).
        (r.error ≡ none → r.requeue_after ≡ pos 0) × (pod_changes r.world ≡ pod_changes w))
      (ltb_ℤ (pos 0) (pop (app_key app) w.durations).0) _ _
      ((λ e. pop-pop (app_key app) w.durations), refl) ((λ e. refl), refl)

module _ (p : Platform) (h : History) (in_place : Revision → List Revision → InPlace) (o : Owners)
    (app : App) (n limit : ℕ) (documented : RetriesAsDocumented p) (quiet_history : QuietHistory h)
    (Held : Str → Type 0) (holds : HoldsHistory h Held)
    (quiet_in_place : (u : Revision) (rs : List Revision)
      → Held u.raw
      → AllHeld Held rs
      → QuietInPlace (in_place u rs))
    (quiet : QuietOwners o) (named : is_empty app.name ≡ false)
    (ordered : is_parallel app.spec.pod_management_policy ≡ false)
    (count : app.spec.replicas ≡ some (pos n)) (small : n < 2 ^ 63)
    (limited : limit_of app.spec.revision_history_limit ≡ pos limit)
    (start : Startable app.spec.update_strategy.rolling)
    (patched : (a : App) (r : Revision)
      → p.patch_app app r.raw ≡ ok a
      → Partitioned a.spec.update_strategy.rolling) where
  removed-quiet :
      (pods : List Pod) (w : World) → pod_changes (remove_finalizer p app pods w) ≡ pod_changes w
  unfolding remove_finalizer
  removed-quiet (pod ∷ pods) w = ground arith
  removed-quiet [] w = ground (
    arith,
    write_with_retry-quiet p (record app { finalizers = other_finalizers app.finalizers }) w
        documented,
  )

  deferred-ok :
      (pods : List Pod) (w : World) (r : Reconciled)
      → ReconciledOk w r
      → ReconciledOk w (deferred p h in_place o app pods r)
  unfolding deferred
  deferred-ok pods w r (few, after) =
      if_either (ReconciledOk w) (is_some app.deletion_timestamp && not (is_some r.error)) _ r
        (omega (arith, removed-quiet pods r.world), after) (few, after)

  with_pods-ok :
      (pods : List Pod) (w : World)
      → All NonNegative pods
      → Returns (ReconciledOk w) (with_pods p h in_place o app pods w)
  unfolding with_pods
  with_pods-ok pods w numbered =
      let written =
        write_with_retry-quiet p (record app { spec = record app.spec { replicas = some (pos 0) } })
          w documented in
      if_either (Returns (ReconciledOk w))
        (is_some app.deletion_timestamp && not (is_zero app.spec.replicas)) _ _
        (omega (arith, written), λ e. refl)
        (Returns-bind (λ r. pod_changes r.1 ≤ pod_changes w + 1) (ReconciledOk w)
          (update_app p h in_place (some app) pods w) _
          (update_app_ordered p h in_place app pods n limit w Held documented quiet_history holds
            quiet_in_place ordered count small limited start patched numbered)
          (λ r few.
            let (after, same) = after_update-ok p h in_place o app r in
            deferred-ok pods w (after_update p h in_place o app r)
              (omega (arith, few, same), after)))

  -- From a world in which no pod has changed since `w`.
  from_pods-ok :
      (w : World) (claimed : Result (List Pod) × World)
      → pod_changes claimed.1 ≡ pod_changes w
      → ((pods : List Pod) → claimed.0 ≡ ok pods → All NonNegative pods)
      → Returns (ReconciledOk w) (from_pods p h in_place o app claimed)
  unfolding from_pods
  from_pods-ok w (err f, v) same numbered = (omega (arith, same), λ e. refl)
  from_pods-ok w (ok pods, v) same numbered =
      subst
        (λ k.
          Returns
            (λ (r : Reconciled).
              (pod_changes r.world ≤ k + 1) × (r.error ≡ none → r.requeue_after ≡ pos 0))
            (with_pods p h in_place o app pods v))
        same (with_pods-ok pods v (numbered pods refl))

  claimed-NonNegative :
      (w : World) (pods : List Pod) → (get_app_pods o app w).0 ≡ ok pods → All NonNegative pods
  unfolding get_app_pods
  claimed-NonNegative w pods e =
      All-mono (λ pod. is_pod_of app pod ≡ true) NonNegative
        (λ pod h. is_pod_of-NonNegative app pod named h) pods
        (quiet.filtered app (is_pod_of app) w pods e)

  from_selector-ok : (w : World) → Returns (ReconciledOk w) (from_selector p h in_place o app w)
  unfolding from_selector
  from_selector-ok w =
      let w' = (adopt_orphan_revisions p h o app w).1 in
      let adopted = pod_changes-quiet (adopt_orphan_revisions-IsQuiet o quiet app p h w) in
      let claimed : pod_changes (get_app_pods o app w').1 ≡ pod_changes w' =
        pod_changes-quiet (unfold get_app_pods in quiet.claims app (is_pod_of app) w') in
      Returns-ok (ReconciledOk w) (p.selector_string app.spec.match_labels) _ _
        (λ f. (omega arith, λ e. refl))
        (λ selector _.
          if_either (Returns (ReconciledOk w)) (is_some (adopt_orphan_revisions p h o app w).0) _ _
            (omega (arith, adopted), λ e. refl)
            (from_pods-ok w (get_app_pods o app w') (claimed ∙ adopted) (claimed-NonNegative w')))

  with_app-ok : (w : World) → Returns (ReconciledOk w) (with_app p h in_place o app w)
  unfolding with_app
  with_app-ok w =
      if_either (Returns (ReconciledOk w))
        (not (is_some app.deletion_timestamp) && not (has_finalizer app.finalizers)) _ _
        (omega (arith, write_with_retry-quiet p _ w documented), λ e. refl) (from_selector-ok w)

pub reconcile-with_app :
    (p : Platform) (h : History) (in_place : Revision → List Revision → InPlace) (o : Owners)
    (namespace name : Str) (w : World) (app : App)
    → p.get_app w.calls namespace name ≡ ok app
    → reconcile p h in_place o namespace name w ≡ with_app p h in_place o app w
unfolding reconcile found
reconcile-with_app p h in_place o namespace name w app e = ap (λ r. found p h in_place o r w) e

-- One call of Reconcile for an app with a name that is not managed in parallel does not panic,
-- creates or deletes at most one pod, and when it returns no error, the duration after which it
-- asks to be called again is 0. The app has a replica count in the range of an int, a history
-- limit that is not negative and a rolling update with a partition from 0 up, and every revision
-- gives an app whose rolling update has a partition. The retries are as documented; for revisions whose
-- data satisfy Held, as those of the history do, the in-place update does not panic; it, the history of revisions, claiming and adopting neither create nor
-- delete pods; no equal revision is found in an empty list; and ClaimPods gives only pods that pass
-- its filter.
pub reconcile_ordered :
    (p : Platform) (h : History) (in_place : Revision → List Revision → InPlace) (o : Owners)
    (namespace name : Str) (w : World) (app : App) (n limit : ℕ) (Held : Str → Type 0)
    → p.get_app w.calls namespace name ≡ ok app
    → RetriesAsDocumented p
    → QuietHistory h
    → HoldsHistory h Held
    → ((u : Revision) (rs : List Revision)
        → Held u.raw
        → AllHeld Held rs
        → QuietInPlace (in_place u rs))
    → QuietOwners o
    → is_empty app.name ≡ false
    → is_parallel app.spec.pod_management_policy ≡ false
    → app.spec.replicas ≡ some (pos n)
    → n < 2 ^ 63
    → limit_of app.spec.revision_history_limit ≡ pos limit
    → Startable app.spec.update_strategy.rolling
    → ((a : App) (r : Revision)
        → p.patch_app app r.raw ≡ ok a
        → Partitioned a.spec.update_strategy.rolling)
    → Returns
        (λ r.
          (pod_changes r.world ≤ pod_changes w + 1) × (r.error ≡ none → r.requeue_after ≡ pos 0))
        (reconcile p h in_place o namespace name w)
reconcile_ordered p h in_place o namespace name w app n limit Held e documented quiet_history holds
      quiet_in_place quiet named ordered count small limited start patched =
    subst (Returns (ReconciledOk w))
      (sym (reconcile-with_app p h in_place o namespace name w app e))
      (with_app-ok p h in_place o app n limit documented quiet_history Held holds quiet_in_place
        quiet named ordered count small limited start patched w)
