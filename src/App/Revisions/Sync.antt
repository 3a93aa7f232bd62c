-- ===== src/App/Revisions/Sync.antt =====
-- One run of UpdateApp for an app that is not managed in parallel.
use unicore.Prelude.{
  ℕ, ◌+◌, ◌^◌, ◌≤◌, ◌<◌, pos, ◌≡◌, refl, sym, subst, false, List, Str, Option, some, arith, All,
}
use unicore.Api.{App, AppStatus, Pod, Revision}
use unicore.App.Platform.{Platform, World, Call, Failure, Result, ok, err, RetriesAsDocumented}
use unicore.App.Platform.Traces.{Extends-mono}
use unicore.App.Platform.Changes.{pod_changes, pod_changes-quiet, IsQuiet}
use unicore.App.Status.{complete_rolling_update}
use unicore.App.Versions.{Returns}
use unicore.App.Versions.Partition.{Returns-ok, Returns-bind, Returns-mono, Partitioned}
use unicore.App.Update.{Applied, is_parallel, apply_update}
use unicore.App.Update.Slots.Fill.{NonNegative}
use unicore.App.Update.Rolling.{InPlace}
use unicore.App.Update.Rolling.OneTarget.{QuietInPlace}
use unicore.App.Update.OneChange.{Startable, apply_update_ordered}
use unicore.App.Revisions.{
  History, Chosen, or_revision, find_named, choose, update_app_status, limit_of, truncate_history,
  finish, with_chosen, with_revision, with_listed, sync, update_app,
}
use unicore.App.Revisions.Choice.{AllHeld, QuietHistory, HoldsHistory, ChosenOk, choose-ok}
use unicore.App.Revisions.Truncation.{DeletesUnused, truncate_history_lem}
use unicore.App.Revisions.StatusWrites.{WritesStatus, update_app_status_lem}

DeletesUnused-IsQuiet :
    (pods : List Pod) (current update : Revision) (c : Call)
    → DeletesUnused pods current update c
    → IsQuiet c
DeletesUnused-IsQuiet pods current update c (r, a, b, d, e) = subst IsQuiet (sym e) refl

WritesStatus-IsQuiet : (status : AppStatus) (c : Call) → WritesStatus status c → IsQuiet c
WritesStatus-IsQuiet status c (a, e) = subst IsQuiet (sym e) refl

module _ (p : Platform) (h : History) (o : Revision → List Revision → InPlace) (app : App)
    (pods : List Pod) (limit : ℕ) (documented : RetriesAsDocumented p)
    (limited : limit_of app.spec.revision_history_limit ≡ pos limit) where
  truncate-quiet :
      (revisions : List Revision) (current update : Revision) (w : World)
      → Returns
          (λ r. pod_changes r.1 ≡ pod_changes w)
          (truncate_history p app pods revisions current update w)
  truncate-quiet revisions current update w =
      Returns-mono _ (λ r. pod_changes r.1 ≡ pod_changes w)
        (truncate_history p app pods revisions current update w)
        (truncate_history_lem p app pods revisions current update limit w limited)
        (λ r kept. pod_changes-quiet (
          Extends-mono (DeletesUnused pods current update) IsQuiet
            (DeletesUnused-IsQuiet pods current update) kept.0))

  finish-few :
      (k : ℕ) (revisions : List Revision) (current update : Revision) (applied : Applied)
      → pod_changes applied.world ≤ k
      → Returns (λ r. pod_changes r.1 ≤ k) (finish p h o app pods revisions current update applied)
  unfolding finish
  finish-few k revisions current update applied few =
      let status' = complete_rolling_update app applied.status in
      let w = (update_app_status p app applied.status applied.world).1 in
      let same = pod_changes-quiet (
        Extends-mono (WritesStatus status') IsQuiet (WritesStatus-IsQuiet status')
          (update_app_status_lem p app applied.status applied.world documented).0) in
      Returns-bind (λ r. pod_changes r.1 ≡ pod_changes w) _
        (truncate_history p app pods revisions current update w) _
        (truncate-quiet revisions current update w) (λ r kept. omega (arith, kept, same))

  module _ (n : ℕ) (quiet : QuietHistory h) (Held : Str → Type 0) (holds : HoldsHistory h Held)
      (in_place : (u : Revision) (rs : List Revision)
        → Held u.raw
        → AllHeld Held rs
        → QuietInPlace (o u rs))
      (ordered : is_parallel app.spec.pod_management_policy ≡ false)
      (count : app.spec.replicas ≡ some (pos n)) (small : n < 2 ^ 63)
      (start : Startable app.spec.update_strategy.rolling)
      (patched : (a : App) (r : Revision)
        → p.patch_app app r.raw ≡ ok a
        → Partitioned a.spec.update_strategy.rolling)
      (numbered : All NonNegative pods) where
    abbrev Few : World → Option Failure × World → Type 0
    Few w r = pod_changes r.1 ≤ pod_changes w + 1

    with_chosen-Few :
        (revisions : List Revision) (w : World) (c : Result Chosen × World)
        → AllHeld Held revisions
        → ChosenOk Held w c
        → Returns (Few w) (with_chosen p h o app pods revisions c)
    unfolding with_chosen
    with_chosen-Few revisions w (err f, v) all same = omega (arith, same)
    with_chosen-Few revisions w (ok c, v) all (same, chosen) =
        let current = or_revision (find_named app.status.current_revision revisions) c.revision in
        Returns-bind (λ a. pod_changes a.world ≤ pod_changes c.world + 1) (Few w)
          (apply_update p o app current c.revision c.collision_count pods revisions c.world) _
          (apply_update_ordered p o app current c.revision c.collision_count n pods revisions
            c.world documented (in_place c.revision revisions chosen all) ordered count small start
            (λ a e. patched a current e) numbered)
          (λ applied few.
            finish-few (pod_changes w + 1) revisions current c.revision applied
              (omega (arith, few, same)))

    with_revision-Few :
        (revisions : List Revision) (made : Result Revision) (w : World)
        → AllHeld Held revisions
        → ((r : Revision) → made ≡ ok r → Held r.raw)
        → Returns (Few w) (with_revision p h o app pods revisions made w)
    unfolding with_revision
    with_revision-Few revisions (err f) w all new = omega arith
    with_revision-Few revisions (ok made) w all new =
        Returns-bind (ChosenOk Held w) (Few w) (choose h app revisions _ _ w) _
          (choose-ok h app quiet Held holds revisions _ _ w all (new made refl))
          (λ c same. with_chosen-Few revisions w c all same)

    with_listed-Few :
        (listed : Result (List Revision)) (w : World)
        → ((rs : List Revision) → listed ≡ ok rs → AllHeld Held rs)
        → Returns (Few w) (with_listed p h o app pods listed w)
    unfolding with_listed
    with_listed-Few (err f) w all = omega arith
    with_listed-Few (ok listed) w all =
        let kept : Failure → pod_changes w ≤ pod_changes w + 1 = λ f. omega arith in
        Returns-ok (Few w) (h.patch_of app) _ _ kept (λ patch e.
          with_revision-Few (h.sort listed) _ w (holds.sorts listed (all listed refl))
            (λ r made. holds.makes app patch _ _ r made))

-- One run of UpdateApp for an app that is not managed in parallel does not panic and creates or
-- deletes at most one pod, whatever the API server answers. The app has a replica count in the
-- range of an int, a history limit that is not negative and a rolling update with a partition from
-- 0 up, every revision gives an app whose rolling update has a partition, and every pod has an
-- ordinal from 0 up. The retries are as documented; for revisions whose data satisfy
-- Held, as those of the history do, the in-place update does not panic; it and the
-- history neither create nor delete pods; and no equal revision is found in an empty
-- list.
pub update_app_ordered :
    (p : Platform) (h : History) (o : Revision → List Revision → InPlace) (app : App)
    (pods : List Pod) (n limit : ℕ) (w : World) (Held : Str → Type 0)
    → RetriesAsDocumented p
    → QuietHistory h
    → HoldsHistory h Held
    → ((u : Revision) (rs : List Revision) → Held u.raw → AllHeld Held rs → QuietInPlace (o u rs))
    → is_parallel app.spec.pod_management_policy ≡ false
    → app.spec.replicas ≡ some (pos n)
    → n < 2 ^ 63
    → limit_of app.spec.revision_history_limit ≡ pos limit
    → Startable app.spec.update_strategy.rolling
    → ((a : App) (r : Revision)
        → p.patch_app app r.raw ≡ ok a
        → Partitioned a.spec.update_strategy.rolling)
    → All NonNegative pods
    → Returns (λ r. pod_changes r.1 ≤ pod_changes w + 1) (update_app p h o (some app) pods w)
unfolding update_app sync
update_app_ordered p h o app pods n limit w Held documented quiet holds in_place ordered count small
      limited start patched numbered =
    let kept : Failure → pod_changes w ≤ pod_changes w + 1 = λ f. omega arith in
    Returns-ok (λ r. pod_changes r.1 ≤ pod_changes w + 1) (p.selector_string app.spec.match_labels)
      _ _ kept
      (λ selector e.
        with_listed-Few p h o app pods limit documented limited n quiet Held holds in_place ordered
          count small start patched numbered (h.list w app) w (λ rs e. holds.lists w app rs e))
