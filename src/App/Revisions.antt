-- ===== src/App/Revisions.antt =====
-- UpdateApp of state_controller.go: the revisions of an app, the write of its status, and the history
-- of revisions that it keeps.
pub mod Truncation
pub mod StatusWrites
pub mod Choice
pub mod Sync
use unicore.Prelude.{
  ℕ, zero, suc, ◌+◌, ◌-◌, ℤ, pos, negsuc, ltb, leb, if◌then◌else◌, Bool, true, false, not, ◌||◌,
  Str, str_eq, Map, insert, lookup, is_some, List, [], ◌∷◌, Option, none, some, keep, length, take,
}
use unicore.Api.{App, AppStatus, Pod, Revision}
use unicore.App.Readiness.{get_pod_revision}
use unicore.App.Platform.{
  Platform, World, Failure, other_failure, Result, ok, err, Attempt, call, send_app_status,
  delete_revision,
}
use unicore.App.Status.{complete_rolling_update, status_consistent}
use unicore.App.Versions.{Outcome, value, panic, ◌>>=◌}
use unicore.App.Update.{Applied, apply_update}
use unicore.App.Update.Rolling.{InPlace}

-- k8s.io/kubernetes/pkg/controller/history, and getAppPatch. Creating a revision may raise the
-- collision count.
pub record History : Type 0 where
  pub list : World → App → Result (List Revision)
  pub sort : List Revision → List Revision
  pub patch_of : App → Result Str
  pub new_revision : App → (patch : Str) (id collision_count : ℕ) → Result Revision
  pub equal : Revision → Revision → Bool
  pub find_equal : List Revision → Revision → List Revision
  pub update : Revision → ℕ → World → Result Revision × World
  pub create : App → Revision → ℕ → World → (Result Revision × ℕ) × World

abbrev last_of : List Revision → Option Revision
last_of [] = none
last_of (r ∷ []) = some r
last_of (r ∷ q ∷ rs) = last_of (q ∷ rs)

abbrev next_id : Option Revision → ℕ
next_id none = 1
next_id (some r) = r.revision + 1

abbrev count_or_zero : Option ℕ → ℕ
count_or_zero none = 0
count_or_zero (some n) = n

-- `for k, v := range app.Annotations { cr.ObjectMeta.Annotations[k] = v }`
copy_annotations : Map Str → Map Str → Map Str
copy_annotations [] out = out
copy_annotations ((k, v) ∷ m) out = copy_annotations m (insert k v out)

-- The revision to update to, with the collision count, and the world after it was written.
pub record Chosen : Type 0 where
  pub revision : Revision
  pub collision_count : ℕ
  pub world : World

abbrev written : ℕ → Result Revision × World → Result Chosen × World
written n (err f, w) = (err f, w)
written n (ok r, w) = (ok (record { revision = r; collision_count = n; world = w }), w)

abbrev created : (Result Revision × ℕ) × World → Result Chosen × World
created ((r, n), w) = written n (r, w)

module _ (h : History) (app : App) where
  -- `revisions` are sorted; `cr` is the revision made from the app. An equal revision without any
  -- revision would be an index out of range.
  pub choose : List Revision → Revision → ℕ → World → Outcome (Result Chosen × World)
  choose revisions cr n w = elim (last_of (h.find_equal revisions cr)) [
    | none ↦ value (created (h.create app cr n w))
    | some same ↦ elim (last_of revisions) [
      | none ↦ panic
      | some newest ↦
          if h.equal newest same
          then value (ok (record { revision = newest; collision_count = n; world = w }), w)
          else value (written n (h.update same cr.revision w))
    ]
  ]

find_named : Str → List Revision → Option Revision
find_named name [] = none
find_named name (r ∷ rs) = if str_eq r.name name then some r else find_named name rs

-- `currentRevision`, the update revision if the status names none
abbrev or_revision : Option Revision → Revision → Revision
or_revision none r = r
or_revision (some c) r = c

module _ (p : Platform) where
  -- The app that the next attempt works on.
  abbrev reread_app : App → Result App → App
  reread_app app (ok fresh) = fresh
  reread_app app (err f) = app

  -- The closure that updateAppStatus retries.
  status_attempt : AppStatus → Attempt (World × App)
  status_attempt status (w, app) =
      let app' = record app { status = status } in
      let (e, w') = call p (send_app_status app' status) w in
      (
        e,
        (
          w',
          if is_some e then reread_app app' (p.get_app w'.calls app.namespace app.name) else app',
        ),
      )

  -- The error, and the world.
  unfoldable pub update_app_status : App → AppStatus → Attempt World
  unfolding status_attempt
  update_app_status app status w =
      let status' = complete_rolling_update app status in
      let (e, s) = p.retry_on_conflict (World × App) (status_attempt status') (w, app) in
      if status_consistent app.status status' then (none, w) else (e, s.0)

  -- The first error ends the loop.
  unfoldable pub delete_revisions : List Revision → Attempt World
  delete_revisions [] w = (none, w)
  delete_revisions (r ∷ rs) w =
      let (e, w') = call p (delete_revision r) w in
      let rest = delete_revisions rs w' in if is_some e then (e, w') else rest

-- A revision that is in use: the current one, the update one, or that of a pod.
pod_uses : Str → List Pod → Bool
pod_uses name [] = false
pod_uses name (pod ∷ pods) = str_eq (get_pod_revision pod) name || pod_uses name pods

unfoldable pub is_live : List Pod → Revision → Revision → Revision → Bool
unfolding pod_uses
is_live pods current update r =
    str_eq current.name r.name || str_eq update.name r.name || pod_uses r.name pods

abbrev pub limit_of : Option ℤ → ℤ
limit_of none = pos 10
limit_of (some n) = n

abbrev after_deletions : Option Failure × World → Outcome (Option Failure × World)
after_deletions (some f, w) = value (some f, w)
after_deletions (none, w) = panic

-- `history[:len(history)-limit]`. Past its length the slice goes on to its capacity, that of all
-- revisions, with nil pointers.
truncate_to : Platform → ℕ → List Revision → ℤ → World → Outcome (Option Failure × World)
truncate_to p capacity dead (pos n) w = value (delete_revisions p (take (length dead - n) dead) w)
truncate_to p capacity dead (negsuc n) w =
    if ltb capacity (length dead + suc n)
    then panic
    else after_deletions (delete_revisions p dead w)

unfoldable pub truncate_history :
    Platform
    → App
    → List Pod
    → List Revision
    → Revision
    → Revision
    → World
    → Outcome (Option Failure × World)
unfolding truncate_to
truncate_history p app pods revisions current update w =
    truncate_to p (length revisions) (keep (λ r. not (is_live pods current update r)) revisions)
      (limit_of app.spec.revision_history_limit) w

abbrev first_error : Option Failure → Option Failure → Option Failure
first_error (some f) other = some f
first_error none other = other

module _ (p : Platform) (h : History) (o : Revision → List Revision → InPlace) (app : App)
    (pods : List Pod) where
  -- From the update of the status on.
  finish : List Revision → Revision → Revision → Applied → Outcome (Option Failure × World)
  finish revisions current update applied =
      let (e, w) = update_app_status p app applied.status applied.world in
      truncate_history p app pods revisions current update w >>= λ r.
      value (first_error (first_error applied.error e) r.0, r.1)

  -- From the choice of the update revision on.
  with_chosen : List Revision → Result Chosen × World → Outcome (Option Failure × World)
  with_chosen revisions (err f, w) = value (some f, w)
  with_chosen revisions (ok c, w) =
      let current = or_revision (find_named app.status.current_revision revisions) c.revision in
      apply_update p o app current c.revision c.collision_count pods revisions c.world
      >>= finish revisions current c.revision

  with_revision : List Revision → Result Revision → World → Outcome (Option Failure × World)
  with_revision revisions (err f) w = value (some f, w)
  with_revision revisions (ok made) w =
      let cr = record made { annotations = copy_annotations app.annotations made.annotations } in
      choose h app revisions cr (count_or_zero app.status.collision_count) w
      >>= with_chosen revisions

  with_listed : Result (List Revision) → World → Outcome (Option Failure × World)
  with_listed (err f) w = value (some f, w)
  with_listed (ok listed) w =
      let revisions = h.sort listed in
      elim (h.patch_of app) [
        | err f ↦ value (some f, w)
        | ok patch ↦
            with_revision revisions
              (h.new_revision app patch (next_id (last_of revisions))
                (count_or_zero app.status.collision_count))
              w
      ]

  -- The body for an app that is not nil.
  sync : World → Outcome (Option Failure × World)
  sync w = elim (p.selector_string app.spec.match_labels) [
    | err f ↦ value (some f, w)
    | ok selector ↦ with_listed (h.list w app) w
  ]

unfoldable pub update_app :
    Platform
    → History
    → (Revision → List Revision → InPlace)
    → Option App
    → List Pod
    → World
    → Outcome (Option Failure × World)
unfolding sync with_listed with_revision with_chosen finish choose copy_annotations find_named
update_app p h o none pods w = value (some other_failure, w)
update_app p h o (some app) pods w = sync p h o app pods w
