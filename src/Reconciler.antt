-- ===== src/Reconciler.antt =====
-- deployer/internal/controller/app_controller.go: one call of Reconcile for an app.
pub mod Claimed
pub mod Adoption
pub mod Requeue
pub mod Whole
pub mod Finalizer
use unicore.Prelude.{
  ℕ, ◌==◌, ℤ, pos, ltb_ℤ, eqb_ℤ, if◌then◌else◌, Bool, true, false, not, ◌||◌, ◌&&◌, Str, codes,
  str_eq, is_empty, is_some, List, [], ◌∷◌, ◌++◌, Option, none, some, keep,
}
use unicore.Api.{App, AppSpec, Pod, Revision}
use unicore.RequeueDuration.{pop}
use unicore.App.Identity.{get_pod_app_name_and_ordinal}
use unicore.App.Platform.{
  Platform, World, Failure, not_found, other_failure, Result, ok, err, Attempt, call, send_app,
}
use unicore.App.Versions.{Outcome, value, panic, ◌>>=◌}
use unicore.App.Update.{zero_app}
use unicore.App.Update.Replicas.{app_key}
use unicore.App.Update.Rolling.{InPlace}
use unicore.App.Revisions.{History, update_app}

abbrev pub app_finalizer_name : Str
app_finalizer_name = codes "unicore.mcyou.cn/app-finalizer"

-- What finds and adopts the objects of an app: ClaimPods of Kubernetes with the filter that it is
-- given, the controller of a revision, an uncached read, and AdoptControllerRevision.
pub record Owners : Type 0 where
  pub claim_pods : App → (Pod → Bool) → World → Result (List Pod) × World
  pub is_controlled : Revision → Bool
  pub fetch : World → App → Result App
  pub adopt : App → Revision → World → Option Failure × World

pub record Reconciled : Type 0 where
  pub requeue_after : ℤ
  pub requeue : Bool
  pub error : Option Failure
  pub world : World

abbrev plain : Option Failure → World → Reconciled
plain e w = record { requeue_after = pos 0; requeue = false; error = e; world = w }

unfoldable pub has_finalizer : List Str → Bool
has_finalizer [] = false
has_finalizer (f ∷ fs) = str_eq f app_finalizer_name || has_finalizer fs

-- The closures that write the app: `app` becomes what the client returned.
write_app : Platform → Attempt (World × App)
write_app p (w, app) =
    let (e, w') = call p (send_app app) w in (e, (w', if is_some e then zero_app else app))

unfoldable pub write_with_retry : Platform → App → Attempt World
unfolding write_app
write_with_retry p app w =
    let (e, s) = p.retry_on_conflict (World × App) (write_app p) (w, app) in (e, s.0)

-- The filter of getAppPods.
abbrev pub is_pod_of : App → Pod → Bool
is_pod_of app pod = str_eq (get_pod_app_name_and_ordinal pod).0 app.name

unfoldable pub get_app_pods : Owners → App → World → Result (List Pod) × World
get_app_pods o app w = o.claim_pods app (is_pod_of app) w

unfoldable pub list_revisions : Platform → History → App → World → Result (List Revision)
list_revisions p h app w = elim (p.selector_string app.spec.match_labels) [
  | err f ↦ err f
  | ok selector ↦ h.list w app
]

adopt_all : Owners → App → List Revision → Attempt World
adopt_all o app [] w = (none, w)
adopt_all o app (r ∷ rs) w =
    let (e, w') = o.adopt app r w in
    let rest = adopt_all o app rs w' in if is_some e then (e, w') else rest

adopt_checked : Owners → App → List Revision → Result App → Attempt World
adopt_checked o app orphans (err f) w = (some f, w)
adopt_checked o app orphans (ok fresh) w =
    if not (str_eq fresh.uid app.uid) then (some other_failure, w) else adopt_all o app orphans w

adopt_orphans : Owners → App → List Revision → Attempt World
adopt_orphans o app [] w = (none, w)
adopt_orphans o app (r ∷ rs) w = adopt_checked o app (r ∷ rs) (o.fetch w app) w

unfoldable pub adopt_orphan_revisions : Platform → History → Owners → App → Attempt World
unfolding adopt_orphans adopt_checked adopt_all
adopt_orphan_revisions p h o app w = elim (list_revisions p h app w) [
  | err f ↦ (some f, w)
  | ok revisions ↦ adopt_orphans o app (keep (λ r. not (o.is_controlled r)) revisions) w
]

-- `newFinalizers`
abbrev pub other_finalizers : List Str → List Str
other_finalizers fs = keep (λ f. not (str_eq f app_finalizer_name)) fs

-- The deferred function of an app that is being deleted.
unfoldable pub remove_finalizer : Platform → App → List Pod → World → World
unfolding has_finalizer
remove_finalizer p app pods w = if is_empty app.name then w else elim pods [
  | ◌∷◌ pod rest ↦ w
  | [] ↦
      if has_finalizer app.finalizers
      then (write_with_retry p (record app { finalizers = other_finalizers app.finalizers }) w).1
      else w
]

abbrev is_zero : Option ℤ → Bool
is_zero none = false
is_zero (some n) = eqb_ℤ n (pos 0)

module _ (p : Platform) (h : History) (in_place : Revision → List Revision → InPlace) (o : Owners)
    (app : App) where
  -- From the result of UpdateApp on. The stored duration is popped to look whether it is positive,
  -- and popped again to be used.
  after_update : Option Failure × World → Reconciled
  after_update (some f, w) =
      let (after, store) = pop (app_key app) w.durations in
      record {
        requeue_after = after;
        requeue = false;
        error = some f;
        world = record w { durations = store };
      }
  after_update (none, w) =
      let (first, store) = pop (app_key app) w.durations in
      let (second, store') = pop (app_key app) store in
      if ltb_ℤ (pos 0) first
      then record {
        requeue_after = second;
        requeue = true;
        error = none;
        world = record w { durations = store' };
      }
      else plain none (record w { durations = store })

  -- The deferred function runs when the app is being deleted and no error is returned.
  deferred : List Pod → Reconciled → Reconciled
  deferred pods r =
      if is_some app.deletion_timestamp && not (is_some r.error)
      then record r { world = remove_finalizer p app pods r.world }
      else r

  with_pods : List Pod → World → Outcome Reconciled
  with_pods pods w =
      if is_some app.deletion_timestamp && not (is_zero app.spec.replicas)
      then (let (e, w') =
            write_with_retry p (record app { spec = record app.spec { replicas = some (pos 0) } })
              w in
          value (plain e w'))
      else update_app p h in_place (some app) pods w >>= λ r. value (deferred pods (after_update r))

  from_pods : Result (List Pod) × World → Outcome Reconciled
  from_pods (err f, w) = value (plain (some f) w)
  from_pods (ok pods, w) = with_pods pods w

  from_selector : World → Outcome Reconciled
  from_selector w = elim (p.selector_string app.spec.match_labels) [
    | err f ↦ value (plain none w)
    | ok selector ↦
        let (e, w') = adopt_orphan_revisions p h o app w in
        if is_some e then value (plain e w') else from_pods (get_app_pods o app w')
  ]

  pub with_app : World → Outcome Reconciled
  with_app w =
      if not (is_some app.deletion_timestamp) && not (has_finalizer app.finalizers)
      then (let (e, w') =
            write_with_retry p
              (record app { finalizers = app.finalizers ++ app_finalizer_name ∷ [] }) w in
          value (plain e w'))
      else from_selector w

-- From the result of the lister on.
found :
    Platform
    → History
    → (Revision → List Revision → InPlace)
    → Owners
    → Result App
    → World
    → Outcome Reconciled
found p h in_place o (err not_found) w = value (plain none w)
found p h in_place o (err f) w = value (plain (some f) w)
found p h in_place o (ok app) w = with_app p h in_place o app w

unfoldable pub reconcile :
    Platform
    → History
    → (Revision → List Revision → InPlace)
    → Owners
    → (namespace name : Str) → World
    → Outcome Reconciled
unfolding found with_app from_selector from_pods with_pods deferred after_update has_finalizer
reconcile p h in_place o namespace name w =
    found p h in_place o (p.get_app w.calls namespace name) w
