-- ===== src/App/Update/Replicas.antt =====
-- applyUpdate, the loop over the replicas: it deletes what has ended, creates what is missing, and
-- stops at the first pod that has to be waited for.
pub mod Ordered
pub mod Parallel
use unicore.Prelude.{
  ℤ, pos, ltb_ℤ, if◌then◌else◌, Bool, true, false, not, ◌||◌, Str, codes, is_some, List, [], ◌∷◌,
  ◌++◌, Option, none, some,
}
use unicore.Api.{
  App, Pod, AppStatus, AppCondition, condition_true, Phase, no_phase, pending, running, succeeded,
  failed, unknown,
}
use unicore.RequeueDuration.{push}
use unicore.App.Identity.{match_app_and_pod, match_app_pvc}
use unicore.App.Readiness.{get_pod_available_and_next_check_interval}
use unicore.App.Status.{set_app_condition}
use unicore.App.Platform.{Platform, World, Failure}
use unicore.App.PodControl.{
  create_pvc, create_stateful_pod, update_stateful_pod, delete_stateful_pod,
}

-- The variables of the loop.
pub record Pass : Type 0 where
  pub world : World
  pub status : AppStatus
  pub all_available : Bool
  pub run_err : Option Failure

-- `break`, or on to the next replica
pub data Step : Type 0 where
  go_on stop : Pass → Step

abbrev pub app_key : App → Str
app_key app = app.namespace ++ b'/' ∷ app.name

abbrev failed_create : Str
failed_create = codes "FailedCreatePod"

abbrev failed_update : Str
failed_update = codes "FailedUpdatePod"

abbrev pub push_if_positive : App → ℤ → World → World
push_if_positive app interval w =
    if ltb_ℤ (pos 0) interval
    then record w { durations = push (app_key app) interval w.durations }
    else w

module _ (p : Platform) (app : App) (min_ready : ℤ) (burstable : Bool) where
  failure_condition : Str → Str → Pod → Failure → AppCondition
  failure_condition condition_type what pod f = record {
    condition_type = condition_type;
    status = condition_true;
    last_transition = none;
    reason = [];
    message = what ++ pod.name ++ codes ": " ++ p.failure_text f;
  }

  -- An error of a step that also sets a condition.
  note_failure : Str → Str → Pod → Option Failure → Pass → Pass
  note_failure condition_type what pod none s = s
  note_failure condition_type what pod (some f) s = record s {
    status = set_app_condition (failure_condition condition_type what pod f) s.status;
    run_err = some f;
  }

  check_identity : Pod → Pass → Step
  check_identity pod s =
      if not (match_app_and_pod app pod) || not (match_app_pvc app pod)
      then (let (e, w) = update_stateful_pod p app pod s.world in
          let s' =
            note_failure failed_update (codes "failed to update pod ") pod e
              (record s { world = w }) in
          if is_some e then stop s' else go_on s')
      else go_on s

  check_available : Pod → Pass → Step
  check_available pod s =
      let (available, interval) = get_pod_available_and_next_check_interval p.now pod min_ready in
      if available
      then check_identity pod s
      else stop (record s {
        all_available = if burstable then s.all_available else false;
        world = push_if_positive app interval s.world;
      })

  check_terminating : Pod → Pass → Step
  check_terminating pod s =
      if is_some pod.deletion_timestamp
      then stop (record s { all_available = if burstable then s.all_available else false })
      else check_available pod s

  abbrev or_earlier : Option Failure → Option Failure → Option Failure
  or_earlier none earlier = earlier
  or_earlier (some f) earlier = some f

  -- A pod that has failed or succeeded is deleted.
  restart : Pod → Pass → Step
  restart pod s =
      let (e, w) = delete_stateful_pod p pod s.world in
      if is_some pod.deletion_timestamp
      then stop (record s { all_available = false })
      else stop (record s { all_available = false; world = w; run_err = or_earlier e s.run_err })

  create : Pod → Pass → Step
  create pod s =
      let (e, w) = create_stateful_pod p app pod s.world in
      let s' =
        note_failure failed_create (codes "failed to create pod ") pod e
          (record s { all_available = false; world = w }) in
      if burstable then go_on s' else stop s'

  await_claims : Pod → Pass → Step
  await_claims pod s =
      let (e, w) = create_pvc p app pod s.world in
      let s' = record s { all_available = false; world = w } in
      if is_some e then stop (record s' { run_err = e }) else check_terminating pod s'

  by_phase : Phase → Pod → Pass → Step
  by_phase failed pod s = restart pod s
  by_phase succeeded pod s = restart pod s
  by_phase no_phase pod s = create pod s
  by_phase pending pod s = await_claims pod s
  by_phase running pod s = check_terminating pod s
  by_phase unknown pod s = check_terminating pod s

  unfoldable pub visit_replica : Pod → Pass → Step
  unfolding by_phase restart create await_claims check_terminating check_available check_identity
      note_failure failure_condition
  visit_replica pod s = by_phase pod.phase pod s

  unfoldable pub visit_replicas : List Pod → Pass → Pass
  visit_replicas [] s = s
  visit_replicas (pod ∷ pods) s = elim (visit_replica pod s) [
    | go_on s' ↦ visit_replicas pods s'
    | stop s' ↦ s'
  ]
