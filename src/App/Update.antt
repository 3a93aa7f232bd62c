-- ===== src/App/Update.antt =====
-- applyUpdate of state_controller.go: one pass over the pods of an app. It returns the new status and
-- an error; the API calls that it made are in the world.
pub mod Slots
pub mod Replicas
pub mod ScaleDown
pub mod Rolling
pub mod OneChange
use unicore.Prelude.{
  ℕ, ℤ, pos, negsuc, if◌then◌else◌, Bool, true, false, not, ◌||◌, Str, is_some, List, [], ◌∷◌,
  Option, none, some,
}
use unicore.Api.{
  App, AppSpec, AppStatus, Pod, PodTemplate, Revision, RollingUpdate, UpdateStrategy, StrategyType,
  rolling_update, on_delete, other_strategy, ManagementPolicy, parallel, other_policy,
}
use unicore.App.Readiness.{get_min_ready_seconds}
use unicore.App.Status.{update_status, is_rolling}
use unicore.App.Platform.{Platform, World, Failure, Result, ok, err, Attempt, call, send_app}
use unicore.App.Versions.{
  Outcome, value, panic, ◌>>=◌, deref, set_default_rolling_update_strategy, with_rolling,
}
use unicore.App.Update.Slots.{
  place_pods, fill_slots, filled_slots, sort_descending, find_unhealthy, Unhealthy, Place,
}
use unicore.App.Update.Replicas.{Pass, visit_replicas}
use unicore.App.Update.ScaleDown.{scale_down}
use unicore.App.Update.Rolling.{InPlace, Rolled, roll}

pub record Applied : Type 0 where
  pub world : World
  pub status : AppStatus
  pub error : Option Failure

-- `&v1.App{}`, which the generated client returns beside an error
abbrev pub zero_app : App
zero_app = record {
  name = [];
  namespace = [];
  uid = [];
  generation = 0;
  finalizers = [];
  deletion_timestamp = none;
  annotations = [];
  spec = record {
    replicas = none;
    template = record {
      labels = [];
      annotations = [];
      volumes = [];
      readiness_gates = [];
      containers = [];
    };
    match_labels = [];
    volume_claim_templates = [];
    update_strategy = record { strategy_type = other_strategy; rolling = none };
    service_name = [];
    revision_history_limit = none;
    pod_management_policy = other_policy;
  };
  status = record {
    observed_generation = 0;
    replicas = 0;
    ready_replicas = 0;
    available_replicas = 0;
    current_replicas = pos 0;
    updated_replicas = 0;
    updated_ready_replicas = 0;
    updated_available_replicas = 0;
    current_revision = [];
    update_revision = [];
    conditions = [];
    label_selector = [];
    collision_count = none;
    volume_claims = [];
  };
}

abbrev pub is_parallel : ManagementPolicy → Bool
is_parallel parallel = true
is_parallel _ = false

abbrev is_on_delete : StrategyType → Bool
is_on_delete on_delete = true
is_on_delete _ = false

-- The closure that writes the default strategy: `app` becomes what the client returned.
write_strategy : Platform → RollingUpdate → Attempt (World × App)
write_strategy p r (w, app) =
    let (e, w') = call p (send_app (with_rolling r app)) w in
    (e, (w', if is_some e then zero_app else with_rolling r app))

-- The status before the pods are counted.
abbrev initial_status : App → Str → Str → ℕ → Str → AppStatus
initial_status app current update collision_count selector = record zero_app.status {
  current_revision = current;
  update_revision = update;
  observed_generation = app.generation;
  collision_count = some collision_count;
  label_selector = selector;
}

module _ (p : Platform) (in_place : InPlace) (app : App) (current update : Str) where
  -- updateStatus(&status, minReadySeconds, currentRevision, updateRevision, …)
  recount : List (List Pod) → AppStatus → AppStatus
  recount = update_status p.now (get_min_ready_seconds app) current update

  -- From the test of Paused on.
  roll_with : List Pod → World → AppStatus → RollingUpdate → Outcome Applied
  roll_with replicas w status r =
      if r.paused then value (record { world = w; status = status; error = none }) else do
        rolled ← roll p in_place app update r replicas w status
        value (record { world = rolled.world; status = rolled.status; error = rolled.error })

  -- From the rolling update on: `if app.Spec.UpdateStrategy.Type == OnDelete …`
  roll_out : List Pod → World → AppStatus → Outcome Applied
  roll_out replicas w status =
      let done : Applied = record { world = w; status = status; error = none } in
      if is_on_delete app.spec.update_strategy.strategy_type
      then value done
      else if is_some app.deletion_timestamp
      then value done
      else deref app.spec.update_strategy.rolling >>= roll_with replicas w status

  -- From the deletion of the invalid pods on.
  scale_and_roll : List Pod → List Pod → World → AppStatus → Outcome Applied
  scale_and_roll replicas invalid w status =
      let burstable = is_parallel app.spec.pod_management_policy in
      let first = (find_unhealthy replicas invalid).first in
      let down = scale_down p burstable first invalid w in
      let status' = recount (replicas ∷ invalid ∷ []) status in
      if down.should_exit || is_some down.run_err
      then value (record { world = down.world; status = status'; error = down.run_err })
      else roll_out replicas down.world status'

  -- From the loop over the replicas on.
  maintain : List Pod → List Pod → World → AppStatus → Outcome Applied
  maintain replicas invalid w status =
      let start : Pass = record {
        world = w;
        status = status;
        all_available = true;
        run_err = none;
      } in
      let pass =
        visit_replicas p app (get_min_ready_seconds app)
          (is_parallel app.spec.pod_management_policy) replicas start in
      if is_some pass.run_err || not pass.all_available
      then value (record {
        world = pass.world;
        status = recount (replicas ∷ invalid ∷ []) pass.status;
        error = pass.run_err;
      })
      else scale_and_roll replicas invalid pass.world pass.status

  -- `make([]*v1.Pod, replicaCnt)` panics for a negative count.
  with_count : App → App → List Pod → World → AppStatus → ℤ → Outcome Applied
  with_count current_app update_app pods w status (negsuc n) = panic
  with_count current_app update_app pods w status (pos n) = do
    (slots, invalid) ← place_pods n pods
    slots' ← fill_slots p current_app update_app current update n slots
    maintain (filled_slots slots') (sort_descending invalid) w status

  abbrev strategy_needed : Bool
  strategy_needed =
      if is_rolling app.spec.update_strategy.strategy_type
      then (set_default_rolling_update_strategy app).0
      else false

  -- The default strategy is written if one is needed, and the pass ends there.
  with_strategy : App → App → List Pod → World → AppStatus → Outcome Applied
  unfolding write_strategy
  with_strategy current_app update_app pods w status =
      let r = (set_default_rolling_update_strategy app).1 in
      let written = p.retry_on_conflict (World × App) (write_strategy p r) (w, app) in
      if strategy_needed
      then value (record { world = written.1.0; status = status; error = none })
      else do n ← deref app.spec.replicas; with_count current_app update_app pods w status n

abbrev unchanged : App → World → Failure → Outcome Applied
unchanged app w f = value (record { world = w; status = app.status; error = some f })

-- `collision_count` is the counter that UpdateApp read. `in_place` gives the in-place operations for
-- an update revision and the revisions of the app.
unfoldable pub apply_update :
    Platform
    → (Revision → List Revision → InPlace)
    → App
    → Revision
    → Revision
    → ℕ
    → List Pod
    → List Revision
    → World
    → Outcome Applied
unfolding with_strategy with_count maintain scale_and_roll roll_out roll_with recount
apply_update p in_place app current update collision_count pods revisions w =
    elim (p.selector_string app.spec.match_labels) [
      | err f ↦ unchanged app w f
      | ok selector ↦ elim (p.patch_app app current.raw) [
        | err f ↦ unchanged app w f
        | ok current_app ↦ elim (p.patch_app app update.raw) [
          | err f ↦ unchanged app w f
          | ok update_app ↦
              with_strategy p (in_place update revisions) app current.name update.name current_app
                update_app pods w
                (update_status p.now (get_min_ready_seconds app) current.name update.name
                  (pods ∷ [])
                  (initial_status app current.name update.name collision_count selector))
        ]
      ]
    ]
