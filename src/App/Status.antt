-- ===== src/App/Status.antt =====
-- replica_status.go, and the status functions of state_controller.go: completeRollingUpdate,
-- statusConsistent and setAppCondition. The revisions are given by their names.
pub mod Counts
pub mod Consistency
use unicore.Prelude.{
  ℕ, ◌+◌, ◌-◌, ◌%◌, ◌^◌, negsuc, ℤ, pos, ltb, ◌==◌, eqb_ℤ, ◌+ℤ◌, if◌then◌else◌, Bool, true, false,
  ◌&&◌, ◌||◌, not, Str, str_eq, is_some, Map, insert, lookup, List, [], ◌∷◌, ◌++◌, Option, none,
  some, keep,
}
use unicore.Api.{
  App, Pod, Phase, no_phase, AppStatus, AppCondition, VolumeClaimStatus, StrategyType,
  rolling_update,
}
use unicore.App.Readiness.{
  get_pod_ready, get_pod_available, get_pod_revision, is_running, same_status,
}

-- The value of the low 32 bits, as an int32.
unfoldable pub wrap32 : ℤ → ℤ
wrap32 (pos n) = let r = n % 2 ^ 32 in if ltb r (2 ^ 31) then pos r else negsuc (2 ^ 32 - 1 - r)
wrap32 (negsuc n) = let r = n % 2 ^ 32 in if ltb r (2 ^ 31) then negsuc r else pos (2 ^ 32 - 1 - r)

-- An int32 counter is given by its 32 bits, a number below 2 ^ 32.
pub record ReplicaStatus : Type 0 where
  pub replicas : ℕ
  pub ready_replicas : ℕ
  pub available_replicas : ℕ
  pub current_replicas : ℕ
  pub updated_replicas : ℕ
  pub updated_ready_replicas : ℕ
  pub updated_available_replicas : ℕ

abbrev pub no_replicas : ReplicaStatus
no_replicas = record {
  replicas = 0;
  ready_replicas = 0;
  available_replicas = 0;
  current_replicas = 0;
  updated_replicas = 0;
  updated_ready_replicas = 0;
  updated_available_replicas = 0;
}

abbrev pub is_created : Phase → Bool
is_created no_phase = false
is_created _ = true

-- `if test { counter++ }`
abbrev bump : Bool → ℕ → ℕ
bump test counter = if test then (counter + 1) % 2 ^ 32 else counter

-- One round of the loop of calcReplicaStatus.
count_pod : ℕ → ℤ → Str → Str → ReplicaStatus → Pod → ReplicaStatus
count_pod now m current update ret pod =
    let created = is_created pod.phase in
    let ready = is_running pod.phase && get_pod_ready pod in
    let updated = str_eq (get_pod_revision pod) update in
    let available = get_pod_available now pod m in
    let live = created && not (is_some pod.deletion_timestamp) in
    record {
      replicas = bump created ret.replicas;
      ready_replicas = bump ready ret.ready_replicas;
      available_replicas = bump (ready && available) ret.available_replicas;
      current_replicas = bump (live && str_eq (get_pod_revision pod) current) ret.current_replicas;
      updated_replicas = bump (live && updated) ret.updated_replicas;
      updated_ready_replicas = bump (ready && updated) ret.updated_ready_replicas;
      updated_available_replicas =
          bump (ready && updated && available) ret.updated_available_replicas;
    }

count_pods : ℕ → ℤ → Str → Str → ReplicaStatus → List Pod → ReplicaStatus
count_pods now m current update ret [] = ret
count_pods now m current update ret (pod ∷ pods) =
    count_pods now m current update (count_pod now m current update ret pod) pods

pub calc_replica_status : ℕ → ℤ → Str → Str → List Pod → ReplicaStatus
unfolding count_pods count_pod
calc_replica_status now m current update pods = count_pods now m current update no_replicas pods

-- The reset of updateStatus, which leaves `updated_ready_replicas` as it is.
abbrev pub reset_counters : AppStatus → AppStatus
reset_counters status = record status {
  replicas = 0;
  ready_replicas = 0;
  available_replicas = 0;
  current_replicas = pos 0;
  updated_replicas = 0;
  updated_available_replicas = 0;
}

pub add_counts : AppStatus → ReplicaStatus → AppStatus
add_counts status r = record status {
  replicas = (status.replicas + r.replicas) % 2 ^ 32;
  ready_replicas = (status.ready_replicas + r.ready_replicas) % 2 ^ 32;
  available_replicas = (status.available_replicas + r.available_replicas) % 2 ^ 32;
  current_replicas = wrap32 (status.current_replicas +ℤ pos r.current_replicas);
  updated_replicas = (status.updated_replicas + r.updated_replicas) % 2 ^ 32;
  updated_ready_replicas = (status.updated_ready_replicas + r.updated_ready_replicas) % 2 ^ 32;
  updated_available_replicas =
      (status.updated_available_replicas + r.updated_available_replicas) % 2 ^ 32;
}

add_lists : ℕ → ℤ → Str → Str → AppStatus → List (List Pod) → AppStatus
add_lists now m current update status [] = status
add_lists now m current update status (pods ∷ lists) =
    add_lists now m current update
      (add_counts status (calc_replica_status now m current update pods)) lists

unfoldable pub update_status : ℕ → ℤ → Str → Str → List (List Pod) → AppStatus → AppStatus
unfolding add_lists add_counts
update_status now m current update lists status =
    add_lists now m current update (reset_counters status) lists

abbrev pub is_rolling : StrategyType → Bool
is_rolling rolling_update = true
is_rolling _ = false

unfoldable pub complete_rolling_update : App → AppStatus → AppStatus
complete_rolling_update app status =
    if is_rolling app.spec.update_strategy.strategy_type
      && status.updated_replicas == status.replicas
      && status.ready_replicas == status.replicas
    then record status {
      current_replicas = wrap32 (pos status.updated_replicas);
      current_revision = status.update_revision;
    }
    else status

-- `vcIndex`, with the claim status itself in place of its position.
claim_index : List VolumeClaimStatus → Map VolumeClaimStatus → Map VolumeClaimStatus
claim_index [] index = index
claim_index (v ∷ vs) index = claim_index vs (insert v.volume_claim_name v index)

abbrev same_claim : VolumeClaimStatus → Option VolumeClaimStatus → Bool
same_claim v none = false
same_claim v (some w) =
    w.compatible_replicas == v.compatible_replicas
    && w.compatible_ready_replicas == v.compatible_ready_replicas

claims_consistent : Map VolumeClaimStatus → List VolumeClaimStatus → Bool
claims_consistent index [] = true
claims_consistent index (v ∷ vs) =
    same_claim v (lookup v.volume_claim_name index) && claims_consistent index vs

unfoldable pub status_consistent : AppStatus → AppStatus → Bool
unfolding claim_index claims_consistent
status_consistent old status =
    not (ltb old.observed_generation status.observed_generation)
    && status.replicas == old.replicas
    && eqb_ℤ status.current_replicas old.current_replicas
    && status.ready_replicas == old.ready_replicas
    && status.available_replicas == old.available_replicas
    && status.updated_replicas == old.updated_replicas
    && str_eq status.current_revision old.current_revision
    && str_eq status.update_revision old.update_revision
    && str_eq status.label_selector old.label_selector
    && claims_consistent (claim_index status.volume_claims []) old.volume_claims

unfoldable pub get_app_condition : Str → List AppCondition → Option AppCondition
get_app_condition t [] = none
get_app_condition t (c ∷ cs) = if str_eq c.condition_type t then some c else get_app_condition t cs

abbrev replace_condition : AppCondition → List AppCondition → List AppCondition
replace_condition new cs =
    keep (λ c. not (str_eq c.condition_type new.condition_type)) cs ++ new ∷ []

-- The part of setAppCondition after the lookup of the condition that the status has.
set_found : Option AppCondition → AppCondition → AppStatus → AppStatus
set_found none new status = record status { conditions = replace_condition new status.conditions }
set_found (some c) new status =
    if same_status c.status new.status && str_eq c.reason new.reason
    then status
    else record status {
      conditions =
          replace_condition
            (if same_status c.status new.status
              then record new { last_transition = c.last_transition }
              else new)
            status.conditions;
    }

unfoldable pub set_app_condition : AppCondition → AppStatus → AppStatus
unfolding set_found
set_app_condition new status =
    set_found (get_app_condition new.condition_type status.conditions) new status
