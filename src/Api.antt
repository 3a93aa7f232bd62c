-- ===== src/Api.antt =====
-- The objects that the controllers read and write: deployer/api/deployer/v1/app_types.go and
-- deployer/api/deployer/v1/inplace/types.go, with the fields of the Kubernetes objects (Pod,
-- PersistentVolumeClaim, ControllerRevision) that the code touches.
-- Times are nanoseconds since the epoch, and an Option where the code asks `IsZero` or `== nil`.
mod Core
pub use Core.*
use unicore.Prelude.{ℕ, ℤ, Bool, Str, Map, List, Option}

-- apps.StatefulSetUpdateStrategyType; any other string, "" included, is `other_strategy`.
pub data StrategyType : Type 0 where
  rolling_update on_delete other_strategy : StrategyType

-- apps.PodManagementPolicyType
pub data ManagementPolicy : Type 0 where
  ordered_ready parallel other_policy : ManagementPolicy

pub data PodUpdatePolicy : Type 0 where
  unset_policy recreate in_place_if_possible other_update_policy : PodUpdatePolicy

pub record InPlaceStrategy : Type 0 where
  pub grace_period_seconds : ℤ

pub record RollingUpdate : Type 0 where
  pub partition : Option ℤ
  pub max_unavailable : Option IntOrString
  pub pod_update_policy : PodUpdatePolicy
  pub paused : Bool
  pub unordered_update : Bool
  pub in_place_update_strategy : Option InPlaceStrategy
  pub min_ready_seconds : Option ℤ

pub record UpdateStrategy : Type 0 where
  pub strategy_type : StrategyType
  pub rolling : Option RollingUpdate

pub record AppSpec : Type 0 where
  pub replicas : Option ℤ
  pub template : PodTemplate
  pub match_labels : Map Str
  pub volume_claim_templates : List Claim
  pub update_strategy : UpdateStrategy
  pub service_name : Str
  pub revision_history_limit : Option ℤ
  pub pod_management_policy : ManagementPolicy

pub record VolumeClaimStatus : Type 0 where
  pub volume_claim_name : Str
  pub compatible_replicas : ℕ
  pub compatible_ready_replicas : ℕ

-- An int32 counter is given by its 32 bits; `current_replicas`, which the code decrements and
-- compares, by its value.
pub record AppStatus : Type 0 where
  pub observed_generation : ℕ
  pub replicas : ℕ
  pub ready_replicas : ℕ
  pub available_replicas : ℕ
  pub current_replicas : ℤ
  pub updated_replicas : ℕ
  pub updated_ready_replicas : ℕ
  pub updated_available_replicas : ℕ
  pub current_revision : Str
  pub update_revision : Str
  pub conditions : List AppCondition
  pub label_selector : Str
  pub collision_count : Option ℕ
  pub volume_claims : List VolumeClaimStatus

pub record App : Type 0 where
  pub name : Str
  pub namespace : Str
  pub uid : Str
  pub generation : ℕ
  pub finalizers : List Str
  pub deletion_timestamp : Option ℕ
  pub annotations : Map Str
  pub spec : AppSpec
  pub status : AppStatus
