-- ===== src/Api/Core.antt =====
-- The Kubernetes objects: the fields of v1.Pod, v1.PersistentVolumeClaim, apps.ControllerRevision
-- and apps.StatefulSetCondition that the code reads or writes.
use unicore.Prelude.{ℕ, ℤ, Bool, Str, Map, List, Option}

-- v1.PodPhase; `no_phase` is "", the phase of a pod that has not been created.
pub data Phase : Type 0 where
  no_phase pending running succeeded failed unknown : Phase

pub data ConditionStatus : Type 0 where
  condition_true condition_false condition_unknown : ConditionStatus

pub data IntOrString : Type 0 where
  int_value : ℤ → IntOrString
  string_value : Str → IntOrString

pub record PodCondition : Type 0 where
  pub condition_type : Str
  pub status : ConditionStatus
  pub last_transition : Option ℕ
  pub reason : Str

pub record AppCondition : Type 0 where
  pub condition_type : Str
  pub status : ConditionStatus
  pub last_transition : Option ℕ
  pub reason : Str
  pub message : Str

-- `claim` is the claim name of a persistent volume claim source.
pub record Volume : Type 0 where
  pub name : Str
  pub claim : Option Str

pub record Container : Type 0 where
  pub name : Str
  pub image : Str
  pub cpu_milli : ℕ
  pub memory : ℕ

pub record ContainerStatus : Type 0 where
  pub name : Str
  pub container_id : Str
  pub image_id : Str
  pub ready : Bool
  pub running_since : Option ℕ

pub record Pod : Type 0 where
  pub name : Str
  pub namespace : Str
  pub labels : Map Str
  pub annotations : Map Str
  pub creation_timestamp : ℕ
  pub deletion_timestamp : Option ℕ
  pub phase : Phase
  pub conditions : List PodCondition
  pub container_statuses : List ContainerStatus
  pub volumes : List Volume
  pub readiness_gates : List Str
  pub containers : List Container
  pub hostname : Str
  pub subdomain : Str

pub record PodTemplate : Type 0 where
  pub labels : Map Str
  pub annotations : Map Str
  pub volumes : List Volume
  pub readiness_gates : List Str
  pub containers : List Container

pub record Claim : Type 0 where
  pub name : Str
  pub namespace : Str
  pub labels : Map Str
  pub deletion_timestamp : Option ℕ

pub record Revision : Type 0 where
  pub name : Str
  pub revision : ℕ
  pub annotations : Map Str
  pub raw : Str
