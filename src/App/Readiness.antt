-- ===== src/App/Readiness.antt =====
-- What the controller reads off a pod's conditions and labels: the readiness functions of utils.go
-- and the condition and gate functions of inplace_update.go.
pub mod Conditions
use unicore.Prelude.{
  ℕ, ◌*◌, ◌+◌, ◌-◌, ◌^◌, ℤ, pos, ltb, ltb_ℤ, eqb_ℤ, scale, ◌+ℤ◌, ◌-ℤ◌, if◌then◌else◌, Bool, true,
  false, ◌&&◌, ◌||◌, not, Str, codes, str_eq, lookup, get_or_empty, List, [], ◌∷◌, ◌++◌, Option,
  none, some,
}
use unicore.Api.{
  App, Pod, PodCondition, Phase, running, ConditionStatus, condition_true, condition_false,
  condition_unknown,
}

-- apps.StatefulSetRevisionLabel, which Kubernetes defines as ControllerRevisionHashLabelKey
abbrev pub revision_label : Str
revision_label = codes "controller-revision-hash"

-- v1.PodReady
abbrev pub pod_ready : Str
pod_ready = codes "Ready"

abbrev pub in_place_update_ready : Str
in_place_update_ready = codes "InPlaceUpdateReady"

-- time.Second
abbrev pub second : ℕ
second = 1000000000

unfoldable pub find_condition : Str → List PodCondition → Option PodCondition
find_condition t [] = none
find_condition t (c ∷ cs) = if str_eq c.condition_type t then some c else find_condition t cs

ready_in : List PodCondition → Bool
ready_in [] = false
ready_in (c ∷ cs) = str_eq c.condition_type pod_ready || ready_in cs

unfoldable pub get_pod_ready : Pod → Bool
unfolding ready_in
get_pod_ready pod = ready_in pod.conditions

unfoldable pub get_pod_ready_condition : Pod → Option PodCondition
unfolding find_condition
get_pod_ready_condition pod = find_condition pod_ready pod.conditions

unfoldable pub get_min_ready_seconds : App → ℤ
get_min_ready_seconds app = elim app.spec.update_strategy.rolling [
  | none ↦ pos 0
  | some r ↦ elim r.min_ready_seconds [ none ↦ pos 0 | some m ↦ m ]
]

-- t + m seconds, as an integer number of nanoseconds
abbrev pub after_seconds : ℕ → ℤ → ℤ
after_seconds t m = pos t +ℤ scale m second

abbrev transition_passed : ℕ → ℤ → Option ℕ → Bool
transition_passed now m none = false
transition_passed now m (some t) = ltb_ℤ (after_seconds t m) (pos now)

-- `now` is the reading of time.Now().
unfoldable pub get_pod_available : ℕ → Pod → ℤ → Bool
get_pod_available now pod m = elim (get_pod_ready_condition pod) [
  | none ↦ false
  | some c ↦ if eqb_ℤ m (pos 0) then false else transition_passed now m c.last_transition
]

abbrev available_at : ℕ → ℤ → Option ℕ → Bool × ℤ
available_at now m none = (false, scale m second)
available_at now m (some t) =
    let interval = after_seconds t m -ℤ pos now in
    if ltb_ℤ (pos 0) interval then (false, interval) else (true, pos 0)

abbrev check_condition : ℕ → ℤ → Option PodCondition → Bool × ℤ
check_condition now m none = (true, pos 0)
check_condition now m (some c) =
    if eqb_ℤ m (pos 0) then (true, pos 0) else available_at now m c.last_transition

abbrev pub is_running : Phase → Bool
is_running running = true
is_running _ = false

-- getPodAvailableAndNextCheckInterval: whether the pod is available, and if not, the duration after
-- which to look again (0 for none).
unfoldable pub get_pod_available_and_next_check_interval : ℕ → Pod → ℤ → Bool × ℤ
get_pod_available_and_next_check_interval now pod m =
    if not (is_running pod.phase) || not (get_pod_ready pod)
    then (false, pos 0)
    else check_condition now m (get_pod_ready_condition pod)

unfoldable pub get_pod_revision : Pod → Str
get_pod_revision pod = get_or_empty (lookup revision_label pod.labels)

gate_in : List Str → Bool
gate_in [] = false
gate_in (g ∷ gs) = str_eq g in_place_update_ready || gate_in gs

unfoldable pub contains_readiness_gate : Pod → Bool
unfolding gate_in
contains_readiness_gate pod = gate_in pod.readiness_gates

unfoldable pub inject_readiness_gate : Pod → Pod
unfolding gate_in
inject_readiness_gate pod =
    if gate_in pod.readiness_gates
    then pod
    else record pod { readiness_gates = pod.readiness_gates ++ in_place_update_ready ∷ [] }

abbrev pub same_status : ConditionStatus → ConditionStatus → Bool
same_status condition_true condition_true = true
same_status condition_false condition_false = true
same_status condition_unknown condition_unknown = true
same_status _ _ = false

-- The loop of SetPodCondition, which returns at the first condition of the type.
set_condition : PodCondition → List PodCondition → List PodCondition
set_condition new [] = new ∷ []
set_condition new (c ∷ cs) =
    if str_eq c.condition_type new.condition_type
    then (if same_status c.status new.status then c ∷ cs else new ∷ cs)
    else c ∷ set_condition new cs

unfoldable pub set_pod_condition : Pod → PodCondition → Pod
unfolding set_condition
set_pod_condition pod new = record pod { conditions = set_condition new pod.conditions }

false_in : Str → List PodCondition → Bool
false_in t [] = false
false_in t (c ∷ cs) =
    (str_eq c.condition_type t && same_status c.status condition_false) || false_in t cs

unfoldable pub if_condition_false : Pod → Str → Bool
unfolding false_in
if_condition_false pod t = false_in t pod.conditions
