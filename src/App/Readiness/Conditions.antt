-- ===== src/App/Readiness/Conditions.antt =====
-- What reading and writing a pod's conditions and gates amounts to.
use unicore.Prelude.{
  ℕ, ◌≤◌, ℤ, pos, ◌≡◌, ◌≢◌, refl, true, false, inl, inr, Str, str_eq, str_eq_iff, str_eq_refl, List,
  [], ◌∷◌, ◌++◌, ◌-ℤ◌, eqb_ℤ, if◌then◌else◌, Option, none, some, arith, is_some, Option-cases,
  Bool-cases, -ℤ_parts, ltb_ℤ,
}
use mathlib.Core.Bool.{false≢true}
use unicore.Api.{
  Pod, PodCondition, running, ConditionStatus, condition_true, condition_false, condition_unknown,
}
use unicore.App.Readiness.{
  find_condition, transition_passed, available_at, after_seconds, check_condition, ready_in,
  get_pod_ready, get_pod_ready_condition, get_pod_available, same_status,
  get_pod_available_and_next_check_interval, gate_in, contains_readiness_gate,
  inject_readiness_gate, set_condition, set_pod_condition, pod_ready, in_place_update_ready,
}

ready_in-find_condition :
    (cs : List PodCondition) → ready_in cs ≡ is_some (find_condition pod_ready cs)
unfolding ready_in find_condition
ready_in-find_condition [] = refl
ready_in-find_condition (c ∷ cs) = ground (arith, ready_in-find_condition cs)

-- getPodReady holds of a pod with a Ready condition whatever the status of that condition, False and
-- Unknown included, and of no other pod.
pub get_pod_ready-get_pod_ready_condition :
    (pod : Pod) → get_pod_ready pod ≡ is_some (get_pod_ready_condition pod)
unfolding get_pod_ready get_pod_ready_condition
get_pod_ready-get_pod_ready_condition pod = ready_in-find_condition pod.conditions

pub same_status_iff : (a b : ConditionStatus) → same_status a b ≡ true → a ≡ b
same_status_iff condition_true condition_true h = refl
same_status_iff condition_false condition_false h = refl
same_status_iff condition_unknown condition_unknown h = refl
same_status_iff condition_true condition_false h = cc
same_status_iff condition_true condition_unknown h = cc
same_status_iff condition_false condition_true h = cc
same_status_iff condition_false condition_unknown h = cc
same_status_iff condition_unknown condition_true h = cc
same_status_iff condition_unknown condition_false h = cc

find-set_condition :
    (new : PodCondition) (cs : List PodCondition)
    → (c : PodCondition) × (find_condition new.condition_type (set_condition new cs) ≡ some c)
      × (c.status ≡ new.status)
unfolding find_condition set_condition
find-set_condition new [] = (new, rw (str_eq_refl new.condition_type), refl)
find-set_condition new (c ∷ cs) = elim (Bool-cases (str_eq c.condition_type new.condition_type)) [
  | inl hit ↦ elim (Bool-cases (same_status c.status new.status)) [
    | inl same ↦ (c, rw (hit, same) (rw hit), same_status_iff _ _ same)
    | inr other ↦ (new, rw (hit, other) (rw (str_eq_refl new.condition_type)), refl)
  ]
  | inr miss ↦ let (d, found, e) = find-set_condition new cs in (d, rw miss (rw miss found), e)
]

find-set_condition_ne :
    (new : PodCondition) (t : Str) (cs : List PodCondition)
    → t ≢ new.condition_type
    → find_condition t (set_condition new cs) ≡ find_condition t cs
unfolding find_condition set_condition
find-set_condition_ne new t [] ne = ground (arith, str_eq_iff new.condition_type t)
find-set_condition_ne new t (c ∷ cs) ne = ground (
  arith,
  str_eq_iff new.condition_type t,
  str_eq_iff c.condition_type t,
  str_eq_iff c.condition_type new.condition_type,
  find-set_condition_ne new t cs,
)

-- After SetPodCondition the pod has a condition of the given type with the given status, and the
-- first condition of every other type is the one it had.
pub set_pod_condition_lem :
    (pod : Pod) (new : PodCondition)
    → ((c : PodCondition) × (find_condition new.condition_type
            (set_pod_condition pod new).conditions
          ≡ some c)
        × (c.status ≡ new.status))
      × ((t : Str)
          → t ≢ new.condition_type
          → find_condition t (set_pod_condition pod new).conditions
            ≡ find_condition t pod.conditions)
unfolding set_pod_condition
set_pod_condition_lem pod new =
    (find-set_condition new pod.conditions, λ t. find-set_condition_ne new t pod.conditions)

gate_in-append : (gs : List Str) → gate_in (gs ++ in_place_update_ready ∷ []) ≡ true
unfolding gate_in
gate_in-append [] = rw (str_eq_refl in_place_update_ready)
gate_in-append (g ∷ gs) = ground (arith, gate_in-append gs)

-- InjectReadinessGate leaves a pod with the gate, and a second call changes nothing.
contains_readiness_gate-inject_readiness_gate :
    (pod : Pod)
    → (contains_readiness_gate (inject_readiness_gate pod) ≡ true)
      × (inject_readiness_gate (inject_readiness_gate pod) ≡ inject_readiness_gate pod)
unfolding contains_readiness_gate inject_readiness_gate
contains_readiness_gate-inject_readiness_gate pod =
    elim (Bool-cases (gate_in pod.readiness_gates)) [
      | inl had ↦ (rw had had, rw had (rw had))
      | inr new ↦ (rw new (gate_in-append _), rw new (rw (gate_in-append pod.readiness_gates)))
    ]

not_pending :
    (now later : ℕ) (x : ℤ)
    → now ≤ later
    → ltb_ℤ x (pos now) ≡ true
    → ltb_ℤ (pos 0) (x -ℤ pos later) ≡ false
not_pending now later x le h = ground (arith, -ℤ_parts x (pos later))

available_at-passed :
    (now later : ℕ) (m : ℤ) (o : Option ℕ)
    → now ≤ later
    → transition_passed now m o ≡ true
    → available_at later m o ≡ (true, pos 0)
available_at-passed now later m none le h = cc
available_at-passed now later m (some t) le h = rw (not_pending now later (after_seconds t m) le h)

check_condition-passed :
    (now later : ℕ) (m : ℤ) (c : PodCondition)
    → now ≤ later
    → (if eqb_ℤ m (pos 0) then false else transition_passed now m c.last_transition) ≡ true
    → check_condition later m (some c) ≡ (true, pos 0)
check_condition-passed now later m c le h = elim (Bool-cases (eqb_ℤ m (pos 0))) [
  | inl e ↦ rw e
  | inr e ↦ rw e (available_at-passed now later m c.last_transition le (rw e at h))
]

-- A running pod that getPodAvailable counts as available is available, with no interval left, for
-- getPodAvailableAndNextCheckInterval, now and at every later time.
available-agree :
    (now later : ℕ) (pod : Pod) (m : ℤ)
    → now ≤ later
    → pod.phase ≡ running
    → get_pod_available now pod m ≡ true
    → get_pod_available_and_next_check_interval later pod m ≡ (true, pos 0)
unfolding get_pod_available get_pod_available_and_next_check_interval get_pod_ready
    get_pod_ready_condition
available-agree now later pod m le run h = elim (Option-cases (get_pod_ready_condition pod)) [
  | inl e ↦ absurd (false≢true (rw (e, get_pod_available) at h))
  | inr (c, e) ↦
      simp (run, get_pod_ready-get_pod_ready_condition, e)
        (check_condition-passed now later m c le (rw (e, get_pod_available) at h))
]
