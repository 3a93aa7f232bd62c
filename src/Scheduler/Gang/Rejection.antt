-- ===== src/Scheduler/Gang/Rejection.antt =====
-- A rejected gang stays rejected: CleanUp runs over a map that nothing writes to.
use unicore.Prelude.{
  ℕ, ◌≡◌, refl, ◌∙◌, ap, sym, subst, Bool, true, Str, is_empty, lookup, insert, lookup-insert,
  is_some, Map, List, [], ◌∷◌, Option, none, some, arith, Bool-cases, inl, inr, ℤ,
}
use unicore.Api.{Pod}
use unicore.Strings.{atoi}
use unicore.App.Platform.{Result, ok, err}
use unicore.Scheduler.{Code, unschedulable_and_unresolvable}
use unicore.Scheduler.Gang.{
  Gangs, Step, permits, unreserves, compares, cleans, holds_back, Steps, done, then_step, no_gangs,
  gang_name, is_gang_pod, is_rejected, running_of, allow, allow_all, admit, permit, pre_filter,
  unreserve, queue_time, less, clean_from, clean_up, waiting_pods_in_gang, set_permitted,
}

-- The part of the state that CleanUp and the rejections depend on.
abbrev Core : Type 0
Core = Map (Option ℕ) × Map Bool

abbrev core : Gangs → Core
core s = (s.first_permitted_at, s.rejected_gangs)

core-allow_all : (gang : Str) (pods : List Pod) (s : Gangs) → core (allow_all gang pods s) ≡ core s
unfolding allow_all allow set_permitted
core-allow_all gang [] s = refl
core-allow_all gang (pod ∷ pods) s = core-allow_all gang pods (allow gang pod s)

core-admit :
    (gang : Str) (pod : Pod) (running : List Pod) (count : Option ℤ) (s : Gangs)
    → core (admit gang pod running count s).1 ≡ core s
unfolding admit set_permitted
core-admit gang pod running none s = refl
core-admit gang pod running (some count) s =
    ground (arith, core-allow_all gang (waiting_pods_in_gang gang s) s)

core-permit :
    (listed : Result (List Pod)) (pod : Pod) (s : Gangs) → core (permit listed pod s).1 ≡ core s
unfolding permit
core-permit (err f) pod s = ground arith
core-permit (ok pods) pod s = ground (
  arith,
  core-admit (gang_name pod) pod (running_of pods)
      (atoi (unicore.Scheduler.Gang.available_count pod)) s,
)

core-less : (pod1 pod2 : Pod) (s : Gangs) → core (less pod1 pod2 s).1 ≡ core s
unfolding less queue_time
core-less pod1 pod2 s = ground arith

core-clean_up : (now : ℕ) (s : Gangs) → s.first_permitted_at ≡ [] → clean_up now s ≡ s
unfolding clean_up clean_from
core-clean_up now s h = ap (λ m. clean_from now m s) h

-- No first permission is recorded, and the gang is rejected.
abbrev Stuck : Str → Gangs → Type 0
Stuck gang s = (s.first_permitted_at ≡ []) × (is_rejected gang s ≡ true)

abbrev StuckCore : Str → Core → Type 0
StuckCore gang c = (c.0 ≡ []) × (is_some (lookup gang c.1) ≡ true)

still_rejected :
    (gang other : Str) (m : Map Bool)
    → is_some (lookup gang m) ≡ true
    → is_some (lookup gang (insert other true m)) ≡ true
still_rejected gang other m h = ground (arith, lookup-insert other gang true m)

unreserve-Stuck : (gang : Str) (pod : Pod) (s : Gangs) → Stuck gang s → Stuck gang (unreserve pod s)
unfolding unreserve
unreserve-Stuck gang pod s (e, h) = elim (Bool-cases (is_empty (gang_name pod))) [
  | inl none_set ↦ rw none_set (e, h)
  | inr named ↦ rw named (e, still_rejected gang (gang_name pod) s.rejected_gangs h)
]

Step-Stuck : (gang : Str) (s t : Gangs) → Step s t → Stuck gang s → Stuck gang t
Step-Stuck gang s t (permits listed pod _) h =
    subst (StuckCore gang) (sym (core-permit listed pod s)) h
Step-Stuck gang s t (unreserves pod _) h = unreserve-Stuck gang pod s h
Step-Stuck gang s t (compares pod1 pod2 _) h =
    subst (StuckCore gang) (sym (core-less pod1 pod2 s)) h
Step-Stuck gang s t (cleans now _) h = subst (Stuck gang) (sym (core-clean_up now s h.0)) h
Step-Stuck gang s t (holds_back pods _) h = h

Steps-Stuck : (gang : Str) (s t : Gangs) → Steps s t → Stuck gang s → Stuck gang t
Steps-Stuck gang s t (done _) h = h
Steps-Stuck gang s t (then_step _ u _ step steps) h =
    Steps-Stuck gang u t steps (Step-Stuck gang s u step h)

abbrev NoneCore : Core → Type 0
NoneCore c = c.0 ≡ []

Step-none : (s t : Gangs) → Step s t → s.first_permitted_at ≡ [] → t.first_permitted_at ≡ []
unfolding unreserve
Step-none s t (permits listed pod _) h = subst NoneCore (sym (core-permit listed pod s)) h
Step-none s t (unreserves pod _) h = ground arith
Step-none s t (compares pod1 pod2 _) h = subst NoneCore (sym (core-less pod1 pod2 s)) h
Step-none s t (cleans now _) h =
    ap (λ (r : Gangs). r.first_permitted_at) (core-clean_up now s h) ∙ h
Step-none s t (holds_back pods _) h = h

Steps-none : (s t : Gangs) → Steps s t → s.first_permitted_at ≡ [] → t.first_permitted_at ≡ []
Steps-none s t (done _) h = h
Steps-none s t (then_step _ u _ step steps) h = Steps-none u t steps (Step-none s u step h)

-- Once a gang has been rejected in a state that the scheduler reached from its start, then in every
-- later state CleanUp changes nothing, and every pod of the gang, whatever the pods that are listed,
-- fails PreFilter and Permit as unresolvable, and Permit leaves the state as it is.
pub rejected_forever :
    (gang : Str) (s t : Gangs) (listed : Result (List Pod)) (pod : Pod) (now : ℕ)
    → Steps no_gangs s
    → is_rejected gang s ≡ true
    → Steps s t
    → is_gang_pod pod ≡ true
    → gang_name pod ≡ gang
    → (clean_up now t ≡ t)
      × (pre_filter listed pod t ≡ unschedulable_and_unresolvable)
      × (permit listed pod t ≡ ((unschedulable_and_unresolvable, 0), t))
unfolding pre_filter permit
rejected_forever gang s t listed pod now reach h later member named =
    let (empty, gone) = Steps-Stuck gang s t later (Steps-none no_gangs s reach refl, h) in
    (core-clean_up now t empty, rw (member, named, gone), rw (member, named, gone))
