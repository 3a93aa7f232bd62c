-- ===== src/Scheduler/Gang.antt =====
-- gang/gang.go: pods of one gang are scheduled together. The scheduler's maps, and what it tells the
-- framework of the pods that wait.
pub mod Admission
pub mod Rejection
pub mod Ordering
use unicore.Prelude.{
  ℕ, ◌+◌, ◌*◌, ℤ, pos, ltb, ltb_ℤ, ◌==◌, if◌then◌else◌, Bool, true, false, not, ◌&&◌, ◌||◌, Str,
  codes, str_eq, is_empty, Map, lookup, insert, remove, get_or_empty, is_some, List, [], ◌∷◌, ◌++◌,
  Option, none, some, keep, length,
}
use unicore.Api.{Pod, Phase, pending}
use unicore.Strings.{atoi}
use unicore.App.Readiness.{second, is_running}
use unicore.App.Platform.{Failure, Result, ok, err}
use unicore.Scheduler.{
  Code, success, unschedulable, unschedulable_and_unresolvable, wait, internal_error,
}

abbrev pub label_gang_name : Str
label_gang_name = codes "gang.unicore.mcyou.cn/name"

abbrev pub label_gang_available_count : Str
label_gang_available_count = codes "gang.unicore.mcyou.cn/available-count"

-- GangExpirationTime and time.Minute, in nanoseconds
abbrev pub minute : ℕ
minute = 60 * second

abbrev gang_expiration_time : ℕ
gang_expiration_time = 5 * minute

-- What a waiting pod was told.
pub data Decision : Type 0 where
  allowed rejected : Pod → Decision

-- The maps of GangScheduler, the pods that the framework holds back, and what they were told,
-- oldest first. A time that is none is the zero time.
pub record Gangs : Type 0 where
  pub first_created_at : Map ℕ
  pub first_permitted_at : Map (Option ℕ)
  pub permitted : Map (Map Bool)
  pub rejected_gangs : Map Bool
  pub waiting : List Pod
  pub decisions : List Decision

abbrev pub gang_name : Pod → Str
gang_name pod = get_or_empty (lookup label_gang_name pod.labels)

abbrev pub available_count : Pod → Str
available_count pod = get_or_empty (lookup label_gang_available_count pod.labels)

-- `pod.Namespace+"/"+pod.Name`
abbrev pub pod_key : Pod → Str
pod_key pod = pod.namespace ++ b'/' ∷ pod.name

abbrev pub in_gang : Str → Pod → Bool
in_gang gang pod = str_eq (gang_name pod) gang

-- getWaitingPodsInGang
pub waiting_pods_in_gang : Str → Gangs → List Pod
waiting_pods_in_gang gang s = keep (in_gang gang) s.waiting

abbrev is_pending : Phase → Bool
is_pending pending = true
is_pending _ = false

-- The two lists of getRunningAndPendingPodsInGang, of the pods that the lister gives.
abbrev pub running_of : List Pod → List Pod
running_of pods = keep (λ p. is_running p.phase) pods

abbrev pub pending_of : List Pod → List Pod
pending_of pods = keep (λ p. is_pending p.phase) pods

abbrev pub is_gang_pod : Pod → Bool
is_gang_pod pod = not (is_empty (gang_name pod)) && not (is_empty (available_count pod))

abbrev pub is_rejected : Str → Gangs → Bool
is_rejected gang s = is_some (lookup gang s.rejected_gangs)

-- The check of the number of pods: `found` pods for the count of the label.
abbrev enough : ℕ → Option ℤ → Code
enough found none = internal_error
enough found (some count) = if ltb_ℤ (pos found) count then unschedulable else success

-- `listed` is what the lister gives for the pods with the gang's label.
unfoldable pub pre_filter : Result (List Pod) → Pod → Gangs → Code
pre_filter listed pod s =
    if not (is_gang_pod pod)
    then success
    else if is_rejected (gang_name pod) s
    then unschedulable_and_unresolvable
    else elim listed [
      | err f ↦ internal_error
      | ok pods ↦
          enough (length (running_of pods) + length (pending_of pods)) (atoi (available_count pod))
    ]

abbrev or_no_pods : Option (Map Bool) → Map Bool
or_no_pods none = []
or_no_pods (some m) = m

running_map : List Pod → Map Bool → Map Bool
running_map [] m = m
running_map (pod ∷ pods) m = running_map pods (insert (pod_key pod) true m)

abbrev pub count_absent : Map Bool → Map Bool → ℕ
count_absent running m = length (keep (λ e. not (is_some (lookup e.0 running))) m)

-- permittedButNotRunningPods
unfoldable pub permitted_not_running : Str → List Pod → Gangs → ℕ
unfolding running_map
permitted_not_running gang running s =
    count_absent (running_map running []) (or_no_pods (lookup gang s.permitted))

unfoldable pub set_permitted : Str → Pod → Gangs → Gangs
set_permitted gang pod s = record s {
  permitted =
      insert gang (insert (pod_key pod) true (or_no_pods (lookup gang s.permitted))) s.permitted;
}

allow : Str → Pod → Gangs → Gangs
allow gang pod s = set_permitted gang pod (record s { decisions = s.decisions ++ allowed pod ∷ [] })

-- IterateOverWaitingPods, for the pods of the gang.
allow_all : Str → List Pod → Gangs → Gangs
allow_all gang [] s = s
allow_all gang (pod ∷ pods) s = allow_all gang pods (allow gang pod s)

-- The pods that the gang can count on, the pod at hand included.
unfoldable pub gang_size : Str → List Pod → Gangs → ℕ
gang_size gang running s =
    length (waiting_pods_in_gang gang s) + permitted_not_running gang running s + length running + 1

admit : Str → Pod → List Pod → Option ℤ → Gangs → (Code × ℕ) × Gangs
admit gang pod running none s = ((internal_error, 0), s)
admit gang pod running (some count) s =
    if ltb_ℤ (pos (gang_size gang running s)) count
    then ((wait, minute), s)
    else ((success, 0), set_permitted gang pod (allow_all gang (waiting_pods_in_gang gang s) s))

-- The status, how long to wait, and the new state.
unfoldable pub permit : Result (List Pod) → Pod → Gangs → (Code × ℕ) × Gangs
unfolding admit allow_all allow
permit listed pod s =
    let gang = gang_name pod in
    if not (is_gang_pod pod)
    then ((success, 0), s)
    else if is_rejected gang s
    then ((unschedulable_and_unresolvable, 0), s)
    else elim listed [
      | err f ↦ ((internal_error, 0), s)
      | ok pods ↦ admit gang pod (running_of pods) (atoi (available_count pod)) s
    ]

abbrev pub reject_all : List Pod → List Decision
reject_all [] = []
reject_all (pod ∷ pods) = rejected pod ∷ reject_all pods

unfoldable pub unreserve : Pod → Gangs → Gangs
unreserve pod s =
    let gang = gang_name pod in
    if is_empty gang then s else record s {
      decisions = s.decisions ++ reject_all (waiting_pods_in_gang gang s);
      rejected_gangs = insert gang true s.rejected_gangs;
    }

-- The time that a pod is queued by: the creation of the first pod of its gang that was compared.
abbrev time_or : ℕ → Option ℕ → ℕ
time_or t none = t
time_or t (some first) = first

unfoldable pub queue_time : Pod → Gangs → ℕ × Gangs
queue_time pod s =
    let gang = gang_name pod in
    let found = lookup gang s.first_created_at in
    if is_empty gang then (pod.creation_timestamp, s) else (
      time_or pod.creation_timestamp found,
      if is_some found then s else record s {
        first_created_at = insert gang pod.creation_timestamp s.first_created_at;
      },
    )

-- strings.Compare(a, b) < 0
unfoldable pub str_lt : Str → Str → Bool
str_lt a [] = false
str_lt [] (d ∷ b) = true
str_lt (c ∷ a) (d ∷ b) =
    let rest = str_lt a b in if ltb c d then true else if c == d then rest else false

unfoldable pub less : Pod → Pod → Gangs → Bool × Gangs
less pod1 pod2 s =
    let (time1, s1) = queue_time pod1 s in
    let (time2, s2) = queue_time pod2 s1 in
    let gang1 = gang_name pod1 in
    let gang2 = gang_name pod2 in
    (
      if time1 == time2 && not (is_empty gang1) && not (is_empty gang2)
          then str_lt gang1 gang2
          else ltb time1 time2,
      s2,
    )

abbrev is_gang_expired : ℕ → Option ℕ → Bool
is_gang_expired now none = false
is_gang_expired now (some t) = ltb (t + gang_expiration_time) now

-- One round of CleanUp: Range over the gangs with a first permission.
clean_from : ℕ → Map (Option ℕ) → Gangs → Gangs
clean_from now [] s = s
clean_from now ((gang, t) ∷ rest) s =
    let cleaned : Gangs = record s {
      first_permitted_at = remove gang s.first_permitted_at;
      first_created_at = remove gang s.first_created_at;
      permitted = remove gang s.permitted;
      rejected_gangs = remove gang s.rejected_gangs;
    } in
    let skipped = clean_from now rest s in
    let after = clean_from now rest cleaned in if is_gang_expired now t then after else skipped

unfoldable pub clean_up : ℕ → Gangs → Gangs
unfolding clean_from
clean_up now s = clean_from now s.first_permitted_at s

-- The state of New.
abbrev pub no_gangs : Gangs
no_gangs = record {
  first_created_at = [];
  first_permitted_at = [];
  permitted = [];
  rejected_gangs = [];
  waiting = [];
  decisions = [];
}

-- What changes the state: the plugin's calls, a round of CleanUp, and the framework, which changes
-- which pods wait.
pub data Step : Gangs → Gangs → Type 0 where
  permits : (listed : Result (List Pod)) (pod : Pod) (s : Gangs) → Step s (permit listed pod s).1
  unreserves : (pod : Pod) (s : Gangs) → Step s (unreserve pod s)
  compares : (pod1 pod2 : Pod) (s : Gangs) → Step s (less pod1 pod2 s).1
  cleans : (now : ℕ) (s : Gangs) → Step s (clean_up now s)
  holds_back : (pods : List Pod) (s : Gangs) → Step s (record s { waiting = pods })

pub data Steps : Gangs → Gangs → Type 0 where
  done : (s : Gangs) → Steps s s
  then_step : (s t u : Gangs) → Step s t → Steps t u → Steps s u
