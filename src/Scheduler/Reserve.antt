-- ===== src/Scheduler/Reserve.antt =====
-- reserve/reserve.go: resources of a node that are held for pods to come, in a config map. The
-- scheduler keeps a copy of the config map, which only the informer's events change.
pub mod Amounts
pub mod Filtering
pub mod Expiry
pub mod Removal
pub mod Encoding
use unicore.Prelude.{
  ℕ, ◌*◌, ◌/◌, ℤ, pos, ltb_ℤ, scale, if◌then◌else◌, Bool, true, false, not, ◌&&◌, ◌||◌, Str, str_eq,
  Map, lookup, insert, is_some, List, [], ◌∷◌, ◌++◌, Option, none, some, keep,
}
use unicore.Api.{Pod, Container}
use unicore.App.Readiness.{second}
use unicore.App.Platform.{Failure, Result, ok, err, Attempt}
use unicore.Scheduler.{Code, success, unschedulable}
use unicore.Scheduler.Word.{wrap, add64, sub64}

pub record Reservation : Type 0 where
  pub reserving_pod : Str
  pub reserving_pod_namespace : Str
  pub cpu_milli : ℤ
  pub mem_milli : ℤ
  pub expire_at : ℤ

-- The reservations of each node; a node stands in it once.
abbrev pub Table : Type 0
Table = Map (List Reservation)

-- The data of the config map: the text for each node.
abbrev pub Data : Type 0
Data = Map Str

-- encoding/json, the config map of the cluster, and RetryOnConflict. The state is the list of data
-- sent so far, oldest first.
pub record Store : Type 1 where
  pub marshal : List Reservation → Result Str
  pub unmarshal : Str → Result (List Reservation)
  pub get_data : List Data → Result Data
  pub answer : List Data → Data → Option Failure
  pub retry_on_conflict : (S : Type 0) → Attempt S → Attempt S

-- framework.NodeInfo, with the fields that are read
pub record NodeInfo : Type 0 where
  pub name : Str
  pub allocatable_cpu : ℤ
  pub allocatable_memory : ℤ
  pub requested_cpu : ℤ
  pub requested_memory : ℤ

-- `reservation.ReservingPod == pod.Name && reservation.ReservingPodNamespace == pod.Namespace`
abbrev pub is_own : Pod → Reservation → Bool
is_own pod r = str_eq r.reserving_pod pod.name && str_eq r.reserving_pod_namespace pod.namespace

-- `now` is a reading of time.Now() in nanoseconds.
abbrev pub is_expired : ℕ → Reservation → Bool
is_expired now r = ltb_ℤ (scale r.expire_at second) (pos now)

-- The CPU and the memory that the containers ask for.
needs_from : List Container → ℤ × ℤ → ℤ × ℤ
needs_from [] sum = sum
needs_from (c ∷ cs) (cpu, mem) =
    needs_from cs (add64 cpu (pos c.cpu_milli), add64 mem (pos c.memory))

unfoldable pub needs : Pod → ℤ × ℤ
unfolding needs_from
needs pod = needs_from pod.containers (pos 0, pos 0)

module _ (now : ℕ) (pod : Pod) (free_cpu free_mem need_cpu need_mem : ℤ) where
  -- The loop of Filter; `reserved` is what the reservations before have taken.
  unfoldable pub filter_from : List Reservation → ℤ × ℤ → Code
  filter_from [] reserved = success
  filter_from (r ∷ rs) (cpu, mem) =
      let cpu' = add64 cpu r.cpu_milli in
      let mem' = add64 mem r.mem_milli in
      let short = ltb_ℤ (sub64 free_cpu cpu') need_cpu || ltb_ℤ (sub64 free_mem mem') need_mem in
      let skipped = filter_from rs (cpu, mem) in
      let counted = filter_from rs (cpu', mem') in
      if is_expired now r
      then skipped
      else if not (is_own pod r) && short
      then unschedulable
      else counted

abbrev pub or_nothing : Option (List Reservation) → List Reservation
or_nothing none = []
or_nothing (some rs) = rs

unfoldable pub filter : ℕ → Table → Pod → NodeInfo → Code
filter now table pod node =
    let (need_cpu, need_mem) = needs pod in
    filter_from now pod (sub64 node.allocatable_cpu node.requested_cpu)
      (sub64 node.allocatable_memory node.requested_memory) need_cpu need_mem
      (or_nothing (lookup node.name table)) (pos 0, pos 0)

abbrev drops : (Reservation → Bool) → List Reservation → Bool
drops stays [] = false
drops stays (r ∷ rs) = not (stays r) || drops stays rs

-- The loops of Reserve and of cleanExpired: what `stays` says, of each node, and whether anything
-- went.
unfoldable pub prune : (Reservation → Bool) → Table → Table × Bool
prune stays [] = ([], false)
prune stays ((node, rs) ∷ table) =
    let (rest, updated) = prune stays table in
    ((node, keep stays rs) ∷ rest, drops stays rs || updated)

-- `reservation.ExpireAt > time.Now().Unix()`
abbrev pub is_current : ℕ → Reservation → Bool
is_current now r = ltb_ℤ (pos (now / second)) r.expire_at

module _ (c : Store) where
  dump_from : Table → Data → Result Data
  dump_from [] out = ok out
  dump_from ((node, rs) ∷ table) out = elim (c.marshal rs) [
    | err f ↦ err f
    | ok text ↦ dump_from table (insert node text out)
  ]

  unfoldable pub dump_to_config_map : Table → Result Data
  unfolding dump_from
  dump_to_config_map table = dump_from table []

  load_from : Data → Table → Option Failure × Table
  load_from [] table = (none, table)
  load_from ((node, raw) ∷ rest) table = elim (c.unmarshal raw) [
    | err f ↦ (some f, table)
    | ok rs ↦ load_from rest (insert node rs table)
  ]

  -- The error, and the new copy: what comes before the text that cannot be read.
  unfoldable pub load_from_config_map : Data → Option Failure × Table
  unfolding load_from
  load_from_config_map raw = load_from raw []

  -- The closure that updateCM retries.
  update_attempt : Table → Attempt (List Data)
  update_attempt table sent = elim (c.get_data sent) [
    | err f ↦ (some f, sent)
    | ok old ↦ elim (dump_to_config_map table) [
      | err f ↦ (some f, sent)
      | ok out ↦ (c.answer sent out, sent ++ out ∷ [])
    ]
  ]

  unfoldable pub update_cm : Table → Attempt (List Data)
  unfolding update_attempt
  update_cm table sent = c.retry_on_conflict (List Data) (update_attempt table) sent

  -- Reserve: a pod that gets a node gives its reservations back. The status is Success, also when
  -- the update fails.
  unfoldable pub reserve : Table → Pod → List Data → Code × List Data
  reserve table pod sent =
      let (table', updated) = prune (λ r. not (is_own pod r)) table in
      (success, if updated then (update_cm table' sent).1 else sent)

  -- One round of cleanExpired.
  unfoldable pub clean_expired : ℕ → Table → List Data → List Data
  clean_expired now table sent =
      let (table', updated) = prune (is_current now) table in
      if updated then (update_cm table' sent).1 else sent

-- The handlers of the informer, for the config map of the reservations.
pub data Event : Type 0 where
  added updated : Data → Event
  deleted : Event

unfoldable pub handle : Store → Event → Table
handle c (added d) = (load_from_config_map c d).1
handle c (updated d) = (load_from_config_map c d).1
handle c deleted = []
