-- ===== src/App/Update/Slots.antt =====
-- applyUpdate, the list of replicas: each pod goes to the slot of its ordinal, empty slots get new
-- pods, pods past the replica count are sorted, and the first unhealthy pod is found.
pub mod Fill
pub mod Complete
use unicore.Prelude.{
  ℕ, zero, suc, ◌+◌, ℤ, pos, negsuc, ltb, ltb_ℤ, if◌then◌else◌, Bool, ◌||◌, not, Str, is_some, List,
  [], ◌∷◌, ◌++◌, Option, none, some, set, get_elem?, replicate,
}
use unicore.Api.{App, Pod}
use unicore.App.Identity.{get_pod_app_name_and_ordinal}
use unicore.App.Readiness.{get_pod_ready}
use unicore.App.Platform.{Platform}
use unicore.App.Versions.{Outcome, value, panic, ◌>>=◌, new_versioned_pod_for_app}

abbrev pub ordinal : Pod → ℤ
ordinal pod = (get_pod_app_name_and_ordinal pod).1

abbrev pub Slots : Type 0
Slots = List (Option Pod)

-- A negative ordinal is below the replica count too, and indexes the list out of range.
place_at : ℕ → Pod → Slots × List Pod → ℤ → Outcome (Slots × List Pod)
place_at n pod (slots, invalid) (negsuc k) = panic
place_at n pod (slots, invalid) (pos k) =
    if ltb k n then value (set slots k (some pod), invalid) else value (slots, invalid ++ pod ∷ [])

place_from : ℕ → List Pod → Slots × List Pod → Outcome (Slots × List Pod)
place_from n [] acc = value acc
place_from n (pod ∷ pods) acc = place_at n pod acc (ordinal pod) >>= place_from n pods

-- The replicas of `n` slots, and the pods past them in the order of the list.
unfoldable pub place_pods : ℕ → List Pod → Outcome (Slots × List Pod)
unfolding place_from place_at
place_pods n pods = place_from n pods (replicate n none, [])

module _ (p : Platform) (current_app update_app : App) (current update : Str) where
  -- `rounds` slots from slot `i` on.
  fill_from : ℕ → ℕ → Slots → Outcome Slots
  fill_from zero i slots = value slots
  fill_from (suc rounds) i slots = elim (get_elem? slots i) [
    | some none ↦
        new_versioned_pod_for_app p current_app update_app current update i slots >>= λ pod.
        fill_from rounds (suc i) (set slots i (some pod))
    | _ ↦ fill_from rounds (suc i) slots
  ]

  unfoldable pub fill_slots : ℕ → Slots → Outcome Slots
  unfolding fill_from
  fill_slots n slots = fill_from n 0 slots

-- The loops that follow skip a nil slot.
abbrev pub filled_slots : Slots → List Pod
filled_slots [] = []
filled_slots (none ∷ slots) = filled_slots slots
filled_slots (some pod ∷ slots) = pod ∷ filled_slots slots

insert_descending : Pod → List Pod → List Pod
insert_descending pod [] = pod ∷ []
insert_descending pod (q ∷ qs) =
    if ltb_ℤ (ordinal pod) (ordinal q) then q ∷ insert_descending pod qs else pod ∷ q ∷ qs

-- sort.Sort(descendingOrdinal(pods))
unfoldable pub sort_descending : List Pod → List Pod
unfolding insert_descending
sort_descending [] = []
sort_descending (pod ∷ pods) = insert_descending pod (sort_descending pods)

-- Which pod a pointer points to: the slot of a replica, or a position among the invalid pods.
pub data Place : Type 0 where
  replica_slot invalid_slot : ℕ → Place

pub record Unhealthy : Type 0 where
  pub count : ℕ
  pub first_ordinal : ℤ
  pub first : Option Place

abbrev pub max_int32 : ℕ
max_int32 = 2147483647

abbrev is_unhealthy : Pod → Bool
is_unhealthy pod = not (get_pod_ready pod) || is_some pod.deletion_timestamp

note_unhealthy : Place → Pod → Unhealthy → Unhealthy
note_unhealthy place pod u =
    let counted = record u { count = u.count + 1 } in
    if is_unhealthy pod
    then (if ltb_ℤ (ordinal pod) u.first_ordinal
        then record counted { first_ordinal = ordinal pod; first = some place }
        else counted)
    else u

note_replicas : ℕ → List Pod → Unhealthy → Unhealthy
note_replicas i [] u = u
note_replicas i (pod ∷ pods) u = note_replicas (suc i) pods (note_unhealthy (replica_slot i) pod u)

-- From the last to the first.
note_invalid : ℕ → List Pod → Unhealthy → Unhealthy
note_invalid i [] u = u
note_invalid i (pod ∷ pods) u = note_unhealthy (invalid_slot i) pod (note_invalid (suc i) pods u)

unfoldable pub find_unhealthy : List Pod → List Pod → Unhealthy
unfolding note_replicas note_invalid note_unhealthy
find_unhealthy replicas invalid =
    note_invalid 0 invalid
      (note_replicas 0 replicas (record { count = 0; first_ordinal = pos max_int32; first = none }))
