-- ===== src/Examples/Scheduling.antt =====
-- The scheduler plugins at concrete pods: two pods of a gang of two, and a node with reservations.
use unicore.Prelude.{
  ◌≡◌, ◌+◌, length, refl, ◌↔◌, ◌⊎◌, ℤ, pos, ltb_ℤ, ◌+ℤ◌, ◌-ℤ◌, true, false, Str, str_eq, codes,
  lookup, insert, [], ◌∷◌, map, keep, not, none, arith, All,
}
use unicore.Strings.{atoi}
use unicore.Api.{Pod, pending}
use unicore.App.Platform.{ok}
use unicore.Scheduler.{success, wait, unschedulable_and_unresolvable}
use unicore.Scheduler.Word.{wrap}
use unicore.Scheduler.Reserve.{
  Reservation, Table, Data, NodeInfo, is_own, is_current, needs, filter, filter_from, prune,
  reserve, or_nothing, dump_to_config_map, load_from_config_map,
}
use unicore.Scheduler.Reserve.Filtering.{filter_iff, filter_own_iff}
use unicore.Scheduler.Reserve.Amounts.{Fits}
use unicore.Scheduler.Reserve.Expiry.{filter-prune}
use unicore.Scheduler.Reserve.Removal.{Sends, FirstSent, reserve_lem}
use unicore.Scheduler.Reserve.Encoding.{load_from_config_map-dump_to_config_map}
use unicore.Scheduler.Gang.{
  Gangs, done, then_step, unreserves, no_gangs, allowed, gang_name, in_gang, running_of,
  label_gang_name, label_gang_available_count, minute, waiting_pods_in_gang, permit, pre_filter,
  clean_up, unreserve, less,
}
use unicore.Scheduler.Gang.Admission.{IsPermitted, awaited, permit_lem}
use unicore.Scheduler.Gang.Rejection.{rejected_forever}
use unicore.Scheduler.Gang.Ordering.{less_lem}
use unicore.Examples.Data.{pod_of, web_0, web_5}
use unicore.Examples.Codec.{put_all, text_format, text_format-ReadsBack, text_format-Documented}

abbrev gang_pod : Str → Pod
gang_pod name = record (pod_of name [] pending []) {
  labels = (label_gang_name, codes "train") ∷ (label_gang_available_count, codes "2") ∷ [];
}

-- One pod of the gang waits.
abbrev one_waits : Gangs
one_waits = record no_gangs {
  waiting = gang_pod (codes "t-0") ∷ [];
  first_created_at = (codes "train", 7) ∷ [];
}

permit_lem_example :
    let q = gang_pod (codes "t-1") in
    let few =
      ltb_ℤ
        (pos (
          length (keep (in_gang (codes "train")) one_waits.waiting)
          + length (awaited (codes "train") (running_of (q ∷ [])) one_waits)
          + length (running_of (q ∷ []))
          + 1))
        (pos 2) in
    let r = permit (ok (q ∷ [])) q one_waits in
    (few ≡ true → r ≡ ((wait, minute), one_waits))
    × (few ≡ false
        → (r.0 ≡ (success, 0))
          × (r.1.decisions ≡ map allowed (waiting_pods_in_gang (codes "train") one_waits))
          × All
              (IsPermitted (codes "train") r.1)
              (q ∷ waiting_pods_in_gang (codes "train") one_waits)
          × ((other : Str)
              → str_eq (codes "train") other ≡ false
              → lookup other r.1.permitted ≡ lookup other []))
unfolding lookup str_eq atoi
permit_lem_example =
    permit_lem (gang_pod (codes "t-1") ∷ []) (gang_pod (codes "t-1")) (pos 2) one_waits refl refl
      refl

rejected_forever_example :
    let s = unreserve (gang_pod (codes "t-0")) no_gangs in
    (clean_up 9 s ≡ s)
    × (pre_filter (ok []) (gang_pod (codes "t-1")) s ≡ unschedulable_and_unresolvable)
    × (permit (ok []) (gang_pod (codes "t-1")) s ≡ ((unschedulable_and_unresolvable, 0), s))
unfolding lookup str_eq unreserve insert
rejected_forever_example =
    rejected_forever (codes "train") (unreserve (gang_pod (codes "t-0")) no_gangs)
      (unreserve (gang_pod (codes "t-0")) no_gangs) (ok []) (gang_pod (codes "t-1")) 9
      (then_step _ _ _ (unreserves (gang_pod (codes "t-0")) no_gangs) (done _)) refl (done _) refl
      refl

less_lem_example :
    let p = gang_pod (codes "t-0") in
    let q = gang_pod (codes "t-1") in
    ((less p q one_waits).1 ≡ one_waits)
    × ((less p p one_waits).0 ≡ false)
    × ((less p q one_waits).0 ≡ true
        → (less q p one_waits).0 ≡ true
        → (less p p one_waits).0 ≡ true)
    × ((less p q one_waits).0 ≡ false → (less q p one_waits).0 ≡ false → gang_name p ≡ gang_name q)
    × (gang_name p ≡ gang_name q → (less p q one_waits).0 ≡ false)
unfolding lookup str_eq
less_lem_example =
    less_lem (gang_pod (codes "t-0")) (gang_pod (codes "t-1")) (gang_pod (codes "t-0")) one_waits
      (refl, refl) (refl, refl) (refl, refl)

abbrev reserved_for : Str → ℤ → Reservation
reserved_for name expire = record {
  reserving_pod = name;
  reserving_pod_namespace = codes "prod";
  cpu_milli = pos 500;
  mem_milli = pos 1000;
  expire_at = expire;
}

-- One reservation for web-5, and one that has expired.
abbrev held : Table
held =
    (codes "n1", reserved_for (codes "web-5") (pos 90) ∷ reserved_for (codes "web-7") (pos 3) ∷ [])
    ∷ []

abbrev node : NodeInfo
node = record {
  name = codes "n1";
  allocatable_cpu = pos 4000;
  allocatable_memory = pos 9000;
  requested_cpu = pos 1000;
  requested_memory = pos 2000;
}

filter_iff_example : (filter 50000000000 held web_0 node ≡ success) ↔ (
    (reserved_for (codes "web-5") (pos 90) ∷ [] ≡ [])
    ⊎ Fits (pos 3000) (pos 7000) 0 0 (reserved_for (codes "web-5") (pos 90) ∷ []))
unfolding lookup str_eq wrap ◌-ℤ◌ ◌+ℤ◌ needs
filter_iff_example =
    filter_iff 50000000000 held web_0 node 0 0 refl (omega arith, omega arith)
      (omega arith, omega arith) ((refl, refl, refl), ((refl, refl, refl), tt)) (omega arith)
      (omega arith)

filter_own_iff_example :
    (filter_from 50000000000 web_5
        (pos 900)
        (pos 7000)
        (pos 0)
        (pos 0)
        (reserved_for (codes "web-5") (pos 90) ∷ reserved_for (codes "web-7") (pos 90) ∷ [])
        (pos 0, pos 0)
      ≡ success)
    ↔ ((reserved_for (codes "web-7") (pos 90) ∷ [] ≡ [])
        ⊎ Fits (pos 900) (pos 7000) 500 1000 (reserved_for (codes "web-7") (pos 90) ∷ []))
unfolding str_eq
filter_own_iff_example =
    filter_own_iff 50000000000 web_5 (pos 900) (pos 7000) 0 0 500 1000
      (reserved_for (codes "web-5") (pos 90)) (reserved_for (codes "web-7") (pos 90) ∷ [])
      (omega arith, omega arith) (omega arith, omega arith) refl refl refl refl
      ((refl, refl, refl), tt) (omega arith) (omega arith)

filter-prune_example :
    filter 60000000000 (prune (is_current 50000000000) held).0 web_0 node
    ≡ filter 60000000000 held web_0 node
filter-prune_example = filter-prune 50000000000 60000000000 held web_0 node (omega arith)

-- What Reserve leaves for another pod, as the config map's text.
abbrev others_data : Data
others_data =
    (
      codes "n1",
      2
          ∷ put_all
              (reserved_for (codes "web-5") (pos 90) ∷ reserved_for (codes "web-7") (pos 3) ∷ []),
    )
    ∷ []

held-dump : dump_to_config_map text_format held ≡ ok others_data
unfolding dump_to_config_map insert
held-dump = refl

load_from_config_map-dump_to_config_map_example :
    load_from_config_map text_format others_data ≡ (none, held)
load_from_config_map-dump_to_config_map_example =
    load_from_config_map-dump_to_config_map text_format held others_data text_format-ReadsBack
      (tt, tt) held-dump

-- Reserve takes out the reservation of web-5 and sends the other one.
abbrev without_web_5 : Data
without_web_5 = (codes "n1", 1 ∷ put_all (reserved_for (codes "web-7") (pos 3) ∷ [])) ∷ []

sends_without_web_5 :
    ((prune (λ r. not (is_own web_5 r)) held).1 ≡ true)
    × (dump_to_config_map text_format (prune (λ r. not (is_own web_5 r)) held).0 ≡ ok without_web_5)
unfolding prune dump_to_config_map insert str_eq
sends_without_web_5 = (refl, refl)

reserve_lem_example :
    let (left, updated) = prune (λ r. not (is_own web_5 r)) held in
    ((reserve text_format held web_5 []).0 ≡ success)
    × Sends text_format left [] (reserve text_format held web_5 []).1
    × ((n : Str)
        → (or_nothing (lookup n left)
            ≡ keep (λ r. not (is_own web_5 r)) (or_nothing (lookup n held)))
          × All (λ r. not (is_own web_5 r) ≡ true) (or_nothing (lookup n left)))
    × (updated ≡ false → (left ≡ held) × ((reserve text_format held web_5 []).1 ≡ []))
    × ((old d : Data)
        → updated ≡ true
        → text_format.get_data [] ≡ ok old
        → dump_to_config_map text_format left ≡ ok d
        → FirstSent [] d (reserve text_format held web_5 []).1)
reserve_lem_example = reserve_lem text_format held web_5 [] text_format-Documented

-- So the other one is really sent.
reserve_sends : FirstSent [] without_web_5 (reserve text_format held web_5 []).1
reserve_sends =
    let (passed, all, left, same, first) =
      reserve_lem text_format held web_5 [] text_format-Documented in
    first [] without_web_5 sends_without_web_5.0 refl sends_without_web_5.1
