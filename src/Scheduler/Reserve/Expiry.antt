-- ===== src/Scheduler/Reserve/Expiry.antt =====
-- Expired reservations: what cleanExpired removes, Filter skips.
use unicore.Prelude.{
  ℕ, ◌<◌, ℤ, ◌≡◌, refl, inl, inr, Bool, true, false, Str, str_eq, List, [], ◌∷◌, keep, Bool-cases,
  arith, lookup,
}
use unicore.Api.{Pod}
use unicore.Scheduler.{Code}
use unicore.Scheduler.Word.{add64}
use unicore.Scheduler.Reserve.{
  Reservation, Table, NodeInfo, is_expired, is_current, filter_from, or_nothing, filter, prune,
}

-- Each node's list is pruned.
pub lookup-prune :
    (stays : Reservation → Bool) (node : Str) (table : Table)
    → or_nothing (lookup node (prune stays table).0) ≡ keep stays (or_nothing (lookup node table))
unfolding lookup prune
lookup-prune stays node [] = refl
lookup-prune stays node ((n, rs) ∷ table) = elim (Bool-cases (str_eq n node)) [
  | inl hit ↦ rw hit
  | inr miss ↦ rw miss (lookup-prune stays node table)
]

expired_later : (t u : ℕ) (r : Reservation) → t < u → is_current t r ≡ false → is_expired u r ≡ true
expired_later t u r le h = ground arith

filter_from-keep :
    (t u : ℕ) (pod : Pod) (free_cpu free_mem need_cpu need_mem : ℤ) (rs : List Reservation)
    (reserved : ℤ × ℤ)
    → t < u
    → filter_from u pod free_cpu free_mem need_cpu need_mem (keep (is_current t) rs) reserved
      ≡ filter_from u pod free_cpu free_mem need_cpu need_mem rs reserved
unfolding filter_from
filter_from-keep t u pod free_cpu free_mem need_cpu need_mem [] reserved le = refl
filter_from-keep t u pod free_cpu free_mem need_cpu need_mem (r ∷ rs) reserved le =
    let decide : List Reservation → ℤ × ℤ → Code =
      filter_from u pod free_cpu free_mem need_cpu need_mem in
    let same : (s : ℤ × ℤ) → decide (keep (is_current t) rs) s ≡ decide rs s =
      λ s. filter_from-keep t u pod free_cpu free_mem need_cpu need_mem rs s le in
    elim (Bool-cases (is_current t r)) [
      | inl kept ↦
          rw kept
            (rw (same reserved, same (add64 reserved.0 r.cpu_milli, add64 reserved.1 r.mem_milli)))
      | inr gone ↦ rw gone (rw (expired_later t u r le gone) (same reserved))
    ]

-- Filter decides the same, for every pod and node and at every later time, whether or not cleanExpired
-- has removed its expired reservations.
pub filter-prune :
    (t u : ℕ) (table : Table) (pod : Pod) (node : NodeInfo)
    → t < u
    → filter u (prune (is_current t) table).0 pod node ≡ filter u table pod node
unfolding filter
filter-prune t u table pod node le =
    rw (lookup-prune (is_current t) node.name table)
      (filter_from-keep t u pod _ _ _ _ (or_nothing (lookup node.name table)) _ le)
