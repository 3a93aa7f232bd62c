-- ===== src/Scheduler/Reserve/Filtering.antt =====
-- What Filter decides.
use unicore.Prelude.{
  ℕ, ◌+◌, ◌^◌, ◌<◌, ℤ, pos, pos_part, ltb_ℤ, ◌≤ℤ◌, ◌≡◌, refl, ◌∙◌, sym, ap, subst, ◌↔◌, ◌⊎◌, inl,
  inr, if◌then◌else◌, true, false, not, ◌&&◌, ◌||◌, List, [], ◌∷◌, keep, All, Bool-cases, arith,
  lookup,
}
use unicore.Api.{Pod}
use unicore.Scheduler.{Code, success, unschedulable}
use unicore.Scheduler.Word.{add64, sub64, add64_pos, short_iff}
use unicore.Scheduler.Reserve.{
  Reservation, Table, NodeInfo, is_own, is_expired, needs, filter_from, or_nothing, filter,
}
use unicore.Scheduler.Reserve.Amounts.{
  is_live, held_cpu, held_mem, IsForeign, IsModest, Fits, as_pos, judged_iff, both_iff,
}

module _ (now : ℕ) (pod : Pod) (free_cpu free_mem : ℤ) (need_cpu need_mem : ℕ)
    (modest_cpu : IsModest free_cpu) (modest_mem : IsModest free_mem) where
  abbrev decide : List Reservation → ℕ → ℕ → Code
  decide rs cpu mem =
      filter_from now pod free_cpu free_mem (pos need_cpu) (pos need_mem) rs (pos cpu, pos mem)

  -- From reservations that already hold `cpu` and `mem`.
  abbrev FitsExactly : List Reservation → ℕ → ℕ → Type 0
  FitsExactly rs cpu mem =
      (pos (cpu + held_cpu rs + need_cpu) ≤ℤ free_cpu)
      × (pos (mem + held_mem rs + need_mem) ≤ℤ free_mem)

  abbrev FitsAfter : List Reservation → ℕ → ℕ → Type 0
  FitsAfter rs cpu mem = (rs ≡ []) ⊎ FitsExactly rs cpu mem

  -- What the check at `r` asks for, with the check of the rest.
  fits_step :
      (r : Reservation) (live : List Reservation) (cpu mem : ℕ)
      → ((pos (cpu + pos_part r.cpu_milli + need_cpu) ≤ℤ free_cpu)
          × (pos (mem + pos_part r.mem_milli + need_mem) ≤ℤ free_mem))
        × FitsAfter live (cpu + pos_part r.cpu_milli) (mem + pos_part r.mem_milli)
      → FitsAfter (r ∷ live) cpu mem
  fits_step r live cpu mem ((hc, hm), inl e) =
      inr (subst (λ l. FitsExactly (r ∷ l) cpu mem) (sym e) (omega arith, omega arith))
  fits_step r live cpu mem ((hc, hm), inr (kc, km)) = inr (omega arith, omega arith)

  fits_back :
      (r : Reservation) (live : List Reservation) (cpu mem : ℕ)
      → FitsAfter (r ∷ live) cpu mem
      → ((pos (cpu + pos_part r.cpu_milli + need_cpu) ≤ℤ free_cpu)
          × (pos (mem + pos_part r.mem_milli + need_mem) ≤ℤ free_mem))
        × FitsAfter live (cpu + pos_part r.cpu_milli) (mem + pos_part r.mem_milli)
  fits_back r live cpu mem (inl e) = cc
  fits_back r live cpu mem (inr (hc, hm)) =
      ((omega arith, omega arith), inr (omega arith, omega arith))

  -- A live reservation of another pod, from sums that are given with their values.
  counted_iff :
      (r : Reservation) (rs : List Reservation) (cpu mem : ℕ) (cpu' mem' : ℤ)
      → is_own pod r ≡ false
      → cpu' ≡ pos (cpu + pos_part r.cpu_milli)
      → mem' ≡ pos (mem + pos_part r.mem_milli)
      → cpu + pos_part r.cpu_milli < 2 ^ 62
      → mem + pos_part r.mem_milli < 2 ^ 62
      → (decide rs (cpu + pos_part r.cpu_milli) (mem + pos_part r.mem_milli) ≡ success)
        ↔ FitsAfter
            (keep (is_live now) rs)
            (cpu + pos_part r.cpu_milli)
            (mem + pos_part r.mem_milli)
      → ((if not (is_own pod r)
              && (ltb_ℤ (sub64 free_cpu cpu') (pos need_cpu)
                  || ltb_ℤ (sub64 free_mem mem') (pos need_mem))
            then unschedulable
            else filter_from now pod free_cpu free_mem
                (pos need_cpu)
                (pos need_mem)
                rs
                (cpu', mem'))
          ≡ success)
        ↔ FitsAfter (r ∷ keep (is_live now) rs) cpu mem
  counted_iff r rs cpu mem cpu' mem' other ec em small_c small_m later =
      let both =
        both_iff _ _
          (short_iff free_cpu (cpu + pos_part r.cpu_milli) need_cpu modest_cpu.0 modest_cpu.1
            small_c)
          (short_iff free_mem (mem + pos_part r.mem_milli) need_mem modest_mem.0 modest_mem.1
            small_m) in
      let judged =
        judged_iff (is_own pod r) _
          (decide rs (cpu + pos_part r.cpu_milli) (mem + pos_part r.mem_milli)) other both later in
      let live = keep (is_live now) rs in
      rw (ec, em)
        (λ e. fits_step r live cpu mem (judged.0 e), λ e. judged.1 (fits_back r live cpu mem e))

  filter_from_iff :
      (rs : List Reservation) (cpu mem : ℕ)
      → All (IsForeign pod) rs
      → cpu + held_cpu (keep (is_live now) rs) < 2 ^ 62
      → mem + held_mem (keep (is_live now) rs) < 2 ^ 62
      → (decide rs cpu mem ≡ success) ↔ FitsAfter (keep (is_live now) rs) cpu mem
  unfolding filter_from
  filter_from_iff [] cpu mem h j k = (λ e. inl refl, λ e. refl)
  filter_from_iff (r ∷ rs) cpu mem ((other, plus_cpu, plus_mem), h) j k =
      elim (Bool-cases (is_expired now r)) [
        | inl gone ↦ rw gone (filter_from_iff rs cpu mem h (rw gone at j) (rw gone at k))
        | inr live ↦
            let c = pos_part r.cpu_milli in
            let m = pos_part r.mem_milli in
            let held_c : cpu + (c + held_cpu (keep (is_live now) rs)) < 2 ^ 62 = rw live at j in
            let held_m : mem + (m + held_mem (keep (is_live now) rs)) < 2 ^ 62 = rw live at k in
            rw live (
              counted_iff r rs cpu mem _ _ other
                (ap (add64 (pos cpu)) (as_pos r.cpu_milli plus_cpu) ∙ add64_pos cpu c (omega arith))
                (ap (add64 (pos mem)) (as_pos r.mem_milli plus_mem) ∙ add64_pos mem m (omega arith))
                (omega arith) (omega arith)
                (filter_from_iff rs (cpu + c) (mem + m) h (omega arith) (omega arith)))
      ]

from_zero :
    {A : Type 0} (free_cpu free_mem : ℤ) (need_cpu need_mem : ℕ) (rs : List Reservation)
    → A ↔ (
        (rs ≡ [])
        ⊎ ((pos (0 + held_cpu rs + need_cpu) ≤ℤ free_cpu)
            × (pos (0 + held_mem rs + need_mem) ≤ℤ free_mem)))
    → A ↔ ((rs ≡ []) ⊎ Fits free_cpu free_mem need_cpu need_mem rs)
from_zero free_cpu free_mem need_cpu need_mem rs h = (
  λ a. elim (h.0 a) [ inl e ↦ inl e | inr (hc, hm) ↦ inr (omega arith, omega arith) ],
  λ b. elim b [ inl e ↦ h.1 (inl e) | inr (hc, hm) ↦ h.1 (inr (omega arith, omega arith)) ],
)

-- For a pod whose requests sum without overflow, on a node whose free resources are modest, with
-- reservations of other pods, of amounts that are not negative and modest in total: Filter passes the
-- node exactly when there is no live reservation on it, or when the free CPU and the free memory
-- cover what all live reservations hold and what the pod needs.
pub filter_iff :
    (now : ℕ) (table : Table) (pod : Pod) (node : NodeInfo) (need_cpu need_mem : ℕ)
    → let free_cpu = sub64 node.allocatable_cpu node.requested_cpu in
      let free_mem = sub64 node.allocatable_memory node.requested_memory in
      let rs = or_nothing (lookup node.name table) in
      needs pod ≡ (pos need_cpu, pos need_mem)
      → IsModest free_cpu
      → IsModest free_mem
      → All (IsForeign pod) rs
      → held_cpu (keep (is_live now) rs) < 2 ^ 62
      → held_mem (keep (is_live now) rs) < 2 ^ 62
      → (filter now table pod node ≡ success) ↔ (
          (keep (is_live now) rs ≡ [])
          ⊎ Fits free_cpu free_mem need_cpu need_mem (keep (is_live now) rs))
unfolding filter
filter_iff now table pod node need_cpu need_mem e modest_cpu modest_mem h j k = rw e (
    from_zero _ _ need_cpu need_mem _ (
      filter_from_iff now pod (sub64 node.allocatable_cpu node.requested_cpu)
        (sub64 node.allocatable_memory node.requested_memory) need_cpu need_mem modest_cpu
        modest_mem (or_nothing (lookup node.name table)) 0 0 h (omega arith) (omega arith)))

own_first :
    (now : ℕ) (pod : Pod) (free_cpu free_mem need_cpu need_mem : ℤ) (cpu mem : ℕ)
    (own : Reservation) (others : List Reservation)
    → is_own pod own ≡ true
    → is_expired now own ≡ false
    → add64 (pos 0) own.cpu_milli ≡ pos cpu
    → add64 (pos 0) own.mem_milli ≡ pos mem
    → filter_from now pod free_cpu free_mem need_cpu need_mem (own ∷ others) (pos 0, pos 0)
      ≡ filter_from now pod free_cpu free_mem need_cpu need_mem others (pos cpu, pos mem)
unfolding filter_from
own_first now pod free_cpu free_mem need_cpu need_mem cpu mem own others mine live ec em =
    rw (live, mine) (rw (ec, em))

regroup :
    {A : Type 0} (free_cpu free_mem : ℤ) (need_cpu need_mem cpu mem : ℕ) (rs : List Reservation)
    → A ↔ (
        (rs ≡ [])
        ⊎ ((pos (cpu + held_cpu rs + need_cpu) ≤ℤ free_cpu)
            × (pos (mem + held_mem rs + need_mem) ≤ℤ free_mem)))
    → A ↔ ((rs ≡ []) ⊎ Fits free_cpu free_mem (cpu + need_cpu) (mem + need_mem) rs)
regroup free_cpu free_mem need_cpu need_mem cpu mem rs h = (
  λ a. elim (h.0 a) [ inl e ↦ inl e | inr (hc, hm) ↦ inr (omega arith, omega arith) ],
  λ b. elim b [ inl e ↦ h.1 (inl e) | inr (hc, hm) ↦ h.1 (inr (omega arith, omega arith)) ],
)

-- A live reservation of the pod itself counts against it. With modest amounts that are not
-- negative, and reservations of other pods behind it, Filter passes the node exactly when none of
-- the others is live, or when the free resources cover the live reservations of the others, what
-- the pod needs, and once more what is reserved for it.
pub filter_own_iff :
    (now : ℕ) (pod : Pod) (free_cpu free_mem : ℤ) (need_cpu need_mem cpu mem : ℕ)
    (own : Reservation) (others : List Reservation)
    → IsModest free_cpu
    → IsModest free_mem
    → is_own pod own ≡ true
    → is_expired now own ≡ false
    → own.cpu_milli ≡ pos cpu
    → own.mem_milli ≡ pos mem
    → All (IsForeign pod) others
    → cpu + held_cpu (keep (is_live now) others) < 2 ^ 62
    → mem + held_mem (keep (is_live now) others) < 2 ^ 62
    → (filter_from now pod free_cpu free_mem
          (pos need_cpu)
          (pos need_mem)
          (own ∷ others)
          (pos 0, pos 0)
        ≡ success)
      ↔ ((keep (is_live now) others ≡ [])
          ⊎ Fits free_cpu free_mem (cpu + need_cpu) (mem + need_mem) (keep (is_live now) others))
filter_own_iff now pod free_cpu free_mem need_cpu need_mem cpu mem own others modest_cpu modest_mem
      mine live ec em h j k =
    regroup free_cpu free_mem need_cpu need_mem cpu mem (keep (is_live now) others) (
      subst
        (λ code.
          (code ≡ success)
          ↔ FitsAfter now pod free_cpu free_mem need_cpu need_mem modest_cpu modest_mem
              (keep (is_live now) others) cpu mem)
        (sym (
          own_first now pod free_cpu free_mem (pos need_cpu) (pos need_mem) cpu mem own others mine
            live (ap (add64 (pos 0)) ec ∙ add64_pos 0 cpu (omega arith) ∙ ap pos (omega arith))
            (ap (add64 (pos 0)) em ∙ add64_pos 0 mem (omega arith) ∙ ap pos (omega arith))))
        (filter_from_iff now pod free_cpu free_mem need_cpu need_mem modest_cpu modest_mem others
          cpu mem h j k))
