-- ===== src/Scheduler/Reserve/Amounts.antt =====
-- Filter of reserve.go: the amounts that reservations hold, below the range of int64.
use unicore.Prelude.{
  ℕ, ◌+◌, ◌^◌, ◌<◌, ℤ, pos, pos_part, neg_part, ◌≤ℤ◌, ◌≡◌, refl, ◌↔◌, if◌then◌else◌, Bool, true,
  false, not, ◌&&◌, ◌||◌, List, [], ◌∷◌, arith,
}
use unicore.Api.{Pod}
use unicore.Scheduler.{Code, success, unschedulable}
use unicore.Scheduler.Reserve.{Reservation, is_own, is_expired}

abbrev pub is_live : ℕ → Reservation → Bool
is_live now r = not (is_expired now r)

-- The CPU and the memory that the live reservations hold.
abbrev pub held_cpu : List Reservation → ℕ
held_cpu [] = 0
held_cpu (r ∷ rs) = pos_part r.cpu_milli + held_cpu rs

abbrev pub held_mem : List Reservation → ℕ
held_mem [] = 0
held_mem (r ∷ rs) = pos_part r.mem_milli + held_mem rs

-- A reservation of another pod, of amounts that are not negative.
abbrev pub IsForeign : Pod → Reservation → Type 0
IsForeign pod r = (is_own pod r ≡ false) × (neg_part r.cpu_milli ≡ 0) × (neg_part r.mem_milli ≡ 0)

-- An amount within which sums of 64 bits do not wrap around.
abbrev pub IsModest : ℤ → Type 0
IsModest a = (pos_part a < 2 ^ 62) × (neg_part a < 2 ^ 62)

abbrev pub Fits : ℤ → ℤ → ℕ → ℕ → List Reservation → Type 0
Fits free_cpu free_mem need_cpu need_mem rs =
    (pos (held_cpu rs + need_cpu) ≤ℤ free_cpu) × (pos (held_mem rs + need_mem) ≤ℤ free_mem)

pub as_pos : (a : ℤ) → neg_part a ≡ 0 → a ≡ pos (pos_part a)
as_pos a h = ground arith

pub judged_iff {ℓ κ} :
    {S : Type ℓ} {R : Type κ} (own short : Bool) (rest : Code)
    → own ≡ false
    → (short ≡ false) ↔ S
    → (rest ≡ success) ↔ R
    → ((if not own && short then unschedulable else rest) ≡ success) ↔ (S × R)
judged_iff true short rest e s r = cc
judged_iff false true rest e s r = (λ h. cc, λ (held, _). let g = s.1 held in cc)
judged_iff false false rest e s r = (λ h. (s.0 refl, r.0 h), λ (_, held). r.1 held)

pub both_iff {ℓ κ} :
    {S : Type ℓ} {R : Type κ} (a b : Bool)
    → (a ≡ false) ↔ S
    → (b ≡ false) ↔ R
    → ((a || b) ≡ false) ↔ (S × R)
both_iff true b s r = (λ h. cc, λ (held, _). let g = s.1 held in cc)
both_iff false b s r = (λ h. (s.0 refl, r.0 h), λ (_, held). r.1 held)
