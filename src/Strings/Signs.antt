-- ===== src/Strings/Signs.antt =====
-- The number after the last hyphen is not negative.
use unicore.Prelude.{
  ℕ, ◌^◌, ℤ, pos, ◌≡◌, ◌≢◌, Str, List, [], ◌∷◌, Option, none, some, arith, All, ltb, ◌==◌, ==_iff,
  Bool-cases, inl, inr,
}
use unicore.Strings.{split, cons_first, last_or_empty, in_range_pos, parse_digits, atoi}
use unicore.Strings.Split.{Lacks}

cons_first-Lacks :
    (sep c : ℕ) (ps : List Str) → c ≢ sep → All (Lacks sep) ps → All (Lacks sep) (cons_first c ps)
cons_first-Lacks sep c [] ne h = ((ne, tt), tt)
cons_first-Lacks sep c (p ∷ ps) ne h = ((ne, h.0), h.1)

parts-Lacks : (sep : ℕ) (s : Str) → All (Lacks sep) (split sep s)
unfolding split
parts-Lacks sep [] = (tt, tt)
parts-Lacks sep (c ∷ s) = elim (Bool-cases (c == sep)) [
  | inl hit ↦ rw hit (tt, parts-Lacks sep s)
  | inr miss ↦
      rw miss (
        cons_first-Lacks sep c (split sep s) (λ e. ground (arith, ==_iff c sep))
          (parts-Lacks sep s))
]

last-Lacks : (sep : ℕ) (ps : List Str) → All (Lacks sep) ps → Lacks sep (last_or_empty ps)
last-Lacks sep [] h = tt
last-Lacks sep (p ∷ []) h = h.0
last-Lacks sep (p ∷ q ∷ ps) h = last-Lacks sep (q ∷ ps) h.1

in_range_pos_lem : (o : Option ℕ) (i : ℤ) → in_range_pos o ≡ some i → (k : ℕ) × (i ≡ pos k)
in_range_pos_lem none i h = cc
in_range_pos_lem (some n) i h = elim (Bool-cases (ltb n (2 ^ 63))) [
  | inl low ↦ let g = rw low at h in (n, cc)
  | inr high ↦ let g = rw high at h in cc
]

atoi-Lacks : (s : Str) (i : ℤ) → Lacks b'-' s → atoi s ≡ some i → (k : ℕ) × (i ≡ pos k)
unfolding atoi
atoi-Lacks [] i h e = cc
atoi-Lacks (c ∷ s) i h e = elim (Bool-cases (c == b'-')) [
  | inl hit ↦ absurd (h.0 ((==_iff c b'-').0 hit))
  | inr miss ↦ elim (Bool-cases (c == b'+')) [
    | inl plus ↦ in_range_pos_lem (parse_digits s) i (rw (miss, plus) at e)
    | inr digit ↦ in_range_pos_lem (parse_digits (c ∷ s)) i (rw (miss, digit) at e)
  ]
]

pub last_number_lem :
    (s : Str) (i : ℤ) → atoi (last_or_empty (split b'-' s)) ≡ some i → (k : ℕ) × (i ≡ pos k)
last_number_lem s i e =
    atoi-Lacks (last_or_empty (split b'-' s)) i
      (last-Lacks b'-' (split b'-' s) (parts-Lacks b'-' s)) e
