-- ===== src/Strings/Decimal.antt =====
-- strconv: Atoi reads what Itoa wrote.
use unicore.Prelude.{
  ℕ, zero, suc, ◌+◌, ◌*◌, ◌/◌, ◌%◌, ◌^◌, ◌≤◌, ◌<◌, pos, ◌≡◌, ◌≢◌, refl, Str, [], ◌∷◌, some, arith,
  All, ◌==◌, Bool-cases, inl, inr,
}
use unicore.Strings.{emit, format_nat, itoa, scan, atoi}
use unicore.Strings.Split.{Lacks}

abbrev pub IsDigit : ℕ → Type 0
IsDigit c = (48 ≤ c) × (c ≤ 57)

scan-digit :
    (n : ℕ) (out : Str) → scan ((48 + n % 10) ∷ out) (n / 10) ≡ scan out (n / 10 * 10 + n % 10)
unfolding scan
scan-digit n out = ground arith

-- The digits that the loop writes for `n` read as `n`.
scan-emit : (f n : ℕ) (out : Str) → n ≤ f → scan (emit f n out) 0 ≡ scan out n
unfolding emit
scan-emit zero n out h = ground arith
scan-emit (suc f) n out h = elim (Bool-cases (n == 0)) [
  | inl e ↦ ground arith
  | inr e ↦
      rw e (
        ground (arith, scan-emit f (n / 10) ((48 + n % 10) ∷ out) (ground arith), scan-digit n out))
]

emit-digits : (f n : ℕ) (out : Str) → All IsDigit out → All IsDigit (emit f n out)
unfolding emit
emit-digits zero n out h = h
emit-digits (suc f) n out h =
    ground (arith, emit-digits f (n / 10) ((48 + n % 10) ∷ out) ((omega arith, omega arith), h))

emit-nonempty : (f n c : ℕ) (out : Str) → emit f n (c ∷ out) ≢ []
unfolding emit
emit-nonempty zero n c out e = cc
emit-nonempty (suc f) n c out e = ground (arith, emit-nonempty f (n / 10) (48 + n % 10) (c ∷ out))

format_nat-digits : (n : ℕ) → All IsDigit (format_nat n)
unfolding format_nat
format_nat-digits n = ground (arith, emit-digits n n [] tt)

format_nat-nonempty : (n : ℕ) → format_nat n ≢ []
unfolding format_nat emit
format_nat-nonempty zero e = cc
format_nat-nonempty (suc n) e = ground (arith, emit-nonempty n (suc n / 10) (48 + suc n % 10) [])

scan-format_nat : (n : ℕ) → scan (format_nat n) 0 ≡ some n
unfolding format_nat scan
scan-format_nat n = ground (arith, scan-emit n n [] (omega arith))

-- A digit string goes through Atoi's sign test untouched.
atoi-digits :
    (s : Str) (n : ℕ)
    → s ≢ []
    → All IsDigit s
    → scan s 0 ≡ some n
    → n < 2 ^ 63
    → atoi s ≡ some (pos n)
unfolding atoi
atoi-digits [] n ne h e lt = absurd (ne refl)
atoi-digits (c ∷ s) n ne h e lt = ground arith

pub atoi-itoa : (n : ℕ) → n < 2 ^ 63 → atoi (itoa (pos n)) ≡ some (pos n)
unfolding itoa
atoi-itoa n h =
    atoi-digits (format_nat n) n (format_nat-nonempty n) (format_nat-digits n) (scan-format_nat n) h

-- What Itoa writes of a natural number: digits, at least one.
pub itoa-digits : (n : ℕ) → All IsDigit (itoa (pos n))
unfolding itoa
itoa-digits n = format_nat-digits n

pub itoa-nonempty : (n : ℕ) → itoa (pos n) ≢ []
unfolding itoa
itoa-nonempty n = format_nat-nonempty n

pub digits-Lacks : (sep : ℕ) (s : Str) → sep < 48 → All IsDigit s → Lacks sep s
digits-Lacks sep [] low h = tt
digits-Lacks sep (c ∷ s) low h = (omega arith, digits-Lacks sep s low h.1)

-- A decimal has no dash, so a dash before it is where Split cuts.
pub itoa-Lacks : (n : ℕ) → Lacks b'-' (itoa (pos n))
itoa-Lacks n = digits-Lacks b'-' (itoa (pos n)) (omega arith) (itoa-digits n)
