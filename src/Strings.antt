-- ===== src/Strings.antt =====
-- The parts of Go's packages strings and strconv that the controllers call: Split and Join by one
-- byte, Itoa and Atoi.
pub mod Split
pub mod Decimal
pub mod Signs
use unicore.Prelude.{
  ℕ, zero, suc, ◌+◌, ◌-◌, ◌*◌, ◌/◌, ◌%◌, ◌^◌, ℤ, pos, negsuc, sub_ℕ, Bool, ◌&&◌, Str, List, [], ◌∷◌,
  ◌++◌, Option, none, some, ltb, leb, ◌==◌, if◌then◌else◌, codes, ◌≡◌, refl,
}

abbrev cons_first : ℕ → List Str → List Str
cons_first c [] = (c ∷ []) ∷ []
cons_first c (p ∷ ps) = (c ∷ p) ∷ ps

-- strings.Split(s, sep) for a separator of one byte
unfoldable pub split : ℕ → Str → List Str
split sep [] = [] ∷ []
split sep (c ∷ s) = let r = split sep s in if c == sep then [] ∷ r else cons_first c r

-- strings.Join(parts, sep)
unfoldable pub join : ℕ → List Str → Str
join sep [] = []
join sep (p ∷ []) = p
join sep (p ∷ q ∷ ps) = p ++ sep ∷ join sep (q ∷ ps)

-- parts[:len(parts)-1] and parts[len(parts)-1]
abbrev pub but_last : List Str → List Str
but_last [] = []
but_last (p ∷ []) = []
but_last (p ∷ q ∷ ps) = p ∷ but_last (q ∷ ps)

abbrev pub last_or_empty : List Str → Str
last_or_empty [] = []
last_or_empty (p ∷ []) = p
last_or_empty (p ∷ q ∷ ps) = last_or_empty (q ∷ ps)

-- One digit a round, least significant first; `n` rounds are enough for `n`.
emit : ℕ → ℕ → Str → Str
emit zero n out = out
emit (suc f) n out =
    let rest = emit f (n / 10) ((b'0' + n % 10) ∷ out) in if n == 0 then out else rest

format_nat : ℕ → Str
unfolding emit
format_nat n = if n == 0 then b'0' ∷ [] else emit n n []

-- strconv.Itoa, and the verb %d
unfoldable pub itoa : ℤ → Str
unfolding format_nat emit
itoa (pos n) = format_nat n
itoa (negsuc n) = b'-' ∷ format_nat (suc n)

abbrev is_digit : ℕ → Bool
is_digit c = leb b'0' c && leb c b'9'

scan : Str → ℕ → Option ℕ
scan [] n = some n
scan (c ∷ s) n = let rest = scan s (n * 10 + (c - b'0')) in if is_digit c then rest else none

parse_digits : Str → Option ℕ
unfolding scan
parse_digits [] = none
parse_digits (c ∷ s) = scan (c ∷ s) 0

-- The values of a 64-bit int: an Option that is none stands for a returned error.
abbrev in_range_pos : Option ℕ → Option ℤ
in_range_pos none = none
in_range_pos (some n) = if ltb n (2 ^ 63) then some (pos n) else none

abbrev in_range_neg : Option ℕ → Option ℤ
in_range_neg none = none
in_range_neg (some n) = if leb n (2 ^ 63) then some (sub_ℕ 0 n) else none

-- strconv.Atoi
unfoldable pub atoi : Str → Option ℤ
unfolding parse_digits scan
atoi [] = none
atoi (c ∷ s) =
    if c == b'-'
    then in_range_neg (parse_digits s)
    else if c == b'+'
    then in_range_pos (parse_digits s)
    else in_range_pos (parse_digits (c ∷ s))

split_test : split b'-' (codes "a-b-12") ≡ codes "a" ∷ codes "b" ∷ codes "12" ∷ []
unfolding split
split_test = refl

atoi_test : atoi (codes "-407") ≡ some (negsuc 406)
unfolding atoi
atoi_test = refl

itoa_test : itoa (pos 120) ≡ codes "120"
unfolding itoa
itoa_test = refl
