-- ===== src/Regexp.antt =====
-- Regular expressions, as Go's package regexp matches them against a whole text: by derivatives.
pub mod Language
use unicore.Prelude.{
  ℕ, zero, suc, leb, ◌==◌, Bool, true, false, ◌&&◌, ◌||◌, if◌then◌else◌, Str, codes, List, [], ◌∷◌,
  ◌≡◌, refl,
}

-- `one` is a class of characters.
pub data Regexp : Type 0 where
  fail empty : Regexp
  one : (ℕ → Bool) → Regexp
  seq alt : Regexp → Regexp → Regexp
  star : Regexp → Regexp

nullable : Regexp → Bool
nullable fail = false
nullable empty = true
nullable (one f) = false
nullable (seq r q) = nullable r && nullable q
nullable (alt r q) = nullable r || nullable q
nullable (star r) = true

-- What has to follow the character.
deriv : ℕ → Regexp → Regexp
unfolding nullable
deriv c fail = fail
deriv c empty = fail
deriv c (one f) = if f c then empty else fail
deriv c (seq r q) =
    let first = seq (deriv c r) q in
    let second = deriv c q in if nullable r then alt first second else first
deriv c (alt r q) = alt (deriv c r) (deriv c q)
deriv c (star r) = seq (deriv c r) (star r)

unfoldable pub matches : Regexp → Str → Bool
unfolding nullable deriv
matches r [] = nullable r
matches r (c ∷ s) = matches (deriv c r) s

-- r+
abbrev pub plus : Regexp → Regexp
plus r = seq r (star r)

-- r?
abbrev pub optional : Regexp → Regexp
optional r = alt empty r

-- r{n}
unfoldable pub times : ℕ → Regexp → Regexp
times zero r = empty
times (suc n) r = seq r (times n r)

unfoldable pub literal : Str → Regexp
literal [] = empty
literal (c ∷ s) = seq (one (λ d. d == c)) (literal s)

plus_test : matches (plus (one (λ c. c == b'a'))) (codes "aaa") ≡ true
unfolding matches
plus_test = refl
