-- ===== src/Regexp/Language.antt =====
-- A text is matched exactly when it is in the language of the expression.
use unicore.Prelude.{
  ℕ, Bool, true, false, ◌&&◌, if◌then◌else◌, Str, [], ◌∷◌, ◌++◌, ◌≡◌, refl, ◌∙◌, ap, sym, subst,
  inl, inr, ◌⊎◌, arith, Bool-cases,
}
use unicore.Regexp.{Regexp, fail, empty, one, seq, alt, star, nullable, deriv, matches}

-- The language of an expression. The parts of a text are variables with an equation.
pub data Matches : Regexp → Str → Type 0 where
  nothing : Matches empty []
  char : (f : ℕ → Bool) (c : ℕ) → f c ≡ true → Matches (one f) (c ∷ [])
  both : (r q : Regexp) (s t u : Str) → Matches r s → Matches q t → u ≡ s ++ t → Matches (seq r q) u
  left : (r q : Regexp) (s : Str) → Matches r s → Matches (alt r q) s
  right : (r q : Regexp) (s : Str) → Matches q s → Matches (alt r q) s
  done : (r : Regexp) → Matches (star r) []
  more :
      (r : Regexp) (s t u : Str)
      → Matches r s
      → Matches (star r) t
      → u ≡ s ++ t
      → Matches (star r) u

nil_parts : (s t : Str) → [] ≡ s ++ t → (s ≡ []) × (t ≡ [])
nil_parts [] t e = (refl, sym e)
nil_parts (c ∷ s) t e = cc

nullable_complete : (r : Regexp) (u : Str) → Matches r u → u ≡ [] → nullable r ≡ true
unfolding nullable
nullable_complete r u nothing e = refl
nullable_complete r u (char f c h) e = cc
nullable_complete r u (both r' q s t _ m n at) e =
    let (a, b) = nil_parts s t (sym e ∙ at) in
    rw (nullable_complete r' s m a) (nullable_complete q t n b)
nullable_complete r u (left r' q _ m) e = rw (nullable_complete r' u m e) refl
nullable_complete r u (right r' q _ m) e = ground (arith, nullable_complete q u m e)
nullable_complete r u (done r') e = refl
nullable_complete r u (more r' s t _ m n at) e = refl

cons_parts :
    (s t : Str) (c : ℕ) (u : Str)
    → c ∷ u ≡ s ++ t
    → (s ≡ []) × (t ≡ c ∷ u) ⊎ ((s' : Str) × (s ≡ c ∷ s') × (u ≡ s' ++ t))
cons_parts [] t c u e = inl (refl, sym e)
cons_parts (d ∷ s) t c u e = inr (s, (cc), (cc))

first-Matches :
    (b : Bool) (first second : Regexp) (s : Str)
    → Matches first s
    → Matches (if b then alt first second else first) s
first-Matches true first second s m = left first second s m
first-Matches false first second s m = m

second-Matches :
    (b : Bool) (first second : Regexp) (s : Str)
    → b ≡ true
    → Matches second s
    → Matches (if b then alt first second else first) s
second-Matches true first second s e m = right first second s m
second-Matches false first second s e m = cc

head_of : (d c : ℕ) (t s : Str) → d ∷ t ≡ c ∷ s → (d ≡ c) × (t ≡ s)
head_of d c t s e = ((cc), (cc))

class-Matches : (b : Bool) → b ≡ true → Matches (if b then empty else fail) []
class-Matches true e = nothing
class-Matches false e = cc

deriv_complete : (c : ℕ) (r : Regexp) (u s : Str) → Matches r u → u ≡ c ∷ s → Matches (deriv c r) s
unfolding deriv
deriv_complete c r u s nothing e = cc
deriv_complete c r u s (char f d h) e =
    let (same, end) = head_of d c [] s e in
    subst (Matches (deriv c (one f))) end (class-Matches (f c) (ap f (sym same) ∙ h))
deriv_complete c r u s (both r' q s1 t _ m n at) e = elim (cons_parts s1 t c s (sym e ∙ at)) [
  | inl (none_left, rest) ↦
      second-Matches (nullable r') (seq (deriv c r') q) (deriv c q) s
        (nullable_complete r' s1 m none_left) (deriv_complete c q t s n rest)
  | inr (s', first, rest) ↦
      first-Matches (nullable r') (seq (deriv c r') q) (deriv c q) s
        (both (deriv c r') q s' t s (deriv_complete c r' s1 s' m first) n rest)
]
deriv_complete c r u s (left r' q _ m) e =
    left (deriv c r') (deriv c q) s (deriv_complete c r' u s m e)
deriv_complete c r u s (right r' q _ m) e =
    right (deriv c r') (deriv c q) s (deriv_complete c q u s m e)
deriv_complete c r u s (done r') e = cc
deriv_complete c r u s (more r' s1 t _ m n at) e = elim (cons_parts s1 t c s (sym e ∙ at)) [
  | inl (none_left, rest) ↦ deriv_complete c (star r') t s n rest
  | inr (s', first, rest) ↦
      both (deriv c r') (star r') s' t s (deriv_complete c r' s1 s' m first) n rest
]

pub Matches-matches : (r : Regexp) (s : Str) → Matches r s → matches r s ≡ true
unfolding matches
Matches-matches r [] m = nullable_complete r [] m refl
Matches-matches r (c ∷ s) m = Matches-matches (deriv c r) s (deriv_complete c r (c ∷ s) s m refl)

seq_parts :
    (r q : Regexp) (u : Str)
    → Matches (seq r q) u
    → (s : Str) × (t : Str) × Matches r s × Matches q t × (u ≡ s ++ t)
seq_parts r q u (both _ _ s t _ m n e) = (s, t, m, n, e)

alt_parts : (r q : Regexp) (u : Str) → Matches (alt r q) u → Matches r u ⊎ Matches q u
alt_parts r q u (left _ _ _ m) = inl m
alt_parts r q u (right _ _ _ m) = inr m

pub both_true : (a b : Bool) → (a && b) ≡ true → (a ≡ true) × (b ≡ true)
both_true a b h = ground arith

nullable_sound : (r : Regexp) → nullable r ≡ true → Matches r []
unfolding nullable
nullable_sound fail h = cc
nullable_sound empty h = nothing
nullable_sound (one f) h = cc
nullable_sound (seq r q) h =
    let (a, b) : (nullable r ≡ true) × (nullable q ≡ true) =
      both_true (nullable r) (nullable q) h in
    both r q [] [] [] (nullable_sound r a) (nullable_sound q b) refl
nullable_sound (alt r q) h = elim (Bool-cases (nullable r)) [
  | inl e ↦ left r q [] (nullable_sound r e)
  | inr e ↦ right r q [] (nullable_sound q (rw e at h))
]
nullable_sound (star r) h = done r

class_parts : (b : Bool) (s : Str) → Matches (if b then empty else fail) s → (b ≡ true) × (s ≡ [])
class_parts true s nothing = (refl, refl)
class_parts false s m = elim m [ ]

if_parts :
    (b : Bool) (first second : Regexp) (s : Str)
    → Matches (if b then alt first second else first) s
    → Matches first s ⊎ (b ≡ true) × Matches second s
if_parts true first second s m = elim (alt_parts first second s m) [
  | inl a ↦ inl a
  | inr b ↦ inr (refl, b)
]
if_parts false first second s m = inl m

deriv_sound : (c : ℕ) (r : Regexp) (s : Str) → Matches (deriv c r) s → Matches r (c ∷ s)
unfolding deriv
deriv_sound c fail s m = elim m [ ]
deriv_sound c empty s m = elim m [ ]
deriv_sound c (one f) s m =
    let (h, end) = class_parts (f c) s m in
    subst (λ t. Matches (one f) (c ∷ t)) (sym end) (char f c h)
deriv_sound c (seq r q) s m = elim (if_parts (nullable r) (seq (deriv c r) q) (deriv c q) s m) [
  | inl first ↦
      let (s1, t, a, b, e) = seq_parts (deriv c r) q s first in
      both r q (c ∷ s1) t (c ∷ s) (deriv_sound c r s1 a) b (ap (λ v. c ∷ v) e)
  | inr (h, second) ↦
      both r q [] (c ∷ s) (c ∷ s) (nullable_sound r h) (deriv_sound c q s second) refl
]
deriv_sound c (alt r q) s m = elim (alt_parts (deriv c r) (deriv c q) s m) [
  | inl a ↦ left r q (c ∷ s) (deriv_sound c r s a)
  | inr b ↦ right r q (c ∷ s) (deriv_sound c q s b)
]
deriv_sound c (star r) s m =
    let (s1, t, a, b, e) = seq_parts (deriv c r) (star r) s m in
    more r (c ∷ s1) t (c ∷ s) (deriv_sound c r s1 a) b (ap (λ v. c ∷ v) e)

pub matches-Matches : (r : Regexp) (s : Str) → matches r s ≡ true → Matches r s
unfolding matches
matches-Matches r [] h = nullable_sound r h
matches-Matches r (c ∷ s) h = deriv_sound c r s (matches-Matches (deriv c r) s h)
