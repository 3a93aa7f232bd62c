-- ===== src/Prelude/Maps.antt =====
-- Go maps with string keys as association lists. A nil map reads like an empty one.
use mathlib.Core.Path.{◌≡◌, refl, subst}
use mathlib.Core.Logic.{inl, inr}
use mathlib.Core.Bool.{Bool, true, false, ◌||◌}
use mathlib.Core.List.{List, [], ◌∷◌}
use mathlib.Core.Option.{Option, none, some}
use native.Mathlib.Omega.{arith}
use unicore.Prelude.Tests.{if◌then◌else◌, Bool-cases}
use unicore.Prelude.Lists.{All}
use unicore.Prelude.Text.{Str, str_eq, str_eq_iff}

abbrev pub Map {ℓ} : Type ℓ → Type ℓ
Map V = List (Str × V)

module _ {ℓ} {V : Type ℓ} where
  -- `v, ok := m[k]`
  unfoldable pub lookup : Str → Map V → Option V
  lookup k [] = none
  lookup k ((j, v) ∷ m) = if str_eq j k then some v else lookup k m

  -- `m[k] = v`
  unfoldable pub insert : Str → V → Map V → Map V
  insert k v [] = (k, v) ∷ []
  insert k v ((j, w) ∷ m) = if str_eq j k then (k, v) ∷ m else (j, w) ∷ insert k v m

  -- `delete(m, k)`
  unfoldable pub remove : Str → Map V → Map V
  remove k [] = []
  remove k ((j, v) ∷ m) = let rest = remove k m in if str_eq j k then rest else (j, v) ∷ rest

  pub lookup-insert :
      (k j : Str) (v : V) (m : Map V)
      → lookup j (insert k v m) ≡ (if str_eq k j then some v else lookup j m)
  unfolding lookup insert
  lookup-insert k j v [] = refl
  lookup-insert k j v ((i, w) ∷ m) =
      ground (arith, str_eq_iff k j, str_eq_iff i k, str_eq_iff i j, lookup-insert k j v m)

  pub lookup-remove :
      (k j : Str) (m : Map V) → lookup j (remove k m) ≡ (if str_eq k j then none else lookup j m)
  unfolding lookup remove
  lookup-remove k j [] = ground arith
  lookup-remove k j ((i, w) ∷ m) =
      ground (arith, str_eq_iff k j, str_eq_iff i k, str_eq_iff i j, lookup-remove k j m)

-- `m[k]` for a map of strings: a missing key reads as "".
abbrev pub get_or_empty : Option Str → Str
get_or_empty none = []
get_or_empty (some v) = v

-- `m[k]` for a map of Booleans, or `_, ok := m[k]`.
abbrev pub is_some {ℓ} : {A : Type ℓ} → Option A → Bool
is_some none = false
is_some (some a) = true

-- The key stands in the list.
abbrev pub contains : Str → List Str → Bool
contains k [] = false
contains k (j ∷ js) = str_eq j k || contains k js

-- No key stands twice, as in every Go map.
abbrev pub Distinct {ℓ} : {V : Type ℓ} → Map V → Type ℓ
Distinct [] = Unit
Distinct ((k, v) ∷ m) = All (λ e. str_eq k e.0 ≡ false) m × Distinct m

module _ {ℓ} {V : Type ℓ} where
  Absent-insert :
      (j k : Str) (v : V) (m : Map V)
      → str_eq j k ≡ false
      → All (λ e. str_eq j e.0 ≡ false) m
      → All (λ e. str_eq j e.0 ≡ false) (insert k v m)
  unfolding insert
  Absent-insert j k v [] h a = (h, tt)
  Absent-insert j k v ((i, w) ∷ m) h (b, a) = elim (Bool-cases (str_eq i k)) [
    | inl e ↦ rw e (h, a)
    | inr e ↦ rw e (b, Absent-insert j k v m h a)
  ]

  pub Distinct-insert : (k : Str) (v : V) (m : Map V) → Distinct m → Distinct (insert k v m)
  unfolding insert
  Distinct-insert k v [] h = (tt, tt)
  Distinct-insert k v ((i, w) ∷ m) (a, h) = elim (Bool-cases (str_eq i k)) [
    | inl e ↦
        let same : i ≡ k = (str_eq_iff i k).0 e in
        rw e (subst (λ j. All (λ (x : Str × V). str_eq j x.0 ≡ false) m) same a, h)
    | inr e ↦ rw e (Absent-insert i k v m e a, Distinct-insert k v m h)
  ]

  Absent-remove :
      (j k : Str) (m : Map V)
      → All (λ e. str_eq j e.0 ≡ false) m
      → All (λ e. str_eq j e.0 ≡ false) (remove k m)
  unfolding remove
  Absent-remove j k [] a = tt
  Absent-remove j k ((i, w) ∷ m) (b, a) = elim (Bool-cases (str_eq i k)) [
    | inl e ↦ rw e (Absent-remove j k m a)
    | inr e ↦ rw e (b, Absent-remove j k m a)
  ]

  pub Distinct-remove : (k : Str) (m : Map V) → Distinct m → Distinct (remove k m)
  unfolding remove
  Distinct-remove k [] h = tt
  Distinct-remove k ((i, w) ∷ m) (a, h) = elim (Bool-cases (str_eq i k)) [
    | inl e ↦ rw e (Distinct-remove k m h)
    | inr e ↦ rw e (Absent-remove i k m a, Distinct-remove k m h)
  ]

  pub lookup-absent : (k : Str) (m : Map V) → All (λ e. str_eq k e.0 ≡ false) m → lookup k m ≡ none
  unfolding lookup
  lookup-absent k [] a = refl
  lookup-absent k ((i, w) ∷ m) (b, a) =
      ground (arith, str_eq_iff k i, str_eq_iff i k, lookup-absent k m a)

pub ruleset map_laws = (lookup-insert, lookup-remove)
