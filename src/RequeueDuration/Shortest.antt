-- ===== src/RequeueDuration/Shortest.antt =====
-- Between two pops of a key the store holds the shortest positive duration that was pushed.
use unicore.Prelude.{
  ◌⊎◌, ◌∙◌, subst, sym, ◌≤ℤ◌, All, ℤ, pos, ltb_ℤ, ◌≡◌, refl, true, false, Str, str_eq, str_eq_iff,
  str_eq_refl, lookup, insert, lookup-insert, lookup-remove, List, [], ◌∷◌, none, some, arith,
  if◌then◌else◌, inl, inr,
}
use unicore.RequeueDuration.{Store, push, pop}

lookup-push_ne :
    (k j : Str) (d : ℤ) (s : Store) → str_eq k j ≡ false → lookup j (push k d s) ≡ lookup j s
unfolding push
lookup-push_ne k j d s ne =
    ground (arith, lookup-insert k j d s, lookup-insert k j d (insert k d s))

abbrev shorter : ℤ → ℤ → ℤ
shorter v d = if ltb_ℤ d v then d else v

lookup-push_new : (k : Str) (d : ℤ) (s : Store) → lookup k s ≡ none → lookup k (push k d s) ≡ some d
unfolding push
lookup-push_new k d s e = rw e (rw (lookup-insert k k d s) (rw (str_eq_refl k)))

lookup-push_old :
    (k : Str) (d v : ℤ) (s : Store)
    → lookup k s ≡ some v
    → ltb_ℤ (pos 0) d ≡ true
    → lookup k (push k d s) ≡ some (shorter v d)
unfolding push
lookup-push_old k d v s e p = ground (arith, e, lookup-insert k k d s, str_eq_refl k)

pub push_all : Str → List ℤ → Store → Store
push_all k [] s = s
push_all k (d ∷ ds) s = push_all k ds (push k d s)

abbrev shortest : ℤ → List ℤ → ℤ
shortest v [] = v
shortest v (d ∷ ds) = shortest (shorter v d) ds

abbrev pub OneOf : ℤ → List ℤ → Type 0
OneOf r [] = ⊥
OneOf r (d ∷ ds) = (r ≡ d) ⊎ OneOf r ds

abbrev pub AllPositive : List ℤ → Type 0
AllPositive = All (λ d. ltb_ℤ (pos 0) d ≡ true)

lookup-push_all_old :
    (k : Str) (v : ℤ) (ds : List ℤ) (s : Store)
    → lookup k s ≡ some v
    → AllPositive ds
    → lookup k (push_all k ds s) ≡ some (shortest v ds)
unfolding push_all
lookup-push_all_old k v [] s e p = e
lookup-push_all_old k v (d ∷ ds) s e p =
    lookup-push_all_old k (shorter v d) ds (push k d s) (lookup-push_old k d v s e p.0) p.1

lookup-push_all_ne :
    (k j : Str) (ds : List ℤ) (s : Store)
    → str_eq k j ≡ false
    → lookup j (push_all k ds s) ≡ lookup j s
unfolding push_all
lookup-push_all_ne k j [] s ne = refl
lookup-push_all_ne k j (d ∷ ds) s ne =
    lookup-push_all_ne k j ds (push k d s) ne ∙ lookup-push_ne k j d s ne

shorter-le_left : (v d r : ℤ) → r ≤ℤ shorter v d → r ≤ℤ v
shorter-le_left v d r h = ground arith

shorter-le_right : (v d r : ℤ) → r ≤ℤ shorter v d → r ≤ℤ d
shorter-le_right v d r h = ground arith

shorter-cases : (v d : ℤ) → (shorter v d ≡ v) ⊎ (shorter v d ≡ d)
shorter-cases v d = ground arith

shorter-OneOf : (v d : ℤ) (ds : List ℤ) (r : ℤ) → OneOf r (shorter v d ∷ ds) → OneOf r (v ∷ d ∷ ds)
shorter-OneOf v d ds r (inl e) = elim (shorter-cases v d) [
  | inl first ↦ inl (e ∙ first)
  | inr second ↦ inr (inl (e ∙ second))
]
shorter-OneOf v d ds r (inr m) = inr (inr m)

shortest-le : (v : ℤ) (ds : List ℤ) → All (λ e. shortest v ds ≤ℤ e) (v ∷ ds)
shortest-le v [] = (omega arith, tt)
shortest-le v (d ∷ ds) =
    let h = shortest-le (shorter v d) ds in
    (shorter-le_left v d _ h.0, (shorter-le_right v d _ h.0, h.1))

shortest-OneOf : (v : ℤ) (ds : List ℤ) → OneOf (shortest v ds) (v ∷ ds)
shortest-OneOf v [] = inl refl
shortest-OneOf v (d ∷ ds) = shorter-OneOf v d ds _ (shortest-OneOf (shorter v d) ds)

lookup-pop :
    (k j : Str) (s : Store) → lookup j (pop k s).1 ≡ (if str_eq k j then none else lookup j s)
unfolding pop
lookup-pop k j s = ground (arith, lookup-remove k j s, str_eq_iff k j)

popped_value : (k : Str) (s : Store) {v : ℤ} → lookup k s ≡ some v → (pop k s).0 ≡ v
unfolding pop
popped_value k s e = ground arith

pub pop-pop : (k : Str) (s : Store) → (pop k (pop k s).1).0 ≡ pos 0
unfolding pop
pop-pop k s = ground (arith, lookup-remove k k s, str_eq_refl k)

-- From a store with nothing for an app, after positive durations were pushed for it, Pop returns one
-- of them that is no longer than any; a second Pop returns 0; and no other app's entry has changed.
pub pop-push_all :
    (k : Str) (d : ℤ) (ds : List ℤ) (s : Store)
    → lookup k s ≡ none
    → AllPositive (d ∷ ds)
    → OneOf (pop k (push_all k (d ∷ ds) s)).0 (d ∷ ds)
      × All (λ e. (pop k (push_all k (d ∷ ds) s)).0 ≤ℤ e) (d ∷ ds)
      × ((pop k (pop k (push_all k (d ∷ ds) s)).1).0 ≡ pos 0)
      × ((j : Str) → str_eq k j ≡ false → lookup j (pop k (push_all k (d ∷ ds) s)).1 ≡ lookup j s)
unfolding push_all
pop-push_all k d ds s e p =
    let stored = lookup-push_all_old k d ds (push k d s) (lookup-push_new k d s e) p.1 in
    let popped = popped_value k _ stored in
    (
      subst (λ r. OneOf r (d ∷ ds)) (sym popped) (shortest-OneOf d ds),
      subst (λ r. All (λ e. r ≤ℤ e) (d ∷ ds)) (sym popped) (shortest-le d ds),
      pop-pop k _,
      λ j ne.
          lookup-pop k j _
          ∙ (rw ne (lookup-push_all_ne k j ds (push k d s) ne ∙ lookup-push_ne k j d s ne)),
    )
