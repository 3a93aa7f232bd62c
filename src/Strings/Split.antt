-- ===== src/Strings/Split.antt =====
-- strings.Split and strings.Join: cutting at the last separator, and joining what was split.
use unicore.Prelude.{
  ℕ, ◌≡◌, ◌≢◌, refl, Str, List, [], ◌∷◌, ◌++◌, arith, All, length, ◌≤◌, ◌==◌, Bool-cases, inl, inr,
}
use unicore.Strings.{split, join, but_last, last_or_empty}

abbrev pub Lacks : ℕ → Str → Type 0
Lacks sep = All (λ c. c ≢ sep)

split-Lacks : (sep : ℕ) (t : Str) → Lacks sep t → split sep t ≡ t ∷ []
unfolding split
split-Lacks sep [] h = refl
split-Lacks sep (c ∷ t) h = ground (arith, split-Lacks sep t h.1)

-- Split returns at least one part.
split-cons : (sep : ℕ) (s : Str) → (p : Str) × (ps : List Str) × (split sep s ≡ p ∷ ps)
unfolding split
split-cons sep [] = ([], [], refl)
split-cons sep (c ∷ s) =
    let (p, ps, e) = split-cons sep s in
    elim (Bool-cases (c == sep)) [
      | inl hit ↦ ([], split sep s, ground arith)
      | inr miss ↦ (c ∷ p, ps, ground arith)
    ]

join-cons_first :
    (sep c : ℕ) (p : Str) (ps : List Str) → join sep ((c ∷ p) ∷ ps) ≡ c ∷ join sep (p ∷ ps)
unfolding join
join-cons_first sep c p [] = refl
join-cons_first sep c p (q ∷ ps) = refl

pub join-split : (sep : ℕ) (s : Str) → join sep (split sep s) ≡ s
unfolding split join
join-split sep [] = refl
join-split sep (c ∷ s) =
    let (p, ps, e) = split-cons sep s in
    ground (arith, e, join-split sep s, join-cons_first sep c p ps)

-- A separator and a text without it add one part.
pub split-append :
    (sep : ℕ) (s t : Str) → Lacks sep t → split sep (s ++ sep ∷ t) ≡ split sep s ++ t ∷ []
unfolding split
split-append sep [] t h = ground (arith, split-Lacks sep t h)
split-append sep (c ∷ s) t h =
    let (p, ps, e) = split-cons sep s in ground (arith, e, split-append sep s t h)

pub but_last-append : (ps : List Str) (p : Str) → but_last (ps ++ p ∷ []) ≡ ps
but_last-append [] p = refl
but_last-append (q ∷ []) p = refl
but_last-append (q ∷ r ∷ ps) p = ground (arith, but_last-append (r ∷ ps) p)

pub last-append : (ps : List Str) (p : Str) → last_or_empty (ps ++ p ∷ []) ≡ p
last-append [] p = refl
last-append (q ∷ []) p = refl
last-append (q ∷ r ∷ ps) p = last-append (r ∷ ps) p

pub join-split_front :
    (sep : ℕ) (s t : Str) → Lacks sep t → join sep (but_last (split sep (s ++ sep ∷ t))) ≡ s
join-split_front sep s t h =
    rw (split-append sep s t h) (rw (but_last-append (split sep s) t) (join-split sep s))

pub split-length : (sep : ℕ) (s t : Str) → 2 ≤ length (split sep (s ++ sep ∷ t))
unfolding split
split-length sep [] t = let (p, ps, e) = split-cons sep t in ground (arith, e)
split-length sep (c ∷ s) t =
    let (p, ps, e) = split-cons sep (s ++ sep ∷ t) in ground (arith, e, split-length sep s t)
