-- ===== src/App/Update/Slots/Fill.antt =====
-- Placing the pods and filling the empty slots gives one pod for each ordinal below the count.
use unicore.Prelude.{
  ℕ, ◌<◌, ℤ, pos, negsuc, ltb, ltb→lt, ◌≡◌, refl, sym, ◌∙◌, ap, inl, inr, Bool, true, false, not,
  List, [], ◌∷◌, ◌++◌, Option, none, some, arith, All, Bool-cases, length, length-set,
  length-replicate, set, get_elem?, get_elem?-set, get_elem?-replicate, replicate, keep,
  keep-append, append-nil, append_assoc,
}
use unicore.Api.{Pod}
use unicore.App.Versions.{Returns}
use unicore.App.Versions.Partition.{Returns-bind}
use unicore.App.Update.Slots.{Slots, ordinal, place_at, place_from, place_pods}

-- Each pod stands in the slot of its ordinal.
abbrev pub InPlace : Slots → Type 0
InPlace slots = (j : ℕ) (pod : Pod) → get_elem? slots j ≡ some (some pod) → ordinal pod ≡ pos j

abbrev pub NonNegative : Pod → Type 0
NonNegative pod = (k : ℕ) × (ordinal pod ≡ pos k)

pub InPlace-set :
    (slots : Slots) (i : ℕ) (pod : Pod)
    → i < length slots
    → ordinal pod ≡ pos i
    → InPlace slots
    → InPlace (set slots i (some pod))
InPlace-set slots i pod small e h j q found =
    ground (arith, get_elem?-set slots i j (some pod) small, h j q)

InPlace-replicate : (n : ℕ) → InPlace (replicate n none)
InPlace-replicate n j pod found = elim (get_elem?-replicate {A = Option Pod} n j none) [
  | inl e ↦ let g = e in cc
  | inr e ↦ let g = e in cc
]

abbrev past_at : ℕ → ℤ → Bool
past_at n (pos k) = not (ltb k n)
past_at n (negsuc k) = false

-- The pods past the replica count.
abbrev pub past : ℕ → Pod → Bool
past n pod = past_at n (ordinal pod)

abbrev pub Placed : ℕ → List Pod → Slots × List Pod → Type 0
Placed n done (slots, invalid) = (length slots ≡ n) × InPlace slots × (invalid ≡ keep (past n) done)

keep-below :
    (n : ℕ) (done : List Pod) (pod : Pod)
    → past n pod ≡ false
    → keep (past n) (done ++ pod ∷ []) ≡ keep (past n) done
keep-below n done pod e =
    keep-append (past n) done (pod ∷ []) ∙ (rw e (append-nil (keep (past n) done)))

keep-past :
    (n : ℕ) (done : List Pod) (pod : Pod)
    → past n pod ≡ true
    → keep (past n) (done ++ pod ∷ []) ≡ keep (past n) done ++ pod ∷ []
keep-past n done pod e = keep-append (past n) done (pod ∷ []) ∙ (rw e)

place_at-Placed :
    (n : ℕ) (done : List Pod) (pod : Pod) (acc : Slots × List Pod) (k : ℕ)
    → ordinal pod ≡ pos k
    → Placed n done acc
    → Returns (Placed n (done ++ pod ∷ [])) (place_at n pod acc (ordinal pod))
unfolding place_at
place_at-Placed n done pod (slots, invalid) k e (len, fits, rest) = elim (Bool-cases (ltb k n)) [
  | inl low ↦
      rw (e, low)
        (
          length-set slots k (some pod) ∙ len,
          InPlace-set slots k pod (rw len (ltb→lt k n low)) e fits,
          rest ∙ sym (keep-below n done pod (rw (e, low))),
        )
  | inr high ↦
      rw (e, high)
        (len, fits, ap (λ l. l ++ pod ∷ []) rest ∙ sym (keep-past n done pod (rw (e, high))))
]

place_from-Placed :
    (n : ℕ) (done pods : List Pod) (acc : Slots × List Pod)
    → All NonNegative pods
    → Placed n done acc
    → Returns (Placed n (done ++ pods)) (place_from n pods acc)
unfolding place_from
place_from-Placed n done [] acc h placed = rw append-nil placed
place_from-Placed n done (pod ∷ pods) acc h placed =
    Returns-bind (Placed n (done ++ pod ∷ [])) _ (place_at n pod acc (ordinal pod))
      (place_from n pods) (place_at-Placed n done pod acc h.0.0 h.0.1 placed)
      (λ next ok.
        rw (append_assoc done (pod ∷ []) pods) at
          (place_from-Placed n (done ++ pod ∷ []) pods next h.1 ok))

-- The loop that sorts the pods into the slots does not fail for pods with ordinals from 0 up: it gives
-- `n` slots, each empty or with a pod of its ordinal, and as invalid pods exactly those with an
-- ordinal from `n` up, in their order.
pub place_pods_lem :
    (n : ℕ) (pods : List Pod) → All NonNegative pods → Returns (Placed n pods) (place_pods n pods)
unfolding place_pods
place_pods_lem n pods h =
    place_from-Placed n [] pods (replicate n none, []) h
      (length-replicate n none, InPlace-replicate n, refl)
