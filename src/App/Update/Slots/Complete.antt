-- ===== src/App/Update/Slots/Complete.antt =====
-- After the empty slots are filled there is one pod for each ordinal below the replica count.
use unicore.Prelude.{
  ℕ, zero, suc, ◌+◌, ◌^◌, ◌<◌, pos, ◌≡◌, refl, sym, ◌∙◌, ap, inl, inr, Str, List, [], ◌∷◌, Option,
  none, some, arith, Bool-cases, ◌==◌, ==_iff, map, subst, length, length-map, get_elem?-map,
  length-set, set, get_elem?, get_elem?-set,
}
use unicore.Api.{App, Pod}
use unicore.App.Platform.{Platform}
use unicore.App.Versions.{Outcome, Returns, new_versioned_pod_for_app}
use unicore.App.Versions.Partition.{
  Returns-bind, Returns-mono, Partitioned, new_versioned_pod_for_app-Returns,
}
use unicore.App.Update.Slots.{Slots, ordinal, fill_from, fill_slots, filled_slots}
use unicore.App.Update.Slots.Fill.{InPlace, InPlace-set}

-- The slots below i hold pods.
abbrev FullBelow : ℕ → Slots → Type 0
FullBelow i slots = (j : ℕ) → j < i → (pod : Pod) × (get_elem? slots j ≡ some (some pod))

-- `after` has the pods of `before`, in their slots.
abbrev pub Keeps : Slots → Slots → Type 0
Keeps before after =
    (j : ℕ) (pod : Pod) → get_elem? before j ≡ some (some pod) → get_elem? after j ≡ some (some pod)

abbrev Progress : ℕ → ℕ → Slots → Slots → Type 0
Progress n i start slots =
    (length slots ≡ n) × InPlace slots × FullBelow i slots × Keeps start slots

get_elem?-below {ℓ} :
    {A : Type ℓ} (xs : List A) (i : ℕ) → i < length xs → (a : A) × (get_elem? xs i ≡ some a)
get_elem?-below [] i h = elim h [ ]
get_elem?-below (x ∷ xs) zero h = (x, refl)
get_elem?-below (x ∷ xs) (suc i) h = get_elem?-below xs i (omega arith)

FullBelow-extend :
    (i : ℕ) (slots : Slots) (pod : Pod)
    → get_elem? slots i ≡ some (some pod)
    → FullBelow i slots
    → FullBelow (suc i) slots
FullBelow-extend i slots pod e h j small = elim (Bool-cases (i == j)) [
  | inl same ↦ (pod, ap (get_elem? slots) (sym ((==_iff i j).0 same)) ∙ e)
  | inr other ↦ h j (ground arith)
]

-- Writing a new pod into an empty slot i.
Progress-set :
    (n i : ℕ) (start slots : Slots) (pod : Pod)
    → i < n
    → get_elem? slots i ≡ some none
    → ordinal pod ≡ pos i
    → Progress n i start slots
    → Progress n (suc i) start (set slots i (some pod))
Progress-set n i start slots pod small empty e (len, fits, full, keeps) =
    let at = λ (j : ℕ). get_elem?-set slots i j (some pod) (rw len small) in
    (
      length-set slots i (some pod) ∙ len,
      InPlace-set slots i pod (rw len small) e fits,
      FullBelow-extend i (set slots i (some pod)) pod (ground (arith, at i))
          (λ j below. let (q, found) = full j below in (q, ground (arith, at j))),
      λ j q found. ground (arith, at j, keeps j q found),
    )

module _ (p : Platform) (current_app update_app : App) (current update : Str) where
  abbrev fill : ℕ → ℕ → Slots → Outcome Slots
  fill = fill_from p current_app update_app current update

  fill_step :
      (n rounds i : ℕ) (start slots : Slots) (found : Option Pod)
      → get_elem? slots i ≡ some found
      → i < n
      → n < 2 ^ 63
      → Partitioned current_app.spec.update_strategy.rolling
      → Progress n i start slots
      → ((next : Slots)
          → Progress n (suc i) start next
          → Returns (Progress n n start) (fill rounds (suc i) next))
      → Returns (Progress n n start) (fill (suc rounds) i slots)
  unfolding fill_from
  fill_step n rounds i start slots none e low small part h later =
      rw (e, fill_from)
        (Returns-bind (λ pod. ordinal pod ≡ pos i) _
          (new_versioned_pod_for_app p current_app update_app current update i slots) _
          (new_versioned_pod_for_app-Returns p current_app update_app current update i slots
            (omega arith) part)
          (λ pod at. later (set slots i (some pod)) (Progress-set n i start slots pod low e at h)))
  fill_step n rounds i start slots (some pod) e low small part (len, fits, full, keeps) later =
      rw (e, fill_from) (later slots (len, fits, FullBelow-extend i slots pod e full, keeps))

  fill_from-Progress :
      (n rounds i : ℕ) (start slots : Slots)
      → i + rounds ≡ n
      → n < 2 ^ 63
      → Partitioned current_app.spec.update_strategy.rolling
      → Progress n i start slots
      → Returns (Progress n n start) (fill rounds i slots)
  fill_from-Progress n zero i start slots e small part h =
      unfold fill_from in subst (λ k. Progress n k start slots) (omega arith) h
  fill_from-Progress n (suc rounds) i start slots e small part h =
      let (found, at) = get_elem?-below slots i (rw (h.0) (omega arith)) in
      fill_step n rounds i start slots found at (omega arith) small part h
        (λ next ok. fill_from-Progress n rounds (suc i) start next (omega arith) small part ok)

  -- The pods of full slots, one for each.
  filled_slots-full :
      (slots : Slots) → FullBelow (length slots) slots → map some (filled_slots slots) ≡ slots
  filled_slots-full [] full = refl
  filled_slots-full (none ∷ slots) full = let (pod, e) = full 0 (omega arith) in cc
  filled_slots-full (some pod ∷ slots) full =
      rw (filled_slots-full slots (λ j h. full (suc j) (omega arith)))

  get_elem?-unmap :
      (pods : List Pod) (j : ℕ) (pod : Pod)
      → get_elem? (map some pods) j ≡ some (some pod)
      → get_elem? pods j ≡ some pod
  get_elem?-unmap [] j pod h = cc
  get_elem?-unmap (q ∷ pods) zero pod h = cc
  get_elem?-unmap (q ∷ pods) (suc j) pod h = get_elem?-unmap pods j pod h

  -- The replicas: one pod for each ordinal below n, in order.
  abbrev pub Replicas : ℕ → Slots → List Pod → Type 0
  Replicas n start pods =
      (length pods ≡ n)
      × ((j : ℕ) (pod : Pod) → get_elem? pods j ≡ some pod → ordinal pod ≡ pos j)
      × ((j : ℕ) (pod : Pod) → get_elem? start j ≡ some (some pod) → get_elem? pods j ≡ some pod)

  filled_slots-Replicas :
      (n : ℕ) (start slots : Slots)
      → Progress n n start slots
      → Replicas n start (filled_slots slots)
  filled_slots-Replicas n start slots (len, fits, full, keeps) =
      let pods = filled_slots slots in
      let all = filled_slots-full slots (subst (λ k. FullBelow k slots) (sym len) full) in
      (
        sym (length-map some pods) ∙ ap length all ∙ len,
        λ j pod found. fits j pod (
            subst (λ s. get_elem? s j ≡ some (some pod)) all (get_elem?-map some pods j pod found)),
        λ j pod found.
            get_elem?-unmap pods j pod
              (subst (λ s. get_elem? s j ≡ some (some pod)) (sym all) (keeps j pod found)),
      )

  -- For n in the range of an int and a current app whose rolling update, if it has one, gives a
  -- partition, filling n slots whose pods stand in the slots of their ordinals does not panic, and
  -- gives one pod for each ordinal below n, in order: the pod that was in the slot, or a new one.
  pub fill_slots_lem :
      (n : ℕ) (slots : Slots)
      → n < 2 ^ 63
      → Partitioned current_app.spec.update_strategy.rolling
      → length slots ≡ n
      → InPlace slots
      → Returns
          (λ slots'. Replicas n slots (filled_slots slots'))
          (fill_slots p current_app update_app current update n slots)
  unfolding fill_slots
  fill_slots_lem n slots small part len fits =
      Returns-mono (Progress n n slots) _ _
        (fill_from-Progress n n 0 slots slots (omega arith) small part
          (len, fits, (λ j h. elim h [ ]), λ j pod found. found))
        (λ slots' ok. filled_slots-Replicas n slots slots' ok)
