-- ===== src/Daemon/Loops.antt =====
-- What the loops of daemon.go do to a map, at one key.
use unicore.Prelude.{
  ℕ, ◌+◌, ◌≡◌, refl, ◌∙◌, ap, subst, inl, inr, if◌then◌else◌, Bool, true, false, not, ◌&&◌, ◌||◌,
  Str, str_eq, str_eq_iff, Map, lookup, insert, remove, lookup-insert, lookup-remove, lookup-absent,
  contains, Distinct, List, [], ◌∷◌, Option, none, some, arith, All, Bool-cases,
}
use unicore.Daemon.{
  ImageInfo, Daemon, get_or_false, true_keys, register, note_failed, clear_pulled, is_due, due_keys,
  day, postpone,
}

-- The next pull that a list asks for, if it asks for a pull every day, or the one before.
abbrev pub next_of : Option ImageInfo → Option (Option ℕ) → Option (Option ℕ)
next_of none before = before
next_of (some info) before = if info.always_pull then some info.next_pull else before

absent_at :
    {V : Type 0} (j k : Str) (m : Map V)
    → str_eq j k ≡ true
    → All (λ (e : Str × V). str_eq j e.0 ≡ false) m
    → All (λ (e : Str × V). str_eq k e.0 ≡ false) m
absent_at {V} j k m e a =
    subst (λ i. All (λ (x : Str × V). str_eq i x.0 ≡ false) m) ((str_eq_iff j k).0 e) a

register-absent :
    (k : Str) (images : Map ImageInfo) (always : Map (Option ℕ))
    → All (λ e. str_eq k e.0 ≡ false) images
    → lookup k (register images always) ≡ lookup k always
unfolding register
register-absent k [] always a = refl
register-absent k ((j, info) ∷ images) always (b, a) =
    register-absent k images _ a
    ∙ (ground (arith, str_eq_iff k j, str_eq_iff j k, lookup-insert j k info.next_pull always))

pub lookup-register :
    (k : Str) (images : Map ImageInfo) (always : Map (Option ℕ))
    → Distinct images
    → lookup k (register images always) ≡ next_of (lookup k images) (lookup k always)
unfolding register lookup
lookup-register k [] always d = refl
lookup-register k ((j, info) ∷ images) always (a, d) = elim (Bool-cases (str_eq j k)) [
  | inl e ↦
      register-absent k images (if info.always_pull then insert j info.next_pull always else always)
        (absent_at j k images e a)
      ∙ (ground (arith, e, lookup-insert j k info.next_pull always))
  | inr e ↦
      lookup-register k images (if info.always_pull then insert j info.next_pull always else always)
        d
      ∙ (ground (arith, e, lookup-insert j k info.next_pull always))
]

pub lookup-clear_pulled :
    (failed : Map Bool) (k : Str) (ks : List Str) (retry : Map Bool)
    → lookup k (clear_pulled failed ks retry)
      ≡ (if contains k ks && not (get_or_false (lookup k failed)) then none else lookup k retry)
unfolding clear_pulled
lookup-clear_pulled failed k [] retry = refl
lookup-clear_pulled failed k (j ∷ ks) retry = elim (Bool-cases (str_eq j k)) [
  | inl e ↦
      lookup-clear_pulled failed k ks
        (if not (get_or_false (lookup j failed)) then remove j retry else retry)
      ∙ (ground (
        arith,
        e,
        lookup-remove j k retry,
        ap (λ i. get_or_false (lookup i failed)) ((str_eq_iff j k).0 e),
      ))
  | inr e ↦
      lookup-clear_pulled failed k ks
        (if not (get_or_false (lookup j failed)) then remove j retry else retry)
      ∙ (ground (arith, e, lookup-remove j k retry))
]

pub lookup-note_failed :
    (k : Str) (failed retry : Map Bool)
    → Distinct failed
    → get_or_false (lookup k (note_failed failed retry))
      ≡ (get_or_false (lookup k failed) || get_or_false (lookup k retry))
unfolding note_failed lookup
lookup-note_failed k [] retry d = refl
lookup-note_failed k ((j, v) ∷ failed) retry (a, d) =
    let next = lookup-note_failed k failed (if v then insert j true retry else retry) d in
    elim (Bool-cases (str_eq j k)) [
      | inl e ↦
          next
          ∙ (ground (
            arith,
            e,
            lookup-insert j k true retry,
            lookup-absent k failed (absent_at j k failed e a),
          ))
      | inr e ↦ next ∙ (ground (arith, e, lookup-insert j k true retry))
    ]

pub contains-true_keys :
    (k : Str) (retry : Map Bool)
    → Distinct retry
    → contains k (true_keys retry) ≡ get_or_false (lookup k retry)
unfolding true_keys lookup
contains-true_keys k [] d = refl
contains-true_keys k ((j, v) ∷ retry) (a, d) = elim (Bool-cases (str_eq j k)) [
  | inl e ↦
      ground
        (arith, e, contains-true_keys k retry d, lookup-absent k retry (absent_at j k retry e a))
  | inr e ↦ ground (arith, e, contains-true_keys k retry d)
]

abbrev pub is_due_at : ℕ → Option (Option ℕ) → Bool
is_due_at now none = false
is_due_at now (some t) = is_due now t

pub contains-due_keys :
    (now : ℕ) (k : Str) (always : Map (Option ℕ))
    → Distinct always
    → contains k (due_keys now always) ≡ is_due_at now (lookup k always)
unfolding due_keys lookup
contains-due_keys now k [] d = refl
contains-due_keys now k ((j, t) ∷ always) (a, d) = elim (Bool-cases (str_eq j k)) [
  | inl e ↦ ground (
    arith,
    e,
    contains-due_keys now k always d,
    lookup-absent k always (absent_at j k always e a),
  )
  | inr e ↦ ground (arith, e, contains-due_keys now k always d)
]

-- Both maps after a pull of every day.
module _ (now : ℕ) (failed : Map Bool) (k : Str) where
  abbrev fails_at : Str → Bool
  fails_at j = get_or_false (lookup j failed)

  abbrev after : Str → Daemon → Daemon
  after j d =
      if fails_at j
      then record d { retry_images = insert j true d.retry_images }
      else record d { always_pull_images = insert j (some (now + day)) d.always_pull_images }

  pub lookup-postpone :
      (ks : List Str) (d : Daemon)
      → (lookup k (postpone now failed ks d).retry_images
          ≡ (if contains k ks && fails_at k then some true else lookup k d.retry_images))
        × (lookup k (postpone now failed ks d).always_pull_images ≡ (
            if contains k ks && not (fails_at k)
            then some (some (now + day))
            else lookup k d.always_pull_images))
  unfolding postpone
  lookup-postpone [] d = (refl, refl)
  lookup-postpone (j ∷ ks) d =
      let (retry, always) = lookup-postpone ks (after j d) in
      let one = lookup-insert j k true d.retry_images in
      let other = lookup-insert j k (some (now + day)) d.always_pull_images in
      elim (Bool-cases (str_eq j k)) [
        | inl e ↦
            let same : fails_at j ≡ fails_at k = ap fails_at ((str_eq_iff j k).0 e) in
            (retry ∙ (ground (arith, e, one, same)), always ∙ (ground (arith, e, other, same)))
        | inr e ↦ (retry ∙ (ground (arith, e, one)), always ∙ (ground (arith, e, other)))
      ]
