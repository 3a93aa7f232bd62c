-- ===== src/App/InPlaceUpdate/Start/Phases.antt =====
-- The phases of an in-place update: mark the pod not ready, note the start of the grace period, wait,
-- change the images.
use unicore.Prelude.{
  ℕ, zero, suc, ◌+◌, ◌*◌, ◌<◌, ℤ, pos, negsuc, pos_part, ltb_ℤ, ◌≡◌, refl, ◌∙◌, sym, subst, ◌⊎◌,
  inl, inr, if◌then◌else◌, true, false, not, ◌&&◌, Str, is_empty, is_some, Map, Option, none, some,
  arith, Bool-cases,
}
use unicore.Api.{App, Pod, Revision}
use unicore.App.Readiness.{
  in_place_update_ready, second, contains_readiness_gate, if_condition_false,
}
use unicore.App.Platform.{Platform, World, Failure, RetriesAsDocumented}
use unicore.App.Versions.{value, Returns}
use unicore.App.Versions.Partition.{Returns-mono}
use unicore.App.InPlaceUpdate.Images.{Json}
use unicore.App.InPlaceUpdate.Start.{
  grace_of, status_text, seconds_left, to_even, note_start, change_images, wait_or_change,
  wait_for_grace, with_images,
}
use unicore.App.InPlaceUpdate.Start.Writes.{
  Marks, Notes, Changes, Made, StatusesListed, mark_not_ready-Marks, note_start-Notes,
  change_images-Makes,
}
use unicore.App.InPlaceUpdate.Start.Seconds.{
  Left, seconds_left-Left, seconds_left-over, Rounded, to_even-Rounded,
}

-- The pod has the readiness gate and has not been made not ready.
abbrev pub Unmarked : Pod → Type 0
Unmarked pod =
    (contains_readiness_gate pod ≡ true) × (if_condition_false pod in_place_update_ready ≡ false)

abbrev pub Marked : Pod → Type 0
Marked pod =
    (contains_readiness_gate pod ≡ false) ⊎ (if_condition_false pod in_place_update_ready ≡ true)

unmarked_lem :
    (pod : Pod)
    → (contains_readiness_gate pod && not (if_condition_false pod in_place_update_ready)) ≡ true
    → Unmarked pod
unmarked_lem pod h = ground arith

marked_lem :
    (pod : Pod)
    → (contains_readiness_gate pod && not (if_condition_false pod in_place_update_ready)) ≡ false
    → Marked pod
marked_lem pod h = elim (Bool-cases (contains_readiness_gate pod)) [
  | inl e ↦ inr (ground arith)
  | inr e ↦ inl e
]

module _ (p : Platform) (js : Json) (app : App) (update : Revision) (images : Map Str) (pod : Pod)
    (w : World) where
  -- The time that the annotation notes.
  abbrev noted_time : Option ℕ
  noted_time = (js.left_in_status (status_text pod)).update_time

  abbrev Answer : Type 0
  Answer = (Option Failure × ℤ) × World

  -- All calls write the new images, the last one without an error if none is returned, and there is
  -- nothing to wait for.
  abbrev Changing : Answer → Type 0
  Changing a = (a.0.1 ≡ pos 0) × Made p (Changes p js app update images pod) w a.0.0 a.1

  -- With a grace period of g seconds.
  abbrev Graced : ℕ → Answer → Type 0
  Graced g a =
      (is_empty (status_text pod) ≡ true)
        × Made p (Notes p js update pod) w a.0.0 a.1
        × (a.0.0 ≡ none → Rounded g a.0.1)
      ⊎ (is_empty (status_text pod) ≡ false)
        × (((t : ℕ) × (n : ℕ) × (noted_time ≡ some t)
              × (0 < n)
              × Left p.now g t n
              × (a.0.0 ≡ none)
              × Rounded n a.0.1
              × (a.1 ≡ w))
            ⊎ ((t : ℕ) → noted_time ≡ some t → t + g * second < p.now + second) × Changing a)

  -- What one call does, by the phase that the pod is in.
  abbrev pub Phase : ℕ → Answer → Type 0
  Phase g a =
      Unmarked pod × (a.0.1 ≡ pos 0) × Made p (Marks p pod) w a.0.0 a.1
      ⊎ Marked pod × ((g ≡ 0) × Changing a ⊎ (0 < g) × Graced g a)

  module _ (documented : RetriesAsDocumented p) (listed : StatusesListed p) where
    changes : Returns Changing (change_images p js app update images pod w)
    changes = change_images-Makes p js app update images pod documented listed w

    after_note-Graced :
        (g : ℕ) (e : Option Failure) (w' : World)
        → 0 < g
        → is_empty (status_text pod) ≡ true
        → Made p (Notes p js update pod) w e w'
        → Returns (Graced g) (
            if is_some e
            then value ((e, pos 0), w')
            else wait_or_change p js app update images pod (pos g) w')
    unfolding wait_or_change
    after_note-Graced g (some f) w' positive empty h = inl (empty, h, λ none_left. cc)
    after_note-Graced g none w' positive empty (h, ended) =
        let test : ltb_ℤ (pos 0) (pos g) ≡ true = ground arith in
        rw test (inl (empty, (h, ended), λ fine. to_even-Rounded g))

    changing-Graced :
        (g : ℕ)
        → is_empty (status_text pod) ≡ false
        → ((t : ℕ) → noted_time ≡ some t → t + g * second < p.now + second)
        → Returns (Graced g) (change_images p js app update images pod w)
    changing-Graced g written over =
        Returns-mono Changing (Graced g) (change_images p js app update images pod w) changes
          (λ a h. inr (written, inr (over, h)))

    resumed_at-Graced :
        (g t : ℕ) (x : ℤ)
        → is_empty (status_text pod) ≡ false
        → noted_time ≡ some t
        → seconds_left p.now (pos g) (some t) ≡ x
        → Returns (Graced g) (wait_or_change p js app update images pod x w)
    unfolding wait_or_change
    resumed_at-Graced g t x written e f = elim (Bool-cases (ltb_ℤ (pos 0) x)) [
      | inl more ↦
          let (n, positive, is, left) = seconds_left-Left p.now g t (rw f more) in
          rw more (
            inr (
              written,
              inl (
                t,
                n,
                e,
                positive,
                left,
                refl,
                subst (λ y. Rounded n (to_even y)) (sym is ∙ f) (to_even-Rounded n),
                refl,
              ),
            ))
      | inr over ↦ rw over (
          changing-Graced g written (λ u at.
            let same : some t ≡ some u = sym e ∙ at in
            let bound = seconds_left-over p.now g t (rw f over) in ground arith))
    ]

    resumed-Graced :
        (g : ℕ) (o : Option ℕ)
        → is_empty (status_text pod) ≡ false
        → noted_time ≡ o
        → Returns
            (Graced g)
            (wait_or_change p js app update images pod (seconds_left p.now (pos g) o) w)
    unfolding wait_or_change seconds_left
    resumed-Graced g none written e = changing-Graced g written (λ t f. let bad = sym e ∙ f in cc)
    resumed-Graced g (some t) written e =
        resumed_at-Graced g t (seconds_left p.now (pos g) (some t)) written e refl

    wait_for_grace-Graced :
        (g : ℕ)
        → 0 < g
        → grace_of app ≡ pos g
        → Returns (Graced g) (wait_for_grace p js app update images pod w)
    unfolding wait_for_grace
    wait_for_grace-Graced g positive e = elim (Bool-cases (is_empty (status_text pod))) [
      | inl empty ↦
          rw (e, empty)
            (after_note-Graced g (note_start p js update pod w).0 (note_start p js update pod w).1
              positive empty (note_start-Notes p js app update images pod documented w))
      | inr written ↦ rw (e, written) (resumed-Graced g noted_time written refl)
    ]

    abbrev AfterMark : ℕ → Answer → Type 0
    AfterMark g a = (g ≡ 0) × Changing a ⊎ (0 < g) × Graced g a

    changing_now :
        {g : ℕ} → g ≡ 0 → Returns (AfterMark g) (change_images p js app update images pod w)
    changing_now {g} e =
        Returns-mono Changing (AfterMark g) (change_images p js app update images pod w) changes
          (λ a h. inl (e, h))

    after_mark :
        (grace : ℤ)
        → grace_of app ≡ grace
        → Returns (AfterMark (pos_part grace)) (
            if ltb_ℤ (pos 0) (grace_of app)
            then wait_for_grace p js app update images pod w
            else change_images p js app update images pod w)
    after_mark (negsuc g) e =
        let test : ltb_ℤ (pos 0) (grace_of app) ≡ false = rw e (ground arith) in
        rw test (changing_now refl)
    after_mark (pos zero) e = rw e (changing_now refl)
    after_mark (pos (suc g)) e =
        let test : ltb_ℤ (pos 0) (grace_of app) ≡ true = rw e (ground arith) in
        rw test (
          Returns-mono (Graced (suc g)) (AfterMark (suc g))
            (wait_for_grace p js app update images pod w)
            (wait_for_grace-Graced (suc g) (omega arith) e) (λ a h. inr (omega arith, h)))

    pub with_images-Phase :
        Returns (Phase (pos_part (grace_of app))) (with_images p js app update images pod w)
    unfolding with_images
    with_images-Phase =
        elim (Bool-cases
          (contains_readiness_gate pod && not (if_condition_false pod in_place_update_ready))) [
            | inl h ↦ rw h (
                inl (
                  unmarked_lem pod h,
                  refl,
                  mark_not_ready-Marks p js app update images pod documented w,
                ))
            | inr h ↦ rw h (
                Returns-mono (AfterMark (pos_part (grace_of app))) (Phase (pos_part (grace_of app)))
                  _ (after_mark (grace_of app) refl) (λ a next. inr (marked_lem pod h, next)))
          ]
