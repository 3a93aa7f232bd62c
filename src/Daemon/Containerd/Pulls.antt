-- ===== src/Daemon/Containerd/Pulls.antt =====
-- What CheckAndPull asks containerd for, and which images it reports as failed.
use unicore.Prelude.{
  or_false, ◌≡◌, refl, ◌∙◌, ap, sym, subst, inl, inr, if◌then◌else◌, Bool, true, not, ◌&&◌, ◌||◌,
  Str, str_eq, str_eq_iff, str_eq_refl, Map, lookup, insert, lookup-insert, is_some, contains, List,
  [], ◌∷◌, ◌++◌, map, append-nil, append_assoc, Option, none, some, keep, arith, Bool-cases,
}
use mathlib.Core.Path.{fun_ext}
use unicore.App.Platform.{Failure, Result, ok}
use unicore.Daemon.Containerd.{
  Answers, is_valid_docker_image_name, reference_of, pull_single_image, existing_images,
  filter_missing_images, pull_all, pull_missing, pull_listed, check_and_pull,
}

existing-lookup :
    (k : Str) (names : List Str) (m : Map (Unit {0}))
    → is_some (lookup k (existing_images names m)) ≡ (contains k names || is_some (lookup k m))
unfolding existing_images
existing-lookup k [] m = refl
existing-lookup k (name ∷ names) m =
    ground (arith, existing-lookup k names (insert name tt m), lookup-insert name k tt m)

contains-keep :
    (p : Str → Bool) (k : Str) (l : List Str) → contains k (keep p l) ≡ (contains k l && p k)
contains-keep p k [] = refl
contains-keep p k (j ∷ l) = elim (Bool-cases (str_eq j k)) [
  | inl e ↦
      let same : j ≡ k = (str_eq_iff j k).0 e in
      subst (λ i. contains k (keep p (i ∷ l)) ≡ (contains k (i ∷ l) && p k)) (sym same)
        (ground (arith, contains-keep p k l, str_eq_refl k))
  | inr e ↦ ground (arith, contains-keep p k l)
]

-- The pull of the image ends in an error.
abbrev pub fails : (answer : Str → Option Failure) → Str → Bool
fails answer img = is_some (pull_single_image answer img).0

failed-step :
    (k img : Str) (f : Str → Bool) (failed : Map Bool) (b : Bool)
    → (if b && f k then some true else lookup k (if f img then insert img true failed else failed))
      ≡ (if (str_eq img k || b) && f k then some true else lookup k failed)
failed-step k img f failed b = elim (Bool-cases (str_eq img k)) [
  | inl e ↦
      let same : img ≡ k = (str_eq_iff img k).0 e in
      subst
        (λ i.
          (if b && f k then some true else lookup k (if f i then insert i true failed else failed))
          ≡ (if (str_eq i k || b) && f k then some true else lookup k failed))
        (sym same) (ground (arith, lookup-insert k k true failed, str_eq_refl k))
  | inr e ↦ ground (arith, e, lookup-insert img k true failed)
]

-- The references that the pull of one image asks for.
asked_for : Str → List Str
asked_for img = map reference_of (keep is_valid_docker_image_name (img ∷ []))

pull_single_image-asked :
    (answer : Str → Option Failure) (img : Str) → (pull_single_image answer img).1 ≡ asked_for img
unfolding pull_single_image asked_for
pull_single_image-asked answer img = ground arith

asked_for-cons :
    (img : Str) (l : List Str)
    → asked_for img ++ map reference_of (keep is_valid_docker_image_name l)
      ≡ map reference_of (keep is_valid_docker_image_name (img ∷ l))
unfolding asked_for
asked_for-cons img l = ground arith

module _ (answer : Str → Option Failure) where
  pull_all-failed :
      (k : Str) (l : List Str) (failed : Map Bool) (asked : List Str)
      → lookup k (pull_all answer l (failed, asked)).0
        ≡ (if contains k l && fails answer k then some true else lookup k failed)
  unfolding pull_all
  pull_all-failed k [] failed asked = refl
  pull_all-failed k (img ∷ l) failed asked =
      pull_all-failed k l (if fails answer img then insert img true failed else failed)
        (asked ++ (pull_single_image answer img).1)
      ∙ failed-step k img (fails answer) failed (contains k l)

  pub pull_all-asked :
      (l : List Str) (failed : Map Bool) (asked : List Str)
      → (pull_all answer l (failed, asked)).1
        ≡ asked ++ map reference_of (keep is_valid_docker_image_name l)
  unfolding pull_all pull_single_image
  pull_all-asked [] failed asked = sym (append-nil asked)
  pull_all-asked (img ∷ l) failed asked =
      let refs = (pull_single_image answer img).1 in
      pull_all-asked l (if fails answer img then insert img true failed else failed) (asked ++ refs)
      ∙ append_assoc asked refs (map reference_of (keep is_valid_docker_image_name l))
      ∙ ap (λ r. asked ++ r)
          (ap (λ r. r ++ map reference_of (keep is_valid_docker_image_name l))
              (pull_single_image-asked answer img)
            ∙ asked_for-cons img l)

-- The pulls end in some order: the same images, each of them.
abbrev pub SameImages : Answers → List Str → Type 0
SameImages c l = (k : Str) → contains k (c.finished l) ≡ contains k l

-- The images that are not on the node.
abbrev pub missing : List Str → List Str → List Str
missing images names = keep (λ img. not (contains img names)) images

filter-missing :
    (images names : List Str)
    → filter_missing_images images (existing_images names []) ≡ missing images names
unfolding filter_missing_images lookup
filter-missing images names =
    ap (λ p. keep p images)
      (fun_ext λ img. ap not (existing-lookup img names [] ∙ or_false (contains img names)))

-- The image is reported as failed exactly when it is asked for, missing, and its pull fails.
abbrev pub Reported : Answers → List Str → List Str → Map Bool → Type 0
Reported c images names failed =
    (k : Str)
    → lookup k failed ≡ (
        if (contains k images && not (contains k names)) && fails c.answer k
        then some true
        else none)

abbrev pub Pulled : Answers → List Str → List Str → Result (Map Bool) × List Str → Type 0
Pulled c images names r =
    ((failed : Map Bool) × (r.0 ≡ ok failed) × Reported c images names failed)
    × (r.1 ≡ map reference_of (keep is_valid_docker_image_name (c.finished (missing images names))))

module _ (c : Answers) (images names : List Str) (same : SameImages c (missing images names))
    (none_left : c.finished [] ≡ []) where
  abbrev wanted : Str → Bool
  wanted k = contains k images && not (contains k names)

  finished-wanted : (k : Str) → contains k (c.finished (missing images names)) ≡ wanted k
  finished-wanted k = same k ∙ contains-keep (λ img. not (contains img names)) k images

  pull_missing-Pulled :
      (l : List Str) → l ≡ missing images names → Pulled c images names (pull_missing c l)
  unfolding pull_missing lookup
  pull_missing-Pulled [] e = (
    (
      [],
      refl,
      λ k.
          ap (λ b. if b && fails c.answer k then some true else none)
            (ap (contains k) e ∙ contains-keep (λ img. not (contains img names)) k images),
    ),
    ap (λ l. map reference_of (keep is_valid_docker_image_name l))
        (sym none_left ∙ ap c.finished e),
  )
  pull_missing-Pulled (img ∷ imgs) e =
      subst
        (λ l. Pulled c images names (
          ok (pull_all c.answer (c.finished l) ([], [])).0,
          (pull_all c.answer (c.finished l) ([], [])).1,
        ))
        (sym e)
        (
          (
            (pull_all c.answer (c.finished (missing images names)) ([], [])).0,
            refl,
            λ k.
                pull_all-failed c.answer k (c.finished (missing images names)) [] []
                ∙ ap (λ b. if b && fails c.answer k then some true else none) (finished-wanted k),
          ),
          pull_all-asked c.answer (c.finished (missing images names)) [] [],
        )

-- When containerd lists its images, whatever the order in which the pulls end, CheckAndPull reports
-- as failed exactly the images that it was given, that are not listed under their own name, and whose
-- pull fails. It asks containerd for the reference of each missing image with a valid name, in the
-- order in which the pulls end, and for no other.
pub check_and_pull_lem :
    (c : Answers) (images names : List Str)
    → c.listed ≡ ok names
    → SameImages c (missing images names)
    → c.finished [] ≡ []
    → Pulled c images names (check_and_pull c images)
unfolding check_and_pull pull_listed
check_and_pull_lem c images names listed same none_left =
    subst (λ r. Pulled c images names (pull_listed c images r)) (sym listed)
      (subst (λ l. Pulled c images names (pull_missing c l)) (sym (filter-missing images names))
        (pull_missing-Pulled c images names same none_left (missing images names) refl))
