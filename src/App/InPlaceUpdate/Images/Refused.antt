-- ===== src/App/InPlaceUpdate/Images/Refused.antt =====
-- What the search for new images gives: the loop over the patch for a known revision, an error for a
-- patch that does more than replace images, and no panic for a patch with texts.
use unicore.Prelude.{
  ◌≡◌, ◌≢◌, refl, ◌∙◌, ap, sym, subst, ◌⊎◌, inl, inr, Bool, true, false, not, ◌||◌, Str, codes,
  str_eq, Map, insert, List, [], ◌∷◌, Option, none, some, arith, All, Bool-cases, get_elem?,
}
use unicore.Api.{Pod, PodTemplate, Container, Revision}
use unicore.Strings.{split, atoi}
use unicore.App.Readiness.{get_pod_revision}
use unicore.App.Platform.{Failure, other_failure, Result, ok, err, Result-cases}
use unicore.App.Versions.{Outcome, value, panic, ◌>>=◌, deref, Returns}
use unicore.App.Versions.Partition.{Returns-bind, Returns-mono}
use unicore.App.InPlaceUpdate.Images.{
  Json, PatchOp, without_first, template_prefix, is_image_path, is_image_path_parts, or_max_int,
  index_of, target_at, target_of, take_image, new_images, find_old, template_read,
  get_template_from_revision, with_template, with_patch, with_old, images_to_update,
}

module _ (js : Json) (pod : Pod) (update old : Revision) (revisions : List Revision)
    (ops : List PatchOp) (template : PodTemplate)
    (known : find_old (get_pod_revision pod) revisions ≡ some old)
    (patch : js.create_patch old.raw update.raw ≡ ok ops)
    (read : js.read_template old.raw ≡ ok (some template)) where
  pub images_to_update-new_images :
      images_to_update js pod update revisions ≡ new_images template.containers ops []
  unfolding images_to_update get_template_from_revision
  images_to_update-new_images =
      ap (with_old js update) known
      ∙ ap (with_patch js old) patch
      ∙ ap (λ r. template_read r >>= with_template ops) read

-- An operation that replaces the image of a container has a text.
abbrev pub HasText : PatchOp → Type 0
HasText op =
    str_eq op.operation (codes "replace") ≡ true
    → is_image_path (without_first template_prefix op.path) ≡ true
    → (image : Str) × (op.text ≡ some image)

-- What the JSON packages give for the data that satisfy Held: texts where a patch between two of
-- them replaces an image, and templates that are not null. The data that the controller itself
-- writes into a revision are the JSON of a pod template, in which an image is a string.
pub record IsTyped (js : Json) (Held : Str → Type 0) : Type 0 where
  pub texts :
      (old_raw new_raw : Str) (ops : List PatchOp)
      → Held old_raw
      → Held new_raw
      → js.create_patch old_raw new_raw ≡ ok ops
      → All HasText ops
  pub templates : (raw : Str) → Held raw → js.read_template raw ≢ ok none

-- The operation is not a replacement, or its path not that of an image.
abbrev pub IsRefused : PatchOp → Type 0
IsRefused op =
    (str_eq op.operation (codes "replace") ≡ false)
    ⊎ (is_image_path (without_first template_prefix op.path) ≡ false)

-- Some operation is refused.
abbrev pub SomeRefused : List PatchOp → Type 0
SomeRefused [] = ⊥
SomeRefused (op ∷ ops) = IsRefused op ⊎ SomeRefused ops

abbrev HasIndex : List Str → Type 0
HasIndex parts = (part : Str) × (get_elem? parts 3 ≡ some part)

parts-HasIndex : (parts : List Str) → is_image_path_parts parts ≡ true → HasIndex parts
parts-HasIndex [] h = cc
parts-HasIndex (a ∷ []) h = cc
parts-HasIndex (a ∷ b ∷ []) h = cc
parts-HasIndex (a ∷ b ∷ c ∷ []) h = cc
parts-HasIndex (a ∷ b ∷ c ∷ d ∷ []) h = cc
parts-HasIndex (a ∷ b ∷ c ∷ d ∷ e ∷ []) h = (d, refl)
parts-HasIndex (a ∷ b ∷ c ∷ d ∷ e ∷ f ∷ parts) h = cc

index_of-Returns :
    (path : Str) → is_image_path path ≡ true → Returns (λ k. Unit {0}) (index_of path)
unfolding is_image_path index_of
index_of-Returns path h =
    let (part, e) = parts-HasIndex (split b'/' path) h in
    subst (λ o. Returns (λ k. Unit {0}) (deref o >>= λ part. value (or_max_int (atoi part))))
      (sym e) tt

-- A target is found only for an image path.
abbrev Aimed : (operation path : Str) → Option Container → Type 0
Aimed operation path none = Unit {0}
Aimed operation path (some c) =
    (str_eq operation (codes "replace") ≡ true) × (is_image_path path ≡ true)

accepted : (a b : Bool) → (not a || not b) ≡ false → (a ≡ true) × (b ≡ true)
accepted a b h = ground arith

found-Aimed :
    (operation path : Str) (o : Option Container)
    → str_eq operation (codes "replace") ≡ true
    → is_image_path path ≡ true
    → Aimed operation path o
found-Aimed operation path none replaces matches = tt
found-Aimed operation path (some c) replaces matches = (replaces, matches)

target_at-Returns :
    (containers : List Container) (operation path : Str)
    → Returns (Aimed operation path) (target_at containers operation path)
unfolding target_at
target_at-Returns containers operation path =
    elim (Bool-cases (not (str_eq operation (codes "replace")) || not (is_image_path path))) [
      | inl h ↦ rw h tt
      | inr h ↦
          let (replaces, matches) : (str_eq operation (codes "replace") ≡ true)
              × (is_image_path path ≡ true) =
            accepted (str_eq operation (codes "replace")) (is_image_path path) h in
          rw h (
            Returns-bind (λ k. Unit {0}) (Aimed operation path) (index_of path) _
              (index_of-Returns path matches)
              (λ k _. found-Aimed operation path (get_elem? containers k) replaces matches))
    ]

-- What an expression that does not panic gives.
pub Returns-value :
    {A : Type 0} {P : A → Type 0} (m : Outcome A) → Returns P m → (a : A) × (m ≡ value a) × P a
Returns-value (value a) h = (a, refl, h)
Returns-value panic h = absurd h

-- The loop ends, and by an error where an operation is refused.
abbrev Verdict : List PatchOp → Result (Map Str) → Type 0
Verdict ops r = SomeRefused ops → (f : Failure) × (r ≡ err f)

take_image-Verdict :
    (op : PatchOp) (ops : List PatchOp) (images : Map Str)
    (later : Map Str → Outcome (Result (Map Str))) (o : Option Container)
    → HasText op
    → ((m : Map Str) → Returns (Verdict ops) (later m))
    → Aimed op.operation (without_first template_prefix op.path) o
    → Returns (Verdict (op ∷ ops)) (take_image op images later o)
unfolding take_image
take_image-Verdict op ops images later none text rest aimed = λ refused. (other_failure, refl)
take_image-Verdict op ops images later (some c) text rest (replaces, matches) =
    let (image, e) = text replaces matches in
    rw e (
      Returns-mono (Verdict ops) (Verdict (op ∷ ops)) (later (insert c.name image images))
        (rest (insert c.name image images))
        (λ r verdict refused. elim refused [
          | inl here ↦ elim here [ inl bad ↦ cc | inr bad ↦ cc ]
          | inr later_one ↦ verdict later_one
        ]))

pub new_images-Verdict :
    (containers : List Container) (ops : List PatchOp) (images : Map Str)
    → All HasText ops
    → Returns (Verdict ops) (new_images containers ops images)
unfolding new_images target_of
new_images-Verdict containers [] images h = λ refused. absurd refused
new_images-Verdict containers (op ∷ ops) images (text, h) =
    Returns-bind (Aimed op.operation (without_first template_prefix op.path)) (Verdict (op ∷ ops))
      (target_at containers op.operation (without_first template_prefix op.path)) _
      (target_at-Returns containers op.operation (without_first template_prefix op.path))
      (λ o aimed.
        take_image-Verdict op ops images (λ m. new_images containers ops m) o text
          (λ m. new_images-Verdict containers ops m h) aimed)

with_template-Verdict :
    (ops : List PatchOp) (t : Result PodTemplate)
    → All HasText ops
    → Returns (Verdict ops) (with_template ops t)
unfolding with_template
with_template-Verdict ops (err f) h = λ refused. (f, refl)
with_template-Verdict ops (ok template) h = new_images-Verdict template.containers ops [] h

template_read-Returns :
    (r : Result (Option PodTemplate)) → r ≢ ok none → Returns (λ t. Unit {0}) (template_read r)
unfolding template_read
template_read-Returns (err f) h = tt
template_read-Returns (ok (some t)) h = tt
template_read-Returns (ok none) h = absurd (h refl)

abbrev IfFound : (Revision → Type 0) → Option Revision → Type 0
IfFound P none = Unit {0}
IfFound P (some r) = P r

find_old-All :
    (P : Revision → Type 0) (name : Str) (rs : List Revision) (old : Revision)
    → All P rs
    → find_old name rs ≡ some old
    → P old
unfolding find_old
find_old-All P name [] old h e = cc
find_old-All P name (r ∷ rs) old (first, h) e = elim (Bool-cases (str_eq r.name name)) [
  | inl same ↦ let found : some r ≡ some old = rw same at e in subst (IfFound P) found first
  | inr other ↦ find_old-All P name rs old h (rw other at e)
]

module _ (js : Json) where
  with_patch-Verdict :
      (old : Revision) (ops : List PatchOp)
      → js.read_template old.raw ≢ ok none
      → All HasText ops
      → Returns (Verdict ops) (with_patch js old (ok ops))
  unfolding with_patch get_template_from_revision
  with_patch-Verdict old ops read texts =
      Returns-bind (λ t. Unit {0}) (Verdict ops) (template_read (js.read_template old.raw))
        (with_template ops) (template_read-Returns (js.read_template old.raw) read)
        (λ t _. with_template-Verdict ops t texts)

  with_old-Returns :
      (Held : Str → Type 0) (update : Revision) (o : Option Revision)
      → IsTyped js Held
      → Held update.raw
      → ((old : Revision) → o ≡ some old → Held old.raw)
      → Returns (λ r. Unit {0}) (with_old js update o)
  unfolding with_old with_patch
  with_old-Returns Held update none typed new held = tt
  with_old-Returns Held update (some old) typed new held =
      let h = held old refl in
      elim (Result-cases (js.create_patch old.raw update.raw)) [
        | inl (ops, e) ↦ rw e (
            Returns-mono (Verdict ops) (λ r. Unit {0}) (with_patch js old (ok ops))
              (with_patch-Verdict old ops (typed.templates old.raw h)
                (typed.texts old.raw update.raw ops h new e))
              (λ r done. tt))
        | inr (f, e) ↦ rw e tt
      ]

  pub images_to_update-Returns :
      (Held : Str → Type 0) (pod : Pod) (update : Revision) (revisions : List Revision)
      → IsTyped js Held
      → Held update.raw
      → All (λ (r : Revision). Held r.raw) revisions
      → Returns (λ r. Unit {0}) (images_to_update js pod update revisions)
  unfolding images_to_update
  images_to_update-Returns Held pod update revisions typed new held =
      with_old-Returns Held update (find_old (get_pod_revision pod) revisions) typed new (λ old e.
        find_old-All (λ (r : Revision). Held r.raw) (get_pod_revision pod) revisions old held e)

  -- A patch with an operation that is refused ends in an error.
  pub images_to_update-refused :
      (pod : Pod) (update old : Revision) (revisions : List Revision) (ops : List PatchOp)
      → find_old (get_pod_revision pod) revisions ≡ some old
      → js.create_patch old.raw update.raw ≡ ok ops
      → js.read_template old.raw ≢ ok none
      → All HasText ops
      → SomeRefused ops
      → (f : Failure) × (images_to_update js pod update revisions ≡ value (err f))
  unfolding images_to_update
  images_to_update-refused pod update old revisions ops known patch read texts refused =
      let e : images_to_update js pod update revisions ≡ with_patch js old (ok ops) =
        ap (with_old js update) known ∙ ap (with_patch js old) patch in
      let (r, is, verdict) =
        Returns-value (with_patch js old (ok ops)) (with_patch-Verdict old ops read texts) in
      let (f, failed) = verdict refused in (f, e ∙ is ∙ ap value failed)
