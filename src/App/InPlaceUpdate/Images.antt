-- ===== src/App/InPlaceUpdate/Images.antt =====
-- inplace_update.go, the first part of InPlaceUpdatePod: the images to change, read off the JSON
-- patch from the pod's revision to the update revision.
pub mod Paths
pub mod Refused
use unicore.Prelude.{
  ◌==◌, ℕ, ltb, leb, if◌then◌else◌, Bool, true, false, not, ◌&&◌, ◌||◌, Str, codes, str_eq, Map,
  insert, List, [], ◌∷◌, ◌++◌, Option, none, some, get_elem?, drop, length, ℤ, pos, pos_part, ◌-◌,
  ◌^◌, ◌≡◌, refl,
}
use unicore.Api.{Pod, PodTemplate, Container, Revision}
use unicore.Strings.{split, atoi}
use unicore.App.Readiness.{get_pod_revision}
use unicore.App.Platform.{Failure, other_failure, Result, ok, err}
use unicore.App.InPlaceUpdate.{InPlaceStatus}
use unicore.App.Versions.{Outcome, value, panic, ◌>>=◌, deref}

-- One operation of a JSON patch; `text` is its value, none for a value that is not a string.
pub record PatchOp : Type 0 where
  pub operation : Str
  pub path : Str
  pub text : Option Str

-- Encoding/json and gomodules.xyz/jsonpatch: CreatePatch; Unmarshal of the patch that a revision
-- holds, with the template in it, none for the JSON value null; and the annotation of an update.
-- `left_in_status` is what Unmarshal leaves in a zero Status, whether it fails or not.
pub record Json : Type 0 where
  pub create_patch : (old_raw new_raw : Str) → Result (List PatchOp)
  pub read_template : Str → Result (Option PodTemplate)
  pub write_status : InPlaceStatus → Str
  pub read_status : Str → Result InPlaceStatus
  pub left_in_status : Str → InPlaceStatus

template_read : Result (Option PodTemplate) → Outcome (Result PodTemplate)
template_read (err f) = value (err f)
template_read (ok t) = deref t >>= λ template. value (ok template)

-- GetTemplateFromRevision; `&patchObj.Spec.Template` panics for a nil pointer.
unfoldable pub get_template_from_revision : Json → Revision → Outcome (Result PodTemplate)
unfolding template_read
get_template_from_revision js r = template_read (js.read_template r.raw)

starts_with : Str → Str → Bool
starts_with [] s = true
starts_with (c ∷ t) [] = false
starts_with (c ∷ t) (d ∷ s) = c == d && starts_with t s

-- strings.Replace(s, old, "", 1)
unfoldable pub without_first : Str → Str → Str
unfolding starts_with
without_first old [] = []
without_first old (c ∷ s) =
    if starts_with old (c ∷ s) then drop (length old) (c ∷ s) else c ∷ without_first old s

abbrev pub template_prefix : Str
template_prefix = codes "/spec/template"

all_digits : Str → Bool
all_digits [] = true
all_digits (c ∷ s) = leb b'0' c && leb c b'9' && all_digits s

abbrev is_number : Str → Bool
is_number [] = false
is_number (c ∷ s) = all_digits (c ∷ s)

-- ^/spec/containers/([0-9]+)/image$ on the parts between slashes
abbrev is_image_path_parts : List Str → Bool
is_image_path_parts (root ∷ spec ∷ containers ∷ index ∷ image ∷ []) =
    str_eq root []
    && str_eq spec (codes "spec")
    && str_eq containers (codes "containers")
    && is_number index
    && str_eq image (codes "image")
is_image_path_parts _ = false

-- containerImagePatchRex.MatchString
unfoldable pub is_image_path : Str → Bool
unfolding all_digits split
is_image_path path = is_image_path_parts (split b'/' path)

-- `index, _ := strconv.Atoi(…)`: an error of a number that is out of range leaves the largest int.
abbrev or_max_int : Option ℤ → ℕ
or_max_int none = 2 ^ 63 - 1
or_max_int (some n) = pos_part n

unfoldable pub index_of : Str → Outcome ℕ
unfolding split atoi
index_of path = do part ← deref (get_elem? (split b'/' path) 3); value (or_max_int (atoi part))

-- The container that a path below the template names, or none where the operation is refused.
unfoldable pub target_at : List Container → (operation path : Str) → Outcome (Option Container)
target_at containers operation path =
    if not (str_eq operation (codes "replace")) || not (is_image_path path)
    then value none
    else do index ← index_of path; value (get_elem? containers index)

unfoldable pub target_of : List Container → PatchOp → Outcome (Option Container)
target_of containers op = target_at containers op.operation (without_first template_prefix op.path)

-- One round of the loop over the patch, with what the later rounds do. A value that is not a string
-- panics.
take_image :
    PatchOp
    → Map Str
    → (Map Str → Outcome (Result (Map Str)))
    → Option Container
    → Outcome (Result (Map Str))
take_image op images later none = value (err other_failure)
take_image op images later (some c) = deref op.text >>= λ image. later (insert c.name image images)

unfoldable pub new_images : List Container → List PatchOp → Map Str → Outcome (Result (Map Str))
unfolding take_image
new_images containers [] images = value (ok images)
new_images containers (op ∷ ops) images =
    target_of containers op >>= take_image op images (λ m. new_images containers ops m)

-- The pod's revision.
unfoldable pub find_old : Str → List Revision → Option Revision
find_old name [] = none
find_old name (r ∷ rs) = if str_eq r.name name then some r else find_old name rs

-- From the loop over the patch on.
with_template : List PatchOp → Result PodTemplate → Outcome (Result (Map Str))
with_template ops (err f) = value (err f)
with_template ops (ok template) = new_images template.containers ops []

with_patch : Json → Revision → Result (List PatchOp) → Outcome (Result (Map Str))
with_patch js old (err f) = value (err f)
with_patch js old (ok ops) = get_template_from_revision js old >>= with_template ops

with_old : Json → Revision → Option Revision → Outcome (Result (Map Str))
with_old js update none = value (err other_failure)
with_old js update (some old) = with_patch js old (js.create_patch old.raw update.raw)

-- From the search of the pod's revision to the new images.
unfoldable pub images_to_update : Json → Pod → Revision → List Revision → Outcome (Result (Map Str))
unfolding with_old with_patch with_template
images_to_update js pod update revisions =
    with_old js update (find_old (get_pod_revision pod) revisions)

image_path_test :
    is_image_path (without_first template_prefix (codes "/spec/template/spec/containers/10/image"))
    ≡ true
unfolding is_image_path without_first str_eq
image_path_test = refl
