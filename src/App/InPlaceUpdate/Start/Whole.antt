-- ===== src/App/InPlaceUpdate/Start/Whole.antt =====
-- InPlaceUpdatePod from the patch to the calls: what it does with a patch of images, what it refuses,
-- and that it keeps to the interface of the rolling update.
use unicore.Prelude.{
  ℕ, ◌^◌, ◌<◌, ℤ, pos, pos_part, ◌≡◌, ◌≢◌, none, refl, ◌∙◌, ap, sym, subst, inl, inr, Str, Map,
  lookup, List, [], map, Option, some, All, length,
}
use unicore.Api.{App, Pod, PodTemplate, Revision}
use unicore.App.Readiness.{get_pod_revision}
use unicore.App.Platform.{Platform, World, Call, Failure, Result, ok, err, RetriesAsDocumented}
use unicore.App.Platform.Traces.{Extends, Extends-refl, Extends-mono}
use unicore.App.Platform.Changes.{IsQuiet}
use unicore.App.Versions.{value, panic, ◌>>=◌, Returns}
use unicore.App.Versions.Partition.{Returns-bind, Returns-mono}
use unicore.App.InPlaceUpdate.Finishing.{Finishes, clean_up_in_place_update_lem}
use unicore.App.InPlaceUpdate.Images.{Json, PatchOp, find_old, new_images, images_to_update}
use unicore.App.InPlaceUpdate.Images.Paths.{image_op, last_image, or_else-empty, new_images-Images}
use unicore.App.InPlaceUpdate.Images.Refused.{
  HasText, IsTyped, SomeRefused, Returns-value, images_to_update-new_images,
  images_to_update-Returns, images_to_update-refused,
}
use unicore.App.InPlaceUpdate.Start.{
  grace_of, with_images, start_with, in_place_update_pod, in_place_operations,
}
use unicore.App.InPlaceUpdate.Start.Writes.{Marks, Notes, Changes, StatusesListed}
use unicore.App.InPlaceUpdate.Start.Phases.{Marked, Phase, with_images-Phase}
use unicore.App.InPlaceUpdate.Start.Panics.{SomeMissing, with_images-panics}
use mathlib.Core.Path.{fun_ext}
use unicore.App.Update.Rolling.OneTarget.{QuietInPlace}

-- The search for new images, for a patch that replaces images.
images_found :
    (js : Json) (pod : Pod) (update old : Revision) (revisions : List Revision)
    (template : PodTemplate) (changes : List (ℕ × Str))
    → find_old (get_pod_revision pod) revisions ≡ some old
    → js.create_patch old.raw update.raw ≡ ok (map (λ (c : ℕ × Str). image_op c.0 c.1) changes)
    → js.read_template old.raw ≡ ok (some template)
    → length template.containers < 2 ^ 63
    → All (λ (c : ℕ × Str). c.0 < length template.containers) changes
    → (images : Map Str) × ((name : Str)
        → lookup name images ≡ last_image template.containers changes name)
      × (images_to_update js pod update revisions ≡ value (ok images))
images_found js pod update old revisions template changes known patch read small below =
    let ops = map (λ (c : ℕ × Str). image_op c.0 c.1) changes in
    let (r, is, (images, ok_r, last)) =
      Returns-value (new_images template.containers ops [])
        (new_images-Images template.containers changes [] small below) in
    (
      images,
      λ name. last name ∙ or_else-empty name (last_image template.containers changes name),
      images_to_update-new_images js pod update old revisions ops template known patch read
          ∙ is
          ∙ ap value ok_r,
    )

-- With a pod of a known revision, a patch to the update revision that replaces images of containers
-- of the old template, retries as documented, and a lister whose pods have a status for each
-- container, InPlaceUpdatePod does not panic, and does what the phase of the pod asks for. A pod with
-- the readiness gate that is not marked yet: all calls mark it not ready. Otherwise, with a grace
-- period and no status in the annotation: all calls note the start. Within the noted period: no call,
-- and the whole seconds to wait, made even. Without a grace period or after it: all calls change the
-- images, to the last image that the patch gives for each name. In each phase with calls, if no error
-- is returned, then the last call was really made, is one of that kind, and was answered without an
-- error.
pub in_place_update_pod_lem :
    (p : Platform) (js : Json) (app : App) (pod : Pod) (update old : Revision)
    (revisions : List Revision) (template : PodTemplate) (changes : List (ℕ × Str)) (w : World)
    → RetriesAsDocumented p
    → StatusesListed p
    → find_old (get_pod_revision pod) revisions ≡ some old
    → js.create_patch old.raw update.raw ≡ ok (map (λ (c : ℕ × Str). image_op c.0 c.1) changes)
    → js.read_template old.raw ≡ ok (some template)
    → length template.containers < 2 ^ 63
    → All (λ (c : ℕ × Str). c.0 < length template.containers) changes
    → (images : Map Str) × ((name : Str)
        → lookup name images ≡ last_image template.containers changes name)
      × Returns
          (Phase p js app update images pod w (pos_part (grace_of app)))
          (in_place_update_pod p js app pod update revisions w)
unfolding in_place_update_pod start_with
in_place_update_pod_lem p js app pod update old revisions template changes w documented listed known
      patch read small below =
    let (images, last, found) =
      images_found js pod update old revisions template changes known patch read small below in
    (
      images,
      last,
      subst
          (λ m.
            Returns (Phase p js app update images pod w (pos_part (grace_of app)))
              (m >>= start_with p js app update pod w))
          (sym found) (with_images-Phase p js app update images pod w documented listed),
    )

-- With a pod of a known revision whose template is not null, and a patch to the update revision in
-- which some operation is no replacement of the image of a container, and each operation that
-- is one carries a string, InPlaceUpdatePod does not panic, returns an error and makes no call.
pub in_place_update_pod-refused :
    (p : Platform) (js : Json) (app : App) (pod : Pod) (update old : Revision)
    (revisions : List Revision) (ops : List PatchOp) (w : World)
    → find_old (get_pod_revision pod) revisions ≡ some old
    → js.create_patch old.raw update.raw ≡ ok ops
    → js.read_template old.raw ≢ ok none
    → All HasText ops
    → SomeRefused ops
    → (f : Failure) × (in_place_update_pod p js app pod update revisions w
        ≡ value ((some f, pos 0), w))
unfolding in_place_update_pod start_with
in_place_update_pod-refused p js app pod update old revisions ops w known patch read texts refused =
    let (f, e) =
      images_to_update-refused js pod update old revisions ops known patch read texts refused in
    (f, ap (λ m. m >>= start_with p js app update pod w) e)

-- With a pod of a known revision, a patch that replaces images, no grace period and retries as
-- documented, InPlaceUpdatePod panics for a pod without the readiness gate, or already not ready,
-- when the lister's pod has a container that is to get a new image and no status of its name.
pub in_place_update_pod-panics :
    (p : Platform) (js : Json) (app : App) (pod origin : Pod) (update old : Revision)
    (revisions : List Revision) (template : PodTemplate) (changes : List (ℕ × Str)) (w : World)
    → RetriesAsDocumented p
    → find_old (get_pod_revision pod) revisions ≡ some old
    → js.create_patch old.raw update.raw ≡ ok (map (λ (c : ℕ × Str). image_op c.0 c.1) changes)
    → js.read_template old.raw ≡ ok (some template)
    → length template.containers < 2 ^ 63
    → All (λ (c : ℕ × Str). c.0 < length template.containers) changes
    → Marked pod
    → pos_part (grace_of app) ≡ 0
    → p.get_pod w.calls pod.namespace pod.name ≡ ok origin
    → SomeMissing
        (last_image template.containers changes)
        origin.container_statuses
        origin.containers
    → in_place_update_pod p js app pod update revisions w ≡ panic
unfolding in_place_update_pod start_with
in_place_update_pod-panics p js app pod origin update old revisions template changes w documented
      known patch read small below marked ungraced found missing =
    let (images, last, e) =
      images_found js pod update old revisions template changes known patch read small below in
    ap (λ m. m >>= start_with p js app update pod w) e
    ∙ with_images-panics p js app update images pod origin w documented marked ungraced found (
        subst (λ f. SomeMissing f origin.container_statuses origin.containers) (sym (fun_ext last))
          missing)

-- No call of an in-place update creates or deletes a pod.
Marks-IsQuiet : (p : Platform) (pod : Pod) (c : Call) → Marks p pod c → IsQuiet c
Marks-IsQuiet p pod c (origin, listed, e, set) = rw e refl

Notes-IsQuiet :
    (p : Platform) (js : Json) (update : Revision) (pod : Pod) (c : Call)
    → Notes p js update pod c
    → IsQuiet c
Notes-IsQuiet p js update pod c (origin, listed, e) = rw e refl

Changes-IsQuiet :
    (p : Platform) (js : Json) (app : App) (update : Revision) (images : Map Str) (pod : Pod)
    (c : Call)
    → Changes p js app update images pod c
    → IsQuiet c
Changes-IsQuiet p js app update images pod c (origin, q, listed, e, made) = rw e refl

Finishes-IsQuiet : (c : Call) → Finishes c → IsQuiet c
Finishes-IsQuiet c (q, e, set, gone) = rw e refl

module _ (p : Platform) (js : Json) (app : App) (update : Revision) (images : Map Str) (pod : Pod)
    (w : World) where
  Phase-quiet :
      (g : ℕ) (a : (Option Failure × ℤ) × World)
      → Phase p js app update images pod w g a
      → Extends IsQuiet w a.1
  Phase-quiet g a (inl (unmarked, zero_wait, h)) =
      Extends-mono (Marks p pod) IsQuiet (Marks-IsQuiet p pod) h.0
  Phase-quiet g a (inr (marked, inl (ungraced, (zero_wait, h)))) =
      Extends-mono (Changes p js app update images pod) IsQuiet
        (Changes-IsQuiet p js app update images pod) h.0
  Phase-quiet g a (inr (marked, inr (graced, inl (empty, h, wait)))) =
      Extends-mono (Notes p js update pod) IsQuiet (Notes-IsQuiet p js update pod) h.0
  Phase-quiet g a
        (inr (marked, inr (graced, inr (written, inl (t, n, e, more, left, f, r, same))))) =
      subst (Extends IsQuiet w) (sym same) (Extends-refl w)
  Phase-quiet g a (inr (marked, inr (graced, inr (written, inr (over, (zero_wait, h)))))) =
      Extends-mono (Changes p js app update images pod) IsQuiet
        (Changes-IsQuiet p js app update images pod) h.0

start_with-quiet :
    (p : Platform) (js : Json) (app : App) (update : Revision) (pod : Pod) (w : World)
    (r : Result (Map Str))
    → RetriesAsDocumented p
    → StatusesListed p
    → Returns (λ a. Extends IsQuiet w a.1) (start_with p js app update pod w r)
unfolding start_with
start_with-quiet p js app update pod w (err f) documented listed = Extends-refl w
start_with-quiet p js app update pod w (ok images) documented listed =
    Returns-mono (Phase p js app update images pod w (pos_part (grace_of app)))
      (λ a. Extends IsQuiet w a.1) (with_images p js app update images pod w)
      (with_images-Phase p js app update images pod w documented listed)
      (λ a h. Phase-quiet p js app update images pod w (pos_part (grace_of app)) a h)

-- The in-place operations keep to what the rolling update asks of them, for revisions whose data
-- satisfy Held.
pub in_place_operations-Quiet :
    (p : Platform) (js : Json) (Held : Str → Type 0) (update : Revision) (revisions : List Revision)
    → RetriesAsDocumented p
    → StatusesListed p
    → IsTyped js Held
    → Held update.raw
    → All (λ (r : Revision). Held r.raw) revisions
    → QuietInPlace (in_place_operations p js update revisions)
unfolding in_place_operations in_place_update_pod
in_place_operations-Quiet p js Held update revisions documented listed typed new held = record {
  update = λ app pod w.
      Returns-bind (λ r. Unit {0}) (λ a. Extends IsQuiet w a.1)
        (images_to_update js pod update revisions) (start_with p js app update pod w)
        (images_to_update-Returns js Held pod update revisions typed new held)
        (λ r _. start_with-quiet p js app update pod w r documented listed);
  clean_up = λ pod w.
      Extends-mono Finishes IsQuiet Finishes-IsQuiet
        (clean_up_in_place_update_lem p pod w documented);
}
