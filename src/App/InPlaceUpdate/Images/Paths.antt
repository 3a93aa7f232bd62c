-- ===== src/App/InPlaceUpdate/Images/Paths.antt =====
-- Which operations of a patch change the image of a container, and what the loop over them gives.
use unicore.Prelude.{
  zero, suc, ℕ, ◌^◌, ◌<◌, pos, ◌≡◌, ◌≢◌, refl, ◌∙◌, ap, sym, if◌then◌else◌, true, Str, codes,
  str_eq, str_eq_refl, Map, lookup, insert, lookup-insert, List, [], ◌∷◌, ◌++◌, map, Option, none,
  some, arith, All, length, get_elem?,
}
use unicore.Api.{Container}
use unicore.Strings.{split, itoa}
use unicore.Strings.Split.{split-append}
use unicore.Strings.Decimal.{IsDigit, atoi-itoa, itoa-digits, itoa-nonempty, digits-Lacks}
use unicore.App.Platform.{Result, ok}
use unicore.App.Versions.{value, Returns}
use unicore.App.Versions.Partition.{Returns-mono}
use unicore.App.InPlaceUpdate.Images.{
  PatchOp, without_first, template_prefix, starts_with, is_image_path, all_digits, is_number,
  is_image_path_parts, index_of, target_at, target_of, new_images,
}

-- The path of the image of container k, below the template.
abbrev image_path : ℕ → Str
image_path k = (codes "/spec/containers" ++ b'/' ∷ itoa (pos k)) ++ b'/' ∷ codes "image"

-- The operation that replaces the image of container k.
abbrev pub image_op : ℕ → Str → PatchOp
image_op k image = record {
  operation = codes "replace";
  path = template_prefix ++ image_path k;
  text = some image;
}

image_path-below :
    (k : ℕ) → without_first template_prefix (template_prefix ++ image_path k) ≡ image_path k
unfolding without_first starts_with
image_path-below k = refl

split-prefix : split b'/' (codes "/spec/containers") ≡ [] ∷ codes "spec" ∷ codes "containers" ∷ []
unfolding split
split-prefix = refl

split-image_path :
    (k : ℕ)
    → split b'/' (image_path k)
      ≡ [] ∷ codes "spec" ∷ codes "containers" ∷ itoa (pos k) ∷ codes "image" ∷ []
split-image_path k =
    split-append b'/' (codes "/spec/containers" ++ b'/' ∷ itoa (pos k)) (codes "image")
      (omega arith)
    ∙ ap (λ s. s ++ codes "image" ∷ [])
        (split-append b'/' (codes "/spec/containers") (itoa (pos k))
          (digits-Lacks b'/' (itoa (pos k)) (omega arith) (itoa-digits k)))
    ∙ ap (λ l. (l ++ itoa (pos k) ∷ []) ++ codes "image" ∷ []) split-prefix

all_digits-digits : (s : Str) → All IsDigit s → all_digits s ≡ true
unfolding all_digits
all_digits-digits [] h = refl
all_digits-digits (c ∷ s) h = ground (arith, all_digits-digits s h.1)

number : (s : Str) → s ≢ [] → All IsDigit s → is_number s ≡ true
number [] ne h = absurd (ne refl)
number (c ∷ s) ne h = all_digits-digits (c ∷ s) h

image_path-IsImagePath : (k : ℕ) → is_image_path (image_path k) ≡ true
unfolding is_image_path str_eq
image_path-IsImagePath k =
    ap is_image_path_parts (split-image_path k)
    ∙ (rw (number (itoa (pos k)) (itoa-nonempty k) (itoa-digits k)) refl)

index_of-image_path : (k : ℕ) → k < 2 ^ 63 → index_of (image_path k) ≡ value k
unfolding index_of
index_of-image_path k small = rw (split-image_path k) (rw (atoi-itoa k small) refl)

target_at-image_path :
    (containers : List Container) (k : ℕ)
    → k < 2 ^ 63
    → target_at containers (codes "replace") (image_path k) ≡ value (get_elem? containers k)
unfolding target_at
target_at-image_path containers k small =
    rw (str_eq_refl (codes "replace"), image_path-IsImagePath k, index_of-image_path k small) refl

target_of-image_op :
    (containers : List Container) (k : ℕ) (image : Str)
    → k < 2 ^ 63
    → target_of containers (image_op k image) ≡ value (get_elem? containers k)
unfolding target_of
target_of-image_op containers k image small =
    ap (target_at containers (codes "replace")) (image_path-below k)
    ∙ target_at-image_path containers k small

-- The image that the last of the operations gives to a container of the name.
abbrev given : Str → Option Container → Str → Option Str
given name none image = none
given name (some c) image = if str_eq c.name name then some image else none

abbrev or_else : Option Str → Option Str → Option Str
or_else none other = other
or_else (some a) other = some a

pub or_else-empty : (name : Str) (o : Option Str) → or_else o (lookup name []) ≡ o
unfolding lookup
or_else-empty name none = refl
or_else-empty name (some a) = refl

abbrev pub last_image : List Container → List (ℕ × Str) → Str → Option Str
last_image containers [] name = none
last_image containers ((k, image) ∷ changes) name =
    or_else (last_image containers changes name) (given name (get_elem? containers k) image)

get_elem?-below {ℓ} :
    {A : Type ℓ} (xs : List A) (k : ℕ) → k < length xs → (a : A) × (get_elem? xs k ≡ some a)
get_elem?-below [] k h = elim h [ ]
get_elem?-below (x ∷ xs) zero h = (x, refl)
get_elem?-below (x ∷ xs) (suc k) h = get_elem?-below xs k (omega arith)

abbrev pub Images : List Container → List (ℕ × Str) → Map Str → Result (Map Str) → Type 0
Images containers changes before r =
    (m : Map Str) × (r ≡ ok m)
    × ((name : Str)
        → lookup name m ≡ or_else (last_image containers changes name) (lookup name before))

images-step :
    (name image : Str) (c : Container) (before : Map Str) (later : Option Str)
    → or_else later (lookup name (insert c.name image before))
      ≡ or_else (or_else later (given name (some c) image)) (lookup name before)
images-step name image c before (some a) = refl
images-step name image c before none = ground (arith, lookup-insert c.name name image before)

pub new_images-Images :
    (containers : List Container) (changes : List (ℕ × Str)) (before : Map Str)
    → length containers < 2 ^ 63
    → All (λ (c : ℕ × Str). c.0 < length containers) changes
    → Returns
        (Images containers changes before)
        (new_images containers (map (λ (c : ℕ × Str). image_op c.0 c.1) changes) before)
unfolding new_images
new_images-Images containers [] before small h = (before, refl, λ name. refl)
new_images-Images containers ((k, image) ∷ changes) before small (low, h) =
    let (c, found) = get_elem?-below containers k low in
    let target : target_of containers (image_op k image) ≡ value (some c) =
      target_of-image_op containers k image (omega arith) ∙ ap value found in
    rw target (
      Returns-mono (Images containers changes (insert c.name image before))
        (Images containers ((k, image) ∷ changes) before) _
        (new_images-Images containers changes (insert c.name image before) small h)
        (λ r (m, e, ok_at). (
          m,
          e,
          λ name.
              ok_at name
              ∙ images-step name image c before (last_image containers changes name)
              ∙ ap
                  (λ o.
                    or_else (or_else (last_image containers changes name) (given name o image))
                      (lookup name before))
                  (sym found),
        )))
