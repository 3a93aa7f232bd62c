-- ===== src/App/Identity/Names.antt =====
-- The pod names that the controller writes are read back as the app and the ordinal.
use unicore.Prelude.{
  Map, insert, lookup-insert, false, ap, ℕ, ◌^◌, ◌<◌, pos, ◌≡◌, refl, true, Str, ◌∷◌, ◌++◌, some,
  arith, str_eq_refl, str_eq, lookup, get_or_empty,
}
use unicore.Api.{App, Pod}
use unicore.Strings.{split, itoa, last_or_empty}
use unicore.Strings.Split.{split-append, last-append, join-split_front, split-length}
use unicore.Strings.Decimal.{atoi-itoa, itoa-Lacks}
use unicore.App.Identity.{
  get_pod_app_name_and_ordinal, get_pod_out_name, match_app_and_pod, update_pod_identity,
  label_pod_ordinal, label_pod_owner_app,
}

last_part : (s : Str) (n : ℕ) → last_or_empty (split b'-' (s ++ b'-' ∷ itoa (pos n))) ≡ itoa (pos n)
last_part s n = rw (split-append b'-' s _ (itoa-Lacks n)) (last-append (split b'-' s) _)

-- A pod that carries the name written for ordinal n of an app, n in the range of an int, is read as
-- a pod of that app with that ordinal, whatever dashes the app's name has.
pub get_pod_app_name_and_ordinal-get_pod_out_name :
    (app : App) (pod : Pod) (n : ℕ)
    → n < 2 ^ 63
    → pod.name ≡ get_pod_out_name app (pos n)
    → get_pod_app_name_and_ordinal pod ≡ (app.name, pos n)
unfolding get_pod_app_name_and_ordinal get_pod_out_name
get_pod_app_name_and_ordinal-get_pod_out_name app pod n h e = ground (
  arith,
  e,
  split-length b'-' app.name (itoa (pos n)),
  last_part app.name n,
  atoi-itoa n h,
  join-split_front b'-' app.name (itoa (pos n)) (itoa-Lacks n),
)

label_keys_differ : str_eq label_pod_ordinal label_pod_owner_app ≡ false
unfolding str_eq
label_keys_differ = refl

owner_label :
    (app : App) (ordinal : Str) (labels : Map Str)
    → lookup label_pod_owner_app
        (insert label_pod_ordinal ordinal (insert label_pod_owner_app app.name labels))
      ≡ some app.name
owner_label app ordinal labels = simp (lookup-insert, label_keys_differ, str_eq_refl)

matches_of_fields :
    (app : App) (pod : Pod) (n : ℕ)
    → get_pod_app_name_and_ordinal pod ≡ (app.name, pos n)
    → pod.name ≡ get_pod_out_name app (pos n)
    → pod.namespace ≡ app.namespace
    → get_or_empty (lookup label_pod_owner_app pod.labels) ≡ app.name
    → match_app_and_pod app pod ≡ true
unfolding match_app_and_pod
matches_of_fields app pod n read named placed labelled =
    rw (read, named, placed, labelled) (simp str_eq_refl (ground arith))

-- updatePodIdentity gives a pod whose ordinal n is in the range of an int the identity that
-- matchAppAndPod asks for: the name, the namespace and the owner label of the app. The pod keeps
-- its ordinal.
pub match_app_and_pod-update_pod_identity :
    (app : App) (pod : Pod) (n : ℕ)
    → n < 2 ^ 63
    → (get_pod_app_name_and_ordinal pod).1 ≡ pos n
    → (match_app_and_pod app (update_pod_identity app pod) ≡ true)
      × (get_pod_app_name_and_ordinal (update_pod_identity app pod) ≡ (app.name, pos n))
unfolding update_pod_identity
match_app_and_pod-update_pod_identity app pod n h e =
    let renamed = update_pod_identity app pod in
    let read =
      get_pod_app_name_and_ordinal-get_pod_out_name app renamed n h (ap (get_pod_out_name app) e) in
    (
      matches_of_fields app renamed n read (ap (get_pod_out_name app) e) refl
          (ap get_or_empty (owner_label app _ pod.labels)),
      read,
    )
