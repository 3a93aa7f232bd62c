-- ===== src/Reconciler/Claimed.antt =====
-- The pods that Reconcile claims have an ordinal.
use unicore.Prelude.{
  ◌≡◌, refl, ◌∙◌, ap, if◌then◌else◌, Bool, true, false, Str, str_eq, str_eq_iff, is_empty, List, [],
  Option, none, some, length, ltb, ℤ, pos, ℕ, negsuc,
}
use unicore.Api.{App, Pod}
use unicore.Strings.{split, last_or_empty, atoi}
use unicore.Strings.Signs.{last_number_lem}
use unicore.App.Identity.{get_pod_app_name_and_ordinal, owner_and_ordinal}
use unicore.App.Update.Slots.Fill.{NonNegative}
use unicore.Reconciler.{is_pod_of}

no_owner : (app : App) {A : Type 0} → is_empty app.name ≡ false → str_eq [] app.name ≡ true → A
no_owner app named h = let e = ap is_empty ((str_eq_iff [] app.name).0 h) ∙ named in cc

numbered :
    (app : App) (pod : Pod) (parts : List Str) (o : Option ℤ)
    → is_empty app.name ≡ false
    → ((i : ℤ) → o ≡ some i → (k : ℕ) × (i ≡ pos k))
    → str_eq (owner_and_ordinal parts o).0 app.name ≡ true
    → (k : ℕ) × ((owner_and_ordinal parts o).1 ≡ pos k)
numbered app pod parts none named f h = no_owner app named h
numbered app pod parts (some i) named f h = f i refl

numbered_unless :
    (app : App) (pod : Pod) (parts : List Str) (o : Option ℤ) (short : Bool)
    → is_empty app.name ≡ false
    → ((i : ℤ) → o ≡ some i → (k : ℕ) × (i ≡ pos k))
    → str_eq (if short then ([], negsuc 0) else owner_and_ordinal parts o).0 app.name ≡ true
    → (k : ℕ) × ((if short then ([], negsuc 0) else owner_and_ordinal parts o).1 ≡ pos k)
numbered_unless app pod parts o true named f h = no_owner app named h
numbered_unless app pod parts o false named f h = numbered app pod parts o named f h

-- A pod that passes the filter of getAppPods for an app with a name has an ordinal from 0 up.
pub is_pod_of-NonNegative :
    (app : App) (pod : Pod) → is_empty app.name ≡ false → is_pod_of app pod ≡ true → NonNegative pod
unfolding get_pod_app_name_and_ordinal
is_pod_of-NonNegative app pod named h =
    numbered_unless app pod (split b'-' pod.name) (atoi (last_or_empty (split b'-' pod.name)))
      (ltb (length (split b'-' pod.name)) 2) named (last_number_lem pod.name) h
