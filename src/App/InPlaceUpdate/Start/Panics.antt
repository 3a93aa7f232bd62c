-- ===== src/App/InPlaceUpdate/Start/Panics.antt =====
-- A container that is to get a new image and has no status is a nil pointer.
use unicore.Prelude.{
  ℤ, pos, negsuc, pos_part, ltb_ℤ, ◌≡◌, refl, ◌∙◌, ap, sym, ◌⊎◌, inl, inr, Bool, true, false, not,
  ◌&&◌, Str, str_eq, Map, lookup, insert, lookup-insert, List, [], ◌∷◌, Option, none, some, arith,
  All, Option-cases,
}
use unicore.Api.{App, Pod, Container, ContainerStatus, Revision}
use unicore.App.Readiness.{contains_readiness_gate, if_condition_false, in_place_update_ready}
use unicore.App.Platform.{Platform, World, Failure, ok, RetriesAsDocumented}
use unicore.App.Platform.Traces.{one_run}
use unicore.App.Versions.{Outcome, value, panic, ◌>>=◌}
use unicore.App.InPlaceUpdate.Images.{Json}
use unicore.App.InPlaceUpdate.Start.{
  statuses_by_name, change_one, change_containers, changed_pod, send_changed, change_found,
  change_attempt, change_images, grace_of, with_images,
}
use unicore.App.InPlaceUpdate.Start.Phases.{Marked}

-- No status has the name.
abbrev pub Lacks : Str → List ContainerStatus → Type 0
Lacks name = All (λ v. str_eq v.name name ≡ false)

-- Some container is given an image by `images`, and no status has its name.
abbrev pub SomeMissing :
    (images : Str → Option Str) → List ContainerStatus → List Container → Type 0
SomeMissing images vs [] = ⊥
SomeMissing images vs (c ∷ cs) =
    ((image : Str) × (images c.name ≡ some image) × Lacks c.name vs) ⊎ SomeMissing images vs cs

lookup-statuses_by_name :
    (name : Str) (vs : List ContainerStatus) (m : Map ContainerStatus)
    → Lacks name vs
    → lookup name (statuses_by_name vs m) ≡ lookup name m
unfolding statuses_by_name
lookup-statuses_by_name name [] m h = refl
lookup-statuses_by_name name (v ∷ vs) m (differ, h) =
    lookup-statuses_by_name name vs (insert v.name v m) h
    ∙ lookup-insert v.name name v m
    ∙ (rw differ refl)

change_one-panic :
    (statuses : Map ContainerStatus) (c : Container) (ids : Map Str) (o : Option Str)
    (later : Map Str → Outcome (List Container × Map Str))
    → ((m : Map Str) → later m ≡ panic)
    → change_one statuses c ids o later ≡ panic
unfolding change_one
change_one-panic statuses c ids none later h = rw (h ids) refl
change_one-panic statuses c ids (some image) later h =
    elim (Option-cases (lookup c.name statuses)) [
      | inl e ↦ rw e refl
      | inr (v, e) ↦ rw e (rw (h (insert c.name v.container_id ids)) refl)
    ]

missing-panic :
    (statuses : Map ContainerStatus) (c : Container) (ids : Map Str) (image : Str)
    (later : Map Str → Outcome (List Container × Map Str))
    → lookup c.name statuses ≡ none
    → change_one statuses c ids (some image) later ≡ panic
unfolding change_one
missing-panic statuses c ids image later e = rw e refl

change_containers-panic :
    (images : Map Str) (vs : List ContainerStatus) (cs : List Container) (ids : Map Str)
    → SomeMissing (λ name. lookup name images) vs cs
    → change_containers images (statuses_by_name vs []) cs ids ≡ panic
unfolding change_containers lookup
change_containers-panic images vs [] ids h = absurd h
change_containers-panic images vs (c ∷ cs) ids (inl (image, e, lacks)) =
    let later = λ (m : Map Str). change_containers images (statuses_by_name vs []) cs m in
    ap (λ o. change_one (statuses_by_name vs []) c ids o later) e
    ∙ missing-panic (statuses_by_name vs []) c ids image later
        (lookup-statuses_by_name c.name vs [] lacks)
change_containers-panic images vs (c ∷ cs) ids (inr h) =
    change_one-panic (statuses_by_name vs []) c ids (lookup c.name images)
      (λ m. change_containers images (statuses_by_name vs []) cs m)
      (λ m. change_containers-panic images vs cs m h)

module _ (p : Platform) (js : Json) (app : App) (update : Revision) (images : Map Str)
    (pod origin : Pod) (w : World) (documented : RetriesAsDocumented p) where
  abbrev Missing : Type 0
  Missing = SomeMissing (λ name. lookup name images) origin.container_statuses origin.containers

  changed_pod-panic : Missing → changed_pod p js app update images origin ≡ panic
  unfolding changed_pod
  changed_pod-panic missing =
      rw (change_containers-panic images origin.container_statuses origin.containers [] missing)
        refl

  attempt-panics :
      p.get_pod w.calls pod.namespace pod.name ≡ ok origin
      → Missing
      → change_attempt p js app update images pod (value w) ≡ (none, panic)
  unfolding change_attempt change_found send_changed
  attempt-panics found missing =
      ap (λ r. change_found p js app update images r w) found
      ∙ ap (λ m. send_changed p js app update images m w) (changed_pod-panic missing)

  change_images-panics :
      p.get_pod w.calls pod.namespace pod.name ≡ ok origin
      → Missing
      → change_images p js app update images pod w ≡ panic
  unfolding change_images
  change_images-panics found missing =
      let body = change_attempt p js app update images pod in
      let once : body (value w) ≡ (none, panic) = attempt-panics found missing in
      let run : p.retry_on_conflict (Outcome World) body (value w) ≡ (none, panic) =
        one_run (documented.retried (Outcome World) body (value w))
          (λ e. let bad = ap (λ (r : Option Failure × Outcome World). r.0) (sym once) ∙ e in cc)
        ∙ once in
      ap (λ (r : Option Failure × Outcome World). r.1 >>= λ w'. value ((r.0, pos 0), w')) run

  ungraced-lem : (g : ℤ) → pos_part g ≡ 0 → ltb_ℤ (pos 0) g ≡ false
  ungraced-lem (pos n) e = ground arith
  ungraced-lem (negsuc n) e = ground arith

  marked_test :
      (gate : Bool)
      → if_condition_false pod in_place_update_ready ≡ true
      → (gate && not (if_condition_false pod in_place_update_ready)) ≡ false
  marked_test gate e = ground arith

  pub with_images-panics :
      Marked pod
      → pos_part (grace_of app) ≡ 0
      → p.get_pod w.calls pod.namespace pod.name ≡ ok origin
      → Missing
      → with_images p js app update images pod w ≡ panic
  unfolding with_images
  with_images-panics marked ungraced found missing =
      let test : (contains_readiness_gate pod && not (if_condition_false pod in_place_update_ready))
          ≡ false =
        elim marked [ inl e ↦ rw e refl | inr e ↦ marked_test (contains_readiness_gate pod) e ] in
      rw (test, ungraced-lem (grace_of app) ungraced) (change_images-panics found missing)
