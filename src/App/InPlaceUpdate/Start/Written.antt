-- ===== src/App/InPlaceUpdate/Start/Written.antt =====
-- The pod that an in-place update writes: which images and which old ids.
use unicore.Prelude.{
  ◌≡◌, refl, ◌∙◌, ap, sym, ◌⊎◌, inl, inr, if◌then◌else◌, Bool, true, false, ◌&&◌, ◌||◌, Str, str_eq,
  str_eq_iff, str_eq_refl, get_or_empty, Map, lookup, insert, lookup-insert, is_some, List, [], ◌∷◌,
  map, Option, none, some, arith, All, Bool-cases,
}
use unicore.Api.{App, Pod, Container, ContainerStatus, Revision}
use unicore.App.Readiness.{get_pod_revision, revision_label}
use unicore.App.Platform.{Platform}
use unicore.App.Versions.{Outcome, Returns}
use unicore.App.Versions.Partition.{Returns-bind}
use unicore.App.Update.Rolling.{status_key}
use unicore.App.InPlaceUpdate.{InPlaceStatus}
use unicore.App.InPlaceUpdate.Images.{Json}
use unicore.App.InPlaceUpdate.Start.{statuses_by_name, change_one, change_containers, changed_pod}

-- A status with the name.
abbrev pub HasStatus : Str → List ContainerStatus → Type 0
HasStatus name [] = ⊥
HasStatus name (v ∷ vs) = (str_eq v.name name ≡ true) ⊎ HasStatus name vs

-- Each container has a status.
abbrev pub HasStatuses : Pod → Type 0
HasStatuses pod = All (λ c. HasStatus c.name pod.container_statuses) pod.containers

abbrev Found : Str → Map ContainerStatus → Type 0
Found name m = (v : ContainerStatus) × (lookup name m ≡ some v)

Found-insert :
    (name other : Str) (v : ContainerStatus) (m : Map ContainerStatus)
    → Found name m
    → Found name (insert other v m)
Found-insert name other v m (u, e) = elim (Bool-cases (str_eq other name)) [
  | inl same ↦ (v, lookup-insert other name v m ∙ (rw same))
  | inr differ ↦ (u, lookup-insert other name v m ∙ (rw differ e))
]

kept-Found :
    (name : Str) (vs : List ContainerStatus) (m : Map ContainerStatus)
    → Found name m
    → Found name (statuses_by_name vs m)
unfolding statuses_by_name
kept-Found name [] m h = h
kept-Found name (v ∷ vs) m h =
    kept-Found name vs (insert v.name v m) (Found-insert name v.name v m h)

statuses_by_name-Found :
    (name : Str) (vs : List ContainerStatus) (m : Map ContainerStatus)
    → HasStatus name vs
    → Found name (statuses_by_name vs m)
unfolding statuses_by_name
statuses_by_name-Found name [] m h = absurd h
statuses_by_name-Found name (v ∷ vs) m (inl e) =
    kept-Found name vs (insert v.name v m) (v, lookup-insert v.name name v m ∙ (rw e))
statuses_by_name-Found name (v ∷ vs) m (inr h) =
    statuses_by_name-Found name vs (insert v.name v m) h

-- The container with its new image, if it has one.
abbrev imaged : Container → Option Str → Container
imaged c none = c
imaged c (some image) = record c { image = image }

abbrev pub with_image : Map Str → Container → Container
with_image images c = imaged c (lookup c.name images)

abbrev pub has_name : Str → List Container → Bool
has_name name [] = false
has_name name (c ∷ cs) = str_eq c.name name || has_name name cs

abbrev id_of : Option ContainerStatus → Option Str
id_of none = none
id_of (some v) = some v.container_id

abbrev pub id_in : Str → Map ContainerStatus → Option Str
id_in name statuses = id_of (lookup name statuses)

-- The id noted for a name: that of its status, if the name is that of a container to be changed.
abbrev noted : Map Str → Map ContainerStatus → List Container → Map Str → Str → Option Str
noted images statuses cs ids name =
    if is_some (lookup name images) && has_name name cs
    then id_in name statuses
    else lookup name ids

module _ (images : Map Str) (statuses : Map ContainerStatus) where
  abbrev Written : List Container → Map Str → List Container × Map Str → Type 0
  Written cs ids r =
      (r.0 ≡ map (with_image images) cs)
      × ((name : Str) → lookup name r.1 ≡ noted images statuses cs ids name)

  noted-skip :
      (c : Container) (cs : List Container) (ids : Map Str) (name : Str)
      → lookup c.name images ≡ none
      → noted images statuses cs ids name ≡ noted images statuses (c ∷ cs) ids name
  noted-skip c cs ids name e = elim (Bool-cases (str_eq c.name name)) [
    | inl same ↦ rw (sym ((str_eq_iff c.name name).0 same)) (rw e refl)
    | inr differ ↦ rw differ refl
  ]

  noted-take :
      (c : Container) (cs : List Container) (ids : Map Str) (v : ContainerStatus) (name image : Str)
      → lookup c.name images ≡ some image
      → lookup c.name statuses ≡ some v
      → noted images statuses cs (insert c.name v.container_id ids) name
        ≡ noted images statuses (c ∷ cs) ids name
  noted-take c cs ids v name image e f = elim (Bool-cases (str_eq c.name name)) [
    | inl same ↦
        ground
          (arith, (str_eq_iff c.name name).0 same, lookup-insert c.name name v.container_id ids)
    | inr differ ↦ ground (arith, differ, lookup-insert c.name name v.container_id ids)
  ]

  abbrev Later : List Container → (Map Str → Outcome (List Container × Map Str)) → Type 0
  Later cs later = (ids : Map Str) → Returns (Written cs ids) (later ids)

  change_one-Written :
      (c : Container) (cs : List Container) (ids : Map Str) (v : ContainerStatus) (o : Option Str)
      (later : Map Str → Outcome (List Container × Map Str))
      → lookup c.name images ≡ o
      → lookup c.name statuses ≡ some v
      → Later cs later
      → Returns (Written (c ∷ cs) ids) (change_one statuses c ids o later)
  unfolding change_one
  change_one-Written c cs ids v none later e f h =
      Returns-bind (Written cs ids) (Written (c ∷ cs) ids) (later ids) _ (h ids) (λ r ok. (
        ap (λ t. c ∷ t) ok.0 ∙ ap (λ o. imaged c o ∷ map (with_image images) cs) (sym e),
        λ name. ok.1 name ∙ noted-skip c cs ids name e,
      ))
  change_one-Written c cs ids v (some image) later e f h =
      let ids' = insert c.name v.container_id ids in
      rw f (
        Returns-bind (Written cs ids') (Written (c ∷ cs) ids) (later ids') _ (h ids') (λ r ok. (
          ap (λ t. record c { image = image } ∷ t) ok.0
              ∙ ap (λ o. imaged c o ∷ map (with_image images) cs) (sym e),
          λ name. ok.1 name ∙ noted-take c cs ids v name image e f,
        )))

  change_containers-Written :
      (cs : List Container) (ids : Map Str)
      → All (λ c. Found c.name statuses) cs
      → Returns (Written cs ids) (change_containers images statuses cs ids)
  unfolding change_containers
  change_containers-Written [] ids h = (refl, λ name. ground arith)
  change_containers-Written (c ∷ cs) ids ((v, f), h) =
      change_one-Written c cs ids v (lookup c.name images)
        (λ ids'. change_containers images statuses cs ids') refl f
        (λ ids'. change_containers-Written cs ids' h)

-- What an in-place update writes of the lister's pod: the update revision of the app's stored
-- status, the new images, and an annotation with the container ids of the containers that change.
abbrev pub Changed : Platform → Json → App → Revision → Map Str → Pod → Pod → Type 0
Changed p js app update images origin q =
    (st : InPlaceStatus) × (q ≡ record origin {
      labels = insert revision_label app.status.update_revision origin.labels;
      annotations = insert status_key (js.write_status st) origin.annotations;
      containers = map (with_image images) origin.containers;
    })
    × (st.revision ≡ update.name)
    × (st.update_time ≡ some p.now)
    × ((name : Str)
        → lookup name st.old_img_ids
          ≡ noted images (statuses_by_name origin.container_statuses []) origin.containers [] name)

All-Found :
    (vs : List ContainerStatus) (cs : List Container)
    → All (λ c. HasStatus c.name vs) cs
    → All (λ c. Found c.name (statuses_by_name vs [])) cs
All-Found vs [] h = tt
All-Found vs (c ∷ cs) h = (statuses_by_name-Found c.name vs [] h.0, All-Found vs cs h.1)

pub changed_pod-Changed :
    (p : Platform) (js : Json) (app : App) (update : Revision) (images : Map Str) (origin : Pod)
    → HasStatuses origin
    → Returns (Changed p js app update images origin) (changed_pod p js app update images origin)
unfolding changed_pod
changed_pod-Changed p js app update images origin h =
    let statuses = statuses_by_name origin.container_statuses [] in
    Returns-bind (Written images statuses origin.containers []) _
      (change_containers images statuses origin.containers []) _
      (change_containers-Written images statuses origin.containers []
        (All-Found origin.container_statuses origin.containers h))
      (λ r ok. (
        record { revision = update.name; update_time = some p.now; old_img_ids = r.1 },
        ap
            (λ cs. record origin {
              labels = insert revision_label app.status.update_revision origin.labels;
              annotations =
                  insert status_key
                    (js.write_status (record {
                      revision = update.name;
                      update_time = some p.now;
                      old_img_ids = r.1;
                    }))
                    origin.annotations;
              containers = cs;
            })
            ok.0,
        refl,
        refl,
        ok.1,
      ))

-- The written pod counts as a pod of the update revision that the stored status names.
pub Changed-revision :
    (p : Platform) (js : Json) (app : App) (update : Revision) (images : Map Str) (origin q : Pod)
    → Changed p js app update images origin q
    → get_pod_revision q ≡ app.status.update_revision
unfolding get_pod_revision
Changed-revision p js app update images origin q (st, e, name, time, ids) =
    let set : lookup revision_label (insert revision_label app.status.update_revision origin.labels)
        ≡ some app.status.update_revision =
      lookup-insert revision_label revision_label app.status.update_revision origin.labels
      ∙ (rw (str_eq_refl revision_label)) in
    ap (λ (r : Pod). get_or_empty (lookup revision_label r.labels)) e ∙ ap get_or_empty set
