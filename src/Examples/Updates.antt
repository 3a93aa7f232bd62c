-- ===== src/Examples/Updates.antt =====
-- An in-place update of the app "web" by a patch of one image.
use unicore.Prelude.{
  ◌≡◌, ◌≢◌, refl, subst, if◌then◌else◌, Map, inl, inr, pos, pos_part, true, false, Str, str_eq,
  codes, lookup, List, [], ◌∷◌, none, some, arith, All,
}
use unicore.Api.{Pod, PodTemplate, Container, ContainerStatus}
use unicore.App.Readiness.{get_pod_revision, contains_readiness_gate}
use unicore.App.Platform.{Platform, Failure, Result, ok, err, RetriesAsDocumented}
use unicore.App.Versions.{Returns, value, panic}
use unicore.App.InPlaceUpdate.{InPlaceStatus}
use unicore.App.InPlaceUpdate.Images.{Json, PatchOp, find_old}
use unicore.App.InPlaceUpdate.Images.Paths.{image_op, last_image}
use unicore.App.InPlaceUpdate.Images.Refused.{HasText, IsTyped}
use unicore.App.InPlaceUpdate.Start.{grace_of, in_place_update_pod}
use unicore.App.InPlaceUpdate.Start.Written.{HasStatuses}
use unicore.App.InPlaceUpdate.Start.Writes.{StatusesListed}
use unicore.App.InPlaceUpdate.Start.Phases.{Phase, Marked}
use unicore.App.InPlaceUpdate.Start.Whole.{
  in_place_update_pod_lem, in_place_update_pod-refused, in_place_update_pod-panics,
}
use unicore.Examples.Data.{web, web_0, revision_1, revision_2}
use unicore.Examples.Cluster.{cluster, cluster-Documented, start}

abbrev pub main : Container
main = record { name = codes "main"; image = codes "web:1"; cpu_milli = 100; memory = 64 }

abbrev main_status : ContainerStatus
main_status = record {
  name = codes "main";
  container_id = codes "containerd://c1";
  image_id = codes "sha256:1";
  ready = true;
  running_since = some 1000000000;
}

abbrev pub web_0_main : Pod
web_0_main = record web_0 { containers = main ∷ []; container_statuses = main_status ∷ [] }

-- The lister gives the pod web-0.
abbrev pub with_pod : Platform → Platform
with_pod p = record p { get_pod = λ calls namespace name. ok web_0_main }

pub with_pod-Documented : (p : Platform) → RetriesAsDocumented p → RetriesAsDocumented (with_pod p)
with_pod-Documented p d = record { retried = λ S body s. d.retried S body s }

abbrev StatusesIfOk : Result Pod → Type 0
StatusesIfOk (ok pod) = HasStatuses pod
StatusesIfOk (err f) = Unit {0}

main_named : str_eq main_status.name main.name ≡ true
unfolding str_eq
main_named = refl

pub with_pod-Listed : (p : Platform) → StatusesListed (with_pod p)
with_pod-Listed p calls namespace name pod e = subst StatusesIfOk e (inl main_named, tt)

-- A revision's data is the image of the one container.
abbrev template_of : Str → PodTemplate
template_of image = record {
  labels = [];
  annotations = [];
  volumes = [];
  readiness_gates = [];
  containers = record main { image = image } ∷ [];
}

-- The annotation is the name of the revision.
abbrev read_back : Str → InPlaceStatus
read_back text = record { revision = text; update_time = none; old_img_ids = [] }

-- The JSON value null is read as no template.
abbrev pub json : Json
json = record {
  create_patch = λ old new. ok (image_op 0 new ∷ []);
  read_template = λ raw. if str_eq raw (codes "null") then ok none else ok (some (template_of raw));
  write_status = λ status. status.revision;
  read_status = λ text. ok (read_back text);
  left_in_status = read_back;
}

abbrev TextsIfOk : Result (List PatchOp) → Type 0
TextsIfOk (ok ops) = All HasText ops
TextsIfOk (err f) = Unit {0}

-- The data of a revision are not null.
abbrev pub NotNull : Str → Type 0
NotNull raw = str_eq raw (codes "null") ≡ false

pub json-Typed : IsTyped json NotNull
json-Typed = record {
  texts = λ old new ops held_old held_new e. subst TextsIfOk e ((λ replaces h. (new, refl)), tt);
  templates = λ raw held e. let bad = rw held at e in cc;
}

template_read_1 : json.read_template revision_1.raw ≡ ok (some (template_of revision_1.raw))
unfolding str_eq
template_read_1 = refl

template_not_null : json.read_template revision_1.raw ≢ ok none
unfolding str_eq
template_not_null = λ e. cc

web_0_main-known : find_old (get_pod_revision web_0_main) (revision_1 ∷ []) ≡ some revision_1
unfolding find_old get_pod_revision lookup str_eq
web_0_main-known = refl

in_place_update_pod_lem_example :
    (images : Map Str) × ((name : Str)
      → lookup name images ≡ last_image (main ∷ []) ((0, revision_2.raw) ∷ []) name)
    × Returns
        (Phase
          (with_pod cluster)
          json
          web
          revision_2
          images
          web_0_main
          start
          (pos_part (grace_of web)))
        (in_place_update_pod
          (with_pod cluster)
          json
          web
          web_0_main
          revision_2
          (revision_1 ∷ [])
          start)
in_place_update_pod_lem_example =
    in_place_update_pod_lem (with_pod cluster) json web web_0_main revision_2 revision_1
      (revision_1 ∷ []) (template_of revision_1.raw) ((0, revision_2.raw) ∷ []) start
      (with_pod-Documented cluster cluster-Documented) (with_pod-Listed cluster) web_0_main-known
      refl template_read_1 (omega arith) (omega arith, tt)

-- A patch that adds a label besides.
abbrev label_op : PatchOp
label_op = record {
  operation = codes "add";
  path = codes "/spec/template/metadata/labels/tier";
  text = some (codes "back");
}

abbrev labelling : Json
labelling = record json { create_patch = λ old new. ok (image_op 0 new ∷ label_op ∷ []) }

labelling_ops-HasText : All HasText (image_op 0 revision_2.raw ∷ label_op ∷ [])
labelling_ops-HasText =
    ((λ replaces h. (revision_2.raw, refl)), ((λ replaces h. (codes "back", refl)), tt))

add_is_refused : str_eq label_op.operation (codes "replace") ≡ false
unfolding str_eq
add_is_refused = refl

in_place_update_pod-refused_example :
    (f : Failure) × (in_place_update_pod
        (with_pod cluster)
        labelling
        web
        web_0_main
        revision_2
        (revision_1 ∷ [])
        start
      ≡ value ((some f, pos 0), start))
in_place_update_pod-refused_example =
    in_place_update_pod-refused (with_pod cluster) labelling web web_0_main revision_2 revision_1
      (revision_1 ∷ []) (image_op 0 revision_2.raw ∷ label_op ∷ []) start web_0_main-known refl
      template_not_null labelling_ops-HasText (inr (inl (inl add_is_refused)))

-- The lister's pod has no status yet.
abbrev bare : Platform
bare = record cluster {
  get_pod = λ calls namespace name. ok (record web_0 { containers = main ∷ [] });
}

bare-Documented : RetriesAsDocumented bare
bare-Documented = record { retried = λ S body s. cluster-Documented.retried S body s }

main_given : last_image (main ∷ []) ((0, revision_2.raw) ∷ []) (codes "main") ≡ some revision_2.raw
unfolding str_eq
main_given = refl

web_ungraced : pos_part (grace_of web) ≡ 0
unfolding grace_of
web_ungraced = refl

web_0-Marked : Marked web_0_main
unfolding contains_readiness_gate
web_0-Marked = inl refl

in_place_update_pod-panics_example :
    in_place_update_pod bare json web web_0_main revision_2 (revision_1 ∷ []) start ≡ panic
in_place_update_pod-panics_example =
    in_place_update_pod-panics bare json web web_0_main (record web_0 { containers = main ∷ [] })
      revision_2 revision_1 (revision_1 ∷ []) (template_of revision_1.raw)
      ((0, revision_2.raw) ∷ []) start bare-Documented web_0_main-known refl template_read_1
      (omega arith) (omega arith, tt) web_0-Marked web_ungraced refl
      (inl (revision_2.raw, main_given, tt))
