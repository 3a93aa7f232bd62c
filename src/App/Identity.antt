-- ===== src/App/Identity.antt =====
-- utils.go: which app and ordinal a pod belongs to, the names of its pod and claims, and its volumes.
-- A Go map is iterated in an unspecified order; here in the order of insertion.
pub mod Names
pub mod Volumes
use unicore.Prelude.{
  ℕ, ℤ, pos, negsuc, ltb, ltb_ℤ, if◌then◌else◌, Bool, true, false, ◌&&◌, Str, codes, str_eq, Map,
  lookup, insert, get_or_empty, is_some, List, [], ◌∷◌, ◌++◌, Option, none, some, length, keep, not,
}
use unicore.Api.{App, Pod, Claim, Volume}
use unicore.Strings.{split, join, but_last, last_or_empty, itoa, atoi}

abbrev pub label_pod_owner_app : Str
label_pod_owner_app = codes "unicore.mcyou.cn/app-name"

abbrev pub label_pod_ordinal : Str
label_pod_ordinal = codes "unicore.mcyou.cn/pod-ordinal"

abbrev pub owner_and_ordinal : List Str → Option ℤ → Str × ℤ
owner_and_ordinal parts none = ([], negsuc 0)
owner_and_ordinal parts (some i) = (join b'-' (but_last parts), i)

unfoldable pub get_pod_app_name_and_ordinal : Pod → Str × ℤ
get_pod_app_name_and_ordinal pod =
    let parts = split b'-' pod.name in
    if ltb (length parts) 2
    then ([], negsuc 0)
    else owner_and_ordinal parts (atoi (last_or_empty parts))

unfoldable pub get_pvc_out_name : App → Str → ℤ → Str
get_pvc_out_name app claim_name ordinal = claim_name ++ b'-' ∷ (app.name ++ b'-' ∷ itoa ordinal)

unfoldable pub get_pod_out_name : App → ℤ → Str
get_pod_out_name app ordinal = app.name ++ b'-' ∷ itoa ordinal

unfoldable pub match_app_and_pod : App → Pod → Bool
match_app_and_pod app pod =
    let (app_name, ordinal) = get_pod_app_name_and_ordinal pod in
    if ltb_ℤ ordinal (pos 0)
    then false
    else str_eq app.name app_name
      && str_eq pod.name (get_pod_out_name app ordinal)
      && str_eq pod.namespace app.namespace
      && str_eq (get_or_empty (lookup label_pod_owner_app pod.labels)) app.name

unfoldable pub update_pod_identity : App → Pod → Pod
update_pod_identity app pod =
    let (owner, ordinal) = get_pod_app_name_and_ordinal pod in
    record pod {
      name = get_pod_out_name app ordinal;
      namespace = app.namespace;
      labels =
          insert label_pod_ordinal (itoa ordinal) (insert label_pod_owner_app app.name pod.labels);
    }

-- The loop of getPVCFromApp over the claim templates.
pvcs_from : App → ℤ → List Claim → Map Claim → Map Claim
pvcs_from app ordinal [] pvcs = pvcs
pvcs_from app ordinal (t ∷ ts) pvcs = pvcs_from app ordinal ts (
    insert t.name
      (record t {
        name = get_pvc_out_name app t.name ordinal;
        namespace = app.namespace;
        labels = app.spec.match_labels;
      })
      pvcs)

pub get_pvc_from_app : App → Pod → Map Claim
unfolding pvcs_from
get_pvc_from_app app pod =
    let (owner, ordinal) = get_pod_app_name_and_ordinal pod in
    pvcs_from app ordinal app.spec.volume_claim_templates []

volumes_by_name : List Volume → Map Volume → Map Volume
volumes_by_name [] index = index
volumes_by_name (v ∷ vs) index = volumes_by_name vs (insert v.name v index)

abbrev has_claim : Str → Option Volume → Bool
has_claim claim_name none = false
has_claim claim_name (some v) = elim v.claim [ none ↦ false | some c ↦ str_eq c claim_name ]

all_claims_match : App → ℤ → Map Volume → List Claim → Bool
all_claims_match app ordinal pod_volumes [] = true
all_claims_match app ordinal pod_volumes (t ∷ ts) =
    has_claim (get_pvc_out_name app t.name ordinal) (lookup t.name pod_volumes)
    && all_claims_match app ordinal pod_volumes ts

unfoldable pub match_app_pvc : App → Pod → Bool
unfolding volumes_by_name all_claims_match
match_app_pvc app pod =
    let (owner, ordinal) = get_pod_app_name_and_ordinal pod in
    if ltb_ℤ ordinal (pos 0)
    then false
    else all_claims_match app ordinal (volumes_by_name pod.volumes [])
        app.spec.volume_claim_templates

claim_volumes : Map Claim → List Volume
claim_volumes [] = []
claim_volumes ((name, c) ∷ m) = record { name = name; claim = some c.name } ∷ claim_volumes m

-- updatePodVolume, and updateVolume, which has the same body.
unfoldable pub update_pod_volume : App → Pod → Pod
unfolding claim_volumes
update_pod_volume app pod =
    let claims = get_pvc_from_app app pod in
    record pod {
      volumes =
          claim_volumes claims ++ keep (λ v. not (is_some (lookup v.name claims))) pod.volumes;
    }
