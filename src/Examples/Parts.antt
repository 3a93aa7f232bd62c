-- ===== src/Examples/Parts.antt =====
-- Store, identity, readiness, status and default strategy at concrete objects.
use unicore.Prelude.{
  ap, ◌≤◌, ℤ, pos, ◌≡◌, refl, ◌↔◌, true, false, Str, str_eq, codes, [], ◌∷◌, some, arith, All,
  lookup, ◌≤ℤ◌,
}
use unicore.Strings.{itoa}
use unicore.RequeueDuration.{pop}
use unicore.RequeueDuration.Shortest.{push_all, OneOf, pop-push_all}
use unicore.App.Identity.{
  get_pod_app_name_and_ordinal, get_pod_out_name, match_app_and_pod, update_pod_identity,
  match_app_pvc,
}
use unicore.App.Identity.Names.{
  get_pod_app_name_and_ordinal-get_pod_out_name, match_app_and_pod-update_pod_identity,
}
use unicore.App.Status.{calc_replica_status}
use unicore.App.Status.Counts.{Counted, calc_replica_status-Counted, calc_replica_status_bounds}
use unicore.App.Versions.{new_app_pod}
use unicore.App.Versions.Partition.{new_app_pod_lem}
use unicore.Examples.Data.{web_5-ordinal, web, web_0, web_5, web_pods}
use unicore.Examples.Cluster.{cluster}
use unicore.App.Platform.{ok}
use unicore.Api.{ContainerStatus}
use unicore.App.InPlaceUpdate.{InPlaceStatus, is_in_place_update_done}
use unicore.App.InPlaceUpdate.Finishing.{Rebuilt, is_in_place_update_done_iff}

pop-push_all_example :
    OneOf
      (pop (codes "prod/web") (push_all (codes "prod/web") (pos 9 ∷ pos 4 ∷ pos 7 ∷ []) [])).0
      (pos 9 ∷ pos 4 ∷ pos 7 ∷ [])
    × All
        (λ e.
          (pop (codes "prod/web") (push_all (codes "prod/web") (pos 9 ∷ pos 4 ∷ pos 7 ∷ []) [])).0
          ≤ℤ e)
        (pos 9 ∷ pos 4 ∷ pos 7 ∷ [])
    × ((pop
          (codes "prod/web")
          (pop
            (codes "prod/web")
            (push_all (codes "prod/web") (pos 9 ∷ pos 4 ∷ pos 7 ∷ []) [])).1).0
        ≡ pos 0)
    × ((j : Str)
        → str_eq (codes "prod/web") j ≡ false
        → lookup j
            (pop (codes "prod/web") (push_all (codes "prod/web") (pos 9 ∷ pos 4 ∷ pos 7 ∷ []) [])).1
          ≡ lookup j [])
unfolding lookup
pop-push_all_example =
    pop-push_all (codes "prod/web") (pos 9) (pos 4 ∷ pos 7 ∷ []) [] refl (refl, (refl, (refl, tt)))

get_pod_app_name_and_ordinal-get_pod_out_name_example :
    get_pod_app_name_and_ordinal web_0 ≡ (codes "web", pos 0)
unfolding get_pod_out_name itoa
get_pod_app_name_and_ordinal-get_pod_out_name_example =
    get_pod_app_name_and_ordinal-get_pod_out_name web web_0 0 (omega arith) refl

match_app_and_pod-update_pod_identity_example :
    (match_app_and_pod web (update_pod_identity web web_5) ≡ true)
    × (get_pod_app_name_and_ordinal (update_pod_identity web web_5) ≡ (codes "web", pos 5))
match_app_and_pod-update_pod_identity_example =
    match_app_and_pod-update_pod_identity web web_5 5 (omega arith)
      (ap (λ (r : Str × ℤ). r.1) web_5-ordinal)

calc_replica_status-Counted_example :
    Counted 5000000000
      (pos 3)
      (codes "web-1")
      (codes "web-2")
      (calc_replica_status 5000000000 (pos 3) (codes "web-1") (codes "web-2") web_pods)
      web_pods
calc_replica_status-Counted_example =
    calc_replica_status-Counted 5000000000 (pos 3) (codes "web-1") (codes "web-2") web_pods
      (omega arith)

calc_replica_status_bounds_example :
    let r = calc_replica_status 5000000000 (pos 3) (codes "web-1") (codes "web-2") web_pods in
    (r.ready_replicas ≤ r.replicas)
    × (r.available_replicas ≤ r.ready_replicas)
    × (r.current_replicas ≤ r.replicas)
    × (r.updated_replicas ≤ r.replicas)
    × (r.updated_ready_replicas ≤ r.ready_replicas)
    × (r.updated_available_replicas ≤ r.updated_ready_replicas)
    × (r.updated_available_replicas ≤ r.available_replicas)
    × (r.replicas ≤ 2)
calc_replica_status_bounds_example =
    calc_replica_status_bounds 5000000000 (pos 3) (codes "web-1") (codes "web-2") web_pods
      (omega arith)

new_app_pod_lem_example :
    (get_pod_app_name_and_ordinal (new_app_pod cluster web 1) ≡ (codes "web", pos 1))
    × (match_app_and_pod web (new_app_pod cluster web 1) ≡ true)
    × (match_app_pvc web (new_app_pod cluster web 1) ≡ true)
    × ((new_app_pod cluster web 1).hostname ≡ (new_app_pod cluster web 1).name)
new_app_pod_lem_example = new_app_pod_lem cluster web 1 (omega arith)

-- A container that was rebuilt after the update.
abbrev rebuilt : ContainerStatus
rebuilt = record {
  name = codes "main";
  container_id = codes "c2";
  image_id = codes "i2";
  ready = true;
  running_since = some 9;
}

abbrev noted : InPlaceStatus
noted = record {
  revision = codes "web-2";
  update_time = some 5;
  old_img_ids = (codes "main", codes "c1") ∷ [];
}

is_in_place_update_done_iff_example :
    (is_in_place_update_done (λ text. ok noted) (record web_0 { container_statuses = rebuilt ∷ [] })
      ≡ ok true)
    ↔ All (Rebuilt noted) (rebuilt ∷ [])
is_in_place_update_done_iff_example =
    is_in_place_update_done_iff (λ text. ok noted)
      (record web_0 { container_statuses = rebuilt ∷ [] }) noted refl
