-- ===== src/Examples/Passes.antt =====
-- The actions of the pod controller and the passes of applyUpdate at concrete objects.
use unicore.Prelude.{
  zero, suc, subst, ap, ◌+◌, ◌≤◌, ℤ, pos, ◌≡◌, refl, true, false, Str, codes, List, [], ◌∷◌, ◌++◌,
  drop, Option, none, some, arith, All, inl, inr, str_eq, lookup, insert,
}
use mathlib.Core.List.{reverse}
use unicore.Api.{App, Pod, Claim, no_phase, running}
use unicore.Strings.{split, join, atoi, itoa}
use unicore.App.Identity.{
  get_pvc_from_app, match_app_and_pod, match_app_pvc, get_pod_app_name_and_ordinal,
  get_pod_out_name, get_pvc_out_name,
}
use unicore.App.Readiness.{
  inject_readiness_gate, get_pod_available_and_next_check_interval, get_pod_ready,
  get_pod_ready_condition, find_condition,
}
use unicore.App.Platform.{Result, ok, err, Call, create_pod}
use unicore.App.Platform.Traces.{Extends}
use unicore.App.Platform.Changes.{pod_changes}
use unicore.App.PodControl.{create_stateful_pod}
use unicore.App.PodControl.Effects.{InPlace, CreatesPod, create_stateful_pod_lem}
use unicore.App.Versions.{Returns}
use unicore.App.Versions.Partition.{Partitioned}
use unicore.App.Update.Slots.{ordinal, Slots, fill_slots, filled_slots}
use unicore.App.Update.Slots.Fill
use unicore.App.Update.Slots.Fill.{NonNegative, Placed, place_pods_lem}
use unicore.App.Update.Slots.Complete.{Replicas, fill_slots_lem}
use unicore.App.Update.Replicas.{Pass, visit_replicas}
use unicore.App.Update.Replicas.Ordered.{Passed, visit_replicas_ordered}
use unicore.App.Update.Replicas.Parallel.{create_missing, Fine, visit_replicas_parallel}
use unicore.App.Update.Rolling.{roll}
use unicore.App.Update.Rolling.Target.{LoopOk, roll_lem}
use unicore.App.Update.{apply_update}
use unicore.App.Update.OneChange.{apply_update_ordered}
use unicore.Examples.Data.{
  web, pod_of, web_0, web_pods, web_rolling, web_status, web_0-ordinal, web_5-ordinal, revision_1,
  revision_2,
}
use unicore.Examples.Cluster.{cluster, cluster-Documented, idle, idle-Quiet, start}

web_pods-NonNegative : All NonNegative web_pods
web_pods-NonNegative = (
  (5, ap (λ (r : Str × ℤ). r.1) web_5-ordinal),
  ((0, ap (λ (r : Str × ℤ). r.1) web_0-ordinal), tt),
)

abbrev pub PartitionedIfOk : Result App → Type 0
PartitionedIfOk (ok a) = Partitioned a.spec.update_strategy.rolling
PartitionedIfOk (err f) = Unit {0}

web-Partitioned : (a : App) → ok web ≡ ok a → Partitioned a.spec.update_strategy.rolling
web-Partitioned a e = subst PartitionedIfOk e (pos 0, refl)

abbrev web_slots : Slots
web_slots = some web_0 ∷ none ∷ []

abbrev OrdinalZero : Option (Option Pod) → Type 0
OrdinalZero (some (some pod)) = ordinal pod ≡ pos 0
OrdinalZero _ = Unit {0}

web_slots-InPlace : Fill.InPlace web_slots
web_slots-InPlace zero pod found = subst OrdinalZero found (ap (λ (r : Str × ℤ). r.1) web_0-ordinal)
web_slots-InPlace (suc zero) pod found = cc
web_slots-InPlace (suc (suc j)) pod found = cc

apply_update_ordered_example :
    Returns
      (λ a. pod_changes a.world ≤ pod_changes start + 1)
      (apply_update cluster (λ u rs. idle) web revision_1 revision_2 0 web_pods [] start)
apply_update_ordered_example =
    apply_update_ordered cluster (λ u rs. idle) web revision_1 revision_2 0 2 web_pods [] start
      cluster-Documented idle-Quiet refl refl (omega arith) (0, refl) web-Partitioned
      web_pods-NonNegative

create_stateful_pod_lem_example :
    Extends (CreatesPod web web_0) start (create_stateful_pod cluster web web_0 start).1
    × ((create_stateful_pod cluster web web_0 start).0 ≡ none
        → All (λ (e : Str × Claim). InPlace cluster e.1) (get_pvc_from_app web web_0)
          × (cs : List Call) × ((create_stateful_pod cluster web web_0 start).1.calls
              ≡ cs ++ create_pod (inject_readiness_gate web_0) ∷ [])
          × (cluster.answer cs (create_pod (inject_readiness_gate web_0)) ≡ none))
create_stateful_pod_lem_example = create_stateful_pod_lem cluster web web_0 start

fill_slots_lem_example :
    Returns
      (λ slots.
        Replicas cluster web web (codes "web-1") (codes "web-2") 2 web_slots (filled_slots slots))
      (fill_slots cluster web web (codes "web-1") (codes "web-2") 2 web_slots)
fill_slots_lem_example =
    fill_slots_lem cluster web web (codes "web-1") (codes "web-2") 2 web_slots (omega arith)
      (pos 0, refl) refl web_slots-InPlace

abbrev start_pass : Pass
start_pass = record { world = start; status = web_status; all_available = true; run_err = none }

visit_replicas_ordered_example :
    (pod_changes (visit_replicas cluster web (pos 0) false (web_0 ∷ []) start_pass).world
      ≤ pod_changes start + 1)
    × ((visit_replicas cluster web (pos 0) false (web_0 ∷ []) start_pass).all_available ≡ true
        → (visit_replicas cluster web (pos 0) false (web_0 ∷ []) start_pass).run_err ≡ none
        → All (Passed cluster (pos 0)) (web_0 ∷ [])
          × (pod_changes (visit_replicas cluster web (pos 0) false (web_0 ∷ []) start_pass).world
              ≡ pod_changes start))
visit_replicas_ordered_example =
    visit_replicas_ordered cluster web (pos 0) (web_0 ∷ []) start_pass cluster-Documented

roll_lem_example :
    Returns
      (LoopOk idle (codes "web-2") (reverse (drop 0 web_pods)) start)
      (roll cluster idle web (codes "web-2") web_rolling web_pods start web_status)
roll_lem_example =
    roll_lem cluster idle web (codes "web-2") web_rolling 0 web_pods start web_status idle-Quiet
      refl

-- web-1 is missing, web-0 is available, web-2 is missing, web-3 is being deleted, and web-4 is
-- missing too.
abbrev missing_pod : Str → Pod
missing_pod name = pod_of name [] no_phase []

abbrev leaving : Pod
leaving = record (pod_of (codes "web-3") [] running []) { deletion_timestamp = some 7 }

abbrev available_web : Pod
available_web = record web_0 {
  volumes = record { name = codes "data"; claim = some (codes "data-web-0") } ∷ [];
}

available_web-Fine : Fine cluster web (pos 0) available_web
unfolding match_app_and_pod match_app_pvc get_pod_app_name_and_ordinal split join atoi
    get_pod_available_and_next_check_interval get_pod_out_name itoa str_eq lookup get_pod_ready
    get_pod_ready_condition insert get_pvc_out_name find_condition
available_web-Fine = (refl, refl, refl, refl, refl)

abbrev before_leaving : List Pod
before_leaving = missing_pod (codes "web-1") ∷ available_web ∷ missing_pod (codes "web-2") ∷ []

abbrev later_missing : List Pod
later_missing = missing_pod (codes "web-4") ∷ []

visit_replicas_parallel_example :
    ((visit_replicas cluster web (pos 0) true before_leaving start_pass).world
      ≡ create_missing cluster web before_leaving start)
    × ((visit_replicas cluster web
          (pos 0)
          true
          (before_leaving ++ leaving ∷ later_missing)
          start_pass).world.calls
        ≡ (create_missing cluster web before_leaving start).calls)
visit_replicas_parallel_example =
    visit_replicas_parallel cluster web (pos 0) before_leaving leaving later_missing start_pass
      (inl refl, (inr available_web-Fine, (inl refl, tt))) (refl, inl refl)
