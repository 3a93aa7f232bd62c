-- ===== src/App/PodControl.antt =====
-- pod_controller.go: the pods and claims of an app in the cluster. The events that the controller
-- records are left out.
pub mod Effects
pub mod Changes
use unicore.Prelude.{
  Bool, true, false, not, ◌||◌, if◌then◌else◌, Str, Map, is_some, List, [], ◌∷◌, Option, none, some,
}
use unicore.Api.{App, Pod, Claim}
use unicore.App.Identity.{
  get_pvc_from_app, match_app_and_pod, match_app_pvc, update_pod_identity, update_pod_volume,
}
use unicore.App.Readiness.{inject_readiness_gate}
use unicore.App.Platform.{
  Platform, World, Call, create_pod, update_pod, delete_pod, create_claim, Failure, not_found,
  other_failure, Result, ok, err, Attempt, call,
}

-- `fmt.Errorf` around an error that is not nil
abbrev wrap : Option Failure → Option Failure
wrap none = none
wrap (some f) = some other_failure

ensure_claim : Platform → Claim → Result Claim → Attempt World
ensure_claim p template (ok pvc) w =
    (if is_some pvc.deletion_timestamp then some other_failure else none, w)
ensure_claim p template (err not_found) w =
    let (e, w') = call p (create_claim template) w in (wrap e, w')
ensure_claim p template (err _) w = (some other_failure, w)

-- The first error ends the loop of createPVC.
create_claims : Platform → Map Claim → Attempt World
create_claims p [] w = (none, w)
create_claims p ((name, template) ∷ rest) w =
    let (e, w') =
      ensure_claim p template (p.get_claim w.calls template.namespace template.name) w in
    let others = create_claims p rest w' in if is_some e then (e, w') else others

unfoldable pub create_pvc : Platform → App → Pod → Attempt World
unfolding create_claims ensure_claim
create_pvc p app pod = create_claims p (get_pvc_from_app app pod)

unfoldable pub create_stateful_pod : Platform → App → Pod → Attempt World
create_stateful_pod p app pod w =
    let (e, w') = create_pvc p app pod w in
    if is_some e then (e, w') else call p (create_pod (inject_readiness_gate pod)) w'

-- The pod that the next attempt works on: read again after a failed update, if that succeeds.
abbrev reread : Pod → Result Pod → Pod
reread pod (ok fresh) = fresh
reread pod (err _) = pod

send_update : Platform → Bool → Attempt (World × Pod)
send_update p false s = (none, s)
send_update p true (w, pod) =
    let (e, w') = call p (update_pod pod) w in
    (e, (w', if is_some e then reread pod (p.get_pod w'.calls pod.namespace pod.name) else pod))

-- The closure that UpdateStatefulPod retries. It gives the pod new volumes when the volumes match.
update_attempt : Platform → App → Attempt (World × Pod)
unfolding send_update
update_attempt p app (w, pod) =
    let renamed = not (match_app_and_pod app pod) in
    let pod1 = if renamed then update_pod_identity app pod else pod in
    let revolume = match_app_pvc app pod1 in
    let pod2 = if revolume then update_pod_volume app pod1 else pod1 in
    let (e, w') = create_pvc p app pod2 w in
    if revolume
    then (if is_some e then (e, (w', pod2)) else send_update p true (w', pod2))
    else send_update p renamed (w, pod2)

unfoldable pub update_stateful_pod : Platform → App → Pod → Attempt World
unfolding update_attempt
update_stateful_pod p app pod w =
    let (e, s) = p.retry_on_conflict (World × Pod) (update_attempt p app) (w, pod) in (e, s.0)

-- A pod that is already gone counts as deleted.
abbrev ignore_not_found : Option Failure → Option Failure
ignore_not_found (some not_found) = none
ignore_not_found e = e

unfoldable pub delete_stateful_pod : Platform → Pod → Attempt World
delete_stateful_pod p pod w =
    if is_some pod.deletion_timestamp
    then (none, w)
    else let (e, w') = call p (delete_pod pod.namespace pod.name) w in (ignore_not_found e, w')
