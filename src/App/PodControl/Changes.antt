-- ===== src/App/PodControl/Changes.antt =====
-- How many pods each operation of the pod controller creates or deletes: none, or at most one.
use unicore.Prelude.{
  ◌+◌, ◌≤◌, refl, inl, inr, Bool, true, false, Map, [], ◌∷◌, arith, is_some, Bool-cases, not,
  if◌then◌else◌,
}
use unicore.Api.{App, Pod, Claim}
use unicore.App.Identity.{
  get_pvc_from_app, match_app_and_pod, match_app_pvc, update_pod_identity, update_pod_volume,
}
use unicore.App.Readiness.{inject_readiness_gate}
use unicore.App.Platform.{
  Platform, World, Call, create_pod, update_pod, delete_pod, RetriesAsDocumented,
}
use unicore.App.Platform.Traces.{Extends, Extends-refl, Extends-trans, Extends-mono, Extends-call}
use unicore.App.Platform.Changes.{
  IsQuiet, pod_changes, pod_changes-quiet, pod_changes-call, retried-keeps,
}
use unicore.App.PodControl.{
  create_pvc, create_stateful_pod, delete_stateful_pod, update_attempt, send_update,
  update_stateful_pod,
}
use unicore.App.PodControl.Effects.{CreatesFrom, create_pvc_lem}

CreatesFrom-IsQuiet : (m : Map Claim) (c : Call) → CreatesFrom m c → IsQuiet c
CreatesFrom-IsQuiet [] c h = absurd h
CreatesFrom-IsQuiet ((k, t) ∷ m) c (inl e) = rw e
CreatesFrom-IsQuiet ((k, t) ∷ m) c (inr h) = CreatesFrom-IsQuiet m c h

pub create_pvc-IsQuiet :
    (p : Platform) (app : App) (pod : Pod) (w : World)
    → Extends IsQuiet w (create_pvc p app pod w).1
create_pvc-IsQuiet p app pod w =
    let m = get_pvc_from_app app pod in
    Extends-mono (CreatesFrom m) IsQuiet (CreatesFrom-IsQuiet m) (create_pvc_lem p app pod w).0

pub create_stateful_pod-changes :
    (p : Platform) (app : App) (pod : Pod) (w : World)
    → pod_changes (create_stateful_pod p app pod w).1 ≤ pod_changes w + 1
unfolding create_stateful_pod
create_stateful_pod-changes p app pod w =
    let w' = (create_pvc p app pod w).1 in
    let same = pod_changes-quiet (create_pvc-IsQuiet p app pod w) in
    elim (Bool-cases (is_some (create_pvc p app pod w).0)) [
      | inl failed ↦ rw failed (omega (arith, same))
      | inr fine ↦
          rw fine
            (omega (arith, same, pod_changes-call p (create_pod (inject_readiness_gate pod)) w'))
    ]

pub delete_stateful_pod-changes :
    (p : Platform) (pod : Pod) (w : World)
    → pod_changes (delete_stateful_pod p pod w).1 ≤ pod_changes w + 1
unfolding delete_stateful_pod
delete_stateful_pod-changes p pod w = elim (Bool-cases (is_some pod.deletion_timestamp)) [
  | inl gone ↦ rw gone (omega arith)
  | inr live ↦ rw live (pod_changes-call p (delete_pod pod.namespace pod.name) w)
]

send_update-IsQuiet :
    (p : Platform) (b : Bool) (s : World × Pod) → Extends IsQuiet s.0 (send_update p b s).1.0
unfolding send_update
send_update-IsQuiet p false s = Extends-refl s.0
send_update-IsQuiet p true (w, pod) = Extends-call p (update_pod pod) w refl

update_attempt-IsQuiet :
    (p : Platform) (app : App) (s : World × Pod) → Extends IsQuiet s.0 (update_attempt p app s).1.0
unfolding update_attempt
update_attempt-IsQuiet p app (w, pod) =
    let pod1 = if not (match_app_and_pod app pod) then update_pod_identity app pod else pod in
    elim (Bool-cases (match_app_pvc app pod1)) [
      | inl matched ↦
          let pod2 = update_pod_volume app pod1 in
          let claims = create_pvc-IsQuiet p app pod2 w in
          elim (Bool-cases (is_some (create_pvc p app pod2 w).0)) [
            | inl failed ↦ rw matched (rw failed claims)
            | inr fine ↦ rw matched (
                rw fine (
                  Extends-trans claims
                    (send_update-IsQuiet p true ((create_pvc p app pod2 w).1, pod2))))
          ]
      | inr unmatched ↦
          rw unmatched (send_update-IsQuiet p (not (match_app_and_pod app pod)) (w, pod1))
    ]

pub update_stateful_pod-IsQuiet :
    (p : Platform) (app : App) (pod : Pod) (w : World)
    → RetriesAsDocumented p
    → Extends IsQuiet w (update_stateful_pod p app pod w).1
unfolding update_stateful_pod
update_stateful_pod-IsQuiet p app pod w documented =
    retried-keeps (λ (s : World × Pod). Extends IsQuiet w s.0)
      (λ s h. Extends-trans h (update_attempt-IsQuiet p app s))
      (documented.retried (World × Pod) (update_attempt p app) (w, pod)) (Extends-refl w)
