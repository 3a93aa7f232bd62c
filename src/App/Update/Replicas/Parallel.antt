-- ===== src/App/Update/Replicas/Parallel.antt =====
-- The loop over the replicas of an app that is managed in parallel.
use unicore.Prelude.{
  ℤ, ◌≡◌, refl, ◌∙◌, ap, sym, subst, ◌⊎◌, inl, inr, Bool, true, false, if◌then◌else◌, is_some, Str,
  codes, List, [], ◌∷◌, ◌++◌, Option, none, some, All, arith, append-nil, Bool-cases,
}
use unicore.Api.{App, Pod, Phase, no_phase, running}
use unicore.App.Identity.{match_app_and_pod, match_app_pvc}
use unicore.App.Readiness.{get_pod_available_and_next_check_interval}
use unicore.App.Platform.{Platform, World, Failure}
use unicore.App.PodControl.{create_stateful_pod}
use unicore.App.Update.Replicas.{
  Pass, Step, go_on, stop, failed_create, note_failure, check_available, check_identity,
  check_terminating, create, by_phase, visit_replica, visit_replicas, push_if_positive,
}

-- The pod is not created yet.
abbrev pub Missing : Pod → Type 0
Missing pod = pod.phase ≡ no_phase

abbrev is_missing : Phase → Bool
is_missing no_phase = true
is_missing _ = false

-- CreateStatefulPod for each missing pod in order, whether those before it failed or not.
abbrev pub create_missing : Platform → App → List Pod → World → World
create_missing p app [] w = w
create_missing p app (pod ∷ pods) w =
    create_missing p app pods
      (if is_missing pod.phase then (create_stateful_pod p app pod w).1 else w)

module _ (p : Platform) (app : App) (m : ℤ) where
  -- The pod is running, and is being deleted or not yet available.
  abbrev pub Waits : Pod → Type 0
  Waits pod =
      (pod.phase ≡ running)
      × ((is_some pod.deletion_timestamp ≡ true)
          ⊎ ((get_pod_available_and_next_check_interval p.now pod m).0 ≡ false))

  -- The pod is running and available, is not being deleted, and has its identity and its volumes.
  abbrev pub Fine : Pod → Type 0
  Fine pod =
      (pod.phase ≡ running)
      × (is_some pod.deletion_timestamp ≡ false)
      × ((get_pod_available_and_next_check_interval p.now pod m).0 ≡ true)
      × (match_app_and_pod app pod ≡ true)
      × (match_app_pvc app pod ≡ true)

  -- The loop goes on after the pod.
  abbrev pub Passes : Pod → Type 0
  Passes pod = Missing pod ⊎ Fine pod

  note_failure-world :
      (condition_type what : Str) (pod : Pod) (e : Option Failure) (s : Pass)
      → (note_failure p app m true condition_type what pod e s).world ≡ s.world
  unfolding note_failure
  note_failure-world condition_type what pod none s = refl
  note_failure-world condition_type what pod (some f) s = refl

  -- The loop after one round.
  abbrev after : List Pod → Step → Pass
  after pods (go_on s) = visit_replicas p app m true pods s
  after pods (stop s) = s

  visit-phase :
      (pod : Pod) (pods : List Pod) (s : Pass) (phase : Phase)
      → pod.phase ≡ phase
      → visit_replicas p app m true (pod ∷ pods) s ≡ after pods (by_phase p app m true phase pod s)
  unfolding visit_replicas visit_replica
  visit-phase pod pods s phase e = ap (λ ph. after pods (by_phase p app m true ph pod s)) e

  create-goes_on :
      (pod : Pod) (s : Pass)
      → (s' : Pass) × (create p app m true pod s ≡ go_on s')
        × (s'.world ≡ (create_stateful_pod p app pod s.world).1)
  unfolding create
  create-goes_on pod s = (
    _,
    refl,
    note_failure-world failed_create (codes "failed to create pod ") pod
        (create_stateful_pod p app pod s.world).0
        (record s { all_available = false; world = (create_stateful_pod p app pod s.world).1 }),
  )

  calls-push : (interval : ℤ) (w : World) → (push_if_positive app interval w).calls ≡ w.calls
  calls-push interval w = ground arith

  check_available-stops :
      (pod : Pod) (s : Pass)
      → (get_pod_available_and_next_check_interval p.now pod m).0 ≡ false
      → (s' : Pass) × (check_available p app m true pod s ≡ stop s')
        × (s'.world.calls ≡ s.world.calls)
  unfolding check_available
  check_available-stops pod s e =
      let interval = (get_pod_available_and_next_check_interval p.now pod m).1 in
      rw e (_, refl, calls-push interval s.world)

  check_terminating-stops :
      (pod : Pod) (s : Pass)
      → Waits pod
      → (s' : Pass) × (check_terminating p app m true pod s ≡ stop s')
        × (s'.world.calls ≡ s.world.calls)
  unfolding check_terminating
  check_terminating-stops pod s (e, w) = elim (Bool-cases (is_some pod.deletion_timestamp)) [
    | inl gone ↦ rw gone (_, refl, refl)
    | inr live ↦ elim w [
      | inl gone ↦ cc
      | inr unavailable ↦ rw live (check_available-stops pod s unavailable)
    ]
  ]

  visit-missing :
      (pod : Pod) (pods : List Pod) (s : Pass)
      → Missing pod
      → (s' : Pass) × (visit_replicas p app m true (pod ∷ pods) s
          ≡ visit_replicas p app m true pods s')
        × (s'.world ≡ (create_stateful_pod p app pod s.world).1)
  unfolding by_phase
  visit-missing pod pods s e =
      let (s', goes, world) = create-goes_on pod s in
      (s', visit-phase pod pods s no_phase e ∙ ap (after pods) goes, world)

  visit_waiting :
      (pod : Pod) (pods : List Pod) (s : Pass)
      → Waits pod
      → (visit_replicas p app m true (pod ∷ pods) s).world.calls ≡ s.world.calls
  unfolding by_phase
  visit_waiting pod pods s waits =
      let (s', stops, same) = check_terminating-stops pod s waits in
      ap (λ (r : Pass). r.world.calls)
        (visit-phase pod pods s running waits.0 ∙ ap (after pods) stops)
      ∙ same

  check_terminating-goes_on :
      (pod : Pod) (s : Pass) → Fine pod → check_terminating p app m true pod s ≡ go_on s
  unfolding check_terminating check_available check_identity
  check_terminating-goes_on pod s (e, live, available, named, volumes) =
      rw live (rw available (rw named (rw volumes refl)))

  -- One pod that the loop goes on after.
  visit_passed :
      (pod : Pod) (pods : List Pod) (s : Pass)
      → Passes pod
      → (s' : Pass) × (visit_replicas p app m true (pod ∷ pods) s
          ≡ visit_replicas p app m true pods s')
        × (s'.world
            ≡ (if is_missing pod.phase then (create_stateful_pod p app pod s.world).1 else s.world))
  unfolding by_phase
  visit_passed pod pods s (inl e) =
      let (s', goes, world) = visit-missing pod pods s e in
      (
        s',
        goes,
        world
            ∙ sym (
                ap (λ b. if b then (create_stateful_pod p app pod s.world).1 else s.world)
                  (ap is_missing e)),
      )
  visit_passed pod pods s (inr fine) = (
    s,
    visit-phase pod pods s running fine.0 ∙ ap (after pods) (check_terminating-goes_on pod s fine),
    sym (
        ap (λ b. if b then (create_stateful_pod p app pod s.world).1 else s.world)
          (ap is_missing fine.0)),
  )

  visit_replicas_passed :
      (passed rest : List Pod) (s : Pass)
      → All Passes passed
      → (s' : Pass) × (visit_replicas p app m true (passed ++ rest) s
          ≡ visit_replicas p app m true rest s')
        × (s'.world ≡ create_missing p app passed s.world)
  visit_replicas_passed [] rest s h = (s, refl, refl)
  visit_replicas_passed (pod ∷ passed) rest s (e, h) =
      let (t, one, created) = visit_passed pod (passed ++ rest) s e in
      let (s', others, all) = visit_replicas_passed passed rest t h in
      (s', one ∙ others, all ∙ ap (create_missing p app passed) created)

-- In an app that is managed in parallel, let each of the first pods be missing, or be running,
-- available, not being deleted and right in its identity and volumes. The loop over the replicas
-- tries to create exactly the missing ones among them, in order and whether or not the ones before
-- could be created. If the next pod is running but being deleted or not available yet, the loop ends
-- there: it makes no call for that pod, nor for any pod after it, missing ones included.
pub visit_replicas_parallel :
    (p : Platform) (app : App) (m : ℤ) (passed : List Pod) (pod : Pod) (rest : List Pod) (s : Pass)
    → All (Passes p app m) passed
    → Waits p app m pod
    → ((visit_replicas p app m true passed s).world ≡ create_missing p app passed s.world)
      × ((visit_replicas p app m true (passed ++ pod ∷ rest) s).world.calls
          ≡ (create_missing p app passed s.world).calls)
unfolding visit_replicas
visit_replicas_parallel p app m passed pod rest s h waits =
    let (t, to_end, all) = visit_replicas_passed p app m passed [] s h in
    let (u, to_pod, same) = visit_replicas_passed p app m passed (pod ∷ rest) s h in
    (
      subst (λ l. (visit_replicas p app m true l s).world ≡ create_missing p app passed s.world)
          (append-nil passed) (ap (λ (r : Pass). r.world) to_end ∙ all),
      ap (λ (r : Pass). r.world.calls) to_pod
          ∙ visit_waiting p app m pod rest u waits
          ∙ ap (λ (w : World). w.calls) same,
    )
