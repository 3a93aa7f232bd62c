-- ===== src/App/Update/Replicas/Ordered.antt =====
-- The loop over the replicas of an app that is not managed in parallel.
use unicore.Prelude.{
  ℕ, ◌+◌, ◌≤◌, ℤ, ◌≡◌, refl, ◌∙◌, ◌⊎◌, inl, inr, true, false, not, ◌||◌, is_some, List, [], ◌∷◌,
  none, arith, All, Option-cases, Bool-cases,
}
use unicore.Api.{App, Pod, Phase, no_phase, pending, running, succeeded, failed, unknown}
use unicore.App.Identity.{match_app_and_pod, match_app_pvc}
use unicore.App.Readiness.{get_pod_available_and_next_check_interval}
use unicore.App.Platform.{Platform, World, RetriesAsDocumented}
use unicore.App.Platform.Traces.{Extends, Extends-refl}
use unicore.App.Platform.Changes.{IsQuiet, pod_changes, pod_changes-quiet}
use unicore.App.PodControl.{create_pvc, create_stateful_pod, update_stateful_pod}
use unicore.App.PodControl.Changes.{
  create_pvc-IsQuiet, create_stateful_pod-changes, delete_stateful_pod-changes,
  update_stateful_pod-IsQuiet,
}
use unicore.App.Update.Replicas.{
  Pass, Step, go_on, stop, note_failure, check_identity, check_available, check_terminating,
  restart, create, await_claims, by_phase, visit_replica, visit_replicas, push_if_positive,
}

-- The pod is running, ready, available for minReadySeconds, and not being deleted.
pub record Passed (p : Platform) (min_ready : ℤ) (pod : Pod) : Type 0 where
  pub phase : pod.phase ≡ running
  pub live : is_some pod.deletion_timestamp ≡ false
  pub available : (get_pod_available_and_next_check_interval p.now pod min_ready).0 ≡ true

available-running :
    (now : ℕ) (pod : Pod) (m : ℤ)
    → (get_pod_available_and_next_check_interval now pod m).0 ≡ true
    → pod.phase ≡ running
unfolding get_pod_available_and_next_check_interval
available-running now pod m h = ground arith

-- A stop that ends the pass: the code returns after the loop.
abbrev pub Blocked : Pass → Type 0
Blocked s = (s.all_available ≡ false) ⊎ (is_some s.run_err ≡ true)

module _ (p : Platform) (app : App) (m : ℤ) (documented : RetriesAsDocumented p) where
  -- What one round of the loop does from `s`.
  abbrev StepOk : Pod → Pass → Step → Type 0
  StepOk pod s (go_on s') =
      Passed p m pod
      × (s'.all_available ≡ s.all_available)
      × (s'.run_err ≡ s.run_err)
      × Extends IsQuiet s.world s'.world
  StepOk pod s (stop s') = Blocked s' × (pod_changes s'.world ≤ pod_changes s.world + 1)

  check_identity-ok :
      (pod : Pod) (s : Pass) → Passed p m pod → StepOk pod s (check_identity p app m false pod s)
  unfolding check_identity note_failure
  check_identity-ok pod s passed =
      let quiet = update_stateful_pod-IsQuiet p app pod s.world documented in
      elim (Bool-cases (not (match_app_and_pod app pod) || not (match_app_pvc app pod))) [
        | inl mismatch ↦ elim (Option-cases (update_stateful_pod p app pod s.world).0) [
          | inl fine ↦ rw mismatch (rw fine (passed, refl, refl, quiet))
          | inr (f, bad) ↦ rw mismatch (rw bad (inr refl, omega (arith, pod_changes-quiet quiet)))
        ]
        | inr fits ↦ rw fits (passed, refl, refl, Extends-refl s.world)
      ]

  pod_changes-push :
      (interval : ℤ) (w : World) → pod_changes (push_if_positive app interval w) ≡ pod_changes w
  unfolding pod_changes
  pod_changes-push interval w = ground arith

  check_available-ok :
      (pod : Pod) (s : Pass)
      → is_some pod.deletion_timestamp ≡ false
      → StepOk pod s (check_available p app m false pod s)
  unfolding check_available
  check_available-ok pod s live =
      let (available, interval) = get_pod_available_and_next_check_interval p.now pod m in
      elim (Bool-cases available) [
        | inl e ↦ rw e (
            check_identity-ok pod s
              (record { phase = available-running p.now pod m e; live = live; available = e }))
        | inr e ↦ rw e (inl refl, omega (arith, pod_changes-push interval s.world))
      ]

  check_terminating-ok :
      (pod : Pod) (s : Pass) → StepOk pod s (check_terminating p app m false pod s)
  unfolding check_terminating
  check_terminating-ok pod s = elim (Bool-cases (is_some pod.deletion_timestamp)) [
    | inl gone ↦ rw gone (inl refl, omega arith)
    | inr live ↦ rw live (check_available-ok pod s live)
  ]

  restart-ok : (pod : Pod) (s : Pass) → StepOk pod s (restart p app m false pod s)
  unfolding restart
  restart-ok pod s = elim (Bool-cases (is_some pod.deletion_timestamp)) [
    | inl gone ↦ rw gone (inl refl, omega arith)
    | inr live ↦ rw live (inl refl, delete_stateful_pod-changes p pod s.world)
  ]

  create-ok : (pod : Pod) (s : Pass) → StepOk pod s (create p app m false pod s)
  unfolding create note_failure
  create-ok pod s = elim (Option-cases (create_stateful_pod p app pod s.world).0) [
    | inl fine ↦ rw fine (inl refl, create_stateful_pod-changes p app pod s.world)
    | inr (f, bad) ↦ rw bad (inl refl, create_stateful_pod-changes p app pod s.world)
  ]

  -- A pending pod is never passed, so the loop stops at it.
  after_claims :
      (pod : Pod) (s s' : Pass) (step : Step)
      → pod.phase ≡ pending
      → pod_changes s'.world ≡ pod_changes s.world
      → StepOk pod s' step
      → StepOk pod s step
  after_claims pod s s' (go_on t) e same (passed, avail, errs, quiet) = cc (passed.phase)
  after_claims pod s s' (stop t) e same (blocked, few) = (blocked, omega arith)

  await_claims-ok :
      (pod : Pod) (s : Pass) → pod.phase ≡ pending → StepOk pod s (await_claims p app m false pod s)
  unfolding await_claims
  await_claims-ok pod s e =
      let (failure, w) = create_pvc p app pod s.world in
      let same = pod_changes-quiet (create_pvc-IsQuiet p app pod s.world) in
      let s1 : Pass = record s { world = w; all_available = false } in
      elim (Bool-cases (is_some failure)) [
        | inl bad ↦ rw bad (inr bad, omega (arith, same))
        | inr fine ↦ rw fine (
            after_claims pod s s1 (check_terminating p app m false pod s1) e same
              (check_terminating-ok pod s1))
      ]

  by_phase-ok :
      (phase : Phase) (pod : Pod) (s : Pass)
      → pod.phase ≡ phase
      → StepOk pod s (by_phase p app m false phase pod s)
  unfolding by_phase
  by_phase-ok failed pod s e = restart-ok pod s
  by_phase-ok succeeded pod s e = restart-ok pod s
  by_phase-ok no_phase pod s e = create-ok pod s
  by_phase-ok pending pod s e = await_claims-ok pod s e
  by_phase-ok running pod s e = check_terminating-ok pod s
  by_phase-ok unknown pod s e = check_terminating-ok pod s

  visit_replica-ok : (pod : Pod) (s : Pass) → StepOk pod s (visit_replica p app m false pod s)
  unfolding visit_replica
  visit_replica-ok pod s = by_phase-ok pod.phase pod s refl

  -- What the whole loop does from `s`: it is blocked after at most one creation or deletion, or it has
  -- passed every pod and created and deleted none.
  abbrev pub LoopOk : List Pod → Pass → Pass → Type 0
  LoopOk pods s r =
      (Blocked r × (pod_changes r.world ≤ pod_changes s.world + 1))
      ⊎ (All (Passed p m) pods
          × (r.all_available ≡ s.all_available)
          × (r.run_err ≡ s.run_err)
          × (pod_changes r.world ≡ pod_changes s.world))

  after_step :
      (pod : Pod) (pods : List Pod) (s : Pass) (step : Step)
      → StepOk pod s step
      → ((s' : Pass) → LoopOk pods s' (visit_replicas p app m false pods s'))
      → LoopOk
          (pod ∷ pods)
          s
          (elim step [ go_on s' ↦ visit_replicas p app m false pods s' | stop s' ↦ s' ])
  after_step pod pods s (stop t) (blocked, few) later = inl (blocked, few)
  after_step pod pods s (go_on t) (passed, same, no_err, quiet) later = elim (later t) [
    | inl (blocked, few) ↦ inl (blocked, omega (arith, pod_changes-quiet quiet))
    | inr (all, same', no_err', count) ↦
        inr ((passed, all), same' ∙ same, no_err' ∙ no_err, count ∙ pod_changes-quiet quiet)
  ]

  visit_replicas-ok :
      (pods : List Pod) (s : Pass) → LoopOk pods s (visit_replicas p app m false pods s)
  unfolding visit_replicas
  visit_replicas-ok [] s = inr (tt, refl, refl, refl)
  visit_replicas-ok (pod ∷ pods) s =
      after_step pod pods s (visit_replica p app m false pod s) (visit_replica-ok pod s)
        (visit_replicas-ok pods)

-- In an app that is not managed in parallel, with retries as documented, the loop over the
-- replicas creates or deletes at most one pod. If it ends with all of them available and no error,
-- it has created and deleted none, and every replica is running, available for minReadySeconds and
-- not being deleted.
pub visit_replicas_ordered :
    (p : Platform) (app : App) (m : ℤ) (pods : List Pod) (s : Pass)
    → RetriesAsDocumented p
    → let r = visit_replicas p app m false pods s in
      (pod_changes r.world ≤ pod_changes s.world + 1)
      × (r.all_available ≡ true
          → r.run_err ≡ none
          → All (Passed p m) pods × (pod_changes r.world ≡ pod_changes s.world))
visit_replicas_ordered p app m pods s documented =
    elim (visit_replicas-ok p app m documented pods s) [
      | inl (inl waits, few) ↦ (few, λ e n. cc)
      | inl (inr bad, few) ↦ (few, λ e n. let g = rw n at bad in cc)
      | inr (all, avail, errs, same) ↦ (omega (arith, same), λ e n. (all, same))
    ]
