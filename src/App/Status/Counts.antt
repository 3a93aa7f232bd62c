-- ===== src/App/Status/Counts.antt =====
-- What the counters of an app's status count.
use unicore.Prelude.{
  ◌%◌, ◌^◌, ◌<◌, ℕ, ◌+◌, ◌≤◌, ℤ, ◌≡◌, Bool, true, ◌&&◌, not, Str, str_eq, is_some, List, [], ◌∷◌,
  arith, length, keep, length-keep-le, ◌∙◌,
}
use unicore.Api.{Pod}
use unicore.App.Readiness.{get_pod_ready, get_pod_available, get_pod_revision, is_running}
use unicore.App.Status.{
  ReplicaStatus, no_replicas, is_created, bump, count_pod, count_pods, calc_replica_status,
}

abbrev count {ℓ} : {A : Type ℓ} → (A → Bool) → List A → ℕ
count p xs = length (keep p xs)

abbrev is_ready : Pod → Bool
is_ready pod = is_running pod.phase && get_pod_ready pod

abbrev has_revision : Str → Pod → Bool
has_revision revision pod = str_eq (get_pod_revision pod) revision

abbrev is_live : Pod → Bool
is_live pod = is_created pod.phase && not (is_some pod.deletion_timestamp)

bump-count {ℓ} :
    {A : Type ℓ} (p : A → Bool) (x : A) (xs : List A) (c : ℕ)
    → (bump (p x) c + count p xs) % 2 ^ 32 ≡ (c + count p (x ∷ xs)) % 2 ^ 32
bump-count p x xs c = ground arith

bump-lt : (b : Bool) (c : ℕ) → c < 2 ^ 32 → bump b c < 2 ^ 32
bump-lt b c h = ground arith

-- Every counter is the bits of an int32.
abbrev IsInt32 : ReplicaStatus → Type 0
IsInt32 r =
    (r.replicas < 2 ^ 32)
    × (r.ready_replicas < 2 ^ 32)
    × (r.available_replicas < 2 ^ 32)
    × (r.current_replicas < 2 ^ 32)
    × (r.updated_replicas < 2 ^ 32)
    × (r.updated_ready_replicas < 2 ^ 32)
    × (r.updated_available_replicas < 2 ^ 32)

-- Fewer pods than an int32 can count.
counted_all {ℓ} :
    {A : Type ℓ} (p : A → Bool) (xs : List A) (c : ℕ)
    → length xs < 2 ^ 31
    → c ≡ (0 + count p xs) % 2 ^ 32
    → c ≡ count p xs
counted_all p xs c small h = omega (arith, h, small, length-keep-le p xs)

module _ (now : ℕ) (m : ℤ) (current update : Str) where
  -- The independent description: each counter is the number of pods with a property.
  abbrev pub Counted : ReplicaStatus → List Pod → Type 0
  Counted r pods =
      (r.replicas ≡ count (λ (p : Pod). is_created p.phase) pods)
      × (r.ready_replicas ≡ count is_ready pods)
      × (r.available_replicas ≡ count (λ p. is_ready p && get_pod_available now p m) pods)
      × (r.current_replicas ≡ count (λ p. is_live p && has_revision current p) pods)
      × (r.updated_replicas ≡ count (λ p. is_live p && has_revision update p) pods)
      × (r.updated_ready_replicas ≡ count (λ p. is_ready p && has_revision update p) pods)
      × (r.updated_available_replicas
          ≡ count (λ p. is_ready p && has_revision update p && get_pod_available now p m) pods)

  -- With the wrap-around of int32, from the counters `ret`.
  abbrev Wrapped : ReplicaStatus → ReplicaStatus → List Pod → Type 0
  Wrapped r ret pods =
      (r.replicas ≡ (ret.replicas + count (λ (p : Pod). is_created p.phase) pods) % 2 ^ 32)
      × (r.ready_replicas ≡ (ret.ready_replicas + count is_ready pods) % 2 ^ 32)
      × (r.available_replicas
          ≡ (ret.available_replicas + count (λ p. is_ready p && get_pod_available now p m) pods)
            % 2 ^ 32)
      × (r.current_replicas
          ≡ (ret.current_replicas + count (λ p. is_live p && has_revision current p) pods) % 2 ^ 32)
      × (r.updated_replicas
          ≡ (ret.updated_replicas + count (λ p. is_live p && has_revision update p) pods) % 2 ^ 32)
      × (r.updated_ready_replicas
          ≡ (ret.updated_ready_replicas + count (λ p. is_ready p && has_revision update p) pods)
            % 2 ^ 32)
      × (r.updated_available_replicas
          ≡ (ret.updated_available_replicas
              + count (λ p. is_ready p && has_revision update p && get_pod_available now p m) pods)
            % 2 ^ 32)

  count_pod-IsInt32 :
      (ret : ReplicaStatus) (pod : Pod)
      → IsInt32 ret
      → IsInt32 (count_pod now m current update ret pod)
  unfolding count_pod
  count_pod-IsInt32 ret pod (s0, s1, s2, s3, s4, s5, s6) = (
    bump-lt _ ret.replicas s0,
    bump-lt _ ret.ready_replicas s1,
    bump-lt _ ret.available_replicas s2,
    bump-lt _ ret.current_replicas s3,
    bump-lt _ ret.updated_replicas s4,
    bump-lt _ ret.updated_ready_replicas s5,
    bump-lt _ ret.updated_available_replicas s6,
  )

  count_pods-Wrapped :
      (ret : ReplicaStatus) (pods : List Pod)
      → IsInt32 ret
      → Wrapped (count_pods now m current update ret pods) ret pods
  unfolding count_pods count_pod
  count_pods-Wrapped ret [] (s0, s1, s2, s3, s4, s5, s6) =
      (omega arith, omega arith, omega arith, omega arith, omega arith, omega arith, omega arith)
  count_pods-Wrapped ret (pod ∷ pods) small =
      let next = count_pod now m current update ret pod in
      let (h0, h1, h2, h3, h4, h5, h6) =
        count_pods-Wrapped next pods (count_pod-IsInt32 ret pod small) in
      (
        h0 ∙ bump-count (λ (p : Pod). is_created p.phase) pod pods ret.replicas,
        h1 ∙ bump-count is_ready pod pods ret.ready_replicas,
        h2
            ∙ bump-count (λ p. is_ready p && get_pod_available now p m) pod pods
                ret.available_replicas,
        h3 ∙ bump-count (λ p. is_live p && has_revision current p) pod pods ret.current_replicas,
        h4 ∙ bump-count (λ p. is_live p && has_revision update p) pod pods ret.updated_replicas,
        h5
            ∙ bump-count (λ p. is_ready p && has_revision update p) pod pods
                ret.updated_ready_replicas,
        h6
            ∙ bump-count (λ p. is_ready p && has_revision update p && get_pod_available now p m) pod
                pods ret.updated_available_replicas,
      )

  -- For fewer than 2 ^ 31 pods, each counter that calcReplicaStatus returns, an int32, is the number of
  -- pods that pass the code's tests: created; running and ready; ready and available, as
  -- getPodAvailable has it, which no pod is for a minReadySeconds of 0; and, of the current or the
  -- update revision, live (created and not being deleted), ready, or ready and available.
  pub calc_replica_status-Counted :
      (pods : List Pod)
      → length pods < 2 ^ 31
      → Counted (calc_replica_status now m current update pods) pods
  unfolding calc_replica_status
  calc_replica_status-Counted pods small =
      let zeros : IsInt32 no_replicas = (
        omega arith,
        omega arith,
        omega arith,
        omega arith,
        omega arith,
        omega arith,
        omega arith,
      ) in
      let (h0, h1, h2, h3, h4, h5, h6) = count_pods-Wrapped no_replicas pods zeros in
      (
        counted_all (λ (p : Pod). is_created p.phase) pods _ small h0,
        counted_all is_ready pods _ small h1,
        counted_all (λ p. is_ready p && get_pod_available now p m) pods _ small h2,
        counted_all (λ p. is_live p && has_revision current p) pods _ small h3,
        counted_all (λ p. is_live p && has_revision update p) pods _ small h4,
        counted_all (λ p. is_ready p && has_revision update p) pods _ small h5,
        counted_all (λ p. is_ready p && has_revision update p && get_pod_available now p m) pods _
            small h6,
      )

count_mono {ℓ} :
    {A : Type ℓ} (p q : A → Bool) (xs : List A)
    → ((x : A) → p x ≡ true → q x ≡ true)
    → count p xs ≤ count q xs
count_mono p q [] h = omega arith
count_mono p q (x ∷ xs) h = ground (arith, h x, count_mono p q xs h)

and_left : (a b : Bool) → (a && b) ≡ true → a ≡ true
and_left a b h = ground arith

and_outer : (a b c : Bool) → (a && b && c) ≡ true → (a && c) ≡ true
and_outer a b c h = ground arith

ready-created : (p : Pod) → is_ready p ≡ true → is_created p.phase ≡ true
ready-created p h = ground arith

module _ (now : ℕ) (m : ℤ) (current update : Str) where
  abbrev calc : List Pod → ReplicaStatus
  calc = calc_replica_status now m current update

  -- For fewer than 2 ^ 31 pods, the counters of calcReplicaStatus are ordered: available and updated-ready pods are ready, ready
  -- pods are created, and pods of the current or the update revision are created.
  pub calc_replica_status_bounds :
      (pods : List Pod)
      → length pods < 2 ^ 31
      → ((calc pods).ready_replicas ≤ (calc pods).replicas)
        × ((calc pods).available_replicas ≤ (calc pods).ready_replicas)
        × ((calc pods).current_replicas ≤ (calc pods).replicas)
        × ((calc pods).updated_replicas ≤ (calc pods).replicas)
        × ((calc pods).updated_ready_replicas ≤ (calc pods).ready_replicas)
        × ((calc pods).updated_available_replicas ≤ (calc pods).updated_ready_replicas)
        × ((calc pods).updated_available_replicas ≤ (calc pods).available_replicas)
        × ((calc pods).replicas ≤ length pods)
  calc_replica_status_bounds pods small =
      let (h0, h1, h2, h3, h4, h5, h6) =
        calc_replica_status-Counted now m current update pods small in
      let created = λ (p : Pod). is_created p.phase in
      let available = λ (p : Pod). get_pod_available now p m in
      let updated = has_revision update in
      (
        omega (arith, h0, h1, count_mono is_ready created pods (λ p e. ready-created p e)),
        omega (
          arith,
          h1,
          h2,
          count_mono (λ p. is_ready p && available p) is_ready pods (λ p e. and_left _ _ e),
        ),
        omega (
          arith,
          h0,
          h3,
          count_mono (λ p. is_live p && has_revision current p) created pods
              (λ p e. and_left _ _ (and_left _ _ e)),
        ),
        omega (
          arith,
          h0,
          h4,
          count_mono (λ p. is_live p && updated p) created pods
              (λ p e. and_left _ _ (and_left _ _ e)),
        ),
        omega (
          arith,
          h1,
          h5,
          count_mono (λ p. is_ready p && updated p) is_ready pods (λ p e. and_left _ _ e),
        ),
        omega (
          arith,
          h5,
          h6,
          count_mono (λ p. is_ready p && updated p && available p) (λ p. is_ready p && updated p)
              pods (λ p e. and_left _ _ e),
        ),
        omega (
          arith,
          h2,
          h6,
          count_mono (λ p. is_ready p && updated p && available p) (λ p. is_ready p && available p)
              pods (λ p e. and_outer (is_ready p) (updated p) (available p) e),
        ),
        omega (arith, h0, length-keep-le created pods),
      )
