-- ===== src/App/Versions/Partition.antt =====
-- The pods that the controller makes fit their app, and the default strategy is complete.
use unicore.Prelude.{
  ◌⊎◌, ℕ, ◌^◌, ◌<◌, ℤ, pos, ◌≡◌, refl, ap, Bool, true, false, is_some, Str, List, Option, none,
  some, arith, Bool-cases, inl, inr, if◌then◌else◌,
}
use unicore.Api.{App, Pod, RollingUpdate}
use unicore.App.Identity.{
  get_pod_app_name_and_ordinal, get_pod_out_name, match_app_and_pod, match_app_pvc,
  update_pod_identity, update_pod_volume,
}
use unicore.App.Identity.Names.{
  get_pod_app_name_and_ordinal-get_pod_out_name, match_app_and_pod-update_pod_identity,
}
use unicore.App.Identity.Volumes.{match_app_pvc-update_pod_volume}
use unicore.App.Platform.{Platform, Failure, Result, ok, err}
use unicore.App.Status.{is_rolling}
use unicore.App.Versions.{
  Outcome, value, panic, Returns, ◌>>=◌, new_app_pod, is_current_revision_expected,
  new_versioned_pod_for_app, label_revision, set_default_rolling_update_strategy, complete,
  is_unset, lacks_field, with_rolling, expected_by,
}

pub Returns-bind {ℓ κ} :
    {A : Type ℓ} {B : Type κ} (P : A → Type 0) (Q : B → Type 0) (m : Outcome A) (f : A → Outcome B)
    → Returns P m
    → ((a : A) → P a → Returns Q (f a))
    → Returns Q (m >>= f)
Returns-bind P Q (value a) f h k = k a h
Returns-bind P Q panic f h k = absurd h

pub Returns-mono {ℓ} :
    {A : Type ℓ} (P Q : A → Type 0) (m : Outcome A)
    → Returns P m
    → ((a : A) → P a → Returns Q (value a))
    → Returns Q m
Returns-mono P Q (value a) h k = k a h
Returns-mono P Q panic h k = absurd h

pub Returns-if {ℓ} :
    {A : Type ℓ} (P : A → Type 0) (b : Bool) (x y : Outcome A)
    → (b ≡ true → Returns P x)
    → (b ≡ false → Returns P y)
    → Returns P (if b then x else y)
Returns-if P true x y h k = h refl
Returns-if P false x y h k = k refl

pub Returns-ok {ℓ κ} :
    {A : Type ℓ} {B : Type κ} (P : B → Type 0) (r : Result A) (f : Failure → Outcome B)
    (g : A → Outcome B)
    → ((e : Failure) → Returns P (f e))
    → ((a : A) → r ≡ ok a → Returns P (g a))
    → Returns P (elim r [ err e ↦ f e | ok a ↦ g a ])
Returns-ok P (ok a) f g h k = k a refl
Returns-ok P (err e) f g h k = h e

-- The identity and the volumes do not depend on the fields that newAppPod sets besides.
same_name_ordinal :
    (a b : Pod) → a.name ≡ b.name → get_pod_app_name_and_ordinal a ≡ get_pod_app_name_and_ordinal b
unfolding get_pod_app_name_and_ordinal
same_name_ordinal a b e = rw e

new_app_pod-ordinal :
    (p : Platform) (app : App) (n : ℕ)
    → n < 2 ^ 63
    → get_pod_app_name_and_ordinal (new_app_pod p app n) ≡ (app.name, pos n)
unfolding new_app_pod update_pod_volume update_pod_identity
new_app_pod-ordinal p app n h =
    let made = record (p.pod_from_template app) { name = get_pod_out_name app (pos n) } in
    let read = get_pod_app_name_and_ordinal-get_pod_out_name app made n h refl in
    get_pod_app_name_and_ordinal-get_pod_out_name app (new_app_pod p app n) n h
      (ap (λ (r : Str × ℤ). get_pod_out_name app r.1) read)

-- A pod that newAppPod makes for ordinal n, n in the range of an int, is read back as a pod of the app
-- with that ordinal, passes matchAppAndPod and matchAppPVC, and has its name as its hostname.
pub new_app_pod_lem :
    (p : Platform) (app : App) (n : ℕ)
    → n < 2 ^ 63
    → (get_pod_app_name_and_ordinal (new_app_pod p app n) ≡ (app.name, pos n))
      × (match_app_and_pod app (new_app_pod p app n) ≡ true)
      × (match_app_pvc app (new_app_pod p app n) ≡ true)
      × ((new_app_pod p app n).hostname ≡ (new_app_pod p app n).name)
unfolding new_app_pod update_pod_volume match_app_and_pod get_pod_app_name_and_ordinal
new_app_pod_lem p app n h =
    let made = record (p.pod_from_template app) { name = get_pod_out_name app (pos n) } in
    let read = get_pod_app_name_and_ordinal-get_pod_out_name app made n h refl in
    let (matched, named) =
      match_app_and_pod-update_pod_identity app made n h (ap (λ (r : Str × ℤ). r.1) read) in
    (
      new_app_pod-ordinal p app n h,
      matched,
      match_app_pvc-update_pod_volume app _ n (ap (λ (r : Str × ℤ). r.1) named),
      refl,
    )

-- What setDefaultRollingUpdateStrategy keeps of a strategy.
pub record Completes (r s : RollingUpdate) : Type 0 where
  pub partition : (r.partition ≡ none) ⊎ (s.partition ≡ r.partition)
  pub max_unavailable : (r.max_unavailable ≡ none) ⊎ (s.max_unavailable ≡ r.max_unavailable)
  pub pod_update_policy :
      (is_unset r.pod_update_policy ≡ true) ⊎ (s.pod_update_policy ≡ r.pod_update_policy)
  pub min_ready_seconds : (r.min_ready_seconds ≡ none) ⊎ (s.min_ready_seconds ≡ r.min_ready_seconds)
  pub in_place : s.in_place_update_strategy ≡ r.in_place_update_strategy
  pub has_partition : is_some s.partition ≡ true
  pub paused : s.paused ≡ false
  pub unordered_update : s.unordered_update ≡ false

complete-Completes : (r : RollingUpdate) → Completes r (complete r)
unfolding complete
complete-Completes r = ground arith

lacks_field-complete : (r : RollingUpdate) → lacks_field (complete r) ≡ false
unfolding complete
lacks_field-complete r = ground arith

-- setDefaultRollingUpdateStrategy keeps every field that is set, except that it always turns Paused
-- and UnorderedUpdate off; the strategy that it returns has a partition, and an app with that
-- strategy needs no further update.
set_default_rolling_update_strategy_lem :
    (app : App) (r : RollingUpdate)
    → app.spec.update_strategy.rolling ≡ some r
    → Completes r (set_default_rolling_update_strategy app).1
      × ((set_default_rolling_update_strategy
            (with_rolling (set_default_rolling_update_strategy app).1 app)).0
          ≡ false)
unfolding set_default_rolling_update_strategy
set_default_rolling_update_strategy_lem app r e =
    rw e (complete-Completes r, lacks_field-complete r)

-- The strategy of an app from which isCurrentRevisionExpected returns: no rolling update, or one with
-- a partition.
abbrev pub Partitioned : Option RollingUpdate → Type 0
Partitioned none = Unit {0}
Partitioned (some r) = (m : ℤ) × (r.partition ≡ some m)

expected_by-Returns :
    (app : App) (update : Str) (n : ℕ) (slots : List (Option Pod)) (o : Option RollingUpdate)
    → Partitioned o
    → Returns (λ b. Unit {0}) (expected_by app update n slots o)
expected_by-Returns app update n slots none h = tt
expected_by-Returns app update n slots (some r) (m, e) = rw e tt

expected-Returns :
    (app : App) (update : Str) (n : ℕ) (slots : List (Option Pod))
    → Partitioned app.spec.update_strategy.rolling
    → Returns (λ b. Unit {0}) (is_current_revision_expected app update n slots)
unfolding is_current_revision_expected
expected-Returns app update n slots h =
    elim (Bool-cases (is_rolling app.spec.update_strategy.strategy_type)) [
      | inl e ↦ rw e (expected_by-Returns app update n slots app.spec.update_strategy.rolling h)
      | inr e ↦ rw e tt
    ]

made :
    (p : Platform) (current_app update_app : App) (current update : Str) (n : ℕ)
    → n < 2 ^ 63
    → (at_current : Bool)
    → (get_pod_app_name_and_ordinal (
        if at_current
        then label_revision current (new_app_pod p current_app n)
        else label_revision update (new_app_pod p update_app n))).1
      ≡ pos n
unfolding get_pod_app_name_and_ordinal
made p current_app update_app current update n small true =
    ap (λ (r : Str × ℤ). r.1) (new_app_pod-ordinal p current_app n small)
made p current_app update_app current update n small false =
    ap (λ (r : Str × ℤ). r.1) (new_app_pod-ordinal p update_app n small)

-- newVersionedPodForApp does not panic and returns a pod for the given ordinal, n in the range of
-- an int, whichever of the two apps it is made from. The rolling update of the current app, if it
-- has one, has a partition.
pub new_versioned_pod_for_app-Returns :
    (p : Platform) (current_app update_app : App) (current update : Str) (n : ℕ)
    (slots : List (Option Pod))
    → n < 2 ^ 63
    → Partitioned current_app.spec.update_strategy.rolling
    → Returns
        (λ pod. (get_pod_app_name_and_ordinal pod).1 ≡ pos n)
        (new_versioned_pod_for_app p current_app update_app current update n slots)
unfolding new_versioned_pod_for_app
new_versioned_pod_for_app-Returns p current_app update_app current update n slots small h =
    Returns-bind (λ b. Unit {0}) _ (is_current_revision_expected current_app update n slots) _
      (expected-Returns current_app update n slots h)
      (λ at_current _. made p current_app update_app current update n small at_current)
