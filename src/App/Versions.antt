-- ===== src/App/Versions.antt =====
-- state_controller.go and utils.go: which revision a new pod is made from, and the default rolling
-- update strategy.
pub mod Partition
use unicore.Prelude.{
  ℕ, zero, suc, ℤ, pos, ltb_ℤ, ◌+◌, ◌==◌, if◌then◌else◌, Bool, true, false, ◌||◌, not, Str, str_eq,
  lookup, insert, get_or_empty, is_some, List, [], ◌∷◌, Option, none, some,
}
use unicore.Api.{
  App, Pod, RollingUpdate, rolling_update, int_value, PodUpdatePolicy, unset_policy, recreate,
  in_place_if_possible, other_update_policy,
}
use unicore.App.Identity.{get_pod_out_name, update_pod_identity, update_pod_volume}
use unicore.App.Readiness.{revision_label, get_pod_revision}
use unicore.App.Status.{is_rolling}
use unicore.App.Platform.{Platform}

-- The value of a Go expression that may panic.
pub data Outcome {ℓ} (A : Type ℓ) : Type ℓ where
  value : A → Outcome A
  panic : Outcome A

infixl 5 ◌>>=◌
abbrev pub ◌>>=◌ {ℓ κ} : {A : Type ℓ} {B : Type κ} → Outcome A → (A → Outcome B) → Outcome B
value a >>= f = f a
panic >>= f = panic

-- The expression does not panic, and its value satisfies P.
abbrev pub Returns {ℓ} : {A : Type ℓ} → (A → Type 0) → Outcome A → Type 0
Returns P (value a) = P a
Returns P panic = ⊥

-- `*p`
abbrev pub deref {ℓ} : {A : Type ℓ} → Option A → Outcome A
deref none = panic
deref (some a) = value a

unfoldable pub new_app_pod : Platform → App → ℕ → Pod
new_app_pod p app ordinal =
    let made = p.pod_from_template app in
    let named =
      update_pod_identity app (record made { name = get_pod_out_name app (pos ordinal) }) in
    update_pod_volume app
      (record named { hostname = named.name; subdomain = app.spec.service_name })

-- The pods, outside slot `ordinal`, that are not at the update revision: `i` is the slot of the head.
others_not_updated : Str → ℕ → ℕ → List (Option Pod) → ℕ
others_not_updated update ordinal i [] = 0
others_not_updated update ordinal i (none ∷ rest) = others_not_updated update ordinal (suc i) rest
others_not_updated update ordinal i (some pod ∷ rest) =
    let n = others_not_updated update ordinal (suc i) rest in
    if i == ordinal || str_eq (get_pod_revision pod) update then n else n + 1

abbrev expected_by : App → Str → ℕ → List (Option Pod) → Option RollingUpdate → Outcome Bool
expected_by app update ordinal replicas none =
    value (ltb_ℤ (pos ordinal) app.status.current_replicas)
expected_by app update ordinal replicas (some r) = do
  partition ← deref r.partition
  value (
      ltb_ℤ
        (pos (if r.unordered_update then others_not_updated update ordinal 0 replicas else ordinal))
        partition)

unfoldable pub is_current_revision_expected : App → Str → ℕ → List (Option Pod) → Outcome Bool
unfolding others_not_updated
is_current_revision_expected app update ordinal replicas =
    if is_rolling app.spec.update_strategy.strategy_type
    then expected_by app update ordinal replicas app.spec.update_strategy.rolling
    else value false

abbrev label_revision : Str → Pod → Pod
label_revision revision pod = record pod { labels = insert revision_label revision pod.labels }

unfoldable pub new_versioned_pod_for_app :
    Platform → App → App → Str → Str → ℕ → List (Option Pod) → Outcome Pod
new_versioned_pod_for_app p current_app update_app current update ordinal replicas = do
  at_current ← is_current_revision_expected current_app update ordinal replicas
  value (
      if at_current
      then label_revision current (new_app_pod p current_app ordinal)
      else label_revision update (new_app_pod p update_app ordinal))

abbrev or_default {ℓ} : {A : Type ℓ} → Option A → A → A
or_default none d = d
or_default (some a) d = a

abbrev pub is_unset : PodUpdatePolicy → Bool
is_unset unset_policy = true
is_unset _ = false

abbrev default_rolling_update : RollingUpdate
default_rolling_update = record {
  partition = some (pos 0);
  max_unavailable = some (int_value (pos 1));
  pod_update_policy = recreate;
  paused = false;
  unordered_update = false;
  in_place_update_strategy = none;
  min_ready_seconds = some (pos 0);
}

-- `x` or, if it is nil, the default
abbrev filled {ℓ} : {A : Type ℓ} → Option A → Option A → Option A
filled none d = d
filled (some a) d = some a

complete : RollingUpdate → RollingUpdate
complete r = record default_rolling_update {
  partition = filled r.partition default_rolling_update.partition;
  max_unavailable = filled r.max_unavailable default_rolling_update.max_unavailable;
  pod_update_policy =
      if is_unset r.pod_update_policy
      then default_rolling_update.pod_update_policy
      else r.pod_update_policy;
  min_ready_seconds = filled r.min_ready_seconds default_rolling_update.min_ready_seconds;
  in_place_update_strategy =
      filled r.in_place_update_strategy default_rolling_update.in_place_update_strategy;
}

abbrev lacks_field : RollingUpdate → Bool
lacks_field r =
    not (is_some r.partition)
    || not (is_some r.max_unavailable)
    || is_unset r.pod_update_policy
    || not (is_some r.min_ready_seconds)

-- Whether an update is needed, and the strategy to write. `paused` and `unordered_update` are not
-- carried over.
unfoldable pub set_default_rolling_update_strategy : App → Bool × RollingUpdate
unfolding complete
set_default_rolling_update_strategy app = elim app.spec.update_strategy.rolling [
  | none ↦ (true, default_rolling_update)
  | some r ↦ (lacks_field r, complete r)
]

-- `clone.Spec.UpdateStrategy.RollingUpdate = newRollingUpdate`
abbrev pub with_rolling : RollingUpdate → App → App
with_rolling r app = record app {
  spec = record app.spec { update_strategy = record app.spec.update_strategy { rolling = some r } };
}
