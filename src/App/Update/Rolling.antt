-- ===== src/App/Update/Rolling.antt =====
-- applyUpdate, the rolling update: from the largest ordinal down to the partition, the first pod
-- that is not at the update revision is updated, and a pod that is not ready yet is waited for.
pub mod OneTarget
pub mod Target
use unicore.Prelude.{
  ℕ, ◌+◌, ◌*◌, ℤ, pos, negsuc, ltb_ℤ, scale, ◌-ℤ◌, if◌then◌else◌, Bool, true, false, not, ◌&&◌,
  ◌||◌, Str, codes, str_eq, is_empty, lookup, get_or_empty, is_some, List, [], ◌∷◌, drop, Option,
  none, some,
}
use mathlib.Core.List.{reverse}
use unicore.Api.{
  App, Pod, PodCondition, AppStatus, RollingUpdate, PodUpdatePolicy, in_place_if_possible,
  condition_true,
}
use unicore.RequeueDuration.{push}
use unicore.App.Readiness.{
  get_pod_ready, get_pod_revision, in_place_update_ready, same_status, second,
}
use unicore.App.Platform.{Platform, World, Failure, not_found, Result, ok, err, Attempt}
use unicore.App.PodControl.{delete_stateful_pod}
use unicore.App.Status.{wrap32}
use unicore.App.Versions.{Outcome, value, panic, ◌>>=◌, deref}
use unicore.App.Update.Replicas.{app_key, push_if_positive}

-- inplace.StatusKey
abbrev pub status_key : Str
status_key = codes "unicore.mcyou.cn/inplace-update-status"

-- The operations of inplace_update.go for one update revision: InPlaceUpdatePod, which may panic,
-- with the seconds to wait, IsInPlaceUpdateDone and CleanUpInPlaceUpdate.
pub record InPlace : Type 0 where
  pub update : App → Pod → World → Outcome ((Option Failure × ℤ) × World)
  pub is_done : Pod → Result Bool
  pub clean_up : Pod → Attempt World

-- What the loop leaves: it goes on to the next target, or the pass returns.
pub record Rolled : Type 0 where
  pub world : World
  pub status : AppStatus
  pub error : Option Failure
  pub returned : Bool

abbrev is_in_place : PodUpdatePolicy → Bool
is_in_place in_place_if_possible = true
is_in_place _ = false

-- `condition.Type == InPlaceUpdateReady && condition.Status != v1.ConditionTrue`
in_place_pending : List PodCondition → Bool
in_place_pending [] = false
in_place_pending (c ∷ cs) =
    (str_eq c.condition_type in_place_update_ready && not (same_status c.status condition_true))
    || in_place_pending cs

abbrev is_not_found : Option Failure → Bool
is_not_found (some not_found) = true
is_not_found _ = false

module _ (p : Platform) (in_place : InPlace) (app : App) (update : Str) (r : RollingUpdate) where
  abbrev returns : World → AppStatus → Option Failure → Rolled
  returns w status e = record { world = w; status = status; error = e; returned = true }

  abbrev continues : World → AppStatus → Rolled
  continues w status = record { world = w; status = status; error = none; returned = false }

  -- The pod is deleted, to be made again from the update revision by a later pass.
  recreate_pod : Pod → World → AppStatus → Rolled
  recreate_pod pod w status =
      let (e, w') = delete_stateful_pod p pod w in
      if is_some e && not (is_not_found e)
      then returns w' status e
      else returns w'
          (record status { current_replicas = wrap32 (status.current_replicas -ℤ pos 1) }) none

  after_in_place : Pod → AppStatus → (Option Failure × ℤ) × World → Rolled
  after_in_place pod status ((none, wait), w) =
      returns (push_if_positive app (scale wait second) w) status none
  after_in_place pod status ((some f, wait), w) = recreate_pod pod w status

  start_update : Pod → World → AppStatus → Outcome Rolled
  start_update pod w status =
      if is_in_place r.pod_update_policy
      then in_place.update app pod w >>= (λ answer. value (after_in_place pod status answer))
      else value (recreate_pod pod w status)

  finish_in_place : Pod → World → AppStatus → Result Bool → Rolled
  finish_in_place pod w status (err f) = returns w status (some f)
  finish_in_place pod w status (ok false) = returns w status none
  finish_in_place pod w status (ok true) =
      let (e, w') = in_place.clean_up pod w in
      if is_some e then returns w' status e else continues w' status

  -- A pod at the update revision, or being deleted.
  await_pod : Pod → World → AppStatus → Rolled
  await_pod pod w status =
      if not (is_empty (get_or_empty (lookup status_key pod.annotations)))
        && in_place_pending pod.conditions
      then finish_in_place pod w status (in_place.is_done pod)
      else if get_pod_ready pod || is_some pod.deletion_timestamp
      then continues w status
      else returns w status none

  unfoldable pub roll_pod : Pod → World → AppStatus → Outcome Rolled
  unfolding start_update after_in_place recreate_pod await_pod finish_in_place in_place_pending
  roll_pod pod w status =
      if not (str_eq (get_pod_revision pod) update) && not (is_some pod.deletion_timestamp)
      then start_update pod w status
      else value (await_pod pod w status)

  unfoldable pub roll_targets : List Pod → World → AppStatus → Outcome Rolled
  roll_targets [] w status = value (continues w status)
  roll_targets (pod ∷ pods) w status = roll_pod pod w status >>= λ now.
      let later = roll_targets pods now.world now.status in
      if now.returned then value now else later

  from_partition : List Pod → World → AppStatus → ℤ → Outcome Rolled
  from_partition replicas w status (pos m) = roll_targets (reverse (drop m replicas)) w status
  from_partition replicas w status (negsuc m) =
      roll_targets (reverse replicas) w status >>= λ rolled.
      if rolled.returned then value rolled else panic

  -- The targets from the last replica down to the partition. With a negative partition the loop
  -- goes on to slot -1.
  unfoldable pub roll : List Pod → World → AppStatus → Outcome Rolled
  unfolding from_partition
  roll replicas w status = do
    partition ← deref r.partition
    from_partition replicas w status partition
