-- ===== src/App/Update/ScaleDown.antt =====
-- applyUpdate, the loop that deletes the pods past the replica count, largest ordinal first.
pub mod OneAtATime
use unicore.Prelude.{
  ℕ, suc, ◌==◌, if◌then◌else◌, Bool, true, false, not, ◌&&◌, is_some, List, [], ◌∷◌, Option, none,
  some,
}
use unicore.Api.{Pod}
use unicore.App.Readiness.{get_pod_ready}
use unicore.App.Platform.{Platform, World, Failure}
use unicore.App.PodControl.{delete_stateful_pod}
use unicore.App.Update.Slots.{Place, replica_slot, invalid_slot}

pub record ScaleDown : Type 0 where
  pub world : World
  pub should_exit : Bool
  pub run_err : Option Failure

-- `pod == firstUnhealthyPod` for the invalid pod at position i
abbrev is_first : ℕ → Option Place → Bool
is_first i none = false
is_first i (some (replica_slot j)) = false
is_first i (some (invalid_slot j)) = i == j

module _ (p : Platform) (burstable : Bool) (first_unhealthy : Option Place) where
  -- `i` is the position of the head of the list.
  scale_down_from : ℕ → List Pod → World → ScaleDown
  scale_down_from i [] w = record { world = w; should_exit = false; run_err = none }
  scale_down_from i (pod ∷ pods) w =
      let (e, w') = delete_stateful_pod p pod w in
      let rest = scale_down_from (suc i) pods w' in
      let wait : ScaleDown = record { world = w; should_exit = true; run_err = none } in
      if is_some pod.deletion_timestamp && not burstable
      then wait
      else if not burstable && not (get_pod_ready pod) && not (is_first i first_unhealthy)
      then wait
      else if is_some e
      then record { world = w'; should_exit = true; run_err = e }
      else if not burstable
      then record { world = w'; should_exit = true; run_err = none }
      else rest

  unfoldable pub scale_down : List Pod → World → ScaleDown
  unfolding scale_down_from
  scale_down pods w = scale_down_from 0 pods w
