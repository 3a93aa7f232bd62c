-- ===== src/App/InPlaceUpdate.antt =====
-- inplace_update.go: IsInPlaceUpdateDone and CleanUpInPlaceUpdate.
pub mod Finishing
pub mod Images
pub mod Start
use unicore.Prelude.{
  ℕ, ltb, if◌then◌else◌, Bool, true, false, not, ◌||◌, Str, codes, str_eq, Map, lookup, remove,
  get_or_empty, List, [], ◌∷◌, Option, none, some,
}
use unicore.Api.{Pod, PodCondition, ContainerStatus, condition_true}
use unicore.App.Readiness.{in_place_update_ready, set_pod_condition}
use unicore.App.Platform.{
  Platform, World, Failure, Result, ok, err, Attempt, call, update_pod_status,
}
use unicore.App.Update.Rolling.{status_key}

-- The annotation of a pod that is being updated, as it is read from its text.
pub record InPlaceStatus : Type 0 where
  pub revision : Str
  pub update_time : Option ℕ
  pub old_img_ids : Map Str

-- `StartedAt.Time.Before(status.UpdateTimeStamp.Time)`; nothing is before the zero time.
abbrev pub starts_before : ℕ → Option ℕ → Bool
starts_before t none = false
starts_before t (some u) = ltb t u

abbrev is_not_running_since : Option ℕ → Option ℕ → Bool
is_not_running_since none u = true
is_not_running_since (some t) u = starts_before t u

-- One round of the loop: what follows it, or false.
container_done : InPlaceStatus → ContainerStatus → Option Str → Bool → Bool
container_done status v none rest = rest
container_done status v (some old) rest =
    if str_eq old v.image_id
    then false
    else if not v.ready || is_not_running_since v.running_since status.update_time
    then false
    else rest

-- The loop over the container statuses.
all_rebuilt : InPlaceStatus → List ContainerStatus → Bool
all_rebuilt status [] = true
all_rebuilt status (v ∷ vs) =
    container_done status v (lookup v.name status.old_img_ids) (all_rebuilt status vs)

done_by : Result InPlaceStatus → List ContainerStatus → Result Bool
done_by (err f) vs = err f
done_by (ok status) vs = ok (all_rebuilt status vs)

-- `read_status` is json.Unmarshal of the annotation.
unfoldable pub is_in_place_update_done :
    (read_status : Str → Result InPlaceStatus) → Pod → Result Bool
unfolding done_by all_rebuilt container_done
is_in_place_update_done read_status pod =
    done_by (read_status (get_or_empty (lookup status_key pod.annotations))) pod.container_statuses

abbrev done_condition : ℕ → PodCondition
done_condition now = record {
  condition_type = in_place_update_ready;
  status = condition_true;
  last_transition = some now;
  reason = codes "InPlaceUpdateDone";
}

abbrev cleaned : ℕ → Pod → Pod
cleaned now origin =
    let clone = set_pod_condition origin (done_condition now) in
    record clone { annotations = remove status_key clone.annotations }

clean_found : Platform → Result Pod → Attempt World
clean_found p (err f) w = (some f, w)
clean_found p (ok origin) w = call p (update_pod_status (cleaned p.now origin)) w

-- The closure that CleanUpInPlaceUpdate retries.
clean_attempt : Platform → Pod → Attempt World
unfolding clean_found
clean_attempt p pod w = clean_found p (p.get_pod w.calls pod.namespace pod.name) w

unfoldable pub clean_up_in_place_update : Platform → Pod → Attempt World
unfolding clean_attempt
clean_up_in_place_update p pod w = p.retry_on_conflict World (clean_attempt p pod) w
