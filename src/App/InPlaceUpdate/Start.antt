-- ===== src/App/InPlaceUpdate/Start.antt =====
-- inplace_update.go, InPlaceUpdatePod: the pod is made not ready, waits for the grace period, and
-- gets its new images. It returns an error and the seconds to wait.
pub mod Written
pub mod Writes
pub mod Seconds
pub mod Phases
pub mod Panics
pub mod Whole
use unicore.Prelude.{
  ℕ, suc, ◌/◌, ◌%◌, ℤ, pos, negsuc, sub_ℕ, ltb_ℤ, ◌+ℤ◌, ◌-ℤ◌, if◌then◌else◌, Bool, true, false, not,
  ◌&&◌, Str, codes, is_empty, is_some, Map, lookup, insert, get_or_empty, List, [], ◌∷◌, Option,
  none, some,
}
use unicore.Api.{
  App, Pod, PodCondition, condition_false, Container, ContainerStatus, Revision, RollingUpdate,
  InPlaceStrategy,
}
use unicore.App.Readiness.{
  in_place_update_ready, revision_label, second, after_seconds, contains_readiness_gate,
  if_condition_false, set_pod_condition,
}
use unicore.App.Status.{is_rolling}
use unicore.App.Platform.{
  Platform, World, Failure, Result, ok, err, Attempt, call, update_pod, update_pod_status,
}
use unicore.App.Versions.{Outcome, value, panic, ◌>>=◌, deref}
use unicore.App.Update.Rolling.{InPlace, status_key}
use unicore.App.InPlaceUpdate.{InPlaceStatus, is_in_place_update_done, clean_up_in_place_update}
use unicore.App.InPlaceUpdate.Images.{Json, images_to_update}

abbrev pub started_condition : ℕ → PodCondition
started_condition now = record {
  condition_type = in_place_update_ready;
  status = condition_false;
  last_transition = some now;
  reason = codes "StartInPlaceUpdate";
}

mark_found : Platform → Result Pod → Attempt World
mark_found p (err f) w = (some f, w)
mark_found p (ok origin) w =
    call p (update_pod_status (set_pod_condition origin (started_condition p.now))) w

mark_attempt : Platform → Pod → Attempt World
unfolding mark_found
mark_attempt p pod w = mark_found p (p.get_pod w.calls pod.namespace pod.name) w

-- The pod's condition is set to false, with retries.
unfoldable pub mark_not_ready : Platform → Pod → Attempt World
unfolding mark_attempt
mark_not_ready p pod w = p.retry_on_conflict World (mark_attempt p pod) w

abbrev grace_in : Option InPlaceStrategy → ℤ
grace_in none = pos 0
grace_in (some s) = s.grace_period_seconds

abbrev grace_by : Option RollingUpdate → ℤ
grace_by none = pos 0
grace_by (some r) = grace_in r.in_place_update_strategy

unfoldable pub grace_of : App → ℤ
grace_of app =
    if is_rolling app.spec.update_strategy.strategy_type
    then grace_by app.spec.update_strategy.rolling
    else pos 0

abbrev pub status_text : Pod → Str
status_text pod = get_or_empty (lookup status_key pod.annotations)

-- int(d.Seconds()) of a duration of nanoseconds, towards 0
abbrev whole_seconds : ℤ → ℤ
whole_seconds (pos n) = pos (n / second)
whole_seconds (negsuc n) = sub_ℕ 0 (suc n / second)

-- The whole seconds from now to the end of the grace period. From the zero time it is the least
-- duration.
unfoldable pub seconds_left : ℕ → ℤ → Option ℕ → ℤ
seconds_left now grace none = negsuc 9223372035
seconds_left now grace (some t) = whole_seconds (after_seconds t grace -ℤ pos now)

-- waitSeconds + waitSeconds%2, for a number of seconds above 0
abbrev pub to_even : ℤ → ℤ
to_even (pos n) = pos n +ℤ pos (n % 2)
to_even (negsuc n) = negsuc n

module _ (p : Platform) (js : Json) (update : Revision) where
  abbrev status_at : Map Str → InPlaceStatus
  status_at ids = record { revision = update.name; update_time = some p.now; old_img_ids = ids }

  abbrev annotated : Map Str → Pod → Pod
  annotated ids pod = record pod {
    annotations = insert status_key (js.write_status (status_at ids)) pod.annotations;
  }

  note_found : Result Pod → Attempt World
  note_found (err f) w = (some f, w)
  note_found (ok origin) w = call p (update_pod_status (annotated [] origin)) w

  note_attempt : Pod → Attempt World
  unfolding note_found
  note_attempt pod w = note_found (p.get_pod w.calls pod.namespace pod.name) w

  -- The start of the grace period is written to the annotation, with retries.
  unfoldable pub note_start : Pod → Attempt World
  unfolding note_attempt
  note_start pod w = p.retry_on_conflict World (note_attempt pod) w

-- mapContainerSpec2Status: the last status of each name
unfoldable pub statuses_by_name : List ContainerStatus → Map ContainerStatus → Map ContainerStatus
statuses_by_name [] m = m
statuses_by_name (v ∷ vs) m = statuses_by_name vs (insert v.name v m)

-- One round of the loop over the containers, with the image that the container is to get and what
-- the later rounds do. A container that is to be changed and has no status is a nil pointer.
change_one :
    Map ContainerStatus
    → Container
    → Map Str
    → Option Str
    → (Map Str → Outcome (List Container × Map Str))
    → Outcome (List Container × Map Str)
change_one statuses c ids none later = later ids >>= λ r. value (c ∷ r.0, r.1)
change_one statuses c ids (some image) later = deref (lookup c.name statuses) >>= λ v.
    later (insert c.name v.container_id ids) >>= λ r. value (record c { image = image } ∷ r.0, r.1)

-- The loop, with the container ids noted so far.
unfoldable pub change_containers :
    Map Str → Map ContainerStatus → List Container → Map Str → Outcome (List Container × Map Str)
unfolding change_one
change_containers images statuses [] ids = value ([], ids)
change_containers images statuses (c ∷ cs) ids =
    change_one statuses c ids (lookup c.name images)
      (λ ids'. change_containers images statuses cs ids')

module _ (p : Platform) (js : Json) (app : App) (update : Revision) (images : Map Str) where
  -- The pod that is written, from the lister's pod.
  unfoldable pub changed_pod : Pod → Outcome Pod
  unfolding statuses_by_name
  changed_pod origin =
      change_containers images (statuses_by_name origin.container_statuses []) origin.containers []
      >>= λ r. value (
          annotated p js update r.1 (record origin {
            labels = insert revision_label app.status.update_revision origin.labels;
            containers = r.0;
          }))

  send_changed : Outcome Pod → World → Option Failure × Outcome World
  send_changed panic w = (none, panic)
  send_changed (value q) w = let (e, w') = call p (update_pod q) w in (e, value w')

  change_found : Result Pod → World → Option Failure × Outcome World
  unfolding send_changed
  change_found (err f) w = (some f, value w)
  change_found (ok origin) w = send_changed (changed_pod origin) w

  -- The closure that writes the pod. A panic in it ends the retries.
  change_attempt : Pod → Attempt (Outcome World)
  unfolding change_found
  change_attempt pod panic = (none, panic)
  change_attempt pod (value w) = change_found (p.get_pod w.calls pod.namespace pod.name) w

  unfoldable pub change_images : Pod → World → Outcome ((Option Failure × ℤ) × World)
  unfolding change_attempt
  change_images pod w =
      let (e, done) = p.retry_on_conflict (Outcome World) (change_attempt pod) (value w) in
      done >>= λ w'. value ((e, pos 0), w')

  wait_or_change : Pod → ℤ → World → Outcome ((Option Failure × ℤ) × World)
  wait_or_change pod wait w =
      if ltb_ℤ (pos 0) wait then value ((none, to_even wait), w) else change_images pod w

  -- With a grace period.
  wait_for_grace : Pod → World → Outcome ((Option Failure × ℤ) × World)
  wait_for_grace pod w =
      let (e, w') = note_start p js update pod w in
      if is_empty (status_text pod)
      then (if is_some e then value ((e, pos 0), w') else wait_or_change pod (grace_of app) w')
      else wait_or_change pod
          (seconds_left p.now (grace_of app) (js.left_in_status (status_text pod)).update_time) w

  -- From the test of the readiness gate on.
  pub with_images : Pod → World → Outcome ((Option Failure × ℤ) × World)
  with_images pod w =
      let (e, w') = mark_not_ready p pod w in
      if contains_readiness_gate pod && not (if_condition_false pod in_place_update_ready)
      then value ((e, pos 0), w')
      else if ltb_ℤ (pos 0) (grace_of app)
      then wait_for_grace pod w
      else change_images pod w

start_with :
    Platform
    → Json
    → App
    → Revision
    → Pod
    → World
    → Result (Map Str)
    → Outcome ((Option Failure × ℤ) × World)
start_with p js app update pod w (err f) = value ((some f, pos 0), w)
start_with p js app update pod w (ok images) = with_images p js app update images pod w

unfoldable pub in_place_update_pod :
    Platform
    → Json
    → App
    → Pod
    → Revision
    → List Revision
    → World
    → Outcome ((Option Failure × ℤ) × World)
unfolding start_with
in_place_update_pod p js app pod update revisions w =
    images_to_update js pod update revisions >>= start_with p js app update pod w

-- The in-place operations that applyUpdate calls.
unfoldable pub in_place_operations : Platform → Json → Revision → List Revision → InPlace
in_place_operations p js update revisions = record {
  update = λ app pod w. in_place_update_pod p js app pod update revisions w;
  is_done = is_in_place_update_done js.read_status;
  clean_up = clean_up_in_place_update p;
}
