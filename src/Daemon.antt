-- ===== src/Daemon.antt =====
-- The image daemon, deployer/pkg/daemon: it pulls the images of the node's ImageList, pulls some of
-- them again every day, and retries those that failed.
pub mod Containerd
pub mod Loops
pub mod Rounds
pub mod Retries
pub mod Present
pub mod Watch
pub mod Threads
use unicore.Prelude.{
  ℕ, ◌+◌, ◌*◌, ltb, if◌then◌else◌, Bool, true, false, not, Str, Map, lookup, insert, remove, List,
  [], ◌∷◌, ◌++◌, Option, none, some,
}
use unicore.App.Readiness.{second}
use unicore.App.Platform.{Failure, Result, ok, err}
use unicore.Daemon.Containerd.{Answers, check_and_pull}

-- unicore.ImageInfo, of deployer/api/deployer/v1/imagelist_types.go. A time that is none is the zero
-- time.
pub record ImageInfo : Type 0 where
  pub always_pull : Bool
  pub next_pull : Option ℕ

-- The maps of a Daemon.
pub record Daemon : Type 0 where
  pub always_pull_images : Map (Option ℕ)
  pub retry_images : Map Bool

-- The daemon that New makes.
abbrev pub new_daemon : Daemon
new_daemon = record { always_pull_images = []; retry_images = [] }

-- `m[k]` for a map of Booleans
abbrev pub get_or_false : Option Bool → Bool
get_or_false none = false
get_or_false (some b) = b

unfoldable pub keys {ℓ} : {V : Type ℓ} → Map V → List Str
keys [] = []
keys ((k, v) ∷ m) = k ∷ keys m

unfoldable pub true_keys : Map Bool → List Str
true_keys [] = []
true_keys ((k, v) ∷ m) = let rest = true_keys m in if v then k ∷ rest else rest

-- PullImages, the loop over the list: what is to be pulled every day is noted.
unfoldable pub register : Map ImageInfo → Map (Option ℕ) → Map (Option ℕ)
register [] always = always
register ((k, info) ∷ images) always =
    register images (if info.always_pull then insert k info.next_pull always else always)

-- PullImages, after CheckAndPull: what failed is noted.
unfoldable pub note_failed : Map Bool → Map Bool → Map Bool
note_failed [] retry = retry
note_failed ((k, v) ∷ failed) retry = note_failed failed (if v then insert k true retry else retry)

abbrev pub registered : Map ImageInfo → Daemon → Daemon
registered images d = record d { always_pull_images = register images d.always_pull_images }

record_result : Daemon → Result (Map Bool) → Option Failure × Daemon
record_result d (err f) = (some f, d)
record_result d (ok failed) = (none, record d { retry_images = note_failed failed d.retry_images })

unfoldable pub pull_images : Answers → Map ImageInfo → Daemon → Option Failure × Daemon
unfolding record_result
pull_images c images d = record_result (registered images d) (check_and_pull c (keys images)).0

-- loopRetry, after CheckAndPull: what did not fail again is forgotten.
unfoldable pub clear_pulled : Map Bool → List Str → Map Bool → Map Bool
clear_pulled failed [] retry = retry
clear_pulled failed (k ∷ ks) retry =
    clear_pulled failed ks (if not (get_or_false (lookup k failed)) then remove k retry else retry)

retry_result : Daemon → List Str → Result (Map Bool) → Daemon
retry_result d ks (err f) = d
retry_result d ks (ok failed) = record d { retry_images = clear_pulled failed ks d.retry_images }

-- One round of loopRetry, with its goroutine run to its end. For no images nothing is done.
retry_keys : Answers → Daemon → List Str → Daemon
unfolding retry_result
retry_keys c d [] = d
retry_keys c d (k ∷ ks) = retry_result d (k ∷ ks) (check_and_pull c (k ∷ ks)).0

unfoldable pub retry_round : Answers → Daemon → Daemon
unfolding retry_keys
retry_round c d = retry_keys c d (true_keys d.retry_images)

-- `v.Time.Before(time.Now())`
abbrev pub is_due : ℕ → Option ℕ → Bool
is_due now none = true
is_due now (some t) = ltb t now

unfoldable pub due_keys : ℕ → Map (Option ℕ) → List Str
due_keys now [] = []
due_keys now ((k, t) ∷ m) = let rest = due_keys now m in if is_due now t then k ∷ rest else rest

-- 24 hours
abbrev pub day : ℕ
day = 86400 * second

-- loopAlwaysPull, after CheckAndPull: what failed is noted for a retry, the rest is due in a day.
unfoldable pub postpone : ℕ → Map Bool → List Str → Daemon → Daemon
postpone now failed [] d = d
postpone now failed (k ∷ ks) d = postpone now failed ks (
    if get_or_false (lookup k failed)
    then record d { retry_images = insert k true d.retry_images }
    else record d { always_pull_images = insert k (some (now + day)) d.always_pull_images })

always_result : ℕ → Daemon → List Str → Result (Map Bool) → Daemon
always_result now d ks (err f) = d
always_result now d ks (ok failed) = postpone now failed ks d

always_keys : Answers → ℕ → Daemon → List Str → Daemon
unfolding always_result
always_keys c now d [] = d
always_keys c now d (k ∷ ks) = always_result now d (k ∷ ks) (check_and_pull c (k ∷ ks)).0

-- One round of loopAlwaysPull, with its goroutine run to its end; `now` stands for each reading of
-- the clock in it.
unfoldable pub always_pull_round : Answers → ℕ → Daemon → Daemon
unfolding always_keys
always_pull_round c now d = always_keys c now d (due_keys now d.always_pull_images)

-- The events of the watch, with what containerd answers during the pull.
pub data Event : Type 0 where
  added modified : Map ImageInfo → Answers → Event
  deleted : Event
  other_event : Event

-- The switch of Start. An error of PullImages is only logged.
unfoldable pub handle_event : Event → Daemon → Daemon
handle_event (added images c) d = (pull_images c images d).1
handle_event (modified images c) d = (pull_images c images d).1
handle_event deleted d = new_daemon
handle_event other_event d = d

unfoldable pub handle_all : List Event → Daemon → Daemon
handle_all [] d = d
handle_all (e ∷ es) d = handle_all es (handle_event e d)

-- The last item of the list.
first_pull : Answers → List (Map ImageInfo) → Daemon → Daemon
first_pull c [] d = d
first_pull c (images ∷ []) d = (pull_images c images d).1
first_pull c (images ∷ next ∷ items) d = first_pull c (next ∷ items) d

watch_events : Result (List Event) → Daemon → Option Failure × Daemon
watch_events (err f) d = (some f, d)
watch_events (ok events) d = (none, handle_all events d)

-- Start, without the two loops: `listed` are the ImageLists of the node, `watched` the events until
-- the channel is closed.
unfoldable pub start_without_loops :
    Answers
    → (listed : Result (List (Map ImageInfo))) → (watched : Result (List Event)) → Daemon
    → Option Failure × Daemon
unfolding first_pull watch_events
start_without_loops c (err f) watched d = (some f, d)
start_without_loops c (ok items) watched d = watch_events watched (first_pull c items d)
