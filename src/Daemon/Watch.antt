-- ===== src/Daemon/Watch.antt =====
-- What the events of the watch leave in the map of the images to pull every day.
use unicore.Prelude.{
  ℕ, ◌≡◌, refl, ◌∙◌, ap, Bool, Str, Map, lookup, Distinct, List, [], ◌∷◌, Option, none, All,
}
use unicore.App.Platform.{Result, ok, err}
use unicore.Daemon.Containerd.{Answers, check_and_pull}
use unicore.Daemon.{
  ImageInfo, Daemon, new_daemon, keys, registered, record_result, pull_images, Event, added,
  modified, deleted, other_event, handle_event, handle_all, first_pull, watch_events,
  start_without_loops,
}
use unicore.Daemon.Loops.{next_of, lookup-register}
use unicore.Daemon.Rounds.{next_pull}

-- What the events leave as the next pull of one image, from what it was before: a list that wants the
-- image every day sets it, a deletion takes it away, and a list without the image changes nothing.
abbrev pub replay : Str → List Event → Option (Option ℕ) → Option (Option ℕ)
replay k [] before = before
replay k (added images c ∷ es) before = replay k es (next_of (lookup k images) before)
replay k (modified images c ∷ es) before = replay k es (next_of (lookup k images) before)
replay k (deleted ∷ es) before = replay k es none
replay k (other_event ∷ es) before = replay k es before

abbrev pub last_list : List (Map ImageInfo) → Map ImageInfo
last_list [] = []
last_list (images ∷ []) = images
last_list (images ∷ next ∷ items) = last_list (next ∷ items)

-- The list of an event, as every Go map, has no key twice.
abbrev pub IsEvent : Event → Type 0
IsEvent (added images c) = Distinct images
IsEvent (modified images c) = Distinct images
IsEvent _ = Unit {0}

record_result-next :
    (k : Str) (d : Daemon) (r : Result (Map Bool))
    → next_pull k (record_result d r).1 ≡ next_pull k d
unfolding record_result
record_result-next k d (ok failed) = refl
record_result-next k d (err f) = refl

-- Whatever containerd answers, an error included.
pull_images-next :
    (c : Answers) (k : Str) (images : Map ImageInfo) (d : Daemon)
    → Distinct images
    → next_pull k (pull_images c images d).1 ≡ next_of (lookup k images) (next_pull k d)
unfolding pull_images
pull_images-next c k images d h =
    record_result-next k (registered images d) (check_and_pull c (keys images)).0
    ∙ lookup-register k images d.always_pull_images h

handle_all-next :
    (k : Str) (es : List Event) (d : Daemon)
    → All IsEvent es
    → next_pull k (handle_all es d) ≡ replay k es (next_pull k d)
unfolding handle_all handle_event lookup
handle_all-next k [] d h = refl
handle_all-next k (added images c ∷ es) d (h, hs) =
    handle_all-next k es (pull_images c images d).1 hs
    ∙ ap (replay k es) (pull_images-next c k images d h)
handle_all-next k (modified images c ∷ es) d (h, hs) =
    handle_all-next k es (pull_images c images d).1 hs
    ∙ ap (replay k es) (pull_images-next c k images d h)
handle_all-next k (deleted ∷ es) d (h, hs) = handle_all-next k es new_daemon hs
handle_all-next k (other_event ∷ es) d (h, hs) = handle_all-next k es d hs

first_pull-next :
    (c : Answers) (k : Str) (items : List (Map ImageInfo)) (d : Daemon)
    → All Distinct items
    → next_pull k (first_pull c items d) ≡ next_of (lookup k (last_list items)) (next_pull k d)
unfolding first_pull lookup
first_pull-next c k [] d h = refl
first_pull-next c k (images ∷ []) d (h, _) = pull_images-next c k images d h
first_pull-next c k (images ∷ next ∷ items) d (_, hs) = first_pull-next c k (next ∷ items) d hs

-- Of Start without the two loops that it runs beside the watch: when the list and the watch are given,
-- it returns no error after the last event. Whatever containerd answered in between, errors included,
-- the next pull of each image is what the last ImageList at the start and then the events leave: of
-- these, only a list that has the image to be pulled every day sets it, and only a deletion takes it
-- away.
pub start_lem :
    (c : Answers) (items : List (Map ImageInfo)) (events : List Event) (k : Str)
    → All Distinct items
    → All IsEvent events
    → ((start_without_loops c (ok items) (ok events) new_daemon).0 ≡ none)
      × (next_pull k (start_without_loops c (ok items) (ok events) new_daemon).1
          ≡ replay k events (next_of (lookup k (last_list items)) none))
unfolding start_without_loops watch_events lookup
start_lem c items events k h hs = (
  refl,
  handle_all-next k events (first_pull c items new_daemon) hs
      ∙ ap (replay k events) (first_pull-next c k items new_daemon h),
)
