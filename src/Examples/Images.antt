-- ===== src/Examples/Images.antt =====
-- The image daemon at a node with one image of three: "nginx" is missing and cannot be pulled, "redis"
-- is missing, and "docker.io/library/app:1" is there.
use unicore.Prelude.{
  ◌++◌, ◌+◌, ◌≡◌, ◌⊎◌, refl, true, false, not, ◌&&◌, ◌||◌, if◌then◌else◌, Str, codes, str_eq,
  lookup, remove, insert, contains, is_some, Distinct, List, [], ◌∷◌, Option, none, some, All, Map,
}
use unicore.App.Platform.{Failure, other_failure, ok, err}
use unicore.Daemon.Containerd.{Answers, pull_single_image, check_and_pull}
use unicore.Daemon.Containerd.Pulls.{Pulled, check_and_pull_lem}
use unicore.Daemon.Containerd.Names.{on_port, port_image-untagged}
use unicore.Daemon.Containerd.Chars.{ImageChar, check_and_pull-safe}
use unicore.Daemon.{
  get_or_false, ImageInfo, Daemon, Event, added, modified, deleted, start_without_loops, new_daemon,
  register, keys, note_failed, pull_images, always_pull_round, day,
}
use unicore.Daemon.Loops.{next_of, is_due_at}
use unicore.Daemon.Rounds.{
  Lists, still_fails, retrying, next_pull, pull_images_lem, always_pull_round_lem,
}
use unicore.Daemon.Retries.{retry_rounds, fails_in_all, retry_rounds_lem}
use unicore.Daemon.Watch.{last_list, replay, start_lem}
use unicore.Daemon.Threads.{
  always_pull, clearing, list_pull, lists, list_pulled, Node, Step, clears, Steps, stay, go,
  new_node,
}
use unicore.Daemon.Threads.Kept.{
  Forgets, deleted_node, after_pull, retry_kept_lem, deleted_image_returns,
}
use unicore.Daemon.Threads.Failed.{Adds, retry_added_lem}

abbrev nginx : Str
nginx = codes "nginx"

abbrev redis : Str
redis = codes "redis"

abbrev app_1 : Str
app_1 = codes "docker.io/library/app:1"

abbrev on_node : List Str
on_node = app_1 ∷ []

-- The registry does not know nginx.
abbrev no_nginx : Str → Option Failure
no_nginx image =
    if str_eq image (codes "docker.io/library/nginx:latest") then some other_failure else none

abbrev answers : Answers
answers = record { listed = ok on_node; answer = no_nginx; finished = λ l. l }

-- Containerd is down.
abbrev down : Answers
down = record { listed = err other_failure; answer = no_nginx; finished = λ l. l }

-- The registry knows every image.
abbrev all_known : Answers
all_known = record { listed = ok on_node; answer = λ image. none; finished = λ l. l }

answers-Lists : Lists answers on_node
answers-Lists = record { listed = refl; same = λ l k. refl; nothing = refl }

abbrev images : Map ImageInfo
images =
    (nginx, record { always_pull = true; next_pull = none })
    ∷ (app_1, record { always_pull = false; next_pull = none })
    ∷ []

images-Distinct : Distinct images
unfolding str_eq
images-Distinct = ((refl, tt), (tt, tt))

-- nginx is to be retried, and app:1 to be pulled every day.
abbrev busy : Daemon
busy = record {
  always_pull_images = (app_1, some 5) ∷ [];
  retry_images = (nginx, true) ∷ (redis, true) ∷ [];
}

busy-Distinct : Distinct busy.retry_images
unfolding str_eq
busy-Distinct = ((refl, tt), (tt, tt))

check_and_pull_lem_example :
    Pulled answers (nginx ∷ app_1 ∷ []) on_node (check_and_pull answers (nginx ∷ app_1 ∷ []))
check_and_pull_lem_example =
    check_and_pull_lem answers (nginx ∷ app_1 ∷ []) on_node refl (λ k. refl) refl

check_and_pull-safe_example :
    All (All ImageChar) (check_and_pull answers (nginx ∷ codes "a b" ∷ [])).1
check_and_pull-safe_example = check_and_pull-safe answers (nginx ∷ codes "a b" ∷ [])

port_image-untagged_example :
    (pull_single_image no_nginx (codes "app") ≡ (
      no_nginx ((codes "docker.io/library/" ++ codes "app") ++ codes ":latest"),
      ((codes "docker.io/library/" ++ codes "app") ++ codes ":latest") ∷ [],
    ))
    × (pull_single_image no_nginx (on_port (codes "registry.local") (codes "5000") (codes "app"))
        ≡ (
          no_nginx (on_port (codes "registry.local") (codes "5000") (codes "app")),
          on_port (codes "registry.local") (codes "5000") (codes "app") ∷ [],
        ))
port_image-untagged_example =
    port_image-untagged no_nginx (codes "registry.local") (codes "5000") (codes "app") (λ e. cc)
      (
        refl,
        (
          refl,
          (
            refl,
            (
              refl,
              (refl, (refl, (refl, (refl, (refl, (refl, (refl, (refl, (refl, (refl, tt)))))))))),
            ),
          ),
        ),
      )
      (λ e. cc) (refl, (refl, (refl, (refl, tt)))) (λ e. cc) (refl, (refl, (refl, tt)))

pull_images_lem_example :
    ((pull_images answers images new_daemon).0 ≡ none)
    × ((k : Str)
        → next_pull k (pull_images answers images new_daemon).1
          ≡ next_of (lookup k images) (next_pull k new_daemon))
    × ((k : Str)
        → retrying k (pull_images answers images new_daemon).1
          ≡ (is_some (lookup k images) && still_fails answers on_node k || retrying k new_daemon))
pull_images_lem_example =
    pull_images_lem answers on_node answers-Lists images new_daemon images-Distinct

-- Containerd is down in the first round, and nginx is there in the third.
retry_rounds_lem_example :
    retrying nginx (retry_rounds (down ∷ answers ∷ all_known ∷ []) busy)
    ≡ (retrying nginx busy && fails_in_all (down ∷ answers ∷ all_known ∷ []) nginx)
retry_rounds_lem_example =
    retry_rounds_lem (down ∷ answers ∷ all_known ∷ []) busy
      ((λ l k. refl, refl), ((λ l k. refl, refl), ((λ l k. refl, refl), tt))) busy-Distinct nginx

always_pull_round_lem_example :
    (next_pull app_1 (always_pull_round answers 9 busy) ≡ (
      if is_due_at 9 (next_pull app_1 busy) && not (still_fails answers on_node app_1)
      then some (some (9 + day))
      else next_pull app_1 busy))
    × (retrying app_1 (always_pull_round answers 9 busy) ≡ (
        is_due_at 9 (next_pull app_1 busy) && still_fails answers on_node app_1
        || retrying app_1 busy))
always_pull_round_lem_example =
    always_pull_round_lem answers on_node answers-Lists 9 busy (tt, tt) app_1

-- A retry in which redis was pulled is about to forget it.
abbrev clearing_redis : Node
clearing_redis = record { daemon = busy; jobs = clearing [] (redis ∷ []) ∷ [] }

abbrev cleared_redis : Node
cleared_redis = record {
  daemon = record busy { retry_images = (nginx, true) ∷ [] };
  jobs = clearing [] [] ∷ [];
}

clears_redis : Step clearing_redis cleared_redis
unfolding lookup remove str_eq
clears_redis = clears [] [] redis [] [] refl

nginx-retrying : retrying nginx busy ≡ true
unfolding lookup str_eq
nginx-retrying = refl

retry_kept_lem_example :
    (retrying nginx cleared_redis.daemon ≡ true)
    ⊎ ((l : Node) × (i : Node) × (step : Step l i) × Forgets nginx l i step
        × Steps clearing_redis l
        × Steps i cleared_redis)
retry_kept_lem_example =
    retry_kept_lem nginx clearing_redis cleared_redis
      (go clearing_redis cleared_redis stay clears_redis) nginx-retrying

-- app:1 is pulled again when the list is deleted.
abbrev pulling_app_1 : Node
pulling_app_1 = record { daemon = busy; jobs = always_pull (app_1 ∷ []) ∷ [] }

app_1-scheduled : is_some (next_pull app_1 busy) ≡ true
unfolding lookup str_eq
app_1-scheduled = refl

app_1-pulled : contains app_1 (app_1 ∷ []) ≡ true
unfolding str_eq
app_1-pulled = refl

app_1-fine : get_or_false (lookup app_1 []) ≡ false
unfolding lookup
app_1-fine = refl

deleted_image_returns_example :
    Steps pulling_app_1 (deleted_node pulling_app_1)
    × (next_pull app_1 (deleted_node pulling_app_1).daemon ≡ none)
    × Step (deleted_node pulling_app_1) (after_pull 9 [] (app_1 ∷ []) [] [])
    × (next_pull app_1 (after_pull 9 [] (app_1 ∷ []) [] []).daemon ≡ some (some (9 + day)))
deleted_image_returns_example =
    deleted_image_returns app_1 9 pulling_app_1 [] [] (app_1 ∷ []) [] refl (refl, tt)
      app_1-scheduled app_1-pulled app_1-fine

-- The pull of nginx for the new list has failed.
abbrev nginx_failed : Node
nginx_failed = record {
  daemon = record { always_pull_images = []; retry_images = (nginx, true) ∷ [] };
  jobs = [];
}

abbrev images_of_nginx : Map ImageInfo
images_of_nginx = (nginx, record { always_pull = false; next_pull = none }) ∷ []

abbrev listed_nginx : Node
listed_nginx = record { daemon = new_daemon; jobs = list_pull (nginx ∷ []) ∷ [] }

nginx_fails : Steps new_node nginx_failed
unfolding register keys insert note_failed
nginx_fails =
    go listed_nginx nginx_failed (go new_node listed_nginx stay (lists images_of_nginx tt))
      (list_pulled [] [] (nginx ∷ []) ((nginx, true) ∷ []) refl)

nginx_failed-retrying : retrying nginx nginx_failed.daemon ≡ true
unfolding lookup str_eq
nginx_failed-retrying = refl

retry_added_lem_example :
    (retrying nginx nginx_failed.daemon ≡ true
      → (retrying nginx new_node.daemon ≡ true)
        ⊎ ((l : Node) × (i : Node) × (step : Step l i) × Adds nginx l i step
            × Steps new_node l
            × Steps i nginx_failed))
    × ((l : Node) (step : Step nginx_failed l)
        → Adds nginx nginx_failed l step
        → retrying nginx l.daemon ≡ true)
retry_added_lem_example = retry_added_lem nginx new_node nginx_failed nginx_fails

-- Two lists at the start, of which the second counts, then a deletion and the list without nginx.
abbrev events : List Event
events = modified images down ∷ deleted ∷ added images_of_nginx answers ∷ []

start_lem_example :
    ((start_without_loops down (ok (images_of_nginx ∷ images ∷ [])) (ok events) new_daemon).0
      ≡ none)
    × (next_pull nginx
          (start_without_loops down (ok (images_of_nginx ∷ images ∷ [])) (ok events) new_daemon).1
        ≡ replay nginx events
            (next_of (lookup nginx (last_list (images_of_nginx ∷ images ∷ []))) none))
start_lem_example =
    start_lem down (images_of_nginx ∷ images ∷ []) events nginx ((tt, tt), (images-Distinct, tt))
      (images-Distinct, (tt, ((tt, tt), tt)))
