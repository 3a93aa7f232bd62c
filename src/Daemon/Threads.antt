-- ===== src/Daemon/Threads.antt =====
-- The goroutines of the daemon: the watch, the two loops, and the pulls that they have started. A
-- step is what one of them does while it holds a lock, or the end of a pull, which holds none.
pub mod Kept
pub mod Failed
use unicore.Prelude.{
  ℕ, if◌then◌else◌, Bool, true, false, not, Str, Map, lookup, remove, List, [], ◌∷◌, ◌++◌, Option,
  none, some, All, ◌≡◌,
}
use unicore.App.Platform.{Failure, Result, ok, err}
use unicore.Daemon.{
  ImageInfo, Daemon, new_daemon, get_or_false, keys, true_keys, registered, note_failed, due_keys,
  postpone,
}

-- A pull of PullImages, of loopRetry or of loopAlwaysPull that has not ended; and what a goroutine of
-- loopRetry has still to go through.
pub data Job : Type 0 where
  list_pull retry_pull always_pull : List Str → Job
  clearing : (failed : Map Bool) → List Str → Job

pub record Node : Type 0 where
  pub daemon : Daemon
  pub jobs : List Job

abbrev pub new_node : Node
new_node = record { daemon = new_daemon; jobs = [] }

-- `if !failedImages[v] { delete(d.RetryImages, v) }`
abbrev pub clear_one : Map Bool → Str → Daemon → Daemon
clear_one failed k d =
    if not (get_or_false (lookup k failed))
    then record d { retry_images = remove k d.retry_images }
    else d

abbrev pub with_failed : Map Bool → Daemon → Daemon
with_failed failed d = record d { retry_images = note_failed failed d.retry_images }

abbrev pub is_pull : Job → Bool
is_pull (clearing failed ks) = false
is_pull _ = true

abbrev pub is_list_pull : Job → Bool
is_list_pull (list_pull ks) = true
is_list_pull _ = false

-- The watch takes its next event: PullImages has returned.
abbrev pub Watching : List Job → Type 0
Watching jobs = All (λ job. is_list_pull job ≡ false) jobs

-- The steps. A pull ends with any result; `before` and `after` are the other jobs. The locks that the
-- loop of PullImages takes for each image, and the lock of the retries within loopAlwaysPull's last
-- loop, are taken once for the whole loop. A pull of no images,
-- which the code does not start, changes nothing when it ends.
pub data Step (n : Node) : Node → Type 0 where
  lists :
      (images : Map ImageInfo)
      → Watching n.jobs
      → Step n
          (record { daemon = registered images n.daemon; jobs = list_pull (keys images) ∷ n.jobs })
  list_pulled :
      (before after : List Job) (ks : List Str) (failed : Map Bool)
      → n.jobs ≡ before ++ list_pull ks ∷ after
      → Step n (record { daemon = with_failed failed n.daemon; jobs = before ++ after })
  retries : Step n (record n { jobs = retry_pull (true_keys n.daemon.retry_images) ∷ n.jobs })
  retry_pulled :
      (before after : List Job) (ks : List Str) (failed : Map Bool)
      → n.jobs ≡ before ++ retry_pull ks ∷ after
      → Step n (record n { jobs = before ++ clearing failed ks ∷ after })
  clears :
      (before after : List Job) (k : Str) (ks : List Str) (failed : Map Bool)
      → n.jobs ≡ before ++ clearing failed (k ∷ ks) ∷ after
      → Step n (record {
        daemon = clear_one failed k n.daemon;
        jobs = before ++ clearing failed ks ∷ after;
      })
  cleared :
      (before after : List Job) (failed : Map Bool)
      → n.jobs ≡ before ++ clearing failed [] ∷ after
      → Step n (record n { jobs = before ++ after })
  pulls_due :
      (now : ℕ)
      → Step n (record n { jobs = always_pull (due_keys now n.daemon.always_pull_images) ∷ n.jobs })
  due_pulled :
      (before after : List Job) (ks : List Str) (now : ℕ) (failed : Map Bool)
      → n.jobs ≡ before ++ always_pull ks ∷ after
      → Step n (record { daemon = postpone now failed ks n.daemon; jobs = before ++ after })
  pull_error :
      (before after : List Job) (job : Job)
      → n.jobs ≡ before ++ job ∷ after
      → is_pull job ≡ true
      → Step n (record n { jobs = before ++ after })
  forgets_always :
      Watching n.jobs → Step n (record n { daemon = record n.daemon { always_pull_images = [] } })
  forgets_retry :
      Watching n.jobs → Step n (record n { daemon = record n.daemon { retry_images = [] } })

pub data Steps (n : Node) : Node → Type 0 where
  stay : Steps n n
  go : (m l : Node) → Steps n m → Step m l → Steps n l
