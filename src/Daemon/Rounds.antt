-- ===== src/Daemon/Rounds.antt =====
-- What PullImages and the rounds of the two loops do to the images to retry and to pull every day.
use unicore.Prelude.{
  ℕ, ◌+◌, ◌≡◌, refl, ◌∙◌, ap, sym, if◌then◌else◌, Bool, true, false, not, ◌&&◌, ◌||◌, Str, Map,
  lookup, is_some, contains, Distinct, List, [], ◌∷◌, Option, none, some, arith,
}
use unicore.App.Platform.{Failure, ok}
use unicore.Daemon.Containerd.{Answers, check_and_pull}
use unicore.Daemon.Containerd.Pulls.{fails, SameImages, missing, check_and_pull_lem}
use unicore.Daemon.Containerd.FailedPulls.{check_and_pull-Distinct}
use unicore.Daemon.{
  ImageInfo, Daemon, get_or_false, keys, true_keys, registered, record_result, pull_images,
  retry_result, retry_keys, retry_round, due_keys, day, always_result, always_keys,
  always_pull_round,
}
use unicore.Daemon.Loops.{
  next_of, lookup-register, lookup-clear_pulled, lookup-note_failed, contains-true_keys, is_due_at,
  contains-due_keys, lookup-postpone,
}

-- containerd lists its images, and the pulls end in some order.
pub record Lists (c : Answers) (names : List Str) : Type 0 where
  pub listed : c.listed ≡ ok names
  pub same : (l : List Str) → SameImages c l
  pub nothing : c.finished [] ≡ []

-- The image is not on the node under its own name, and its pull fails.
abbrev pub still_fails : Answers → List Str → Str → Bool
still_fails c names k = not (contains k names) && fails c.answer k

-- The image is to be retried.
abbrev pub retrying : Str → Daemon → Bool
retrying k d = get_or_false (lookup k d.retry_images)

-- When the image is to be pulled again, if it is pulled every day.
abbrev pub next_pull : Str → Daemon → Option (Option ℕ)
next_pull k d = lookup k d.always_pull_images

reported_bools :
    (a b f : Bool) → get_or_false (if (a && b) && f then some true else none) ≡ (a && (b && f))
reported_bools a b f = ground arith

clear_bools :
    (asked failed still : Bool) (o : Option Bool)
    → asked ≡ get_or_false o
    → failed ≡ (asked && still)
    → get_or_false (if asked && not failed then none else o) ≡ (get_or_false o && still)
clear_bools asked failed still o e f = ground arith

always_bools :
    (asked failed still due : Bool) (t : ℕ) (o : Option (Option ℕ))
    → asked ≡ due
    → failed ≡ (asked && still)
    → (if asked && not failed then some (some t) else o)
      ≡ (if due && not still then some (some t) else o)
always_bools asked failed still due t o e f = ground arith

retry_bools :
    (asked failed still due : Bool) (o : Option Bool)
    → asked ≡ due
    → failed ≡ (asked && still)
    → get_or_false (if asked && failed then some true else o) ≡ (due && still || get_or_false o)
retry_bools asked failed still due o e f = ground arith

contains-keys : {V : Type 0} (k : Str) (m : Map V) → contains k (keys m) ≡ is_some (lookup k m)
unfolding keys lookup
contains-keys k [] = refl
contains-keys k ((j, v) ∷ m) = ground (arith, contains-keys k m)

module _ (c : Answers) (names : List Str) (lists : Lists c names) where
  -- The result of a pull of the images.
  pulled :
      (images : List Str)
      → (failed : Map Bool) × ((check_and_pull c images).0 ≡ ok failed)
        × Distinct failed
        × ((k : Str)
            → get_or_false (lookup k failed) ≡ (contains k images && still_fails c names k))
  pulled images =
      let ((failed, e, reported), asked) =
        check_and_pull_lem c images names lists.listed (lists.same (missing images names))
          lists.nothing in
      (
        failed,
        e,
        check_and_pull-Distinct c images failed e,
        λ k.
            ap get_or_false (reported k)
            ∙ reported_bools (contains k images) (not (contains k names)) (fails c.answer k),
      )

  retry_keys-retrying :
      (d : Daemon) (ks : List Str)
      → ks ≡ true_keys d.retry_images
      → Distinct d.retry_images
      → (k : Str) → retrying k (retry_keys c d ks) ≡ (retrying k d && still_fails c names k)
  unfolding retry_keys retry_result
  retry_keys-retrying d [] e distinct k =
      let to_retry = contains-true_keys k d.retry_images distinct in
      let none_to_retry : retrying k d ≡ false = sym to_retry ∙ ap (contains k) (sym e) in
      rw none_to_retry refl
  retry_keys-retrying d (j ∷ js) e distinct k =
      let (failed, is, _, reported) = pulled (j ∷ js) in
      let to_retry : contains k (j ∷ js) ≡ get_or_false (lookup k d.retry_images) =
        ap (contains k) e ∙ contains-true_keys k d.retry_images distinct in
      ap (λ r. retrying k (retry_result d (j ∷ js) r)) is
      ∙ ap get_or_false (lookup-clear_pulled failed k (j ∷ js) d.retry_images)
      ∙ clear_bools (contains k (j ∷ js)) (get_or_false (lookup k failed)) (still_fails c names k)
          (lookup k d.retry_images) to_retry (reported k)

  retry_keys-always :
      (d : Daemon) (ks : List Str) → (retry_keys c d ks).always_pull_images ≡ d.always_pull_images
  unfolding retry_keys retry_result
  retry_keys-always d [] = refl
  retry_keys-always d (j ∷ js) =
      let (failed, is, _, reported) = pulled (j ∷ js) in
      ap (λ r. (retry_result d (j ∷ js) r).always_pull_images) is

  -- Once containerd lists its images, a round of loopRetry keeps exactly those images to be retried
  -- that are still not on the node and whose pull fails again, and changes nothing else.
  pub retry_round_lem :
      (d : Daemon)
      → Distinct d.retry_images
      → ((k : Str) → retrying k (retry_round c d) ≡ (retrying k d && still_fails c names k))
        × ((retry_round c d).always_pull_images ≡ d.always_pull_images)
  unfolding retry_round
  retry_round_lem d distinct = (
    retry_keys-retrying d (true_keys d.retry_images) refl distinct,
    retry_keys-always d (true_keys d.retry_images),
  )

  -- Once containerd lists its images, PullImages returns no error. It sets the next pull of the
  -- images that the list wants pulled every day, and of no other, and adds to the images to be
  -- retried those of the list that are not on the node and whose pull fails.
  pub pull_images_lem :
      (images : Map ImageInfo) (d : Daemon)
      → Distinct images
      → ((pull_images c images d).0 ≡ none)
        × ((k : Str)
            → next_pull k (pull_images c images d).1 ≡ next_of (lookup k images) (next_pull k d))
        × ((k : Str)
            → retrying k (pull_images c images d).1
              ≡ (is_some (lookup k images) && still_fails c names k || retrying k d))
  unfolding pull_images record_result
  pull_images_lem images d distinct =
      let (failed, is, unique, reported) = pulled (keys images) in
      let result : pull_images c images d ≡ record_result (registered images d) (ok failed) =
        ap (record_result (registered images d)) is in
      (
        ap (λ (r : Option Failure × Daemon). r.0) result,
        λ k.
            ap (λ (r : Option Failure × Daemon). next_pull k r.1) result
            ∙ lookup-register k images d.always_pull_images distinct,
        λ k.
            ap (λ (r : Option Failure × Daemon). retrying k r.1) result
            ∙ lookup-note_failed k failed d.retry_images unique
            ∙ ap (λ b. b || retrying k d)
                (reported k ∙ ap (λ b. b && still_fails c names k) (contains-keys k images)),
      )

  always_keys-lem :
      (now : ℕ) (d : Daemon) (ks : List Str)
      → ks ≡ due_keys now d.always_pull_images
      → Distinct d.always_pull_images
      → (k : Str)
      → (next_pull k (always_keys c now d ks) ≡ (
          if is_due_at now (next_pull k d) && not (still_fails c names k)
          then some (some (now + day))
          else next_pull k d))
        × (retrying k (always_keys c now d ks)
            ≡ (is_due_at now (next_pull k d) && still_fails c names k || retrying k d))
  unfolding always_keys always_result
  always_keys-lem now d [] e distinct k =
      let due = contains-due_keys now k d.always_pull_images distinct in
      let none_due : is_due_at now (next_pull k d) ≡ false = sym due ∙ ap (contains k) (sym e) in
      (rw none_due refl, rw none_due refl)
  always_keys-lem now d (j ∷ js) e distinct k =
      let (failed, is, _, reported) = pulled (j ∷ js) in
      let due : contains k (j ∷ js) ≡ is_due_at now (next_pull k d) =
        ap (contains k) e ∙ contains-due_keys now k d.always_pull_images distinct in
      let (retry, always) = lookup-postpone now failed k (j ∷ js) d in
      (
        ap (λ r. next_pull k (always_result now d (j ∷ js) r)) is
            ∙ always
            ∙ always_bools (contains k (j ∷ js)) (get_or_false (lookup k failed))
                (still_fails c names k) (is_due_at now (next_pull k d)) (now + day) (next_pull k d)
                due (reported k),
        ap (λ r. retrying k (always_result now d (j ∷ js) r)) is
            ∙ ap get_or_false retry
            ∙ retry_bools (contains k (j ∷ js)) (get_or_false (lookup k failed))
                (still_fails c names k) (is_due_at now (next_pull k d)) (lookup k d.retry_images)
                due (reported k),
      )

  -- Once containerd lists its images, a round of loopAlwaysPull puts off by a day the images that are
  -- due and on the node or pulled, and adds those that are not and fail to the images to be retried.
  pub always_pull_round_lem :
      (now : ℕ) (d : Daemon)
      → Distinct d.always_pull_images
      → (k : Str)
      → (next_pull k (always_pull_round c now d) ≡ (
          if is_due_at now (next_pull k d) && not (still_fails c names k)
          then some (some (now + day))
          else next_pull k d))
        × (retrying k (always_pull_round c now d)
            ≡ (is_due_at now (next_pull k d) && still_fails c names k || retrying k d))
  unfolding always_pull_round
  always_pull_round_lem now d distinct k =
      always_keys-lem now d (due_keys now d.always_pull_images) refl distinct k
