-- ===== src/Daemon/Threads/Kept.antt =====
-- In any order of the goroutines' steps: what is kept to be retried, and what comes back.
use unicore.Prelude.{
  is_some, contains, ℕ, ◌+◌, ◌≡◌, refl, ◌∙◌, ap, sym, ◌⊎◌, inl, inr, if◌then◌else◌, Bool, true,
  false, Str, str_eq, str_eq_iff, Map, lookup, remove, insert, lookup-insert, lookup-remove, List,
  [], ◌∷◌, ◌++◌, none, some, arith, Bool-cases,
}
use unicore.Daemon.{Daemon, new_daemon, get_or_false, note_failed, day, postpone}
use unicore.Daemon.Loops.{lookup-postpone}
use unicore.Daemon.Rounds.{retrying, next_pull}
use unicore.Daemon.Threads.{
  Watching, Job, always_pull, Node, clear_one, Step, lists, list_pulled, retries, retry_pulled,
  clears, cleared, pulls_due, due_pulled, pull_error, forgets_always, forgets_retry, Steps, stay,
  go,
}

pub note_failed-keeps :
    (k : Str) (failed retry : Map Bool)
    → get_or_false (lookup k retry) ≡ true
    → get_or_false (lookup k (note_failed failed retry)) ≡ true
unfolding note_failed
note_failed-keeps k [] retry h = h
note_failed-keeps k ((j, v) ∷ failed) retry h =
    note_failed-keeps k failed (if v then insert j true retry else retry)
      (ground (arith, lookup-insert j k true retry))

postpone-keeps :
    (now : ℕ) (failed : Map Bool) (k : Str) (ks : List Str) (d : Daemon)
    → retrying k d ≡ true
    → retrying k (postpone now failed ks d) ≡ true
postpone-keeps now failed k ks d h =
    ap get_or_false (lookup-postpone now failed k ks d).0 ∙ (ground arith)

clear_one-keeps :
    (failed : Map Bool) (j k : Str) (d : Daemon)
    → retrying k d ≡ true
    → (retrying k (clear_one failed j d) ≡ true)
      ⊎ (j ≡ k) × (get_or_false (lookup k failed) ≡ false)
clear_one-keeps failed j k d h = elim (Bool-cases (get_or_false (lookup j failed))) [
  | inl bad ↦ rw bad (inl h)
  | inr fine ↦ elim (Bool-cases (str_eq j k)) [
    | inl same ↦
        let at : j ≡ k = (str_eq_iff j k).0 same in
        inr (at, ap (λ i. get_or_false (lookup i failed)) (sym at) ∙ fine)
    | inr differ ↦
        let kept : lookup k (remove j d.retry_images) ≡ lookup k d.retry_images =
          lookup-remove j k d.retry_images ∙ (rw differ refl) in
        rw fine (inl (ap get_or_false kept ∙ h))
  ]
]

-- The step makes the image forgotten: it is the step of a goroutine of loopRetry for this image, whose
-- pull of it did not fail, or the step of the deletion of the list that empties the images to retry.
abbrev pub Forgets : Str → (n m : Node) → Step n m → Type 0
Forgets k n m (clears before after j ks failed e) =
    (j ≡ k) × (get_or_false (lookup k failed) ≡ false)
Forgets k n m (forgets_retry watching) = Unit {0}
Forgets k n m _ = ⊥

retry_kept :
    (k : Str) (n m : Node) (step : Step n m)
    → retrying k n.daemon ≡ true
    → (retrying k m.daemon ≡ true) ⊎ Forgets k n m step
retry_kept k n m (lists images watching) h = inl h
retry_kept k n m (list_pulled before after ks failed e) h =
    inl (note_failed-keeps k failed n.daemon.retry_images h)
retry_kept k n m retries h = inl h
retry_kept k n m (retry_pulled before after ks failed e) h = inl h
retry_kept k n m (clears before after j ks failed e) h = clear_one-keeps failed j k n.daemon h
retry_kept k n m (cleared before after failed e) h = inl h
retry_kept k n m (pulls_due now) h = inl h
retry_kept k n m (due_pulled before after ks now failed e) h =
    inl (postpone-keeps now failed k ks n.daemon h)
retry_kept k n m (pull_error before after job e pull) h = inl h
retry_kept k n m (forgets_always watching) h = inl h
retry_kept k n m (forgets_retry watching) h = inr tt

-- In every run of the goroutines, an image that is to be retried stays so, unless one step of the run
-- is that of a goroutine of loopRetry that forgets this very image after a pull of it that did not
-- fail, or the deletion of the list. No other step of any goroutine makes it forgotten.
pub retry_kept_lem :
    (k : Str) (n m : Node)
    → Steps n m
    → retrying k n.daemon ≡ true
    → (retrying k m.daemon ≡ true)
      ⊎ ((l : Node) × (i : Node) × (step : Step l i) × Forgets k l i step × Steps n l × Steps i m)
retry_kept_lem k n m stay h = inl h
retry_kept_lem k n m (go l _ before step) h = elim (retry_kept_lem k n l before h) [
  | inr (i, j, one, forgets, to, from) ↦ inr (i, j, one, forgets, to, go l m from step)
  | inl at ↦ elim (retry_kept k l m step at) [
    | inl kept ↦ inl kept
    | inr forgets ↦ inr (l, m, step, forgets, before, stay)
  ]
]

-- The node after the deletion of the list: both maps are empty.
abbrev pub deleted_node : Node → Node
deleted_node n = record n { daemon = new_daemon }

-- The node in which the pull of loopAlwaysPull between `before` and `after` then ends.
abbrev pub after_pull : ℕ → Map Bool → List Str → (before after : List Job) → Node
after_pull now failed ks before after = record {
  daemon = postpone now failed ks new_daemon;
  jobs = before ++ after;
}

-- From every state in which a pull of loopAlwaysPull is under way for an image that is pulled every
-- day, and PullImages is not running, the deletion of the list takes the image out of the map, and
-- the end of that pull, when the image did not fail, puts it there again, due in a day.
pub deleted_image_returns :
    (k : Str) (now : ℕ) (n : Node) (before after : List Job) (ks : List Str) (failed : Map Bool)
    → n.jobs ≡ before ++ always_pull ks ∷ after
    → Watching n.jobs
    → is_some (next_pull k n.daemon) ≡ true
    → contains k ks ≡ true
    → get_or_false (lookup k failed) ≡ false
    → Steps n (deleted_node n)
      × (next_pull k (deleted_node n).daemon ≡ none)
      × Step (deleted_node n) (after_pull now failed ks before after)
      × (next_pull k (after_pull now failed ks before after).daemon ≡ some (some (now + day)))
unfolding lookup
deleted_image_returns k now n before after ks failed under_way watching scheduled in_pull fine =
    let forgot : Node = record n { daemon = record n.daemon { always_pull_images = [] } } in
    (
      go forgot (deleted_node n) (go n forgot stay (forgets_always watching))
          (forgets_retry watching),
      refl,
      due_pulled before after ks now failed under_way,
      (lookup-postpone now failed k ks new_daemon).1 ∙ (rw (in_pull, fine) refl),
    )
