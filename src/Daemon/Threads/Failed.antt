-- ===== src/Daemon/Threads/Failed.antt =====
-- In any order of the goroutines' steps: which step adds an image to those to be retried.
use unicore.Prelude.{
  ℕ, ◌≡◌, refl, ◌∙◌, ap, ◌⊎◌, inl, inr, if◌then◌else◌, Bool, true, false, ◌&&◌, Str, str_eq,
  str_eq_iff, Map, lookup, insert, lookup-insert, lookup-remove, contains, List, [], ◌∷◌, arith,
  Bool-cases,
}
use unicore.Daemon.{Daemon, get_or_false, note_failed, postpone}
use unicore.Daemon.Loops.{lookup-postpone}
use unicore.Daemon.Rounds.{retrying}
use unicore.Daemon.Threads.Kept.{note_failed-keeps}
use unicore.Daemon.Threads.{
  Node, clear_one, Step, lists, list_pulled, retries, retry_pulled, clears, cleared, pulls_due,
  due_pulled, pull_error, forgets_always, forgets_retry, Steps, stay, go,
}

-- The pull reports the image as failed.
abbrev pub IsFailed : Str → Map Bool → Type 0
IsFailed k [] = ⊥
IsFailed k ((j, v) ∷ failed) = (j ≡ k) × (v ≡ true) ⊎ IsFailed k failed

-- The step is the end of a pull of PullImages that reports the image as failed, or the end of a pull
-- of loopAlwaysPull that was asked for the image and reports it as failed.
abbrev pub Adds : Str → (n m : Node) → Step n m → Type 0
Adds k n m (list_pulled before after ks failed e) = IsFailed k failed
Adds k n m (due_pulled before after ks now failed e) =
    (contains k ks ≡ true) × (get_or_false (lookup k failed) ≡ true)
Adds k n m _ = ⊥

note_failed-adds :
    (k : Str) (failed retry : Map Bool)
    → get_or_false (lookup k (note_failed failed retry)) ≡ true
    → (get_or_false (lookup k retry) ≡ true) ⊎ IsFailed k failed
unfolding note_failed
note_failed-adds k [] retry h = inl h
note_failed-adds k ((j, true) ∷ failed) retry h =
    elim (note_failed-adds k failed (insert j true retry) h) [
      | inr later ↦ inr (inr later)
      | inl now ↦ elim (Bool-cases (str_eq j k)) [
        | inl same ↦ inr (inl ((str_eq_iff j k).0 same, refl))
        | inr differ ↦ inl (ground (arith, differ, lookup-insert j k true retry))
      ]
    ]
note_failed-adds k ((j, false) ∷ failed) retry h = elim (note_failed-adds k failed retry h) [
  | inr later ↦ inr (inr later)
  | inl now ↦ inl now
]

if_failed :
    (asked failed : Bool) (o : Bool)
    → (if asked && failed then true else o) ≡ true
    → (o ≡ true) ⊎ (asked ≡ true) × (failed ≡ true)
if_failed true true o h = inr (refl, refl)
if_failed true false o h = inl h
if_failed false failed o h = inl h

postpone-adds :
    (now : ℕ) (failed : Map Bool) (k : Str) (ks : List Str) (d : Daemon)
    → retrying k (postpone now failed ks d) ≡ true
    → (retrying k d ≡ true) ⊎ (contains k ks ≡ true) × (get_or_false (lookup k failed) ≡ true)
postpone-adds now failed k ks d h =
    let at = ap get_or_false (lookup-postpone now failed k ks d).0 in
    if_failed (contains k ks) (get_or_false (lookup k failed)) (retrying k d)
      (ground (arith, at, h))

clear_one-adds :
    (failed : Map Bool) (j k : Str) (d : Daemon)
    → retrying k (clear_one failed j d) ≡ true
    → retrying k d ≡ true
clear_one-adds failed j k d h = ground (arith, h, lookup-remove j k d.retry_images)

retry_added :
    (k : Str) (n m : Node) (step : Step n m)
    → retrying k m.daemon ≡ true
    → (retrying k n.daemon ≡ true) ⊎ Adds k n m step
unfolding lookup
retry_added k n m (lists images watching) h = inl h
retry_added k n m (list_pulled before after ks failed e) h =
    note_failed-adds k failed n.daemon.retry_images h
retry_added k n m retries h = inl h
retry_added k n m (retry_pulled before after ks failed e) h = inl h
retry_added k n m (clears before after j ks failed e) h = inl (clear_one-adds failed j k n.daemon h)
retry_added k n m (cleared before after failed e) h = inl h
retry_added k n m (pulls_due now) h = inl h
retry_added k n m (due_pulled before after ks now failed e) h =
    postpone-adds now failed k ks n.daemon h
retry_added k n m (pull_error before after job e pull) h = inl h
retry_added k n m (forgets_always watching) h = inl h
retry_added k n m (forgets_retry watching) h = cc

note_failed-notes :
    (k : Str) (failed retry : Map Bool)
    → IsFailed k failed
    → get_or_false (lookup k (note_failed failed retry)) ≡ true
unfolding note_failed
note_failed-notes k [] retry h = absurd h
note_failed-notes k ((j, v) ∷ failed) retry (inr later) =
    note_failed-notes k failed (if v then insert j true retry else retry) later
note_failed-notes k ((j, v) ∷ failed) retry (inl (same, bad)) =
    note_failed-keeps k failed (if v then insert j true retry else retry)
      (ground (arith, bad, (str_eq_iff j k).1 same, lookup-insert j k true retry))

marks_retry :
    (k : Str) (n m : Node) (step : Step n m) → Adds k n m step → retrying k m.daemon ≡ true
marks_retry k n m (list_pulled before after ks failed e) h =
    note_failed-notes k failed n.daemon.retry_images h
marks_retry k n m (due_pulled before after ks now failed e) (asked, bad) =
    ap get_or_false (lookup-postpone now failed k ks n.daemon).0 ∙ (rw (asked, bad) refl)
marks_retry k n m (lists images watching) h = absurd h
marks_retry k n m retries h = absurd h
marks_retry k n m (retry_pulled before after ks failed e) h = absurd h
marks_retry k n m (clears before after j ks failed e) h = absurd h
marks_retry k n m (cleared before after failed e) h = absurd h
marks_retry k n m (pulls_due now) h = absurd h
marks_retry k n m (pull_error before after job e pull) h = absurd h
marks_retry k n m (forgets_always watching) h = absurd h
marks_retry k n m (forgets_retry watching) h = absurd h

retry_added_in_run :
    (k : Str) (n m : Node)
    → Steps n m
    → retrying k m.daemon ≡ true
    → (retrying k n.daemon ≡ true)
      ⊎ ((l : Node) × (i : Node) × (step : Step l i) × Adds k l i step × Steps n l × Steps i m)
retry_added_in_run k n m stay h = inl h
retry_added_in_run k n m (go l _ before step) h = elim (retry_added k l m step h) [
  | inr adds ↦ inr (l, m, step, adds, before, stay)
  | inl at ↦ elim (retry_added_in_run k n l before at) [
    | inl first ↦ inl first
    | inr (i, j, one, adds, to, from) ↦ inr (i, j, one, adds, to, go l m from step)
  ]
]

-- In every run of the goroutines, an image that is to be retried at the end was so at the start, or
-- some step of the run is the end of a pull of PullImages or of loopAlwaysPull that reports this very
-- image as failed. And after every such step the image is to be retried.
pub retry_added_lem :
    (k : Str) (n m : Node)
    → Steps n m
    → (retrying k m.daemon ≡ true
        → (retrying k n.daemon ≡ true)
          ⊎ ((l : Node) × (i : Node) × (step : Step l i) × Adds k l i step × Steps n l × Steps i m))
      × ((l : Node) (step : Step m l) → Adds k m l step → retrying k l.daemon ≡ true)
retry_added_lem k n m run = (retry_added_in_run k n m run, λ l step. marks_retry k m l step)
