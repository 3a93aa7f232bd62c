-- ===== src/Daemon/Retries.antt =====
-- Several rounds of loopRetry, one after another.
use unicore.Prelude.{
  if_either, ◌≡◌, refl, ◌∙◌, ap, if◌then◌else◌, Bool, true, not, ◌&&◌, Str, Map, lookup, remove,
  Distinct, Distinct-remove, List, [], ◌∷◌, All, arith,
}
use unicore.App.Platform.{Failure, Result, ok, err}
use unicore.Daemon.Containerd.{Answers, check_and_pull}
use unicore.Daemon.Containerd.Pulls.{SameImages}
use unicore.Daemon.Containerd.FailedPulls.{check_and_pull-unlisted}
use unicore.Daemon.{
  Daemon, get_or_false, true_keys, clear_pulled, retry_result, retry_keys, retry_round,
}
use unicore.Daemon.Rounds.{still_fails, retrying, retry_round_lem}

-- The pulls of the round end in some order.
abbrev pub Ends : Answers → Type 0
Ends c = ((l : List Str) → SameImages c l) × (c.finished [] ≡ [])

-- What containerd answers in each round.
unfoldable pub retry_rounds : List Answers → Daemon → Daemon
retry_rounds [] d = d
retry_rounds (c ∷ cs) d = retry_rounds cs (retry_round c d)

abbrev fails_of : Answers → Str → Result (List Str) → Bool
fails_of c k (ok names) = still_fails c names k
fails_of c k (err f) = true

-- In no round is the image on the node or pulled: containerd does not list its images, or the image
-- is missing and its pull fails.
abbrev pub fails_in_all : List Answers → Str → Bool
fails_in_all [] k = true
fails_in_all (c ∷ cs) k = fails_of c k c.listed && fails_in_all cs k

clear_pulled-Distinct :
    (failed : Map Bool) (ks : List Str) (retry : Map Bool)
    → Distinct retry
    → Distinct (clear_pulled failed ks retry)
unfolding clear_pulled
clear_pulled-Distinct failed [] retry h = h
clear_pulled-Distinct failed (k ∷ ks) retry h =
    clear_pulled-Distinct failed ks
      (if not (get_or_false (lookup k failed)) then remove k retry else retry)
      (if_either Distinct (not (get_or_false (lookup k failed))) (remove k retry) retry
        (Distinct-remove k retry h) h)

retry_result-Distinct :
    (d : Daemon) (ks : List Str) (r : Result (Map Bool))
    → Distinct d.retry_images
    → Distinct (retry_result d ks r).retry_images
unfolding retry_result
retry_result-Distinct d ks (err f) h = h
retry_result-Distinct d ks (ok failed) h = clear_pulled-Distinct failed ks d.retry_images h

retry_keys-Distinct :
    (c : Answers) (d : Daemon) (ks : List Str)
    → Distinct d.retry_images
    → Distinct (retry_keys c d ks).retry_images
unfolding retry_keys
retry_keys-Distinct c d [] h = h
retry_keys-Distinct c d (k ∷ ks) h =
    retry_result-Distinct d (k ∷ ks) (check_and_pull c (k ∷ ks)).0 h

-- Containerd does not list its images.
retry_keys-unlisted :
    (c : Answers) (f : Failure) (d : Daemon) (ks : List Str)
    → c.listed ≡ err f
    → retry_keys c d ks ≡ d
unfolding retry_keys retry_result
retry_keys-unlisted c f d [] e = refl
retry_keys-unlisted c f d (k ∷ ks) e =
    ap (λ (r : Result (Map Bool) × List Str). retry_result d (k ∷ ks) r.0)
      (check_and_pull-unlisted c (k ∷ ks) f e)

retry_round-retrying :
    (c : Answers) (d : Daemon) (k : Str) (r : Result (List Str))
    → c.listed ≡ r
    → Ends c
    → Distinct d.retry_images
    → retrying k (retry_round c d) ≡ (retrying k d && fails_of c k r)
unfolding retry_round
retry_round-retrying c d k (ok names) e (same, nothing) h =
    (retry_round_lem c names (record { listed = e; same = same; nothing = nothing }) d h).0 k
retry_round-retrying c d k (err f) e ends h =
    ap (retrying k) (retry_keys-unlisted c f d (true_keys d.retry_images) e) ∙ (ground arith)

retry_round-Distinct :
    (c : Answers) (d : Daemon) → Distinct d.retry_images → Distinct (retry_round c d).retry_images
unfolding retry_round
retry_round-Distinct c d h = retry_keys-Distinct c d (true_keys d.retry_images) h

and_assoc : (a b c : Bool) → ((a && b) && c) ≡ (a && (b && c))
and_assoc a b c = ground arith

-- Whatever containerd answers in each round, after any number of rounds an image is to be retried
-- exactly if it was so at the start and no round found it on the node or pulled it: it is retried
-- until one round gets it, and no longer.
pub retry_rounds_lem :
    (cs : List Answers) (d : Daemon)
    → All Ends cs
    → Distinct d.retry_images
    → (k : Str) → retrying k (retry_rounds cs d) ≡ (retrying k d && fails_in_all cs k)
unfolding retry_rounds
retry_rounds_lem [] d ends h k = ground arith
retry_rounds_lem (c ∷ cs) d (first, rest) h k =
    retry_rounds_lem cs (retry_round c d) rest (retry_round-Distinct c d h) k
    ∙ ap (λ b. b && fails_in_all cs k) (retry_round-retrying c d k c.listed refl first h)
    ∙ and_assoc (retrying k d) (fails_of c k c.listed) (fails_in_all cs k)
