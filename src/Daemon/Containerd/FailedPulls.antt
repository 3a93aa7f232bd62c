-- ===== src/Daemon/Containerd/FailedPulls.antt =====
-- The map of the failed pulls that CheckAndPull returns, and its error.
use unicore.Prelude.{
  if_either, Distinct, Distinct-insert, ◌≡◌, ap, subst, if◌then◌else◌, Bool, true, Str, Map, insert,
  List, [], ◌∷◌, ◌++◌, Option,
}
use unicore.App.Platform.{Failure, Result, ok, err}
use unicore.Daemon.Containerd.{
  Answers, pull_single_image, existing_images, filter_missing_images, pull_all, pull_missing,
  pull_listed, check_and_pull,
}
use unicore.Daemon.Containerd.Pulls.{fails}

module _ (answer : Str → Option Failure) where
  pull_all-Distinct :
      (l : List Str) (failed : Map Bool) (asked : List Str)
      → Distinct failed
      → Distinct (pull_all answer l (failed, asked)).0
  unfolding pull_all
  pull_all-Distinct [] failed asked h = h
  pull_all-Distinct (img ∷ l) failed asked h =
      pull_all-Distinct l (if fails answer img then insert img true failed else failed)
        (asked ++ (pull_single_image answer img).1)
        (if_either Distinct (fails answer img) (insert img true failed) failed
          (Distinct-insert img true failed h) h)

abbrev DistinctIfOk : Result (Map Bool) → Type 0
DistinctIfOk (ok failed) = Distinct failed
DistinctIfOk (err f) = Unit {0}

pull_missing-Distinct : (c : Answers) (l : List Str) → DistinctIfOk (pull_missing c l).0
unfolding pull_missing
pull_missing-Distinct c [] = tt
pull_missing-Distinct c (img ∷ imgs) = pull_all-Distinct c.answer (c.finished (img ∷ imgs)) [] [] tt

pull_listed-Distinct :
    (c : Answers) (images : List Str) (r : Result (List Str))
    → DistinctIfOk (pull_listed c images r).0
unfolding pull_listed
pull_listed-Distinct c images (err f) = tt
pull_listed-Distinct c images (ok names) =
    pull_missing-Distinct c (filter_missing_images images (existing_images names []))

pub check_and_pull-Distinct :
    (c : Answers) (images : List Str) (failed : Map Bool)
    → (check_and_pull c images).0 ≡ ok failed
    → Distinct failed
unfolding check_and_pull
check_and_pull-Distinct c images failed e =
    subst DistinctIfOk e (pull_listed-Distinct c images c.listed)

pub check_and_pull-unlisted :
    (c : Answers) (images : List Str) (f : Failure)
    → c.listed ≡ err f
    → check_and_pull c images ≡ (err f, [])
unfolding check_and_pull pull_listed
check_and_pull-unlisted c images f e = ap (pull_listed c images) e
