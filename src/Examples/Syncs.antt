-- ===== src/Examples/Syncs.antt =====
-- UpdateApp at the app "web", with a history of one revision.
use unicore.Prelude.{
  ◌-◌, ◌≤◌, ◌≡◌, refl, subst, inl, inr, Bool, Bool-cases, List, pos, not, str_eq, [], ◌∷◌, map,
  keep, take, drop, length, none, some,
}
use unicore.Api.{App, Revision}
use unicore.App.Platform.{Result, ok, err, delete_revision}
use unicore.App.Platform.Traces.{Extends, Extends-refl}
use unicore.App.Versions.{Returns}
use unicore.App.Revisions.{History, is_live, truncate_history}
use unicore.App.Revisions.Truncation.{DeletesUnused, truncate_history_lem}
use unicore.App.Revisions.Choice.{QuietHistory, HoldsHistory, AllHeld}
use unicore.Examples.Updates.{NotNull}
use unicore.Examples.Data.{web, web_0, revision_1, revision_2}
use unicore.Examples.Cluster.{cluster, start}

abbrev pub one_revision : History
one_revision = record {
  list = λ w app. ok (revision_1 ∷ []);
  sort = λ rs. rs;
  patch_of = λ app. ok [];
  new_revision = λ app patch id n. ok revision_2;
  equal = λ a b. str_eq a.name b.name;
  find_equal = λ rs r. keep (λ (q : Revision). str_eq q.name r.name) rs;
  update = λ r id w. (ok r, w);
  create = λ app r n w. ((ok r, n), w);
}

pub one_revision-Quiet : QuietHistory one_revision
one_revision-Quiet = record {
  update = λ r n w. Extends-refl w;
  create = λ app r n w. Extends-refl w;
  finds = λ r. refl;
}

revision_1-NotNull : NotNull revision_1.raw
unfolding str_eq
revision_1-NotNull = refl

revision_2-NotNull : NotNull revision_2.raw
unfolding str_eq
revision_2-NotNull = refl

abbrev AllIfOk : Result (List Revision) → Type 0
AllIfOk (ok rs) = AllHeld NotNull rs
AllIfOk (err f) = Unit {0}

abbrev NotNullIfOk : Result Revision → Type 0
NotNullIfOk (ok r) = NotNull r.raw
NotNullIfOk (err f) = Unit {0}

keep-AllHeld :
    (f : Revision → Bool) (rs : List Revision) → AllHeld NotNull rs → AllHeld NotNull (keep f rs)
keep-AllHeld f [] h = tt
keep-AllHeld f (r ∷ rs) (first, h) = elim (Bool-cases (f r)) [
  | inl e ↦ rw e (first, keep-AllHeld f rs h)
  | inr e ↦ rw e (keep-AllHeld f rs h)
]

pub one_revision-Holds : HoldsHistory one_revision NotNull
one_revision-Holds = record {
  lists = λ w app rs e. subst AllIfOk e (revision_1-NotNull, tt);
  sorts = λ rs h. h;
  makes = λ app patch id n r e. subst NotNullIfOk e revision_2-NotNull;
  finds_in = λ rs r h. keep-AllHeld (λ (q : Revision). str_eq q.name r.name) rs h;
  updates = λ r q n w h e. subst NotNullIfOk e h;
  creates = λ app r q n w h e. subst NotNullIfOk e h;
}

-- An app that keeps no revision that is not in use.
abbrev forgetful : App
forgetful = record web { spec = record web.spec { revision_history_limit = some (pos 0) } }

truncate_history_lem_example :
    let dead =
      keep
        (λ r. not (is_live (web_0 ∷ []) revision_2 revision_2 r))
        (revision_1 ∷ revision_2 ∷ []) in
    Returns
      (λ r.
        Extends (DeletesUnused (web_0 ∷ []) revision_2 revision_2) start r.1
        × (r.0 ≡ none
            → (r.1.calls ≡ map delete_revision (take (length dead - 0) dead))
              × (length (drop (length dead - 0) dead) ≤ 0)))
      (truncate_history cluster forgetful
        (web_0 ∷ [])
        (revision_1 ∷ revision_2 ∷ [])
        revision_2
        revision_2
        start)
truncate_history_lem_example =
    truncate_history_lem cluster forgetful (web_0 ∷ []) (revision_1 ∷ revision_2 ∷ []) revision_2
      revision_2 0 start refl
