-- ===== src/App/Revisions/Choice.antt =====
-- The choice of the revision to update to, in UpdateApp: what it asks of the history package.
use unicore.Prelude.{
  ℕ, ◌≡◌, refl, ap, sym, subst, if◌then◌else◌, Bool, true, false, List, [], Str, ◌∷◌, Option, none,
  some, All,
}
use unicore.Api.{App, Revision}
use unicore.App.Platform.{World, Result, ok, err}
use unicore.App.Platform.Traces.{Extends}
use unicore.App.Platform.Changes.{pod_changes, pod_changes-quiet, IsQuiet}
use unicore.App.Versions.{Outcome, value, panic, Returns}
use unicore.App.Revisions.{History, Chosen, last_of, written, created, choose}

-- Writing revisions neither creates nor deletes pods, and no revision of an empty list is equal to
-- another.
pub record QuietHistory (h : History) : Type 0 where
  pub update : (r : Revision) (n : ℕ) (w : World) → Extends IsQuiet w (h.update r n w).1
  pub create :
      (app : App) (r : Revision) (n : ℕ) (w : World) → Extends IsQuiet w (h.create app r n w).1
  pub finds : (r : Revision) → h.find_equal [] r ≡ []

abbrev pub AllHeld : (Str → Type 0) → List Revision → Type 0
AllHeld Held = All (λ (r : Revision). Held r.raw)

-- The revisions that the history lists and makes have data that satisfy Held, and it changes no
-- data when it sorts, finds and writes revisions.
pub record HoldsHistory (h : History) (Held : Str → Type 0) : Type 0 where
  pub lists : (w : World) (app : App) (rs : List Revision) → h.list w app ≡ ok rs → AllHeld Held rs
  pub sorts : (rs : List Revision) → AllHeld Held rs → AllHeld Held (h.sort rs)
  pub makes :
      (app : App) (patch : Str) (id n : ℕ) (r : Revision)
      → h.new_revision app patch id n ≡ ok r
      → Held r.raw
  pub finds_in :
      (rs : List Revision) (r : Revision) → AllHeld Held rs → AllHeld Held (h.find_equal rs r)
  pub updates :
      (r q : Revision) (n : ℕ) (w : World) → Held r.raw → (h.update r n w).0 ≡ ok q → Held q.raw
  pub creates :
      (app : App) (r q : Revision) (n : ℕ) (w : World)
      → Held r.raw
      → (h.create app r n w).0.0 ≡ ok q
      → Held q.raw

-- What a choice of a revision leaves: no pod was created or deleted, and the revision is held.
abbrev pub ChosenOk : (Str → Type 0) → World → Result Chosen × World → Type 0
ChosenOk Held w (ok c, v) = (pod_changes c.world ≡ pod_changes w) × Held c.revision.raw
ChosenOk Held w (err f, v) = pod_changes v ≡ pod_changes w

written-ok :
    (Held : Str → Type 0) (n : ℕ) (w : World) (r : Result Revision × World)
    → pod_changes r.1 ≡ pod_changes w
    → ((q : Revision) → r.0 ≡ ok q → Held q.raw)
    → ChosenOk Held w (written n r)
written-ok Held n w (ok r, v) h held = (h, held r refl)
written-ok Held n w (err f, v) h held = h

created-ok :
    (Held : Str → Type 0) (w : World) (x : (Result Revision × ℕ) × World)
    → pod_changes x.1 ≡ pod_changes w
    → ((q : Revision) → x.0.0 ≡ ok q → Held q.raw)
    → ChosenOk Held w (created x)
created-ok Held w ((r, n), v) h held = written-ok Held n w (r, v) h held

last_of-none : (rs : List Revision) → last_of rs ≡ none → rs ≡ []
last_of-none [] h = refl
last_of-none (r ∷ []) h = cc
last_of-none (r ∷ q ∷ rs) h = let bad = last_of-none (q ∷ rs) h in cc

abbrev IfAny : (Str → Type 0) → Option Revision → Type 0
IfAny Held none = Unit {0}
IfAny Held (some r) = Held r.raw

last_of-AllHeld :
    (Held : Str → Type 0) (rs : List Revision) → AllHeld Held rs → IfAny Held (last_of rs)
last_of-AllHeld Held [] h = tt
last_of-AllHeld Held (r ∷ []) h = h.0
last_of-AllHeld Held (r ∷ q ∷ rs) h = last_of-AllHeld Held (q ∷ rs) h.1

module _ (h : History) (app : App) (quiet : QuietHistory h) (Held : Str → Type 0)
    (holds : HoldsHistory h Held) where
  newest-ok :
      (newest same : Revision) (id n : ℕ) (w : World) (b : Bool)
      → Held newest.raw
      → Held same.raw
      → Returns (ChosenOk Held w) (
          if b
          then value (ok (record { revision = newest; collision_count = n; world = w }), w)
          else value (written n (h.update same id w)))
  newest-ok newest same id n w true last found = (refl, last)
  newest-ok newest same id n w false last found =
      written-ok Held n w (h.update same id w) (pod_changes-quiet (quiet.update same id w))
        (λ q e. holds.updates same q id w found e)

  picked :
      (cr : Revision) (n : ℕ) (w : World) (found newest : Option Revision)
      → (newest ≡ none → found ≡ none)
      → Held cr.raw
      → IfAny Held found
      → IfAny Held newest
      → Returns (ChosenOk Held w) (elim found as (λ x. Outcome (Result Chosen × World)) [
        | none ↦ value (created (h.create app cr n w))
        | some same ↦ elim newest as (λ x. Outcome (Result Chosen × World)) [
          | none ↦ panic
          | some last ↦
              if h.equal last same
              then value (ok (record { revision = last; collision_count = n; world = w }), w)
              else value (written n (h.update same cr.revision w))
        ]
      ])
  picked cr n w none newest k new found last =
      created-ok Held w (h.create app cr n w) (pod_changes-quiet (quiet.create app cr n w))
        (λ q e. holds.creates app cr q n w new e)
  picked cr n w (some same) none k new found last = let bad = k refl in cc
  picked cr n w (some same) (some newest) k new found last =
      newest-ok newest same cr.revision n w (h.equal newest same) last found

  pub choose-ok :
      (revisions : List Revision) (cr : Revision) (n : ℕ) (w : World)
      → AllHeld Held revisions
      → Held cr.raw
      → Returns (ChosenOk Held w) (choose h app revisions cr n w)
  unfolding choose
  choose-ok revisions cr n w all new =
      picked cr n w (last_of (h.find_equal revisions cr)) (last_of revisions)
        (λ e.
          subst (λ rs. last_of (h.find_equal rs cr) ≡ none) (sym (last_of-none revisions e))
            (ap last_of (quiet.finds cr)))
        new (last_of-AllHeld Held (h.find_equal revisions cr) (holds.finds_in revisions cr all))
        (last_of-AllHeld Held revisions all)
