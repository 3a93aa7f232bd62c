-- ===== src/App/Revisions/Truncation.antt =====
-- Which revisions truncateHistory deletes.
use unicore.Prelude.{
  ℕ, zero, suc, ◌-◌, ◌≤◌, pos, ◌≡◌, refl, ◌∙◌, sym, subst, inl, inr, if◌then◌else◌, true, false,
  not, Str, str_eq, is_some, List, [], ◌∷◌, ◌++◌, append-nil, append_assoc, map, Option, none, some,
  arith, keep, keep-All, All, All-mono, length, length-drop, take, drop, Bool-cases,
}
use unicore.Api.{App, Pod, Revision}
use unicore.App.Readiness.{get_pod_revision}
use unicore.App.Platform.{Platform, World, Failure, Call, delete_revision, call}
use unicore.App.Platform.Traces.{Extends, Extends-refl, Extends-trans, Extends-call}
use unicore.App.Versions.{Returns}
use unicore.App.Revisions.{
  delete_revisions, pod_uses, is_live, limit_of, truncate_to, truncate_history,
}

-- The deletion of a revision that is neither the current nor the update revision, nor that of a pod.
abbrev pub DeletesUnused : List Pod → Revision → Revision → Call → Type 0
DeletesUnused pods current update c =
    (r : Revision) × (str_eq current.name r.name ≡ false)
    × (str_eq update.name r.name ≡ false)
    × All (λ (pod : Pod). str_eq (get_pod_revision pod) r.name ≡ false) pods
    × (c ≡ delete_revision r)

pod_uses-All :
    (name : Str) (pods : List Pod)
    → pod_uses name pods ≡ false
    → All (λ (pod : Pod). str_eq (get_pod_revision pod) name ≡ false) pods
unfolding pod_uses
pod_uses-All name [] h = tt
pod_uses-All name (pod ∷ pods) h = ground (arith, pod_uses-All name pods)

unused :
    (pods : List Pod) (current update r : Revision)
    → not (is_live pods current update r) ≡ true
    → DeletesUnused pods current update (delete_revision r)
unfolding is_live
unused pods current update r h =
    (r, ground arith, ground arith, pod_uses-All r.name pods (ground arith), refl)

All-take {ℓ} : {A : Type ℓ} (P : A → Type 0) (n : ℕ) (xs : List A) → All P xs → All P (take n xs)
All-take P zero xs h = tt
All-take P (suc n) [] h = tt
All-take P (suc n) (x ∷ xs) h = (h.0, All-take P n xs h.1)

-- The deletions stop at the first error.
delete_revisions-Extends :
    (p : Platform) (P : Call → Type 0) (rs : List Revision) (w : World)
    → All (λ r. P (delete_revision r)) rs
    → Extends P w (delete_revisions p rs w).1
unfolding delete_revisions
delete_revisions-Extends p P [] w h = Extends-refl w
delete_revisions-Extends p P (r ∷ rs) w h =
    let first : Extends P w (call p (delete_revision r) w).1 =
      Extends-call p (delete_revision r) w h.0 in
    elim (Bool-cases (is_some (call p (delete_revision r) w).0)) [
      | inl failed ↦ rw failed first
      | inr fine ↦ rw fine (Extends-trans first (delete_revisions-Extends p P rs _ h.1))
    ]

if_none :
    (e : Option Failure) (w : World) (rest : Option Failure × World) {cs : List Call}
    → (if is_some e then (e, w) else rest).0 ≡ none
    → (rest.0 ≡ none → rest.1.calls ≡ cs)
    → (if is_some e then (e, w) else rest).1.calls ≡ cs
if_none none w rest h k = k h
if_none (some f) w rest h k = cc

delete_revisions-none :
    (p : Platform) (rs : List Revision) (w : World)
    → (delete_revisions p rs w).0 ≡ none
    → (delete_revisions p rs w).1.calls ≡ w.calls ++ map delete_revision rs
unfolding delete_revisions call
delete_revisions-none p [] w h = sym (append-nil w.calls)
delete_revisions-none p (r ∷ rs) w h =
    let w' = (call p (delete_revision r) w).1 in
    if_none (p.answer w.calls (delete_revision r)) w' (delete_revisions p rs w') h (λ k.
      delete_revisions-none p rs w' k
      ∙ append_assoc w.calls (delete_revision r ∷ []) (map delete_revision rs))

-- With a limit of n revisions, truncateHistory returns; it deletes only revisions that are neither the
-- current nor the update revision nor in use by a pod, and when it returns no error it has deleted,
-- in order, the first of these, so that at most n of them are left.
pub truncate_history_lem :
    (p : Platform) (app : App) (pods : List Pod) (revisions : List Revision)
    (current update : Revision) (n : ℕ) (w : World)
    → limit_of app.spec.revision_history_limit ≡ pos n
    → let dead = keep (λ r. not (is_live pods current update r)) revisions in
      Returns
        (λ r.
          Extends (DeletesUnused pods current update) w r.1
          × (r.0 ≡ none
              → (r.1.calls ≡ w.calls ++ map delete_revision (take (length dead - n) dead))
                × (length (drop (length dead - n) dead) ≤ n)))
        (truncate_history p app pods revisions current update w)
unfolding truncate_history truncate_to
truncate_history_lem p app pods revisions current update n w e =
    let dead = keep (λ r. not (is_live pods current update r)) revisions in
    let gone = take (length dead - n) dead in
    let all =
      All-mono (λ r. not (is_live pods current update r) ≡ true)
        (λ r. DeletesUnused pods current update (delete_revision r))
        (λ r h. unused pods current update r h) dead
        (keep-All (λ r. not (is_live pods current update r)) revisions) in
    subst
      (λ limit.
        Returns
          (λ r.
            Extends (DeletesUnused pods current update) w r.1
            × (r.0 ≡ none
                → (r.1.calls ≡ w.calls ++ map delete_revision gone)
                  × (length (drop (length dead - n) dead) ≤ n)))
          (truncate_to p (length revisions) dead limit w))
      (sym e)
      (
        delete_revisions-Extends p (DeletesUnused pods current update) gone w (
            All-take (λ r. DeletesUnused pods current update (delete_revision r)) (length dead - n)
              dead all),
        λ h. (delete_revisions-none p gone w h, omega (arith, length-drop (length dead - n) dead)),
      )
