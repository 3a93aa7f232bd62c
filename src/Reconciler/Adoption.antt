-- ===== src/Reconciler/Adoption.antt =====
-- Reconcile: what it does before UpdateApp creates and deletes no pod.
use unicore.App.Platform.Traces.{if_Extends}
use unicore.Prelude.{
  ℕ, ◌≡◌, refl, ◌∙◌, Bool, true, not, is_some, List, [], ◌∷◌, Option, some, All, keep,
}
use unicore.Api.{App, Pod, Revision}
use unicore.App.Platform.{Platform, World, Failure, Result, ok, err, send_app, RetriesAsDocumented}
use unicore.App.Platform.Traces.{Extends, Extends-refl, Extends-trans, Extends-call}
use unicore.App.Platform.Changes.{pod_changes, pod_changes-quiet, IsQuiet, retried-keeps}
use unicore.App.Revisions.{History}
use unicore.Reconciler.{
  Owners, write_app, write_with_retry, adopt_all, adopt_checked, adopt_orphans,
  adopt_orphan_revisions, list_revisions,
}

-- Claiming pods and adopting revisions neither creates nor deletes pods, and the pods that are claimed
-- pass the filter.
pub record QuietOwners (o : Owners) : Type 0 where
  pub claims :
      (app : App) (filter : Pod → Bool) (w : World)
      → Extends IsQuiet w (o.claim_pods app filter w).1
  pub filtered :
      (app : App) (filter : Pod → Bool) (w : World) (pods : List Pod)
      → (o.claim_pods app filter w).0 ≡ ok pods
      → All (λ pod. filter pod ≡ true) pods
  pub adopts : (app : App) (r : Revision) (w : World) → Extends IsQuiet w (o.adopt app r w).1

write_app-quiet :
    (p : Platform) (k : ℕ) (s : World × App)
    → pod_changes s.0 ≡ k
    → pod_changes (write_app p s).1.0 ≡ k
unfolding write_app
write_app-quiet p k s h =
    pod_changes-quiet (Extends-call {P = IsQuiet} p (send_app s.1) s.0 refl) ∙ h

pub write_with_retry-quiet :
    (p : Platform) (app : App) (w : World)
    → RetriesAsDocumented p
    → pod_changes (write_with_retry p app w).1 ≡ pod_changes w
unfolding write_with_retry
write_with_retry-quiet p app w documented =
    retried-keeps (λ s. pod_changes s.0 ≡ pod_changes w) (write_app-quiet p (pod_changes w))
      (documented.retried (World × App) (write_app p) (w, app)) refl

module _ (o : Owners) (quiet : QuietOwners o) (app : App) where
  adopt_all-IsQuiet : (rs : List Revision) (w : World) → Extends IsQuiet w (adopt_all o app rs w).1
  unfolding adopt_all
  adopt_all-IsQuiet [] w = Extends-refl w
  adopt_all-IsQuiet (r ∷ rs) w =
      let w' = (o.adopt app r w).1 in
      if_Extends (is_some (o.adopt app r w).0) w (o.adopt app r w) (adopt_all o app rs w')
        (quiet.adopts app r w) (Extends-trans (quiet.adopts app r w) (adopt_all-IsQuiet rs w'))

  adopt_checked-IsQuiet :
      (rs : List Revision) (fresh : Result App) (w : World)
      → Extends IsQuiet w (adopt_checked o app rs fresh w).1
  unfolding adopt_checked
  adopt_checked-IsQuiet rs (err f) w = Extends-refl w
  adopt_checked-IsQuiet rs (ok fresh) w =
      if_Extends _ w _ (adopt_all o app rs w) (Extends-refl w) (adopt_all-IsQuiet rs w)

  adopt_orphans-IsQuiet :
      (rs : List Revision) (w : World) → Extends IsQuiet w (adopt_orphans o app rs w).1
  unfolding adopt_orphans
  adopt_orphans-IsQuiet [] w = Extends-refl w
  adopt_orphans-IsQuiet (r ∷ rs) w = adopt_checked-IsQuiet (r ∷ rs) (o.fetch w app) w

  listed-IsQuiet :
      (listed : Result (List Revision)) (w : World)
      → Extends IsQuiet w
          (elim listed as (λ x. Option Failure × World) [
            | err f ↦ (some f, w)
            | ok revisions ↦ adopt_orphans o app (keep (λ r. not (o.is_controlled r)) revisions) w
          ]).1
  listed-IsQuiet (err f) w = Extends-refl w
  listed-IsQuiet (ok revisions) w =
      adopt_orphans-IsQuiet (keep (λ r. not (o.is_controlled r)) revisions) w

  pub adopt_orphan_revisions-IsQuiet :
      (p : Platform) (h : History) (w : World)
      → Extends IsQuiet w (adopt_orphan_revisions p h o app w).1
  unfolding adopt_orphan_revisions
  adopt_orphan_revisions-IsQuiet p h w = listed-IsQuiet (list_revisions p h app w) w
