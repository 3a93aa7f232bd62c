-- ===== src/Reconciler/Finalizer.antt =====
-- When Reconcile writes and removes the finalizer.
use unicore.Prelude.{
  if_true, if_either, ◌≡◌, ◌≢◌, refl, ◌∙◌, ap, sym, subst, ◌⊎◌, inl, inr, if◌then◌else◌, Bool, true,
  false, not, ◌&&◌, Str, str_eq_refl, is_empty, is_some, List, [], ◌∷◌, ◌++◌, Option, none, some,
  arith,
}
use unicore.Api.{Revision, App, Pod}
use unicore.App.Platform.{
  Platform, World, Call, Failure, conflict, ok, send_app, call, RetriesAsDocumented,
}
use unicore.App.Platform.Traces.{Extends, Extends-refl, Extends-trans, Extends-call, one_run}
use unicore.App.Platform.Changes.{retried-keeps}
use unicore.App.Versions.{value, Returns}
use unicore.App.Update.{zero_app}
use unicore.App.Update.Rolling.{InPlace}
use unicore.App.Revisions.{History}
use unicore.Reconciler.{
  Owners, plain, app_finalizer_name, has_finalizer, other_finalizers, write_app, write_with_retry,
  remove_finalizer, with_app, reconcile,
}
use unicore.Reconciler.Requeue.{reconcile-with_app}

-- A write of an app whose finalizers satisfy P.
abbrev pub WritesApp : (List Str → Type 0) → Call → Type 0
WritesApp P c = (a : App) × P a.finalizers × (c ≡ send_app a)

if_same {ℓ} : {A : Type ℓ} (b : Bool) (x : A) → (if b then x else x) ≡ x
if_same true x = refl
if_same false x = refl

write_app-Extends :
    (p : Platform) (P : List Str → Type 0) (w : World) (s : World × App)
    → P []
    → Extends (WritesApp P) w s.0 × P s.1.finalizers
    → Extends (WritesApp P) w (write_app p s).1.0 × P (write_app p s).1.1.finalizers
unfolding write_app
write_app-Extends p P w (v, app) base (before, fits) = (
  Extends-trans before (Extends-call {P = WritesApp P} p (send_app app) v (app, fits, refl)),
  if_either (λ (a : App). P a.finalizers) (is_some (call p (send_app app) v).0) zero_app app base
      fits,
)

write_with_retry-Extends :
    (p : Platform) (P : List Str → Type 0) (app : App) (w : World)
    → RetriesAsDocumented p
    → P []
    → P app.finalizers
    → Extends (WritesApp P) w (write_with_retry p app w).1
unfolding write_with_retry
write_with_retry-Extends p P app w documented base fits =
    (retried-keeps (λ s. Extends (WritesApp P) w s.0 × P s.1.finalizers)
      (λ s h. write_app-Extends p P w s base h)
      (documented.retried (World × App) (write_app p) (w, app)) (Extends-refl w, fits)).0

has_finalizer-append : (fs : List Str) → has_finalizer (fs ++ app_finalizer_name ∷ []) ≡ true
unfolding has_finalizer
has_finalizer-append [] = rw (str_eq_refl app_finalizer_name)
has_finalizer-append (f ∷ fs) = ground (arith, has_finalizer-append fs)

has_finalizer-other : (fs : List Str) → has_finalizer (other_finalizers fs) ≡ false
unfolding has_finalizer
has_finalizer-other [] = refl
has_finalizer-other (f ∷ fs) = ground (arith, has_finalizer-other fs)

-- The deferred function of an app that is being deleted makes no call while there are pods, and
-- the apps that it writes, in every attempt, are without the finalizer. The retries are as
-- documented.
remove_finalizer_lem :
    (p : Platform) (app : App) (pods : List Pod) (w : World)
    → RetriesAsDocumented p
    → Extends (WritesApp (λ fs. has_finalizer fs ≡ false)) w (remove_finalizer p app pods w)
      × ((pods ≡ []) ⊎ (remove_finalizer p app pods w ≡ w))
unfolding remove_finalizer
remove_finalizer_lem p app (pod ∷ pods) w documented =
    let same = if_same (is_empty app.name) w in
    (
      subst (Extends (WritesApp (λ fs. has_finalizer fs ≡ false)) w) (sym same) (Extends-refl w),
      inr same,
    )
remove_finalizer_lem p app [] w documented = (
  if_either (Extends _ w) (is_empty app.name) w _ (Extends-refl w) (
      if_either (Extends _ w) (has_finalizer app.finalizers) _ w
        (write_with_retry-Extends p (λ fs. has_finalizer fs ≡ false)
          (record app { finalizers = other_finalizers app.finalizers }) w documented
          (unfold has_finalizer in refl) (has_finalizer-other app.finalizers))
        (Extends-refl w)),
  inl refl,
)

one_write :
    (p : Platform) (app : App) (w : World)
    → RetriesAsDocumented p
    → p.answer w.calls (send_app app) ≢ some conflict
    → (write_with_retry p app w).1.calls ≡ w.calls ++ send_app app ∷ []
unfolding write_with_retry write_app call
one_write p app w documented fine =
    ap (λ (r : Option Failure × (World × App)). r.1.0.calls)
      (one_run (documented.retried (World × App) (write_app p) (w, app)) fine)

with_app-writes :
    (p : Platform) (h : History) (in_place : Revision → List Revision → InPlace) (o : Owners)
    (app : App) (w : World)
    → app.deletion_timestamp ≡ none
    → has_finalizer app.finalizers ≡ false
    → let (e, w') =
        write_with_retry p
          (record app { finalizers = app.finalizers ++ app_finalizer_name ∷ [] })
          w in
      with_app p h in_place o app w ≡ value (plain e w')
unfolding with_app
with_app-writes p h in_place o app w live bare =
    if_true (not (is_some app.deletion_timestamp) && not (has_finalizer app.finalizers)) _ _
      (ground arith)

-- For an app that is not being deleted and has no finalizer, Reconcile makes no call but writes of
-- an app. If the first write does not end in a conflict, it is the only call, and writes the app
-- with the finalizer added. The retries are as documented.
pub reconcile_adds_finalizer :
    (p : Platform) (h : History) (in_place : Revision → List Revision → InPlace) (o : Owners)
    (namespace name : Str) (w : World) (app : App)
    → p.get_app w.calls namespace name ≡ ok app
    → RetriesAsDocumented p
    → app.deletion_timestamp ≡ none
    → has_finalizer app.finalizers ≡ false
    → let app' = record app { finalizers = app.finalizers ++ app_finalizer_name ∷ [] } in
      (has_finalizer app'.finalizers ≡ true)
      × Returns
          (λ r.
            Extends (WritesApp (λ fs. Unit {0})) w r.world
            × (p.answer w.calls (send_app app') ≢ some conflict
                → r.world.calls ≡ w.calls ++ send_app app' ∷ []))
          (reconcile p h in_place o namespace name w)
reconcile_adds_finalizer p h in_place o namespace name w app e documented live bare =
    let app' : App = record app { finalizers = app.finalizers ++ app_finalizer_name ∷ [] } in
    (
      has_finalizer-append app.finalizers,
      subst
          (Returns (λ r.
            Extends (WritesApp (λ fs. Unit {0})) w r.world
            × (p.answer w.calls (send_app app') ≢ some conflict
                → r.world.calls ≡ w.calls ++ send_app app' ∷ [])))
          (sym (
            reconcile-with_app p h in_place o namespace name w app e
            ∙ with_app-writes p h in_place o app w live bare))
          (
            write_with_retry-Extends p (λ fs. Unit {0}) app' w documented tt tt,
            one_write p app' w documented,
          ),
    )
