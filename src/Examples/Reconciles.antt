-- ===== src/Examples/Reconciles.antt =====
-- Reconcile at the app "web", with and without its finalizer.
use unicore.Prelude.{◌≡◌, ◌≢◌, refl, true, Bool, codes, List, [], ◌∷◌, keep, none, some, All}
use unicore.Api.{App, Pod}
use unicore.App.Platform.{Platform, Result, ok, err, conflict, send_app, RetriesAsDocumented}
use unicore.App.Platform.Traces.{Extends}
use unicore.App.Versions.{Returns}
use unicore.Reconciler.{Owners, app_finalizer_name, has_finalizer, reconcile}
use unicore.Reconciler.Finalizer.{WritesApp, reconcile_adds_finalizer}
use unicore.Examples.Data.{web, web_pods}
use unicore.Examples.Cluster.{cluster, cluster-Documented, idle, start}
use unicore.Examples.Syncs.{one_revision}

-- The cluster with one app.
abbrev holding : App → Platform
holding app = record cluster { get_app = λ calls namespace name. ok app }

holding-Documented : (app : App) → RetriesAsDocumented (holding app)
holding-Documented app = record { retried = λ S body s. cluster-Documented.retried S body s }

abbrev guarded : App
guarded = record web { finalizers = app_finalizer_name ∷ [] }

abbrev owners : Owners
owners = record {
  claim_pods = λ app filter w. (ok (keep filter web_pods), w);
  is_controlled = λ r. true;
  fetch = λ w app. ok app;
  adopt = λ app r w. (none, w);
}

abbrev AllIfOk : (Pod → Bool) → Result (List Pod) → Type 0
AllIfOk filter (ok pods) = All (λ pod. filter pod ≡ true) pods
AllIfOk filter (err f) = Unit {0}

reconcile_adds_finalizer_example :
    let app = record web { finalizers = app_finalizer_name ∷ [] } in
    (has_finalizer app.finalizers ≡ true)
    × Returns
        (λ r.
          Extends (WritesApp (λ fs. Unit {0})) start r.world
          × ((holding web).answer [] (send_app app) ≢ some conflict
              → r.world.calls ≡ send_app app ∷ []))
        (reconcile
          (holding web)
          one_revision
          (λ u rs. idle)
          owners
          (codes "prod")
          (codes "web")
          start)
unfolding has_finalizer
reconcile_adds_finalizer_example =
    reconcile_adds_finalizer (holding web) one_revision (λ u rs. idle) owners (codes "prod")
      (codes "web") start web refl (holding-Documented web) refl refl
