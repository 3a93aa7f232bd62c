-- ===== src/App/Revisions/StatusWrites.antt =====
-- updateAppStatus of state_controller.go: the writes that it makes.
use unicore.App.Platform.Traces.{if_Extends}
use unicore.Prelude.{if_true, ◌≡◌, refl, true, none}
use unicore.Api.{App, AppStatus}
use unicore.App.Platform.{Platform, World, Call, send_app_status, RetriesAsDocumented}
use unicore.App.Platform.Traces.{Extends, Extends-refl, Extends-trans, Extends-call}
use unicore.App.Platform.Changes.{retried-keeps}
use unicore.App.Status.{complete_rolling_update, status_consistent}
use unicore.App.Revisions.{status_attempt, update_app_status}

-- A write of a status.
abbrev pub WritesStatus : AppStatus → Call → Type 0
WritesStatus status c = (a : App) × (c ≡ send_app_status (record a { status = status }) status)

status_attempt-Extends :
    (p : Platform) (status : AppStatus) (w : World) (s : World × App)
    → Extends (WritesStatus status) w s.0
    → Extends (WritesStatus status) w (status_attempt p status s).1.0
unfolding status_attempt
status_attempt-Extends p status w (v, app) before = Extends-trans before (
    Extends-call {P = WritesStatus status} p
      (send_app_status (record app { status = status }) status) v (app, refl))

-- With retries as documented, updateAppStatus writes the status, with a finished rolling update
-- completed, and makes no other call; when the app's own status is consistent with it, it makes
-- none and returns no error.
pub update_app_status_lem :
    (p : Platform) (app : App) (status : AppStatus) (w : World)
    → RetriesAsDocumented p
    → let status' = complete_rolling_update app status in
      Extends (WritesStatus status') w (update_app_status p app status w).1
      × (status_consistent app.status status' ≡ true → update_app_status p app status w ≡ (none, w))
unfolding update_app_status
update_app_status_lem p app status w documented =
    let status' = complete_rolling_update app status in
    let tried =
      retried-keeps (λ s. Extends (WritesStatus status') w s.0)
        (λ s. status_attempt-Extends p status' w s)
        (documented.retried (World × App) (status_attempt p status') (w, app)) (Extends-refl w) in
    (
      if_Extends (status_consistent app.status status') w _ _ (Extends-refl w) tried,
      if_true (status_consistent app.status status') _ _,
    )
