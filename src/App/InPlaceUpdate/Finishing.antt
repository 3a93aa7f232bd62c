-- ===== src/App/InPlaceUpdate/Finishing.antt =====
-- When an in-place update is done, and what is written then.
use unicore.Prelude.{
  ◌≡◌, refl, ◌∙◌, sym, subst, ◌⊎◌, inl, inr, ◌↔◌, if◌then◌else◌, Bool, true, false, not, ◌||◌, Str,
  str_eq, str_eq_refl, lookup, lookup-remove, get_or_empty, List, [], ◌∷◌, Option, none, some,
  arith, All, ℕ,
}
use unicore.Api.{Pod, PodCondition, ContainerStatus, condition_true}
use unicore.App.Readiness.{in_place_update_ready, find_condition, set_pod_condition}
use unicore.App.Readiness.Conditions.{set_pod_condition_lem}
use unicore.App.Platform.{
  Platform, World, Call, Result, ok, err, update_pod_status, RetriesAsDocumented,
}
use unicore.App.Platform.Traces.{Extends, Extends-refl, Extends-trans, Extends-call}
use unicore.App.Platform.Changes.{retried-keeps}
use unicore.App.Update.Rolling.{status_key}
use unicore.App.InPlaceUpdate.{
  InPlaceStatus, starts_before, is_not_running_since, container_done, all_rebuilt, done_by,
  is_in_place_update_done, cleaned, done_condition, clean_found, clean_attempt,
  clean_up_in_place_update,
}

-- The container was not updated, or its image id is not the id that was noted, it is ready, and it
-- has run since the update.
abbrev pub Rebuilt : InPlaceStatus → ContainerStatus → Type 0
Rebuilt status v =
    (lookup v.name status.old_img_ids ≡ none)
    ⊎ (old : Str) × (lookup v.name status.old_img_ids ≡ some old)
      × (str_eq old v.image_id ≡ false)
      × (v.ready ≡ true)
      × (t : ℕ) × (v.running_since ≡ some t)
      × (starts_before t status.update_time ≡ false)

runs_since :
    (o : Option ℕ) (u : Option ℕ)
    → is_not_running_since o u ≡ false
    → (t : ℕ) × (o ≡ some t) × (starts_before t u ≡ false)
runs_since none u h = cc
runs_since (some t) u h = (t, refl, h)

passed_tests :
    (same ready late rest : Bool)
    → (if same then false else if not ready || late then false else rest) ≡ true
    → (same ≡ false) × (ready ≡ true) × (late ≡ false) × (rest ≡ true)
passed_tests same ready late rest h = ground arith

pass_tests :
    (same ready late rest : Bool)
    → same ≡ false
    → ready ≡ true
    → late ≡ false
    → rest ≡ true
    → (if same then false else if not ready || late then false else rest) ≡ true
pass_tests same ready late rest a b c d = rw (a, b, c, d)

container_done-Rebuilt :
    (status : InPlaceStatus) (v : ContainerStatus) (o : Option Str) (rest : Bool)
    → lookup v.name status.old_img_ids ≡ o
    → container_done status v o rest ≡ true
    → Rebuilt status v × (rest ≡ true)
unfolding container_done
container_done-Rebuilt status v none rest e h = (inl e, h)
container_done-Rebuilt status v (some old) rest e h =
    let (changed, ready, since, after) : (str_eq old v.image_id ≡ false)
        × (v.ready ≡ true)
        × (is_not_running_since v.running_since status.update_time ≡ false)
        × (rest ≡ true) =
      passed_tests (str_eq old v.image_id) v.ready
        (is_not_running_since v.running_since status.update_time) rest h in
    let (t, at, fresh) = runs_since v.running_since status.update_time since in
    (inr (old, e, changed, ready, t, at, fresh), after)

container_done-true :
    (status : InPlaceStatus) (v : ContainerStatus) (rest : Bool)
    → Rebuilt status v
    → rest ≡ true
    → container_done status v (lookup v.name status.old_img_ids) rest ≡ true
unfolding container_done
container_done-true status v rest (inl e) h =
    subst (λ o. container_done status v o rest ≡ true) (sym e) h
container_done-true status v rest (inr (old, e, changed, ready, t, since, fresh)) h =
    subst (λ o. container_done status v o rest ≡ true) (sym e)
      (pass_tests (str_eq old v.image_id) v.ready
        (is_not_running_since v.running_since status.update_time) rest changed ready
        (subst (λ o. is_not_running_since o status.update_time ≡ false) (sym since) fresh) h)

all_rebuilt_iff :
    (status : InPlaceStatus) (vs : List ContainerStatus)
    → (all_rebuilt status vs ≡ true) ↔ All (Rebuilt status) vs
unfolding all_rebuilt
all_rebuilt_iff status [] = (λ e. tt, λ h. refl)
all_rebuilt_iff status (v ∷ vs) = (
  λ e.
      let (built, rest) =
        container_done-Rebuilt status v (lookup v.name status.old_img_ids) (all_rebuilt status vs)
          refl e in
      (built, (all_rebuilt_iff status vs).0 rest),
  λ (built, rest).
      container_done-true status v (all_rebuilt status vs) built
        ((all_rebuilt_iff status vs).1 rest),
)

ok_true : {A : Type 0} (b : Bool) → (b ≡ true) ↔ A → (ok b ≡ ok true) ↔ A
ok_true true h = (λ e. h.0 refl, λ a. refl)
ok_true false h = (λ e. let bad = e in cc, λ a. let g = h.1 a in cc)

-- For an annotation that can be read, IsInPlaceUpdateDone returns true exactly when every container
-- status of the pod whose name the annotation notes has an image id other than the one noted, is
-- ready and has run since the time of the update, if one was noted. A container that is noted and
-- has no status is not looked at.
pub is_in_place_update_done_iff :
    (read_status : Str → Result InPlaceStatus) (pod : Pod) (status : InPlaceStatus)
    → read_status (get_or_empty (lookup status_key pod.annotations)) ≡ ok status
    → (is_in_place_update_done read_status pod ≡ ok true)
      ↔ All (Rebuilt status) pod.container_statuses
unfolding is_in_place_update_done done_by
is_in_place_update_done_iff read_status pod status e =
    subst
      (λ r.
        (done_by r pod.container_statuses ≡ ok true) ↔ All (Rebuilt status) pod.container_statuses)
      (sym e)
      (ok_true (all_rebuilt status pod.container_statuses)
        (all_rebuilt_iff status pod.container_statuses))

-- A write of a pod's status with a true readiness of the in-place update and without the annotation.
abbrev pub Finishes : Call → Type 0
Finishes c =
    (q : Pod) × (c ≡ update_pod_status q)
    × ((d : PodCondition) × (find_condition in_place_update_ready q.conditions ≡ some d)
        × (d.status ≡ condition_true))
    × (lookup status_key q.annotations ≡ none)

clean_found-Extends :
    (p : Platform) (found : Result Pod) (start w : World)
    → Extends Finishes start w
    → Extends Finishes start (clean_found p found w).1
unfolding clean_found
clean_found-Extends p (err f) start w h = h
clean_found-Extends p (ok origin) start w h = Extends-trans h (
    Extends-call {P = Finishes} p (update_pod_status (cleaned p.now origin)) w (
      cleaned p.now origin,
      refl,
      (set_pod_condition_lem origin (done_condition p.now)).0,
      lookup-remove status_key status_key
            (set_pod_condition origin (done_condition p.now)).annotations
          ∙ (rw (str_eq_refl status_key)),
    ))

-- With retries as documented, CleanUpInPlaceUpdate makes no call but writes of a pod's status in
-- which the pod is ready as to the in-place update and the annotation of the update is gone.
pub clean_up_in_place_update_lem :
    (p : Platform) (pod : Pod) (w : World)
    → RetriesAsDocumented p
    → Extends Finishes w (clean_up_in_place_update p pod w).1
unfolding clean_up_in_place_update clean_attempt
clean_up_in_place_update_lem p pod w documented =
    retried-keeps (Extends Finishes w)
      (λ v h. clean_found-Extends p (p.get_pod v.calls pod.namespace pod.name) w v h)
      (documented.retried World (clean_attempt p pod) w) (Extends-refl w)
