-- ===== src/App/Update/Rolling/OneTarget.antt =====
-- What a rolling update does at one target.
use unicore.Prelude.{
  scale, ◌+◌, ◌≤◌, ℤ, ◌≡◌, refl, ◌⊎◌, inl, inr, Bool, true, false, not, ◌&&◌, ◌||◌, Str, str_eq,
  is_some, Option, none, some, arith, Bool-cases, lookup, get_or_empty, is_empty,
}
use unicore.Api.{App, Pod, AppStatus, RollingUpdate}
use unicore.App.Readiness.{get_pod_ready, get_pod_revision, second}
use unicore.App.Platform.{Platform, World, Call, delete_pod, Failure, Result, ok, err}
use unicore.App.Platform.Traces.{Extends, Extends-refl, Extends-trans, Extends-mono, Extends-call}
use unicore.App.Platform.Changes.{pod_changes, IsQuiet, pod_changes-quiet}
use unicore.App.PodControl.{delete_stateful_pod}
use unicore.App.PodControl.Changes.{delete_stateful_pod-changes}
use unicore.App.Update.Replicas.{push_if_positive}
use unicore.App.Versions.{Returns}
use unicore.App.Versions.Partition.{Returns-bind}
use unicore.App.Update.Rolling.{
  is_in_place, is_not_found, InPlace, Rolled, recreate_pod, after_in_place, start_update,
  finish_in_place, await_pod, roll_pod, status_key, in_place_pending,
}

-- The in-place update does not panic, and the in-place operations neither create nor delete pods.
pub record QuietInPlace (o : InPlace) : Type 0 where
  pub update :
      (app : App) (pod : Pod) (w : World)
      → Returns (λ answer. Extends IsQuiet w answer.1) (o.update app pod w)
  pub clean_up : (pod : Pod) (w : World) → Extends IsQuiet w (o.clean_up pod w).1

-- The pod is not at the update revision and not being deleted.
abbrev pub Behind : Str → Pod → Type 0
Behind update pod =
    (str_eq (get_pod_revision pod) update ≡ false) × (is_some pod.deletion_timestamp ≡ false)

-- The pod needs nothing more: it is at the update revision or being deleted; and it is ready, or
-- being deleted, or its in-place update is done.
abbrev pub Settled : InPlace → Str → Pod → Type 0
Settled o update pod =
    ((str_eq (get_pod_revision pod) update ≡ true) ⊎ (is_some pod.deletion_timestamp ≡ true))
    × ((get_pod_ready pod ≡ true)
        ⊎ (is_some pod.deletion_timestamp ≡ true)
        ⊎ (o.is_done pod ≡ ok true))

ready_or_gone :
    {A : Type 0} (t : Pod)
    → (get_pod_ready t || is_some t.deletion_timestamp) ≡ true
    → (get_pod_ready t ≡ true) ⊎ (is_some t.deletion_timestamp ≡ true) ⊎ A
ready_or_gone t h = elim (Bool-cases (get_pod_ready t)) [
  | inl e ↦ inl e
  | inr e ↦ inr (inl (rw e at h))
]

behind_lem :
    (update : Str) (t : Pod)
    → (not (str_eq (get_pod_revision t) update) && not (is_some t.deletion_timestamp)) ≡ true
    → Behind update t
behind_lem update t h = ground arith

is_reached :
    (update : Str) (t : Pod)
    → (not (str_eq (get_pod_revision t) update) && not (is_some t.deletion_timestamp)) ≡ false
    → (str_eq (get_pod_revision t) update ≡ true) ⊎ (is_some t.deletion_timestamp ≡ true)
is_reached update t h = ground arith

-- A call that does not change pods, or deletes `t`, which is behind.
abbrev pub DeletesBehind : Str → Pod → Call → Type 0
DeletesBehind update t c = IsQuiet c ⊎ Behind update t × (c ≡ delete_pod t.namespace t.name)

-- What one target leaves: the pass returns, after at most the deletion of a pod that is behind; or
-- the target is settled and nothing was deleted.
abbrev pub RollOk : InPlace → Str → Pod → World → Rolled → Type 0
RollOk o update t w s =
    (s.returned ≡ true)
      × (pod_changes s.world ≤ pod_changes w + 1)
      × Extends (DeletesBehind update t) w s.world
    ⊎ (s.returned ≡ false) × Settled o update t × Extends IsQuiet w s.world

module _ (p : Platform) (o : InPlace) (app : App) (update : Str) (r : RollingUpdate)
    (quiet : QuietInPlace o) where
  deleted_few :
      (t : Pod) (v w : World)
      → Extends IsQuiet v w
      → pod_changes (delete_stateful_pod p t w).1 ≤ pod_changes v + 1
  deleted_few t v w before =
      omega (arith, delete_stateful_pod-changes p t w, pod_changes-quiet before)

  deleted_calls :
      (t : Pod) (v w : World)
      → Behind update t
      → Extends IsQuiet v w
      → Extends (DeletesBehind update t) v (delete_stateful_pod p t w).1
  unfolding delete_stateful_pod
  deleted_calls t v w behind before = rw (behind.1) (
      Extends-trans (Extends-mono IsQuiet (DeletesBehind update t) (λ c h. inl h) before)
        (Extends-call p (delete_pod t.namespace t.name) w (inr (behind, refl))))

  recreate-ok :
      (t : Pod) (v w : World) (status : AppStatus)
      → Behind update t
      → Extends IsQuiet v w
      → RollOk o update t v (recreate_pod p o app update r t w status)
  unfolding recreate_pod
  recreate-ok t v w status behind before =
      let w' = (delete_stateful_pod p t w).1 in
      let few = deleted_few t v w before in
      let calls = deleted_calls t v w behind before in
      let e = (delete_stateful_pod p t w).0 in
      elim (Bool-cases (is_some e && not (is_not_found e))) [
        | inl bad ↦ rw bad (inl (refl, few, calls))
        | inr fine ↦ rw fine (inl (refl, few, calls))
      ]

  quietly : (t : Pod) {v w : World} → Extends IsQuiet v w → Extends (DeletesBehind update t) v w
  quietly t x = Extends-mono IsQuiet (DeletesBehind update t) (λ c h. inl h) x

  returned-ok :
      (t : Pod) (v w : World) (status : AppStatus) (e : Option Failure)
      → Extends IsQuiet v w
      → RollOk o update t v (record { world = w; status = status; error = e; returned = true })
  returned-ok t v w status e before =
      inl (refl, omega (arith, pod_changes-quiet before), quietly t before)

  continued-ok :
      (t : Pod) (v w : World) (status : AppStatus)
      → Settled o update t
      → Extends IsQuiet v w
      → RollOk o update t v (record { world = w; status = status; error = none; returned = false })
  continued-ok t v w status settled before = inr (refl, settled, before)

  pushed :
      {v w : World} (x : ℤ) → Extends IsQuiet v w → Extends IsQuiet v (push_if_positive app x w)
  pushed x h = record { new = h.new; calls = ground (arith, h.calls); holds = h.holds }

  after_in_place-ok :
      (t : Pod) (v : World) (status : AppStatus) (answer : (Option Failure × ℤ) × World)
      → Behind update t
      → Extends IsQuiet v answer.1
      → RollOk o update t v (after_in_place p o app update r t status answer)
  unfolding after_in_place
  after_in_place-ok t v status ((none, wait), w) behind h =
      returned-ok t v _ status none (pushed (scale wait second) h)
  after_in_place-ok t v status ((some f, wait), w) behind h = recreate-ok t v w status behind h

  start_update-ok :
      (t : Pod) (w : World) (status : AppStatus)
      → Behind update t
      → Returns (RollOk o update t w) (start_update p o app update r t w status)
  unfolding start_update
  start_update-ok t w status behind = elim (Bool-cases (is_in_place r.pod_update_policy)) [
    | inl tried ↦ rw tried (
        Returns-bind (λ answer. Extends IsQuiet w answer.1) (RollOk o update t w) (o.update app t w)
          _ (quiet.update app t w) (λ answer h. after_in_place-ok t w status answer behind h))
    | inr direct ↦ rw direct (recreate-ok t w w status behind (Extends-refl w))
  ]

  abbrev Reached : Pod → Type 0
  Reached t = (str_eq (get_pod_revision t) update ≡ true) ⊎ (is_some t.deletion_timestamp ≡ true)

  finish_in_place-ok :
      (t : Pod) (w : World) (status : AppStatus) (done : Result Bool)
      → o.is_done t ≡ done
      → Reached t
      → RollOk o update t w (finish_in_place p o app update r t w status done)
  unfolding finish_in_place
  finish_in_place-ok t w status (err f) e reached =
      returned-ok t w w status (some f) (Extends-refl w)
  finish_in_place-ok t w status (ok false) e reached =
      returned-ok t w w status none (Extends-refl w)
  finish_in_place-ok t w status (ok true) e reached =
      let w' = (o.clean_up t w).1 in
      elim (Bool-cases (is_some (o.clean_up t w).0)) [
        | inl bad ↦ rw bad (returned-ok t w w' status (o.clean_up t w).0 (quiet.clean_up t w))
        | inr fine ↦
            rw fine (continued-ok t w w' status (reached, inr (inr e)) (quiet.clean_up t w))
      ]

  await_pod-ok :
      (t : Pod) (w : World) (status : AppStatus)
      → Reached t
      → RollOk o update t w (await_pod p o app update r t w status)
  unfolding await_pod
  await_pod-ok t w status reached =
      elim (Bool-cases (
        not (is_empty (get_or_empty (lookup status_key t.annotations)))
        && in_place_pending t.conditions)) [
          | inl updating ↦ rw updating (finish_in_place-ok t w status (o.is_done t) refl reached)
          | inr idle ↦
              rw idle (elim (Bool-cases (get_pod_ready t || is_some t.deletion_timestamp)) [
                | inl e ↦
                    rw e (continued-ok t w w status (reached, ready_or_gone t e) (Extends-refl w))
                | inr e ↦ rw e (returned-ok t w w status none (Extends-refl w))
              ])
        ]

  pub roll_pod-ok :
      (t : Pod) (w : World) (status : AppStatus)
      → Returns (RollOk o update t w) (roll_pod p o app update r t w status)
  unfolding roll_pod
  roll_pod-ok t w status =
      elim (Bool-cases
        (not (str_eq (get_pod_revision t) update) && not (is_some t.deletion_timestamp))) [
          | inl e ↦ rw e (start_update-ok t w status (behind_lem update t e))
          | inr e ↦ rw e (await_pod-ok t w status (is_reached update t e))
        ]
