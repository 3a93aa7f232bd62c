-- ===== src/App/InPlaceUpdate/Start/Writes.antt =====
-- What each call of an in-place update writes.
use unicore.Prelude.{pos, ◌≡◌, refl, Str, Map, List, [], ◌∷◌, ◌++◌, Option, none, some}
use unicore.Api.{App, Pod, PodCondition, condition_false, Revision}
use unicore.App.Readiness.{in_place_update_ready, find_condition, set_pod_condition}
use unicore.App.Readiness.Conditions.{set_pod_condition_lem}
use unicore.App.Platform.{
  Platform, World, Call, call, Failure, Result, ok, err, update_pod, update_pod_status,
  RetriesAsDocumented,
}
use unicore.App.Platform.Traces.{Extends, Extends-refl, Extends-trans, Extends-call}
use unicore.App.Platform.Changes.{retried-ends}
use unicore.App.Versions.{Outcome, value, panic, Returns}
use unicore.App.Versions.Partition.{Returns-bind, Returns-mono}
use unicore.App.InPlaceUpdate.Images.{Json}
use unicore.App.InPlaceUpdate.Start.{
  started_condition, mark_found, mark_attempt, mark_not_ready, annotated, note_found, note_attempt,
  note_start, changed_pod, send_changed, change_found, change_attempt, change_images,
}
use unicore.App.InPlaceUpdate.Start.Written.{HasStatuses, Changed, changed_pod-Changed}

-- What the lister gives for the pod, in some later state.
abbrev pub Listed : Platform → Pod → Pod → Type 0
Listed p pod origin = (calls : List Call) × (p.get_pod calls pod.namespace pod.name ≡ ok origin)

-- A write of the status of a listed pod in which it is not ready as to the in-place update.
abbrev pub Marks : Platform → Pod → Call → Type 0
Marks p pod c =
    (origin : Pod) × Listed p pod origin
    × (c ≡ update_pod_status (set_pod_condition origin (started_condition p.now)))
    × ((d : PodCondition) × (find_condition in_place_update_ready
            (set_pod_condition origin (started_condition p.now)).conditions
          ≡ some d)
        × (d.status ≡ condition_false))

-- A write of the status of a listed pod with the time of the start in its annotation.
abbrev pub Notes : Platform → Json → Revision → Pod → Call → Type 0
Notes p js update pod c =
    (origin : Pod) × Listed p pod origin × (c ≡ update_pod_status (annotated p js update [] origin))

-- A write of a listed pod with its new images.
abbrev pub Changes : Platform → Json → App → Revision → Map Str → Pod → Call → Type 0
Changes p js app update images pod c =
    (origin : Pod) × (q : Pod) × Listed p pod origin
    × (c ≡ update_pod q)
    × Changed p js app update images origin q

-- Each pod that the lister gives has a status for each of its containers.
abbrev pub StatusesListed : Platform → Type 0
StatusesListed p =
    (calls : List Call) (namespace name : Str) (pod : Pod)
    → p.get_pod calls namespace name ≡ ok pod
    → HasStatuses pod

-- The calls of an action with retries satisfy P, and if it returns no error, its last call was made
-- and answered without one.
abbrev pub Made : Platform → (Call → Type 0) → World → Option Failure → World → Type 0
Made p P w e w' =
    Extends P w w'
    × (e ≡ none
        → (v : World) × (c : Call) × Extends P w v
          × P c
          × (p.answer v.calls c ≡ none)
          × (w'.calls ≡ v.calls ++ c ∷ []))

call_makes :
    (p : Platform) (P : Call → Type 0) (c : Call) (start w : World)
    → P c
    → Extends P start w
    → Made p P start (call p c w).0 (call p c w).1
unfolding call
call_makes p P c start w good h =
    (Extends-trans h (Extends-call {P = P} p c w good), λ fine. (w, c, h, good, fine, refl))

module _ (p : Platform) (js : Json) (app : App) (update : Revision) (images : Map Str) (pod : Pod)
    (documented : RetriesAsDocumented p) where
  mark_found-Marks :
      (r : Result Pod) (start w : World)
      → p.get_pod w.calls pod.namespace pod.name ≡ r
      → Extends (Marks p pod) start w
      → Made p (Marks p pod) start (mark_found p r w).0 (mark_found p r w).1
  unfolding mark_found
  mark_found-Marks (err f) start w e h = (h, λ fine. cc)
  mark_found-Marks (ok origin) start w e h =
      call_makes p (Marks p pod)
        (update_pod_status (set_pod_condition origin (started_condition p.now))) start w
        (origin, (w.calls, e), refl, (set_pod_condition_lem origin (started_condition p.now)).0) h

  pub mark_not_ready-Marks :
      (w : World) → Made p (Marks p pod) w (mark_not_ready p pod w).0 (mark_not_ready p pod w).1
  unfolding mark_not_ready mark_attempt
  mark_not_ready-Marks w =
      let run = λ (v : World) (h : Extends (Marks p pod) w v).
        mark_found-Marks (p.get_pod v.calls pod.namespace pod.name) w v refl h in
      retried-ends (Extends (Marks p pod) w) (λ r. Made p (Marks p pod) w r.0 r.1)
        (λ v h. (run v h).0) run (documented.retried World (mark_attempt p pod) w) (Extends-refl w)

  note_found-Notes :
      (r : Result Pod) (start w : World)
      → p.get_pod w.calls pod.namespace pod.name ≡ r
      → Extends (Notes p js update pod) start w
      → Made p
          (Notes p js update pod)
          start
          (note_found p js update r w).0
          (note_found p js update r w).1
  unfolding note_found
  note_found-Notes (err f) start w e h = (h, λ fine. cc)
  note_found-Notes (ok origin) start w e h =
      call_makes p (Notes p js update pod) (update_pod_status (annotated p js update [] origin))
        start w (origin, (w.calls, e), refl) h

  pub note_start-Notes :
      (w : World)
      → Made p
          (Notes p js update pod)
          w
          (note_start p js update pod w).0
          (note_start p js update pod w).1
  unfolding note_start note_attempt
  note_start-Notes w =
      let run = λ (v : World) (h : Extends (Notes p js update pod) w v).
        note_found-Notes (p.get_pod v.calls pod.namespace pod.name) w v refl h in
      retried-ends (Extends (Notes p js update pod) w)
        (λ r. Made p (Notes p js update pod) w r.0 r.1) (λ v h. (run v h).0) run
        (documented.retried World (note_attempt p js update pod) w) (Extends-refl w)

  abbrev Makes : World → World → Type 0
  Makes w = Extends (Changes p js app update images pod) w

  abbrev MadeBy : World → Option Failure × Outcome World → Type 0
  MadeBy start r = Returns (Made p (Changes p js app update images pod) start r.0) r.1

  send_changed-Makes :
      (origin : Pod) (start w : World) (m : Outcome Pod)
      → p.get_pod w.calls pod.namespace pod.name ≡ ok origin
      → Returns (Changed p js app update images origin) m
      → Makes start w
      → MadeBy start (send_changed p js app update images m w)
  unfolding send_changed
  send_changed-Makes origin start w panic e made h = absurd made
  send_changed-Makes origin start w (value q) e made h =
      call_makes p (Changes p js app update images pod) (update_pod q) start w
        (origin, q, (w.calls, e), refl, made) h

  module _ (listed : StatusesListed p) where
    change_found-Makes :
        (r : Result Pod) (start w : World)
        → p.get_pod w.calls pod.namespace pod.name ≡ r
        → Makes start w
        → MadeBy start (change_found p js app update images r w)
    unfolding change_found
    change_found-Makes (err f) start w e h = (h, λ fine. cc)
    change_found-Makes (ok origin) start w e h =
        send_changed-Makes origin start w (changed_pod p js app update images origin) e
          (changed_pod-Changed p js app update images origin
            (listed w.calls pod.namespace pod.name origin e))
          h

    change_attempt-Makes :
        (start : World) (s : Outcome World)
        → Returns (Makes start) s
        → MadeBy start (change_attempt p js app update images pod s)
    unfolding change_attempt
    change_attempt-Makes start panic h = absurd h
    change_attempt-Makes start (value w) h =
        change_found-Makes (p.get_pod w.calls pod.namespace pod.name) start w refl h

    change_attempt-keeps :
        (start : World) (s : Outcome World)
        → Returns (Makes start) s
        → Returns (Makes start) (change_attempt p js app update images pod s).1
    change_attempt-keeps start s h =
        let r = change_attempt p js app update images pod s in
        Returns-mono (Made p (Changes p js app update images pod) start r.0) (Makes start) r.1
          (change_attempt-Makes start s h) (λ w made. made.0)

    pub change_images-Makes :
        (w : World)
        → Returns
            (λ a. (a.0.1 ≡ pos 0) × Made p (Changes p js app update images pod) w a.0.0 a.1)
            (change_images p js app update images pod w)
    unfolding change_images
    change_images-Makes w =
        let r =
          p.retry_on_conflict (Outcome World) (change_attempt p js app update images pod)
            (value w) in
        Returns-bind (Made p (Changes p js app update images pod) w r.0)
          (λ a. (a.0.1 ≡ pos 0) × Made p (Changes p js app update images pod) w a.0.0 a.1) r.1 _
          (retried-ends (Returns (Makes w)) (MadeBy w) (change_attempt-keeps w)
            (change_attempt-Makes w)
            (documented.retried (Outcome World) (change_attempt p js app update images pod)
              (value w))
            (Extends-refl w))
          (λ w' h. (refl, h))
