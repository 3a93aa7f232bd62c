-- ===== src/App/PodControl/Effects.antt =====
-- Which calls each operation of the pod controller makes, on every branch.
use unicore.Prelude.{
  ◌≡◌, ◌∙◌, ◌↔◌, refl, ◌⊎◌, inl, inr, true, false, Map, Str, List, [], ◌∷◌, ◌++◌, Option, none,
  some, arith, is_some, All, Bool-cases, Option-cases,
}
use unicore.Api.{App, Pod, Claim}
use unicore.App.Identity.{get_pvc_from_app, match_app_and_pod, match_app_pvc}
use unicore.App.Readiness.{inject_readiness_gate}
use unicore.App.Platform.{
  Platform, World, Call, create_pod, delete_pod, create_claim, Failure, not_found, already_exists,
  conflict, other_failure, Result, ok, err, call, RetriesAsDocumented,
}
use unicore.App.Platform.Traces.{
  Extends, Extends-refl, Extends-trans, Extends-mono, Extends-call, one_run,
}
use unicore.App.PodControl.{
  ensure_claim, create_claims, create_pvc, create_stateful_pod, ignore_not_found,
  delete_stateful_pod, update_attempt, update_stateful_pod,
}

-- What createPVC found for a claim: `v` is the world at the time of the lookup.
abbrev pub IsMissing : Platform → List Call → Claim → Type 0
IsMissing p calls c = p.get_claim calls c.namespace c.name ≡ err not_found

-- A call of createPVC creates one of the claims of the map.
abbrev pub CreatesFrom : Map Claim → Call → Type 0
CreatesFrom [] c = ⊥
CreatesFrom ((k, t) ∷ m) c = (c ≡ create_claim t) ⊎ CreatesFrom m c

ensure_claim-Extends :
    (p : Platform) (t : Claim) (r : Result Claim) (w : World)
    → Extends (λ c. c ≡ create_claim t) w (ensure_claim p t r w).1
unfolding ensure_claim
ensure_claim-Extends p t (ok pvc) w = Extends-refl w
ensure_claim-Extends p t (err not_found) w = Extends-call p (create_claim t) w refl
ensure_claim-Extends p t (err already_exists) w = Extends-refl w
ensure_claim-Extends p t (err conflict) w = Extends-refl w
ensure_claim-Extends p t (err other_failure) w = Extends-refl w

CreatesFrom-cons :
    (k : Str) (t : Claim) (m : Map Claim) (c : Call)
    → c ≡ create_claim t
    → CreatesFrom ((k, t) ∷ m) c
CreatesFrom-cons k t m c e = inl e

create_claims-Extends :
    (p : Platform) (m : Map Claim) (w : World) → Extends (CreatesFrom m) w (create_claims p m w).1
unfolding create_claims
create_claims-Extends p [] w = Extends-refl w
create_claims-Extends p ((k, t) ∷ m) w =
    let r = p.get_claim w.calls t.namespace t.name in
    let first =
      Extends-mono (λ c. c ≡ create_claim t) (CreatesFrom ((k, t) ∷ m)) (λ c e. inl e)
        (ensure_claim-Extends p t r w) in
    let w' = (ensure_claim p t r w).1 in
    let later =
      Extends-mono (CreatesFrom m) (CreatesFrom ((k, t) ∷ m)) (λ c e. inr e)
        (create_claims-Extends p m w') in
    elim (Bool-cases (is_some (ensure_claim p t r w).0)) [
      | inl failed ↦ rw failed first
      | inr fine ↦ rw fine (Extends-trans first later)
    ]

-- The claim exists and is not being deleted, or was missing and was created, at some moment.
abbrev pub InPlace : Platform → Claim → Type 0
InPlace p t =
    (cs : List Call) × (((pvc : Claim) × (p.get_claim cs t.namespace t.name ≡ ok pvc)
        × (pvc.deletion_timestamp ≡ none))
      ⊎ (p.get_claim cs t.namespace t.name ≡ err not_found) × (p.answer cs (create_claim t) ≡ none))

ensure_claim-InPlace :
    (p : Platform) (t : Claim) (r : Result Claim) (w : World)
    → p.get_claim w.calls t.namespace t.name ≡ r
    → (ensure_claim p t r w).0 ≡ none
    → InPlace p t
unfolding ensure_claim call
ensure_claim-InPlace p t (ok pvc) w e h = (w.calls, inl (pvc, e, ground arith))
ensure_claim-InPlace p t (err not_found) w e h = (w.calls, inr (e, ground arith))
ensure_claim-InPlace p t (err already_exists) w e h = cc
ensure_claim-InPlace p t (err conflict) w e h = cc
ensure_claim-InPlace p t (err other_failure) w e h = cc

create_claims-InPlace :
    (p : Platform) (m : Map Claim) (w : World)
    → (create_claims p m w).0 ≡ none
    → All (λ (e : Str × Claim). InPlace p e.1) m
unfolding create_claims
create_claims-InPlace p [] w h = tt
create_claims-InPlace p ((k, t) ∷ m) w h =
    let r = p.get_claim w.calls t.namespace t.name in
    let w' = (ensure_claim p t r w).1 in
    elim (Option-cases (ensure_claim p t r w).0) [
      | inl fine ↦
          (ensure_claim-InPlace p t r w refl fine, create_claims-InPlace p m w' (rw fine at h))
      | inr (f, failed) ↦ let g = rw failed at h in cc
    ]

-- createPVC creates only claims of the pod, and when it returns no error, each claim of the pod was
-- found and not being deleted, or was missing and was created.
pub create_pvc_lem :
    (p : Platform) (app : App) (pod : Pod) (w : World)
    → Extends (CreatesFrom (get_pvc_from_app app pod)) w (create_pvc p app pod w).1
      × ((create_pvc p app pod w).0 ≡ none
          → All (λ (e : Str × Claim). InPlace p e.1) (get_pvc_from_app app pod))
unfolding create_pvc
create_pvc_lem p app pod w =
    let m = get_pvc_from_app app pod in (create_claims-Extends p m w, create_claims-InPlace p m w)

-- A pod is created last.
abbrev pub CreatesPod : App → Pod → Call → Type 0
CreatesPod app pod c =
    CreatesFrom (get_pvc_from_app app pod) c ⊎ (c ≡ create_pod (inject_readiness_gate pod))

create_stateful_pod-Extends :
    (p : Platform) (app : App) (pod : Pod) (w : World)
    → Extends (CreatesPod app pod) w (create_stateful_pod p app pod w).1
unfolding create_stateful_pod
create_stateful_pod-Extends p app pod w =
    let w' = (create_pvc p app pod w).1 in
    let claims =
      Extends-mono (CreatesFrom (get_pvc_from_app app pod)) (CreatesPod app pod) (λ c e. inl e)
        (create_pvc_lem p app pod w).0 in
    elim (Bool-cases (is_some (create_pvc p app pod w).0)) [
      | inl failed ↦ rw failed claims
      | inr fine ↦ rw fine (
          Extends-trans claims
            (Extends-call p (create_pod (inject_readiness_gate pod)) w' (inr refl)))
    ]

-- CreateStatefulPod creates only claims of the pod and the pod with its readiness gate. When it
-- returns no error, each claim was in place or created, and then its last call created the pod.
pub create_stateful_pod_lem :
    (p : Platform) (app : App) (pod : Pod) (w : World)
    → Extends (CreatesPod app pod) w (create_stateful_pod p app pod w).1
      × ((create_stateful_pod p app pod w).0 ≡ none
          → All (λ (e : Str × Claim). InPlace p e.1) (get_pvc_from_app app pod)
            × (cs : List Call) × ((create_stateful_pod p app pod w).1.calls
                ≡ cs ++ create_pod (inject_readiness_gate pod) ∷ [])
            × (p.answer cs (create_pod (inject_readiness_gate pod)) ≡ none))
unfolding create_stateful_pod call
create_stateful_pod_lem p app pod w = (
  create_stateful_pod-Extends p app pod w,
  λ h. elim (Option-cases (create_pvc p app pod w).0) [
    | inl fine ↦ (
      (create_pvc_lem p app pod w).1 fine,
      (create_pvc p app pod w).1.calls,
      rw fine,
      (rw fine at h),
    )
    | inr (f, failed) ↦ let g = rw failed at h in cc
  ],
)

ignore_not_found-none :
    (e : Option Failure) → (ignore_not_found e ≡ none) ↔ ((e ≡ none) ⊎ (e ≡ some not_found))
ignore_not_found-none none = (λ h. inl refl, λ h. refl)
ignore_not_found-none (some not_found) = (λ h. inr refl, λ h. refl)
ignore_not_found-none (some already_exists) = (λ h. cc, λ h. ground arith)
ignore_not_found-none (some conflict) = (λ h. cc, λ h. ground arith)
ignore_not_found-none (some other_failure) = (λ h. cc, λ h. ground arith)

-- DeleteStatefulPod does nothing to a pod that is already being deleted. For any other pod it makes
-- one call, the deletion of that pod, and fails exactly when that fails by another error than
-- not-found.
delete_stateful_pod_lem :
    (p : Platform) (pod : Pod) (w : World)
    → (is_some pod.deletion_timestamp ≡ true → delete_stateful_pod p pod w ≡ (none, w))
      × (is_some pod.deletion_timestamp ≡ false
          → ((delete_stateful_pod p pod w).1.calls
              ≡ w.calls ++ delete_pod pod.namespace pod.name ∷ [])
            × (((delete_stateful_pod p pod w).0 ≡ none) ↔ (
                (p.answer w.calls (delete_pod pod.namespace pod.name) ≡ none)
                ⊎ (p.answer w.calls (delete_pod pod.namespace pod.name) ≡ some not_found))))
unfolding delete_stateful_pod call
delete_stateful_pod_lem p pod w = (
  λ gone. rw gone,
  λ live.
      rw live (refl, ignore_not_found-none (p.answer w.calls (delete_pod pod.namespace pod.name))),
)

skips :
    (p : Platform) (app : App) (pod : Pod) (w : World)
    → match_app_and_pod app pod ≡ true
    → match_app_pvc app pod ≡ false
    → update_attempt p app (w, pod) ≡ (none, (w, pod))
unfolding update_attempt
skips p app pod w named unmatched = simp (named, unmatched)

-- UpdateStatefulPod, with retries as documented, sees no need for an update of a pod that has the
-- app's identity and whose volumes do not match its claims: it returns no error and makes no call.
update_stateful_pod_skips_volumes :
    (p : Platform) (app : App) (pod : Pod) (w : World)
    → RetriesAsDocumented p
    → match_app_and_pod app pod ≡ true
    → match_app_pvc app pod ≡ false
    → update_stateful_pod p app pod w ≡ (none, w)
unfolding update_stateful_pod
update_stateful_pod_skips_volumes p app pod w documented named unmatched =
    let once = skips p app pod w named unmatched in
    let r =
      one_run (documented.retried (World × Pod) (update_attempt p app) (w, pod))
        (rw once (λ e. cc)) in
    rw (r ∙ once)
