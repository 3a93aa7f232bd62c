-- ===== src/App/Status/Consistency.antt =====
-- When the controller writes a status back, and what setAppCondition and completeRollingUpdate do
-- to it.
use unicore.Prelude.{
  ◌≤◌, ℤ, ◌≡◌, ◌≢◌, ◌∙◌, ◌&&◌, ◌↔◌, refl, true, not, Str, str_eq, str_eq_iff, str_eq_refl, eqb_ℤ,
  List, [], ◌∷◌, ◌++◌, Option, none, some, arith, keep, Bool-cases, inl, inr,
}
use unicore.Api.{AppStatus, AppCondition}
use unicore.App.Readiness.{same_status}
use unicore.App.Readiness.Conditions.{same_status_iff}
use unicore.App.Status.{
  status_consistent, get_app_condition, replace_condition, set_found, set_app_condition,
}

-- The part of a status that statusConsistent compares.
pub record Agrees (old new : AppStatus) : Type 0 where
  pub generation : new.observed_generation ≤ old.observed_generation
  pub replicas : new.replicas ≡ old.replicas
  pub current : new.current_replicas ≡ old.current_replicas
  pub ready : new.ready_replicas ≡ old.ready_replicas
  pub available : new.available_replicas ≡ old.available_replicas
  pub updated : new.updated_replicas ≡ old.updated_replicas
  pub current_revision : new.current_revision ≡ old.current_revision
  pub update_revision : new.update_revision ≡ old.update_revision
  pub label_selector : new.label_selector ≡ old.label_selector

eqb_ℤ_iff : (a b : ℤ) → (eqb_ℤ a b ≡ true) ↔ (a ≡ b)
eqb_ℤ_iff a b = ground arith

agrees :
    (old new : AppStatus)
    → old.volume_claims ≡ []
    → status_consistent old new ≡ true
    → Agrees old new
unfolding status_consistent
agrees old new h e = ground (
  arith,
  str_eq_iff new.current_revision old.current_revision,
  str_eq_iff new.update_revision old.update_revision,
  str_eq_iff new.label_selector old.label_selector,
  eqb_ℤ_iff new.current_replicas old.current_replicas,
)

-- For an app whose stored status has no volume claims, statusConsistent holds exactly when the new
-- status has observed no later generation and agrees in the five counters that it compares, in both
-- revisions and in the selector. Conditions, UpdatedReadyReplicas, UpdatedAvailableReplicas and
-- CollisionCount may differ: such a change is not written back.
status_consistent_iff :
    (old new : AppStatus)
    → old.volume_claims ≡ []
    → (status_consistent old new ≡ true) ↔ Agrees old new
unfolding status_consistent
status_consistent_iff old new h = (
  (λ e. agrees old new h e),
  (λ a. rw h (
      ground (
        arith,
        a.current,
        str_eq_refl old.current_revision,
        str_eq_refl old.update_revision,
        str_eq_refl old.label_selector,
      ))),
)

get-keep :
    (t u : Str) (cs rest : List AppCondition)
    → t ≢ u
    → get_app_condition t (keep (λ c. not (str_eq c.condition_type u)) cs ++ rest)
      ≡ get_app_condition t (cs ++ rest)
unfolding get_app_condition
get-keep t u [] rest ne = refl
get-keep t u (c ∷ cs) rest ne =
    ground
      (arith, str_eq_iff c.condition_type u, str_eq_iff c.condition_type t, get-keep t u cs rest ne)

get-keep_self :
    (u : Str) (cs : List AppCondition) (new : AppCondition)
    → new.condition_type ≡ u
    → get_app_condition u (keep (λ c. not (str_eq c.condition_type u)) cs ++ new ∷ []) ≡ some new
unfolding get_app_condition
get-keep_self u [] new e = ground (arith, str_eq_iff new.condition_type u)
get-keep_self u (c ∷ cs) new e = ground (arith, get-keep_self u cs new e)

set_found-get :
    (found : Option AppCondition) (new : AppCondition) (status : AppStatus)
    → get_app_condition new.condition_type status.conditions ≡ found
    → (c : AppCondition) × (get_app_condition new.condition_type
          (set_found found new status).conditions
        ≡ some c)
      × (c.status ≡ new.status)
      × (c.reason ≡ new.reason)
unfolding set_found
set_found-get none new status e =
    (new, get-keep_self new.condition_type status.conditions new refl, refl, refl)
set_found-get (some c) new status e = elim (Bool-cases (same_status c.status new.status)) [
  | inl same ↦ elim (Bool-cases (str_eq c.reason new.reason)) [
    | inl said ↦
        (c, rw (same, said) e, same_status_iff _ _ same, (str_eq_iff c.reason new.reason).0 said)
    | inr other ↦
        let kept = record new { last_transition = c.last_transition } in
        (
          kept,
          rw (same, other) (get-keep_self new.condition_type status.conditions kept refl),
          refl,
          refl,
        )
  ]
  | inr changed ↦
      (new, rw changed (get-keep_self new.condition_type status.conditions new refl), refl, refl)
]

get-last_ne :
    (t : Str) (cs : List AppCondition) (new : AppCondition)
    → t ≢ new.condition_type
    → get_app_condition t (cs ++ new ∷ []) ≡ get_app_condition t cs
unfolding get_app_condition
get-last_ne t [] new ne = ground (arith, str_eq_iff new.condition_type t)
get-last_ne t (c ∷ cs) new ne = ground (arith, get-last_ne t cs new ne)

get-replace_ne :
    (t : Str) (cs : List AppCondition) (new : AppCondition)
    → t ≢ new.condition_type
    → get_app_condition t (replace_condition new cs) ≡ get_app_condition t cs
get-replace_ne t cs new ne =
    get-keep t new.condition_type cs (new ∷ []) ne ∙ get-last_ne t cs new ne

set_found-get_ne :
    (found : Option AppCondition) (new : AppCondition) (t : Str) (status : AppStatus)
    → t ≢ new.condition_type
    → get_app_condition t (set_found found new status).conditions
      ≡ get_app_condition t status.conditions
unfolding set_found
set_found-get_ne none new t status ne = get-replace_ne t status.conditions new ne
set_found-get_ne (some c) new t status ne =
    elim (Bool-cases (same_status c.status new.status && str_eq c.reason new.reason)) [
      | inl e ↦ rw e
      | inr e ↦ rw e (elim (Bool-cases (same_status c.status new.status)) [
        | inl same ↦ rw same (
            get-replace_ne t status.conditions (record new { last_transition = c.last_transition })
              ne)
        | inr changed ↦ rw changed (get-replace_ne t status.conditions new ne)
      ])
    ]

-- After setAppCondition the status has a condition of the given type with the given status and
-- reason, and its first condition of every other type is the one it had. (The message of an equal
-- condition is not updated.)
set_app_condition_lem :
    (new : AppCondition) (status : AppStatus)
    → ((c : AppCondition) × (get_app_condition new.condition_type
            (set_app_condition new status).conditions
          ≡ some c)
        × (c.status ≡ new.status)
        × (c.reason ≡ new.reason))
      × ((t : Str)
          → t ≢ new.condition_type
          → get_app_condition t (set_app_condition new status).conditions
            ≡ get_app_condition t status.conditions)
unfolding set_app_condition
set_app_condition_lem new status = (
  set_found-get (get_app_condition new.condition_type status.conditions) new status refl,
  λ t ne. set_found-get_ne (get_app_condition new.condition_type status.conditions) new t status ne,
)
