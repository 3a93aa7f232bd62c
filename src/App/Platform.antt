-- ===== src/App/Platform.antt =====
-- What the controllers use and do not implement: the API server with its listers, client-go's
-- retry.RetryOnConflict, the pod built from a template, label selectors and strategic merge patches.
-- They are one record, which the definitions take as an argument.
pub mod Traces
pub mod Changes
use unicore.Prelude.{ℕ, Str, Map, List, [], ◌∷◌, ◌++◌, Option, some, ◌≡◌, ◌≢◌, refl, ◌⊎◌, inl, inr}
use unicore.Api.{App, AppStatus, Pod, Claim, Revision}
use unicore.RequeueDuration.{Store}

-- The kinds of error that the code tells apart; a wrapped error is `other_failure`.
pub data Failure : Type 0 where
  not_found already_exists conflict other_failure : Failure

pub data Result {ℓ} (A : Type ℓ) : Type ℓ where
  ok : A → Result A
  err : Failure → Result A

pub Result-cases {ℓ} :
    {A : Type ℓ} (r : Result A) → ((a : A) × (r ≡ ok a)) ⊎ ((f : Failure) × (r ≡ err f))
Result-cases (ok a) = inl (a, refl)
Result-cases (err f) = inr (f, refl)

-- The calls that change the cluster.
pub data Call : Type 0 where
  create_pod update_pod update_pod_status : Pod → Call
  delete_pod : (namespace name : Str) → Call
  create_claim : Claim → Call
  send_app : App → Call
  send_app_status : App → AppStatus → Call
  delete_revision : Revision → Call

-- The calls made so far, oldest first, and the requeue_duration store.
pub record World : Type 0 where
  pub calls : List Call
  pub durations : Store

-- An action that may fail: `none` is a nil error.
abbrev pub Attempt : Type 0 → Type 0
Attempt S = S → Option Failure × S

-- What the documentation of RetryOnConflict says: it runs the body, runs it again as long as it
-- fails by a conflict, may give up after any conflict, and returns the last error.
pub data Retried {S : Type 0} (body : Attempt S) : S → Option Failure × S → Type 0 where
  settled : (s : S) → (body s).0 ≢ some conflict → Retried body s (body s)
  given_up : (s : S) → (body s).0 ≡ some conflict → Retried body s (body s)
  again :
      (s : S) (r : Option Failure × S)
      → (body s).0 ≡ some conflict
      → Retried body (body s).1 r
      → Retried body s r

-- `now` is the clock of one pass; the answers may depend on all calls made before.
pub record Platform : Type 1 where
  pub now : ℕ
  pub answer : List Call → Call → Option Failure
  pub get_claim : List Call → Str → Str → Result Claim
  pub get_pod : List Call → Str → Str → Result Pod
  pub get_app : List Call → Str → Str → Result App
  pub pod_from_template : App → Pod
  pub selector_string : Map Str → Result Str
  pub patch_app : App → Str → Result App
  pub failure_text : Failure → Str
  pub retry_on_conflict : (S : Type 0) → Attempt S → Attempt S

pub record RetriesAsDocumented (p : Platform) : Type 1 where
  pub retried :
      (S : Type 0) (body : Attempt S) (s : S) → Retried body s (p.retry_on_conflict S body s)

unfoldable pub call : Platform → Call → Attempt World
call p c w = (p.answer w.calls c, record w { calls = w.calls ++ c ∷ [] })
