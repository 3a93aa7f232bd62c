-- ===== src/Examples/Cluster.antt =====
-- A cluster that accepts every call, and in-place operations that do nothing.
use unicore.Prelude.{ℕ, zero, suc, true, codes, [], Option, none, some, ◌≡◌, refl, sym, ◌∙◌, pos}
use unicore.Api.{no_phase}
use unicore.App.Platform.{
  Platform, World, Failure, not_found, already_exists, conflict, other_failure, ok, err, Attempt,
  Retried, settled, given_up, again, RetriesAsDocumented,
}
use unicore.App.Platform.Traces.{Extends-refl}
use unicore.App.Versions.{value}
use unicore.App.Update.Rolling.{InPlace}
use unicore.App.Update.Rolling.OneTarget.{QuietInPlace}
use unicore.Examples.Data.{pod_of}

abbrev unless_conflict {ℓ} : {A : Type ℓ} → Option Failure → A → A → A
unless_conflict (some conflict) next done = next
unless_conflict _ next done = done

-- At most `n` more attempts.
abbrev pub retry : ℕ → (S : Type 0) → Attempt S → Attempt S
retry zero S body s = body s
retry (suc n) S body s =
    let rest = retry n S body (body s).1 in unless_conflict (body s).0 rest (body s)

-- retry.DefaultRetry makes five attempts.
abbrev pub cluster : Platform
cluster = record {
  now = 100000000000;
  answer = λ calls c. none;
  get_claim = λ calls namespace name. err not_found;
  get_pod = λ calls namespace name. err not_found;
  get_app = λ calls namespace name. err not_found;
  pod_from_template = λ app. pod_of [] [] no_phase [];
  selector_string = λ labels. ok (codes "app=web");
  patch_app = λ app raw. ok app;
  failure_text = λ f. codes "failed";
  retry_on_conflict = retry 4;
}

attempts_lem :
    (S : Type 0) (body : Attempt S) (s : S) (rest : Option Failure × S) (e : Option Failure)
    → (body s).0 ≡ e
    → Retried body (body s).1 rest
    → Retried body s (unless_conflict e rest (body s))
attempts_lem S body s rest none at later = settled s (λ f. cc)
attempts_lem S body s rest (some not_found) at later = settled s (λ f. let g = sym at ∙ f in cc)
attempts_lem S body s rest (some already_exists) at later =
    settled s (λ f. let g = sym at ∙ f in cc)
attempts_lem S body s rest (some other_failure) at later = settled s (λ f. let g = sym at ∙ f in cc)
attempts_lem S body s rest (some conflict) at later = again s rest at later

last_try :
    (S : Type 0) (body : Attempt S) (s : S) (e : Option Failure)
    → (body s).0 ≡ e
    → Retried body s (body s)
last_try S body s none at = settled s (λ f. cc)
last_try S body s (some not_found) at = settled s (λ f. let g = sym at ∙ f in cc)
last_try S body s (some already_exists) at = settled s (λ f. let g = sym at ∙ f in cc)
last_try S body s (some other_failure) at = settled s (λ f. let g = sym at ∙ f in cc)
last_try S body s (some conflict) at = given_up s at

retry-Retried : (n : ℕ) (S : Type 0) (body : Attempt S) (s : S) → Retried body s (retry n S body s)
retry-Retried zero S body s = last_try S body s (body s).0 refl
retry-Retried (suc n) S body s =
    attempts_lem S body s (retry n S body (body s).1) (body s).0 refl
      (retry-Retried n S body (body s).1)

pub cluster-Documented : RetriesAsDocumented cluster
cluster-Documented = record { retried = retry-Retried 4 }

abbrev pub idle : InPlace
idle = record {
  update = λ app pod w. value ((none, pos 0), w);
  is_done = λ pod. ok true;
  clean_up = λ pod w. (none, w);
}

pub idle-Quiet : QuietInPlace idle
idle-Quiet = record { update = λ app pod w. Extends-refl w; clean_up = λ pod w. Extends-refl w }

abbrev pub start : World
start = record { calls = []; durations = [] }
