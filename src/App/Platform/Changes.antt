-- ===== src/App/Platform/Changes.antt =====
-- How many calls create or delete a pod, and how an action changes that number.
use unicore.Prelude.{
  ℕ, ◌+◌, ◌≤◌, ◌≡◌, refl, ◌∙◌, ap, Bool, true, false, List, [], ◌∷◌, ◌++◌, arith, All, Option,
  length, keep, keep-append, length-append,
}
use unicore.App.Platform.{
  Platform, World, Call, create_pod, delete_pod, call, Attempt, Failure, Retried, settled, given_up,
  again,
}
use unicore.App.Platform.Traces.{Extends}

abbrev pub is_pod_change : Call → Bool
is_pod_change (create_pod pod) = true
is_pod_change (delete_pod namespace name) = true
is_pod_change _ = false

-- The number of pods created and deleted so far.
unfoldable pub pod_changes : World → ℕ
pod_changes w = length (keep is_pod_change w.calls)

abbrev pub IsQuiet : Call → Type 0
IsQuiet c = is_pod_change c ≡ false

quiet-none : (cs : List Call) → All IsQuiet cs → length (keep is_pod_change cs) ≡ 0
quiet-none [] h = refl
quiet-none (c ∷ cs) h = rw h.0 (quiet-none cs h.1)

count-append :
    (cs ds : List Call)
    → length (keep is_pod_change (cs ++ ds))
      ≡ length (keep is_pod_change cs) + length (keep is_pod_change ds)
count-append cs ds =
    ap length (keep-append is_pod_change cs ds)
    ∙ length-append (keep is_pod_change cs) (keep is_pod_change ds)

-- Calls that neither create nor delete a pod leave the number as it is.
pub pod_changes-quiet : {w w' : World} → Extends IsQuiet w w' → pod_changes w' ≡ pod_changes w
unfolding pod_changes
pod_changes-quiet {w} {w'} x =
    rw x.calls (omega (arith, count-append w.calls x.new, quiet-none x.new x.holds))

one : (c : Call) → length (keep is_pod_change (c ∷ [])) ≤ 1
one c = ground arith

pub pod_changes-call :
    (p : Platform) (c : Call) (w : World) → pod_changes (call p c w).1 ≤ pod_changes w + 1
unfolding pod_changes call
pod_changes-call p c w = omega (arith, count-append w.calls (c ∷ []), one c)

-- What every run of the body keeps, the retries keep.
pub retried-keeps {ℓ} :
    {S : Type 0} {body : Attempt S} (P : S → Type ℓ) {s : S} {r : Option Failure × S}
    → ((t : S) → P t → P (body t).1)
    → Retried body s r
    → P s
    → P r.1
retried-keeps P step (settled s e) h = step s h
retried-keeps P step (given_up s e) h = step s h
retried-keeps P step (again s r e later) h = retried-keeps P step later (step s h)

-- What holds after every run of the body holds after the retries.
pub retried-ends {ℓ κ} :
    {S : Type 0} {body : Attempt S} (P : S → Type ℓ) (Q : Option Failure × S → Type κ) {s : S}
    {r : Option Failure × S}
    → ((t : S) → P t → P (body t).1)
    → ((t : S) → P t → Q (body t))
    → Retried body s r
    → P s
    → Q r
retried-ends P Q step end (settled s e) h = end s h
retried-ends P Q step end (given_up s e) h = end s h
retried-ends P Q step end (again s r e later) h = retried-ends P Q step end later (step s h)
