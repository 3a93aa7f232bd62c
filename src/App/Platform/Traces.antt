-- ===== src/App/Platform/Traces.antt =====
-- How an action extends the list of calls: the calls it adds all satisfy a predicate.
use unicore.Prelude.{
  if_either, Bool, if◌then◌else◌, Option, some, ◌≢◌, ◌≡◌, refl, ◌∙◌, ap, sym, List, [], ◌∷◌, ◌++◌,
  append-nil, append_assoc, All, All-append, All-mono,
}
use unicore.App.Platform.{
  Platform, World, Call, call, Attempt, Failure, conflict, Retried, settled, given_up, again,
}

-- `w'` is `w` after some calls that satisfy P.
pub record Extends (P : Call → Type 0) (w w' : World) : Type 0 where
  pub new : List Call
  pub calls : w'.calls ≡ w.calls ++ new
  pub holds : All P new

module _ {P : Call → Type 0} where
  pub Extends-refl : (w : World) → Extends P w w
  Extends-refl w = record { new = []; calls = sym (append-nil w.calls); holds = tt }

  pub Extends-trans : {u v w : World} → Extends P u v → Extends P v w → Extends P u w
  Extends-trans {u} a b = record {
    new = a.new ++ b.new;
    calls = b.calls ∙ ap (λ cs. cs ++ b.new) a.calls ∙ append_assoc u.calls a.new b.new;
    holds = All-append P a.new b.new a.holds b.holds;
  }

  pub Extends-call : (p : Platform) (c : Call) (w : World) → P c → Extends P w (call p c w).1
  unfolding call
  Extends-call p c w h = record { new = c ∷ []; calls = refl; holds = (h, tt) }

pub Extends-mono :
    (P Q : Call → Type 0) {w w' : World}
    → ((c : Call) → P c → Q c)
    → Extends P w w'
    → Extends Q w w'
Extends-mono P Q f x = record { new = x.new; calls = x.calls; holds = All-mono P Q f x.new x.holds }

-- A body that does not fail by a conflict is run once.
pub one_run :
    {S : Type 0} {body : Attempt S} {s : S} {r : Option Failure × S}
    → Retried body s r
    → (body s).0 ≢ some conflict
    → r ≡ body s
one_run (settled s e) h = refl
one_run (given_up s e) h = absurd (h e)
one_run (again s r e later) h = absurd (h e)

-- A test between two actions.
pub if_Extends :
    {P : Call → Type 0} (b : Bool) (w : World) (r s : Option Failure × World)
    → Extends P w r.1
    → Extends P w s.1
    → Extends P w (if b then r else s).1
if_Extends {P} b w r s h k = if_either (λ (x : Option Failure × World). Extends P w x.1) b r s h k
