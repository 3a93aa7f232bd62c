-- ===== src/Scheduler/Reserve/Removal.antt =====
-- What Reserve takes out of the config map.
use unicore.Prelude.{
  ◌≡◌, refl, ◌∙◌, ap, sym, subst, if◌then◌else◌, Bool, true, false, not, Str, List, [], ◌∷◌, ◌++◌,
  keep, keep-All, All, append-nil, append_assoc, All-append, arith, lookup, Option, some,
}
use unicore.Api.{Pod}
use unicore.App.Platform.{Failure, Result, ok, err, Attempt, Retried, settled, given_up, again}
use unicore.App.Platform.Changes.{retried-keeps}
use unicore.Scheduler.{success}
use unicore.Scheduler.Reserve.{
  Reservation, Table, Data, Store, is_own, or_nothing, prune, drops, dump_to_config_map,
  update_attempt, update_cm, reserve,
}
use unicore.Scheduler.Reserve.Expiry.{lookup-prune}

pub record RetriesAsDocumented (c : Store) : Type 1 where
  pub retried :
      (S : Type 0) (body : Attempt S) (s : S) → Retried body s (c.retry_on_conflict S body s)

keep-no_drops :
    (stays : Reservation → Bool) (rs : List Reservation)
    → drops stays rs ≡ false
    → keep stays rs ≡ rs
keep-no_drops stays [] h = refl
keep-no_drops stays (r ∷ rs) h = ground (arith, keep-no_drops stays rs)

prune-unchanged :
    (stays : Reservation → Bool) (table : Table)
    → (prune stays table).1 ≡ false
    → (prune stays table).0 ≡ table
unfolding prune
prune-unchanged stays [] h = refl
prune-unchanged stays ((n, rs) ∷ table) h =
    ground (arith, prune-unchanged stays table, keep-no_drops stays rs)

-- The data sent after `before` all encode the table.
abbrev pub Sends : Store → Table → List Data → List Data → Type 0
Sends c table before after =
    (new : List Data) × (after ≡ before ++ new) × All (λ d. dump_to_config_map c table ≡ ok d) new

Sends-refl : (c : Store) (table : Table) (sent : List Data) → Sends c table sent sent
Sends-refl c table sent = ([], sym (append-nil sent), tt)

after_dump :
    (c : Store) (table : Table) (start sent : List Data)
    → Sends c table start sent
    → (r : Result Data) → dump_to_config_map c table ≡ r
    → Sends c table start
        (elim r as (λ x. Option Failure × List Data) [
          | err f ↦ (some f, sent)
          | ok out ↦ (c.answer sent out, sent ++ out ∷ [])
        ]).1
after_dump c table start sent kept (err f) h = kept
after_dump c table start sent (new, e, all) (ok out) h = (
  new ++ out ∷ [],
  ap (λ l. l ++ out ∷ []) e ∙ append_assoc start new (out ∷ []),
  All-append (λ d. dump_to_config_map c table ≡ ok d) new (out ∷ []) all (h, tt),
)

after_get :
    (c : Store) (table : Table) (start sent : List Data)
    → Sends c table start sent
    → (r : Result Data)
    → Sends c table start
        (elim r as (λ x. Option Failure × List Data) [
          | err f ↦ (some f, sent)
          | ok old ↦ elim (dump_to_config_map c table) as (λ x. Option Failure × List Data) [
            | err f ↦ (some f, sent)
            | ok out ↦ (c.answer sent out, sent ++ out ∷ [])
          ]
        ]).1
after_get c table start sent kept (err f) = kept
after_get c table start sent kept (ok old) =
    after_dump c table start sent kept (dump_to_config_map c table) refl

if_Sends :
    (c : Store) (table : Table) (sent after : List Data) (b : Bool)
    → Sends c table sent after
    → Sends c table sent (if b then after else sent)
if_Sends c table sent after true h = h
if_Sends c table sent after false h = Sends-refl c table sent

if_unchanged : (after sent : List Data) (b : Bool) → b ≡ false → (if b then after else sent) ≡ sent
if_unchanged after sent true h = cc
if_unchanged after sent false h = refl

update_attempt-Sends :
    (c : Store) (table : Table) (start sent : List Data)
    → Sends c table start sent
    → Sends c table start (update_attempt c table sent).1
unfolding update_attempt
update_attempt-Sends c table start sent kept = after_get c table start sent kept (c.get_data sent)

update_cm-Sends :
    (c : Store) (table : Table) (sent : List Data)
    → RetriesAsDocumented c
    → Sends c table sent (update_cm c table sent).1
unfolding update_cm
update_cm-Sends c table sent documented =
    retried-keeps (Sends c table sent) (λ s. update_attempt-Sends c table sent s)
      (documented.retried (List Data) (update_attempt c table) sent) (Sends-refl c table sent)

-- The data is the first that is sent after `before`.
abbrev pub FirstSent : List Data → Data → List Data → Type 0
FirstSent before d after = (more : List Data) × (after ≡ before ++ d ∷ more)

FirstSent-keep :
    (c : Store) (table : Table) (sent : List Data) (d : Data) (s : List Data)
    → FirstSent sent d s
    → FirstSent sent d (update_attempt c table s).1
FirstSent-keep c table sent d s (more, e) =
    let (new, f, all) = update_attempt-Sends c table s s (Sends-refl c table s) in
    (more ++ new, f ∙ ap (λ l. l ++ new) e ∙ append_assoc sent (d ∷ more) new)

-- An attempt that can read the config map and encode the table sends it.
update_attempt-sends :
    (c : Store) (table : Table) (sent : List Data) (old d : Data)
    → c.get_data sent ≡ ok old
    → dump_to_config_map c table ≡ ok d
    → FirstSent sent d (update_attempt c table sent).1
unfolding update_attempt
update_attempt-sends c table sent old d read encoded =
    rw (read, update_attempt) (rw (encoded, update_attempt) ([], refl))

first_attempt :
    (c : Store) (table : Table) (sent : List Data) (d : Data) (s : List Data)
    (r : Option Failure × List Data)
    → Retried (update_attempt c table) s r
    → FirstSent sent d (update_attempt c table s).1
    → FirstSent sent d r.1
first_attempt c table sent d s r (settled _ e) h = h
first_attempt c table sent d s r (given_up _ e) h = h
first_attempt c table sent d s r (again _ _ e later) h =
    retried-keeps (FirstSent sent d) (FirstSent-keep c table sent d) later h

if_updated :
    (after sent : List Data) (d : Data) (b : Bool)
    → b ≡ true
    → FirstSent sent d after
    → FirstSent sent d (if b then after else sent)
if_updated after sent d true e h = h
if_updated after sent d false e h = cc

-- Reserve lets the pod through in every case, with retries as documented. The data that it sends
-- all encode the table in which each node has the reservations of the other pods, in their order,
-- and none of the pod's own. When its loop has removed none, that is the table itself and nothing
-- is sent. When it has removed some, the config map can be read and the table that is left encodes,
-- then that encoding is sent, and sent first.
pub reserve_lem :
    (c : Store) (table : Table) (pod : Pod) (sent : List Data)
    → RetriesAsDocumented c
    → let (left, updated) = prune (λ r. not (is_own pod r)) table in
      ((reserve c table pod sent).0 ≡ success)
      × Sends c left sent (reserve c table pod sent).1
      × ((node : Str)
          → (or_nothing (lookup node left)
              ≡ keep (λ r. not (is_own pod r)) (or_nothing (lookup node table)))
            × All (λ r. not (is_own pod r) ≡ true) (or_nothing (lookup node left)))
      × (updated ≡ false → (left ≡ table) × ((reserve c table pod sent).1 ≡ sent))
      × ((old d : Data)
          → updated ≡ true
          → c.get_data sent ≡ ok old
          → dump_to_config_map c left ≡ ok d
          → FirstSent sent d (reserve c table pod sent).1)
unfolding reserve update_cm
reserve_lem c table pod sent documented =
    let stays : Reservation → Bool = λ r. not (is_own pod r) in
    let left = (prune stays table).0 in
    (
      refl,
      if_Sends c left sent _ (prune stays table).1 (update_cm-Sends c left sent documented),
      λ node. (
        lookup-prune stays node table,
        subst (All (λ r. stays r ≡ true)) (sym (lookup-prune stays node table))
            (keep-All stays (or_nothing (lookup node table))),
      ),
      λ same. (prune-unchanged stays table same, if_unchanged _ sent _ same),
      λ old d removed read encoded.
          if_updated (update_cm c left sent).1 sent d (prune stays table).1 removed (
            first_attempt c left sent d sent (update_cm c left sent)
              (documented.retried (List Data) (update_attempt c left) sent)
              (update_attempt-sends c left sent old d read encoded)),
    )
