-- ===== src/Scheduler/Reserve/Encoding.antt =====
-- The config map gives back the table that was written to it.
use unicore.Prelude.{
  Distinct, ◌≡◌, refl, ◌∙◌, ap, sym, subst, append-nil, inl, inr, false, Str, str_eq, List, [], ◌∷◌,
  ◌++◌, All, arith, lookup, insert, lookup-insert, Option, none, append_assoc, Map,
}
use unicore.App.Platform.{Failure, Result, ok, err, Result-cases}
use unicore.Scheduler.Reserve.{
  Reservation, Table, Data, Store, dump_from, dump_to_config_map, load_from, load_from_config_map,
}

-- What json.Unmarshal promises of the text that json.Marshal gives.
pub record ReadsBack (c : Store) : Type 0 where
  pub reads :
      (rs : List Reservation) (text : Str) → c.marshal rs ≡ ok text → c.unmarshal text ≡ ok rs

insert-fresh {ℓ} :
    {V : Type ℓ} (k : Str) (v : V) (m : Map V) → lookup k m ≡ none → insert k v m ≡ m ++ (k, v) ∷ []
unfolding lookup insert
insert-fresh k v [] h = refl
insert-fresh k v ((j, w) ∷ m) h = ground (arith, insert-fresh k v m)

abbrev Fresh : {V W : Type 0} → Map V → Map W → Type 0
Fresh m out = All (λ e. lookup e.0 m ≡ none) out

Fresh-insert :
    {V W : Type 0} (k : Str) (v : V) (m : Map V) (t : Map W)
    → All (λ e. str_eq k e.0 ≡ false) t
    → Fresh m t
    → Fresh (insert k v m) t
Fresh-insert k v m [] h f = tt
Fresh-insert k v m ((j, w) ∷ t) h f =
    (lookup-insert k j v m ∙ (rw h.0 f.0), Fresh-insert k v m t h.1 f.1)

Fresh-nil : {W : Type 0} (V : Type 0) (m : Map W) → Fresh {V = V} {W = W} [] m
unfolding lookup
Fresh-nil V [] = tt
Fresh-nil V (e ∷ m) = (refl, Fresh-nil V m)

module _ (c : Store) (codec : ReadsBack c) where
  load_from-last :
      (d : Data) (n raw : Str) (rs : List Reservation) (t0 t : Table)
      → load_from c d t0 ≡ (none, t)
      → c.unmarshal raw ≡ ok rs
      → load_from c (d ++ (n, raw) ∷ []) t0 ≡ (none, insert n rs t)
  unfolding load_from
  load_from-last [] n raw rs t0 t h e =
      rw e (ap (λ (p : Option Failure × Table). (p.0, insert n rs p.1)) h)
  load_from-last ((k, text) ∷ d) n raw rs t0 t h e = elim (Result-cases (c.unmarshal text)) [
    | inl (old, r) ↦ rw r (load_from-last d n raw rs (insert k old t0) t (rw (r, load_from) at h) e)
    | inr (f, r) ↦ let g = rw (r, load_from) at h in cc
  ]

  abbrev Loads : Table → Result Data → Type 0
  Loads t (ok d) = load_from c d [] ≡ (none, t)
  Loads t (err f) = Unit

  load-dump_from :
      (table : Table) (out d : Data) (loaded : Table)
      → dump_from c table out ≡ ok d
      → load_from c out [] ≡ (none, loaded)
      → Distinct table
      → Fresh out table
      → Fresh loaded table
      → load_from c d [] ≡ (none, loaded ++ table)
  unfolding dump_from
  load-dump_from [] out d loaded e h distinct f g =
      subst (Loads (loaded ++ [])) e (h ∙ ap (λ t. (none, t)) (sym (append-nil loaded)))
  load-dump_from ((n, rs) ∷ table) out d loaded e h distinct f g =
      elim (Result-cases (c.marshal rs)) [
        | inr (failure, r) ↦ let bad = rw (r, dump_from) at e in cc
        | inl (text, r) ↦
            let next = loaded ++ (n, rs) ∷ [] in
            let read =
              load_from-last out n text rs [] loaded h (codec.reads rs text r)
              ∙ ap (λ t. (none, t)) (insert-fresh n rs loaded g.0) in
            load-dump_from table (insert n text out) d next (rw (r, dump_from) at e)
              (ap (λ m. load_from c m []) (insert-fresh n text out f.0) ∙ read) distinct.1
              (Fresh-insert n text out table distinct.0 f.1)
              (subst (λ m. Fresh m table) (insert-fresh n rs loaded g.0)
                (Fresh-insert n rs loaded table distinct.0 g.1))
            ∙ ap (λ t. (none, t)) (append_assoc loaded ((n, rs) ∷ []) table)
      ]

-- Where the JSON package reads back what it wrote, a table that was encoded and written is read back
-- as it was, without an error, when no node stands in it twice.
pub load_from_config_map-dump_to_config_map :
    (c : Store) (table : Table) (d : Data)
    → ReadsBack c
    → Distinct table
    → dump_to_config_map c table ≡ ok d
    → load_from_config_map c d ≡ (none, table)
unfolding load_from_config_map dump_to_config_map
load_from_config_map-dump_to_config_map c table d codec distinct e =
    load-dump_from c codec table [] d [] e refl distinct (Fresh-nil Str table)
      (Fresh-nil (List Reservation) table)
