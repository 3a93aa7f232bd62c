-- ===== src/Scheduler/Gang/Ordering.antt =====
-- How the queue orders pods of gangs.
use unicore.Prelude.{
  ℕ, ◌≡◌, refl, ◌∙◌, ap, sym, ◌==◌, ltb, if◌then◌else◌, Bool, true, false, ◌&&◌, Str, is_empty,
  lookup, is_some, [], ◌∷◌, some, arith, inl, inr, is_some, Option-cases,
}
use unicore.Api.{Pod}
use unicore.Scheduler.Gang.{Gangs, gang_name, queue_time, str_lt, less}

str_lt_irrefl : (a : Str) → str_lt a a ≡ false
unfolding str_lt
str_lt_irrefl [] = refl
str_lt_irrefl (c ∷ a) = ground (arith, str_lt_irrefl a)

str_lt_trans : (a b c : Str) → str_lt a b ≡ true → str_lt b c ≡ true → str_lt a c ≡ true
unfolding str_lt
str_lt_trans a [] c h k = cc
str_lt_trans a (y ∷ b) [] h k = cc
str_lt_trans [] (y ∷ b) (z ∷ c) h k = refl
str_lt_trans (x ∷ a) (y ∷ b) (z ∷ c) h k = ground (arith, str_lt_trans a b c)

str_lt_total : (a b : Str) → str_lt a b ≡ false → str_lt b a ≡ false → a ≡ b
unfolding str_lt
str_lt_total [] [] h k = refl
str_lt_total [] (y ∷ b) h k = cc
str_lt_total (x ∷ a) [] h k = cc
str_lt_total (x ∷ a) (y ∷ b) h k = ground (arith, str_lt_total a b)

-- The pod's gang has a time: an earlier comparison has recorded it.
abbrev pub IsTimed : Gangs → Pod → Type 0
IsTimed s pod =
    (is_empty (gang_name pod) ≡ false)
    × (is_some (lookup (gang_name pod) s.first_created_at) ≡ true)

abbrev gang_time : Gangs → Pod → ℕ
gang_time s pod = (queue_time pod s).0

queue_time-timed : (pod : Pod) (s : Gangs) → IsTimed s pod → (queue_time pod s).1 ≡ s
unfolding queue_time
queue_time-timed pod s (named, found) = rw (named, found)

-- By time, then by the name of the gang.
abbrev key_less : ℕ → Str → ℕ → Str → Bool
key_less t a u b = if t == u then str_lt a b else ltb t u

by_key :
    (t u : ℕ) (a b : Str)
    → (if t == u && true && true then str_lt a b else ltb t u) ≡ key_less t a u b
by_key t u a b = ground arith

less-key :
    (p q : Pod) (s : Gangs)
    → IsTimed s p
    → IsTimed s q
    → less p q s ≡ (key_less (gang_time s p) (gang_name p) (gang_time s q) (gang_name q), s)
unfolding less
less-key p q s hp hq =
    rw (queue_time-timed p s hp, queue_time-timed q s hq, hp.0, hq.0)
      (ap (λ b. (b, s)) (by_key (gang_time s p) (gang_time s q) (gang_name p) (gang_name q)))

gang_time-recorded :
    (p : Pod) (s : Gangs) (v : ℕ)
    → is_empty (gang_name p) ≡ false
    → lookup (gang_name p) s.first_created_at ≡ some v
    → (queue_time p s).0 ≡ v
unfolding queue_time
gang_time-recorded p s v named at = rw (named, at)

same_gang_time :
    (p q : Pod) (s : Gangs)
    → gang_name p ≡ gang_name q
    → IsTimed s p
    → gang_time s p ≡ gang_time s q
same_gang_time p q s e (named, found) =
    elim (Option-cases (lookup (gang_name p) s.first_created_at)) [
      | inl missing ↦ let g = rw missing at found in cc
      | inr (v, at) ↦
          gang_time-recorded p s v named at
          ∙ sym (
              gang_time-recorded q s v (ap is_empty (sym e) ∙ named)
                (ap (λ g. lookup g s.first_created_at) (sym e) ∙ at))
    ]

key_irrefl : (t : ℕ) (a : Str) → key_less t a t a ≡ false
key_irrefl t a = ground (arith, str_lt_irrefl a)

key_trans :
    (t u v : ℕ) (a b c : Str)
    → key_less t a u b ≡ true
    → key_less u b v c ≡ true
    → key_less t a v c ≡ true
key_trans t u v a b c h k = ground (arith, str_lt_trans a b c)

key_total : (t u : ℕ) (a b : Str) → key_less t a u b ≡ false → key_less u b t a ≡ false → a ≡ b
key_total t u a b h k = ground (arith, str_lt_total a b)

key_same : (t u : ℕ) (a b : Str) → t ≡ u → a ≡ b → key_less t a u b ≡ false
key_same t u a b h k = ground (arith, str_lt_irrefl a)

-- Among pods of gangs whose times are recorded, Less changes nothing, puts no pod before itself,
-- is transitive, leaves two pods unordered only if they are of one gang, and never orders pods of
-- one gang.
pub less_lem :
    (p q r : Pod) (s : Gangs)
    → IsTimed s p
    → IsTimed s q
    → IsTimed s r
    → ((less p q s).1 ≡ s)
      × ((less p p s).0 ≡ false)
      × ((less p q s).0 ≡ true → (less q r s).0 ≡ true → (less p r s).0 ≡ true)
      × ((less p q s).0 ≡ false → (less q p s).0 ≡ false → gang_name p ≡ gang_name q)
      × (gang_name p ≡ gang_name q → (less p q s).0 ≡ false)
less_lem p q r s hp hq hr =
    let t = gang_time s p in
    let u = gang_time s q in
    let v = gang_time s r in
    rw
      (
        less-key p q s hp hq,
        less-key q p s hq hp,
        less-key p p s hp hp,
        less-key q r s hq hr,
        less-key p r s hp hr,
      )
      (
        refl,
        key_irrefl t (gang_name p),
        key_trans t u v (gang_name p) (gang_name q) (gang_name r),
        key_total t u (gang_name p) (gang_name q),
        λ e. key_same t u (gang_name p) (gang_name q) (same_gang_time p q s e hp) e,
      )
