-- ===== src/Scheduler/Word.antt =====
-- Go's int64: sums and differences that wrap around.
use unicore.Prelude.{
  ℕ, ◌+◌, ◌-◌, ◌%◌, ◌^◌, ◌<◌, ℤ, pos, negsuc, ◌+ℤ◌, ◌-ℤ◌, pos_part, neg_part, ltb, ltb_ℤ, ◌≤ℤ◌,
  if◌then◌else◌, false, ◌≡◌, arith, ◌↔◌, ◌∙◌,
}

-- The value of the low 64 bits.
unfoldable pub wrap : ℤ → ℤ
wrap (pos n) = let r = n % 2 ^ 64 in if ltb r (2 ^ 63) then pos r else negsuc (2 ^ 64 - 1 - r)
wrap (negsuc n) = let r = n % 2 ^ 64 in if ltb r (2 ^ 63) then negsuc r else pos (2 ^ 64 - 1 - r)

abbrev pub add64 : ℤ → ℤ → ℤ
add64 a b = wrap (a +ℤ b)

abbrev pub sub64 : ℤ → ℤ → ℤ
sub64 a b = wrap (a -ℤ b)

pub wrap_small : (a : ℤ) → pos_part a < 2 ^ 63 → neg_part a < 2 ^ 63 → wrap a ≡ a
unfolding wrap
wrap_small (pos n) h k = ground arith
wrap_small (negsuc n) h k = ground arith

pub add64_pos : (a b : ℕ) → a + b < 2 ^ 63 → add64 (pos a) (pos b) ≡ pos (a + b)
unfolding ◌+ℤ◌
add64_pos a b h = wrap_small (pos a +ℤ pos b) (ground arith) (ground arith) ∙ (ground arith)

-- Whether what is left of `free` after `reserved` is less than `need`, without overflow.
pub short_iff :
    (free : ℤ) (reserved need : ℕ)
    → pos_part free < 2 ^ 62
    → neg_part free < 2 ^ 62
    → reserved < 2 ^ 62
    → (ltb_ℤ (sub64 free (pos reserved)) (pos need) ≡ false) ↔ (pos (reserved + need) ≤ℤ free)
unfolding ◌-ℤ◌
short_iff free reserved need h k l = ground (arith, wrap_small (free -ℤ pos reserved))
