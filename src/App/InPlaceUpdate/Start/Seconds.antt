-- ===== src/App/InPlaceUpdate/Start/Seconds.antt =====
-- InPlaceUpdatePod: the seconds that are left of the grace period, and their rounding.
use unicore.Prelude.{
  ◌/◌, ◌%◌, ℕ, ◌+◌, ◌*◌, ◌≤◌, ◌<◌, ℤ, pos, negsuc, ltb_ℤ, ◌+ℤ◌, ◌-ℤ◌, ◌≡◌, refl, true, false, some,
  arith,
}
use unicore.App.Readiness.{after_seconds, second}
use unicore.App.InPlaceUpdate.Start.{seconds_left, whole_seconds, to_even}

-- The time to the end of a grace period of g seconds from t is from n to n + 1 seconds.
abbrev pub Left : ℕ → ℕ → ℕ → ℕ → Type 0
Left now g t n = (now + n * second ≤ t + g * second) × (t + g * second < now + (n + 1) * second)

after_seconds-pos : (t g : ℕ) → after_seconds t (pos g) ≡ pos (t + g * second)
unfolding ◌+ℤ◌
after_seconds-pos t g = ground arith

whole-Left :
    (now end : ℕ) (d : ℤ)
    → pos end -ℤ pos now ≡ d
    → ltb_ℤ (pos 0) (whole_seconds d) ≡ true
    → (n : ℕ) × (0 < n)
      × (whole_seconds d ≡ pos n)
      × (now + n * second ≤ end)
      × (end < now + (n + 1) * second)
unfolding ◌-ℤ◌
whole-Left now end (pos m) e h = (m / second, ground arith, refl, ground arith, ground arith)
whole-Left now end (negsuc m) e h = absurd (ground arith)

pub seconds_left-Left :
    (now g t : ℕ)
    → ltb_ℤ (pos 0) (seconds_left now (pos g) (some t)) ≡ true
    → (n : ℕ) × (0 < n) × (seconds_left now (pos g) (some t) ≡ pos n) × Left now g t n
unfolding seconds_left
seconds_left-Left now g t h =
    let (n, positive, e, low, high) =
      whole-Left now (t + g * second) (pos (t + g * second) -ℤ pos now) refl
        (rw (after_seconds-pos t g) at h) in
    (n, positive, (rw (after_seconds-pos t g) e), (low, high))

whole-over :
    (now end : ℕ) (d : ℤ)
    → pos end -ℤ pos now ≡ d
    → ltb_ℤ (pos 0) (whole_seconds d) ≡ false
    → end < now + second
unfolding ◌-ℤ◌
whole-over now end (pos m) e h = ground arith
whole-over now end (negsuc m) e h = ground arith

pub seconds_left-over :
    (now g t : ℕ)
    → ltb_ℤ (pos 0) (seconds_left now (pos g) (some t)) ≡ false
    → t + g * second < now + second
unfolding seconds_left
seconds_left-over now g t h =
    whole-over now (t + g * second) (pos (t + g * second) -ℤ pos now) refl
      (rw (after_seconds-pos t g) at h)

-- n seconds, or one more to make them even.
abbrev pub Rounded : ℕ → ℤ → Type 0
Rounded n wait = (k : ℕ) × (wait ≡ pos (k + k)) × (n ≤ k + k) × (k + k ≤ n + 1)

pub to_even-Rounded : (n : ℕ) → Rounded n (to_even (pos n))
unfolding ◌+ℤ◌
to_even-Rounded n = ((n + n % 2) / 2, ground arith, omega arith, omega arith)
