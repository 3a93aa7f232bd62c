-- ===== src/RequeueDuration.antt =====
-- deployer/internal/controller/requeue_duration/duration.go: the durations that the next reconcile
-- of each app is to wait, in nanoseconds. Each call is one atomic step on the map.
pub mod Shortest
use unicore.Prelude.{
  ℤ, pos, ltb_ℤ, if◌then◌else◌, Bool, true, ◌&&◌, not, Str, Map, lookup, insert, remove, is_some,
  Option, none, some,
}

abbrev pub Store : Type 0
Store = Map ℤ

-- `ok && duration > 0 && duration < value`
abbrev is_shorter : ℤ → Option ℤ → Bool
is_shorter d none = Bool.false
is_shorter d (some v) = ltb_ℤ (pos 0) d && ltb_ℤ d v

unfoldable pub push : Str → ℤ → Store → Store
push key d store =
    let value = lookup key store in
    let store' = if is_shorter d value then insert key d store else store in
    if not (is_some value) then insert key d store' else store'

abbrev or_zero : Option ℤ → ℤ
or_zero none = pos 0
or_zero (some v) = v

-- The duration that was stored, 0 if none was, and the store without it.
unfoldable pub pop : Str → Store → ℤ × Store
pop key store =
    let value = lookup key store in
    (or_zero value, if is_some value then remove key store else store)
