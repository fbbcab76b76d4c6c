-- ===== src/Chatsync/Backoff.antt =====
-- internal/chatsync/backoff.go: the wait before a reconnect attempt, in nanoseconds.
-- `rand.Float64()` is a draw below 2 ^ 53 over 2 ^ 53, and the product with the jitter factor
-- 1 + (u * 0.4 - 0.2) is taken exactly and cut to an integer: the rounding of the float is left
-- out, which is below a microsecond at these sizes.
pub mod Waits
use unified_messaging.Prelude.{
  ℕ, zero, suc, ◌+◌, ◌*◌, ◌/◌, ◌^◌, min, List, [], ◌∷◌, ltb, if◌then◌else◌, ℤ, pos_part,
}

abbrev pub second : ℕ
second = 1_000_000_000

abbrev pub max_failures : ℕ
max_failures = 30

abbrev pub max_backoff : ℕ
max_backoff = 300 * second

-- The number of values of `rand.Float64`.
abbrev pub draws : ℕ
draws = 2 ^ 53

abbrev pub cap_at_max : ℕ → ℕ
cap_at_max d = if ltb max_backoff d then max_backoff else d

-- The wait before the jitter; a negative attempt counts as 0.
unfoldable pub base : ℤ → ℕ
base attempt = cap_at_max (second * 2 ^ min (pos_part attempt) 9)

unfoldable pub jitter : ℕ → ℕ → ℕ
jitter u d = d * (4 * draws + 2 * u) / (5 * draws)

unfoldable pub next : ℕ → ℤ → ℕ
next u attempt = cap_at_max (jitter u (base attempt))
