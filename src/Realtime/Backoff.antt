-- ===== src/Realtime/Backoff.antt =====
-- crates/rocketsocket-realtime/src/backoff.rs: reconnect pacing with full jitter. A `Duration` is
-- its number of nanoseconds, at most `duration_max`. `fastrand::Rng` is a parameter.
mod Tests
pub mod Bounds
use rocketsocket.Base.{
  ℕ, suc, ◌+◌, ◌-◌, ◌*◌, ◌/◌, ◌^◌, ◌≤◌, Option, none, some, min, ltb, nat_eq, if◌then◌else◌, List,
  [], ◌∷◌,
}

-- `fastrand::Rng`: `u64(0..=n)` gives a number of the range, and a new state.
pub record Rng : Type 1 where
  pub State : Type 0
  pub u64 : State → ℕ → ℕ × State
  pub u64-le : (s : State) (n : ℕ) → (u64 s n).0 ≤ n

abbrev pub u32_max : ℕ
u32_max = 4294967295

abbrev pub u64_max : ℕ
u64_max = 18446744073709551615

abbrev pub nanos_per_milli : ℕ
nanos_per_milli = 1000000

abbrev pub nanos_per_sec : ℕ
nanos_per_sec = 1000000000

-- `Duration::MAX`.
abbrev pub duration_max : ℕ
duration_max = 18446744073709551615999999999

-- `Duration::saturating_mul`.
unfoldable pub saturating_mul : ℕ → ℕ → ℕ
saturating_mul d k = min (d * k) duration_max

-- `1u32.checked_shl(k).unwrap_or(u32::MAX)`.
unfoldable pub doublings : ℕ → ℕ
doublings k = if ltb k 32 then 2 ^ k else u32_max

abbrev pub default_base : ℕ
default_base = 1 * nanos_per_sec

abbrev pub default_cap : ℕ
default_cap = 64 * nanos_per_sec

-- `u64::try_from(window.as_millis()).unwrap_or(u64::MAX)`.
unfoldable pub millis : ℕ → ℕ
millis duration = min (duration / nanos_per_milli) u64_max

module _ (r : Rng) where
  pub record Backoff : Type 0 where
    pub base : ℕ
    pub cap : ℕ
    pub attempt : ℕ
    pub rng : r.State

module _ {r : Rng} where
  unfoldable pub with_limits : ℕ → ℕ → r.State → Backoff r
  with_limits base cap rng = record { base = base; cap = cap; attempt = 0; rng = rng }

  unfoldable pub new : r.State → Backoff r
  unfolding with_limits
  new rng = with_limits default_base default_cap rng

  -- The retry window of the given attempt, from 1 on.
  unfoldable pub window : Backoff r → ℕ → ℕ
  window b attempt = min (saturating_mul b.base (doublings (attempt - 1))) b.cap

  -- A random delay of whole milliseconds within the window.
  jitter : Backoff r → ℕ → ℕ × Backoff r
  jitter b m =
      if nat_eq m 0
      then (0, b)
      else (let (drawn, rng) = r.u64 b.rng m in (drawn * nanos_per_milli, record b { rng = rng }))

  unfoldable pub next_delay : Backoff r → ℕ × Backoff r
  unfolding jitter
  next_delay b =
      let advanced = record b { attempt = min (b.attempt + 1) u32_max } in
      if nat_eq b.attempt 0 then (0, advanced) else jitter advanced (millis (window b b.attempt))

  unfoldable pub reset : Backoff r → Backoff r
  reset b = record b { attempt = 0 }
