-- ===== src/Realtime/Backoff/Tests.antt =====
-- The back-off run on a generator that draws its own state where that is in the range.
use rocketsocket.Base.{
  ◌*◌, ◌-◌, ◌^◌, min, ℕ, suc, ◌≤◌, ◌≡◌, refl, arith, ℕ_eq, String_eq, Option_eq,
}
use rocketsocket.Realtime.Backoff.{
  Rng, Backoff, new, default_cap, window, next_delay, reset, u32_max,
}
use rocketsocket.Realtime.Backoff.Bounds.{next_delay_bounds, choices, next_delay_draws}

abbrev draws : Rng
draws = record { State = ℕ; u64 = λ s n. (min n s, suc s); u64-le = λ s n. omega arith }

-- A back-off after its third failure.
abbrev failing : Backoff draws
failing = record { base = 1000000000; cap = 64000000000; attempt = 3; rng = 500 }

next_delay_run : (next_delay failing).0 ≡ 500000000
unfolding next_delay rocketsocket.Realtime.Backoff.millis window
    rocketsocket.Realtime.Backoff.saturating_mul rocketsocket.Realtime.Backoff.doublings
next_delay_run = refl

next_delay_bounds_example :
    let (delay, after) = next_delay failing in
    (delay ≤ 1000000000 * 2 ^ (3 - 1))
    × (delay ≤ 64000000000)
    × (after.attempt ≡ 4)
    × ((next_delay (reset failing)).0 ≡ 0)
next_delay_bounds_example = next_delay_bounds failing

next_delay_draws_example : (next_delay failing).0 ≡ (draws.u64 500 (choices failing)).0 * 1000000
next_delay_draws_example = next_delay_draws failing (omega arith) (omega arith) (omega arith)
