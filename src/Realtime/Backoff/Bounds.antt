-- ===== src/Realtime/Backoff/Bounds.antt =====
-- The delays stay within the window, and the windows grow up to the ceiling.
use native.Mathlib.Nat.{pow-le-pow_right, mul-le-mul_left}
use rocketsocket.Base.{
  ltb, nat_eq, Bool-cases, inl, inr, true, false, ap, min, ℕ, ◌+◌, ◌-◌, ◌*◌, ◌/◌, ◌^◌, ◌≤◌, ◌<◌,
  ◌≡◌, refl, arith, ℕ_eq, String_eq, Option_eq,
}
use rocketsocket.Realtime.Backoff.{
  Rng, Backoff, u32_max, doublings, saturating_mul, window, millis, next_delay, reset,
  nanos_per_milli, u64_max, duration_max,
}

pow_mono : (j k : ℕ) → j ≤ k → 2 ^ j ≤ 2 ^ k
pow_mono j k h = pow-le-pow_right (omega arith) h

pub doublings_mono : (j k : ℕ) → j ≤ k → doublings j ≤ doublings k
unfolding doublings
doublings_mono j k h = ground (arith, pow_mono j k h, pow_mono j 31)

doublings-le-pow : (k : ℕ) → doublings k ≤ 2 ^ k
unfolding doublings
doublings-le-pow k = ground (arith, pow_mono 32 k)

min_mono_left : (a b c : ℕ) → a ≤ b → min a c ≤ min b c
min_mono_left a b c h = omega arith

millis-le : (d : ℕ) → millis d * nanos_per_milli ≤ d
unfolding millis
millis-le d = omega arith

clamped : (a top cap : ℕ) → cap ≤ top → min (min a top) cap ≡ min a cap
clamped a top cap h = omega arith

module _ {r : Rng} where
  -- The window grows with the attempts, up to the ceiling.
  window_mono : (b : Backoff r) (j k : ℕ) → j ≤ k → (window b j ≤ window b k) × (window b k ≤ b.cap)
  unfolding window saturating_mul
  window_mono b j k h =
      omega (arith, mul-le-mul_left b.base (doublings_mono (j - 1) (k - 1) (omega arith)))

  delay-le-window : (b : Backoff r) → (next_delay b).0 ≤ window b b.attempt
  unfolding next_delay
  delay-le-window b =
      ground (arith, r.u64-le b.rng (millis (window b b.attempt)), millis-le (window b b.attempt))

  window-le-doubled : (b : Backoff r) → window b b.attempt ≤ b.base * 2 ^ (b.attempt - 1)
  unfolding window saturating_mul
  window-le-doubled b = omega (arith, mul-le-mul_left b.base (doublings-le-pow (b.attempt - 1)))

  -- A delay is at most the base, doubled for every failed attempt after the first, and at most the
  -- ceiling; the first after a reset is zero; and each counts one more attempt, up to the largest
  -- `u32`.
  pub next_delay_bounds :
      (b : Backoff r)
      → let (delay, after) = next_delay b in
        (delay ≤ b.base * 2 ^ (b.attempt - 1))
        × (delay ≤ b.cap)
        × (after.attempt ≡ min (b.attempt + 1) u32_max)
        × ((next_delay (reset b)).0 ≡ 0)
  unfolding next_delay reset
  next_delay_bounds b = (
    omega (arith, delay-le-window b, window-le-doubled b),
    omega (arith, delay-le-window b, window_mono b b.attempt b.attempt (omega arith)),
    ground arith,
    refl,
  )

  -- The number of milliseconds that the delay after a failed attempt may have.
  abbrev pub choices : Backoff r → ℕ
  choices b = min (min (b.base * 2 ^ (b.attempt - 1)) b.cap / nanos_per_milli) u64_max

  millis-window :
      (b : Backoff r)
      → b.attempt ≤ 32
      → b.cap ≤ duration_max
      → millis (window b b.attempt) ≡ choices b
  unfolding millis window saturating_mul doublings
  millis-window b few fits =
      let below : ltb (b.attempt - 1) 32 ≡ true = ground arith in
      rw below (
        ap (λ d. min (d / 1000000) u64_max)
          (clamped (b.base * 2 ^ (b.attempt - 1)) duration_max b.cap fits))

  -- After one to 32 failed attempts, with a ceiling that is a `Duration`, the delay is drawn from
  -- all whole milliseconds up to the doubled base or the ceiling, whichever is less.
  pub next_delay_draws :
      (b : Backoff r)
      → 0 < b.attempt
      → b.attempt ≤ 32
      → b.cap ≤ duration_max
      → (next_delay b).0 ≡ (r.u64 b.rng (choices b)).0 * nanos_per_milli
  unfolding next_delay
  next_delay_draws b failed few fits =
      let window_is = millis-window b few fits in
      let again : nat_eq b.attempt 0 ≡ false = ground arith in
      rw (again, next_delay, window_is)
        (elim (Bool-cases (nat_eq (choices b) 0)) [
          | inr some_choice ↦ rw some_choice refl
          | inl only_zero ↦ rw only_zero (ground (arith, r.u64-le b.rng (choices b)))
        ])
