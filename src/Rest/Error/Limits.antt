-- ===== src/Rest/Error/Limits.antt =====
-- How long the server's rate limiter makes the client wait.
use rocketsocket.Base.{
  min, ℕ, ◌+◌, ◌-◌, ◌*◌, ◌/◌, ◌≤◌, ◌<◌, ◌≡◌, refl, ◌∙◌, ◌⊎◌, inl, inr, true, false, some, arith,
  ltb, leb, ℕ_eq, String_eq, Bool-cases, and_then, Option_eq,
}
use rocketsocket.Protocol.{ℤ, pos}
use rocketsocket.Rest.Error.{
  RateLimit, nanos_per_milli, max_retry_after, i64_max, saturating_sub, now_millis, wait_for,
  retry_after_since,
}

retry_after_at :
    (x : RateLimit) (reset : ℤ) (now : ℤ)
    → x.reset_epoch_ms ≡ some reset
    → retry_after_since x now ≡ some (wait_for (saturating_sub reset (now_millis now)))
unfolding retry_after_since
retry_after_at x reset now e = rw (e, and_then) refl

wait_over :
    (r m : ℕ)
    → m ≤ r
    → wait_for (saturating_sub (pos r) m) ≡ min ((r - m) * 1000000) max_retry_after
unfolding saturating_sub wait_for
wait_over r m h = let yes : leb m r ≡ true = ground arith in rw yes refl

wait_none : (r m : ℕ) → r < m → wait_for (saturating_sub (pos r) m) ≡ 0
unfolding saturating_sub wait_for
wait_none r m h = let no : leb m r ≡ false = ground arith in rw no refl

now_millis_floor : (n : ℕ) → now_millis (pos n) ≡ min (n / 1000000) i64_max
unfolding now_millis
now_millis_floor n = refl

-- What is said of a wait `w` for a reset at `r` milliseconds that is asked for at `n` nanoseconds.
abbrev Bounds : ℕ → ℕ → ℕ → Type 0
Bounds r n w =
    (w ≤ max_retry_after)
    × ((w ≡ max_retry_after) ⊎ (r * nanos_per_milli ≤ n + w))
    × ((w ≡ 0) ⊎ (n + w < (r + 1) * nanos_per_milli))

wait_between :
    (r n m : ℕ)
    → r ≤ i64_max
    → m ≡ min (n / 1000000) i64_max
    → Bounds r n (wait_for (saturating_sub (pos r) m))
wait_between r n m small e = elim (Bool-cases (leb m r)) [
  | inr over ↦
      rw (wait_none r m (ground (arith, over)))
        (omega arith, inr (ground (arith, over, e)), inl refl)
  | inl ahead ↦ elim (Bool-cases (leb max_retry_after ((r - m) * 1000000))) [
    | inl long ↦
        let w : wait_for (saturating_sub (pos r) m) ≡ max_retry_after =
          wait_over r m (ground (arith, ahead)) ∙ ground (arith, long) in
        rw w (omega arith, inl refl, inr (ground (arith, long, e, small)))
    | inr short ↦
        let w : wait_for (saturating_sub (pos r) m) ≡ (r - m) * 1000000 =
          wait_over r m (ground (arith, ahead)) ∙ ground (arith, short) in
        rw w (
          ground (arith, short),
          inr (ground (arith, ahead, e, small)),
          elim (Bool-cases (ltb m r)) [
            | inl before ↦ inr (ground (arith, before, e, small))
            | inr now ↦ inl (ground (arith, now))
          ],
        )
  ]
]

-- Let a server give the time of its reset. The client is told to wait at most an hour. Unless it
-- is told the hour, it waits until the reset, and unless it need not wait, it waits less than a
-- millisecond longer.
pub retry_after_since_bounds :
    (x : RateLimit) (r n : ℕ)
    → x.reset_epoch_ms ≡ some (pos r)
    → r ≤ i64_max
    → (w : ℕ) × (retry_after_since x (pos n) ≡ some w)
      × (w ≤ max_retry_after)
      × ((w ≡ max_retry_after) ⊎ (r * nanos_per_milli ≤ n + w))
      × ((w ≡ 0) ⊎ (n + w < (r + 1) * nanos_per_milli))
retry_after_since_bounds x r n e small =
    let w = wait_for (saturating_sub (pos r) (now_millis (pos n))) in
    let (capped, late, early) = wait_between r n (now_millis (pos n)) small (now_millis_floor n) in
    (w, retry_after_at x (pos r) (pos n) e, capped, late, early)
