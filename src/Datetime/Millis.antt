-- ===== src/Datetime/Millis.antt =====
-- Milliseconds survive the way through a timestamp.
use mathlib.Core.Option.{some-injective}
use rocketsocket.Base.{
  ◌-◌, ◌%◌, ◌^◌, ◌<◌, ◌≡◌, refl, sym, ap, inl, inr, Bool, true, false, some, arith, ltb, ℕ_eq,
  String_eq, Bool-cases, Option_eq,
}
use rocketsocket.Protocol.{ℤ, pos, negsuc}
use rocketsocket.Datetime.{
  Timestamp, nanos_per_milli, times, div_euclid, of_bits, as_i64, from_unix_millis, unix_millis,
}

-- The number is an `i64`.
abbrev pub IsI64 : ℤ → Type 0
IsI64 (pos n) = n < 2 ^ 63
IsI64 (negsuc n) = n < 2 ^ 63

as_i64_id : (z : ℤ) → IsI64 z → as_i64 z ≡ z
unfolding as_i64 of_bits
as_i64_id (pos n) h =
    let small : n % 2 ^ 64 ≡ n = omega (arith, h) in
    let positive : ltb n (2 ^ 63) ≡ true = ground (arith, h) in rw (small, positive) refl
as_i64_id (negsuc n) h =
    let bits : 2 ^ 64 - 1 - n % 2 ^ 64 ≡ 2 ^ 64 - 1 - n = omega (arith, h) in
    let negative : ltb (2 ^ 64 - 1 - n) (2 ^ 63) ≡ false = ground (arith, h) in
    let back : 2 ^ 64 - 1 - (2 ^ 64 - 1 - n) ≡ n = omega (arith, h) in
    rw (bits, negative, back) refl

div_euclid-times : (z : ℤ) → div_euclid (times z nanos_per_milli) nanos_per_milli ≡ z
unfolding div_euclid times
div_euclid-times (pos n) = ap pos (omega arith)
div_euclid-times (negsuc n) = ap negsuc (omega arith)

-- A timestamp made from an `i64` of milliseconds has these milliseconds.
pub unix_millis-from_unix_millis :
    (is_representable : ℤ → Bool) (millis : ℤ) (t : Timestamp)
    → IsI64 millis
    → from_unix_millis is_representable millis ≡ some t
    → unix_millis t ≡ millis
unfolding from_unix_millis unix_millis
unix_millis-from_unix_millis is_representable millis t h e =
    elim (Bool-cases (is_representable (times millis nanos_per_milli))) [
      | inr out ↦ let e' = rw out at e in cc
      | inl fits ↦
          let made = some-injective (times millis nanos_per_milli) t (rw fits at e) in
          rw (sym made, div_euclid-times) (as_i64_id millis h)
    ]
