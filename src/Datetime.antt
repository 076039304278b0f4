-- ===== src/Datetime.antt =====
-- crates/rocketsocket-model/src/datetime.rs: timestamps and their milliseconds. An
-- `OffsetDateTime` is its number of nanoseconds since the Unix epoch, and `is_representable` tells
-- the range of the `time` crate.
pub mod Millis
mod Tests
use rocketsocket.Base.{
  ℕ, zero, suc, ◌+◌, ◌-◌, ◌*◌, ◌/◌, ◌%◌, ◌^◌, ◌≤◌, ◌<◌, String, ◌≡◌, refl, sym, ap, ◌∙◌, ◌≢◌, ◌↔◌,
  ◌⊎◌, inl, inr, Bool, true, false, not, ◌&&◌, ◌||◌, Option, none, some, List, [], ◌∷◌, ◌++◌, arith,
  ltb, leb, nat_eq, if◌then◌else◌, Eq, ◌==◌, ℕ_eq, String_eq, Bool-cases, if-keeps, Result-cases,
  elem-append, elem-retain, and_then, Option-cases, is_some, is_some_and, Result, ok, err, map_err,
  length, All, retain, elem, option_eq, option_eq_iff, Option_eq,
}
use rocketsocket.Protocol.{ℤ, pos, negsuc}

abbrev pub nanos_per_milli : ℕ
nanos_per_milli = 1000000

abbrev pub Timestamp : Type 0
Timestamp = ℤ

-- The product with a positive number.
unfoldable pub times : ℤ → ℕ → ℤ
times (pos n) k = pos (n * k)
times (negsuc n) k = negsuc ((n + 1) * k - 1)

-- `i128::div_euclid` by a positive number.
unfoldable pub div_euclid : ℤ → ℕ → ℤ
div_euclid (pos n) k = pos (n / k)
div_euclid (negsuc n) k = negsuc (n / k)

-- The `i64` of the 64 low bits.
unfoldable pub of_bits : ℕ → ℤ
of_bits bits = if ltb bits (2 ^ 63) then pos bits else negsuc (2 ^ 64 - 1 - bits)

-- `as i64`, which wraps.
unfoldable pub as_i64 : ℤ → ℤ
unfolding of_bits
as_i64 (pos n) = of_bits (n % 2 ^ 64)
as_i64 (negsuc n) = of_bits (2 ^ 64 - 1 - n % 2 ^ 64)

unfoldable pub from_unix_millis : (ℤ → Bool) → ℤ → Option Timestamp
unfolding times
from_unix_millis is_representable millis =
    let nanos = times millis nanos_per_milli in if is_representable nanos then some nanos else none

unfoldable pub unix_millis : Timestamp → ℤ
unfolding div_euclid as_i64
unix_millis t = as_i64 (div_euclid t nanos_per_milli)
