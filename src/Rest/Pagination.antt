-- ===== src/Rest/Pagination.antt =====
-- crates/rocketsocket-rest/src/pagination.rs: page requests and what a list response says of its
-- page. The fields are `u32`s.
pub mod Walks
mod Tests
use rocketsocket.Base.{
  min, ℕ, zero, suc, ◌+◌, ◌-◌, ◌*◌, ◌/◌, ◌%◌, ◌^◌, ◌≤◌, ◌<◌, String, ◌≡◌, refl, sym, ap, ◌∙◌, ◌≢◌,
  ◌↔◌, ◌⊎◌, inl, inr, Bool, true, false, not, ◌&&◌, ◌||◌, Option, none, some, List, [], ◌∷◌, ◌++◌,
  arith, ltb, leb, nat_eq, if◌then◌else◌, Eq, ◌==◌, ℕ_eq, String_eq, Bool-cases, if-keeps,
  Result-cases, elem-append, elem-retain, and_then, Option-cases, is_some, is_some_and, Result, ok,
  err, map_err, length, All, retain, elem, option_eq, option_eq_iff, Option_eq,
}

abbrev pub u32_max : ℕ
u32_max = 4294967295

-- `u32::saturating_add`.
unfoldable pub saturating_add : ℕ → ℕ → ℕ
saturating_add a b = min (a + b) u32_max

-- `count` is a `NonZeroU32`.
pub record Pagination : Type 0 where
  pub offset : ℕ
  pub count : ℕ

abbrev pub server_default_count : ℕ
server_default_count = 50

abbrev pub default_upper_limit : ℕ
default_upper_limit = 100

unfoldable pub new : ℕ → Pagination
new count = record { offset = 0; count = count }

-- `NonZeroU32::new`.
unfoldable pub non_zero : ℕ → Option ℕ
non_zero count = if nat_eq count 0 then none else some count

unfoldable pub try_new : ℕ → Option Pagination
unfolding new non_zero
try_new count = and_then (non_zero count) (λ count. some (new count))

unfoldable pub with_offset : Pagination → ℕ → Pagination
with_offset p offset = record p { offset = offset }

-- `Pagination::next_page`.
unfoldable pub following : Pagination → Pagination
unfolding saturating_add
following p = record { offset = saturating_add p.offset p.count; count = p.count }

unfoldable pub default_page : Pagination
default_page = record { offset = 0; count = server_default_count }

pub record PageInfo : Type 0 where
  pub count : ℕ
  pub offset : ℕ
  pub total : ℕ

unfoldable pub has_more : PageInfo → Bool
unfolding saturating_add
has_more i = ltb (saturating_add i.offset i.count) i.total

-- `PageInfo::next_page`.
unfoldable pub next_page : PageInfo → Option Pagination
unfolding has_more non_zero new with_offset saturating_add
next_page i =
    if not (has_more i)
    then none
    else and_then (non_zero i.count)
        (λ count. some (with_offset (new count) (saturating_add i.offset i.count)))
