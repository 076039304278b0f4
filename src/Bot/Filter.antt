-- ===== src/Bot/Filter.antt =====
-- crates/rocketsocket/src/filter.rs: the filters of a handler, as far as they need no server.
pub mod Verdict
mod Tests
use rocketsocket.Base.{
  ℕ, zero, suc, ◌+◌, ◌-◌, ◌*◌, ◌/◌, ◌%◌, ◌^◌, ◌≤◌, ◌<◌, String, ◌≡◌, refl, sym, ap, ◌∙◌, ◌≢◌, ◌↔◌,
  ◌⊎◌, inl, inr, Bool, true, false, not, ◌&&◌, ◌||◌, Option, none, some, List, [], ◌∷◌, ◌++◌, arith,
  ltb, leb, nat_eq, if◌then◌else◌, Eq, ◌==◌, ℕ_eq, String_eq, Bool-cases, if-keeps, Result-cases,
  elem-append, elem-retain, and_then, Option-cases, is_some, is_some_and, Result, ok, err, map_err,
  length, All, retain, elem, option_eq, option_eq_iff, Option_eq,
}
use text.Mathlib.Text.{starts_with}

pub data Authority : Type 0 where
  anyone admin room_admin admin_or_room_admin : Authority

-- A text that the source takes as `&'static str` is a text.
pub record Filters : Type 0 where
  pub allow_self : Bool
  pub allow_system : Bool
  pub allow_edits : Bool
  pub allow_bots : Bool
  pub prefix : Option String
  pub room : Option String
  pub mentions_me : Bool
  pub authority : Authority

pub data Filtered : Type 0 where
  own_event system_message edit bot prefix room not_mentioned authority : Filtered

abbrev pub default_filters : Filters
default_filters = record {
  allow_self = false;
  allow_system = false;
  allow_edits = false;
  allow_bots = false;
  prefix = none;
  room = none;
  mentions_me = false;
  authority = anyone;
}

-- A message as the filters read it: the id of its author, its text, its type tag, the time of its
-- last edit, and the ids of its mentions.
pub record Message : Type 0 where
  pub author : String
  pub msg : String
  pub t : Option String
  pub edited_at : Option ℕ
  pub mentions : Option (List String)

-- The tests of `local_verdict`, in its order.
unfoldable pub is_own : Filters → Message → Option String → Bool
is_own f m me = not f.allow_self && is_some_and me (λ id. m.author == id)

unfoldable pub lacks_prefix : Filters → Message → Bool
lacks_prefix f m = is_some_and f.prefix (λ p. not (starts_with m.msg p))

unfoldable pub is_elsewhere : Filters → String → Bool
is_elsewhere f room_id = is_some_and f.room (λ wanted. not (room_id == wanted))

unfoldable pub lacks_mention : Filters → Message → Option String → Bool
lacks_mention f m me =
    f.mentions_me
    && not (is_some_and me (λ id. is_some_and m.mentions (λ mentions. elem mentions id)))

unfoldable pub local_verdict : Filters → Message → String → Option String → Option Filtered
unfolding is_own lacks_prefix is_elsewhere lacks_mention
local_verdict f m room_id me =
    if is_own f m me
    then some own_event
    else if not f.allow_system && is_some m.t
    then some system_message
    else if not f.allow_edits && is_some m.edited_at
    then some edit
    else if lacks_prefix f m
    then some prefix
    else if is_elsewhere f room_id
    then some room
    else if lacks_mention f m me
    then some not_mentioned
    else none
