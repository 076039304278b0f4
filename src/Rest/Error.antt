-- ===== src/Rest/Error.antt =====
-- crates/rocketsocket-rest/src/error.rs: how a refusal of the server is read. A status is its
-- number; a duration counts nanoseconds, and a `SystemTime` those since the Unix epoch.
pub mod Codes
pub mod Limits
pub mod Snippets
use rocketsocket.Base.{
  min, ℕ, zero, suc, ◌+◌, ◌-◌, ◌*◌, ◌/◌, ◌%◌, ◌^◌, ◌≤◌, ◌<◌, String, ◌≡◌, refl, sym, ap, ◌∙◌, ◌≢◌,
  ◌↔◌, ◌⊎◌, inl, inr, Bool, true, false, not, ◌&&◌, ◌||◌, Option, none, some, List, [], ◌∷◌, ◌++◌,
  arith, ltb, leb, nat_eq, if◌then◌else◌, Eq, ◌==◌, ℕ_eq, String_eq, Bool-cases, if-keeps,
  Result-cases, elem-append, elem-retain, and_then, Option-cases, is_some, is_some_and, Result, ok,
  err, map_err, length, All, retain, elem, option_eq, option_eq_iff, Option_eq,
}
use rocketsocket.Protocol.{ℤ, pos, negsuc}

-- What a match on a `serde_json::Value` tells of it, with what a number prints as.
pub data Scalar : Type 0 where
  string : String → Scalar
  number : String → Scalar
  bool : Bool → Scalar
  not_scalar : Scalar

-- The wire form of a failure body, over the JSON values `V`.
pub record FailureEnvelope (V : Type 0) : Type 0 where
  pub error : Option V
  pub error_type : Option String
  pub message : Option String
  pub details : Option V

-- What the module takes from `std`, `reqwest` and `serde_json`: the header of a name, where it is
-- text; a body as text, lossily; the parsers of a failure body and of numbers; and the bytes of
-- texts, `str::len`, `str::is_char_boundary` and the slice up to a place.
pub record Library (V Headers Body : Type 0) : Type 0 where
  pub view : V → Scalar
  pub header : Headers → String → Option String
  pub failure_from_slice : Body → Option (FailureEnvelope V)
  pub from_utf8_lossy : Body → String
  pub parse_u64 : String → Option ℕ
  pub parse_i64 : String → Option ℤ
  pub trim : String → String
  pub len : String → ℕ
  pub is_char_boundary : String → ℕ → Bool
  pub up_to : String → ℕ → String

pub data ApiErrorKind : Type 0 where
  bad_request unauthorized forbidden not_found too_many_requests server other : ApiErrorKind

unfoldable pub from_status : ℕ → ApiErrorKind
from_status status =
    if nat_eq status 400
    then ApiErrorKind.bad_request
    else if nat_eq status 401
    then ApiErrorKind.unauthorized
    else if nat_eq status 403
    then ApiErrorKind.forbidden
    else if nat_eq status 404
    then ApiErrorKind.not_found
    else if nat_eq status 429
    then ApiErrorKind.too_many_requests
    else if leb 500 status && leb status 599
    then ApiErrorKind.server
    else ApiErrorKind.other

pub record RateLimit : Type 0 where
  pub limit : Option ℕ
  pub remaining : Option ℕ
  pub reset_epoch_ms : Option ℤ

pub record ApiError (V : Type 0) : Type 0 where
  pub status : ℕ
  pub kind : ApiErrorKind
  pub code : Option String
  pub message : Option String
  pub details : Option V
  pub rate_limit : Option RateLimit
  pub body : Option String

abbrev pub body_snippet_limit : ℕ
body_snippet_limit = 512

abbrev pub nanos_per_milli : ℕ
nanos_per_milli = 1000000

abbrev pub max_retry_after : ℕ
max_retry_after = 3600 * 1000000000

abbrev pub i64_max : ℕ
i64_max = 2 ^ 63 - 1

-- `i64::saturating_sub` of a number that is not negative.
unfoldable pub saturating_sub : ℤ → ℕ → ℤ
saturating_sub (pos m) n = if leb n m then pos (m - n) else negsuc (n - m - 1)
saturating_sub (negsuc m) n = negsuc (min (m + n) i64_max)

-- The milliseconds from the epoch to `now`, as an `i64`: none before it, and at most `i64::MAX`.
unfoldable pub now_millis : ℤ → ℕ
now_millis (pos n) = min (n / nanos_per_milli) i64_max
now_millis (negsuc n) = 0

-- The wait for a difference of milliseconds.
unfoldable pub wait_for : ℤ → ℕ
wait_for (pos wait_ms) = min (wait_ms * nanos_per_milli) max_retry_after
wait_for (negsuc wait_ms) = 0

unfoldable pub retry_after_since : RateLimit → ℤ → Option ℕ
unfolding saturating_sub now_millis wait_for
retry_after_since x now =
    and_then x.reset_epoch_ms
      (λ reset_ms. some (wait_for (saturating_sub reset_ms (now_millis now))))

module _ {V Headers Body : Type 0} (library : Library V Headers Body) where
  unfoldable pub header_u64 : Headers → String → Option ℕ
  header_u64 headers name =
      and_then (library.header headers name) (λ text. library.parse_u64 (library.trim text))

  unfoldable pub header_i64 : Headers → String → Option ℤ
  header_i64 headers name =
      and_then (library.header headers name) (λ text. library.parse_i64 (library.trim text))

  unfoldable pub from_headers : Headers → Option RateLimit
  unfolding header_u64 header_i64
  from_headers headers =
      let limit = header_u64 headers "x-ratelimit-limit" in
      let remaining = header_u64 headers "x-ratelimit-remaining" in
      let reset_epoch_ms = header_i64 headers "x-ratelimit-reset" in
      if is_some limit || is_some remaining || is_some reset_epoch_ms
      then some (record { limit = limit; remaining = remaining; reset_epoch_ms = reset_epoch_ms })
      else none

  unfoldable pub scalar_text : Scalar → Option String
  scalar_text (string text) = some text
  scalar_text (number text) = some text
  scalar_text (bool true) = some "true"
  scalar_text (bool false) = some "false"
  scalar_text not_scalar = none

  unfoldable pub scalar_to_string : V → Option String
  unfolding scalar_text
  scalar_to_string value = scalar_text (library.view value)

  -- The match of `normalize` on the message and the error.
  unfoldable pub code_and_message : Option String → Option String → Option String × Option String
  code_and_message (some message) (some code) =
      if message == code then (none, some message) else (some code, some message)
  code_and_message (some message) none = (none, some message)
  code_and_message none error = (none, error)

  unfoldable pub normalize : FailureEnvelope V → Option String × Option String
  unfolding scalar_to_string code_and_message
  normalize x =
      let error = and_then x.error scalar_to_string in
      elim x.error_type [ some code ↦ (some code, error) | none ↦ code_and_message x.message error ]

  -- The loop of `truncate`: back from `end` to a boundary.
  unfoldable pub boundary : String → ℕ → ℕ
  boundary text zero = zero
  boundary text (suc end) =
      let earlier = boundary text end in
      if library.is_char_boundary text (suc end) then suc end else earlier

  unfoldable pub truncate : String → ℕ → String
  unfolding boundary
  truncate text limit =
      if leb (library.len text) limit then text else library.up_to text (boundary text limit)

  -- `is_empty` of a snippet: nothing where it is.
  unfoldable pub non_empty : String → Option String
  non_empty snippet = if nat_eq (library.len snippet) 0 then none else some snippet

  unfoldable pub from_response : ℕ → Headers → Body → ApiError V
  unfolding from_status from_headers normalize truncate non_empty
  from_response status headers body = elim (library.failure_from_slice body) [
    | some envelope ↦ record {
      status = status;
      kind = from_status status;
      code = (normalize envelope).0;
      message = (normalize envelope).1;
      details = envelope.details;
      rate_limit = from_headers headers;
      body = none;
    }
    | none ↦
        let text = library.trim (library.from_utf8_lossy body) in
        let snippet = truncate text body_snippet_limit in
        record {
          status = status;
          kind = from_status status;
          code = none;
          message = non_empty snippet;
          details = none;
          rate_limit = from_headers headers;
          body = non_empty snippet;
        }
  ]
