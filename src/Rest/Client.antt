-- ===== src/Rest/Client.antt =====
-- crates/rocketsocket-rest/src/client.rs: how a response is decoded. What arrives of it, and the
-- parsers of `serde_json`, are arguments.
pub mod Bodies
pub mod Answers
use rocketsocket.Base.{
  ℕ, zero, suc, ◌+◌, ◌-◌, ◌*◌, ◌/◌, ◌%◌, ◌^◌, ◌≤◌, ◌<◌, String, ◌≡◌, refl, sym, ap, ◌∙◌, ◌≢◌, ◌↔◌,
  ◌⊎◌, inl, inr, Bool, true, false, not, ◌&&◌, ◌||◌, Option, none, some, List, [], ◌∷◌, ◌++◌, arith,
  ltb, leb, nat_eq, if◌then◌else◌, Eq, ◌==◌, ℕ_eq, String_eq, Bool-cases, if-keeps, Result-cases,
  elem-append, elem-retain, and_then, Option-cases, is_some, is_some_and, Result, ok, err, map_err,
  length, All, retain, elem, option_eq, option_eq_iff, Option_eq,
}
use rocketsocket.Rest.Error.{Library, ApiError, from_response, truncate}

-- The errors of crates/rocketsocket-rest/src/error.rs, over those of `reqwest` and `serde_json`.
pub data RestError (V Wire Parse : Type 0) : Type 0 where
  missing_success : String → RestError V Wire Parse
  invalid_url : String → String → RestError V Wire Parse
  transport : Wire → RestError V Wire Parse
  api : ApiError V → RestError V Wire Parse
  decoding : ℕ → String → Parse → RestError V Wire Parse
  invalid_request : String → RestError V Wire Parse
  not_authenticated : RestError V Wire Parse

pub record Response (Headers Body Wire : Type 0) : Type 0 where
  pub status : ℕ
  pub headers : Headers
  pub bytes : Result Body Wire

-- `StatusCode::is_success`, and the parsers of a body as what the caller asks for and as the flag
-- `success`, which is optional.
pub record Decoder (Body Parse T : Type 0) : Type 0 where
  pub is_success : ℕ → Bool
  pub from_slice : Body → Result T Parse
  pub flag_from_slice : Body → Option (Option Bool)

abbrev pub snippet_limit : ℕ
snippet_limit = 512

unfoldable pub is_false : Option Bool → Bool
is_false (some false) = true
is_false _ = false

unfoldable pub is_failure_envelope : {Body Parse T : Type 0} → Decoder Body Parse T → Body → Bool
unfolding is_false
is_failure_envelope decoder body = is_some_and (decoder.flag_from_slice body) is_false

module _ {V Headers Body Wire Parse T : Type 0} (library : Library V Headers Body)
    (decoder : Decoder Body Parse T) where
  unfoldable pub decode_body : ℕ → Headers → Body → Result T (RestError V Wire Parse)
  unfolding is_failure_envelope
  decode_body status headers body =
      if not (decoder.is_success status)
      then err (api (from_response library status headers body))
      else elim (decoder.from_slice body) [
        | ok value ↦ ok value
        | err source ↦
            if is_failure_envelope decoder body
            then err (api (from_response library status headers body))
            else err (
                decoding status (truncate library (library.from_utf8_lossy body) snippet_limit)
                  source)
      ]

  unfoldable pub decode : Response Headers Body Wire → Result T (RestError V Wire Parse)
  unfolding decode_body
  decode response = elim response.bytes [
    | err e ↦ err (transport e)
    | ok body ↦ decode_body response.status response.headers body
  ]
