-- ===== src/Rest/Tests.antt =====
-- The refusals that the server sends, as Rest/Error and Rest/Client read them.
use rocketsocket.Base.{
  ℕ, ◌+◌, ◌*◌, ◌≤◌, ◌<◌, String, ◌≡◌, refl, ◌↔◌, ◌⊎◌, Bool, false, ◌&&◌, ◌||◌, Option, none, some,
  arith, leb, nat_eq, if◌then◌else◌, ℕ_eq, String_eq, ok, err, Option_eq,
}
use rocketsocket.Protocol.{pos}
use rocketsocket.Rest.Error.{
  Scalar, string, number, Library, FailureEnvelope, ApiErrorKind, RateLimit, truncate, from_status,
  from_response, normalize, ApiError, retry_after_since, max_retry_after, nanos_per_milli,
}
use rocketsocket.Rest.Error.Codes.{IsLoginCode, normalize-code_iff}
use rocketsocket.Rest.Error.Limits.{retry_after_since_bounds}
use rocketsocket.Rest.Error.Snippets.{LastBoundary, truncate_longest}
use rocketsocket.Rest.Client.{api, Decoder, Response, decode}
use rocketsocket.Rest.Client.Answers.{Refused, decode_api_iff}

-- A body that is no JSON, a failure, and the answer to a wrong password.
data Body : Type 0 where
  plain_text failure wrong_password : Body

abbrev envelope : Body → Option (FailureEnvelope Scalar)
envelope plain_text = none
envelope failure = some (record {
  error = some (string "no");
  error_type = some "error-x";
  message = none;
  details = none;
})
envelope wrong_password = some (record {
  error = some (number "403");
  error_type = none;
  message = some "Unauthorized";
  details = none;
})

-- A text of four bytes, whose last character has three.
abbrev boundaries : ℕ → Bool
boundaries k = leb k 1 || nat_eq k 4

abbrev library : Library Scalar String Body
library = record {
  view = λ v. v;
  header = λ headers name. none;
  failure_from_slice = envelope;
  from_utf8_lossy = λ body. "Unauthorized";
  parse_u64 = λ text. none;
  parse_i64 = λ text. none;
  trim = λ text. text;
  len = λ text. 4;
  is_char_boundary = λ text k. boundaries k;
  up_to = λ text k. if nat_eq k 1 then "a" else "";
}

abbrev decoder : Decoder Body String ℕ
decoder = record {
  is_success = λ status. leb 200 status && leb status 299;
  from_slice = λ body. err "shape";
  flag_from_slice = λ body. some (some false);
}

abbrev response : ℕ → Body → Response String Body String
response status body = record { status = status; headers = ""; bytes = ok body }

abbrev login : FailureEnvelope Scalar
login = record {
  error = some (number "403");
  error_type = none;
  message = some "Unauthorized";
  details = none;
}

normalizes : normalize library login ≡ (some "403", some "Unauthorized")
unfolding normalize
normalizes = refl

server_error : from_status 503 ≡ ApiErrorKind.server
unfolding from_status
server_error = refl

cuts : truncate library "a€" 3 ≡ "a"
unfolding truncate
cuts = refl

abbrev limited : RateLimit
limited = record { limit = some 10; remaining = some 0; reset_epoch_ms = some (pos 5000) }

waits : retry_after_since limited (pos 3000000000) ≡ some 2000000000
unfolding retry_after_since
waits = refl

retry_after_since_bounds_example :
    (w : ℕ) × (retry_after_since limited (pos 3000000000) ≡ some w)
    × (w ≤ max_retry_after)
    × ((w ≡ max_retry_after) ⊎ (5000 * nanos_per_milli ≤ 3000000000 + w))
    × ((w ≡ 0) ⊎ (3000000000 + w < (5000 + 1) * nanos_per_milli))
retry_after_since_bounds_example =
    retry_after_since_bounds limited 5000 3000000000 refl (omega arith)

truncate_longest_example :
    ((library.len "a€" ≤ 3) × (truncate library "a€" 3 ≡ "a€"))
    ⊎ ((3 < library.len "a€")
        × ((k : ℕ) × LastBoundary library "a€" 3 k
            × (truncate library "a€" 3 ≡ library.up_to "a€" k)))
truncate_longest_example = truncate_longest library "a€" 3 refl

normalize-code_iff_example :
    ((normalize library login).0 ≡ some "403")
    ↔ ((login.error_type ≡ some "403") ⊎ IsLoginCode library login "403")
normalize-code_iff_example = normalize-code_iff library login "403"

abbrev bare : ApiError Scalar
bare = record {
  status = 401;
  kind = ApiErrorKind.unauthorized;
  code = none;
  message = some "Unauthorized";
  details = none;
  rate_limit = none;
  body = some "Unauthorized";
}

-- A plain-text 401 keeps its text.
keeps_text : from_response library 401 "" plain_text ≡ bare
unfolding from_response
keeps_text = refl

decode_api_iff_example :
    (decode library decoder (response 401 plain_text) ≡ err (api bare))
    ↔ Refused library decoder (response 401 plain_text) bare
decode_api_iff_example = decode_api_iff library decoder (response 401 plain_text) bare
