-- ===== src/Protocol/Tests.antt =====
-- An error of the rate limiter, and what another server makes of it.
use rocketsocket.Base.{ℕ, ◌≡◌, refl, sym, ap, true, false, none, some, ℕ_eq, String_eq, Option_eq}
use rocketsocket.Protocol.{ErrorCode, DdpError}
use rocketsocket.Protocol.Errors.{has_code, display, has_code-display}

abbrev limited : DdpError ℕ
limited = record {
  error = ErrorCode.string "too-many-requests";
  reason = some "wait";
  message = none;
  error_type = none;
  is_client_safe = none;
  details = none;
}

abbrev relayed : DdpError ℕ
relayed = record limited { error = ErrorCode.string "wait [too-many-requests]" }

prints : display limited ≡ "wait [too-many-requests]"
unfolding display
prints = refl

has_code-display_example : has_code (λ text n. false) relayed "too-many-requests" ≡ true
has_code-display_example =
    has_code-display (λ text n. false) limited relayed "too-many-requests" "wait" refl refl refl
      (ap ErrorCode.string (sym prints))
