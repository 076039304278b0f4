-- ===== src/Protocol/Errors.antt =====
-- crates/rocketsocket-model/src/protocol.rs: the codes of the server's errors, and how an error is
-- printed. Whether `parse` reads a
-- text as an `i64` is an argument.
use text.Mathlib.TextLemmas.{append_assoc}
use Prim.Native.String.{len, slice, ◌++◌ as append}
use text.Mathlib.TextPositions.{slice-append_right, len-append}
use rocketsocket.Base.{
  ◌+◌, ◌-◌, String, ◌≡◌, refl, sym, ap, ◌∙◌, inl, inr, Bool, true, false, ◌&&◌, Option, none, some,
  arith, leb, if◌then◌else◌, ◌==◌, ℕ_eq, String_eq, Bool-cases, Option_eq,
}
use rocketsocket.Map.Laws.{eq_self}
use rocketsocket.Protocol.{ℤ, ErrorCode, DdpError, code_to_string}

abbrev pub code_too_many_requests : String
code_too_many_requests = "too-many-requests"

-- `str::ends_with`.
unfoldable pub ends_with : String → String → Bool
ends_with text suffix =
    leb (len suffix) (len text) && (slice text (len text - len suffix) (len text) == suffix)

-- `[{code}]`.
unfoldable pub bracketed : String → String
bracketed code = append "[" (append code "]")

module _ (reads_as : String → ℤ → Bool) where
  unfoldable pub is_code : ErrorCode → String → Bool
  is_code (ErrorCode.string value) code = value == code
  is_code (ErrorCode.number value) code = reads_as code value

  unfoldable pub ends_in_code : ErrorCode → String → Bool
  unfolding ends_with bracketed
  ends_in_code (ErrorCode.string text) code = ends_with text (bracketed code)
  ends_in_code (ErrorCode.number value) code = false

  unfoldable pub has_code : {V : Type 0} → DdpError V → String → Bool
  unfolding is_code ends_in_code
  has_code e code = if is_code e.error code then true else ends_in_code e.error code

  unfoldable pub is_too_many_requests : {V : Type 0} → DdpError V → Bool
  unfolding has_code
  is_too_many_requests e = has_code e code_too_many_requests

-- The text of an error.
unfoldable pub shown : Option String → Option String → ErrorCode → String
unfolding bracketed code_to_string
shown (some message) reason code = message
shown none (some reason) code = append reason (append " " (bracketed (code_to_string code)))
shown none none code = code_to_string code

unfoldable pub display : {V : Type 0} → DdpError V → String
unfolding shown
display e = shown e.message e.reason e.error

ends_with-append : (front back : String) → ends_with (append front back) back ≡ true
unfolding ends_with
ends_with-append front back =
    let within : leb (len back) (len front + len back) ≡ true = ground arith in
    let at : len front + len back - len back ≡ len front = omega arith in
    rw (len-append front back, within, at, slice-append_right front back, eq_self back) refl

-- The reason that an error is printed with, before its code.
led_by : (reason code : String) → append reason (append " " code) ≡ append (append reason " ") code
led_by reason code = sym (append_assoc reason " " code)

display-reason :
    {V : Type 0} (e : DdpError V) (code reason : String)
    → e.error ≡ ErrorCode.string code
    → e.message ≡ none
    → e.reason ≡ some reason
    → display e ≡ append (append reason " ") (bracketed code)
unfolding display shown code_to_string
display-reason e code reason coded silent told =
    rw (silent, told, coded, display, shown) (led_by reason (bracketed code))

-- An error with a text for its code and a reason, and without a message, that is relayed with its
-- printed text in place of the code, is still found to have the code.
pub has_code-display :
    {V : Type 0} (reads_as : String → ℤ → Bool) (e relayed : DdpError V) (code reason : String)
    → e.error ≡ ErrorCode.string code
    → e.message ≡ none
    → e.reason ≡ some reason
    → relayed.error ≡ ErrorCode.string (display e)
    → has_code reads_as relayed code ≡ true
unfolding has_code is_code ends_in_code
has_code-display reads_as e relayed code reason coded silent told printed =
    let last : ends_with (display e) (bracketed code) ≡ true =
      ap (λ t. ends_with t (bracketed code)) (display-reason e code reason coded silent told)
      ∙ ends_with-append (append reason " ") (bracketed code) in
    elim (Bool-cases (display e == code)) [
      | inl same ↦ rw (printed, has_code, is_code, same) refl
      | inr other ↦ rw (printed, has_code, is_code, ends_in_code, other, last) refl
    ]
