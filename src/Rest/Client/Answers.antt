-- ===== src/Rest/Client/Answers.antt =====
-- What the answers of the server become.
use mathlib.Core.Path.{subst}
use rocketsocket.Base.{
  Bool, Option, none, some, is_some_and, ◌↔◌, ap, ℕ, ◌≡◌, refl, sym, ◌∙◌, ◌⊎◌, inl, inr, true,
  false, if◌then◌else◌, ℕ_eq, String_eq, Bool-cases, Result-cases, Result, ok, err, Option_eq,
}
use rocketsocket.Rest.Error.{Library, ApiError, from_response, truncate}
use rocketsocket.Rest.Client.Bodies.{Tells, from_response-Tells, from_response_told}
use rocketsocket.Rest.Client.{
  is_false, snippet_limit, RestError, transport, api, decoding, Response, Decoder,
  is_failure_envelope, decode_body, decode,
}

-- The flag is there, and false.
flag_iff :
    {Body Parse T : Type 0} (decoder : Decoder Body Parse T) (body : Body)
    → (is_failure_envelope decoder body ≡ true) ↔ (decoder.flag_from_slice body ≡ some (some false))
unfolding is_failure_envelope is_false
flag_iff decoder body = go (decoder.flag_from_slice body)
  where
    go : (o : Option (Option Bool)) → (is_some_and o is_false ≡ true) ↔ (o ≡ some (some false))
    go none = (λ h. absurd (cc), λ h. absurd (cc))
    go (some none) = (λ h. absurd (cc), λ h. absurd (cc))
    go (some (some true)) = (λ h. absurd (cc), λ h. absurd (cc))
    go (some (some false)) = (λ h. refl, λ h. refl)

module _ {V Headers Body Wire Parse T : Type 0} (library : Library V Headers Body)
    (decoder : Decoder Body Parse T) where
  -- A refusal that `e` tells of: a body arrives, its status is no success, or it cannot be read as
  -- what was asked for and has a `success` that is `false`, and `e` tells what it says.
  pub record Refused (response : Response Headers Body Wire) (e : ApiError V) : Type 0 where
    pub body : Body
    pub arrived : response.bytes ≡ ok body
    pub refused :
        (decoder.is_success response.status ≡ false)
        ⊎ (((source : Parse) × (decoder.from_slice body ≡ err source))
            × (decoder.flag_from_slice body ≡ some (some false)))
    pub tells : Tells library response.status response.headers body e

  abbrev pub outcome : Response Headers Body Wire → Result T (RestError V Wire Parse)
  outcome response = decode library decoder response

  decode_arrived :
      (response : Response Headers Body Wire) (body : Body)
      → response.bytes ≡ ok body
      → outcome response ≡ decode_body library decoder response.status response.headers body
  unfolding decode
  decode_arrived response body e = rw (e, decode) refl

  decode_lost :
      (response : Response Headers Body Wire) (wire : Wire)
      → response.bytes ≡ err wire
      → outcome response ≡ err (transport wire)
  unfolding decode
  decode_lost response wire e = rw (e, decode) refl

  module _ (status : ℕ) (headers : Headers) (body : Body) where
    abbrev decoded : Result T (RestError V Wire Parse)
    decoded = decode_body library decoder status headers body

    abbrev refusal : Result T (RestError V Wire Parse)
    refusal = err (api (from_response library status headers body))

    decode_body-failed : decoder.is_success status ≡ false → decoded ≡ refusal
    unfolding decode_body
    decode_body-failed e = rw (e, decode_body) refl

    decode_body-read :
        (value : T)
        → decoder.is_success status ≡ true
        → decoder.from_slice body ≡ ok value
        → decoded ≡ ok value
    unfolding decode_body
    decode_body-read value e e' = rw (e, e', decode_body) refl

    decode_body-unread :
        (source : Parse)
        → decoder.is_success status ≡ true
        → decoder.from_slice body ≡ err source
        → decoded ≡ (
            if is_failure_envelope decoder body
            then refusal
            else err (
                decoding status
                  (truncate library (library.from_utf8_lossy body) snippet_limit)
                  source))
    unfolding decode_body
    decode_body-unread source e e' = rw (e, e', decode_body) refl

  api_injective :
      (d e : ApiError V)
      → ◌≡◌ {A = Result T (RestError V Wire Parse)} (err (api d)) (err (api e))
      → d ≡ e
  api_injective d e h = cc

  decode_told :
      (response : Response Headers Body Wire) (e : ApiError V)
      → Refused response e
      → outcome response ≡ err (api e)
  decode_told response e h =
      let status = response.status in
      let headers = response.headers in
      let body = h.body in
      let told = ap (λ d. err (api d)) (from_response_told library status headers body e h.tells) in
      decode_arrived response body h.arrived ∙ elim (h.refused) [
        | inl failed ↦ decode_body-failed status headers body failed ∙ told
        | inr ((source, unread), silent) ↦ elim (Bool-cases (decoder.is_success status)) [
          | inr failed ↦ decode_body-failed status headers body failed ∙ told
          | inl succeeded ↦
              let flagged = (flag_iff decoder body).1 silent in
              decode_body-unread status headers body source succeeded unread ∙ rw flagged told
        ]
      ]

  -- The error that `from_response` makes tells what it should.
  tells :
      (status : ℕ) (headers : Headers) (body : Body) (e : ApiError V)
      → refusal status headers body ≡ err (api e)
      → Tells library status headers body e
  tells status headers body e h =
      subst (Tells library status headers body) (api_injective _ e h)
        (from_response-Tells library status headers body)

  read_refusal :
      (response : Response Headers Body Wire) (e : ApiError V)
      → outcome response ≡ err (api e)
      → Refused response e
  read_refusal response e h = elim (Result-cases response.bytes) [
    | inr (wire, lost) ↦ let clash = sym (decode_lost response wire lost) ∙ h in absurd (cc)
    | inl (body, arrived) ↦
        let status = response.status in
        let headers = response.headers in
        let at = sym (decode_arrived response body arrived) ∙ h in
        elim (Bool-cases (decoder.is_success status)) [
          | inr failed ↦ record {
            body = body;
            arrived = arrived;
            refused = inl failed;
            tells =
                tells status headers body e
                  (sym (decode_body-failed status headers body failed) ∙ at);
          }
          | inl succeeded ↦ elim (Result-cases (decoder.from_slice body)) [
            | inl (value, read) ↦
                let clash = sym (decode_body-read status headers body value succeeded read) ∙ at in
                absurd (cc)
            | inr (source, unread) ↦
                let left =
                  sym (decode_body-unread status headers body source succeeded unread) ∙ at in
                elim (Bool-cases (is_failure_envelope decoder body)) [
                  | inl flagged ↦ record {
                    body = body;
                    arrived = arrived;
                    refused = inr ((source, unread), (flag_iff decoder body).0 flagged);
                    tells = tells status headers body e (rw flagged at left);
                  }
                  | inr silent ↦ let clash = rw silent at left in absurd (cc)
                ]
          ]
        ]
  ]

  -- `decode` gives an error of the API exactly if a body arrives and is a refusal: its status is no
  -- success, whatever the body is, or it is no answer to the request and has a `success` that is
  -- `false`. The error has the response's status, a kind that is the status's alone, and the code
  -- and the message of a failure body, or the start of the text of another body.
  pub decode_api_iff :
      (response : Response Headers Body Wire) (e : ApiError V)
      → (outcome response ≡ err (api e)) ↔ Refused response e
  decode_api_iff response e = (read_refusal response e, decode_told response e)
