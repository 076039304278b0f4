-- ===== src/Rest/Client/Bodies.antt =====
-- What the error of a refused request tells.
use rocketsocket.Base.{
  ℕ, ◌≤◌, ◌<◌, String, ◌≡◌, refl, sym, ◌∙◌, ◌≢◌, ◌⊎◌, inl, inr, false, ◌&&◌, Option, none, some,
  arith, ltb, leb, nat_eq, ℕ_eq, String_eq, Bool-cases, Option-cases, Option_eq,
}
use rocketsocket.Rest.Error.{
  Library, ApiError, ApiErrorKind, FailureEnvelope, from_status, from_response, from_headers,
  truncate, normalize, non_empty,
}

-- The statuses of each kind of refusal.
abbrev pub Fits : ApiErrorKind → ℕ → Type 0
Fits ApiErrorKind.bad_request status = status ≡ 400
Fits ApiErrorKind.unauthorized status = status ≡ 401
Fits ApiErrorKind.forbidden status = status ≡ 403
Fits ApiErrorKind.not_found status = status ≡ 404
Fits ApiErrorKind.too_many_requests status = status ≡ 429
Fits ApiErrorKind.server status = (500 ≤ status) × (status ≤ 599)
Fits ApiErrorKind.other status =
    (status ≢ 400)
    × (status ≢ 401)
    × (status ≢ 403)
    × (status ≢ 404)
    × (status ≢ 429)
    × ((status < 500) ⊎ (599 < status))

from_status-Fits : (status : ℕ) → Fits (from_status status) status
unfolding from_status
from_status-Fits status = elim (Bool-cases (nat_eq status 400)) [
  | inl hit ↦ rw (hit) (ground (arith, hit))
  | inr no400 ↦ elim (Bool-cases (nat_eq status 401)) [
    | inl hit ↦ rw (no400, hit) (ground (arith, hit))
    | inr no401 ↦ elim (Bool-cases (nat_eq status 403)) [
      | inl hit ↦ rw (no400, no401, hit) (ground (arith, hit))
      | inr no403 ↦ elim (Bool-cases (nat_eq status 404)) [
        | inl hit ↦ rw (no400, no401, no403, hit) (ground (arith, hit))
        | inr no404 ↦ elim (Bool-cases (nat_eq status 429)) [
          | inl hit ↦ rw (no400, no401, no403, no404, hit) (ground (arith, hit))
          | inr no429 ↦ elim (Bool-cases (leb 500 status && leb status 599)) [
            | inl hit ↦
                rw (no400, no401, no403, no404, no429, hit)
                  (ground (arith, hit), ground (arith, hit))
            | inr miss ↦
                rw (no400, no401, no403, no404, no429, miss)
                  (
                    ground (arith, no400),
                    ground (arith, no401),
                    ground (arith, no403),
                    ground (arith, no404),
                    ground (arith, no429),
                    elim (Bool-cases (ltb status 500)) [
                      | inl low ↦ inl (ground (arith, low))
                      | inr high ↦ inr (ground (arith, high, miss))
                    ],
                  )
          ]
        ]
      ]
    ]
  ]
]

Fits-from_status : (kind : ApiErrorKind) (status : ℕ) → Fits kind status → from_status status ≡ kind
unfolding from_status
Fits-from_status ApiErrorKind.bad_request status h = ground arith
Fits-from_status ApiErrorKind.unauthorized status h = ground arith
Fits-from_status ApiErrorKind.forbidden status h = ground arith
Fits-from_status ApiErrorKind.not_found status h = ground arith
Fits-from_status ApiErrorKind.too_many_requests status h = ground arith
Fits-from_status ApiErrorKind.server status h = ground arith
Fits-from_status ApiErrorKind.other status h = ground arith

module _ {V Headers Body : Type 0} (library : Library V Headers Body) where
  -- A text that is kept, unless it is empty.
  abbrev pub Kept : String → Option String → Type 0
  Kept text kept =
      ((library.len text ≡ 0) × (kept ≡ none)) ⊎ ((0 < library.len text) × (kept ≡ some text))

  -- What an error takes from the body: the code, the message and the details of a failure body, or,
  -- if the body is none, the start of its text.
  abbrev pub TakesBody : Body → ApiError V → Type 0
  TakesBody body e =
      ((envelope : FailureEnvelope V) × (library.failure_from_slice body ≡ some envelope)
        × (e.code ≡ (normalize library envelope).0)
        × (e.message ≡ (normalize library envelope).1)
        × (e.details ≡ envelope.details)
        × (e.body ≡ none))
      ⊎ ((library.failure_from_slice body ≡ none)
          × (e.code ≡ none)
          × (e.details ≡ none)
          × (e.message ≡ e.body)
          × Kept (truncate library (library.trim (library.from_utf8_lossy body)) 512) e.body)

  -- The error has the status, the kind that fits the status whatever the body says, the limits of
  -- the headers, and what the body tells.
  pub record Tells (status : ℕ) (headers : Headers) (body : Body) (e : ApiError V) : Type 0 where
    pub status_is : e.status ≡ status
    pub kind_fits : Fits e.kind status
    pub limits_are : e.rate_limit ≡ from_headers library headers
    pub takes : TakesBody body e

  Kept-non_empty : (text : String) → Kept text (non_empty library text)
  unfolding non_empty
  Kept-non_empty text = elim (Bool-cases (nat_eq (library.len text) 0)) [
    | inl bare ↦ rw bare (inl (ground (arith, bare), refl))
    | inr full ↦ rw full (inr (ground (arith, full), refl))
  ]

  non_empty-Kept :
      (text : String) (kept : Option String) → Kept text kept → non_empty library text ≡ kept
  unfolding non_empty
  non_empty-Kept text kept (inl (bare, e)) = rw (e, bare) refl
  non_empty-Kept text kept (inr (full, e)) =
      let some_byte : nat_eq (library.len text) 0 ≡ false = ground arith in rw (e, some_byte) refl

  module _ (status : ℕ) (headers : Headers) (body : Body) where
    pub from_response-Tells : Tells status headers body (from_response library status headers body)
    unfolding from_response
    from_response-Tells = elim (Option-cases (library.failure_from_slice body)) [
      | inr (envelope, read) ↦
          rw (read, from_response)
            record {
              status_is = refl;
              kind_fits = from_status-Fits status;
              limits_are = refl;
              takes = inl (envelope, read, refl, refl, refl, refl);
            }
      | inl unread ↦
          rw (unread, from_response)
            record {
              status_is = refl;
              kind_fits = from_status-Fits status;
              limits_are = refl;
              takes = inr (unread, refl, refl, refl, Kept-non_empty _);
            }
    ]

    pub from_response_told :
        (e : ApiError V)
        → Tells status headers body e
        → from_response library status headers body ≡ e
    unfolding from_response
    from_response_told e tells = elim tells.takes [
      | inl (envelope, read, code, message, details, no_body) ↦
          let kind = Fits-from_status e.kind status tells.kind_fits in
          rw (read, from_response)
            (λ i. record {
              status = sym tells.status_is i;
              kind = kind i;
              code = sym code i;
              message = sym message i;
              details = sym details i;
              rate_limit = sym tells.limits_are i;
              body = sym no_body i;
            })
      | inr (unread, code, details, message, kept) ↦
          let kind = Fits-from_status e.kind status tells.kind_fits in
          let text = non_empty-Kept _ e.body kept in
          rw (unread, from_response)
            (λ i. record {
              status = sym tells.status_is i;
              kind = kind i;
              code = sym code i;
              message = (text ∙ sym message) i;
              details = sym details i;
              rate_limit = sym tells.limits_are i;
              body = text i;
            })
    ]
