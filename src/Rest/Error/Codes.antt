-- ===== src/Rest/Error/Codes.antt =====
-- Which text of a failure body is the machine's code.
use mathlib.Core.Path.{subst}
use mathlib.Core.Option.{some-injective}
use rocketsocket.Base.{
  true, ◌≢◌, String, ◌≡◌, refl, sym, ap, ◌∙◌, ◌↔◌, ◌⊎◌, inl, inr, false, Option, none, some, ◌==◌,
  ℕ_eq, String_eq, Bool-cases, and_then, Option-cases, Option_eq,
}
use rocketsocket.Rest.Error.{
  Scalar, string, number, bool, not_scalar, scalar_text, Library, FailureEnvelope, scalar_to_string,
  code_and_message, normalize,
}

module _ {V Headers Body : Type 0} (library : Library V Headers Body) (x : FailureEnvelope V) where
  -- The text of a scalar: a string is its own, a number and a truth value what they print as. No
  -- other value has one.
  pub data Prints : Scalar → String → Type 0 where
    as_string : (c : String) → Prints (string c) c
    as_number : (c : String) → Prints (number c) c
    as_true : Prints (bool true) "true"
    as_false : Prints (bool false) "false"

  -- The body has a field `error` with the text.
  pub record ErrorPrints (c : String) : Type 0 where
    pub value : V
    pub value_is : x.error ≡ some value
    pub prints : Prints (library.view value) c

  -- The body's field `error`, where it is a scalar.
  abbrev pub error_text : Option String
  error_text = and_then x.error (scalar_to_string library)

  normalize_typed :
      (c : String) → x.error_type ≡ some c → normalize library x ≡ (some c, error_text)
  unfolding normalize
  normalize_typed c e = rw (e, normalize) refl

  normalize_untyped :
      x.error_type ≡ none → normalize library x ≡ code_and_message library x.message error_text
  unfolding normalize
  normalize_untyped e = rw (e, normalize) refl

  scalar_text-Prints : (v : Scalar) (c : String) → scalar_text library v ≡ some c → Prints v c
  unfolding scalar_text
  scalar_text-Prints (string d) c h =
      subst (λ c. Prints (string d) c) (some-injective d c h) (as_string d)
  scalar_text-Prints (number d) c h =
      subst (λ c. Prints (number d) c) (some-injective d c h) (as_number d)
  scalar_text-Prints (bool true) c h =
      subst (λ c. Prints (bool true) c) (some-injective "true" c h) as_true
  scalar_text-Prints (bool false) c h =
      subst (λ c. Prints (bool false) c) (some-injective "false" c h) as_false
  scalar_text-Prints not_scalar c h = absurd (cc)

  text_of_scalar : (v : Scalar) (c : String) → Prints v c → scalar_text library v ≡ some c
  unfolding scalar_text
  text_of_scalar _ _ (as_string c) = refl
  text_of_scalar _ _ (as_number c) = refl
  text_of_scalar _ _ as_true = refl
  text_of_scalar _ _ as_false = refl

  error_text_iff : (c : String) → (error_text ≡ some c) ↔ ErrorPrints c
  unfolding scalar_to_string
  error_text_iff c = (
    λ h. elim (Option-cases x.error) [
      | inl absent ↦ let clash = rw absent at h in absurd (cc)
      | inr (v, found) ↦ record {
        value = v;
        value_is = found;
        prints = scalar_text-Prints (library.view v) c (rw found at h);
      }
    ],
    λ h. rw h.value_is (text_of_scalar (library.view h.value) c h.prints),
  )

  -- A code that `error` gives: there is no `errorType`, and `message` has another text.
  pub record IsLoginCode (c : String) : Type 0 where
    pub untyped : x.error_type ≡ none
    pub error_is : ErrorPrints c
    pub message : String
    pub message_is : x.message ≡ some message
    pub differs : message ≢ c

  code_of_pair :
      (message error : Option String) (c : String)
      → (code_and_message library message error).0 ≡ some c
      → (error ≡ some c) × ((m : String) × (message ≡ some m) × ((m == c) ≡ false))
  unfolding code_and_message
  code_of_pair none error c h = absurd (cc)
  code_of_pair (some m) none c h = absurd (cc)
  code_of_pair (some m) (some d) c h = elim (Bool-cases (m == d)) [
    | inl same ↦ let clash = rw (same, code_and_message) at h in absurd (cc)
    | inr differs ↦
        let given = rw (differs, code_and_message) at h in
        let e : d ≡ c = cc in (ap some e, (m, refl, ap (λ k. m == k) (sym e) ∙ differs))
  ]

  pair_of_code :
      (c : String) → IsLoginCode c → (code_and_message library x.message error_text).0 ≡ some c
  unfolding code_and_message
  pair_of_code c h =
      let error_is = (error_text_iff c).1 h.error_is in
      elim (Bool-cases (h.message == c)) [
        | inl same ↦ absurd (h.differs ((String_eq.eq_iff h.message c).0 same))
        | inr differs ↦ rw (h.message_is, error_is, code_and_message, differs) refl
      ]

  -- The code of a failure body is its `errorType`; without one it is the text of its `error`, a
  -- string, a number or a truth value, where `message` has another text, and without such a
  -- `message` there is none.
  pub normalize-code_iff :
      (c : String) → ((normalize library x).0 ≡ some c) ↔ ((x.error_type ≡ some c) ⊎ IsLoginCode c)
  normalize-code_iff c = (
    λ h. elim (Option-cases x.error_type) [
      | inr (d, typed) ↦
          let e : some d ≡ some c = ap (λ p. p.0) (sym (normalize_typed d typed)) ∙ h in
          inl (typed ∙ e)
      | inl untyped ↦
          let (error_is, (m, message_is, differs)) =
            code_of_pair x.message error_text c
              (ap (λ p. p.0) (sym (normalize_untyped untyped)) ∙ h) in
          inr (record {
            untyped = untyped;
            error_is = (error_text_iff c).0 error_is;
            message = m;
            message_is = message_is;
            differs = λ same. let yes = (String_eq.eq_iff m c).1 same in cc;
          })
    ],
    λ h. elim h [
      | inl typed ↦ ap (λ p. p.0) (normalize_typed c typed)
      | inr login ↦ ap (λ p. p.0) (normalize_untyped login.untyped) ∙ pair_of_code c login
    ],
  )
