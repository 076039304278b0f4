-- ===== src/Rest/Error/Snippets.antt =====
-- Where a text is cut.
use rocketsocket.Base.{
  ℕ, zero, suc, ◌≤◌, ◌<◌, String, ◌≡◌, refl, sym, ap, ◌∙◌, ◌⊎◌, inl, inr, true, false, arith, leb,
  nat_eq, ℕ_eq, String_eq, Bool-cases, Option_eq,
}
use rocketsocket.Rest.Error.{Library, boundary, truncate}

module _ {V Headers Body : Type 0} (library : Library V Headers Body) (text : String) where
  -- The last boundary of a character up to a place.
  pub record LastBoundary (limit k : ℕ) : Type 0 where
    pub within : k ≤ limit
    pub cuts : library.is_char_boundary text k ≡ true
    pub latest : (j : ℕ) → j ≤ limit → library.is_char_boundary text j ≡ true → j ≤ k

  boundary-LastBoundary :
      (limit : ℕ)
      → library.is_char_boundary text 0 ≡ true
      → LastBoundary limit (boundary library text limit)
  unfolding boundary
  boundary-LastBoundary zero starts = record {
    within = omega arith;
    cuts = starts;
    latest = λ j h _. h;
  }
  boundary-LastBoundary (suc limit) starts =
      let earlier = boundary-LastBoundary limit starts in
      elim (Bool-cases (library.is_char_boundary text (suc limit))) [
        | inl cuts ↦
            rw (cuts, boundary) record { within = omega arith; cuts = cuts; latest = λ j h _. h }
        | inr inside ↦
            rw (inside, boundary)
              record {
                within = omega (arith, earlier.within);
                cuts = earlier.cuts;
                latest = λ j h e. elim (Bool-cases (nat_eq j (suc limit))) [
                  | inl same ↦
                      let at : j ≡ suc limit = ground (arith, same) in
                      let no : true ≡ false =
                        sym e ∙ ap (library.is_char_boundary text) at ∙ inside in
                      cc
                  | inr other ↦ earlier.latest j (ground (arith, other, h)) e
                ];
              }
      ]

  -- Let the start of the text be a boundary, as it is of each text. A text that is longer than the
  -- limit is cut at the last boundary of a character that the limit allows; another is kept whole.
  pub truncate_longest :
      (limit : ℕ)
      → library.is_char_boundary text 0 ≡ true
      → ((library.len text ≤ limit) × (truncate library text limit ≡ text))
        ⊎ ((limit < library.len text)
            × ((k : ℕ) × LastBoundary limit k
                × (truncate library text limit ≡ library.up_to text k)))
  unfolding truncate
  truncate_longest limit starts = elim (Bool-cases (leb (library.len text) limit)) [
    | inl fits ↦ inl (ground (arith, fits), rw (fits, truncate) refl)
    | inr long ↦ inr (
      ground (arith, long),
      (boundary library text limit, boundary-LastBoundary limit starts, rw (long, truncate) refl),
    )
  ]
