-- ===== src/Rest/Pagination/Walks.antt =====
-- A caller that walks a collection by `next_page`.
use rocketsocket.Base.{
  ℕ, zero, suc, ◌+◌, ◌-◌, ◌≤◌, ◌<◌, ◌≡◌, refl, sym, ap, ◌∙◌, inl, inr, true, false, Option, none,
  some, List, [], ◌∷◌, ◌++◌, arith, ltb, nat_eq, ℕ_eq, String_eq, Bool-cases, and_then, length,
  Option_eq,
}
use rocketsocket.Rest.Pagination.{
  Pagination, PageInfo, u32_max, next_page, has_more, saturating_add, non_zero, new, with_offset,
}

-- The page after one with rows, where there are more.
next_page-some :
    (i : PageInfo)
    → 0 < i.count
    → saturating_add i.offset i.count < i.total
    → next_page i ≡ some (record { offset = saturating_add i.offset i.count; count = i.count })
unfolding next_page has_more non_zero new with_offset
next_page-some i h more =
    let continues : ltb (saturating_add i.offset i.count) i.total ≡ true = ground arith in
    let rows : nat_eq i.count 0 ≡ false = ground arith in rw (continues, rows) refl

next_page-none : (i : PageInfo) → i.total ≤ saturating_add i.offset i.count → next_page i ≡ none
unfolding next_page has_more
next_page-none i h =
    let ends : ltb (saturating_add i.offset i.count) i.total ≡ false = ground arith in rw ends refl

module _ {A : Type 0} where
  -- The pages of a walk, until there is no next; `none` where the fuel ends first.
  abbrev pub walk : (Pagination → List A × PageInfo) → ℕ → Pagination → Option (List A)
  walk server zero p = none
  walk server (suc fuel) p =
      let (rows, info) = server p in
      elim (next_page info) [
        | none ↦ some rows
        | some q ↦ and_then (walk server fuel q) (λ later. some (rows ++ later))
      ]

  abbrev pub take : ℕ → List A → List A
  take zero xs = []
  take (suc n) [] = []
  take (suc n) (x ∷ xs) = x ∷ take n xs

  abbrev pub drop : ℕ → List A → List A
  drop zero xs = xs
  drop (suc n) [] = []
  drop (suc n) (x ∷ xs) = drop n xs

  take_all : (n : ℕ) (xs : List A) → length xs ≤ n → take n xs ≡ xs
  take_all zero [] h = refl
  take_all zero (x ∷ xs) h = absurd (omega (arith, h))
  take_all (suc n) [] h = refl
  take_all (suc n) (x ∷ xs) h = ap (λ rest. x ∷ rest) (take_all n xs (omega (arith, h)))

  take-drop : (n : ℕ) (xs : List A) → take n xs ++ drop n xs ≡ xs
  take-drop zero xs = refl
  take-drop (suc n) [] = refl
  take-drop (suc n) (x ∷ xs) = ap (λ rest. x ∷ rest) (take-drop n xs)

  drop_nil : (n : ℕ) → drop n [] ≡ []
  drop_nil zero = refl
  drop_nil (suc n) = refl

  drop-drop : (m n : ℕ) (xs : List A) → drop n (drop m xs) ≡ drop (m + n) xs
  drop-drop zero n xs = let e : n ≡ 0 + n = omega arith in ap (λ k. drop k xs) e
  drop-drop (suc m) n [] = drop_nil n ∙ sym (drop_nil (suc m + n))
  drop-drop (suc m) n (x ∷ xs) =
      let e : suc (m + n) ≡ suc m + n = omega arith in
      drop-drop m n xs ∙ ap (λ k. drop k (x ∷ xs)) e

  length-drop : (n : ℕ) (xs : List A) → length (drop n xs) ≡ length xs - n
  length-drop zero xs = omega arith
  length-drop (suc n) [] = omega arith
  length-drop (suc n) (x ∷ xs) = omega (arith, length-drop n xs)

  -- What the server's pages of a collection are: it may return fewer rows than were requested, but
  -- not none where there are some, and it says how many it skipped and how many there are.
  pub record Serves (server : Pagination → List A × PageInfo) (xs : List A) : Type 0 where
    pub skipped : (p : Pagination) → (server p).1.offset ≡ p.offset
    pub all_rows : (p : Pagination) → (server p).1.total ≡ length xs
    pub rows : (p : Pagination) → (server p).0 ≡ take (server p).1.count (drop p.offset xs)
    pub some_rows : (p : Pagination) → p.offset < length xs → 0 < (server p).1.count

  -- Let a server serve a collection of at most `u32::MAX` rows. A walk from any page ends within as
  -- many requests as there are rows behind the page, and one, and it gathers exactly the rows from
  -- the page's offset on, each once and in order.
  pub walk_gathers :
      (server : Pagination → List A × PageInfo) (xs : List A) (fuel : ℕ) (p : Pagination)
      → Serves server xs
      → length xs ≤ u32_max
      → length xs - p.offset < fuel
      → walk server fuel p ≡ some (drop p.offset xs)
  unfolding saturating_add
  walk_gathers server xs zero p s small enough = absurd (omega (arith, enough))
  walk_gathers server xs (suc fuel) p s small enough =
      let i = (server p).1 in
      let sum = saturating_add i.offset i.count in
      let left = drop p.offset xs in
      elim (Bool-cases (ltb sum i.total)) [
        | inr ends ↦
            let covered : length left ≤ i.count =
              ground (arith, length-drop p.offset xs, s.skipped p, s.all_rows p, ends) in
            rw (next_page-none i (ground (arith, ends)), walk)
              (ap some (s.rows p ∙ take_all i.count left covered))
        | inl more ↦
            let reached : sum ≡ p.offset + i.count =
              ground (arith, s.skipped p, s.all_rows p, more, small) in
            let before : p.offset < length xs = ground (arith, s.skipped p, s.all_rows p, more) in
            let advances : 0 < i.count = s.some_rows p before in
            let q : Pagination = record { offset = sum; count = i.count } in
            let later =
              walk_gathers server xs fuel q s small
                (omega (arith, reached, advances, before, enough)) in
            let rest : drop sum xs ≡ drop i.count left =
              ap (λ k. drop k xs) reached ∙ sym (drop-drop p.offset i.count xs) in
            rw (next_page-some i advances (ground (arith, more)), later, walk)
              (ap some (rw (s.rows p, rest) (take-drop i.count left)))
      ]
