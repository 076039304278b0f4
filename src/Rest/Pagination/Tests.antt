-- ===== src/Rest/Pagination/Tests.antt =====
-- A server that clamps each page to two rows.
use rocketsocket.Base.{ℕ, ◌≡◌, refl, none, some, List, [], ◌∷◌, arith, ℕ_eq, String_eq, Option_eq}
use rocketsocket.Rest.Pagination.{Pagination, PageInfo, u32_max, new, try_new, following}
use rocketsocket.Rest.Pagination.Walks.{walk, take, drop, Serves, walk_gathers}

abbrev rows : List ℕ
rows = 10 ∷ 11 ∷ 12 ∷ 13 ∷ 14 ∷ []

abbrev clamping : Pagination → List ℕ × PageInfo
clamping p = (take 2 (drop p.offset rows), record { count = 2; offset = p.offset; total = 5 })

clamping-Serves : Serves clamping rows
clamping-Serves = record {
  skipped = λ p. refl;
  all_rows = λ p. refl;
  rows = λ p. refl;
  some_rows = λ p h. omega arith;
}

walk_gathers_example : walk clamping 6 (new 50) ≡ some (drop (new 50).offset rows)
walk_gathers_example =
    walk_gathers clamping rows 6 (new 50) clamping-Serves (omega arith) (omega arith)

no_unlimited_page : try_new 0 ≡ none
unfolding try_new
no_unlimited_page = refl

stalls : (following (record { offset = 4294967290; count = 10 })).offset ≡ u32_max
unfolding following
stalls = refl
