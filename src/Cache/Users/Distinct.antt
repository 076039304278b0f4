-- ===== src/Cache/Users/Distinct.antt =====
-- Lists of ids without a repetition: what an addition at the end and a removal leave.
use rocketsocket.Base.{
  suc, String, ◌≡◌, refl, true, false, not, List, [], ◌∷◌, ◌++◌, arith, ◌==◌, ℕ_eq, String_eq,
  elem-append, elem-retain, length, retain, elem, Option_eq,
}

abbrev pub IsDistinct : List String → Type 0
IsDistinct [] = Unit
IsDistinct (x ∷ xs) = (elem xs x ≡ false) × IsDistinct xs

pub IsDistinct-append :
    (xs : List String) (id : String)
    → IsDistinct xs
    → elem xs id ≡ false
    → IsDistinct (xs ++ (id ∷ []))
unfolding elem
IsDistinct-append [] id d h = ground arith
IsDistinct-append (x ∷ xs) id d h = ground (
  arith,
  elem-append xs (id ∷ []) x,
  String_eq.eq_iff x id,
  String_eq.eq_iff id x,
  IsDistinct-append xs id d.1,
)

abbrev pub others : String → List String → List String
others id = retain (λ candidate. not (candidate == id))

pub IsDistinct-others : (id : String) (xs : List String) → IsDistinct xs → IsDistinct (others id xs)
IsDistinct-others id [] d = tt
IsDistinct-others id (x ∷ xs) d = ground (arith, elem-retain id x xs, IsDistinct-others id xs d.1)

pub others_absent :
    (id : String) (xs : List String) → elem xs id ≡ false → length (others id xs) ≡ length xs
unfolding elem
others_absent id [] h = refl
others_absent id (x ∷ xs) h = ground (arith, others_absent id xs)

pub length-others :
    (id : String) (xs : List String)
    → IsDistinct xs
    → elem xs id ≡ true
    → suc (length (others id xs)) ≡ length xs
unfolding elem
length-others id [] d h = cc
length-others id (x ∷ xs) d h =
    ground (arith, length-others id xs d.1, others_absent id xs, String_eq.eq_iff x id)
