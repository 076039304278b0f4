-- ===== src/Base/Elements.antt =====
-- Membership in a list that was extended or filtered.
use Prim.Native.String.{String}
use mathlib.Core.Path.{◌≡◌, refl}
use mathlib.Core.Bool.{false, not, ◌||◌}
use mathlib.Core.List.{List, [], ◌∷◌, ◌++◌}
use native.Mathlib.Omega.{arith}
use rocketsocket.Base.Tests.{Eq, ◌==◌, String_eq, if◌then◌else◌}
use rocketsocket.Base.Lists.{retain, elem}

pub elem-append :
    {A : Type 0} ⦃e : Eq A⦄ (xs ys : List A) (a : A) → elem (xs ++ ys) a ≡ (elem xs a || elem ys a)
unfolding elem
elem-append [] ys a = refl
elem-append (x ∷ xs) ys a = ground (arith, elem-append xs ys a)

pub elem-retain :
    (id x : String) (xs : List String)
    → elem (retain (λ c. not (c == id)) xs) x ≡ (if id == x then false else elem xs x)
unfolding elem
elem-retain id x [] = ground arith
elem-retain id x (y ∷ ys) =
    ground (
      arith,
      elem-retain id x ys,
      String_eq.eq_iff id x,
      String_eq.eq_iff y id,
      String_eq.eq_iff y x,
    )
