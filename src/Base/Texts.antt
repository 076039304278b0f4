-- ===== src/Base/Texts.antt =====
-- The decimal text of a number, as `format!` prints a `u64`, and the value that it stands for.
use Prim.Native.Nat.{ℕ, zero, suc, ◌+◌, ◌-◌, ◌*◌, ◌/◌, ◌%◌, ◌<◌}
use Prim.Native.Char.{code}
use Prim.Native.String.{String, ◌++◌}
use mathlib.Core.Path.{◌≡◌, sym, ap, ◌∙◌}
use mathlib.Core.Logic.{inl, inr}
use native.Mathlib.Omega.{arith}
use text.Mathlib.TextLemmas.{nil-append, cons-append}
use rocketsocket.Base.Tests.{if◌then◌else◌, ltb, Bool-cases}

digit : ℕ → String
digit zero = "0"
digit (suc zero) = "1"
digit (suc (suc zero)) = "2"
digit (suc (suc (suc zero))) = "3"
digit (suc (suc (suc (suc zero)))) = "4"
digit (suc (suc (suc (suc (suc zero))))) = "5"
digit (suc (suc (suc (suc (suc (suc zero)))))) = "6"
digit (suc (suc (suc (suc (suc (suc (suc zero))))))) = "7"
digit (suc (suc (suc (suc (suc (suc (suc (suc zero)))))))) = "8"
digit _ = "9"

-- With fuel for one digit at each step.
digits : ℕ → ℕ → String
unfolding digit
digits zero n = digit (n % 10)
digits (suc f) n =
    let front = digits f (n / 10) in if ltb n 10 then digit (n % 10) else front ++ digit (n % 10)

unfoldable pub to_decimal : ℕ → String
unfolding digits
to_decimal n = digits n n

value_from : ℕ → String → ℕ
value_from acc String.[] = acc
value_from acc (String.◌∷◌ c s) = value_from (acc * 10 + (code c - 48)) s

value_from-append :
    (acc : ℕ) (s t : String) → value_from acc (s ++ t) ≡ value_from (value_from acc s) t
unfolding value_from
value_from-append acc String.[] t = rw nil-append
value_from-append acc (String.◌∷◌ c s) t =
    rw cons-append (value_from-append (acc * 10 + (code c - 48)) s t)

value_from-digit : (acc d : ℕ) → d < 10 → value_from acc (digit d) ≡ acc * 10 + d
unfolding value_from digit
value_from-digit acc zero h = omega arith
value_from-digit acc (suc zero) h = omega arith
value_from-digit acc (suc (suc zero)) h = omega arith
value_from-digit acc (suc (suc (suc zero))) h = omega arith
value_from-digit acc (suc (suc (suc (suc zero)))) h = omega arith
value_from-digit acc (suc (suc (suc (suc (suc zero))))) h = omega arith
value_from-digit acc (suc (suc (suc (suc (suc (suc zero)))))) h = omega arith
value_from-digit acc (suc (suc (suc (suc (suc (suc (suc zero))))))) h = omega arith
value_from-digit acc (suc (suc (suc (suc (suc (suc (suc (suc zero)))))))) h = omega arith
value_from-digit acc (suc (suc (suc (suc (suc (suc (suc (suc (suc zero))))))))) h = omega arith
value_from-digit acc (suc (suc (suc (suc (suc (suc (suc (suc (suc (suc d)))))))))) h =
    absurd (omega arith)

value-digits : (f n : ℕ) → n < suc f → value_from 0 (digits f n) ≡ n
unfolding digits
value-digits zero n h = value_from-digit 0 (n % 10) (omega arith) ∙ omega arith
value-digits (suc f) n h = elim (Bool-cases (ltb n 10)) [
  | inl small ↦ rw (small, digits) (value_from-digit 0 (n % 10) (omega arith) ∙ ground arith)
  | inr large ↦
      rw (large, digits, value_from-append, value-digits f (n / 10) (ground arith))
        (value_from-digit (n / 10) (n % 10) (omega arith) ∙ omega arith)
]

-- Two numbers with one text are equal.
pub to_decimal_injective : (m n : ℕ) → to_decimal m ≡ to_decimal n → m ≡ n
unfolding to_decimal
to_decimal_injective m n h =
    sym (value-digits m m (omega arith)) ∙ ap (value_from 0) h ∙ value-digits n n (omega arith)
