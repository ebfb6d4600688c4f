-- ===== src/Prelude/Format.antt =====
-- The number verbs of Go's `fmt` that the services use.
use Prim.Native.Nat.{ℕ, zero, suc, ◌-◌, ◌/◌, ◌%◌}
use Prim.Native.String.{String, ◌++◌}
use mathlib.Core.Bool.{true, false}
use mathlib.Core.List.{List, [], ◌∷◌}
use gofin.Prelude.Tests.{ltb}
use gofin.Prelude.Int.{ℤ, pos, negsuc}

abbrev pub text_at : List String → ℕ → String
text_at [] n = ""
text_at (d ∷ ds) zero = d
text_at (d ∷ ds) (suc n) = text_at ds n

unfoldable pub digit : ℕ → String
digit = text_at ("0" ∷ "1" ∷ "2" ∷ "3" ∷ "4" ∷ "5" ∷ "6" ∷ "7" ∷ "8" ∷ "9" ∷ [])

-- The last digits of a number, `width` of them at least. The fuel bounds the digits.
unfoldable pub digits : ℕ → ℕ → ℕ → String
unfolding digit
digits zero width n = ""
digits (suc fuel) zero n = elim (ltb 0 n) [
  | true ↦ digits fuel zero (n / 10) ++ digit (n % 10)
  | false ↦ ""
]
digits (suc fuel) (suc width) n = digits fuel width (n / 10) ++ digit (n % 10)

-- `%0wd` of an int64: at most twenty digits.
unfoldable pub show_padded : ℕ → ℤ → String
unfolding digits
show_padded width (pos n) = digits 20 width n
show_padded width (negsuc n) = "-" ++ digits 20 (width - 1) (suc n)

-- `%d`.
unfoldable pub show_ℤ : ℤ → String
unfolding show_padded
show_ℤ = show_padded 1

-- `%d` of a number of any size.
unfoldable pub show_ℕ : ℕ → String
unfolding digits
show_ℕ n = digits (suc n) 1 n
