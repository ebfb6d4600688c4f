-- ===== src/Finance/Installments.antt =====
-- `CalculateInstallments` of services/finance/internal/service/prorata.go.
pub mod Sum
use gofin.Prelude.{if◌then◌else◌, replicate, ℕ, ◌-◌, List, [], ◌∷◌}
use gofin.Prelude.Int.{ℤ, pos, ◌+ℤ◌, ◌-ℤ◌, ◌*ℤ◌, quot, leb_ℤ, eqb_ℤ, wrap64, pos_part}

-- The loop that fills the slots from 1 to months - 1.
unfoldable pub spread : ℤ → ℤ → ℕ → List ℤ
spread base remainder months = wrap64 (base +ℤ remainder) ∷ replicate (months - 1) base

unfoldable pub calculate_installments : ℤ → ℤ → List ℤ
unfolding spread
calculate_installments total months =
    if leb_ℤ months (pos 0)
    then []
    else if eqb_ℤ months (pos 1)
    then total ∷ []
    else let base = quot total (pos_part months) in
      let remainder = wrap64 (total -ℤ wrap64 (base *ℤ months)) in
      spread base remainder (pos_part months)
