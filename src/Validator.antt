-- ===== src/Validator.antt =====
-- services/shared/validator/validator.go.
use gofin.Prelude.{
  if◌then◌else◌, String, ◌≡◌, refl, ◌↔◌, Bool, true, false, ◌||◌, Option, none, some, [], ◌∷◌,
  arith, str_eq,
}
use gofin.Api.{Fields}

unfoldable pub has_field : String → Fields → Bool
has_field field [] = false
has_field field ((f, m) ∷ v) = str_eq f field || has_field field v

-- `Check` on the fields recorded so far, the later ones in front.
unfoldable pub check : Bool → String → String → Fields → Fields
unfolding has_field
check cond field msg v = if cond then v else if has_field field v then v else (field, msg) ∷ v

unfoldable pub has_errors : Fields → Bool
has_errors [] = false
has_errors (e ∷ v) = true

-- The message recorded for a field.
unfoldable pub error_of : String → Fields → Option String
error_of field [] = none
error_of field ((f, m) ∷ v) = if str_eq f field then some m else error_of field v

pub check-eq-nil :
    (cond : Bool) (field msg : String) (v : Fields)
    → (check cond field msg v ≡ []) ↔ ((cond ≡ true) × (v ≡ []))
unfolding check has_field
check-eq-nil true field msg v = (λ e. (refl, e), λ h. h.1)
check-eq-nil false field msg [] = (λ e. cc, λ h. cc)
check-eq-nil false field msg ((f, m) ∷ v) = (λ e. ground arith, λ h. cc)

pub has_errors_iff : (v : Fields) → (has_errors v ≡ false) ↔ (v ≡ [])
unfolding has_errors
has_errors_iff [] = (λ e. refl, λ e. refl)
has_errors_iff (e ∷ v) = (λ h. cc, λ h. cc)
