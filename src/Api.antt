-- ===== src/Api.antt =====
-- services/apierr: the typed service error and what the client sees of an error.
use gofin.Prelude.{if◌then◌else◌, ℕ, String, Bool, true, List, []}
use gofin.Prelude.Int.{ℤ, pos, leb_ℤ, ltb_ℤ}

-- The field-level detail of a validation error, a Go map from field to message.
abbrev pub Fields : Type 0
Fields = List (String × String)

pub record ApiError : Type 0 where
  pub code : String
  pub message : String
  pub status : ℤ
  pub fields : Fields

-- Any Go error: an ApiError that `errors.As` finds in it, a gRPC status error by its code, or
-- another error by its text.
pub data Error : Type 0 where
  api : ApiError → Error
  grpc : (grpc_code : ℕ) → Error
  other : String → Error

pub data Result {ℓ} (A : Type ℓ) : Type ℓ where
  ok : A → Result A
  err : Error → Result A

infixl 5 ◌>>=◌
abbrev pub ◌>>=◌ {ℓ κ} : {A : Type ℓ} {B : Type κ} → Result A → (A → Result B) → Result B
ok a >>= f = f a
err e >>= f = err e

abbrev pub code_unauthorized : String
code_unauthorized = "UNAUTHORIZED"

abbrev pub code_not_found : String
code_not_found = "NOT_FOUND"

abbrev pub code_validation : String
code_validation = "VALIDATION_ERROR"

abbrev pub code_internal : String
code_internal = "INTERNAL_SERVER_ERROR"

abbrev pub code_forbidden : String
code_forbidden = "FORBIDDEN"

abbrev pub coded : String → String → ℕ → Error
coded code message status =
    api (record { code = code; message = message; status = pos status; fields = [] })

unfoldable pub unauthorized : String → Error
unauthorized message = coded code_unauthorized message 401

unfoldable pub not_found : String → Error
not_found message = coded code_not_found message 404

unfoldable pub forbidden : String → Error
forbidden message = coded code_forbidden message 403

unfoldable pub validation : String → Fields → Error
validation message fields =
    api (record { code = code_validation; message = message; status = pos 400; fields = fields })

unfoldable pub conflict : String → String → Error
conflict code message = coded code message 409

unfoldable pub internal : String → Error
internal message = coded code_internal message 500

unfoldable pub rendered_status : ApiError → ℤ
rendered_status e = if leb_ℤ e.status (pos 0) then pos 500 else e.status

unfoldable pub is_server_error : Error → Bool
unfolding rendered_status
is_server_error (api e) = leb_ℤ (pos 500) (rendered_status e)
is_server_error (grpc c) = true
is_server_error (other text) = true

-- What `Respond` writes: the status and the body {code, message, fields?}.
pub record Response : Type 0 where
  pub status : ℤ
  pub code : String
  pub message : String
  pub fields : Fields

abbrev unexpected : Response
unexpected = record {
  status = pos 500;
  code = code_internal;
  message = "An unexpected error occurred";
  fields = [];
}

unfoldable pub respond : Error → Response
respond (api e) =
    if ltb_ℤ (pos 0) e.status
    then record { status = e.status; code = e.code; message = e.message; fields = e.fields }
    else unexpected
respond (grpc c) = unexpected
respond (other text) = unexpected
