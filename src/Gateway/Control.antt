-- ===== src/Gateway/Control.antt =====
-- services/gateway/internal/access/control.go and validator.go.
pub mod Spoofing
pub mod Admission
use gofin.Prelude.{
  ◌==◌, if◌then◌else◌, ℕ, String, Bool, true, false, ◌||◌, Option, none, some, str_eq,
}
use gofin.Access.{authenticated, admin, personal, deny, public, Level}
use gofin.Gateway.Headers.{Headers, del_header, set_header}
use gofin.Access.Resolver.{resolve}

-- What an error of the validator is, as `errors.Is` and `status.FromError` see it.
pub record ValidationError : Type 0 where
  pub is_deadline_exceeded : Bool
  pub grpc_code : Option ℕ

pub record TokenValidationResult : Type 0 where
  pub user_id : String
  pub role : String
  pub assumed_by : String

pub data Validation : Type 0 where
  valid : TokenValidationResult → Validation
  rejected : ValidationError → Validation

-- The auth service's ValidateToken, which the gateway only calls.
abbrev pub TokenValidator : Type 0
TokenValidator = String → Validation

-- A gin context: the request, the access cookie if the request has one, and the keys that later
-- handlers read.
pub record Context : Type 0 where
  pub method : String
  pub path : String
  pub headers : Headers
  pub cookie : Option String
  pub keys : Headers

-- How the middleware ends: the next handler is called, or the chain is aborted with a status, an
-- error code and a message.
pub data Outcome : Type 0 where
  next : Context → Outcome
  aborted : (status : ℕ) (error_code message : String) → Outcome

abbrev pub header_user_id : String
header_user_id = "X-User-ID"

abbrev pub header_user_role : String
header_user_role = "X-User-Role"

abbrev pub header_assumed_by : String
header_assumed_by = "X-Assumed-By"

abbrev pub role_user : String
role_user = "user"

abbrev pub role_admin : String
role_admin = "admin"

-- codes.DeadlineExceeded
abbrev pub deadline_exceeded : ℕ
deadline_exceeded = 4

unfoldable pub gateway_resolve : String → String → Level
unfolding resolve
gateway_resolve method path =
    if str_eq path "/health" || (str_eq path "/metrics" || str_eq path "/readyz")
    then public
    else resolve method path

unfoldable pub strip_identity_headers : Context → Context
strip_identity_headers c = record c {
  headers =
      del_header header_assumed_by
        (del_header header_user_role (del_header header_user_id c.headers));
}

unfoldable pub set_identity_headers : Context → TokenValidationResult → Context
set_identity_headers c result =
    let named =
      set_header header_user_role result.role
        (set_header header_user_id result.user_id c.headers) in
    record c {
      headers =
          if str_eq result.assumed_by ""
          then named
          else set_header header_assumed_by result.assumed_by named;
      keys = set_header header_user_id result.user_id c.keys;
    }

unfoldable pub is_validation_timeout : ValidationError → Bool
is_validation_timeout e =
    e.is_deadline_exceeded || elim e.grpc_code [ none ↦ false | some c ↦ c == deadline_exceeded ]

unfoldable pub abort_unauthorized : String → Outcome
abort_unauthorized message = aborted 401 "UNAUTHORIZED" message

unfoldable pub abort_unavailable : Outcome
abort_unavailable = aborted 503 "SERVICE_UNAVAILABLE" "Authentication service unavailable"

-- `rejectForbidden` and `abortForbidden` differ in what they log.
unfoldable pub write_forbidden : Outcome
write_forbidden = aborted 403 "FORBIDDEN" "Access denied"

-- The per-level switch; its default refuses.
unfoldable pub check_role : Level → String → Bool
check_role personal role = str_eq role role_user
check_role admin role = str_eq role role_admin
check_role authenticated role = true
check_role level role = false

-- What follows once the token has been sent to the validator.
unfoldable pub after_validation : Level → Context → Validation → Outcome
unfolding set_identity_headers is_validation_timeout abort_unauthorized abort_unavailable
    write_forbidden check_role
after_validation level c (rejected e) =
    if is_validation_timeout e
    then abort_unavailable
    else abort_unauthorized "Invalid or expired token"
after_validation level c (valid result) =
    if check_role level result.role then next (set_identity_headers c result) else write_forbidden

unfoldable pub with_token : TokenValidator → Level → Context → Option String → Outcome
unfolding after_validation abort_unauthorized
with_token validate level c none = abort_unauthorized "Authentication required"
with_token validate level c (some token) =
    if str_eq token ""
    then abort_unauthorized "Authentication required"
    else after_validation level c (validate token)

unfoldable pub dispatch : TokenValidator → Level → Context → Outcome
unfolding with_token write_forbidden
dispatch validate public c = next c
dispatch validate deny c = write_forbidden
dispatch validate level c = with_token validate level c c.cookie

unfoldable pub access_control : TokenValidator → (String → String → Level) → Context → Outcome
unfolding dispatch strip_identity_headers
access_control validate resolve_level c =
    dispatch validate (resolve_level c.method c.path) (strip_identity_headers c)
