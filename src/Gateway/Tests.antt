-- ===== src/Gateway/Tests.antt =====
-- Runs of the gateway's model, and its theorems at concrete inputs.
use gofin.Prelude.{if◌then◌else◌, ◌≡◌, refl, ◌⊎◌, inl, inr, false, some, [], ◌∷◌, str_eq}
use gofin.Gateway.Control.Admission.{access_control-admits, Admitted, IsAnonymous}
use gofin.Gateway.Control.{
  rejected, strip_identity_headers, next, valid, TokenValidationResult, access_control, Context,
  set_identity_headers, TokenValidator,
}
use gofin.Gateway.Control.Spoofing.{access_control-send, send}
use gofin.Access.{public}
use gofin.Access.Resolver.{resolve}

abbrev session : TokenValidationResult
session = record { user_id = "user-1"; role = "user"; assumed_by = "" }

abbrev one_token : TokenValidator
one_token token =
    if str_eq token "token-1"
    then valid session
    else rejected (record { is_deadline_exceeded = false; grpc_code = some 16 })

abbrev forged : Context
forged = record {
  method = "GET";
  path = "/api/expenses";
  headers = ("X-User-ID", "someone-else") ∷ ("Accept", "*/*") ∷ [];
  cookie = some "token-1";
  keys = [];
}

-- The request as the next handler sees it.
abbrev passed : Context
unfolding set_identity_headers strip_identity_headers
passed = set_identity_headers (strip_identity_headers forged) session

forged_run : access_control one_token resolve forged ≡ next passed
unfolding access_control resolve
forged_run = refl

access_control-admits_example :
    ((resolve "GET" "/api/expenses" ≡ public) × IsAnonymous passed.headers)
    ⊎ Admitted one_token (resolve "GET" "/api/expenses") forged passed
access_control-admits_example = access_control-admits one_token resolve forged passed forged_run

access_control-send_example :
    access_control one_token resolve (send "X-User-Role" "admin" forged)
    ≡ access_control one_token resolve forged
access_control-send_example =
    access_control-send one_token resolve "X-User-Role" "admin" forged (inr (inl refl))
