-- ===== src/Gateway/Control/Spoofing.antt =====
-- A client cannot influence the identity that downstream services see
-- (services/gateway/internal/access/control.go).
use gofin.Prelude.{String, ◌≡◌, ap, ◌∙◌, ◌⊎◌, inl, inr, ◌∷◌}
use gofin.Gateway.Headers.{del_header_comm, del_header-cons, del_header, Headers}
use gofin.Gateway.Control.{
  dispatch, TokenValidator, header_assumed_by, header_user_role, strip_identity_headers, Context,
  access_control, header_user_id,
}
use gofin.Access.{Level}

-- The request with a header that the client adds.
abbrev pub send : String → String → Context → Context
send k v c = record c { headers = (k, v) ∷ c.headers }

abbrev pub IsIdentityHeader : String → Type 0
IsIdentityHeader k = (k ≡ header_user_id) ⊎ ((k ≡ header_user_role) ⊎ (k ≡ header_assumed_by))

abbrev strip : Headers → Headers
strip h = del_header header_assumed_by (del_header header_user_role (del_header header_user_id h))

-- A header that is struck last may as well be struck first.
del_header-cons_under :
    (k j v : String) (h : Headers)
    → del_header k (del_header j ((k, v) ∷ h)) ≡ del_header k (del_header j h)
del_header-cons_under k j v h =
    del_header_comm k j ((k, v) ∷ h)
    ∙ ap (del_header j) (del_header-cons k v h)
    ∙ del_header_comm j k h

strip-send : (k v : String) (h : Headers) → IsIdentityHeader k → strip ((k, v) ∷ h) ≡ strip h
strip-send k v h (inl e) = rw (e, del_header-cons header_user_id v h)
strip-send k v h (inr (inl e)) =
    rw e (
      ap (del_header header_assumed_by) (del_header-cons_under header_user_role header_user_id v h))
strip-send k v h (inr (inr e)) = rw e (
    del_header_comm header_assumed_by header_user_role
      (del_header header_user_id ((header_assumed_by, v) ∷ h))
    ∙ ap (del_header header_user_role) (del_header-cons_under header_assumed_by header_user_id v h)
    ∙ del_header_comm header_user_role header_assumed_by (del_header header_user_id h))

-- An identity header that a client sends, whatever its name among the three and its value, changes
-- nothing: the request ends as it would without it.
pub access_control-send :
    (validate : TokenValidator) (resolve_level : String → String → Level) (k v : String)
    (c : Context)
    → IsIdentityHeader k
    → access_control validate resolve_level (send k v c) ≡ access_control validate resolve_level c
unfolding access_control strip_identity_headers
access_control-send validate resolve_level k v c h =
    ap (λ hs. dispatch validate (resolve_level c.method c.path) (record c { headers = hs }))
      (strip-send k v c.headers h)
