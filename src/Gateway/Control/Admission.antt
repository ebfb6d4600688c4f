-- ===== src/Gateway/Control/Admission.antt =====
-- Which requests pass, and with which identity (services/gateway/internal/access/control.go).
use gofin.Prelude.{
  if◌then◌else◌, Bool-cases, String, ◌≡◌, refl, ap, ◌≢◌, ◌⊎◌, inl, inr, true, Option, none, some,
  arith, eq_iff, str_eq,
}
use gofin.Gateway.Control.{
  rejected, Validation, Outcome, write_forbidden, abort_unavailable, access_control,
  after_validation, dispatch, abort_unauthorized, next, with_token, valid, TokenValidator,
  check_role, set_identity_headers, header_assumed_by, header_user_role, header_user_id, role_admin,
  Context, role_user, TokenValidationResult, strip_identity_headers,
}
use gofin.Access.{deny, admin, authenticated, personal, public, Level}
use gofin.Gateway.Headers.{get_header-set_header, get_header-del_header, get_header, Headers}

-- The role that a level asks of a session.
abbrev pub Admits : Level → String → Type 0
Admits personal role = role ≡ role_user
Admits admin role = role ≡ role_admin
Admits authenticated role = Unit
Admits public role = Unit
Admits deny role = ⊥

-- What downstream services read of the session.
abbrev pub Identifies : TokenValidationResult → Headers → Type 0
Identifies r h =
    (get_header header_user_id h ≡ some r.user_id)
    × (get_header header_user_role h ≡ some r.role)
    × (get_header header_assumed_by h
        ≡ (if str_eq r.assumed_by "" then none else some r.assumed_by))

-- No identity header at all.
abbrev pub IsAnonymous : Headers → Type 0
IsAnonymous h =
    (get_header header_user_id h ≡ none)
    × (get_header header_user_role h ≡ none)
    × (get_header header_assumed_by h ≡ none)

pub strip-IsAnonymous : (c : Context) → IsAnonymous (strip_identity_headers c).headers
unfolding strip_identity_headers
strip-IsAnonymous c =
    (simp get_header-del_header, simp get_header-del_header, simp get_header-del_header)

-- The identity headers that follow a validation are those of the session.
set-Identifies :
    (c : Context) (r : TokenValidationResult)
    → IsAnonymous c.headers
    → Identifies r (set_identity_headers c r).headers
unfolding set_identity_headers
set-Identifies c r (no_id, no_role, no_assumed) = elim (Bool-cases (str_eq r.assumed_by "")) [
  | inl e ↦ (
    rw e (simp get_header-set_header),
    rw e (simp get_header-set_header),
    rw e (simp (get_header-set_header, no_assumed)),
  )
  | inr e ↦ (
    rw e (simp get_header-set_header),
    rw e (simp get_header-set_header),
    rw e (simp get_header-set_header),
  )
]

-- How a session got through.
abbrev pub Admitted : TokenValidator → Level → Context → Context → Type 0
Admitted validate level c c' =
    (token : String) × (r : TokenValidationResult) × (c.cookie ≡ some token)
    × (token ≢ "")
    × (validate token ≡ valid r)
    × Admits level r.role
    × Identifies r c'.headers

Admits-of_check_role :
    (level : Level) (role : String) → check_role level role ≡ true → Admits level role
unfolding check_role
Admits-of_check_role public role h = tt
Admits-of_check_role authenticated role h = tt
Admits-of_check_role personal role h = (eq_iff role role_user).0 h
Admits-of_check_role admin role h = (eq_iff role role_admin).0 h
Admits-of_check_role deny role h = cc

after_validation-eq-next :
    (level : Level) (c c' : Context) (v : Validation)
    → after_validation level c v ≡ next c'
    → (r : TokenValidationResult) × (v ≡ valid r)
      × (check_role level r.role ≡ true)
      × (c' ≡ set_identity_headers c r)
unfolding after_validation abort_unavailable abort_unauthorized write_forbidden
after_validation-eq-next level c c' (rejected e) h = ground arith
after_validation-eq-next level c c' (valid r) h = (r, refl, ground arith, ground arith)

with_token-Admitted :
    (validate : TokenValidator) (level : Level) (c c' : Context) (cookie : Option String)
    → IsAnonymous c.headers
    → with_token validate level c cookie ≡ next c'
    → (token : String) × (r : TokenValidationResult) × (cookie ≡ some token)
      × (token ≢ "")
      × (validate token ≡ valid r)
      × Admits level r.role
      × Identifies r c'.headers
unfolding with_token abort_unauthorized
with_token-Admitted validate level c c' none anon e = cc
with_token-Admitted validate level c c' (some token) anon e = elim (Bool-cases (str_eq token "")) [
  | inl empty ↦ absurd (blank empty e)
  | inr full ↦
      let (r, ev, ok, same) = after_validation-eq-next level c c' (validate token) (rw full at e) in
      (
        token,
        r,
        refl,
        λ h. cc ((eq_iff token "").1 h),
        ev,
        Admits-of_check_role level r.role ok,
        rw same (set-Identifies c r anon),
      )
]
  where
    blank : str_eq token "" ≡ true → with_token validate level c (some token) ≡ next c' → ⊥
    blank empty h = ground arith

dispatch-admits :
    (validate : TokenValidator) (level : Level) (c c' : Context)
    → IsAnonymous c.headers
    → dispatch validate level c ≡ next c'
    → ((level ≡ public) × IsAnonymous c'.headers) ⊎ Admitted validate level c c'
unfolding dispatch write_forbidden
dispatch-admits validate public c c' anon e = inl (refl, rw ((ap unwrap e)) at anon)
  where
    unwrap : Outcome → Context
    unwrap (next x) = x
    unwrap o = c
dispatch-admits validate deny c c' anon e = cc
dispatch-admits validate level c c' anon e =
    inr (with_token-Admitted validate level c c' c.cookie anon e)

-- A request that reaches the next handler either asked for a Public route, and carries no identity
-- header at all, or came with a non-empty access cookie that the auth service accepted for a role
-- that the route's level admits, and carries exactly that session's identity.
pub access_control-admits :
    (validate : TokenValidator) (resolve_level : String → String → Level) (c c' : Context)
    → access_control validate resolve_level c ≡ next c'
    → ((resolve_level c.method c.path ≡ public) × IsAnonymous c'.headers)
      ⊎ Admitted validate (resolve_level c.method c.path) c c'
unfolding access_control
access_control-admits validate resolve_level c c' e =
    dispatch-admits validate (resolve_level c.method c.path) (strip_identity_headers c) c'
      (strip-IsAnonymous c) e
