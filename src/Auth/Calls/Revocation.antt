-- ===== src/Auth/Calls/Revocation.antt =====
-- A password change ends the access tokens issued before it (`ChangePassword` and `ValidateToken` of
-- services/auth/internal/service/auth.go).
use gofin.Prelude.{
  leb, if◌then◌else◌, leb→le, le→leb, Bool-cases, any, All, ℕ, ◌≤◌, ◌<◌, String, ◌≡◌, refl, sym, ap,
  subst, ◌∙◌, ◌≢◌, ◌⊎◌, inl, inr, Bool, true, false, Option, none, some, List, [], ◌∷◌, arith,
  eq_iff, str_eq,
}
use gofin.Auth.Service.{
  result_of, token_revoked, unable_to_validate, log_in_again, validate_token, change_password,
  is_revoked,
}
use gofin.Exec.{pure, or_error, gets, attempt, bind-ok, lift}
use gofin.Auth.Calls.Steps.{or_error-ok, require_not-ok, ok-injective}
use gofin.Api.{Result, ok}
use gofin.Auth.Calls.Rows.{find_row-All, new_row, AllRows, Anyone, rows-WritesKeep}
use gofin.Auth.Calls.Keeps.{serve_all-Keeps, WritesKeep, AllKeep}
use gofin.Auth.Repository.{
  revoked_at, get_tokens_revoked_at, statement, find_row, set_user, has_id, revoked, set_rows,
  update_row, revoke_all_user_tokens,
}
use gofin.Auth.Tokens.{validate_access_token}
use gofin.Auth.Calls.{serve_all, ChangePasswordRequest, change_password, Environment, Store, Call}
use gofin.Auth.Model.{
  TokenPair, to_seconds, ChangePasswordRequest, ValidateTokenResult, Claims, role_user, User,
  UserRow,
}
use gofin.Exec.Keeps.{keeps_rules, Gives-then, Gives-bind, Gives}
use gofin.Auth.Calls.Privilege.{OthersKeep, Anyone-IsSparing}

abbrev pub revoked_since : ℕ → Option ℕ → Bool
revoked_since time none = false
revoked_since time (some t) = leb time t

-- The tokens of the user are revoked, at the time or later.
abbrev pub IsRevokedFor : String → ℕ → UserRow → Type 0
IsRevokedFor u time r =
    (str_eq r.user.id u ≡ false) ⊎ (revoked_since time r.tokens_revoked_at ≡ true)

abbrev pub RevokedIn : String → ℕ → Store → Type 0
RevokedIn u time = AllRows (IsRevokedFor u time)

-- The call is not before the time by the database's clock, and no new user gets the user's id.
abbrev pub IsAfter : String → ℕ → Environment → Type 0
IsAfter u time env = OthersKeep (RevokedIn u time) env × (time ≤ env.db_now) × (env.new_id ≢ u)

module _ (u : String) (time : ℕ) where
  revocation-WritesKeep :
      (env : Environment) → IsAfter u time env → WritesKeep (RevokedIn u time) Anyone env
  revocation-WritesKeep env (others, later, new) =
      rows-WritesKeep (IsRevokedFor u time) env others fresh rewrites
        (λ r q. inr (le→leb _ _ later))
    where
      fresh : (x : User) → x.id ≡ env.new_id → x.role ≡ role_user → IsRevokedFor u time (new_row x)
      fresh x hi hr = inl (ground (arith, eq_iff x.id u))

      rewrites :
          (r r0 : UserRow) (x : User)
          → r0.user.id ≡ r.user.id
          → x.id ≡ r0.user.id
          → x.role ≡ r0.user.role
          → IsRevokedFor u time r
          → IsRevokedFor u time r0
          → IsRevokedFor u time (set_user x r)
      rewrites r r0 x e hi hr (inl h) q0 = inl (rw (hi ∙ e) h)
      rewrites r r0 x e hi hr (inr h) q0 = inr h

  revocation-AllKeep :
      (calls : List (Environment × Call))
      → All (λ c. IsAfter u time c.0) calls
      → AllKeep (RevokedIn u time) Anyone calls
  revocation-AllKeep [] k = tt
  revocation-AllKeep ((env, c) ∷ calls) (k, ks) =
      ((revocation-WritesKeep env k, Anyone-IsSparing env c), revocation-AllKeep calls ks)

  update_row-revoked :
      (env : Environment) (rs : List UserRow)
      → time ≤ env.db_now
      → All (IsRevokedFor u time) (update_row u (revoked env) rs)
  unfolding update_row
  update_row-revoked env [] le = tt
  update_row-revoked env (r ∷ rs) le = (head (has_id u r) refl, update_row-revoked env rs le)
    where
      head : (b : Bool) → has_id u r ≡ b → IsRevokedFor u time (if b then revoked env r else r)
      head true e = inr (le→leb _ _ le)
      head false e = inl e

  revoke_all_user_tokens-Gives :
      (env : Environment) (id : String)
      → env.parse_uuid id ≡ ok u
      → time ≤ env.db_now
      → Gives (RevokedIn u time) (revoke_all_user_tokens env id)
  unfolding revoke_all_user_tokens set_rows lift
  revoke_all_user_tokens-Gives env id p le = record { after = go }
    where
      go :
          (s : Store) (a : Unit {0})
          → (revoke_all_user_tokens env id s).1 ≡ ok a
          → RevokedIn u time (revoke_all_user_tokens env id s).0
      go s a h =
          let (uid, q, e) = bind-ok (lift (env.parse_uuid id)) _ s h in
          let (_, _, e1) = bind-ok (statement env "RevokeAllUserTokens") _ s (rw e at h) in
          let same : u ≡ uid = let both : ok u ≡ ok uid = sym p ∙ q in cc in
          let t = (statement env "RevokeAllUserTokens" s).0 in
          rw (e ∙ e1) (
            subst (λ (v : String). All (IsRevokedFor u time) (update_row v (revoked env) t.users))
              (same) (update_row-revoked env t.users le))

  change_password-Gives :
      (env : Environment) (id : String) (req : ChangePasswordRequest)
      → env.parse_uuid id ≡ ok u
      → time ≤ env.db_now
      → Gives (RevokedIn u time) (change_password env id req)
  unfolding change_password
  change_password-Gives env id req p le = Gives-bind _ _ (λ found. Gives-bind _ _ (λ user.
      Gives-bind _ _ (λ a. Gives-bind _ _ (λ b. Gives-bind _ _ (λ hash. Gives-bind _ _ (λ c.
        Gives-then _ _ (revoke_all_user_tokens-Gives env id p le) (λ d. search keeps_rules)))))))

-- An access token of the user's that was issued before the time, to the second.
abbrev pub IsOlder : Environment → String → String → ℕ → Claims → Type 0
IsOlder env token u time c =
    (env.parse_uuid c.subject ≡ ok u) × (i : ℕ) × (c.issued_at ≡ some i) × (i < to_seconds time)

find_row-found :
    (p : UserRow → Bool) (rs : List UserRow)
    → any p rs ≡ true
    → (r : UserRow) × (find_row p rs ≡ some r)
unfolding find_row
find_row-found p [] h = cc
find_row-found p (r ∷ rs) h = elim (Bool-cases (p r)) [
  | inl e ↦ (r, rw e refl)
  | inr e ↦ let (x, q) = find_row-found p rs (rw e at h) in (x, rw e q)
]

is_revoked-since :
    (o : Option ℕ) (time i : ℕ)
    → revoked_since time o ≡ true
    → i < to_seconds time
    → is_revoked o (some i) ≡ true
unfolding is_revoked
is_revoked-since none time i h lt = cc
is_revoked-since (some t) time i h lt = ground (arith, leb→le time t h)

pub validate_token-ok :
    (env : Environment) (token : String) (s : Store) {x : ValidateTokenResult}
    → (validate_token env token s).1 ≡ ok x
    → (c : Claims) × (r : Option ℕ) × (env.parse env.now token ≡ ok c)
      × ((get_tokens_revoked_at env c.subject s).1 ≡ ok r)
      × (is_revoked r c.issued_at ≡ false)
      × (result_of c ≡ x)
unfolding validate_token pure lift attempt validate_access_token
validate_token-ok env token s h =
    let (c, p, q) =
      bind-ok (lift (or_error log_in_again (validate_access_token env token))) _ s h in
    let (answer, p1, q1) =
      bind-ok (attempt (get_tokens_revoked_at env c.subject)) _ s (rw q at h) in
    let t = (get_tokens_revoked_at env c.subject s).0 in
    let (r, p2, q2) = bind-ok (lift (or_error unable_to_validate answer)) _ t (rw (q ∙ q1) at h) in
    let (b, q3) =
      require_not-ok token_revoked (is_revoked r c.issued_at) _ t (rw (q ∙ q1 ∙ q2) at h) in
    (
      c,
      r,
      or_error-ok log_in_again (env.parse env.now token) p,
      ok-injective p1 ∙ or_error-ok unable_to_validate answer p2,
      b,
      ok-injective (rw (q ∙ q1 ∙ q2 ∙ q3) at h),
    )

get_tokens_revoked_at-ok :
    (env : Environment) (id : String) (s : Store) {r : Option ℕ}
    → (get_tokens_revoked_at env id s).1 ≡ ok r
    → (u : String) × (env.parse_uuid id ≡ ok u)
      × (revoked_at (find_row (has_id u) (env.others "GetTokensRevokedAt" s).users) ≡ r)
unfolding get_tokens_revoked_at lift gets statement
get_tokens_revoked_at-ok env id s h =
    let (u, p, q) = bind-ok (lift (env.parse_uuid id)) _ s h in
    let (_, _, q1) = bind-ok (statement env "GetTokensRevokedAt") _ s (rw q at h) in
    (u, p, ok-injective (ap (λ (z : Store × Result (Option ℕ)). z.1) (sym (q ∙ q1)) ∙ h))

revocation_read :
    (u : String) (time i : ℕ) (r : UserRow) (o : Option ℕ) (c : Claims)
    → c.issued_at ≡ some i
    → i < to_seconds time
    → IsRevokedFor u time r
    → has_id u r ≡ true
    → r.tokens_revoked_at ≡ o
    → is_revoked o c.issued_at ≢ false
revocation_read u time i r o c pi lt (inl other') hr e open' = cc
revocation_read u time i r o c pi lt (inr since) hr e open' =
    let p = is_revoked-since o time i (rw e at since) lt in
    let q : is_revoked o (some i) ≡ false = rw pi at open' in cc

-- Once a password change has succeeded, an access token of the user's that was issued before it, to
-- the second, is never accepted again: not after any series of calls with any concurrent requests
-- among them that leave the revocation, as long as the user's row is there. What is assumed is that
-- the database's clock does not go back and that no new user gets the user's id.
pub change_password-revokes :
    (env env' : Environment) (calls : List (Environment × Call)) (id token : String)
    (req : ChangePasswordRequest) (s : Store) (x : User × TokenPair) (c : Claims) (i : ℕ)
    (u : String)
    → env.parse_uuid id ≡ ok u
    → (change_password env id req s).1 ≡ ok x
    → All (λ k. IsAfter u env.db_now k.0) calls
    → OthersKeep (RevokedIn u env.db_now) env'
    → ((d : Claims) → env'.parse env'.now token ≡ ok d → d ≡ c)
    → env'.parse_uuid c.subject ≡ ok u
    → c.issued_at ≡ some i
    → i < to_seconds env.db_now
    → any
        (has_id u)
        (env'.others "GetTokensRevokedAt" (serve_all calls (change_password env id req s).0)).users
      ≡ true
    → ¬ (
        (y : ValidateTokenResult) × ((validate_token env' token
            (serve_all calls (change_password env id req s).0)).1
          ≡ ok y))
change_password-revokes env env' calls id token req s x c i u pu h during others' law pu' pi lt
      found (y, h') =
    let time = env.db_now in
    let t = serve_all calls (change_password env id req s).0 in
    let before : RevokedIn u time (change_password env id req s).0 =
      (change_password-Gives u time env id req pu (omega arith)).after s x h in
    let after : RevokedIn u time t =
      serve_all-Keeps (RevokedIn u time) Anyone calls (change_password env id req s).0
        (revocation-AllKeep u time calls during) before in
    let rows = (env'.others "GetTokensRevokedAt" t).users in
    let kept : All (IsRevokedFor u time) rows = others' "GetTokensRevokedAt" t after in
    let (r, fr) = find_row-found (has_id u) rows found in
    let (qr, hr) = find_row-All (IsRevokedFor u time) (has_id u) rows r kept fr in
    let (c', o, p, got, open', _) = validate_token-ok env' token t h' in
    let same = law c' p in
    let (v, pv, e) = get_tokens_revoked_at-ok env' c'.subject t got in
    let user : v ≡ u =
      ok-injective
        (sym pv ∙ subst (λ (k : Claims). env'.parse_uuid k.subject ≡ ok u) (sym same) pu') in
    let read : r.tokens_revoked_at ≡ o =
      rw fr at (subst (λ (w : String). revoked_at (find_row (has_id w) rows) ≡ o) (user) e) in
    revocation_read u time i r o c' (subst (λ (k : Claims). k.issued_at ≡ some i) (sym same) pi) lt
      qr hr read open'
