-- ===== src/Auth/Calls/Identity.antt =====
-- Assuming an identity and restoring it (`AssumeIdentity`, `ValidateToken` and `RestoreIdentity` of
-- services/auth/internal/service/auth.go).
use gofin.Prelude.{
  String, ◌≡◌, refl, sym, ap, subst, ◌∙◌, false, not, Option, none, some, List, arith, eq_iff,
  str_eq,
}
use gofin.Exec.{Exec, continue, pure, gets, lift, bind-ok, ◌>>=◌}
use gofin.Auth.Tokens.{
  token_pair, generate_token_pair, refresh_claims, access_claims,
  generate_token_pair_with_assumed_by,
}
use gofin.Auth.Service.{result_of, validate_token, restore_identity, assume_identity}
use gofin.Auth.Calls.Revocation.{validate_token-ok}
use gofin.Auth.Model.{
  role_admin, Claims, ValidateTokenResult, UserRow, User, Store, TokenPair, Environment,
}
use gofin.Auth.Calls.Steps.{require-ok, ok-injective, require_not-ok}
use gofin.Auth.Repository.{statement, user_of, has_id, find_row, get_user_by_id}
use gofin.Auth.Calls.Rows.{find_row-hit}
use gofin.Api.{Result, ok, err}

token_pair-ok :
    (a b : Result String) {pair : TokenPair} → token_pair a b ≡ ok pair → a ≡ ok pair.access_token
unfolding token_pair
token_pair-ok (ok x) (ok y) h = cc
token_pair-ok (ok x) (err e) h = cc
token_pair-ok (err e) b h = cc

generate-ok :
    (env : Environment) (id role username by : String) {pair : TokenPair}
    → generate_token_pair_with_assumed_by env id role username by ≡ ok pair
    → env.sign (access_claims env id role username by) ≡ ok pair.access_token
unfolding generate_token_pair_with_assumed_by token_pair
generate-ok env id role username by h =
    token_pair-ok (env.sign (access_claims env id role username by))
      (env.sign (refresh_claims env id)) h

-- The end of both operations: a pair for a user, with the admin who assumes the identity.
abbrev issued : User → Result TokenPair → Exec Store (User × TokenPair)
issued v r = lift r >>= λ tokens. pure (v, tokens)

issued-ok :
    (env : Environment) (v : User) (by : String) (s : Store) {u : User} {pair : TokenPair}
    → (issued v (generate_token_pair_with_assumed_by env v.id v.role v.username by) s).1
      ≡ ok (u, pair)
    → (v ≡ u) × (env.sign (access_claims env u.id u.role u.username by) ≡ ok pair.access_token)
unfolding lift pure ◌>>=◌
issued-ok env v by s {u} {pair} h =
    go (generate_token_pair_with_assumed_by env v.id v.role v.username by) refl h
  where
    after : Result TokenPair → Store × Result (User × TokenPair)
    after r = continue s r (λ tokens. pure (v, tokens))

    go :
        (r : Result TokenPair)
        → generate_token_pair_with_assumed_by env v.id v.role v.username by ≡ r
        → (after r).1 ≡ ok (u, pair)
        → (v ≡ u) × (env.sign (access_claims env u.id u.role u.username by) ≡ ok pair.access_token)
    go (err e) g h' = cc
    go (ok tokens) g h' =
        let user : v ≡ u = cc in
        let same : tokens ≡ pair = cc in
        (
          user,
          subst
              (λ (w : User).
                env.sign (access_claims env w.id w.role w.username by) ≡ ok pair.access_token)
              (user) (generate-ok env v.id v.role v.username by (g ∙ ap ok same)),
        )

get_user_by_id-ok :
    (env : Environment) (id : String) (s : Store) {u : User}
    → (get_user_by_id env id s).1 ≡ ok (some u)
    → env.parse_uuid id ≡ ok u.id
unfolding get_user_by_id lift gets
get_user_by_id-ok env id s {u} h =
    let (v, p, q) = bind-ok (lift (env.parse_uuid id)) _ s h in
    let (_, _, q1) = bind-ok (statement env "GetUserByID") _ s (rw q at h) in
    let t = (statement env "GetUserByID" s).0 in
    let e : user_of (find_row (has_id v) t.users) ≡ some u = ok-injective (rw (q ∙ q1) at h) in
    p ∙ ap ok (found v (find_row (has_id v) t.users) t.users refl e)
  where
    found :
        (v : String) (o : Option UserRow) (rs : List UserRow)
        → find_row (has_id v) rs ≡ o
        → user_of o ≡ some u
        → v ≡ u.id
    found v none rs f e = cc
    found v (some r) rs f e =
        let hit = find_row-hit (has_id v) rs r f in
        let same : r.user ≡ u = cc in
        sym ((eq_iff r.user.id v).0 hit) ∙ ap (λ (w : User). w.id) (same)

assume_identity-ok :
    (env : Environment) (admin target : String) (s : Store) {u : User} {pair : TokenPair}
    → (assume_identity env admin target s).1 ≡ ok (u, pair)
    → (str_eq admin target ≡ false)
      × (env.parse_uuid target ≡ ok u.id)
      × (env.sign (access_claims env u.id u.role u.username admin) ≡ ok pair.access_token)
unfolding assume_identity lift pure
assume_identity-ok env admin target s {u} {pair} h =
    let (ne, q) = require_not-ok _ (str_eq admin target) _ s h in
    let (found, p1, q1) = bind-ok (get_user_by_id env target) _ s (rw q at h) in
    let t = (get_user_by_id env target s).0 in
    let (v, p2, q2) = require-ok _ found _ t (rw (q ∙ q1) at h) in
    let (user, signed) = issued-ok env v admin t (rw (q ∙ q1 ∙ q2) at h) in
    (ne, get_user_by_id-ok env target s (p1 ∙ ap ok (p2 ∙ ap some user)), signed)

restore_identity-ok :
    (env : Environment) (by : String) (s : Store) {u : User} {pair : TokenPair}
    → (restore_identity env by s).1 ≡ ok (u, pair)
    → (env.parse_uuid by ≡ ok u.id)
      × (u.role ≡ role_admin)
      × (env.sign (access_claims env u.id u.role u.username "") ≡ ok pair.access_token)
unfolding restore_identity lift pure generate_token_pair
restore_identity-ok env by s {u} {pair} h =
    let (ne, q) = require_not-ok _ (str_eq by "") _ s h in
    let (found, p1, q1) = bind-ok (get_user_by_id env by) _ s (rw q at h) in
    let t = (get_user_by_id env by s).0 in
    let (v, p2, q2) = require-ok _ found _ t (rw (q ∙ q1) at h) in
    let (is_admin, q3) =
      require_not-ok _ (not (str_eq v.role role_admin)) _ t (rw (q ∙ q1 ∙ q2) at h) in
    let (user, signed) = issued-ok env v "" t (rw (q ∙ q1 ∙ q2 ∙ q3) at h) in
    let role : v.role ≡ role_admin = (eq_iff v.role role_admin).0 (ground arith) in
    (
      get_user_by_id-ok env by s (p1 ∙ ap ok (p2 ∙ ap some user)),
      subst (λ (w : User). w.role ≡ role_admin) (user) role,
      signed,
    )

-- What the JWT library gives back of a token that it has signed, where it accepts it at all.
abbrev pub ReadsBack : Environment → Environment → Type 0
ReadsBack env env' =
    (c d : Claims) (token : String)
    → env.sign c ≡ ok token
    → env'.parse env'.now token ≡ ok d
    → d ≡ c

-- An admin assumes an identity, the gateway asks for the new token's validation, the admin restores
-- the identity that the validation names, and the token of that is validated: where each succeeds,
-- the first token acts for the target, in the target's role, and names the admin; the restored pair
-- is that of the same admin, still an admin, and its token names nobody. Other calls may come between.
pub restore-assume :
    (env1 env2 env3 env4 : Environment) (s1 s2 s3 s4 : Store) (admin target : String) (u a : User)
    (pair pair' : TokenPair) (v v' : ValidateTokenResult)
    → ReadsBack env1 env2
    → ReadsBack env3 env4
    → (assume_identity env1 admin target s1).1 ≡ ok (u, pair)
    → (validate_token env2 pair.access_token s2).1 ≡ ok v
    → (restore_identity env3 v.assumed_by s3).1 ≡ ok (a, pair')
    → (validate_token env4 pair'.access_token s4).1 ≡ ok v'
    → (env1.parse_uuid target ≡ ok v.user_id)
      × (v.role ≡ u.role)
      × (v.assumed_by ≡ admin)
      × (env3.parse_uuid admin ≡ ok v'.user_id)
      × (v'.role ≡ role_admin)
      × (v'.assumed_by ≡ "")
restore-assume env1 env2 env3 env4 s1 s2 s3 s4 admin target u a pair pair' v v' back back' h1 h2 h3
      h4 =
    let (_, pu, sign1) = assume_identity-ok env1 admin target s1 h1 in
    let (c, _, parsed, _, _, e) = validate_token-ok env2 pair.access_token s2 h2 in
    let first : result_of (access_claims env1 u.id u.role u.username admin) ≡ v =
      ap result_of (sym (back _ c pair.access_token sign1 parsed)) ∙ e in
    let (pa, role, sign2) = restore_identity-ok env3 v.assumed_by s3 h3 in
    let (c', _, parsed', _, _, e') = validate_token-ok env4 pair'.access_token s4 h4 in
    let second : result_of (access_claims env3 a.id a.role a.username "") ≡ v' =
      ap result_of (sym (back' _ c' pair'.access_token sign2 parsed')) ∙ e' in
    let by : v.assumed_by ≡ admin = ap (λ (w : ValidateTokenResult). w.assumed_by) (sym first) in
    (
      pu ∙ ap (λ (w : ValidateTokenResult). ok w.user_id) first,
      ap (λ (w : ValidateTokenResult). w.role) (sym first),
      by,
      ap env3.parse_uuid (sym by) ∙ pa ∙ ap (λ (w : ValidateTokenResult). ok w.user_id) second,
      ap (λ (w : ValidateTokenResult). w.role) (sym second) ∙ role,
      ap (λ (w : ValidateTokenResult). w.assumed_by) (sym second),
    )
