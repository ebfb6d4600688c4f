-- ===== src/Auth/Calls/Login.antt =====
-- `Login` of services/auth/internal/service/auth.go.
use gofin.Prelude.{◌≡◌, refl, ◌⊎◌, inl, inr, Bool, true, false, not, Option, none, some}
use gofin.Auth.Service.{lower_email, bad_login, require_not, require, login}
use gofin.Auth.Repository.{user_of, has_email, find_row, statement, get_user_by_email}
use gofin.Auth.Model.{User, TokenPair, Store, LoginRequest, UserRow, Environment}
use gofin.Auth.Tokens.{generate_token_pair}
use gofin.Api.{Error, Result, ok, err}
use gofin.Exec.{lift, pure, raise, gets, ◌>>=◌, ◌>>◌, continue}

abbrev pub row_for : Environment → LoginRequest → Store → Option UserRow
row_for env req s =
    find_row (has_email (lower_email env req.email)) (env.others "GetUserByEmail" s).users

abbrev pub Admitted : Environment → LoginRequest → Store → UserRow → Type 0
Admitted env req s r =
    (row_for env req s ≡ some r) × (env.check_password req.password r.user.password_hash ≡ true)

abbrev pub tokens_for : Environment → UserRow → Result TokenPair
tokens_for env r = generate_token_pair env r.user.id r.user.role r.user.username

abbrev pub LoginAnswer : Environment → LoginRequest → Store → Result (User × TokenPair) → Type 0
LoginAnswer env req s (ok (u, tokens)) =
    (r : UserRow) × Admitted env req s r × (u ≡ r.user) × (tokens_for env r ≡ ok tokens)
LoginAnswer env req s (err e) =
    (e ≡ bad_login)
    ⊎ ((env.statement "GetUserByEmail" ≡ some e)
        ⊎ ((r : UserRow) × Admitted env req s r × (tokens_for env r ≡ err e)))

-- A login answers a user and tokens only to the password of the row with the email, in lower case
-- and trimmed, and the tokens are that user's. Every refusal is one and the same error, whether the
-- email is unknown or the password is wrong; any other error is the failed lookup's, or the signing
-- of tokens' after the password was right.
pub login_lem :
    (env : Environment) (req : LoginRequest) (s : Store) → LoginAnswer env req s (login env req s).1
unfolding login get_user_by_email statement require require_not pure raise lift gets ◌>>=◌
login_lem env req s = looked (env.statement "GetUserByEmail") refl
  where
    t : Store
    t = env.others "GetUserByEmail" s

    answered : (r : UserRow) → Result TokenPair → Result (User × TokenPair)
    answered r q = (continue t q (λ tokens. pure (r.user, tokens))).1

    signed :
        (r : UserRow)
        → Admitted env req s r
        → (q : Result TokenPair) → tokens_for env r ≡ q
        → LoginAnswer env req s (answered r q)
    signed r a (ok tokens) e = (r, a, refl, e)
    signed r a (err x) e = inr (inr (r, a, e))

    checked :
        (r : UserRow)
        → row_for env req s ≡ some r
        → (b : Bool) → env.check_password req.password r.user.password_hash ≡ b
        → LoginAnswer env req s
            ((require_not bad_login (not b)
                >> (lift (tokens_for env r) >>= λ tokens. pure (r.user, tokens)))
              t).1
    checked r f true e = signed r (f, e) (tokens_for env r) refl
    checked r f false e = inl refl

    found :
        (o : Option UserRow)
        → row_for env req s ≡ o
        → LoginAnswer env req s
            ((require bad_login (user_of o) >>= λ user.
                require_not bad_login (not (env.check_password req.password user.password_hash))
                >> (lift (generate_token_pair env user.id user.role user.username) >>= λ tokens.
                    pure (user, tokens)))
              t).1
    found none f = inl refl
    found (some r) f = checked r f (env.check_password req.password r.user.password_hash) refl

    lookup : Option Error → Store × Result (Option User)
    lookup q =
        continue t (elim q [ none ↦ ok tt | some e ↦ err e ])
          (λ a.
            gets
              (λ (v : Store). user_of (find_row (has_email (lower_email env req.email)) v.users)))

    looked :
        (q : Option Error)
        → env.statement "GetUserByEmail" ≡ q
        → LoginAnswer env req s
            (continue (lookup q).0 (lookup q).1 (λ o. require bad_login o >>= λ user.
              require_not bad_login (not (env.check_password req.password user.password_hash))
              >> (lift (generate_token_pair env user.id user.role user.username) >>= λ tokens.
                  pure (user, tokens)))).1
    looked none e = found (row_for env req s) refl
    looked (some x) e = inr (inl e)
