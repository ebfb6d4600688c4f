-- ===== src/Auth/Calls/Once.antt =====
-- A refresh token is spent once (`RefreshToken` of services/auth/internal/service/auth.go).
use gofin.Prelude.{
  if◌then◌else◌, any, any-last, any-weaken, All, ℕ, ◌≤◌, ◌<◌, String, ◌≡◌, refl, sym, ap, subst,
  ◌∙◌, ◌≢◌, inl, inr, Bool, true, false, not, Option, none, some, List, [], ◌∷◌, ◌++◌, arith,
  eq_refl,
}
use gofin.Auth.Calls.Steps.{or_error-ok, ok-injective, require_not-ok}
use gofin.Auth.Calls.Keeps.{issue-Keeps, serve_all-Keeps, AllKeep, IsSparing}
use gofin.Auth.Calls.Spent.{IsSpent-WritesKeep, Spares, IsSpent, is_entry}
use gofin.Auth.Calls.{serve_all, Call}
use gofin.Auth.Service.{issue, consume_claims, spent_token, bad_token, expiry, refresh_token}
use gofin.Exec.{or_error, lift, bind-ok}
use gofin.Api.{other, Result, ok, err}
use gofin.Auth.Tokens.{validate_refresh_token}
use gofin.Auth.Model.{of_seconds, Revoked, Claims, Store, TokenPair, Environment, User}
use gofin.Auth.Repository.{has_id, foreign_key, has_jti, statement, insert_revoked, consume_token}

insert_revoked-new :
    (env : Environment) (b : Revoked) (s : Store) (clock : ℕ)
    → (insert_revoked env b s).1 ≡ ok true
    → IsSpent b.jti b.user_id b.expires_at clock (insert_revoked env b s).0
unfolding insert_revoked
insert_revoked-new env b s clock h =
    go (any (has_jti b.jti) s.blacklist) (any (has_id b.user_id) s.users) h
  where
    next : (c d : Bool) → Store × Result Bool
    next c d =
        if c
        then (s, ok false)
        else if d
        then (record s { blacklist = s.blacklist ++ (b ∷ []) }, ok true)
        else (s, err foreign_key)

    go :
        (c d : Bool)
        → (next c d).1 ≡ ok true
        → IsSpent b.jti b.user_id b.expires_at clock (next c d).0
    go true d h' = cc
    go false true h' = inl (
        any-last (is_entry b.jti b.user_id b.expires_at) s.blacklist b
          (rw (eq_refl b.jti, eq_refl b.user_id) (ground arith)))
    go false false h' = cc

insert_revoked-old :
    (env : Environment) (b : Revoked) (s : Store) (u : String) (e : ℕ)
    → any (is_entry b.jti u e) s.blacklist ≡ true
    → (insert_revoked env b s).1 ≡ ok false
unfolding insert_revoked
insert_revoked-old env b s u e h =
    rw (any-weaken (is_entry b.jti u e) (has_jti b.jti) s.blacklist (λ x hx. ground arith) h) refl

-- A consumption that succeeded: the user's id is a UUID, and the row is written after what others did.
consume_token-ok :
    (env : Environment) (jti id : String) (t : ℕ) (s : Store) (b : Bool)
    → (consume_token env jti id t s).1 ≡ ok b
    → (uid : String) × (env.parse_uuid id ≡ ok uid)
      × (consume_token env jti id t s
          ≡ insert_revoked env
              (record { jti = jti; user_id = uid; expires_at = t })
              (env.others "ConsumeToken" s))
unfolding consume_token statement lift
consume_token-ok env jti id t s b h =
    let (uid, p, q) = bind-ok (lift (env.parse_uuid id)) _ s h in
    let (_, _, r) = bind-ok (statement env "ConsumeToken") _ s (rw q at h) in (uid, p, q ∙ r)

expiry-ok :
    (c : Claims) {t : ℕ}
    → expiry c ≡ ok t
    → (exp : ℕ) × (c.expires_at ≡ some exp) × (of_seconds exp ≡ t)
unfolding expiry
expiry-ok c {t} h = go c.expires_at h
  where
    go :
        (o : Option ℕ)
        → (let r : Result ℕ = elim o [
          | none ↦ err (other "nil pointer dereference")
          | some e ↦ ok (of_seconds e)
        ] in
            r)
          ≡ ok t
        → (exp : ℕ) × (o ≡ some exp) × (of_seconds exp ≡ t)
    go none h' = cc
    go (some e) h' = (e, refl, cc)

-- The steps of a refresh that succeeded.
refresh_token-ok :
    (env : Environment) (token : String) (s : Store) {x : User × TokenPair}
    → (refresh_token env token s).1 ≡ ok x
    → (c : Claims) × (env.parse env.now token ≡ ok c)
      × ((consume_claims env c s).1 ≡ ok true)
      × (refresh_token env token s ≡ issue env c (consume_claims env c s).0)
unfolding refresh_token lift validate_refresh_token
refresh_token-ok env token s h =
    let (c, p, q) = bind-ok (lift (or_error bad_token (validate_refresh_token env token))) _ s h in
    let (b, p1, q1) = bind-ok (consume_claims env c) _ s (rw q at h) in
    let t = (consume_claims env c s).0 in
    let (e', q2) = require_not-ok spent_token (not b) (issue env c) t (rw (q ∙ q1) at h) in
    let e : b ≡ true = ground arith in
    (c, or_error-ok bad_token (env.parse env.now token) p, p1 ∙ ap ok e, q ∙ q1 ∙ q2)

-- A token whose consumption succeeded, with `true` where it was the first, has an expiry and a user.
consume_claims-ok :
    (env : Environment) (c : Claims) (s : Store) {b : Bool}
    → (consume_claims env c s).1 ≡ ok b
    → (exp : ℕ) × (u : String) × (c.expires_at ≡ some exp)
      × (env.parse_uuid c.subject ≡ ok u)
      × (consume_claims env c s
          ≡ insert_revoked env
              (record { jti = c.jti; user_id = u; expires_at = of_seconds exp })
              (env.others "ConsumeToken" s))
unfolding consume_claims lift
consume_claims-ok env c s {b} h =
    let (t, p, q) = bind-ok (lift (expiry c)) _ s h in
    let (exp, pe, pt) = expiry-ok c p in
    let (u, pu, r) = consume_token-ok env c.jti c.subject t s b (rw q at h) in
    (
      exp,
      u,
      pe,
      pu,
      q
          ∙ r
          ∙ ap
              (λ (k : ℕ).
                insert_revoked env (record { jti = c.jti; user_id = u; expires_at = k })
                  (env.others "ConsumeToken" s))
              (sym pt),
    )

-- The concurrent requests keep the token spent, and the database's clock has not passed `clock`.
abbrev pub IsDuring : String → String → ℕ → ℕ → Environment → Type 0
IsDuring j u e clock env =
    ((name : String) (s : Store) → IsSpent j u e clock s → IsSpent j u e clock (env.others name s))
    × (env.db_now ≤ clock)

abbrev pub AreDuring : String → String → ℕ → ℕ → List (Environment × Call) → Type 0
AreDuring j u e clock = All (λ c. IsDuring j u e clock c.0 × IsSparing (Spares u) c.0 c.1)

during-AllKeep :
    (j u : String) (e clock : ℕ) (calls : List (Environment × Call))
    → AreDuring j u e clock calls
    → AllKeep (IsSpent j u e clock) (Spares u) calls
during-AllKeep j u e clock [] a = tt
during-AllKeep j u e clock ((env, c) ∷ calls) ((d, sp), a) =
    ((IsSpent-WritesKeep j u e clock env d.0 d.1, sp), during-AllKeep j u e clock calls a)

some-injective : {A : Type 0} {a b : A} → some a ≡ some b → a ≡ b
some-injective h = cc

consume_claims-IsSpent :
    (env : Environment) (c : Claims) (exp : ℕ) (u : String) (clock : ℕ) (s : Store)
    → c.expires_at ≡ some exp
    → env.parse_uuid c.subject ≡ ok u
    → (consume_claims env c s).1 ≡ ok true
    → IsSpent c.jti u (of_seconds exp) clock (consume_claims env c s).0
consume_claims-IsSpent env c exp u clock s pe pu h =
    let (exp', u', pe', pu', q) = consume_claims-ok env c s h in
    let same_exp : exp' ≡ exp = some-injective (sym pe' ∙ pe) in
    let same_user : u' ≡ u = ok-injective (sym pu' ∙ pu) in
    let new =
      insert_revoked-new env (record { jti = c.jti; user_id = u'; expires_at = of_seconds exp' })
        (env.others "ConsumeToken" s) clock (rw q at h) in
    rw q (
      subst
        (λ (k : ℕ).
          IsSpent c.jti u (of_seconds k) clock
            (insert_revoked env (record { jti = c.jti; user_id = u'; expires_at = of_seconds exp' })
              (env.others "ConsumeToken" s)).0)
        same_exp
        (subst
          (λ (v : String).
            IsSpent c.jti v (of_seconds exp') clock
              (insert_revoked env
                (record { jti = c.jti; user_id = u'; expires_at = of_seconds exp' })
                (env.others "ConsumeToken" s)).0)
          same_user new))

-- A spent token is not inserted again before its expiry.
insert_revoked-spent :
    (env : Environment) (b : Revoked) (s : Store) (u : String) (e clock : ℕ)
    → IsSpent b.jti u e clock s
    → clock ≤ e
    → (insert_revoked env b s).1 ≢ ok true
insert_revoked-spent env b s u e clock (inl h) le q = let p = insert_revoked-old env b s u e h in cc
insert_revoked-spent env b s u e clock (inr lt) le q = omega arith

refresh_token-IsSpent :
    (env : Environment) (c : Claims) (exp : ℕ) (u : String) (clock : ℕ) (token : String) (s : Store)
    {x : User × TokenPair}
    → env.parse env.now token ≡ ok c
    → c.expires_at ≡ some exp
    → env.parse_uuid c.subject ≡ ok u
    → IsDuring c.jti u (of_seconds exp) clock env
    → (refresh_token env token s).1 ≡ ok x
    → IsSpent c.jti u (of_seconds exp) clock (refresh_token env token s).0
refresh_token-IsSpent env c exp u clock token s {x} pc pe pu d h =
    let (c', p, consumed, q) = refresh_token-ok env token s h in
    let same : c' ≡ c = ok-injective (sym p ∙ pc) in
    rw q (
      subst
        (λ (k : Claims).
          IsSpent c.jti u (of_seconds exp) clock (issue env k (consume_claims env k s).0).0)
        (sym same)
        ((issue-Keeps env d.0 c).after (consume_claims env c s).0 (
          consume_claims-IsSpent env c exp u clock s pe pu
            (subst (λ (k : Claims). (consume_claims env k s).1 ≡ ok true) same consumed))))

-- Once a refresh has succeeded, its token is never accepted again: not after any series of calls, of
-- refreshes, logouts, cleanups of the blacklist and all others, with any concurrent requests among
-- them that keep it spent, as long as the user's data is not deleted. What is assumed of the JWT
-- library is that the same token has the same claims and is refused from its expiry on, and of the
-- clocks that the service's is not behind the database's at the earlier calls.
pub refresh_token-once :
    (env env' : Environment) (calls : List (Environment × Call)) (token : String) (s : Store)
    (x : User × TokenPair) (c : Claims) (exp : ℕ) (u : String) (clock : ℕ)
    → env.parse env.now token ≡ ok c
    → c.expires_at ≡ some exp
    → env.parse_uuid c.subject ≡ ok u
    → IsDuring c.jti u (of_seconds exp) clock env
    → (refresh_token env token s).1 ≡ ok x
    → AreDuring c.jti u (of_seconds exp) clock calls
    → IsDuring c.jti u (of_seconds exp) clock env'
    → ((d : Claims) → env'.parse env'.now token ≡ ok d → (d ≡ c) × (env'.now < of_seconds exp))
    → clock ≤ env'.now
    → ¬ (
        (y : User × TokenPair) × ((refresh_token env' token
            (serve_all calls (refresh_token env token s).0)).1
          ≡ ok y))
refresh_token-once env env' calls token s x c exp u clock pc pe pu d h during d' law le (y, h') =
    let t = serve_all calls (refresh_token env token s).0 in
    let spent : IsSpent c.jti u (of_seconds exp) clock t =
      serve_all-Keeps (IsSpent c.jti u (of_seconds exp) clock) (Spares u) calls
        (refresh_token env token s).0 (during-AllKeep c.jti u (of_seconds exp) clock calls during)
        (refresh_token-IsSpent env c exp u clock token s pc pe pu d h) in
    let (c', p, consumed, _) = refresh_token-ok env' token t h' in
    let (same, early) = law c' p in
    let (exp', u', pe', pu', q) = consume_claims-ok env' c' t consumed in
    let b : Revoked = record { jti = c'.jti; user_id = u'; expires_at = of_seconds exp' } in
    let before : IsSpent c'.jti u (of_seconds exp) clock (env'.others "ConsumeToken" t) =
      subst (λ (k : Claims). IsSpent k.jti u (of_seconds exp) clock (env'.others "ConsumeToken" t))
        (sym same) (d'.0 "ConsumeToken" t spent) in
    insert_revoked-spent env' b (env'.others "ConsumeToken" t) u (of_seconds exp) clock before
      (omega arith) (rw q at consumed)
