-- ===== src/Auth/Calls/Spent.antt =====
-- Refresh tokens are spent once (RefreshToken of services/auth/internal/service/auth.go and
-- ConsumeToken of repository/blacklist_postgres.go).
use gofin.Prelude.{
  ltb, ◌==◌, if◌then◌else◌, ltb→lt, Bool-cases, any, any-append, any-keep, ℕ, ◌≤◌, ◌<◌, String, ◌≡◌,
  refl, ap, ◌∙◌, ◌≢◌, ◌⊎◌, inl, inr, Bool, true, false, ◌&&◌, [], ◌∷◌, ◌++◌, arith, eq_iff,
}
use gofin.Auth.Calls.Keeps.{fits-Keeps, WritesKeep, statement-Keeps}
use gofin.Auth.Repository.{
  cleanup_expired, blacklist_token, delete_user, revoke_all_user_tokens, update_password, has_id,
  foreign_key, complete_onboarding, update_user, of_user, insert_user, insert_revoked, create_user,
  remove_expired, consume_token, remove_user, set_rows, has_jti, rewrite_user, delete_by_user_id,
  rewrite_columns, remove_revoked,
}
use gofin.Auth.Model.{User, UserRow, Revoked, Store, Environment}
use gofin.Api.{Result, ok, err}
use gofin.Exec.Keeps.{Keeps-bind-lift, keeps_rules, Keeps}
use gofin.Exec.{Exec}

-- The blacklist has the token of an id, a user and an expiry, or the database's clock is past that
-- expiry.
abbrev pub is_entry : String → String → ℕ → Revoked → Bool
is_entry j u e b = has_jti j b && (of_user u b && (b.expires_at == e))

abbrev pub IsSpent : String → String → ℕ → ℕ → Store → Type 0
IsSpent j u e clock s = (any (is_entry j u e) s.blacklist ≡ true) ⊎ (e < clock)

abbrev pub Spares : String → Environment → String → Type 0
Spares u env id = env.parse_uuid id ≢ ok u

module _ (j u : String) (e clock : ℕ) where
  appended :
      (b : Revoked) (s : Store)
      → IsSpent j u e clock s
      → IsSpent j u e clock (record s { blacklist = s.blacklist ++ (b ∷ []) })
  appended b s (inl h) = inl (any-append (is_entry j u e) s.blacklist (b ∷ []) h)
  appended b s (inr h) = inr h

  insert_revoked-Keeps :
      (env : Environment) (b : Revoked) → Keeps (IsSpent j u e clock) (insert_revoked env b)
  unfolding insert_revoked
  insert_revoked-Keeps env b = record {
    after = λ s h. go s h (any (has_jti b.jti) s.blacklist) (any (has_id b.user_id) s.users);
  }
    where
      Kept : Store × Result Bool → Type 0
      Kept r = IsSpent j u e clock r.0

      go :
          (s : Store)
          → IsSpent j u e clock s
          → (c d : Bool)
          → Kept (
              if c
              then (s, ok false)
              else if d
              then (record s { blacklist = s.blacklist ++ (b ∷ []) }, ok true)
              else (s, err foreign_key))
      go s h true d = h
      go s h false true = appended b s h
      go s h false false = h

  -- What leaves the blacklist as it is keeps a token spent.
  Keeps-same :
      {A : Type 0} (m : Exec Store A)
      → ((s : Store) → (m s).0.blacklist ≡ s.blacklist)
      → Keeps (IsSpent j u e clock) m
  Keeps-same m same = record { after = λ s h. go s h (same s) }
    where
      go :
          (s : Store)
          → IsSpent j u e clock s
          → (m s).0.blacklist ≡ s.blacklist
          → IsSpent j u e clock (m s).0
      go s (inl h) p = inl (rw p h)
      go s (inr h) p = inr h

  module _ (env : Environment) where
    insert_user-Keeps : (x : User) → Keeps (IsSpent j u e clock) (insert_user env x)
    unfolding insert_user
    insert_user-Keeps x = Keeps-same (insert_user env x) (λ s. ground arith)

    rewrite_user-Keeps :
        (id : String) (f : User → User) → Keeps (IsSpent j u e clock) (rewrite_user env id f)
    unfolding rewrite_user
    rewrite_user-Keeps id f = Keeps-same (rewrite_user env id f) (λ s. ground arith)

    rewrite_columns-Keeps :
        (id : String) (f : User → User) → Keeps (IsSpent j u e clock) (rewrite_columns env id f)
    unfolding rewrite_columns
    rewrite_columns-Keeps id f = Keeps-same (rewrite_columns env id f) (λ s. ground arith)

    set_rows-Keeps :
        (id : String) (f : UserRow → UserRow) → Keeps (IsSpent j u e clock) (set_rows env id f)
    unfolding set_rows
    set_rows-Keeps id f = Keeps-same (set_rows env id f) (λ s. refl)

    remove_user-Keeps : (id : String) → Keeps (IsSpent j u e clock) (remove_user env id)
    unfolding remove_user
    remove_user-Keeps id = Keeps-same (remove_user env id) (λ s. ground arith)

    remove_expired-Keeps : env.db_now ≤ clock → Keeps (IsSpent j u e clock) (remove_expired env)
    unfolding remove_expired
    remove_expired-Keeps le = record { after = λ s h. go s (Bool-cases (ltb e env.db_now)) h }
      where
        go :
            (s : Store)
            → (ltb e env.db_now ≡ true) ⊎ (ltb e env.db_now ≡ false)
            → IsSpent j u e clock s
            → IsSpent j u e clock (remove_expired env s).0
        go s d (inr h) = inr h
        go s (inl d) (inl h) = inr (omega (arith, ltb→lt e env.db_now d))
        go s (inr d) (inl h) =
            inl (any-keep (is_entry j u e) _ s.blacklist (λ b hb. ground arith) h)

    remove_revoked-Keeps :
        (id : String) → id ≢ u → Keeps (IsSpent j u e clock) (remove_revoked env id)
    unfolding remove_revoked
    remove_revoked-Keeps id ne = record { after = go }
      where
        go : (s : Store) → IsSpent j u e clock s → IsSpent j u e clock (remove_revoked env id s).0
        go s (inr h) = inr h
        go s (inl h) = inl (
            any-keep (is_entry j u e) _ s.blacklist
              (λ b hb. ground (arith, eq_iff b.user_id u, eq_iff b.user_id id)) h)

    module _
        (others : (name : String) (s : Store)
          → IsSpent j u e clock s
          → IsSpent j u e clock (env.others name s)) where
      pub consume_token-Keeps :
          (jti id : String) (t : ℕ) → Keeps (IsSpent j u e clock) (consume_token env jti id t)
      unfolding consume_token
      consume_token-Keeps jti id t =
          search (keeps_rules, statement-Keeps env others, insert_revoked-Keeps)

      delete_by_user_id-Keeps :
          (id : String) → Spares u env id → Keeps (IsSpent j u e clock) (delete_by_user_id env id)
      unfolding delete_by_user_id
      delete_by_user_id-Keeps id ne = Keeps-bind-lift (env.parse_uuid id) _ (λ uid p.
          let k = remove_revoked-Keeps uid (λ q. ne (p ∙ ap ok q)) in
          search (keeps_rules, statement-Keeps env others))

      -- No method of the repository frees a spent token, the cleanup included, as long as the clock
      -- has not passed `clock`.
      pub IsSpent-WritesKeep : env.db_now ≤ clock → WritesKeep (IsSpent j u e clock) (Spares u) env
      unfolding create_user update_user complete_onboarding update_password revoke_all_user_tokens
          delete_user blacklist_token cleanup_expired
      IsSpent-WritesKeep le = record {
        others = others;
        creates = λ a b c d.
            search
              (keeps_rules, statement-Keeps env others, insert_user-Keeps, fits-Keeps env others);
        updates = λ id a b c. search (keeps_rules, statement-Keeps env others, rewrite_user-Keeps);
        onboards = λ id c. search (keeps_rules, statement-Keeps env others, rewrite_columns-Keeps);
        rehashes = λ id c. search (keeps_rules, statement-Keeps env others, set_rows-Keeps);
        revokes = λ id. search (keeps_rules, statement-Keeps env others, set_rows-Keeps);
        deletes = λ id. search (keeps_rules, statement-Keeps env others, remove_user-Keeps);
        consumes = consume_token-Keeps;
        blacklists =
            λ a b c. search (keeps_rules, statement-Keeps env others, insert_revoked-Keeps);
        cleans =
            let k = remove_expired-Keeps le in search (keeps_rules, statement-Keeps env others);
        clears = λ id ne. delete_by_user_id-Keeps id ne;
      }
