-- ===== src/Auth/Calls/Rows.antt =====
-- What holds of every row of the table of users, before and after each call.
use gofin.Prelude.{
  if◌then◌else◌, Bool-cases, any, keep, All, String, ◌≡◌, refl, sym, subst, ◌∙◌, inl, inr, Bool,
  true, false, not, Option, none, some, List, [], ◌∷◌, ◌++◌, arith, eq_iff,
}
use gofin.Auth.Calls.Keeps.{WritesKeep, fits-Keeps, statement-Keeps}
use gofin.Auth.Repository.{
  delete_by_user_id, renamed, onboarded, with_password, cleanup_expired, blacklist_token,
  consume_token, update_password, complete_onboarding, delete_user, create_user,
  revoke_all_user_tokens, update_user, missing, broken_constraint, of_user, written, duplicate,
  has_jti, foreign_key, Written, remove_revoked, remove_user, insert_user, rewrite_columns,
  set_rows, remove_expired, insert_revoked, rewrite_user, revoked, has_id, set_user, update_row,
  find_row,
}
use gofin.Exec.Keeps.{keeps_rules, Keeps}
use gofin.Prelude.Alls.{All-append, All-keep}
use gofin.Auth.Model.{Revoked, role_user, Environment, Store, UserRow, User}
use gofin.Api.{Error, Result, ok, err}

abbrev pub new_row : User → UserRow
new_row x = record { user = x; tokens_revoked_at = none }

abbrev pub AllRows : (UserRow → Type 0) → Store → Type 0
AllRows Q s = All Q s.users

abbrev pub Anyone : Environment → String → Type 0
Anyone env id = Unit

pub find_row-hit :
    (p : UserRow → Bool) (rs : List UserRow) (r : UserRow) → find_row p rs ≡ some r → p r ≡ true
unfolding find_row
find_row-hit p [] r h = cc
find_row-hit p (x ∷ rs) r h = ground (arith, find_row-hit p rs r)

module _ (Q : UserRow → Type 0) where
  pub find_row-All :
      (p : UserRow → Bool) (rs : List UserRow) (r : UserRow)
      → All Q rs
      → find_row p rs ≡ some r
      → Q r × (p r ≡ true)
  unfolding find_row
  find_row-All p [] r a h = cc
  find_row-All p (x ∷ rs) r a h = elim (Bool-cases (p x)) [
    | inl yes' ↦
        let e : x ≡ r = let e' : some x ≡ some r = rw yes' at h in cc in
        (subst Q (e) a.0, subst (λ (y : UserRow). p y ≡ true) (e) yes')
    | inr no' ↦ find_row-All p rs r a.1 (rw no' at h)
  ]

  update_row-All :
      (id : String) (g : UserRow → UserRow) (rs : List UserRow)
      → ((r : UserRow) → has_id id r ≡ true → Q r → Q (g r))
      → All Q rs
      → All Q (update_row id g rs)
  unfolding update_row
  update_row-All id g [] k a = tt
  update_row-All id g (r ∷ rs) k a = (head (has_id id r) refl, update_row-All id g rs k a.1)
    where
      head : (b : Bool) → has_id id r ≡ b → Q (if b then g r else r)
      head true e = k r e a.0
      head false e = a.0

  module _ (env : Environment)
      (others : (name : String) (s : Store) → AllRows Q s → AllRows Q (env.others name s))
      (fresh : (x : User) → x.id ≡ env.new_id → x.role ≡ role_user → Q (new_row x))
      (rewrites : (r r0 : UserRow) (x : User)
        → r0.user.id ≡ r.user.id
        → x.id ≡ r0.user.id
        → x.role ≡ r0.user.role
        → Q r
        → Q r0
        → Q (set_user x r))
      (revokes : (r : UserRow) → Q r → Q (revoked env r)) where
    insert_user-Keeps :
        (x : User) → x.id ≡ env.new_id → x.role ≡ role_user → Keeps (AllRows Q) (insert_user env x)
    unfolding insert_user
    insert_user-Keeps x hi hr = record {
      after = λ s a. go s a (any (has_id x.id) s.users) (broken_constraint x s.users);
    }
      where
        Kept : Store × Result Written → Type 0
        Kept r = AllRows Q r.0

        go :
            (s : Store)
            → AllRows Q s
            → (b : Bool) (o : Option String)
            → Kept (
                if b then (s, ok (duplicate "users_pkey")) else elim o [
                  | some c ↦ (s, ok (duplicate c))
                  | none ↦ (record s { users = s.users ++ (new_row x ∷ []) }, ok (written x))
                ])
        go s a true o = a
        go s a false (some c) = a
        go s a false none = All-append Q s.users (new_row x ∷ []) a (fresh x hi hr, tt)

    -- A rewrite whose function leaves the id and the role alone.
    rewritten :
        (id : String) (f : User → User)
        → ((v : User) → ((f v).id ≡ v.id) × ((f v).role ≡ v.role))
        → (s : Store) (r : UserRow) → AllRows Q s
        → find_row (has_id id) s.users ≡ some r
        → All Q (update_row id (set_user (f r.user)) s.users)
    rewritten id f same s r a h =
        let (q, e) = find_row-All (has_id id) s.users r a h in
        update_row-All id (set_user (f r.user)) s.users
          (λ y hy qy.
            rewrites y r (f r.user) ((eq_iff r.user.id id).0 e ∙ sym ((eq_iff y.user.id id).0 hy))
              (same r.user).0 (same r.user).1 qy q)
          a

    rewrite_user-Keeps :
        (id : String) (f : User → User)
        → ((v : User) → ((f v).id ≡ v.id) × ((f v).role ≡ v.role))
        → Keeps (AllRows Q) (rewrite_user env id f)
    unfolding rewrite_user
    rewrite_user-Keeps id f same = record {
      after = λ s a. go s a (find_row (has_id id) s.users) refl;
    }
      where
        Kept : Store × Result Written → Type 0
        Kept r = AllRows Q r.0

        last :
            (s : Store) (r : UserRow)
            → AllRows Q s
            → find_row (has_id id) s.users ≡ some r
            → (o : Option String)
            → Kept (elim o [
              | some c ↦ (s, ok (duplicate c))
              | none ↦ (
                record s { users = update_row id (set_user (f r.user)) s.users },
                ok (written (f r.user)),
              )
            ])
        last s r a h (some c) = a
        last s r a h none = rewritten id f same s r a h

        next :
            (s : Store) (r : UserRow)
            → AllRows Q s
            → find_row (has_id id) s.users ≡ some r
            → (o : Option Error)
            → Kept (elim o [
              | some e ↦ (s, err e)
              | none ↦ elim (broken_constraint (f r.user) (keep (λ x. not (has_id id x)) s.users)) [
                | some c ↦ (s, ok (duplicate c))
                | none ↦ (
                  record s { users = update_row id (set_user (f r.user)) s.users },
                  ok (written (f r.user)),
                )
              ]
            ])
        next s r a h (some e) = a
        next s r a h none =
            last s r a h (broken_constraint (f r.user) (keep (λ x. not (has_id id x)) s.users))

        go :
            (s : Store)
            → AllRows Q s
            → (o : Option UserRow) → find_row (has_id id) s.users ≡ o
            → Kept (elim o [
              | none ↦ (s, ok missing)
              | some r ↦ elim (env.misfit (f r.user)) [
                | some e ↦ (s, err e)
                | none ↦
                    elim (broken_constraint (f r.user) (keep (λ x. not (has_id id x)) s.users)) [
                      | some c ↦ (s, ok (duplicate c))
                      | none ↦ (
                        record s { users = update_row id (set_user (f r.user)) s.users },
                        ok (written (f r.user)),
                      )
                    ]
              ]
            ])
        go s a none h = a
        go s a (some r) h = next s r a h (env.misfit (f r.user))

    rewrite_columns-Keeps :
        (id : String) (f : User → User)
        → ((v : User) → ((f v).id ≡ v.id) × ((f v).role ≡ v.role))
        → Keeps (AllRows Q) (rewrite_columns env id f)
    unfolding rewrite_columns
    rewrite_columns-Keeps id f same = record {
      after = λ s a. go s a (find_row (has_id id) s.users) refl;
    }
      where
        Kept : Store × Result (Option User) → Type 0
        Kept r = AllRows Q r.0

        next :
            (s : Store) (r : UserRow)
            → AllRows Q s
            → find_row (has_id id) s.users ≡ some r
            → (o : Option Error)
            → Kept (elim o [
              | some e ↦ (s, err e)
              | none ↦ (
                record s { users = update_row id (set_user (f r.user)) s.users },
                ok (some (f r.user)),
              )
            ])
        next s r a h (some e) = a
        next s r a h none = rewritten id f same s r a h

        go :
            (s : Store)
            → AllRows Q s
            → (o : Option UserRow) → find_row (has_id id) s.users ≡ o
            → Kept (elim o [
              | none ↦ (s, ok none)
              | some r ↦ elim (env.misfit (f r.user)) [
                | some e ↦ (s, err e)
                | none ↦ (
                  record s { users = update_row id (set_user (f r.user)) s.users },
                  ok (some (f r.user)),
                )
              ]
            ])
        go s a none h = a
        go s a (some r) h = next s r a h (env.misfit (f r.user))

    set_rows-Keeps :
        (id : String) (g : UserRow → UserRow)
        → ((r : UserRow) → Q r → Q (g r))
        → Keeps (AllRows Q) (set_rows env id g)
    unfolding set_rows
    set_rows-Keeps id g k = record {
      after = λ s a. update_row-All id g s.users (λ r hr q. k r q) a;
    }

    remove_user-Keeps : (id : String) → Keeps (AllRows Q) (remove_user env id)
    unfolding remove_user
    remove_user-Keeps id = record { after = λ s a. go s a (any (of_user id) s.blacklist) }
      where
        Kept : Store × Result {0} (Unit {0}) → Type 0
        Kept r = AllRows Q r.0

        go :
            (s : Store)
            → AllRows Q s
            → (b : Bool)
            → Kept (
                if b
                then (s, err foreign_key)
                else (record s { users = keep (λ r. not (has_id id r)) s.users }, ok tt))
        go s a true = a
        go s a false = All-keep Q _ s.users a

    insert_revoked-Keeps : (b : Revoked) → Keeps (AllRows Q) (insert_revoked env b)
    unfolding insert_revoked
    insert_revoked-Keeps b = record {
      after = λ s a. go s a (any (has_jti b.jti) s.blacklist) (any (has_id b.user_id) s.users);
    }
      where
        Kept : Store × Result Bool → Type 0
        Kept r = AllRows Q r.0

        go :
            (s : Store)
            → AllRows Q s
            → (c d : Bool)
            → Kept (
                if c
                then (s, ok false)
                else if d
                then (record s { blacklist = s.blacklist ++ (b ∷ []) }, ok true)
                else (s, err foreign_key))
        go s a true d = a
        go s a false true = a
        go s a false false = a

    remove_expired-Keeps : Keeps (AllRows Q) (remove_expired env)
    unfolding remove_expired
    remove_expired-Keeps = record { after = λ s a. a }

    remove_revoked-Keeps : (id : String) → Keeps (AllRows Q) (remove_revoked env id)
    unfolding remove_revoked
    remove_revoked-Keeps id = record { after = λ s a. a }

    creates-Keeps :
        (username email hash currency : String)
        → Keeps (AllRows Q) (create_user env username email hash role_user currency)
    unfolding create_user
    creates-Keeps username email hash currency =
        let x : User = record {
          id = env.new_id;
          username = username;
          email = email;
          password_hash = hash;
          role = role_user;
          currency = currency;
          has_completed_onboarding = false;
          created_at = env.db_now;
          updated_at = env.db_now;
        } in
        let inserted = insert_user-Keeps x refl refl in
        search (keeps_rules, statement-Keeps env others, fits-Keeps env others)

    updates-Keeps :
        (id username email currency : String)
        → Keeps (AllRows Q) (update_user env id username email currency)
    unfolding update_user
    updates-Keeps id username email currency = search (
      keeps_rules,
      statement-Keeps env others,
      λ (uid : String).
          rewrite_user-Keeps uid (renamed env username email currency) (λ v. (refl, refl)),
    )

    onboards-Keeps :
        (id currency : String) → Keeps (AllRows Q) (complete_onboarding env id currency)
    unfolding complete_onboarding
    onboards-Keeps id currency = search (
      keeps_rules,
      statement-Keeps env others,
      λ (uid : String). rewrite_columns-Keeps uid (onboarded env currency) (λ v. (refl, refl)),
    )

    rehashes-Keeps : (id hash : String) → Keeps (AllRows Q) (update_password env id hash)
    unfolding update_password
    rehashes-Keeps id hash = search (
      keeps_rules,
      statement-Keeps env others,
      λ (uid : String). set_rows-Keeps uid (with_password env hash) (λ r q.
          rewrites r r (record r.user { password_hash = hash; updated_at = env.db_now }) refl refl
            refl q q),
    )

    revokes-Keeps : (id : String) → Keeps (AllRows Q) (revoke_all_user_tokens env id)
    unfolding revoke_all_user_tokens
    revokes-Keeps id = search (
      keeps_rules,
      statement-Keeps env others,
      λ (uid : String). set_rows-Keeps uid (revoked env) revokes,
    )

    -- Each method of the repository keeps what holds of a new row, and what rewrites that leave the
    -- id and the role alone keep, and revocations.
    pub rows-WritesKeep : WritesKeep (AllRows Q) Anyone env
    unfolding delete_user consume_token blacklist_token cleanup_expired delete_by_user_id
    rows-WritesKeep = record {
      others = others;
      creates = creates-Keeps;
      updates = updates-Keeps;
      onboards = onboards-Keeps;
      rehashes = rehashes-Keeps;
      revokes = revokes-Keeps;
      deletes = λ id. search (keeps_rules, statement-Keeps env others, remove_user-Keeps);
      consumes = λ a b c. search (keeps_rules, statement-Keeps env others, insert_revoked-Keeps);
      blacklists = λ a b c. search (keeps_rules, statement-Keeps env others, insert_revoked-Keeps);
      cleans = search (keeps_rules, statement-Keeps env others, remove_expired-Keeps);
      clears = λ id a. search (keeps_rules, statement-Keeps env others, remove_revoked-Keeps);
    }
