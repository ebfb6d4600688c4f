-- ===== src/Auth/Repository.antt =====
-- services/auth/internal/repository on the two tables, with their keys: ids, usernames and emails of
-- users are unique, so is the jti of a revoked token, and a revoked token belongs to a user.
use gofin.Prelude.{
  ltb, leb, if◌then◌else◌, any, keep, sort_by, ℕ, String, Bool, true, false, not, Option, none,
  some, List, [], ◌∷◌, ◌++◌, map, str_eq,
}
use gofin.Api.{Error, ok, err, other}
use gofin.Exec.{◌>>=◌, ◌>>◌, Exec, pure, raise, lift, gets}
use gofin.Auth.Model.{User, UserRow, Revoked, Store, Environment}

-- What the code learns of an INSERT or UPDATE with RETURNING.
pub data Written : Type 0 where
  duplicate : (constraint : String) → Written
  missing : Written
  written : User → Written

abbrev pub has_id : String → UserRow → Bool
has_id id r = str_eq r.user.id id

abbrev pub has_username : String → UserRow → Bool
has_username username r = str_eq r.user.username username

abbrev pub has_email : String → UserRow → Bool
has_email email r = str_eq r.user.email email

unfoldable pub find_row : (UserRow → Bool) → List UserRow → Option UserRow
find_row p [] = none
find_row p (r ∷ rs) = if p r then some r else find_row p rs

abbrev pub user_of : Option UserRow → Option User
user_of none = none
user_of (some r) = some r.user

-- An UPDATE of the row with an id.
unfoldable pub update_row : String → (UserRow → UserRow) → List UserRow → List UserRow
update_row id f [] = []
update_row id f (r ∷ rs) = (if has_id id r then f r else r) ∷ update_row id f rs

abbrev pub set_user : User → UserRow → UserRow
set_user u r = record r { user = u }

abbrev pub has_jti : String → Revoked → Bool
has_jti jti r = str_eq r.jti jti

abbrev pub of_user : String → Revoked → Bool
of_user id r = str_eq r.user_id id

abbrev pub foreign_key : Error
foreign_key = other "violates foreign key constraint refresh_token_blacklist_user_id_fkey"

-- The unique constraint that a user would break beside the rows of others.
unfoldable pub broken_constraint : User → List UserRow → Option String
broken_constraint u others =
    if any (has_username u.username) others
    then some "users_username_key"
    else if any (has_email u.email) others
    then some "users_email_key"
    else none

abbrev pub by_creation : User → User → Bool
by_creation u v = leb u.created_at v.created_at

-- The columns of the list; the others are left at their zero values.
abbrev pub listed : UserRow → User
listed r = record {
  id = r.user.id;
  username = r.user.username;
  email = r.user.email;
  password_hash = "";
  role = r.user.role;
  currency = "";
  has_completed_onboarding = false;
  created_at = r.user.created_at;
  updated_at = 0;
}

abbrev pub revoked_at : Option UserRow → Option ℕ
revoked_at none = none
revoked_at (some r) = r.tokens_revoked_at

module _ (env : Environment) where
  -- What comes before a statement, and its failure.
  unfoldable pub statement : String → Exec Store Unit
  statement name s =
      (env.others name s, elim (env.statement name) [ none ↦ ok tt | some e ↦ err e ])

  unfoldable pub insert_user : User → Exec Store Written
  unfolding broken_constraint
  insert_user u s =
      if any (has_id u.id) s.users
      then (s, ok (duplicate "users_pkey"))
      else elim (broken_constraint u s.users) [
        | some c ↦ (s, ok (duplicate c))
        | none ↦ (
          record s { users = s.users ++ (record { user = u; tokens_revoked_at = none } ∷ []) },
          ok (written u),
        )
      ]

  unfoldable pub fits : User → Exec Store Unit
  fits u = elim (env.misfit u) [ none ↦ pure tt | some e ↦ raise e ]

  unfoldable pub create_user : String → String → String → String → String → Exec Store Written
  unfolding insert_user statement fits
  create_user username email password_hash role currency =
      let u : User = record {
        id = env.new_id;
        username = username;
        email = email;
        password_hash = password_hash;
        role = role;
        currency = currency;
        has_completed_onboarding = false;
        created_at = env.db_now;
        updated_at = env.db_now;
      } in
      do statement "CreateUser"; fits u; insert_user u

  unfoldable pub get_user_by_email : String → Exec Store (Option User)
  unfolding statement find_row
  get_user_by_email email = do
    statement "GetUserByEmail"
    gets (λ s. user_of (find_row (has_email email) s.users))

  unfoldable pub get_user_by_username : String → Exec Store (Option User)
  unfolding statement find_row
  get_user_by_username username = do
    statement "GetUserByUsername"
    gets (λ s. user_of (find_row (has_username username) s.users))

  unfoldable pub get_user_by_id : String → Exec Store (Option User)
  unfolding statement find_row
  get_user_by_id id = do
    uid ← lift (env.parse_uuid id)
    statement "GetUserByID"
    gets (λ s. user_of (find_row (has_id uid) s.users))

  abbrev pub onboarded : String → User → User
  onboarded currency u = record u {
    has_completed_onboarding = true;
    currency = currency;
    updated_at = env.db_now;
  }

  abbrev pub renamed : String → String → String → User → User
  renamed username email currency u = record u {
    username = username;
    email = email;
    currency = currency;
    updated_at = env.db_now;
  }

  unfoldable pub rewrite_user : String → (User → User) → Exec Store Written
  unfolding broken_constraint find_row update_row
  rewrite_user id f s = elim (find_row (has_id id) s.users) [
    | none ↦ (s, ok missing)
    | some r ↦ elim (env.misfit (f r.user)) [
      | some e ↦ (s, err e)
      | none ↦ elim (broken_constraint (f r.user) (keep (λ o. not (has_id id o)) s.users)) [
        | some c ↦ (s, ok (duplicate c))
        | none ↦ (
          record s { users = update_row id (set_user (f r.user)) s.users },
          ok (written (f r.user)),
        )
      ]
    ]
  ]

  -- An UPDATE with RETURNING that writes no key.
  unfoldable pub rewrite_columns : String → (User → User) → Exec Store (Option User)
  unfolding find_row update_row
  rewrite_columns id f s = elim (find_row (has_id id) s.users) [
    | none ↦ (s, ok none)
    | some r ↦ elim (env.misfit (f r.user)) [
      | some e ↦ (s, err e)
      | none ↦
          (record s { users = update_row id (set_user (f r.user)) s.users }, ok (some (f r.user)))
    ]
  ]

  unfoldable pub complete_onboarding : String → String → Exec Store (Option User)
  unfolding statement rewrite_columns
  complete_onboarding id currency = do
    uid ← lift (env.parse_uuid id)
    statement "CompleteOnboarding"
    rewrite_columns uid (onboarded currency)

  unfoldable pub list_all_users : Exec Store (List User)
  unfolding statement
  list_all_users = do statement "ListAllUsers"; gets (λ s. sort_by by_creation (map listed s.users))

  unfoldable pub update_user : String → String → String → String → Exec Store Written
  unfolding statement rewrite_user
  update_user id username email currency = do
    uid ← lift (env.parse_uuid id)
    statement "UpdateUser"
    rewrite_user uid (renamed username email currency)

  abbrev pub with_password : String → UserRow → UserRow
  with_password hash r =
      set_user (record r.user { password_hash = hash; updated_at = env.db_now }) r

  unfoldable pub set_rows : String → (UserRow → UserRow) → Exec Store Unit
  unfolding update_row
  set_rows id f s = (record s { users = update_row id f s.users }, ok tt)

  unfoldable pub update_password : String → String → Exec Store Unit
  unfolding statement set_rows
  update_password id hash = do
    uid ← lift (env.parse_uuid id)
    statement "UpdatePassword"
    set_rows uid (with_password hash)

  abbrev pub revoked : UserRow → UserRow
  revoked r = record r {
    user = record r.user { updated_at = env.db_now };
    tokens_revoked_at = some env.db_now;
  }

  unfoldable pub revoke_all_user_tokens : String → Exec Store Unit
  unfolding statement set_rows
  revoke_all_user_tokens id = do
    uid ← lift (env.parse_uuid id)
    statement "RevokeAllUserTokens"
    set_rows uid revoked

  unfoldable pub get_tokens_revoked_at : String → Exec Store (Option ℕ)
  unfolding statement find_row
  get_tokens_revoked_at id = do
    uid ← lift (env.parse_uuid id)
    statement "GetTokensRevokedAt"
    gets (λ s. revoked_at (find_row (has_id uid) s.users))

  unfoldable pub remove_user : String → Exec Store Unit
  remove_user id s =
      if any (of_user id) s.blacklist
      then (s, err foreign_key)
      else (record s { users = keep (λ r. not (has_id id r)) s.users }, ok tt)

  unfoldable pub delete_user : String → Exec Store Unit
  unfolding statement remove_user
  delete_user id = do uid ← lift (env.parse_uuid id); statement "DeleteUser"; remove_user uid

  -- INSERT ... ON CONFLICT (jti) DO NOTHING: whether a row was inserted.
  unfoldable pub insert_revoked : Revoked → Exec Store Bool
  insert_revoked r s =
      if any (has_jti r.jti) s.blacklist
      then (s, ok false)
      else if any (has_id r.user_id) s.users
      then (record s { blacklist = s.blacklist ++ (r ∷ []) }, ok true)
      else (s, err foreign_key)

  unfoldable pub consume_token : String → String → ℕ → Exec Store Bool
  unfolding statement insert_revoked
  consume_token jti id expires_at = do
    uid ← lift (env.parse_uuid id)
    statement "ConsumeToken"
    insert_revoked (record { jti = jti; user_id = uid; expires_at = expires_at })

  unfoldable pub blacklist_token : String → String → ℕ → Exec Store Unit
  unfolding statement insert_revoked
  blacklist_token jti id expires_at = do
    uid ← lift (env.parse_uuid id)
    statement "BlacklistToken"
    insert_revoked (record { jti = jti; user_id = uid; expires_at = expires_at })
    pure tt

  unfoldable pub remove_expired : Exec Store Unit
  remove_expired s =
      (record s { blacklist = keep (λ r. not (ltb r.expires_at env.db_now)) s.blacklist }, ok tt)

  unfoldable pub cleanup_expired : Exec Store Unit
  unfolding statement remove_expired
  cleanup_expired = do statement "CleanupExpired"; remove_expired

  unfoldable pub remove_revoked : String → Exec Store Unit
  remove_revoked id s = (record s { blacklist = keep (λ r. not (of_user id r)) s.blacklist }, ok tt)

  unfoldable pub delete_by_user_id : String → Exec Store Unit
  unfolding statement remove_revoked
  delete_by_user_id id = do
    uid ← lift (env.parse_uuid id)
    statement "DeleteByUserID"
    remove_revoked uid
