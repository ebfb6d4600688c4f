-- ===== src/Auth/Tests.antt =====
-- Runs of the auth service's model, and its theorems at concrete inputs.
use gofin.Prelude.{
  ltb, leb, ◌==◌, if◌then◌else◌, any, ℕ, ◌<◌, String, ◌≡◌, refl, sym, ap, ◌∙◌, ◌≢◌, inl, inr, Bool,
  true, false, ◌&&◌, Option, none, some, [], ◌∷◌, arith, eq_iff, str_eq,
}
use gofin.Auth.Calls.Identity.{restore-assume, ReadsBack}
use gofin.Auth.Calls.Steps.{ok-injective}
use gofin.Auth.Service.{
  result_of, login, validate_token, refresh_token, assume_identity, change_password,
  restore_identity,
}
use gofin.Auth.Calls.Deletion.{delete_user_data_lem, without}
use gofin.Auth.Calls.Once.{refresh_token-once}
use gofin.Auth.Calls.Privilege.{serve_all-admins, AdminsIn}
use gofin.Auth.Calls.Revocation.{change_password-revokes}
use gofin.Auth.Repository.{of_user, has_id}
use gofin.Auth.Calls.{Call, serve_all}
use gofin.Auth.Calls.Login.{login_lem, LoginAnswer}
use gofin.Exec.{◌>>=◌}
use gofin.Auth.Model.{
  ValidateTokenResult, User, Store, Claims, Environment, TokenPair, LoginRequest,
  ChangePasswordRequest, role_user, role_admin, of_seconds,
}
use gofin.Auth.Grpc.{delete_user_data}
use gofin.Api.{Result, ok, err, other}

abbrev una : User
una = record {
  id = "u1";
  username = "una";
  email = "una@example.com";
  password_hash = "Old-pass-1";
  role = role_user;
  currency = "USD";
  has_completed_onboarding = true;
  created_at = 0;
  updated_at = 0;
}

abbrev root : User
root = record una { id = "a1"; username = "root"; email = "root@example.com"; role = role_admin }

abbrev two_users : Store
two_users = record {
  users =
      record { user = una; tokens_revoked_at = none }
      ∷ record { user = root; tokens_revoked_at = none }
      ∷ [];
  blacklist = [];
}

-- Una's access token while the admin acts for her, the admin's own, and Una's refresh token.
abbrev assumed : Claims
assumed = record {
  subject = "u1";
  jti = "";
  issued_at = some 10;
  expires_at = some 910;
  role = role_user;
  username = "una";
  assumed_by = "a1";
}

abbrev restored : Claims
restored = record assumed { subject = "a1"; role = role_admin; username = "root"; assumed_by = "" }

abbrev refreshing : Claims
refreshing = record {
  subject = "u1";
  jti = "j1";
  issued_at = some 10;
  expires_at = some 604810;
  role = "";
  username = "";
  assumed_by = "";
}

abbrev same_time : Option ℕ → Option ℕ → Bool
same_time none none = true
same_time (some a) (some b) = a == b
same_time a b = false

abbrev same : Claims → Claims → Bool
same c d =
    str_eq c.subject d.subject
    && (str_eq c.jti d.jti
        && (same_time c.issued_at d.issued_at
            && (same_time c.expires_at d.expires_at
                && (str_eq c.role d.role
                    && (str_eq c.username d.username && str_eq c.assumed_by d.assumed_by)))))

-- A library that signs two payloads in a way that can be read, and no other.
abbrev sign : Claims → Result String
sign c =
    if same c assumed then ok "access-1" else if same c restored then ok "access-2" else ok "other"

abbrev parse : ℕ → String → Result Claims
parse now token =
    if str_eq token "access-1"
    then ok assumed
    else if str_eq token "access-2"
    then ok restored
    else if str_eq token "refresh" && ltb now (of_seconds 604810)
    then ok refreshing
    else err (other "token is invalid")

abbrev env : Environment
env = record {
  now = 10000000;
  db_now = 10000000;
  statement = λ name. none;
  others = λ name s. s;
  misfit = λ u. none;
  parse_uuid = λ id. ok id;
  new_id = "u2";
  new_jti = "j2";
  sign = sign;
  parse = parse;
  hash_password = λ p. ok p;
  check_password = str_eq;
  access_token_ttl = 900000000;
  refresh_token_ttl = 604800000000;
  to_lower = λ s. s;
  is_upper = λ c. leb 65 c && leb c 90;
  is_lower = λ c. leb 97 c && leb c 122;
  is_digit = λ c. leb 48 c && leb c 57;
}

abbrev later : Environment
later = record env { now = 20000000; db_now = 20000000 }

abbrev other_pair : TokenPair
other_pair = record { access_token = "other"; refresh_token = "other" }

refresh_run : (refresh_token env "refresh" two_users).1 ≡ ok (una, other_pair)
unfolding refresh_token ◌>>=◌
refresh_run = refl

refresh_law :
    (d : Claims)
    → parse later.now "refresh" ≡ ok d
    → (d ≡ refreshing) × (later.now < of_seconds 604810)
refresh_law d h = (cc, omega arith)

refresh_token-once_example : ¬ (
    (y : User × TokenPair) × ((refresh_token later "refresh" (
        serve_all
          ((later, Call.logs_out "refresh") ∷ (later, Call.cleans_up) ∷ [])
          (refresh_token env "refresh" two_users).0)).1
      ≡ ok y))
refresh_token-once_example =
    refresh_token-once env later ((later, Call.logs_out "refresh") ∷ (later, Call.cleans_up) ∷ [])
      "refresh" two_users (una, other_pair) refreshing 604810 "u1" 20000000 refl refl refl
      ((λ name s h. h), omega arith) refresh_run
      ((((λ name s h. h), omega arith), tt), ((((λ name s h. h), omega arith), tt), tt))
      ((λ name s h. h), omega arith) refresh_law (omega arith)

abbrev IsRoot : String → Type 0
IsRoot id = id ≡ "a1"

serve_all-admins_example :
    AdminsIn IsRoot
      (serve_all ((env, Call.assumes "a1" "u1") ∷ (later, Call.logs_out "refresh") ∷ []) two_users)
serve_all-admins_example =
    serve_all-admins IsRoot ((env, Call.assumes "a1" "u1") ∷ (later, Call.logs_out "refresh") ∷ [])
      two_users ((λ name s h. h), ((λ name s h. h), tt)) (inl refl, (inr refl, tt))

abbrev new_password : ChangePasswordRequest
new_password = record { current_password = "Old-pass-1"; new_password = "New-pass-2" }

change_run : (change_password later "u1" new_password two_users).1 ≡ ok (una, other_pair)
unfolding change_password ◌>>=◌
change_run = refl

change_law : (d : Claims) → parse later.now "access-1" ≡ ok d → d ≡ assumed
change_law d h = cc

u2-ne-u1 : ◌≢◌ {A = String} "u2" "u1"
u2-ne-u1 h = let b = (eq_iff "u2" "u1").1 h in cc

change_found :
    any
      (has_id "u1")
      (serve_all
        ((later, Call.cleans_up) ∷ [])
        (change_password later "u1" new_password two_users).0).users
    ≡ true
unfolding change_password serve_all ◌>>=◌
change_found = refl

change_password-revokes_example : ¬ (
    (y : ValidateTokenResult) × ((validate_token later "access-1" (
        serve_all
          ((later, Call.cleans_up) ∷ [])
          (change_password later "u1" new_password two_users).0)).1
      ≡ ok y))
change_password-revokes_example =
    change_password-revokes later later ((later, Call.cleans_up) ∷ []) "u1" "access-1" new_password
      two_users (una, other_pair) assumed 10 "u1" refl change_run
      (((λ name s h. h), omega arith, u2-ne-u1), tt) (λ name s h. h) change_law refl refl
      (omega arith) change_found

abbrev una_login : LoginRequest
una_login = record { email = " una@example.com"; password = "guess" }

login_lem_example : LoginAnswer env una_login two_users (login env una_login two_users).1
login_lem_example = login_lem env una_login two_users

delete_user_data_lem_example :
    (delete_user_data env "u1" two_users ≡ (without "u1" two_users, ok tt))
    × (any (has_id "u1") (without "u1" two_users).users ≡ false)
    × (any (of_user "u1") (without "u1" two_users).blacklist ≡ false)
delete_user_data_lem_example =
    delete_user_data_lem env "u1" "u1" two_users refl refl refl refl (λ name t. refl)

same-assumed : (c : Claims) → same c assumed ≡ true → c ≡ assumed
same-assumed c h = ground (
  arith,
  eq_iff c.subject "u1",
  eq_iff c.jti "",
  eq_iff c.role role_user,
  eq_iff c.username "una",
  eq_iff c.assumed_by "a1",
)

same-restored : (c : Claims) → same c restored ≡ true → c ≡ restored
same-restored c h = ground (
  arith,
  eq_iff c.subject "a1",
  eq_iff c.jti "",
  eq_iff c.role role_admin,
  eq_iff c.username "root",
  eq_iff c.assumed_by "",
)

parse_of :
    (a d : Claims) (t token : String)
    → ok t ≡ ok token
    → env.parse env.now t ≡ ok a
    → env.parse env.now token ≡ ok d
    → d ≡ a
parse_of a d t token e p k =
    let same' : t ≡ token = ok-injective e in
    ok-injective (sym k ∙ ap (env.parse env.now) (sym same') ∙ p)

reads_back : ReadsBack env env
reads_back c d token h k = first (same c assumed) (same c restored) refl refl h
  where
    first :
        (a b : Bool)
        → same c assumed ≡ a
        → same c restored ≡ b
        → (if a then ok "access-1" else if b then ok "access-2" else ok "other") ≡ ok token
        → d ≡ c
    first true b ea eb h' = parse_of assumed d "access-1" token h' refl k ∙ sym (same-assumed c ea)
    first false true ea eb h' =
        parse_of restored d "access-2" token h' refl k ∙ sym (same-restored c eb)
    first false false ea eb h' =
        let same' : "other" ≡ token = ok-injective h' in
        let bad : parse 10000000 "other" ≡ ok d = ap (parse 10000000) same' ∙ k in cc

assume_run :
    (assume_identity env "a1" "u1" two_users).1
    ≡ ok (una, record { access_token = "access-1"; refresh_token = "other" })
unfolding assume_identity ◌>>=◌
assume_run = refl

restore_run :
    (restore_identity env "a1" two_users).1
    ≡ ok (root, record { access_token = "access-2"; refresh_token = "other" })
unfolding restore_identity ◌>>=◌
restore_run = refl

assumed_run : (validate_token env "access-1" two_users).1 ≡ ok (result_of assumed)
unfolding validate_token ◌>>=◌
assumed_run = refl

restored_run : (validate_token env "access-2" two_users).1 ≡ ok (result_of restored)
unfolding validate_token ◌>>=◌
restored_run = refl

restore-assume_example :
    (env.parse_uuid "u1" ≡ ok (result_of assumed).user_id)
    × ((result_of assumed).role ≡ una.role)
    × ((result_of assumed).assumed_by ≡ "a1")
    × (env.parse_uuid "a1" ≡ ok (result_of restored).user_id)
    × ((result_of restored).role ≡ role_admin)
    × ((result_of restored).assumed_by ≡ "")
restore-assume_example =
    restore-assume env env env env two_users two_users two_users two_users "a1" "u1" una root
      (record { access_token = "access-1"; refresh_token = "other" })
      (record { access_token = "access-2"; refresh_token = "other" }) (result_of assumed)
      (result_of restored) reads_back reads_back assume_run assumed_run restore_run restored_run
