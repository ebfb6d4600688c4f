-- ===== src/Auth/Calls/Privilege.antt =====
-- Nobody becomes an admin by a call (roles in services/auth/internal/service/auth.go).
use gofin.Prelude.{All, String, ◌≡◌, refl, sym, subst, ◌⊎◌, inl, inr, false, List, [], ◌∷◌, str_eq}
use gofin.Auth.Repository.{set_user}
use gofin.Auth.Model.{User, Environment, Store, UserRow, role_admin}
use gofin.Auth.Calls.{Call, serve_all}
use gofin.Auth.Calls.Keeps.{WritesKeep, serve_all-Keeps, AllKeep, IsSparing}
use gofin.Auth.Calls.Rows.{AllRows, Anyone, rows-WritesKeep}

abbrev pub IsOrdinaryOr : (String → Type 0) → UserRow → Type 0
IsOrdinaryOr A r = (str_eq r.user.role role_admin ≡ false) ⊎ A r.user.id

-- Every admin's id is in `A`.
abbrev pub AdminsIn : (String → Type 0) → Store → Type 0
AdminsIn A = AllRows (IsOrdinaryOr A)

abbrev pub OthersKeep : (Store → Type 0) → Environment → Type 0
OthersKeep P env = (name : String) (s : Store) → P s → P (env.others name s)

pub Anyone-IsSparing : (env : Environment) (c : Call) → IsSparing Anyone env c
Anyone-IsSparing env (Call.deletes_user_data id) = tt
Anyone-IsSparing env c = tt

module _ (A : String → Type 0) where
  admins-WritesKeep :
      (env : Environment) → OthersKeep (AdminsIn A) env → WritesKeep (AdminsIn A) Anyone env
  admins-WritesKeep env others =
      rows-WritesKeep (IsOrdinaryOr A) env others (λ x hi hr. inl (rw hr refl)) rewrites (λ r q. q)
    where
      rewrites :
          (r r0 : UserRow) (x : User)
          → r0.user.id ≡ r.user.id
          → x.id ≡ r0.user.id
          → x.role ≡ r0.user.role
          → IsOrdinaryOr A r
          → IsOrdinaryOr A r0
          → IsOrdinaryOr A (set_user x r)
      rewrites r r0 x e hi hr q (inl h) = inl (rw hr h)
      rewrites r r0 x e hi hr q (inr a) = inr (subst A (sym hi) a)

  admins-AllKeep :
      (calls : List (Environment × Call))
      → All (λ c. OthersKeep (AdminsIn A) c.0) calls
      → AllKeep (AdminsIn A) Anyone calls
  admins-AllKeep [] k = tt
  admins-AllKeep ((env, c) ∷ calls) (k, ks) =
      ((admins-WritesKeep env k, Anyone-IsSparing env c), admins-AllKeep calls ks)

-- No series of calls makes an admin, whoever makes them and however they end: where every admin's id
-- is in `A`, and the concurrent requests leave it so, it is so after the calls. Registration,
-- profile changes, onboarding and password changes are among them; the seed at start-up is not.
pub serve_all-admins :
    (A : String → Type 0) (calls : List (Environment × Call)) (s : Store)
    → All (λ c. OthersKeep (AdminsIn A) c.0) calls
    → AdminsIn A s
    → AdminsIn A (serve_all calls s)
serve_all-admins A calls s k a =
    serve_all-Keeps (AdminsIn A) Anyone calls s (admins-AllKeep A calls k) a
