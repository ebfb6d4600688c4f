-- ===== src/Auth/Calls/Deletion.antt =====
-- `DeleteUserData` of services/auth/internal/handler/grpc.go.
use gofin.Prelude.{any, keep, any-keep-not, String, ◌≡◌, refl, false, not, none, str_eq}
use gofin.Auth.Repository.{
  of_user, has_id, statement, remove_user, remove_revoked, delete_user, delete_by_user_id,
}
use gofin.Auth.Model.{Environment, Store}
use gofin.Auth.Service.{require_not, delete_user_row, delete_refresh_token_blacklist}
use gofin.Auth.Grpc.{delete_user_data}
use gofin.Api.{ok}
use gofin.Exec.{lift, pure, raise, attempt, ◌>>=◌}

-- Where nothing of the user is left, nor of its revoked tokens, and all else is.
abbrev pub without : String → Store → Store
without u s = record {
  users = keep (λ r. not (has_id u r)) s.users;
  blacklist = keep (λ b. not (of_user u b)) s.blacklist;
}

-- The deletion of a user's data runs through where its two statements do and no other request comes
-- between: the rows of revoked tokens go first, so the foreign key does not hold the user's row back.
-- No row of the user's is left, and those of others are.
pub delete_user_data_lem :
    (env : Environment) (id u : String) (s : Store)
    → str_eq id "" ≡ false
    → env.parse_uuid id ≡ ok u
    → env.statement "DeleteByUserID" ≡ none
    → env.statement "DeleteUser" ≡ none
    → ((name : String) (t : Store) → env.others name t ≡ t)
    → (delete_user_data env id s ≡ (without u s, ok tt))
      × (any (has_id u) (without u s).users ≡ false)
      × (any (of_user u) (without u s).blacklist ≡ false)
unfolding delete_user_data delete_refresh_token_blacklist delete_user_row delete_by_user_id
    delete_user remove_revoked remove_user statement require_not pure raise lift attempt ◌>>=◌
delete_user_data_lem env id u s ne pu d1 d2 quiet = (
  rw
      (
        ne,
        pu,
        d1,
        d2,
        quiet,
        any-keep-not (of_user u) (env.others "DeleteByUserID" s).blacklist,
        quiet "DeleteByUserID" s,
      )
      refl,
  any-keep-not (has_id u) s.users,
  any-keep-not (of_user u) s.blacklist,
)
