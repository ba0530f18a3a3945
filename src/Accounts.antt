-- ===== src/Accounts.antt =====
-- app/playersrv/account_service.go: the login of a player and the users in memory.
use globalmail.Prelude.{
  ◌||◌, Bool, true, false, Option, none, some, List, [], ◌∷◌, Result, ok, err, Action, pure, raise,
  ◌>>=◌, int_eq, if◌then◌else◌,
}
use globalmail.Prelude.Int.{ℤ, pos, ◌+ℤ◌, wrap64, wrap32, leb_ℤ}
use globalmail.Prelude.Dict.{Dict, lookup, insert}
use globalmail.Types.{Error, invalid_login_request}
pub mod RoleIds
pub mod Shared

pub record UserIdentity : Type 0 where
  pub uid : ℤ
  pub role_id : ℤ
  pub server_id : ℤ

pub record UserRepository (W : Type 0) : Type 0 where
  pub get_or_create_user : ℤ → ℤ → Action W Error (UserIdentity × Bool)

pub record LoginResponse : Type 0 where
  pub uid : ℤ
  pub role_id : ℤ
  pub server_id : ℤ
  pub is_new_user : Bool

unfoldable pub login : {W : Type 0} → UserRepository W → ℤ → ℤ → Action W Error LoginResponse
login users uid server_id =
    if leb_ℤ uid (pos 0) || leb_ℤ server_id (pos 0) then raise invalid_login_request else (do
      found ← users.get_or_create_user uid server_id
      pure (record {
        uid = found.0.uid;
        role_id = found.0.role_id;
        server_id = wrap32 found.0.server_id;
        is_new_user = found.1;
      }))

pub record MemoryUserRepository : Type 0 where
  pub next_id : ℤ
  pub users : Dict ℤ UserIdentity

unfoldable pub new_memory_user_repository : MemoryUserRepository
new_memory_user_repository = record { next_id = pos 100000; users = [] }

unfoldable pub new_user : ℤ → ℤ → MemoryUserRepository → MemoryUserRepository
new_user uid server_id r =
    let id = wrap64 (r.next_id +ℤ pos 1) in
    record {
      next_id = id;
      users = insert uid (record { uid = uid; role_id = id; server_id = server_id }) r.users;
    }

unfoldable pub get_or_create_user :
    ℤ → ℤ → MemoryUserRepository → (UserIdentity × Bool) × MemoryUserRepository
unfolding new_user
get_or_create_user uid server_id r = elim (lookup uid r.users) [
  | some user ↦ ((user, false), r)
  | none ↦
      let id = wrap64 (r.next_id +ℤ pos 1) in
      ((record { uid = uid; role_id = id; server_id = server_id }, true), new_user uid server_id r)
]
