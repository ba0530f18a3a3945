-- ===== src/Tests/CommandTests.antt =====
-- Commands and accounts at concrete inputs.
use globalmail.Prelude.{
  ℕ, suc, ◌≡◌, ◌⊎◌, refl, [], ◌∷◌, none, some, ok, arith, int_eq, triple_eq, string_eq,
}
use globalmail.Prelude.Int.{pos, wrap64, ◌+ℤ◌}
use globalmail.Prelude.Dict.{lookup, insert}
use globalmail.Commands.{
  CommandRequest, CommandResponse, IdempotentCommandDispatcher, Records,
  command_idempotency_conflict_response, save, run_next, from_store, stored_answer, dispatch_keyed,
  dispatch,
}
use globalmail.Commands.Once.{dispatch_again}
use globalmail.Accounts.{
  UserIdentity, MemoryUserRepository, new_memory_user_repository, new_user, get_or_create_user,
}
use globalmail.Accounts.RoleIds.{role_ids_apart}
use globalmail.Accounts.Shared.{role_ids_shared}

abbrev request : CommandRequest
request = record {
  command_id = pos 1;
  uid = pos 3;
  role_id = pos 3;
  server_id = pos 1;
  seq = pos 1;
  payload = none;
}

abbrev response : CommandResponse
response = record { command_id = pos 1; seq = pos 1; code = pos 0; message = "ok"; payload = none }

-- The world counts the commands that were run.
abbrev dispatcher : IdempotentCommandDispatcher ℕ
dispatcher = record {
  next = λ req w. (ok response, suc w);
  store = none;
  ttl = 0;
  request_hash = λ payload. some "h";
}

abbrev remembered : Records
remembered = ((pos 3, pos 1, pos 1), record { hash = "h"; response = response }) ∷ []

dispatch_again_example :
    (response ≡ command_idempotency_conflict_response request)
    ⊎ (dispatch dispatcher request (remembered, 9) ≡ (ok response, (remembered, 9)))
unfolding dispatch dispatch_keyed stored_answer from_store run_next save lookup insert
dispatch_again_example = dispatch_again dispatcher request response [] remembered 0 1 9 refl refl

abbrev first_user : UserIdentity
first_user = record { uid = pos 4; role_id = pos 100001; server_id = pos 2 }

abbrev one_user : MemoryUserRepository
one_user = record { next_id = pos 100001; users = (pos 4, first_user) ∷ [] }

role_ids_apart_example : pos 4 ≡ pos 4
unfolding new_memory_user_repository get_or_create_user new_user lookup insert wrap64 ◌+ℤ◌
role_ids_apart_example =
    role_ids_apart ((pos 4, pos 2) ∷ []) (pos 4) (pos 4) first_user first_user (omega arith) refl
      refl refl

-- Users 4 and 5 log in first, each at a player server of its own.
role_ids_shared_example : pos 100001 ≡ pos 100001
unfolding new_memory_user_repository get_or_create_user new_user lookup wrap64 ◌+ℤ◌
role_ids_shared_example =
    role_ids_shared [] [] (pos 4) (pos 5) (pos 2) (pos 2) (omega arith) (omega arith) refl refl refl
