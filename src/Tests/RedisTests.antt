-- ===== src/Tests/RedisTests.antt =====
-- The Redis repository at concrete inputs.
use globalmail.Prelude.{
  ◌==◌, ◌+◌, ◌*◌, ◌<◌, ◌≤◌, ◌⊎◌, ◌≡◌, ◌≢◌, refl, Bool, false, [], ◌∷◌, none, some, Result, ok, err,
  arith, In, int_eq, nat_eq, string_eq, triple_eq,
}
use globalmail.Prelude.Int.{pos, ◌+ℤ◌}
use globalmail.Prelude.Dict.{lookup, insert}
use globalmail.Types.{Time, Bytes, Error}
use globalmail.Cache.Conditions.{server_ids_from_conditions}
use globalmail.Commands.{
  CommandRequest, CommandResponse, Records, run_next, save, command_idempotency_conflict_response,
  IdempotentCommandDispatcher, dispatch, dispatch_keyed, stored_answer, from_store,
}
use globalmail.Redis.Client.{rebuild_lock}
use globalmail.Redis.Lifetimes.{minute, mail_ttl, mail_ttl_bounds}
use globalmail.Redis.Repository.{
  RedisCodec, unix, scan_ids, indexed_server_ids, index_writes, add_global_mail_to_indexes,
  get_active_global_mail_ids,
}
use globalmail.Redis.Lock.{
  try_acquire_rebuild_lock, release_rebuild_lock, release_script, Meanwhile, start, tries, releases,
  try_acquire_rebuild_lock-excludes,
}
use globalmail.Redis.Index.{add_global_mail_to_indexes-found, indexed_server_ids-eq}
use globalmail.Redis.CommandRecords.{
  command_store, get_command_idempotency, save_command_idempotency, dispatch_from_redis,
}
use globalmail.Tests.Data.{mail_of, for_server, player}
use globalmail.Tests.SmallRedis.{Cell, client, view, client-IsRedis}

abbrev unlocked : Cell
unlocked = record { value = none; member = none; hash = none }

abbrev locked : Cell
locked = record { value = some (1 ∷ []); member = none; hash = none }

abbrev same : Bytes → Bytes → Bool
same (a ∷ []) (b ∷ []) = a == b
same a b = false

abbrev released : Result Error (Unit {0})
released = ok tt

-- Another process tries to acquire the lock and then releases one that it does not hold.
others : Meanwhile client same view client-IsRedis (pos 4) (1 ∷ []) locked locked
unfolding try_acquire_rebuild_lock release_rebuild_lock release_script
others = releases (tries start (2 ∷ []) (pos 0) (ok none) refl) (2 ∷ []) (ok tt) refl refl

try_acquire_rebuild_lock-excludes_example :
    (try_acquire_rebuild_lock client same (pos 4) (2 ∷ []) (pos 0) locked
      ≢ (ok (some (release_rebuild_lock client same (pos 4) (2 ∷ []))), locked))
    × ((view.value unlocked (rebuild_lock (pos 4)) ≡ none) ⊎ ((x : Error) × (released ≡ err x)))
unfolding try_acquire_rebuild_lock release_rebuild_lock release_script
try_acquire_rebuild_lock-excludes_example =
    try_acquire_rebuild_lock-excludes client same view client-IsRedis (pos 4) (1 ∷ []) (2 ∷ [])
      (pos 0) (pos 0) (release_rebuild_lock client same (pos 4) (1 ∷ []))
      (release_rebuild_lock client same (pos 4) (2 ∷ [])) released unlocked locked locked unlocked
      locked refl refl others refl

abbrev response : CommandResponse
response = record { command_id = pos 1; seq = pos 1; code = pos 0; message = "ok"; payload = none }

abbrev codec : RedisCodec
codec = record {
  encode_mail = λ mail. some [];
  decode_mail = λ b. some (mail_of (pos 7) []);
  encode_profile = λ p. some [];
  decode_profile = λ b. some player;
  encode_response = λ r. some [];
  decode_response = λ b. some response;
  print_nano = λ t. t ∷ [];
}

abbrev clock : Cell → Time
clock c = 20

abbrev indexed : Cell
unfolding add_global_mail_to_indexes index_writes unix indexed_server_ids
indexed = (add_global_mail_to_indexes client codec clock (mail_of (pos 7) []) unlocked).1

add_global_mail_to_indexes-found_example : In (pos 7) (pos 7 ∷ [])
unfolding add_global_mail_to_indexes index_writes unix indexed_server_ids get_active_global_mail_ids
    scan_ids indexed
add_global_mail_to_indexes-found_example =
    add_global_mail_to_indexes-found client codec clock view client-IsRedis (mail_of (pos 7) []) 50
      (pos 7 ∷ []) unlocked indexed indexed refl (omega arith) refl

indexed_server_ids-eq_example :
    indexed_server_ids [] (for_server (pos 2) ∷ [])
    ≡ server_ids_from_conditions (for_server (pos 2) ∷ [])
indexed_server_ids-eq_example = indexed_server_ids-eq (for_server (pos 2) ∷ [])

mail_ttl_bounds_example :
    ((20 < 100) × ((pos 20 +ℤ mail_ttl 100 20) ≡ pos (100 + 10 * minute)))
    ⊎ ((100 ≤ 20) × (mail_ttl 100 20 ≡ pos (70 * minute)))
mail_ttl_bounds_example = mail_ttl_bounds 100 20 (omega arith)

abbrev request : CommandRequest
request = record {
  command_id = pos 1;
  uid = pos 3;
  role_id = pos 3;
  server_id = pos 1;
  seq = pos 1;
  payload = none;
}

abbrev dispatcher : IdempotentCommandDispatcher Cell
dispatcher = record {
  next = λ req w. (ok response, w);
  store = some (command_store client codec);
  ttl = 0;
  request_hash = λ payload. some "h";
}

-- The first player server runs the command, the second finds its answer.
abbrev saved_records : Records
saved_records = ((pos 3, pos 1, pos 1), record { hash = "h"; response = response }) ∷ []

abbrev answered : Cell
answered = record { value = none; member = none; hash = some ("h", []) }

dispatch_from_redis_example :
    (response ≡ command_idempotency_conflict_response request)
    ⊎ ((response ≡ response) × (answered ≡ answered))
unfolding dispatch dispatch_keyed stored_answer from_store run_next save command_store
    get_command_idempotency save_command_idempotency lookup insert
dispatch_from_redis_example =
    dispatch_from_redis client codec view client-IsRedis dispatcher dispatcher request "h" response
      response [] saved_records [] saved_records unlocked answered answered answered refl refl refl
      refl refl (λ payload e. refl) refl refl refl refl refl
