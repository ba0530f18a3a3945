-- ===== src/Tests/TableTests.antt =====
-- The MySQL repositories at concrete inputs.
use globalmail.Prelude.{
  ◌≡◌, ◌≢◌, true, refl, List, [], ◌∷◌, ok, String, pair_eq, triple_eq, int_eq, string_eq, some,
  Option,
}
use globalmail.Prelude.Int.{ℤ, pos, positive_or}
use globalmail.Types.{Error, Bytes, GlobalMail, PublishIdempotencyRecord, unread, deleted, failed}
use globalmail.Mysql.Table.{Table, Puts, Same}
use globalmail.Mysql.Models.{
  UserGlobalMailStateModel, UserGlobalMailRewardLedgerModel, UserBackpackRewardModel,
  GlobalMailOutboxEventModel, GlobalMailIdempotencyModel,
}
use globalmail.Mysql.Mapper.{
  to_state_model, to_outbox_model, to_idempotency_record, to_idempotency_model, condition_rows,
}
use globalmail.Mysql.Mails.{
  MailTables, IsRead, KeepsRecord, create_conditions, create_record, create_rows,
  create_global_mail_with_outbox_and_idempotency, get_publish_idempotency,
  create-get_publish_idempotency,
}
use globalmail.Mysql.States.{
  by_name, save_user_state, stored, assign, preserve_deleted, save_user_state-stored,
  save_user_state-deleted,
}
use globalmail.Mysql.Ledger.{
  ledger_row, reserve_global_mail_reward, backpack_row, grant_backpack_reward,
  mark_global_mail_reward_succeeded, succeeded_row,
}
use globalmail.Mysql.Outbox.Lifecycle.{attempts, attempts-status}
use globalmail.Backpack.{pending_grant, backpack_grant, settle, grant_reserved}
use globalmail.Backpack.OnMysql.{mysql_ledger, mysql_backpack}
use globalmail.Backpack.AtMostOnce.{grant_known_key, grant_at_most_once}
use globalmail.Tests.Stores.{forgetful, find, listed, listed-IsTable}
use globalmail.Tests.Data.{state_of, grant_of, event_of, mail_of, key_record}

abbrev states : Table (List UserGlobalMailStateModel) (ℤ × ℤ) UserGlobalMailStateModel
states = listed (λ m. (m.role_id, m.global_mail_id)) (λ r. r)

abbrev state_row : UserGlobalMailStateModel
unfolding to_state_model
state_row = to_state_model (state_of unread [])

abbrev deleted_row : UserGlobalMailStateModel
unfolding to_state_model
deleted_row = to_state_model (state_of deleted [])

save_user_state-stored_example :
    Puts states
      (pos 3, pos 7)
      (some (stored deleted_row (some state_row)))
      (state_row ∷ [])
      (stored deleted_row (some state_row) ∷ state_row ∷ [])
unfolding save_user_state assign preserve_deleted to_state_model find
save_user_state-stored_example =
    save_user_state-stored states
      (listed-IsTable (λ m. (m.role_id, m.global_mail_id)) (λ r. r) (λ r. refl) (λ r. refl))
      (λ m. refl) (state_of deleted []) (state_row ∷ [])
      (stored deleted_row (some state_row) ∷ state_row ∷ []) refl

save_user_state-deleted_example :
    states.rows (deleted_row ∷ deleted_row ∷ []) (pos 3, pos 7) ≡ some deleted_row
unfolding save_user_state assign preserve_deleted to_state_model find
save_user_state-deleted_example =
    save_user_state-deleted states
      (listed-IsTable (λ m. (m.role_id, m.global_mail_id)) (λ r. r) (λ r. refl) (λ r. refl))
      (λ m. refl) by_name (state_of unread []) deleted_row (deleted_row ∷ [])
      (deleted_row ∷ deleted_row ∷ []) refl refl refl

abbrev ledger :
    Table (List UserGlobalMailRewardLedgerModel) (ℤ × ℤ × ℤ) UserGlobalMailRewardLedgerModel
ledger = listed (λ m. m.grant_key) (λ r. r)

abbrev backpack : Table (List UserBackpackRewardModel) (ℤ × ℤ × ℤ) UserBackpackRewardModel
backpack = listed (λ m. m.grant_key) (λ r. r)

abbrev text : Error → String
text e = "error"

abbrev external_id : ℤ × ℤ × ℤ → String
external_id k = "playersrv-backpack:3:7:0"

abbrev granted_row : UserGlobalMailRewardLedgerModel
unfolding ledger_row pending_grant
granted_row = ledger_row (pending_grant 20 (grant_of (pos 0))) 20

grant_known_key_example :
    ((grant_reserved
        (mysql_ledger ledger backpack text external_id 20)
        (mysql_backpack ledger backpack text external_id 20)
        30
        (grant_of (pos 0))
        (granted_row ∷ [], [])).0
      ≢ ok true)
    × Same ledger
        (granted_row ∷ [])
        (grant_reserved
          (mysql_ledger ledger backpack text external_id 20)
          (mysql_backpack ledger backpack text external_id 20)
          30
          (grant_of (pos 0))
          (granted_row ∷ [], [])).1.0
    × ((grant_reserved
          (mysql_ledger ledger backpack text external_id 20)
          (mysql_backpack ledger backpack text external_id 20)
          30
          (grant_of (pos 0))
          (granted_row ∷ [], [])).1.1
        ≡ [])
unfolding find ledger_row pending_grant
grant_known_key_example =
    grant_known_key ledger backpack text external_id 20
      (listed-IsTable (λ m. m.grant_key) (λ r. r) (λ r. refl) (λ r. refl)) (λ m. refl) 30
      (grant_of (pos 0)) (granted_row ∷ []) [] (λ e. cc e)

grant_at_most_once_example :
    ((grant_reserved
        (mysql_ledger ledger backpack text external_id 20)
        (mysql_backpack ledger backpack text external_id 20)
        30
        (grant_of (pos 0))
        (succeeded_row "playersrv-backpack:3:7:0" 20 granted_row ∷ granted_row ∷ [], [])).0
      ≢ ok true)
    × ((grant_reserved
          (mysql_ledger ledger backpack text external_id 20)
          (mysql_backpack ledger backpack text external_id 20)
          30
          (grant_of (pos 0))
          (succeeded_row "playersrv-backpack:3:7:0" 20 granted_row ∷ granted_row ∷ [], [])).1.1
        ≡ [])
unfolding grant_reserved settle pending_grant backpack_grant reserve_global_mail_reward
    mark_global_mail_reward_succeeded grant_backpack_reward backpack_row ledger_row find
grant_at_most_once_example =
    grant_at_most_once ledger backpack text external_id 20
      (listed-IsTable (λ m. m.grant_key) (λ r. r) (λ r. refl) (λ r. refl)) (λ m. refl) 20 30
      (grant_of (pos 0)) (grant_of (pos 0)) []
      (succeeded_row "playersrv-backpack:3:7:0" 20 granted_row ∷ granted_row ∷ []) []
      (backpack_row (backpack_grant 20 (grant_of (pos 0))) ∷ []) [] refl refl

attempts-status_example :
    (attempts 5 (pos 5) 30 "error" 20 (to_outbox_model (event_of (pos 1)))).status ≡ failed
unfolding to_outbox_model positive_or
attempts-status_example =
    attempts-status 4 (pos 5) 30 "error" 20 (to_outbox_model (event_of (pos 1))) refl

abbrev outbox : Table (List GlobalMailOutboxEventModel) ℤ GlobalMailOutboxEventModel
outbox = listed (λ m. m.event_id) (λ r. r)

abbrev event_row : GlobalMailOutboxEventModel
unfolding to_outbox_model
event_row = to_outbox_model (event_of (pos 1))

-- Columns that cut these times to the second 0, and write every snapshot in the same form.
abbrev rounded : GlobalMailIdempotencyModel → GlobalMailIdempotencyModel
rounded m = record m { response_snapshot = []; create_time = 0; update_time = 0 }

abbrev decode_any : Bytes → Option GlobalMail
decode_any b = some (mail_of (pos 7) [])

rounded-keeps : KeepsRecord decode_any rounded
unfolding to_idempotency_record
rounded-keeps m = record {
  key = refl;
  action = refl;
  request_hash = refl;
  global_mail_id = refl;
  target_version = refl;
  status = refl;
  snapshot = refl;
}

abbrev mail_tables : MailTables (List GlobalMailIdempotencyModel)
mail_tables = record {
  mails = forgetful (λ m. m.global_mail_id);
  conditions = forgetful (λ c. c.condition_id);
  outbox = forgetful (λ e. e.event_id);
  idempotency = listed (λ m. m.idempotency_key) rounded;
  transaction = λ m. m;
}

create-get_publish_idempotency_example :
    (p : PublishIdempotencyRecord) × (some (record key_record { create_time = 0; update_time = 0 })
      ≡ some p)
    × IsRead decode_any key_record p
unfolding create_global_mail_with_outbox_and_idempotency create_rows create_conditions
    condition_rows create_record get_publish_idempotency to_idempotency_model to_idempotency_record
    find
create-get_publish_idempotency_example =
    create-get_publish_idempotency mail_tables (λ m d d' h. h)
      (listed-IsTable (λ m. m.idempotency_key) rounded (λ r. refl) (λ r. refl)) (λ m. refl)
      decode_any rounded-keeps (mail_of (pos 7) []) (event_of (pos 1)) key_record
      (some (record key_record { create_time = 0; update_time = 0 })) []
      (to_idempotency_model key_record ∷ []) (to_idempotency_model key_record ∷ []) refl refl
