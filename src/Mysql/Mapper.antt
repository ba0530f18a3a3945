-- ===== src/Mysql/Mapper.antt =====
-- data/mysql/mapper.go: between the domain's records and the rows.
use globalmail.Prelude.{◌≡◌, refl, true, Option, none, some, List, [], ◌∷◌, map, All, arith}
use globalmail.Prelude.Int.{ℤ, in_range, ℤ_half}
use globalmail.Json.{decode_int_list, encode_int_list, decode-encode_int_list}
use globalmail.Types.{
  GlobalMail, Condition, OutboxEvent, PublishIdempotencyRecord, UserGlobalMailState,
}
use globalmail.Mysql.Models.{
  GlobalMailModel, GlobalMailConditionModel, GlobalMailOutboxEventModel, GlobalMailIdempotencyModel,
  UserGlobalMailStateModel,
}

unfoldable pub to_global_mail_model : GlobalMail → GlobalMailModel
to_global_mail_model mail = record {
  global_mail_id = mail.id;
  operator_id = mail.operator_id;
  title = mail.title;
  content = mail.content;
  message_map = mail.message_map;
  loots = mail.loots;
  sender = mail.sender;
  category = mail.category;
  template_id = mail.template_id;
  params = mail.params;
  external_url = mail.external_url;
  start_time = mail.start_time;
  expire_time = mail.expire_time;
  status = mail.status;
  version = mail.version;
  create_time = mail.create_time;
  update_time = mail.update_time;
}

unfoldable pub to_condition : GlobalMailConditionModel → Condition
to_condition c = record {
  id = c.condition_id;
  mail_id = c.global_mail_id;
  type = c.condition_type;
  operator = c.operator;
  value = c.condition_value;
}

unfoldable pub to_global_mail : GlobalMailModel → List GlobalMailConditionModel → GlobalMail
unfolding to_condition
to_global_mail model conditions = record {
  id = model.global_mail_id;
  operator_id = model.operator_id;
  title = model.title;
  content = model.content;
  message_map = model.message_map;
  loots = model.loots;
  sender = model.sender;
  category = model.category;
  template_id = model.template_id;
  params = model.params;
  external_url = model.external_url;
  start_time = model.start_time;
  expire_time = model.expire_time;
  status = model.status;
  version = model.version;
  conditions = map to_condition conditions;
  create_time = model.create_time;
  update_time = model.update_time;
}

unfoldable pub to_condition_model : Condition → GlobalMailConditionModel
to_condition_model c = record {
  condition_id = c.id;
  global_mail_id = c.mail_id;
  condition_type = c.type;
  operator = c.operator;
  condition_value = c.value;
  create_time = 0;
  update_time = 0;
}

-- The rows that `createGlobalMailWithOutbox` writes for the conditions of a mail.
unfoldable pub condition_rows : GlobalMail → List Condition → List GlobalMailConditionModel
unfolding to_condition_model
condition_rows mail [] = []
condition_rows mail (c ∷ cs) =
    record (to_condition_model (record c { mail_id = mail.id })) {
      create_time = mail.create_time;
      update_time = mail.update_time;
    }
    ∷ condition_rows mail cs

unfoldable pub to_outbox_model : OutboxEvent → GlobalMailOutboxEventModel
to_outbox_model event = record {
  event_id = event.id;
  event_type = event.type;
  aggregate_id = event.aggregate_id;
  version = event.version;
  payload = event.payload;
  status = event.status;
  retry_count = event.retry_count;
  next_retry_time = event.next_retry_time;
  locked_by = event.locked_by;
  locked_until = event.locked_until;
  failure_reason = event.failure_reason;
  published_time = event.published_time;
  create_time = event.create_time;
  update_time = event.update_time;
}

unfoldable pub to_outbox_event : GlobalMailOutboxEventModel → OutboxEvent
to_outbox_event model = record {
  id = model.event_id;
  type = model.event_type;
  aggregate_id = model.aggregate_id;
  version = model.version;
  payload = model.payload;
  status = model.status;
  retry_count = model.retry_count;
  next_retry_time = model.next_retry_time;
  locked_by = model.locked_by;
  locked_until = model.locked_until;
  failure_reason = model.failure_reason;
  published_time = model.published_time;
  create_time = model.create_time;
  update_time = model.update_time;
}

unfoldable pub to_idempotency_model : PublishIdempotencyRecord → GlobalMailIdempotencyModel
to_idempotency_model r = record {
  idempotency_key = r.key;
  action = r.action;
  request_hash = r.request_hash;
  global_mail_id = r.global_mail_id;
  target_version = r.target_version;
  status = r.status;
  response_snapshot = r.response_snapshot;
  create_time = r.create_time;
  update_time = r.update_time;
}

unfoldable pub to_idempotency_record : GlobalMailIdempotencyModel → PublishIdempotencyRecord
to_idempotency_record model = record {
  key = model.idempotency_key;
  action = model.action;
  request_hash = model.request_hash;
  global_mail_id = model.global_mail_id;
  target_version = model.target_version;
  status = model.status;
  response_snapshot = model.response_snapshot;
  create_time = model.create_time;
  update_time = model.update_time;
}

-- A nil slice and an empty one are the same list here. Go writes the nil one as null, which is read
-- back as no index, like [].
unfoldable pub to_state_model : UserGlobalMailState → UserGlobalMailStateModel
to_state_model state = record {
  role_id = state.role_id;
  server_id = state.server_id;
  global_mail_id = state.global_mail_id;
  status = state.status;
  claimed_loot_indexes = encode_int_list state.claimed_loot_indexes;
  claim_time = state.claim_time;
  delete_time = state.delete_time;
  version = state.version;
  create_time = state.create_time;
  update_time = state.update_time;
}

-- A decoding error is dropped and leaves no index.
abbrev pub or_no_index : Option (List ℤ) → List ℤ
or_no_index none = []
or_no_index (some is) = is

unfoldable pub to_state : UserGlobalMailStateModel → UserGlobalMailState
to_state model = record {
  role_id = model.role_id;
  server_id = model.server_id;
  global_mail_id = model.global_mail_id;
  status = model.status;
  claimed_loot_indexes = or_no_index (decode_int_list model.claimed_loot_indexes);
  claim_time = model.claim_time;
  delete_time = model.delete_time;
  version = model.version;
  create_time = model.create_time;
  update_time = model.update_time;
}

-- A player's state comes back from its row, if its loot indexes are 64-bit numbers.
to_state-to_state_model :
    (s : UserGlobalMailState)
    → All (λ i. in_range ℤ_half i ≡ true) s.claimed_loot_indexes
    → to_state (to_state_model s) ≡ s
unfolding to_state to_state_model
to_state-to_state_model s h = ground (arith, decode-encode_int_list s.claimed_loot_indexes h)

-- A condition that names the mail.
abbrev of_mail : ℤ → Condition → Condition
of_mail id c = record c { mail_id = id }

conditions_back :
    (mail : GlobalMail) (cs : List Condition)
    → map to_condition (condition_rows mail cs) ≡ map (of_mail mail.id) cs
unfolding condition_rows to_condition
conditions_back mail [] = refl
conditions_back mail (c ∷ cs) = ground (arith, conditions_back mail cs)

-- Of the rows that are written for a mail and its conditions, the reading makes the same mail, with
-- all its conditions in their order, each now naming the mail, whatever mail it named before.
to_global_mail-to_global_mail_model :
    (mail : GlobalMail)
    → to_global_mail (to_global_mail_model mail) (condition_rows mail mail.conditions)
      ≡ record mail { conditions = map (of_mail mail.id) mail.conditions }
unfolding to_global_mail to_global_mail_model
to_global_mail-to_global_mail_model mail = ground (arith, conditions_back mail mail.conditions)

-- Outbox events and idempotency records come back unchanged, both ways.
outbox_and_idempotency_roundtrip :
    (event : OutboxEvent) (row : GlobalMailOutboxEventModel) (r : PublishIdempotencyRecord)
    (rowi : GlobalMailIdempotencyModel)
    → (to_outbox_event (to_outbox_model event) ≡ event)
      × (to_outbox_model (to_outbox_event row) ≡ row)
      × (to_idempotency_record (to_idempotency_model r) ≡ r)
      × (to_idempotency_model (to_idempotency_record rowi) ≡ rowi)
unfolding to_outbox_event to_outbox_model to_idempotency_record to_idempotency_model
outbox_and_idempotency_roundtrip event row r rowi = (refl, refl, refl, refl)
