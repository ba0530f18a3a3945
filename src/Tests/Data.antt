-- ===== src/Tests/Data.antt =====
-- Sample data.
use globalmail.Prelude.{none, some, List, [], ◌∷◌, ok, err}
use globalmail.Prelude.Int.{ℤ, pos}
use globalmail.Json.{empty, value, arr, int, str, cons, nil}
use globalmail.Types.{
  GlobalMail, MailStatus, Condition, UserProfile, UserGlobalMailState, UserMailStatus, OutboxEvent,
  OutboxStatus, external, GlobalMailChangedEvent, RewardGrant, GrantStatus,
  PublishIdempotencyRecord, IdempotencyStatus,
}
use globalmail.Ports.{MailRepository, CacheRepository}
use globalmail.Cache.Refresh.{Waiting, timed_out}

abbrev pub for_server : ℤ → Condition
for_server server = record {
  id = pos 0;
  mail_id = pos 8;
  type = "server";
  operator = "";
  value = value (int server);
}

abbrev pub mail_of : ℤ → List Condition → GlobalMail
mail_of id conditions = record {
  id = id;
  operator_id = pos 1;
  title = "title";
  content = "content";
  message_map = empty;
  loots = value (arr (cons (str "gold") (cons (str "gem") nil)));
  sender = "";
  category = "";
  template_id = pos 0;
  params = empty;
  external_url = "";
  start_time = 10;
  expire_time = 100;
  status = MailStatus.published;
  version = pos 1;
  conditions = conditions;
  create_time = 5;
  update_time = 5;
}

abbrev pub player : UserProfile
player = record {
  role_id = pos 3;
  uid = pos 3;
  server_id = pos 2;
  register_time = 1;
  vip_level = pos 0;
  total_recharge = pos 0;
  corps_level = pos 0;
  open_days = pos 0;
  package_type = "";
  country = "";
}

abbrev pub state_of : UserMailStatus → List ℤ → UserGlobalMailState
state_of status claimed = record {
  role_id = pos 3;
  server_id = pos 2;
  global_mail_id = pos 7;
  status = status;
  claimed_loot_indexes = claimed;
  claim_time = none;
  delete_time = none;
  version = pos 1;
  create_time = 6;
  update_time = 6;
}

abbrev pub grant_of : ℤ → RewardGrant
grant_of i = record {
  role_id = pos 3;
  server_id = pos 2;
  global_mail_id = pos 7;
  loot_index = i;
  loot = empty;
  grant_key = (pos 3, pos 7, i);
  status = GrantStatus.succeeded;
  external_reward_id = "";
  failure_reason = "";
  create_time = 6;
  update_time = 6;
}

abbrev pub event_of : ℤ → OutboxEvent
event_of version = record {
  id = pos 1;
  type = "GlobalMailChanged";
  aggregate_id = pos 7;
  version = version;
  payload = [];
  status = OutboxStatus.pending;
  retry_count = pos 0;
  next_retry_time = none;
  locked_by = "";
  locked_until = none;
  failure_reason = "";
  published_time = none;
  create_time = 5;
  update_time = 5;
}

abbrev pub changed_of : ℤ → GlobalMailChangedEvent
changed_of version = record {
  event_id = pos 1;
  global_mail_id = pos 7;
  version = version;
  action = "publish";
  timestamp = 5;
}

-- Stores that answer one mail and a version, which is the world itself.
abbrev pub plain_cache : CacheRepository ℤ
plain_cache = record {
  get_global_mail_version = λ w. (ok w, w);
  increment_global_mail_version = λ w. (ok w, w);
  advance_global_mail_version = λ v w. (ok v, v);
  get_global_mail = λ id w. (ok (some (mail_of id [])), w);
  set_global_mail = λ mail w. (ok tt, w);
  get_active_global_mail_ids = λ now w. (ok (pos 7 ∷ []), w);
  add_global_mail_to_indexes = λ mail w. (ok tt, w);
  get_user_profile = λ id w. (ok none, w);
}

-- Redis is down.
abbrev pub failing_cache : CacheRepository ℤ
failing_cache = record plain_cache { get_global_mail_version = λ w. (err (external 1), w) }

abbrev pub plain_mails : {W : Type 0} → MailRepository W
plain_mails = record {
  create_global_mail_with_outbox = λ mail event w. (ok tt, w);
  create_global_mail_with_outbox_and_idempotency = λ mail event r w. (ok tt, w);
  get_publish_idempotency = λ key w. (ok none, w);
  get_global_mail_by_id = λ id w. (ok (some (mail_of id [])), w);
  get_published_global_mails = λ now w. (ok [], w);
  get_user_states = λ role ids w. (ok [], w);
  save_user_state = λ state w. (ok tt, w);
}

abbrev pub no_wait : Waiting
no_wait = record { ticks = 0; finish = timed_out }

abbrev pub key_record : PublishIdempotencyRecord
key_record = record {
  key = "k";
  action = "publish";
  request_hash = "h";
  global_mail_id = pos 7;
  target_version = pos 1;
  status = IdempotencyStatus.succeeded;
  response_snapshot = [];
  create_time = 5;
  update_time = 5;
}
