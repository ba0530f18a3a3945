-- ===== src/Mysql/Models.antt =====
-- data/mysql/models.go: the rows of the tables. A status column holds the text of the domain's
-- status; it is modelled by the status. A grant key, "role:mail:index", is the three numbers that it
-- is printed from.
use globalmail.Prelude.{String, Option}
use globalmail.Prelude.Int.{ℤ}
use globalmail.Json.{RawMessage}
use globalmail.Types.{
  Time, Bytes, MailStatus, UserMailStatus, OutboxStatus, IdempotencyStatus, GrantStatus,
}

pub record GlobalMailModel : Type 0 where
  pub global_mail_id : ℤ
  pub operator_id : ℤ
  pub title : String
  pub content : String
  pub message_map : RawMessage
  pub loots : RawMessage
  pub sender : String
  pub category : String
  pub template_id : ℤ
  pub params : RawMessage
  pub external_url : String
  pub start_time : Time
  pub expire_time : Time
  pub status : MailStatus
  pub version : ℤ
  pub create_time : Time
  pub update_time : Time

pub record GlobalMailConditionModel : Type 0 where
  pub condition_id : ℤ
  pub global_mail_id : ℤ
  pub condition_type : String
  pub operator : String
  pub condition_value : RawMessage
  pub create_time : Time
  pub update_time : Time

pub record UserGlobalMailStateModel : Type 0 where
  pub role_id : ℤ
  pub server_id : ℤ
  pub global_mail_id : ℤ
  pub status : UserMailStatus
  pub claimed_loot_indexes : RawMessage
  pub claim_time : Option Time
  pub delete_time : Option Time
  pub version : ℤ
  pub create_time : Time
  pub update_time : Time

pub record UserGlobalMailRewardLedgerModel : Type 0 where
  pub grant_key : ℤ × ℤ × ℤ
  pub role_id : ℤ
  pub server_id : ℤ
  pub global_mail_id : ℤ
  pub loot_index : ℤ
  pub status : GrantStatus
  pub external_reward_id : String
  pub failure_reason : String
  pub create_time : Time
  pub update_time : Time

pub record UserBackpackRewardModel : Type 0 where
  pub grant_key : ℤ × ℤ × ℤ
  pub role_id : ℤ
  pub server_id : ℤ
  pub loot_index : ℤ
  pub loot : RawMessage
  pub create_time : Time

pub record GlobalMailOutboxEventModel : Type 0 where
  pub event_id : ℤ
  pub event_type : String
  pub aggregate_id : ℤ
  pub version : ℤ
  pub payload : Bytes
  pub status : OutboxStatus
  pub retry_count : ℤ
  pub next_retry_time : Option Time
  pub locked_by : String
  pub locked_until : Option Time
  pub failure_reason : String
  pub published_time : Option Time
  pub create_time : Time
  pub update_time : Time

pub record GlobalMailIdempotencyModel : Type 0 where
  pub idempotency_key : String
  pub action : String
  pub request_hash : String
  pub global_mail_id : ℤ
  pub target_version : ℤ
  pub status : IdempotencyStatus
  pub response_snapshot : Bytes
  pub create_time : Time
  pub update_time : Time
