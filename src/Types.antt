-- ===== src/Types.antt =====
-- domain/globalmail/types.go and domain/routing/types.go. A string type with named constants is a
-- data type of those constants and `unset`, the empty string. A time is the number of nanoseconds
-- since Go's zero time, so that `IsZero` is a test against 0; a *time.Time is an option.
use globalmail.Prelude.{ℕ, String, List, Option, Bool, true, false}
use globalmail.Prelude.Int.{ℤ}
use globalmail.Json.{RawMessage}

abbrev pub Time : Type 0
Time = ℕ

abbrev pub Duration : Type 0
Duration = ℕ

-- The bytes of an encoded message, which the server only hands on.
abbrev pub Bytes : Type 0
Bytes = List ℕ

pub data MailStatus : Type 0 where
  draft auditing published offline deleted unset : MailStatus

pub data UserMailStatus : Type 0 where
  unread read claimed deleted unset : UserMailStatus

pub data OutboxStatus : Type 0 where
  pending processing published failed : OutboxStatus

pub data IdempotencyStatus : Type 0 where
  succeeded : IdempotencyStatus

-- The ledger's `Status string` takes these values.
pub data GrantStatus : Type 0 where
  unset pending succeeded failed : GrantStatus

pub record Condition : Type 0 where
  pub id : ℤ
  pub mail_id : ℤ
  pub type : String
  pub operator : String
  pub value : RawMessage

pub record GlobalMail : Type 0 where
  pub id : ℤ
  pub operator_id : ℤ
  pub title : String
  pub content : String
  pub message_map : RawMessage
  pub loots : RawMessage
  pub sender : String
  pub category : String
  pub template_id : ℤ
  pub params : RawMessage
  pub external_url : String
  pub start_time : Time
  pub expire_time : Time
  pub status : MailStatus
  pub version : ℤ
  pub conditions : List Condition
  pub create_time : Time
  pub update_time : Time

pub record UserProfile : Type 0 where
  pub role_id : ℤ
  pub uid : ℤ
  pub server_id : ℤ
  pub register_time : Time
  pub vip_level : ℤ
  pub total_recharge : ℤ
  pub corps_level : ℤ
  pub open_days : ℤ
  pub package_type : String
  pub country : String

pub record UserGlobalMailState : Type 0 where
  pub role_id : ℤ
  pub server_id : ℤ
  pub global_mail_id : ℤ
  pub status : UserMailStatus
  pub claimed_loot_indexes : List ℤ
  pub claim_time : Option Time
  pub delete_time : Option Time
  pub version : ℤ
  pub create_time : Time
  pub update_time : Time

pub record RewardGrant : Type 0 where
  pub role_id : ℤ
  pub server_id : ℤ
  pub global_mail_id : ℤ
  pub loot_index : ℤ
  pub loot : RawMessage
  pub grant_key : ℤ × ℤ × ℤ
  pub status : GrantStatus
  pub external_reward_id : String
  pub failure_reason : String
  pub create_time : Time
  pub update_time : Time

pub record BackpackGrant : Type 0 where
  pub role_id : ℤ
  pub server_id : ℤ
  pub grant_key : ℤ × ℤ × ℤ
  pub loot_index : ℤ
  pub loot : RawMessage
  pub create_time : Time

pub record OutboxEvent : Type 0 where
  pub id : ℤ
  pub type : String
  pub aggregate_id : ℤ
  pub version : ℤ
  pub payload : Bytes
  pub status : OutboxStatus
  pub retry_count : ℤ
  pub next_retry_time : Option Time
  pub locked_by : String
  pub locked_until : Option Time
  pub failure_reason : String
  pub published_time : Option Time
  pub create_time : Time
  pub update_time : Time

pub record GlobalMailChangedEvent : Type 0 where
  pub event_id : ℤ
  pub global_mail_id : ℤ
  pub version : ℤ
  pub action : String
  pub timestamp : Time

pub record PublishIdempotencyRecord : Type 0 where
  pub key : String
  pub action : String
  pub request_hash : String
  pub global_mail_id : ℤ
  pub target_version : ℤ
  pub status : IdempotencyStatus
  pub response_snapshot : Bytes
  pub create_time : Time
  pub update_time : Time

pub record LoginToken : Type 0 where
  pub token : String
  pub uid : ℤ
  pub role_id : ℤ
  pub server_id : ℤ
  pub expire_at : Time

pub record GateConn : Type 0 where
  pub uid : ℤ
  pub gateway_addr : String
  pub client_ip : String
  pub conn_id : String
  pub conn_time : Time
  pub last_active_time : Time
  pub device_id : String
  pub expire_at : Time

pub record SrvRouter : Type 0 where
  pub uid : ℤ
  pub srv_name : String
  pub instance_id : String
  pub frpc_addr : String
  pub grpc_addr : String
  pub version : ℤ
  pub expire_at : Time

-- `errors.New` and `fmt.Errorf` of the source, one constructor each. `external n` is an error
-- that a store, a broker or another service returned.
pub data Error : Type 0 where
  external : ℕ → Error
  decode_error encode_error : Error
  mail_not_visible loot_index_invalid loot_index_out_of_range : Error
  title_required content_required times_required expire_not_after_start : Error
  idempotency_conflict reward_service_incomplete invalid_login_request : Error
  command_definition_required command_handler_required command_already_registered : Error
  service_instance_not_found : Error
  session_not_found session_mismatch connection_manager_required no_player_server : Error
  mail_not_found : ℤ → Error

abbrev pub is_deleted : UserMailStatus → Bool
is_deleted UserMailStatus.deleted = true
is_deleted s = false

abbrev pub is_published : MailStatus → Bool
is_published MailStatus.published = true
is_published s = false
