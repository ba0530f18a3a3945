-- ===== src/MailCommands.antt =====
-- app/playersrv/mail_rpc.go: the messages of the mail service, and their conversions. An int32 field
-- is an integer that a conversion wraps; `format` prints a time that is not zero.
use globalmail.Prelude.{ℕ, String, List, Option, none, some, map, ◌==◌, nat_eq, if◌then◌else◌}
use globalmail.Prelude.Int.{ℤ, pos, wrap32}
use globalmail.Json.{RawMessage}
use globalmail.Types.{
  Time, GlobalMail, UserProfile, UserGlobalMailState, MailStatus, UserMailStatus, draft, auditing,
  published, offline, unread, read, claimed,
}
use globalmail.PlayerMail.Service.{MailItem}
pub mod Server
pub mod Handlers
pub mod Identity
pub mod Serves
pub mod Roundtrip

pub record RpcUserProfile : Type 0 where
  pub uid : ℤ
  pub role_id : ℤ
  pub server_id : ℤ
  pub vip_level : ℤ
  pub total_recharge : ℤ
  pub corps_level : ℤ
  pub open_days : ℤ
  pub package_type : String
  pub country : String

pub record ListGlobalMailsRequest : Type 0 where
  pub profile : Option RpcUserProfile

pub record GlobalMailStateRequest : Type 0 where
  pub profile : Option RpcUserProfile
  pub global_mail_id : ℤ

pub record ClaimGlobalMailRequest : Type 0 where
  pub profile : Option RpcUserProfile
  pub global_mail_id : ℤ
  pub loot_indexes : List ℤ

pub record GlobalMailItem : Type 0 where
  pub global_mail_id : ℤ
  pub title : String
  pub content : String
  pub message_map : RawMessage
  pub loots : RawMessage
  pub sender : String
  pub category : String
  pub template_id : ℤ
  pub params : RawMessage
  pub external_url : String
  pub start_time : String
  pub expire_time : String
  pub status : String
  pub version : ℤ
  pub user_status : String
  pub claimed_loot_indexes : List ℤ

pub record ListGlobalMailsResponse : Type 0 where
  pub mails : List GlobalMailItem

pub record GlobalMailStateResponse : Type 0 where
  pub role_id : ℤ
  pub server_id : ℤ
  pub global_mail_id : ℤ
  pub status : String
  pub claimed_loot_indexes : List ℤ
  pub claim_time : String
  pub delete_time : String
  pub version : ℤ

-- The strings that the constants stand for.
abbrev pub mail_status_string : MailStatus → String
mail_status_string draft = "draft"
mail_status_string auditing = "auditing"
mail_status_string published = "published"
mail_status_string offline = "offline"
mail_status_string MailStatus.deleted = "deleted"
mail_status_string MailStatus.unset = ""

abbrev pub user_status_string : UserMailStatus → String
user_status_string unread = "unread"
user_status_string read = "read"
user_status_string claimed = "claimed"
user_status_string UserMailStatus.deleted = "deleted"
user_status_string UserMailStatus.unset = ""

-- The register time is no field of the message and stays zero.
unfoldable pub to_domain_profile : Option RpcUserProfile → UserProfile
to_domain_profile none = record {
  role_id = pos 0;
  uid = pos 0;
  server_id = pos 0;
  register_time = 0;
  vip_level = pos 0;
  total_recharge = pos 0;
  corps_level = pos 0;
  open_days = pos 0;
  package_type = "";
  country = "";
}
to_domain_profile (some p) = record {
  role_id = p.role_id;
  uid = p.uid;
  server_id = p.server_id;
  register_time = 0;
  vip_level = p.vip_level;
  total_recharge = p.total_recharge;
  corps_level = p.corps_level;
  open_days = p.open_days;
  package_type = p.package_type;
  country = p.country;
}

-- An int32 is an int as it is.
unfoldable pub to_int_slice : List ℤ → List ℤ
to_int_slice values = map (λ v. v) values

unfoldable pub to_int32_slice : List ℤ → List ℤ
to_int32_slice values = map wrap32 values

module _ (format : Time → String) where
  unfoldable pub format_time : Time → String
  format_time value = if value == 0 then "" else format value

  unfoldable pub format_optional_time : Option Time → String
  unfolding format_time
  format_optional_time none = ""
  format_optional_time (some value) = format_time value

  unfoldable pub to_rpc_mail_item : MailItem → GlobalMailItem
  unfolding format_time to_int32_slice
  to_rpc_mail_item item =
      let mail = item.mail in
      record {
        global_mail_id = mail.id;
        title = mail.title;
        content = mail.content;
        message_map = mail.message_map;
        loots = mail.loots;
        sender = mail.sender;
        category = mail.category;
        template_id = mail.template_id;
        params = mail.params;
        external_url = mail.external_url;
        start_time = format_time mail.start_time;
        expire_time = format_time mail.expire_time;
        status = mail_status_string mail.status;
        version = mail.version;
        user_status = user_status_string item.status;
        claimed_loot_indexes = to_int32_slice item.claimed_loot_indexes;
      }

  unfoldable pub to_rpc_mail_state : UserGlobalMailState → GlobalMailStateResponse
  unfolding format_optional_time to_int32_slice
  to_rpc_mail_state state = record {
    role_id = state.role_id;
    server_id = wrap32 state.server_id;
    global_mail_id = state.global_mail_id;
    status = user_status_string state.status;
    claimed_loot_indexes = to_int32_slice state.claimed_loot_indexes;
    claim_time = format_optional_time state.claim_time;
    delete_time = format_optional_time state.delete_time;
    version = wrap32 state.version;
  }
