-- ===== src/MailCommands/Handlers.antt =====
-- app/playersrv/mail_commands.go: the handlers of the four mail commands. The encoding of the
-- messages is protobuf's; a payload without a message leaves the zero message.
use globalmail.Prelude.{
  String, Option, none, some, List, [], ◌∷◌, Result, ok, err, Action, pure, or_raise, ◌>>=◌,
}
use globalmail.Prelude.Int.{ℤ, pos}
use globalmail.Types.{Bytes, Error, encode_error, decode_error}
use globalmail.Cache.Snapshot.{CacheSnapshot}
use globalmail.PlayerMail.Service.{Readings}
use globalmail.Commands.{
  CommandRequest, CommandDefinition, CommandHandler, CommandRegistry, register,
}
use globalmail.MailCommands.{
  RpcUserProfile, ListGlobalMailsRequest, ListGlobalMailsResponse, GlobalMailStateRequest,
  ClaimGlobalMailRequest, GlobalMailStateResponse,
}
use globalmail.MailCommands.Server.{
  MailRpcServer, list_mails_rpc, mark_read_rpc, claim_rpc, delete_rpc,
}

-- The messages inside an anypb.Any.
pub record MessageCodec : Type 0 where
  pub decode_list : Bytes → Option ListGlobalMailsRequest
  pub decode_state : Bytes → Option GlobalMailStateRequest
  pub decode_claim : Bytes → Option ClaimGlobalMailRequest
  pub encode_mails : ListGlobalMailsResponse → Option Bytes
  pub encode_state : GlobalMailStateResponse → Option Bytes

unfoldable pub command_definition : ℤ → String → String → String → CommandDefinition
command_definition command_id name request_type response_type = record {
  command_id = command_id;
  name = name;
  request_type = request_type;
  response_type = response_type;
}

unfoldable pub unmarshal_command_payload :
    {M : Type 0} → (Bytes → Option M) → M → CommandRequest → Result Error M
unmarshal_command_payload decode zero_message req = elim req.payload [
  | none ↦ ok zero_message
  | some bytes ↦ elim (decode bytes) [ none ↦ err decode_error | some m ↦ ok m ]
]

unfoldable pub apply_command_identity : RpcUserProfile → RpcUserProfile → RpcUserProfile
apply_command_identity target source = record target {
  uid = source.uid;
  role_id = source.role_id;
  server_id = source.server_id;
}

-- What every payload's profile becomes.
unfoldable pub ensure_command_profile :
    CommandRequest → Option RpcUserProfile → Option RpcUserProfile
unfolding apply_command_identity
ensure_command_profile req profile =
    let own : RpcUserProfile = record {
      uid = req.uid;
      role_id = req.role_id;
      server_id = req.server_id;
      vip_level = pos 0;
      total_recharge = pos 0;
      corps_level = pos 0;
      open_days = pos 0;
      package_type = "";
      country = "";
    } in
    elim profile [ none ↦ some own | some value ↦ some (apply_command_identity value own) ]

abbrev pub from_result : {W A : Type 0} → Result Error A → Action W Error A
from_result r w = (r, w)

module _ {W : Type 0} (codec : MessageCodec) (mail : MailRpcServer W) (t : Readings) where
  abbrev pub Handler : Type 0
  Handler = CommandHandler (CacheSnapshot × W)

  -- `anypb.New` of the response.
  abbrev pub packed : Option Bytes → Action (CacheSnapshot × W) Error (Option Bytes)
  packed encoded = do bytes ← or_raise encoded encode_error; pure (some bytes)

  unfoldable pub list_handler : Handler
  unfolding unmarshal_command_payload ensure_command_profile
  list_handler req = do
    payload ←
        from_result (unmarshal_command_payload codec.decode_list (record { profile = none }) req)
    resp ← list_mails_rpc mail (record { profile = ensure_command_profile req payload.profile }) t
    packed (codec.encode_mails resp)

  -- Reading and deleting take the same message.
  unfoldable pub state_payload : CommandRequest → Result Error GlobalMailStateRequest
  unfolding unmarshal_command_payload ensure_command_profile
  state_payload req =
      elim (unmarshal_command_payload codec.decode_state
        (record { profile = none; global_mail_id = pos 0 }) req) [
          | err e ↦ err e
          | ok payload ↦
              ok (record payload { profile = ensure_command_profile req payload.profile })
        ]

  unfoldable pub mark_read_handler : Handler
  unfolding state_payload
  mark_read_handler req = do
    payload ← from_result (state_payload req)
    resp ← mark_read_rpc mail payload t
    packed (codec.encode_state resp)

  unfoldable pub claim_handler : Handler
  unfolding unmarshal_command_payload ensure_command_profile
  claim_handler req = do
    payload ← from_result (
        unmarshal_command_payload codec.decode_claim
          (record { profile = none; global_mail_id = pos 0; loot_indexes = [] }) req)
    resp ←
        claim_rpc mail (record payload { profile = ensure_command_profile req payload.profile }) t
    packed (codec.encode_state resp)

  unfoldable pub delete_handler : Handler
  unfolding state_payload
  delete_handler req = do
    payload ← from_result (state_payload req)
    resp ← delete_rpc mail payload t
    packed (codec.encode_state resp)

  abbrev pub Registration : Type 0
  Registration = CommandDefinition × Handler

  unfoldable pub registrations : List Registration
  unfolding command_definition list_handler mark_read_handler claim_handler delete_handler
  registrations =
      (
        command_definition (pos 1001) "mail.list_global" "globalmail.rpc.ListGlobalMailsRequest"
            "globalmail.rpc.ListGlobalMailsResponse",
        list_handler,
      )
      ∷ (
        command_definition (pos 1002) "mail.mark_read" "globalmail.rpc.GlobalMailStateRequest"
            "globalmail.rpc.GlobalMailStateResponse",
        mark_read_handler,
      )
      ∷ (
        command_definition (pos 1003) "mail.claim" "globalmail.rpc.ClaimGlobalMailRequest"
            "globalmail.rpc.GlobalMailStateResponse",
        claim_handler,
      )
      ∷ (
        command_definition (pos 1004) "mail.delete" "globalmail.rpc.GlobalMailStateRequest"
            "globalmail.rpc.GlobalMailStateResponse",
        delete_handler,
      )
      ∷ []

  abbrev pub Registry : Type 0
  Registry = CommandRegistry (CacheSnapshot × W)

  unfoldable pub register_all : List Registration → Registry → Result Error Registry
  register_all [] registry = ok registry
  register_all ((definition, handler) ∷ rest) registry =
      elim (register (some definition) (some handler) registry) [
        | err e ↦ err e
        | ok longer ↦ register_all rest longer
      ]

  unfoldable pub register_mail_command_handlers : Registry → Result Error Registry
  unfolding register_all registrations
  register_mail_command_handlers registry = register_all registrations registry
