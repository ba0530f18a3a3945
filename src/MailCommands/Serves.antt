-- ===== src/MailCommands/Serves.antt =====
-- app/playersrv/mail_commands.go: which call of the mail service each mail command is.
use globalmail.Prelude.{◌≡◌, ◌⊎◌, refl, inl, inr, arith, map, Option, none, some, List, [], ok}
use globalmail.Prelude.Int.{ℤ, pos}
use globalmail.Types.{Bytes, UserProfile, UserGlobalMailState}
use globalmail.Cache.Snapshot.{CacheSnapshot}
use globalmail.PlayerMail.Service.{
  MailItem, Readings, list_global_mails, mark_global_mail_read, claim_global_mail,
  delete_global_mail,
}
use globalmail.Commands.{CommandRequest, dispatch_registered}
use globalmail.MailCommands.{
  RpcUserProfile, ListGlobalMailsRequest, GlobalMailStateRequest, ClaimGlobalMailRequest,
  to_domain_profile, to_int_slice, to_rpc_mail_item, to_rpc_mail_state,
}
use globalmail.MailCommands.Server.{
  MailRpcServer, list_mails_rpc, mark_read_rpc, claim_rpc, delete_rpc,
}
use globalmail.MailCommands.Handlers.{
  MessageCodec, Handler, Registry, unmarshal_command_payload, ensure_command_profile,
  apply_command_identity, list_handler, state_payload, mark_read_handler, claim_handler,
  delete_handler, registrations, command_definition, register_mail_command_handlers,
}
use globalmail.MailCommands.Identity.{dispatch_registered-entry}

-- The four commands, and their numbers in api/rpc/command.proto.
pub data MailCommand : Type 0 where
  listing marking claiming deleting : MailCommand

abbrev pub number_of : MailCommand → ℤ
number_of listing = pos 1001
number_of marking = pos 1002
number_of claiming = pos 1003
number_of deleting = pos 1004

-- The profile that a payload gives, for the player of the request.
abbrev pub as_player : CommandRequest → Option RpcUserProfile → UserProfile
unfolding to_domain_profile
as_player req profile = record (to_domain_profile profile) {
  uid = req.uid;
  role_id = req.role_id;
  server_id = req.server_id;
}

-- The message of a request, or the empty one where it has no payload.
abbrev pub Carries : {M : Type 0} → (Bytes → Option M) → M → CommandRequest → M → Type 0
Carries decode empty_message req m =
    ((req.payload ≡ none) × (m ≡ empty_message))
    ⊎ ((b : Bytes) × (req.payload ≡ some b) × (decode b ≡ some m))

unmarshal-Carries :
    {M : Type 0} (decode : Bytes → Option M) (empty_message m : M) (req : CommandRequest)
    → Carries decode empty_message req m
    → unmarshal_command_payload decode empty_message req ≡ ok m
unfolding unmarshal_command_payload
unmarshal-Carries decode empty_message m req (inl (e, f)) = ground (arith, e, f)
unmarshal-Carries decode empty_message m req (inr (b, e, f)) = ground (arith, e, f)

as_player_lem :
    (req : CommandRequest) (profile : Option RpcUserProfile)
    → to_domain_profile (ensure_command_profile req profile) ≡ as_player req profile
unfolding to_domain_profile ensure_command_profile apply_command_identity
as_player_lem req none = refl
as_player_lem req (some p) = refl

module _ {W : Type 0} (codec : MessageCodec) (mail : MailRpcServer W) (t : Readings) where
  -- A run of the mail service that a request asks for, and the message that it answers.
  pub data Serves (req : CommandRequest) (w w' : CacheSnapshot × W)
      : MailCommand → Bytes → Type 0 where
    lists :
        (m : ListGlobalMailsRequest) (items : List MailItem) (b : Bytes)
        → Carries codec.decode_list (record { profile = none }) req m
        → list_global_mails mail.service (as_player req m.profile) t w ≡ (ok items, w')
        → codec.encode_mails (record { mails = map (to_rpc_mail_item mail.format) items }) ≡ some b
        → Serves req w w' listing b
    marks :
        (m : GlobalMailStateRequest) (state : UserGlobalMailState) (b : Bytes)
        → Carries codec.decode_state (record { profile = none; global_mail_id = pos 0 }) req m
        → mark_global_mail_read mail.service (as_player req m.profile) m.global_mail_id t w
          ≡ (ok state, w')
        → codec.encode_state (to_rpc_mail_state mail.format state) ≡ some b
        → Serves req w w' marking b
    claims :
        (m : ClaimGlobalMailRequest) (state : UserGlobalMailState) (b : Bytes)
        → Carries codec.decode_claim
            (record { profile = none; global_mail_id = pos 0; loot_indexes = [] })
            req
            m
        → claim_global_mail mail.service
            (as_player req m.profile)
            m.global_mail_id
            (to_int_slice m.loot_indexes)
            t
            w
          ≡ (ok state, w')
        → codec.encode_state (to_rpc_mail_state mail.format state) ≡ some b
        → Serves req w w' claiming b
    deletes :
        (m : GlobalMailStateRequest) (state : UserGlobalMailState) (b : Bytes)
        → Carries codec.decode_state (record { profile = none; global_mail_id = pos 0 }) req m
        → delete_global_mail mail.service (as_player req m.profile) m.global_mail_id t w
          ≡ (ok state, w')
        → codec.encode_state (to_rpc_mail_state mail.format state) ≡ some b
        → Serves req w w' deleting b

  module _ (req : CommandRequest) (w w' : CacheSnapshot × W) (b : Bytes) where
    abbrev handler_of : MailCommand → Handler codec mail t
    handler_of listing = list_handler codec mail t
    handler_of marking = mark_read_handler codec mail t
    handler_of claiming = claim_handler codec mail t
    handler_of deleting = delete_handler codec mail t

    handled : (c : MailCommand) → Serves req w w' c b → handler_of c req w ≡ (ok (some b), w')
    unfolding list_handler mark_read_handler claim_handler delete_handler state_payload
        list_mails_rpc mark_read_rpc claim_rpc delete_rpc
    handled listing (lists m items b k e f) = ground (
      arith,
      unmarshal-Carries codec.decode_list (record { profile = none }) m req k,
      as_player_lem req m.profile,
      e,
      f,
    )
    handled marking (marks m state b k e f) = ground (
      arith,
      unmarshal-Carries codec.decode_state (record { profile = none; global_mail_id = pos 0 }) m req
          k,
      as_player_lem req m.profile,
      e,
      f,
    )
    handled claiming (claims m state b k e f) = ground (
      arith,
      unmarshal-Carries codec.decode_claim
          (record { profile = none; global_mail_id = pos 0; loot_indexes = [] }) m req k,
      as_player_lem req m.profile,
      e,
      f,
    )
    handled deleting (deletes m state b k e f) = ground (
      arith,
      unmarshal-Carries codec.decode_state (record { profile = none; global_mail_id = pos 0 }) m req
          k,
      as_player_lem req m.profile,
      e,
      f,
    )

  -- On whatever commands there were before: once the mail commands are registered without an error,
  -- the request numbered 1001 is a listing, 1002 marks a mail as read, 1003 claims one and 1004
  -- deletes one. Where the mail service, called with the message of the request for the player of
  -- the request, succeeds, the request is answered with what the service answers, encoded.
  pub dispatch_registered-mail :
      (c : MailCommand) (registry r : Registry codec mail t) (req : CommandRequest)
      (w w' : CacheSnapshot × W) (b : Bytes)
      → register_mail_command_handlers codec mail t registry ≡ ok r
      → req.command_id ≡ number_of c
      → Serves req w w' c b
      → dispatch_registered r req w ≡ (
        ok (record {
          command_id = req.command_id;
          seq = req.seq;
          code = pos 0;
          message = "ok";
          payload = some b;
        }),
        w',
      )
  unfolding registrations command_definition
  dispatch_registered-mail listing registry r req w w' b e k s =
      dispatch_registered-entry codec mail t _ _ registry r req w w' (some b) e (inl refl) k
        (handled req w w' b listing s)
  dispatch_registered-mail marking registry r req w w' b e k s =
      dispatch_registered-entry codec mail t _ _ registry r req w w' (some b) e (inr (inl refl)) k
        (handled req w w' b marking s)
  dispatch_registered-mail claiming registry r req w w' b e k s =
      dispatch_registered-entry codec mail t _ _ registry r req w w' (some b) e
        (inr (inr (inl refl))) k (handled req w w' b claiming s)
  dispatch_registered-mail deleting registry r req w w' b e k s =
      dispatch_registered-entry codec mail t _ _ registry r req w w' (some b) e
        (inr (inr (inr (inl refl)))) k (handled req w w' b deleting s)
