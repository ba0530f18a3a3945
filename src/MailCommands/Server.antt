-- ===== src/MailCommands/Server.antt =====
-- app/playersrv/mail_rpc.go: MailRPCServer, the calls of the mail service on messages.
use globalmail.Prelude.{String, map, pure, ◌>>=◌}
use globalmail.Types.{Time}
use globalmail.Cache.Refresh.{CacheAction}
use globalmail.PlayerMail.Service.{
  PlayerMailService, Readings, list_global_mails, mark_global_mail_read, claim_global_mail,
  delete_global_mail,
}
use globalmail.MailCommands.{
  ListGlobalMailsRequest, ListGlobalMailsResponse, GlobalMailStateRequest, ClaimGlobalMailRequest,
  GlobalMailStateResponse, to_domain_profile, to_int_slice, to_rpc_mail_item, to_rpc_mail_state,
}

pub record MailRpcServer (W : Type 0) : Type 0 where
  pub service : PlayerMailService W
  pub format : Time → String

module _ {W : Type 0} (server : MailRpcServer W) where
  open server use {service, format}

  unfoldable pub list_mails_rpc :
      ListGlobalMailsRequest → Readings → CacheAction W ListGlobalMailsResponse
  list_mails_rpc req t = do
    items ← list_global_mails service (to_domain_profile req.profile) t
    pure (record { mails = map (to_rpc_mail_item format) items })

  unfoldable pub mark_read_rpc :
      GlobalMailStateRequest → Readings → CacheAction W GlobalMailStateResponse
  mark_read_rpc req t = do
    state ← mark_global_mail_read service (to_domain_profile req.profile) req.global_mail_id t
    pure (to_rpc_mail_state format state)

  unfoldable pub claim_rpc :
      ClaimGlobalMailRequest → Readings → CacheAction W GlobalMailStateResponse
  claim_rpc req t = do
    state ←
        claim_global_mail service (to_domain_profile req.profile) req.global_mail_id
          (to_int_slice req.loot_indexes) t
    pure (to_rpc_mail_state format state)

  unfoldable pub delete_rpc :
      GlobalMailStateRequest → Readings → CacheAction W GlobalMailStateResponse
  delete_rpc req t = do
    state ← delete_global_mail service (to_domain_profile req.profile) req.global_mail_id t
    pure (to_rpc_mail_state format state)
