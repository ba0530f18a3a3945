-- ===== src/Tests/ServerTests.antt =====
-- The account server, the admin server, etcd, the mail commands and a partial projection at
-- concrete inputs.
use globalmail.Prelude.{
  ◌≡◌, refl, inl, true, [], ◌∷◌, Option, none, some, ok, err, arith, length, sort, int_eq,
  string_eq,
}
use globalmail.Prelude.Int.{ℤ, pos, wrap32}
use globalmail.Types.{Time, Bytes, LoginToken}
use globalmail.Ports.{MailRepository}
use globalmail.AccountServer.{AccountService, login_result, account_login}
use globalmail.AccountServer.Tokens.{account_login-get_login_token}
use globalmail.Redis.Routing.{RoutingCodec, set_login_token, get_login_token}
use globalmail.Cache.Snapshot.{CacheSnapshot, visible_mails, empty_snapshot}
use globalmail.Cache.Refresh.{refresh_if_stale}
use globalmail.Prelude.Dict.{lookup, insert}
use globalmail.PlayerMail.Service.{PlayerMailService, Readings, list_global_mails}
use globalmail.Commands.{CommandRequest, CommandRegistry, register, dispatch_registered}
use globalmail.MailCommands.Server.{MailRpcServer, list_mails_rpc}
use globalmail.MailCommands.Handlers.{
  MessageCodec, command_definition, registrations, register_all, register_mail_command_handlers,
  list_handler,
}
use globalmail.MailCommands.Serves.{listing, lists, dispatch_registered-mail}
use globalmail.Etcd.{
  Instance, EtcdClient, EtcdView, IsEtcd, InstanceCodec, update_status, put_status,
}
use globalmail.Etcd.Leases.{update_status-unleased}
use globalmail.Tests.Data.{mail_of, plain_cache, plain_mails, no_wait}
use globalmail.Tests.SmallRedis.{Cell, client, view, client-IsRedis}

abbrev empty_cell : Cell
empty_cell = record { value = none; member = none; hash = none }

abbrev token : LoginToken
token = record { token = "t"; uid = pos 9; role_id = pos 100001; server_id = pos 1; expire_at = 70 }

abbrev codec : RoutingCodec
codec = record {
  encode_token = λ t. some [];
  decode_token = λ b. some token;
  encode_conn = λ c. none;
  decode_conn = λ b. none;
  encode_route = λ r. none;
  decode_route = λ b. none;
}

abbrev clock : Cell → Time
clock c = 20

abbrev service : AccountService Cell
service = record {
  set_login_token = set_login_token client codec clock;
  login_game = λ uid server_id w. (
    ok (record { uid = uid; role_id = pos 100001; server_id = server_id; is_new_user = true }),
    w,
  );
  random_token = λ w. (ok "t", w);
  ttl = 50;
  clock = clock;
}

abbrev logged_in : Cell
logged_in = record { value = some []; member = none; hash = none }

account_login-get_login_token_example :
    (some token ≡ some token) × ((some token ≡ some token) × (true ≡ true))
unfolding account_login login_result set_login_token get_login_token wrap32
account_login-get_login_token_example =
    account_login-get_login_token client codec clock view client-IsRedis service (pos 9) (pos 1)
      (record { uid = pos 9; role_id = pos 100001; server_id = pos 1; is_new_user = true }) "t"
      (record { token = token; is_new_user = true }) [] (some token) empty_cell empty_cell
      empty_cell logged_in logged_in refl refl refl refl refl refl refl

-- The index of Redis names mail 7 alone, and MySQL lists the mails 7 and 8.
abbrev both_mails : MailRepository ℤ
both_mails = record plain_mails {
  get_published_global_mails = λ now w. (ok (mail_of (pos 7) [] ∷ mail_of (pos 8) [] ∷ []), w);
}

abbrev ready_instance : Instance
ready_instance = record {
  service_name = "playersrv";
  instance_id = "a";
  public_addr = "";
  grpc_addr = "";
  frpc_addr = "";
  status = "ready";
  weight = pos 100;
  zone = "";
  version = "";
  update_time = 1;
}

-- An etcd of one key.
abbrev Stored : Type 0
Stored = Option (Bytes × Option ℤ)

abbrev value_of : Stored → Option Bytes
value_of none = none
value_of (some (b, lease)) = some b

abbrev etcd : EtcdClient Stored
etcd = record {
  grant = λ ttl w. (ok (pos 1), w);
  put = λ k b lease w. (ok tt, some (b, lease));
  get = λ k w. (ok (value_of w), w);
  get_service = λ name w. (ok [], w);
  delete = λ k w. (ok tt, none);
  keep_alive = λ lease w. (ok tt, w);
}

abbrev etcd_view : EtcdView Stored
etcd_view = record { stored = λ w k. w }

etcd-IsEtcd : IsEtcd etcd etcd_view
etcd-IsEtcd = record {
  put_ok = λ k b lease w w' h. ground (arith, h);
  keep_alive_ok = λ lease w w' h k. ground (arith, h);
}

abbrev instance_codec : InstanceCodec
instance_codec = record { encode = λ i. some []; decode = λ b. some ready_instance }

update_status-unleased_example :
    (payload : Bytes) × (◌≡◌ {A = Stored} (some ([], none)) (some (payload, none)))
unfolding update_status put_status
update_status-unleased_example =
    update_status-unleased etcd instance_codec 10 etcd_view etcd-IsEtcd "playersrv" "a" "draining"
      30 (some ([], some (pos 1))) (some ([], none)) refl

abbrev mail_service : PlayerMailService ℤ
mail_service = record {
  repo = plain_mails;
  rewards = none;
  cache = plain_cache;
  locker = none;
  rebuild_lock_ttl = 0;
  wait = no_wait;
  others = λ w. (ok tt, w);
}

abbrev mail_server : MailRpcServer ℤ
mail_server = record { service = mail_service; format = λ t. "t" }

abbrev message_codec : MessageCodec
message_codec = record {
  decode_list = λ b. none;
  decode_state = λ b. none;
  decode_claim = λ b. none;
  encode_mails = λ m. some (length m.mails ∷ []);
  encode_state = λ s. none;
}

abbrev readings : Readings
readings = record { refreshed = 20; looked = 20; now = 20 }

abbrev commands : CommandRegistry (CacheSnapshot × ℤ)
unfolding register_mail_command_handlers register_all registrations command_definition register
    lookup insert
commands = elim (register_mail_command_handlers message_codec mail_server readings []) [
  | ok r ↦ r
  | err e ↦ []
]

abbrev list_request : CommandRequest
list_request = record {
  command_id = pos 1001;
  uid = pos 3;
  role_id = pos 3;
  server_id = pos 2;
  seq = pos 5;
  payload = none;
}

-- The snapshot is as new as Redis, and is empty.
dispatch_registered-mail_example :
    dispatch_registered commands list_request (empty_snapshot, pos 0) ≡ (
      ok (record {
        command_id = pos 1001;
        seq = pos 5;
        code = pos 0;
        message = "ok";
        payload = some (0 ∷ []);
      }),
      (empty_snapshot, pos 0),
    )
unfolding register_mail_command_handlers register_all registrations command_definition register
    lookup insert commands list_handler list_mails_rpc list_global_mails refresh_if_stale
    empty_snapshot sort visible_mails
dispatch_registered-mail_example =
    dispatch_registered-mail message_codec mail_server readings listing [] commands list_request
      (empty_snapshot, pos 0) (empty_snapshot, pos 0) (0 ∷ []) refl refl
      (lists (record { profile = none }) [] (0 ∷ []) (inl (refl, refl)) refl refl)
