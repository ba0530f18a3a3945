-- ===== src/Redis/Routing.antt =====
-- data/redis/routing.go: login tokens, gateway connections and routes.
use globalmail.Prelude.{String, Option, Action, or_raise, ◌>>=◌}
use globalmail.Prelude.Int.{ℤ}
use globalmail.Types.{Time, Bytes, Error, encode_error, LoginToken, GateConn, SrvRouter}
use globalmail.Redis.Client.{RedisClient, login_token, gate_conn, srv_router}
use globalmail.Redis.Lifetimes.{routing_ttl}
use globalmail.Redis.Repository.{decoded}

pub record RoutingCodec : Type 0 where
  pub encode_token : LoginToken → Option Bytes
  pub decode_token : Bytes → Option LoginToken
  pub encode_conn : GateConn → Option Bytes
  pub decode_conn : Bytes → Option GateConn
  pub encode_route : SrvRouter → Option Bytes
  pub decode_route : Bytes → Option SrvRouter

module _ {W : Type 0} (client : RedisClient W) (codec : RoutingCodec) (clock : W → Time) where
  unfoldable pub get_login_token : String → Action W Error (Option LoginToken)
  get_login_token token = do
    payload ← client.get (login_token token)
    decoded codec.decode_token payload

  unfoldable pub set_login_token : LoginToken → ℤ → Action W Error (Unit {0})
  unfolding routing_ttl
  set_login_token token ttl w =
      (do
        payload ← or_raise (codec.encode_token token) encode_error
        client.set (login_token token.token) payload (routing_ttl ttl token.expire_at (clock w)))
        w

  unfoldable pub delete_login_token : String → Action W Error (Unit {0})
  delete_login_token token = client.del (login_token token)

  unfoldable pub get_gate_conn : ℤ → Action W Error (Option GateConn)
  get_gate_conn uid = do payload ← client.get (gate_conn uid); decoded codec.decode_conn payload

  unfoldable pub set_gate_conn : GateConn → ℤ → Action W Error (Unit {0})
  unfolding routing_ttl
  set_gate_conn conn ttl w =
      (do
        payload ← or_raise (codec.encode_conn conn) encode_error
        client.set (gate_conn conn.uid) payload (routing_ttl ttl conn.expire_at (clock w)))
        w

  unfoldable pub delete_gate_conn : ℤ → Action W Error (Unit {0})
  delete_gate_conn uid = client.del (gate_conn uid)

  unfoldable pub get_srv_router : ℤ → Action W Error (Option SrvRouter)
  get_srv_router uid = do payload ← client.get (srv_router uid); decoded codec.decode_route payload

  unfoldable pub set_srv_router : SrvRouter → ℤ → Action W Error (Unit {0})
  unfolding routing_ttl
  set_srv_router route ttl w =
      (do
        payload ← or_raise (codec.encode_route route) encode_error
        client.set (srv_router route.uid) payload (routing_ttl ttl route.expire_at (clock w)))
        w

  unfoldable pub delete_srv_router : ℤ → Action W Error (Unit {0})
  delete_srv_router uid = client.del (srv_router uid)
