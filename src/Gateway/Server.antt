-- ===== src/Gateway/Server.antt =====
-- app/gatewaysrv/server.go: the calls of a gateway on messages. The state is that of the routes and
-- that of the connections, each beside the world.
use globalmail.Prelude.{
  ℕ, Bool, true, ◌==◌, nat_eq, String, Option, none, some, pure, raise, ◌>>=◌, ◌>>◌, if◌then◌else◌,
}
use globalmail.Prelude.Int.{ℤ, wrap32}
use globalmail.Types.{Time, connection_manager_required}
use globalmail.Gateway.Manager.{ConnectionManager, PoolAction, heartbeat}
use globalmail.Gateway.RouteService.{RouteService, RouteAction, resolve, clear}

pub record RouteResponse : Type 0 where
  pub instance_id : String
  pub grpc_addr : String
  pub frpc_addr : String
  pub weight : ℤ

pub record HeartbeatRequest : Type 0 where
  pub uid : ℤ
  pub conn_id : String
  pub seq : ℤ

pub record HeartbeatResponse : Type 0 where
  pub ok : Bool
  pub seq : ℤ
  pub server_timestamp : ℤ
  pub expire_at : String

unfoldable pub format_gate_time : (Time → String) → Time → String
format_gate_time format value = if value == 0 then "" else format value

module _ {W : Type 0} where
  -- A clear that succeeds answers `Ok: true`.
  unfoldable pub clear_route : (String → ℕ → ℕ) → (ℤ → ℕ) → RouteService W → ℤ → RouteAction W Bool
  clear_route virtual_hash uid_hash router uid = do
    clear virtual_hash uid_hash router uid
    pure true

  unfoldable pub resolve_route :
      (String → ℕ → ℕ) → (ℤ → ℕ) → RouteService W → ℤ → Time → Time → RouteAction W RouteResponse
  resolve_route virtual_hash uid_hash router uid now later = do
    route ← resolve virtual_hash uid_hash router uid now later
    pure (record {
      instance_id = route.instance_id;
      grpc_addr = route.grpc_addr;
      frpc_addr = route.frpc_addr;
      weight = wrap32 route.weight;
    })

  -- Without connections there are no heartbeats; the milliseconds are those of the clock.
  unfoldable pub gateway_heartbeat :
      (ℤ → ℕ)
      → Option (ConnectionManager W)
      → (Time → String)
      → HeartbeatRequest
      → Time
      → ℤ
      → PoolAction W HeartbeatResponse
  unfolding format_gate_time
  gateway_heartbeat fnv none format req now millis = raise connection_manager_required
  gateway_heartbeat fnv (some connections) format req now millis = do
    session ← heartbeat fnv connections req.uid req.conn_id now
    pure (record {
      ok = true;
      seq = req.seq;
      server_timestamp = millis;
      expire_at = format_gate_time format session.expire_at;
    })
