-- ===== src/Gateway/Manager.antt =====
-- app/gatewaysrv/connection.go: ConnectionManager. The state is the pool, with the connections that
-- were closed so far, beside the world `W` of the store.
use globalmail.Prelude.{
  ℕ, ◌+◌, ◌*◌, ◌++◌, Bool, ◌&&◌, not, String, Option, none, some, ok, Action, pure, raise, ◌>>◌,
  leb, ◌==◌, string_eq, if◌then◌else◌,
}
use globalmail.Prelude.Int.{ℤ, positive_or}
use globalmail.Types.{Time, Duration, Error, GateConn, session_not_found, session_mismatch}
use globalmail.Gateway.Pool.{Session, ConnectionPool, Closed, get, set, delete}

pub record GateConnStore (W : Type 0) : Type 0 where
  pub set_gate_conn : GateConn → Duration → Action W Error (Unit {0})
  pub delete_gate_conn : ℤ → Action W Error (Unit {0})

pub record BindSessionRequest : Type 0 where
  pub uid : ℤ
  pub role_id : ℤ
  pub server_id : ℤ
  pub conn_id : String
  pub gateway_addr : String
  pub client_ip : String
  pub device_id : String
  pub conn : Option ℕ

pub record ConnectionManager (W : Type 0) : Type 0 where
  pub store : GateConnStore W
  pub gateway_addr : String
  pub session_ttl : Duration
  pub renew_interval : Duration

abbrev pub second : ℕ
second = 1000000000

unfoldable pub new_connection_manager :
    {W : Type 0} → GateConnStore W → String → ℤ → ℤ → ConnectionManager W
new_connection_manager store gateway_addr session_ttl renew_interval = record {
  store = store;
  gateway_addr = gateway_addr;
  session_ttl = positive_or session_ttl (90 * second);
  renew_interval = positive_or renew_interval (30 * second);
}

unfoldable pub to_gate_conn : Session → GateConn
to_gate_conn s = record {
  uid = s.uid;
  gateway_addr = s.gateway_addr;
  client_ip = s.client_ip;
  conn_id = s.conn_id;
  conn_time = s.connected_at;
  last_active_time = s.last_heartbeat_at;
  device_id = s.device_id;
  expire_at = s.expire_at;
}

-- The session that Bind makes.
unfoldable pub bound_session : BindSessionRequest → String → Duration → Time → Session
bound_session req gateway_addr ttl now = record {
  uid = req.uid;
  role_id = req.role_id;
  server_id = req.server_id;
  conn_id = req.conn_id;
  gateway_addr = if req.gateway_addr == "" then gateway_addr else req.gateway_addr;
  client_ip = req.client_ip;
  device_id = req.device_id;
  connected_at = now;
  last_heartbeat_at = now;
  last_renew_at = now;
  expire_at = now + ttl;
  conn = req.conn;
}

-- The session after a heartbeat, before the test for a renewal.
unfoldable pub beaten : Session → Duration → Time → Session
beaten s ttl now = record s { last_heartbeat_at = now; expire_at = now + ttl }

abbrev pub is_mismatch : String → Session → Bool
is_mismatch conn_id s = not (conn_id == "") && (not (s.conn_id == "") && not (conn_id == s.conn_id))

abbrev pub PoolAction : Type 0 → Type 0 → Type 0
PoolAction W A = Action ((ConnectionPool × Closed) × W) Error A

module _ {W : Type 0} (fnv : ℤ → ℕ) (manager : ConnectionManager W) where
  open manager use {store, session_ttl, renew_interval}

  abbrev pub put : Session → PoolAction W (Unit {0})
  put session ((pool, closed), w) =
      let (pool', more) = set fnv session pool in (ok tt, ((pool', closed ++ more), w))

  abbrev pub call_store : {A : Type 0} → Action W Error A → PoolAction W A
  call_store m (p, w) = let (r, w') = m w in (r, (p, w'))

  unfoldable pub bind : BindSessionRequest → Time → PoolAction W Session
  unfolding to_gate_conn bound_session
  bind req now = do
    let session = bound_session req manager.gateway_addr session_ttl now
    call_store (store.set_gate_conn (to_gate_conn session) session_ttl)
    put session
    pure session

  -- A heartbeat of a session that is there.
  unfoldable pub renew : Session → Time → PoolAction W Session
  unfolding to_gate_conn beaten
  renew session now =
      if leb (session.last_renew_at + renew_interval) now
      then (do
        let renewed = record (beaten session session_ttl now) { last_renew_at = now }
        call_store (store.set_gate_conn (to_gate_conn renewed) session_ttl)
        put renewed
        pure renewed)
      else (put (beaten session session_ttl now) >> pure (beaten session session_ttl now))

  unfoldable pub heartbeat_found : Option Session → String → Time → PoolAction W Session
  unfolding renew
  heartbeat_found none conn_id now = raise session_not_found
  heartbeat_found (some session) conn_id now =
      if is_mismatch conn_id session then raise session_mismatch else renew session now

  unfoldable pub heartbeat : ℤ → String → Time → PoolAction W Session
  unfolding heartbeat_found
  heartbeat uid conn_id now c = heartbeat_found (get fnv uid c.0.0) conn_id now c

  unfoldable pub disconnect : ℤ → PoolAction W (Unit {0})
  disconnect uid ((pool, closed), w) =
      let (pool', more) = delete fnv uid pool in
      let (r, w') = store.delete_gate_conn uid w in (r, ((pool', closed ++ more), w'))
