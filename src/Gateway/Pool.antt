-- ===== src/Gateway/Pool.antt =====
-- app/gatewaysrv/connection.go: ConnectionPool. A client connection is its identity, and `nil` is
-- `none`; an operation on the pool also says which connections it closes, in order. `fnv` is
-- hash/fnv.New32a over the printed uid.
use globalmail.Prelude.{
  ℕ, zero, suc, ◌%◌, String, Option, none, some, List, [], ◌∷◌, ◌++◌, map, length, ltb, ◌==◌,
  int_eq, string_eq, nat_eq, if◌then◌else◌, get_elem?,
}
use globalmail.Prelude.Int.{ℤ, positive_or}
use globalmail.Prelude.Dict.{Dict, lookup, insert, erase}
use globalmail.Types.{Time}

pub record Session : Type 0 where
  pub uid : ℤ
  pub role_id : ℤ
  pub server_id : ℤ
  pub conn_id : String
  pub gateway_addr : String
  pub client_ip : String
  pub device_id : String
  pub connected_at : Time
  pub last_heartbeat_at : Time
  pub last_renew_at : Time
  pub expire_at : Time
  pub conn : Option ℕ

pub record SessionShard : Type 0 where
  pub sessions : Dict ℤ Session
  pub conn_index : Dict String ℤ

abbrev pub ConnectionPool : Type 0
ConnectionPool = List SessionShard

-- The connections that are closed.
abbrev pub Closed : Type 0
Closed = List ℕ

abbrev pub close_conn : Option ℕ → Closed
close_conn none = []
close_conn (some c) = c ∷ []

-- `old.Conn != nil && old.Conn != session.Conn`
abbrev pub close_replaced : Option ℕ → Option ℕ → Closed
close_replaced none new = []
close_replaced (some c) none = c ∷ []
close_replaced (some c) (some d) = if c == d then [] else c ∷ []

unfoldable pub new_shards : ℕ → ConnectionPool
new_shards zero = []
new_shards (suc n) = record { sessions = []; conn_index = [] } ∷ new_shards n

unfoldable pub new_connection_pool : ℤ → ConnectionPool
unfolding new_shards
new_connection_pool shard_count = new_shards (positive_or shard_count 32)

-- `if session.ConnID != "" { … }` on the index of the connections.
abbrev pub index_conn : String → ℤ → Dict String ℤ → Dict String ℤ
index_conn conn_id uid index = if conn_id == "" then index else insert conn_id uid index

abbrev pub unindex_conn : String → Dict String ℤ → Dict String ℤ
unindex_conn conn_id index = if conn_id == "" then index else erase conn_id index

-- What Set does with the session that it replaces: its connection leaves the index unless it is the
-- new session's.
abbrev pub unindex_old : Session → Option Session → Dict String ℤ → Dict String ℤ
unindex_old session none index = index
unindex_old session (some old) index =
    if old.conn_id == session.conn_id then index else unindex_conn old.conn_id index

-- The body of Set, on its shard.
unfoldable pub set_session : Session → SessionShard → SessionShard × Closed
set_session session shard =
    let old = lookup session.uid shard.sessions in
    (
      record {
        sessions = insert session.uid session shard.sessions;
        conn_index =
            index_conn session.conn_id session.uid (unindex_old session old shard.conn_index);
      },
      elim old [ none ↦ [] | some o ↦ close_replaced o.conn session.conn ],
    )

-- A session leaves its shard.
unfoldable pub drop_session : Session → ℤ → SessionShard → SessionShard
drop_session session uid shard = record {
  sessions = erase uid shard.sessions;
  conn_index = unindex_conn session.conn_id shard.conn_index;
}

abbrev pub delete_found : ℤ → SessionShard → Option Session → SessionShard × Closed
delete_found uid shard none = (record shard { sessions = erase uid shard.sessions }, [])
delete_found uid shard (some old) = (drop_session old uid shard, close_conn old.conn)

-- The body of Delete, on its shard.
unfoldable pub delete_session : ℤ → SessionShard → SessionShard × Closed
delete_session uid shard = delete_found uid shard (lookup uid shard.sessions)

-- The body of the loop of SweepExpired for one uid, and the session that it takes out.
abbrev pub drop_expired : Time → ℤ → SessionShard → Option Session → SessionShard × List Session
drop_expired now uid shard none = (shard, [])
drop_expired now uid shard (some session) =
    if ltb session.expire_at now
    then (drop_session session uid shard, session ∷ [])
    else (shard, [])

-- The loop of SweepExpired over the uids of a shard.
unfoldable pub sweep_sessions : Time → List ℤ → SessionShard → SessionShard × List Session
sweep_sessions now [] shard = (shard, [])
sweep_sessions now (uid ∷ uids) shard =
    let (left, expired) = drop_expired now uid shard (lookup uid shard.sessions) in
    let (rest, more) = sweep_sessions now uids left in (rest, expired ++ more)

unfoldable pub sweep_shard : Time → SessionShard → SessionShard × List Session
unfolding sweep_sessions
sweep_shard now shard = sweep_sessions now (map (λ e. e.0) shard.sessions) shard

-- An operation on the shard of an index.
unfoldable pub at_shard :
    ℕ → (SessionShard → SessionShard × Closed) → ConnectionPool → ConnectionPool × Closed
at_shard i f [] = ([], [])
at_shard zero f (shard ∷ shards) = let (s, closed) = f shard in (s ∷ shards, closed)
at_shard (suc i) f (shard ∷ shards) =
    let (rest, closed) = at_shard i f shards in (shard ∷ rest, closed)

-- The loop of GetByConnID over the shards.
unfoldable pub find_conn : String → ConnectionPool → Option Session
find_conn conn_id [] = none
find_conn conn_id (shard ∷ shards) = elim (lookup conn_id shard.conn_index) [
  | some uid ↦ lookup uid shard.sessions
  | none ↦ find_conn conn_id shards
]

unfoldable pub get_by_conn_id : String → ConnectionPool → Option Session
unfolding find_conn
get_by_conn_id conn_id pool = if conn_id == "" then none else find_conn conn_id pool

-- The shards are swept one after the other.
unfoldable pub sweep_expired : Time → ConnectionPool → ConnectionPool × List Session
unfolding sweep_shard
sweep_expired now [] = ([], [])
sweep_expired now (shard ∷ shards) =
    let (s, expired) = sweep_shard now shard in
    let (rest, more) = sweep_expired now shards in (s ∷ rest, expired ++ more)

close_sessions : Dict ℤ Session → Closed
close_sessions [] = []
close_sessions (e ∷ es) = close_conn e.1.conn ++ close_sessions es

-- The shards are emptied, and each connection is closed.
unfoldable pub close_all : ConnectionPool → ConnectionPool × Closed
unfolding close_sessions
close_all [] = ([], [])
close_all (shard ∷ shards) =
    let (rest, closed) = close_all shards in
    (record { sessions = []; conn_index = [] } ∷ rest, close_sessions shard.sessions ++ closed)

module _ (fnv : ℤ → ℕ) where
  unfoldable pub shard_index : ℤ → ConnectionPool → ℕ
  shard_index uid pool = fnv uid % length pool

  unfoldable pub get : ℤ → ConnectionPool → Option Session
  unfolding shard_index
  get uid pool = elim (get_elem? pool (shard_index uid pool)) [
    | none ↦ none
    | some shard ↦ lookup uid shard.sessions
  ]

  unfoldable pub set : Session → ConnectionPool → ConnectionPool × Closed
  unfolding shard_index at_shard set_session
  set session pool = at_shard (shard_index session.uid pool) (set_session session) pool

  unfoldable pub delete : ℤ → ConnectionPool → ConnectionPool × Closed
  unfolding shard_index at_shard delete_session
  delete uid pool = at_shard (shard_index uid pool) (delete_session uid) pool
