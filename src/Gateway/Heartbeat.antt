-- ===== src/Gateway/Heartbeat.antt =====
-- app/gatewaysrv/connection.go: what Bind and Heartbeat leave in the pool.
use globalmail.Prelude.{
  ℕ, zero, suc, ◌+◌, ◌%◌, ◌≡◌, ◌<◌, refl, false, String, Option, none, some, [], ◌∷◌, ok, err,
  length, get_elem?, arith, int_eq,
}
use globalmail.Prelude.Int.{ℤ}
use globalmail.Prelude.Dict.{lookup-insert_self}
use globalmail.Types.{Time, Error}
use globalmail.Gateway.Pool.{
  Session, SessionShard, ConnectionPool, Closed, at_shard, set_session, shard_index, get, set,
}
use globalmail.Gateway.Manager.{
  ConnectionManager, BindSessionRequest, bound_session, beaten, bind, renew, heartbeat,
  heartbeat_found, is_mismatch,
}

at_shard-length :
    (i : ℕ) (f : SessionShard → SessionShard × Closed) (pool : ConnectionPool)
    → length (at_shard i f pool).0 ≡ length pool
unfolding at_shard
at_shard-length i f [] = refl
at_shard-length zero f (s ∷ ss) = refl
at_shard-length (suc i) f (s ∷ ss) = omega (arith, at_shard-length i f ss)

at_shard-get :
    (i : ℕ) (f : SessionShard → SessionShard × Closed) (pool : ConnectionPool)
    → i < length pool
    → (s : SessionShard) × (get_elem? (at_shard i f pool).0 i ≡ some (f s).0)
unfolding at_shard
at_shard-get i f [] h = absurd (omega (arith, h))
at_shard-get zero f (s ∷ ss) h = (s, refl)
at_shard-get (suc i) f (s ∷ ss) h = at_shard-get i f ss (omega (arith, h))

-- A session that is set is found.
get-set :
    (fnv : ℤ → ℕ) (session : Session) (pool : ConnectionPool)
    → 0 < length pool
    → get fnv session.uid (set fnv session pool).0 ≡ some session
unfolding get set shard_index set_session
get-set fnv session pool some_shard =
    let i = fnv session.uid % length pool in
    let inside : i < length pool = omega (arith, some_shard) in
    let (s, e) = at_shard-get i (set_session session) pool inside in
    ground (
      arith,
      e,
      at_shard-length i (set_session session) pool,
      lookup-insert_self session.uid session s.sessions,
    )

module _ {W : Type 0} (fnv : ℤ → ℕ) (manager : ConnectionManager W) where
  -- A bind that succeeds answers the session of the request, which lives for the session's time from
  -- now on, and it is the one that the pool then finds for the user. The pool has a shard.
  bind-get :
      (req : BindSessionRequest) (now : Time) (pool pool' : ConnectionPool)
      (closed closed' : Closed) (w w' : W) (s : Session)
      → 0 < length pool
      → bind fnv manager req now ((pool, closed), w) ≡ (ok s, ((pool', closed'), w'))
      → (s ≡ bound_session req manager.gateway_addr manager.session_ttl now)
        × (get fnv req.uid pool' ≡ some s)
  unfolding bind bound_session
  bind-get req now pool pool' closed closed' w w' s some_shard h =
      let new = bound_session req manager.gateway_addr manager.session_ttl now in
      let found = get-set fnv new pool some_shard in (ground arith, ground (arith, found))

  renew-get :
      (old s : Session) (now : Time) (pool pool' : ConnectionPool) (closed closed' : Closed)
      (w w' : W)
      → 0 < length pool
      → renew fnv manager old now ((pool, closed), w) ≡ (ok s, ((pool', closed'), w'))
      → (s.conn_id ≡ old.conn_id)
        × (s.expire_at ≡ now + manager.session_ttl)
        × (get fnv old.uid pool' ≡ some s)
  unfolding renew beaten
  renew-get old s now pool pool' closed closed' w w' some_shard h =
      let beat = beaten old manager.session_ttl now in
      let kept = get-set fnv beat pool some_shard in
      let renewed = get-set fnv (record beat { last_renew_at = now }) pool some_shard in
      (ground arith, ground arith, ground (arith, kept, renewed))

  -- A heartbeat that succeeds found a session of the user whose connection does not contradict it,
  -- and the pool then finds this session with a life of the session's time from now on.
  heartbeat-get :
      (uid : ℤ) (conn_id : String) (now : Time) (pool pool' : ConnectionPool)
      (closed closed' : Closed) (w w' : W) (s : Session)
      → 0 < length pool
      → heartbeat fnv manager uid conn_id now ((pool, closed), w) ≡ (ok s, ((pool', closed'), w'))
      → (old : Session) × (get fnv uid pool ≡ some old)
        × (is_mismatch conn_id old ≡ false)
        × (s.conn_id ≡ old.conn_id)
        × (s.expire_at ≡ now + manager.session_ttl)
        × (get fnv old.uid pool' ≡ some s)
  unfolding heartbeat heartbeat_found
  heartbeat-get uid conn_id now pool pool' closed closed' w w' s some_shard h =
      by_found (get fnv uid pool) refl
    where
      by_found :
          (o : Option Session)
          → get fnv uid pool ≡ o
          → (old : Session) × (get fnv uid pool ≡ some old)
            × (is_mismatch conn_id old ≡ false)
            × (s.conn_id ≡ old.conn_id)
            × (s.expire_at ≡ now + manager.session_ttl)
            × (get fnv old.uid pool' ≡ some s)
      by_found none e = absurd (ground (arith, e, h))
      by_found (some old) e =
          let no_mismatch : is_mismatch conn_id old ≡ false = ground (arith, e, h) in
          let r =
            renew-get old s now pool pool' closed closed' w w' some_shard
              (ground (arith, e, h, no_mismatch)) in
          (old, e, no_mismatch, r.0, r.1, r.2)

  -- A heartbeat that fails, for want of a session, for another connection, or in the store, leaves the
  -- pool as it was.
  heartbeat-keeps :
      (uid : ℤ) (conn_id : String) (now : Time) (p p' : ConnectionPool × Closed) (w w' : W)
      (e : Error)
      → heartbeat fnv manager uid conn_id now (p, w) ≡ (err e, (p', w'))
      → p' ≡ p
  unfolding heartbeat heartbeat_found renew
  heartbeat-keeps uid conn_id now p p' w w' e h = ground arith
