-- ===== src/Gateway/Sessions.antt =====
-- app/gatewaysrv/connection.go: the two indexes of the pool, whatever is done to it.
use globalmail.Prelude.{
  ℕ, zero, suc, ◌≡◌, refl, String, Option, none, some, List, [], ◌∷◌, All, int_eq, string_eq, arith,
  map,
}
use globalmail.Prelude.Int.{ℤ, positive_or}
use globalmail.Prelude.Dict.{lookup}
use globalmail.Types.{Time}
use globalmail.Gateway.Pool.{
  Session, SessionShard, ConnectionPool, Closed, new_shards, new_connection_pool, set_session,
  delete_session, sweep_shard, at_shard, find_conn, get_by_conn_id, sweep_expired, close_all,
  shard_index, set, delete,
}
use globalmail.Gateway.Indexes.{
  IsIndexed, set_session-IsIndexed, delete_found-IsIndexed, sweep_sessions-IsIndexed,
}

-- An operation of the pool.
pub data PoolCall : Type 0 where
  sets : Session → PoolCall
  deletes : ℤ → PoolCall
  sweeps : Time → PoolCall
  closes : PoolCall

at_shard-All :
    (i : ℕ) (f : SessionShard → SessionShard × Closed) (pool : ConnectionPool)
    → ((shard : SessionShard) → IsIndexed shard → IsIndexed (f shard).0)
    → All IsIndexed pool
    → All IsIndexed (at_shard i f pool).0
unfolding at_shard
at_shard-All i f [] keeps w = tt
at_shard-All zero f (shard ∷ shards) keeps w = (keeps shard w.0, w.1)
at_shard-All (suc i) f (shard ∷ shards) keeps w = (w.0, at_shard-All i f shards keeps w.1)

sweep_expired-All :
    (now : Time) (pool : ConnectionPool)
    → All IsIndexed pool
    → All IsIndexed (sweep_expired now pool).0
unfolding sweep_expired sweep_shard
sweep_expired-All now [] w = tt
sweep_expired-All now (shard ∷ shards) w = (
  sweep_sessions-IsIndexed now (map (λ e. e.0) shard.sessions) shard w.0,
  sweep_expired-All now shards w.1,
)

empty-IsIndexed : IsIndexed (record { sessions = []; conn_index = [] })
unfolding lookup
empty-IsIndexed c u h = absurd (ground (arith, h))

close_all-All : (pool : ConnectionPool) → All IsIndexed (close_all pool).0
unfolding close_all
close_all-All [] = tt
close_all-All (shard ∷ shards) = (empty-IsIndexed, close_all-All shards)

new_shards-All : (n : ℕ) → All IsIndexed (new_shards n)
unfolding new_shards
new_shards-All zero = tt
new_shards-All (suc n) = (empty-IsIndexed, new_shards-All n)

module _ (fnv : ℤ → ℕ) where
  abbrev pub call : PoolCall → ConnectionPool → ConnectionPool
  call (sets session) pool = (set fnv session pool).0
  call (deletes uid) pool = (delete fnv uid pool).0
  call (sweeps now) pool = (sweep_expired now pool).0
  call closes pool = (close_all pool).0

  abbrev pub calls : List PoolCall → ConnectionPool → ConnectionPool
  calls [] pool = pool
  calls (c ∷ cs) pool = calls cs (call c pool)

  call-All :
      (c : PoolCall) (pool : ConnectionPool) → All IsIndexed pool → All IsIndexed (call c pool)
  unfolding set delete delete_session
  call-All (sets session) pool w =
      at_shard-All (shard_index fnv session.uid pool) (set_session session) pool
        (λ shard v c u. set_session-IsIndexed session shard v c u) w
  call-All (deletes uid) pool w =
      at_shard-All (shard_index fnv uid pool) (delete_session uid) pool
        (λ shard. delete_found-IsIndexed uid shard (lookup uid shard.sessions) refl) w
  call-All (sweeps now) pool w = sweep_expired-All now pool w
  call-All closes pool w = close_all-All pool

  calls-All :
      (cs : List PoolCall) (pool : ConnectionPool)
      → All IsIndexed pool
      → All IsIndexed (calls cs pool)
  calls-All [] pool w = w
  calls-All (c ∷ cs) pool w = calls-All cs (call c pool) (call-All c pool w)

  find_conn-conn_id :
      (c : String) (pool : ConnectionPool) (s : Session)
      → All IsIndexed pool
      → find_conn c pool ≡ some s
      → s.conn_id ≡ c
  unfolding find_conn
  find_conn-conn_id c [] s w h = absurd (ground (arith, h))
  find_conn-conn_id c (shard ∷ shards) s w h =
      by_entry (lookup c shard.conn_index) (find_conn-conn_id c shards s w.1) refl
    where
      by_entry :
          (o : Option ℤ)
          → (find_conn c shards ≡ some s → s.conn_id ≡ c)
          → lookup c shard.conn_index ≡ o
          → s.conn_id ≡ c
      by_entry none later e = later (ground (arith, e, h))
      by_entry (some uid) later e = let (ne, (t, l, q)) = w.0 c uid e in ground (arith, e, h, l, q)

  -- Whatever was done to a new pool, a session that is found by a connection id has that id: the
  -- index of connections never leads to another connection's session.
  pub get_by_conn_id-conn_id :
      (shard_count : ℤ) (cs : List PoolCall) (c : String) (s : Session)
      → get_by_conn_id c (calls cs (new_connection_pool shard_count)) ≡ some s
      → s.conn_id ≡ c
  unfolding get_by_conn_id new_connection_pool
  get_by_conn_id-conn_id shard_count cs c s h =
      let pool = calls cs (new_connection_pool shard_count) in
      find_conn-conn_id c pool s
        (calls-All cs (new_connection_pool shard_count)
          (new_shards-All (positive_or shard_count 32)))
        (ground (arith, h))
