-- ===== src/Gateway/Indexes.antt =====
-- app/gatewaysrv/connection.go: the two indexes of a shard, whatever is done to it.
use globalmail.Prelude.{
  ◌≡◌, ◌≢◌, refl, sym, Bool, true, false, String, Option, none, some, List, [], ◌∷◌, int_eq,
  string_eq, ==_cases, ==_refl, ◌⊎◌, ◌∙◌, inl, inr, arith, if◌then◌else◌, ltb,
}
use globalmail.Prelude.Int.{ℤ}
use globalmail.Prelude.Dict.{Dict, lookup, insert, erase, lookup-insert, lookup-erase}
use globalmail.Types.{Time}
use globalmail.Gateway.Pool.{
  Session, SessionShard, unindex_conn, unindex_old, set_session, drop_session, delete_found,
  drop_expired, sweep_sessions,
}

-- An entry of the index of connections leads to a session that has this connection.
abbrev pub IsIndexed : SessionShard → Type 0
IsIndexed shard =
    (c : String) (uid : ℤ)
    → lookup c shard.conn_index ≡ some uid
    → (c ≢ "") × ((s : Session) × (lookup uid shard.sessions ≡ some s) × (s.conn_id ≡ c))

unindex_conn-lookup :
    (c d : String) (u : ℤ) (index : Dict String ℤ)
    → lookup c (unindex_conn d index) ≡ some u
    → (lookup c index ≡ some u) × ((d ≡ "") ⊎ (d ≢ c))
unindex_conn-lookup c d u index h = elim (==_cases d "") [
  | inl (e, b) ↦ (ground (arith, h, b), inl e)
  | inr (n, b) ↦
      let l = lookup-erase c d index in
      elim (==_cases d c) [
        | inl (p, q) ↦ absurd (ground (arith, h, b, l, q))
        | inr (p, q) ↦ (ground (arith, h, b, l, q), inr p)
      ]
]

-- What is left of an index entry once the replaced session's connection is taken out.
unindex_old-lookup :
    (session s : Session) (c : String) (u : ℤ) (index : Dict String ℤ)
    → c ≢ ""
    → lookup c (unindex_old session (some s) index) ≡ some u
    → s.conn_id ≡ c
    → session.conn_id ≡ c
unindex_old-lookup session s c u index ne h e = elim (==_cases s.conn_id session.conn_id) [
  | inl (p, b) ↦ sym p ∙ e
  | inr (n, b) ↦
      let l = unindex_conn-lookup c s.conn_id u index (ground (arith, h, b)) in
      elim l.1 [ inl z ↦ absurd (ne (sym e ∙ z)) | inr z ↦ absurd (z e) ]
]

unindex_old-before :
    (session : Session) (o : Option Session) (c : String) (u : ℤ) (index : Dict String ℤ)
    → lookup c (unindex_old session o index) ≡ some u
    → lookup c index ≡ some u
unindex_old-before session none c u index h = h
unindex_old-before session (some s) c u index h = elim (==_cases s.conn_id session.conn_id) [
  | inl (p, b) ↦ ground (arith, h, b)
  | inr (n, b) ↦ (unindex_conn-lookup c s.conn_id u index (ground (arith, h, b))).0
]

module _ (session : Session) (shard : SessionShard) (w : IsIndexed shard) (c : String) (u : ℤ) where
  -- An entry that was there before the session came.
  kept_entry :
      lookup c (unindex_old session (lookup session.uid shard.sessions) shard.conn_index) ≡ some u
      → (c ≢ "")
        × ((s : Session) × (lookup u (insert session.uid session shard.sessions) ≡ some s)
            × (s.conn_id ≡ c))
  kept_entry h =
      let old = lookup session.uid shard.sessions in
      let (ne, (s, l, e)) = w c u (unindex_old-before session old c u shard.conn_index h) in
      let i = lookup-insert u session.uid session shard.sessions in
      elim (==_cases session.uid u) [
        | inl (p, b) ↦ (
          ne,
          (
            session,
            ground (arith, i, b),
            unindex_old-lookup session s c u shard.conn_index ne (ground (arith, h, l, p)) e,
          ),
        )
        | inr (n, b) ↦ (ne, (s, ground (arith, i, b, l), e))
      ]

  pub set_session-IsIndexed :
      lookup c (set_session session shard).0.conn_index ≡ some u
      → (c ≢ "")
        × ((s : Session) × (lookup u (set_session session shard).0.sessions ≡ some s)
            × (s.conn_id ≡ c))
  unfolding set_session
  set_session-IsIndexed h =
      let index = unindex_old session (lookup session.uid shard.sessions) shard.conn_index in
      let i = lookup-insert c session.conn_id session.uid index in
      let j = lookup-insert u session.uid session shard.sessions in
      elim (==_cases session.conn_id "") [
        | inl (p, b) ↦ kept_entry (ground (arith, h, b))
        | inr (n, b) ↦ elim (==_cases session.conn_id c) [
          | inl (q, d) ↦ (
            λ z. n (q ∙ z),
            (session, ground (arith, h, b, i, d, j, ==_refl {A = ℤ} session.uid), q),
          )
          | inr (q, d) ↦ kept_entry (ground (arith, h, b, i, d))
        ]
      ]

drop_session-IsIndexed :
    (session : Session) (uid : ℤ) (shard : SessionShard)
    → lookup uid shard.sessions ≡ some session
    → IsIndexed shard
    → IsIndexed (drop_session session uid shard)
unfolding drop_session
drop_session-IsIndexed session uid shard found w c u h =
    let (old, apart) = unindex_conn-lookup c session.conn_id u shard.conn_index h in
    let (ne, (s, l, e)) = w c u old in
    elim (==_cases uid u) [
      | inl (p, b) ↦
          let same : session.conn_id ≡ c = ground (arith, found, l, p, e) in
          elim apart [ inl z ↦ absurd (ne (sym same ∙ z)) | inr z ↦ absurd (z same) ]
      | inr (n, b) ↦ (ne, (s, ground (arith, lookup-erase u uid shard.sessions, b, l), e))
    ]

-- A uid without a session leaves the indexes as they are.
erase-IsIndexed :
    (uid : ℤ) (shard : SessionShard)
    → lookup uid shard.sessions ≡ none
    → IsIndexed shard
    → IsIndexed (record shard { sessions = erase uid shard.sessions })
erase-IsIndexed uid shard gone w c u h =
    let (ne, (s, l, e)) = w c u h in
    elim (==_cases uid u) [
      | inl (p, b) ↦ absurd (ground (arith, gone, l, p))
      | inr (n, b) ↦ (ne, (s, ground (arith, lookup-erase u uid shard.sessions, b, l), e))
    ]

pub delete_found-IsIndexed :
    (uid : ℤ) (shard : SessionShard) (o : Option Session)
    → lookup uid shard.sessions ≡ o
    → IsIndexed shard
    → IsIndexed (delete_found uid shard o).0
delete_found-IsIndexed uid shard none e w = erase-IsIndexed uid shard e w
delete_found-IsIndexed uid shard (some old) e w = drop_session-IsIndexed old uid shard e w

abbrev fst_of : SessionShard × List Session → SessionShard
fst_of p = p.0

drop_expired-IsIndexed :
    (now : Time) (uid : ℤ) (shard : SessionShard) (o : Option Session)
    → lookup uid shard.sessions ≡ o
    → IsIndexed shard
    → IsIndexed (drop_expired now uid shard o).0
drop_expired-IsIndexed now uid shard none e w = w
drop_expired-IsIndexed now uid shard (some old) e w = either (ltb old.expire_at now)
  where
    either :
        (b : Bool)
        → IsIndexed (fst_of (if b then (drop_session old uid shard, old ∷ []) else (shard, [])))
    either true = drop_session-IsIndexed old uid shard e w
    either false = w

pub sweep_sessions-IsIndexed :
    (now : Time) (uids : List ℤ) (shard : SessionShard)
    → IsIndexed shard
    → IsIndexed (sweep_sessions now uids shard).0
unfolding sweep_sessions
sweep_sessions-IsIndexed now [] shard w = w
sweep_sessions-IsIndexed now (uid ∷ uids) shard w =
    sweep_sessions-IsIndexed now uids (drop_expired now uid shard (lookup uid shard.sessions)).0
      (drop_expired-IsIndexed now uid shard (lookup uid shard.sessions) refl w)
