-- ===== src/Gateway/Ring.antt =====
-- app/gatewaysrv/router.go: ConsistentHashRouter. The hashes are parameters:
-- `crc32.ChecksumIEEE(fmt.Sprintf("%s#%d", id, i))` is `virtual_hash id i`, and
-- `crc32.ChecksumIEEE(strconv.FormatInt(uid, 10))` is `uid_hash uid`.
use globalmail.Prelude.{
  ℕ, zero, suc, String, none, some, List, [], ◌∷◌, ◌++◌, leb, ◌==◌, string_eq, nat_eq,
  if◌then◌else◌, sort, length, ◌*◌, ◌/◌, ltb, get_elem?, Result, ok, err,
}
use globalmail.Prelude.Int.{ℤ, pos, negsuc, sub_ℕ, positive_or, wrap64}
use globalmail.Prelude.Dict.{Dict, lookup, insert}
use globalmail.Types.{Error, no_player_server}

pub record PlayerServerInstance : Type 0 where
  pub instance_id : String
  pub grpc_addr : String
  pub frpc_addr : String
  pub weight : ℤ

pub record ConsistentHashRouter : Type 0 where
  pub virtual_nodes : ℕ
  pub ring : List ℕ
  pub nodes : Dict ℕ PlayerServerInstance

-- What a Go map of structs answers on a missing key.
abbrev pub no_instance : PlayerServerInstance
no_instance = record { instance_id = ""; grpc_addr = ""; frpc_addr = ""; weight = pos 0 }

-- Go's `n / 100`, towards zero.
abbrev pub div_100 : ℤ → ℤ
div_100 (pos n) = pos (n / 100)
div_100 (negsuc n) = sub_ℕ 0 (suc n / 100)

unfoldable pub replicas : ℕ → ℤ → ℕ
replicas virtual_nodes weight =
    positive_or (div_100 (wrap64 (pos (virtual_nodes * positive_or weight 100)))) 1

-- sort.Search over the sorted ring: the first index whose hash is at least the given one, the length
-- where there is none.
unfoldable pub search : ℕ → List ℕ → ℕ
search hash [] = 0
search hash (h ∷ hs) = if leb hash h then 0 else suc (search hash hs)

unfoldable pub node_at : ConsistentHashRouter → ℕ → PlayerServerInstance
node_at r idx = elim (get_elem? r.ring idx) [
  | none ↦ no_instance
  | some hash ↦ elim (lookup hash r.nodes) [ none ↦ no_instance | some instance ↦ instance ]
]

module _ (virtual_hash : String → ℕ → ℕ) (uid_hash : ℤ → ℕ) where
  -- The inner loop of Update, from replica `i` on, with `left` replicas to go.
  unfoldable pub add_replicas :
      PlayerServerInstance → ℕ → ℕ → ConsistentHashRouter → ConsistentHashRouter
  add_replicas instance i zero r = r
  add_replicas instance i (suc left) r =
      let hash = virtual_hash instance.instance_id i in
      add_replicas instance (suc i) left
        (record r { ring = r.ring ++ hash ∷ []; nodes = insert hash instance r.nodes })

  -- The body of the loop over the instances.
  unfoldable pub add_instance : PlayerServerInstance → ConsistentHashRouter → ConsistentHashRouter
  unfolding add_replicas replicas
  add_instance instance r =
      if instance.instance_id == ""
      then r
      else add_replicas instance 0 (replicas r.virtual_nodes instance.weight) r

  unfoldable pub add_instances :
      List PlayerServerInstance → ConsistentHashRouter → ConsistentHashRouter
  unfolding add_instance
  add_instances [] r = r
  add_instances (instance ∷ rest) r = add_instances rest (add_instance instance r)

  unfoldable pub update : List PlayerServerInstance → ConsistentHashRouter → ConsistentHashRouter
  unfolding add_instances
  update instances r =
      let filled = add_instances instances (record r { ring = []; nodes = [] }) in
      record filled { ring = sort ltb filled.ring }

  unfoldable pub new_consistent_hash_router : List PlayerServerInstance → ℤ → ConsistentHashRouter
  unfolding update
  new_consistent_hash_router instances virtual_nodes =
      update instances
        (record { virtual_nodes = positive_or virtual_nodes 100; ring = []; nodes = [] })

  unfoldable pub route_uid : ConsistentHashRouter → ℤ → Result Error PlayerServerInstance
  unfolding search node_at
  route_uid r uid =
      if length r.ring == 0
      then err no_player_server
      else let idx = search (uid_hash uid) r.ring in
        ok (node_at r (if idx == length r.ring then 0 else idx))
