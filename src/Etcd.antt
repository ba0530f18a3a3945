-- ===== src/Etcd.antt =====
-- infra/etcd/registry.go and discovery.go, and app/gatewaysrv/etcd_provider.go: the instances of a
-- service in etcd. The client's calls are a record with what etcd documents of them; a key is its
-- service and its instance, and `lease` says which lease a stored value is attached to.
use globalmail.Prelude.{
  ℕ, ◌/◌, ◌≡◌, ◌≢◌, String, Option, none, some, List, [], ◌∷◌, map, Result, ok, err, Action, pure,
  raise, or_raise, ◌>>=◌, ◌>>◌, ◌==◌, string_eq, int_eq, if◌then◌else◌,
}
use globalmail.Prelude.Int.{ℤ, pos}
use globalmail.Types.{Time, Bytes, Error, encode_error, decode_error, service_instance_not_found}
use globalmail.Gateway.Ring.{PlayerServerInstance}
pub mod Leases

pub record Instance : Type 0 where
  pub service_name : String
  pub instance_id : String
  pub public_addr : String
  pub grpc_addr : String
  pub frpc_addr : String
  pub status : String
  pub weight : ℤ
  pub zone : String
  pub version : String
  pub update_time : Time

abbrev pub InstanceKey : Type 0
InstanceKey = String × String

pub record EtcdClient (W : Type 0) : Type 0 where
  pub grant : ℤ → Action W Error ℤ
  pub put : InstanceKey → Bytes → Option ℤ → Action W Error (Unit {0})
  pub get : InstanceKey → Action W Error (Option Bytes)
  pub get_service : String → Action W Error (List Bytes)
  pub delete : InstanceKey → Action W Error (Unit {0})
  pub keep_alive : ℤ → Action W Error (Unit {0})

-- What is stored under a key, with its lease.
pub record EtcdView (W : Type 0) : Type 0 where
  pub stored : W → InstanceKey → Option (Bytes × Option ℤ)

-- A put without a lease leaves the key without one, whatever lease it had.
pub record IsEtcd {W : Type 0} (client : EtcdClient W) (view : EtcdView W) : Type 0 where
  pub put_ok :
      (k : InstanceKey) (b : Bytes) (lease : Option ℤ) (w w' : W)
      → client.put k b lease w ≡ (ok tt, w')
      → view.stored w' k ≡ some (b, lease)
  pub keep_alive_ok :
      (lease : ℤ) (w w' : W)
      → client.keep_alive lease w ≡ (ok tt, w')
      → (k : InstanceKey) → view.stored w' k ≡ view.stored w k

-- encoding/json at Instance.
pub record InstanceCodec : Type 0 where
  pub encode : Instance → Option Bytes
  pub decode : Bytes → Option Instance

-- `int64(ttl.Seconds())`.
unfoldable pub lease_seconds : ℕ → ℕ
lease_seconds ttl = ttl / 1000000000

unfoldable pub with_defaults : Instance → Time → Instance
with_defaults i now = record i {
  service_name = if i.service_name == "" then "unknown" else i.service_name;
  status = if i.status == "" then "ready" else i.status;
  weight = if i.weight == pos 0 then pos 100 else i.weight;
  update_time = now;
}

-- `json.Unmarshal` of every value.
unfoldable pub decode_all : InstanceCodec → List Bytes → Option (List Instance)
decode_all codec [] = some []
decode_all codec (b ∷ bs) = elim (codec.decode b) [
  | none ↦ none
  | some i ↦ elim (decode_all codec bs) [ none ↦ none | some is ↦ some (i ∷ is) ]
]

unfoldable pub ready_only : List Instance → List Instance
ready_only [] = []
ready_only (i ∷ is) = if i.status == "ready" then i ∷ ready_only is else ready_only is

module _ {W : Type 0} (client : EtcdClient W) (codec : InstanceCodec) (lease_ttl : ℕ) where
  unfoldable pub register_instance : Instance → Time → Action W Error (Unit {0})
  unfolding with_defaults lease_seconds
  register_instance instance' now = do
    let i = with_defaults instance' now
    lease ← client.grant (pos (lease_seconds lease_ttl))
    payload ← or_raise (codec.encode i) encode_error
    client.put (i.service_name, i.instance_id) payload (some lease)
    client.keep_alive lease

  -- The rest of `UpdateStatus` once the value is read; the put names no lease.
  unfoldable pub put_status : InstanceKey → String → Time → Option Bytes → Action W Error (Unit {0})
  put_status key status now none = raise service_instance_not_found
  put_status key status now (some value) = do
    i ← or_raise (codec.decode value) decode_error
    payload ← or_raise (codec.encode (record i { status = status; update_time = now })) encode_error
    client.put key payload none

  unfoldable pub update_status : String → String → String → Time → Action W Error (Unit {0})
  unfolding put_status
  update_status service_name instance_id status now = do
    found ← client.get (service_name, instance_id)
    put_status (service_name, instance_id) status now found

  unfoldable pub unregister : String → String → Action W Error (Unit {0})
  unregister service_name instance_id = client.delete (service_name, instance_id)

  unfoldable pub list_ready : String → Action W Error (List Instance)
  unfolding decode_all ready_only
  list_ready service_name = do
    values ← client.get_service service_name
    instances ← or_raise (decode_all codec values) decode_error
    pure (ready_only instances)

  abbrev pub to_player_server : Instance → PlayerServerInstance
  to_player_server i = record {
    instance_id = i.instance_id;
    grpc_addr = i.grpc_addr;
    frpc_addr = i.frpc_addr;
    weight = i.weight;
  }

  -- EtcdPlayerServerProvider, the gateway's list of player servers.
  unfoldable pub list_ready_player_servers : Action W Error (List PlayerServerInstance)
  unfolding list_ready
  list_ready_player_servers = do
    instances ← list_ready "playersrv"
    pure (map to_player_server instances)
