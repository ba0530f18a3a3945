-- ===== src/Etcd/Leases.antt =====
-- infra/etcd/registry.go: the lease of an instance.
use globalmail.Prelude.{
  ℕ, ◌≡◌, ◌∙◌, arith, String, Option, none, some, ok, Action, or_raise, ◌>>=◌, >>=-eq-ok,
}
use globalmail.Prelude.Int.{ℤ, pos}
use globalmail.Types.{Time, Bytes, Error, encode_error, decode_error}
use globalmail.Etcd.{
  Instance, InstanceKey, EtcdClient, EtcdView, IsEtcd, InstanceCodec, lease_seconds, with_defaults,
  register_instance, put_status, update_status,
}

module _ {W : Type 0} (client : EtcdClient W) (codec : InstanceCodec) (lease_ttl : ℕ)
    (view : EtcdView W) (law : IsEtcd client view) where
  -- An instance that was registered is stored with a lease, so that it goes away with its process.
  register_instance-leased :
      (i : Instance) (now : Time) (w w' : W)
      → register_instance client codec lease_ttl i now w ≡ (ok tt, w')
      → (payload : Bytes) × (lease : ℤ) × (view.stored w'
            ((with_defaults i now).service_name, i.instance_id)
          ≡ some (payload, some lease))
  unfolding register_instance with_defaults
  register_instance-leased i now w w' h =
      let j = with_defaults i now in
      let key : InstanceKey = (j.service_name, i.instance_id) in
      let keep : ℤ → Unit {0} → Action W Error (Unit {0}) = λ lease _. client.keep_alive lease in
      let write : ℤ → Bytes → Action W Error (Unit {0}) =
        λ lease payload. client.put key payload (some lease) >>= keep lease in
      let with_lease : ℤ → Action W Error (Unit {0}) =
        λ lease. or_raise (codec.encode j) encode_error >>= write lease in
      let (lease, w₁, e, f) =
        >>=-eq-ok (client.grant (pos (lease_seconds lease_ttl))) with_lease w w' tt h in
      let (payload, w₂, e', f') =
        >>=-eq-ok (or_raise (codec.encode j) encode_error) (write lease) w₁ w' tt f in
      let (u, w₃, e'', f'') =
        >>=-eq-ok (client.put key payload (some lease)) (keep lease) w₂ w' tt f' in
      (
        payload,
        lease,
        law.keep_alive_ok lease w₃ w' f'' key ∙ law.put_ok key payload (some lease) w₂ w₃ e'',
      )

  put_status-unleased :
      (key : InstanceKey) (status : String) (now : Time) (found : Option Bytes) (w w' : W)
      → put_status client codec lease_ttl key status now found w ≡ (ok tt, w')
      → (payload : Bytes) × (view.stored w' key ≡ some (payload, none))
  unfolding put_status
  put_status-unleased key status now none w w' h = absurd (ground (arith, h))
  put_status-unleased key status now (some value) w w' h =
      let changed : Instance → Instance = λ i. record i { status = status; update_time = now } in
      let write : Bytes → Action W Error (Unit {0}) = λ payload. client.put key payload none in
      let with_instance : Instance → Action W Error (Unit {0}) =
        λ i. or_raise (codec.encode (changed i)) encode_error >>= write in
      let (i, w₁, e, f) =
        >>=-eq-ok (or_raise (codec.decode value) decode_error) with_instance w w' tt h in
      let (payload, w₂, e', f') =
        >>=-eq-ok (or_raise (codec.encode (changed i)) encode_error) write w₁ w' tt f in
      (payload, law.put_ok key payload none w₂ w' f')

  -- The flaw: after a change of the status that succeeded, what etcd holds under the instance's
  -- key is attached to no lease.
  pub update_status-unleased :
      (service_name instance_id status : String) (now : Time) (w w' : W)
      → update_status client codec lease_ttl service_name instance_id status now w ≡ (ok tt, w')
      → (payload : Bytes) × (view.stored w' (service_name, instance_id) ≡ some (payload, none))
  unfolding update_status
  update_status-unleased service_name instance_id status now w w' h =
      let key : InstanceKey = (service_name, instance_id) in
      let (found, w₁, e, f) =
        >>=-eq-ok (client.get key) (put_status client codec lease_ttl key status now) w w' tt h in
      put_status-unleased key status now found w₁ w' f
