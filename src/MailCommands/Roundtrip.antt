-- ===== src/MailCommands/Roundtrip.antt =====
-- app/playersrv/mail_rpc.go: what a message keeps of a player's state.
use globalmail.Prelude.{◌≡◌, refl, List, [], ◌∷◌, All, arith, String, map}
use globalmail.Prelude.Int.{ℤ, InRange, wrap32, wrap32_id}
use globalmail.Types.{Time, UserGlobalMailState}
use globalmail.MailCommands.{to_int_slice, to_int32_slice, to_rpc_mail_state}

to_int32_slice_id :
    (values : List ℤ) → All (InRange 2147483648) values → map (λ v. v) (map wrap32 values) ≡ values
to_int32_slice_id [] h = refl
to_int32_slice_id (v ∷ values) h = ground (arith, wrap32_id v h.0, to_int32_slice_id values h.1)

-- A state whose server, version and claimed indexes fit in 32 bits is sent with these numbers, and
-- the claimed indexes come back as they were.
to_int_slice-to_rpc_mail_state :
    (format : Time → String) (state : UserGlobalMailState)
    → InRange 2147483648 state.server_id
    → InRange 2147483648 state.version
    → All (InRange 2147483648) state.claimed_loot_indexes
    → let message = to_rpc_mail_state format state in
      (to_int_slice message.claimed_loot_indexes ≡ state.claimed_loot_indexes)
      × ((message.server_id ≡ state.server_id) × (message.version ≡ state.version))
unfolding to_int_slice to_int32_slice to_rpc_mail_state
to_int_slice-to_rpc_mail_state format state s v h = (
  to_int32_slice_id state.claimed_loot_indexes h,
  (wrap32_id state.server_id s, wrap32_id state.version v),
)
