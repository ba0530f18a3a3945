-- ===== src/Commands/Once.antt =====
-- app/playersrv/command_service.go: a command of a player that is sent again.
use globalmail.Prelude.{
  ◌≡◌, ◌⊎◌, inl, inr, refl, false, ◌||◌, String, Option, none, some, ok, >>=-eq-ok, ◌==◌, int_eq,
  string_eq, triple_eq, ==_refl, ==_cases, arith,
}
use globalmail.Prelude.Int.{pos}
use globalmail.Prelude.Dict.{lookup, lookup-insert_self}
use globalmail.Commands.{
  CommandRequest, CommandResponse, CommandIdempotencyRecord, IdempotentCommandDispatcher, Records,
  Key, command_idempotency_key, command_idempotency_conflict_response, answer, save, run_next,
  from_store, stored_answer, dispatch_keyed, dispatch,
}

module _ {W : Type 0} (d : IdempotentCommandDispatcher W) (req : CommandRequest) where
  -- What a dispatch leaves in the records: the answer under the key, or no trace of a conflict.
  abbrev Kept : Key → String → CommandResponse → Records → Type 0
  Kept key hash response rs =
      (response ≡ command_idempotency_conflict_response req)
      ⊎ ((r : CommandIdempotencyRecord) × (lookup key rs ≡ some r)
          × (r.hash ≡ hash)
          × (r.response ≡ response))

  run_next-Kept :
      (key : Key) (hash : String) (response : CommandResponse) (rs rs' : Records) (w w' : W)
      → run_next d req key hash (rs, w) ≡ (ok response, (rs', w'))
      → Kept key hash response rs'
  unfolding run_next save
  run_next-Kept key hash response rs rs' w w' h =
      let l = lookup-insert_self key (record { hash = hash; response = response }) rs in
      inr (record { hash = hash; response = response }, ground (arith, l), refl, refl)

  from_store-Kept :
      (key : Key) (hash : String) (found : Option (String × CommandResponse))
      (response : CommandResponse) (rs rs' : Records) (w w' : W)
      → from_store d req key hash found (rs, w) ≡ (ok response, (rs', w'))
      → Kept key hash response rs'
  unfolding from_store
  from_store-Kept key hash none response rs rs' w w' h =
      run_next-Kept key hash response rs rs' w w' h
  from_store-Kept key hash (some (stored_hash, stored)) response rs rs' w w' h =
      let l = lookup-insert_self key (record { hash = hash; response = stored }) rs in
      elim (==_cases stored_hash hash) [
        | inl (p, b) ↦ inr (
          record { hash = hash; response = stored },
          ground (arith, h, b, l),
          refl,
          ground (arith, h, b),
        )
        | inr (n, b) ↦ inl (ground (arith, h, b))
      ]

  -- An answer that was in the records is there still.
  dispatch_keyed-Kept :
      (key : Key) (hash : String) (o : Option CommandIdempotencyRecord) (response : CommandResponse)
      (rs rs' : Records) (w w' : W)
      → lookup key rs ≡ o
      → dispatch_keyed d req key hash o (rs, w) ≡ (ok response, (rs', w'))
      → Kept key hash response rs'
  unfolding dispatch_keyed answer
  dispatch_keyed-Kept key hash (some r) response rs rs' w w' l h = elim (==_cases r.hash hash) [
    | inl (p, b) ↦ inr (r, ground (arith, h, l), p, ground (arith, h, b))
    | inr (n, b) ↦ inl (ground (arith, h, b))
  ]
  dispatch_keyed-Kept key hash none response rs rs' w w' l h =
      let (found, (rs₁, w₁), asked, rest) =
        >>=-eq-ok (stored_answer d key) (from_store d req key hash) (rs, w) (rs', w') response h in
      from_store-Kept key hash found response rs₁ rs' w₁ w' rest

  -- A command with a player and a number that was answered, other than by a conflict, is answered the
  -- same when it is sent again, whatever happened in the world meanwhile; it is not run again, and
  -- nothing is read or written but the records.
  pub dispatch_again :
      (response : CommandResponse) (rs rs' : Records) (w w' v : W)
      → (req.uid == pos 0 || req.seq == pos 0) ≡ false
      → dispatch d req (rs, w) ≡ (ok response, (rs', w'))
      → (response ≡ command_idempotency_conflict_response req)
        ⊎ (dispatch d req (rs', v) ≡ (ok response, (rs', v)))
  unfolding dispatch dispatch_keyed answer
  dispatch_again response rs rs' w w' v numbered h = hashed (d.request_hash req.payload) refl
    where
      hashed :
          (o : Option String)
          → d.request_hash req.payload ≡ o
          → (response ≡ command_idempotency_conflict_response req)
            ⊎ (dispatch d req (rs', v) ≡ (ok response, (rs', v)))
      hashed none e = absurd (ground (arith, e, h, numbered))
      hashed (some hash) e =
          let key = command_idempotency_key req in
          elim (dispatch_keyed-Kept key hash (lookup key rs) response rs rs' w w' refl
            (ground (arith, e, h, numbered))) [
              | inl c ↦ inl c
              | inr (r, l, p, q) ↦
                  inr (ground (arith, e, numbered, l, q, p, ==_refl {A = String} hash))
            ]
