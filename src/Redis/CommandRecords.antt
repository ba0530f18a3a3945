-- ===== src/Redis/CommandRecords.antt =====
-- data/redis/repository.go: the records of the answered commands, which the dispatchers of all
-- player servers share.
use globalmail.Prelude.{
  ◌≡◌, ◌∙◌, ◌⊎◌, inl, inr, ==_cases, Option-cases, refl, arith, false, ◌||◌, String, Option, none,
  some, [], ◌∷◌, Result, ok, err, Action, pure, or_raise, ◌>>=◌, >>=-eq-ok, ◌==◌, ==_refl,
  string_eq, triple_eq, int_eq,
}
use globalmail.Prelude.Int.{ℤ, pos}
use globalmail.Prelude.Dict.{lookup}
use globalmail.Types.{Bytes, Error, encode_error, decode_error}
use globalmail.Commands.{
  CommandRequest, CommandResponse, CommandIdempotencyStore, IdempotentCommandDispatcher, Key,
  Records, command_idempotency_key, dispatch, dispatch_keyed, stored_answer, from_store, run_next,
  save, command_idempotency_conflict_response,
}
use globalmail.Redis.Client.{
  RedisKey, RedisClient, RedisView, IsRedis, hset, expires, command_idempotency,
}
use globalmail.Redis.Lifetimes.{default_ttl}
use globalmail.Redis.Repository.{RedisCodec}

module _ {W : Type 0} (client : RedisClient W) (codec : RedisCodec) where
  -- Both fields of the hash are there, as strings.
  abbrev pub stored_response :
      Option (String × Bytes) → Action W Error (Option (String × CommandResponse))
  stored_response none = pure none
  stored_response (some (hash, payload)) = do
    response ← or_raise (codec.decode_response payload) decode_error
    pure (some (hash, response))

  unfoldable pub get_command_idempotency : Key → Action W Error (Option (String × CommandResponse))
  get_command_idempotency key = do
    values ← client.hm_get (command_idempotency key)
    stored_response values

  unfoldable pub save_command_idempotency :
      Key → String → CommandResponse → ℤ → Action W Error (Unit {0})
  unfolding default_ttl
  save_command_idempotency key request_hash response ttl = do
    payload ← or_raise (codec.encode_response response) encode_error
    let redis_key = command_idempotency key
    client.exec (hset redis_key request_hash payload ∷ expires redis_key (default_ttl ttl 600) ∷ [])

  -- The store of the dispatchers.
  unfoldable pub command_store : CommandIdempotencyStore W
  unfolding get_command_idempotency save_command_idempotency
  command_store = record {
    get_command_idempotency = get_command_idempotency;
    save_command_idempotency =
        λ key hash response ttl. save_command_idempotency key hash response (pos ttl);
  }

  module _ (view : RedisView W) (law : IsRedis client view) where
    -- An answer that was saved is what the next read of its key finds, if protobuf decodes what it
    -- has encoded.
    save-get_command_idempotency :
        (key : Key) (hash : String) (response : CommandResponse) (payload : Bytes) (ttl : ℤ)
        (found : Option (String × CommandResponse)) (w w' w'' : W)
        → codec.encode_response response ≡ some payload
        → codec.decode_response payload ≡ some response
        → save_command_idempotency key hash response ttl w ≡ (ok tt, w')
        → get_command_idempotency key w' ≡ (ok found, w'')
        → found ≡ some (hash, response)
    unfolding save_command_idempotency get_command_idempotency
    save-get_command_idempotency key hash response payload ttl found w w' w'' enc dec s g =
        let k = command_idempotency key in
        let l = law.hset_ok k hash payload (default_ttl ttl 600) w w' (ground (arith, s, enc)) in
        let (values, w₁, e, f) = >>=-eq-ok (client.hm_get k) stored_response w' w'' found g in
        let v = law.hm_get_ok k values w' w₁ e in ground (arith, f, v, l, dec)

module _ {W : Type 0} (client : RedisClient W) (codec : RedisCodec) (view : RedisView W)
    (law : IsRedis client view) where
  -- Redis holds the answer of a command.
  abbrev Stored : CommandRequest → String → CommandResponse → W → Type 0
  Stored req hash response w =
      (payload : Bytes) × ((view.hash w (command_idempotency (command_idempotency_key req))
          ≡ some (hash, payload))
        × (codec.decode_response payload ≡ some response))

  module _ (d : IdempotentCommandDispatcher W) (wired : d.store ≡ some (command_store client codec))
      (req : CommandRequest) (numbered : (req.uid == pos 0 || req.seq == pos 0) ≡ false)
      (hash : String) (hashed : d.request_hash req.payload ≡ some hash) where
    run_next-Stored :
        (response : CommandResponse) (rs rs' : Records) (w w' : W)
        → ((payload : Bytes)
            → codec.encode_response response ≡ some payload
            → codec.decode_response payload ≡ some response)
        → run_next d req (command_idempotency_key req) hash (rs, w) ≡ (ok response, (rs', w'))
        → Stored req hash response w'
    unfolding run_next save command_store save_command_idempotency
    run_next-Stored response rs rs' w w' dec h = by_next (d.next req w) refl
      where
        k : RedisKey
        k = command_idempotency (command_idempotency_key req)

        saved :
            (v : W) (o : Option Bytes)
            → codec.encode_response response ≡ o
            → save_command_idempotency client codec
                (command_idempotency_key req)
                hash
                response
                (pos d.ttl)
                v
              ≡ (ok tt, w')
            → Stored req hash response w'
        saved v none e s = absurd (ground (arith, e, s))
        saved v (some payload) e s =
            let l =
              law.hset_ok k hash payload (default_ttl (pos d.ttl) 600) v w'
                (ground (arith, e, s)) in
            (payload, (l, dec payload e))

        by_next :
            (r : Result Error CommandResponse × W) → d.next req w ≡ r → Stored req hash response w'
        by_next (err x, v) e = absurd (ground (arith, e, h))
        by_next (ok answer, v) e =
            by_save
              (save_command_idempotency client codec (command_idempotency_key req) hash answer
                (pos d.ttl) v)
              refl
          where
            by_save :
                (r : Result Error (Unit {0}) × W)
                → save_command_idempotency client codec
                    (command_idempotency_key req)
                    hash
                    answer
                    (pos d.ttl)
                    v
                  ≡ r
                → Stored req hash response w'
            by_save (err x, v') f = absurd (ground (arith, e, h, wired, f))
            by_save (ok u, v') f =
                saved v (codec.encode_response response) refl (ground (arith, e, h, wired, f))

    from_store-Stored :
        (values : Option (String × Bytes)) (response : CommandResponse) (rs rs' : Records)
        (w w' : W)
        → ((payload : Bytes)
            → codec.encode_response response ≡ some payload
            → codec.decode_response payload ≡ some response)
        → client.hm_get (command_idempotency (command_idempotency_key req)) w ≡ (ok values, w)
        → values ≡ view.hash w (command_idempotency (command_idempotency_key req))
        → dispatch_keyed d req (command_idempotency_key req) hash none (rs, w)
          ≡ (ok response, (rs', w'))
        → (response ≡ command_idempotency_conflict_response req) ⊎ Stored req hash response w'
    unfolding dispatch_keyed stored_answer from_store command_store get_command_idempotency
    from_store-Stored none response rs rs' w w' dec asked seen h =
        inr (run_next-Stored response rs rs' w w' dec (ground (arith, h, wired, asked)))
    from_store-Stored (some (stored, payload)) response rs rs' w w' dec asked seen h =
        elim (Option-cases (codec.decode_response payload)) [
          | inl z ↦ absurd (ground (arith, h, wired, asked, z))
          | inr (r, z) ↦ elim (==_cases stored hash) [
            | inr (n, b) ↦ inl (ground (arith, h, wired, asked, z, b))
            | inl (p, b) ↦ inr (
              payload,
              (
                ground (arith, h, wired, asked, z, b, seen, p),
                ground (arith, h, wired, asked, z, b),
              ),
            )
          ]
        ]

    dispatch-Stored :
        (response : CommandResponse) (rs rs' : Records) (w w' : W)
        → ((payload : Bytes)
            → codec.encode_response response ≡ some payload
            → codec.decode_response payload ≡ some response)
        → lookup (command_idempotency_key req) rs ≡ none
        → dispatch d req (rs, w) ≡ (ok response, (rs', w'))
        → (response ≡ command_idempotency_conflict_response req) ⊎ Stored req hash response w'
    unfolding dispatch dispatch_keyed stored_answer command_store get_command_idempotency
    dispatch-Stored response rs rs' w w' dec l h =
        by_read (client.hm_get (command_idempotency (command_idempotency_key req)) w) refl
      where
        keyed :
            dispatch_keyed d req (command_idempotency_key req) hash none (rs, w)
            ≡ (ok response, (rs', w'))
        keyed = ground (arith, h, numbered, hashed, l)

        by_read :
            (r : Result Error (Option (String × Bytes)) × W)
            → client.hm_get (command_idempotency (command_idempotency_key req)) w ≡ r
            → (response ≡ command_idempotency_conflict_response req) ⊎ Stored req hash response w'
        by_read (err x, v) e = absurd (ground (arith, keyed, e, wired))
        by_read (ok values, v) e =
            let (g, z) =
              law.hm_get_ok (command_idempotency (command_idempotency_key req)) values w v e in
            from_store-Stored values response rs rs' w w' dec (ground (arith, e, z)) g keyed

    stored-dispatch :
        (response answer : CommandResponse) (rs rs' : Records) (w w' : W)
        → Stored req hash response w
        → lookup (command_idempotency_key req) rs ≡ none
        → dispatch d req (rs, w) ≡ (ok answer, (rs', w'))
        → (answer ≡ response) × (w' ≡ w)
    unfolding dispatch dispatch_keyed stored_answer from_store command_store get_command_idempotency
    stored-dispatch response answer rs rs' w w' (payload, (v, dec)) l h =
        by_read (client.hm_get (command_idempotency (command_idempotency_key req)) w) refl
      where
        by_read :
            (r : Result Error (Option (String × Bytes)) × W)
            → client.hm_get (command_idempotency (command_idempotency_key req)) w ≡ r
            → (answer ≡ response) × (w' ≡ w)
        by_read (err x, w₁) f = absurd (ground (arith, wired, numbered, hashed, l, h, f))
        by_read (ok values, w₁) f =
            let (g, z) =
              law.hm_get_ok (command_idempotency (command_idempotency_key req)) values w w₁ f in
            let f' : client.hm_get (command_idempotency (command_idempotency_key req)) w
                ≡ (ok (some (hash, payload)), w) =
              ground (arith, f, g, z, v) in
            ground (arith, wired, numbered, hashed, l, h, f', dec, ==_refl hash)

  -- Two player servers over one Redis, with the same digest. The first, which had no record of a
  -- command with a player and a number, answers it; the second, which has none either, gets it while
  -- Redis still holds under its key what it held then, and does not fail. Unless the first answer was
  -- a conflict, the second is the same, and the world stays as it was, so the command is not run
  -- again. What is encoded of the answer decodes to it.
  pub dispatch_from_redis :
      (first second : IdempotentCommandDispatcher W) (req : CommandRequest) (hash : String)
      (response answer : CommandResponse) (rs rs₁ other other₁ : Records) (w w₁ v v₁ : W)
      → first.store ≡ some (command_store client codec)
      → second.store ≡ some (command_store client codec)
      → (req.uid == pos 0 || req.seq == pos 0) ≡ false
      → first.request_hash req.payload ≡ some hash
      → second.request_hash req.payload ≡ some hash
      → ((payload : Bytes)
          → codec.encode_response response ≡ some payload
          → codec.decode_response payload ≡ some response)
      → lookup (command_idempotency_key req) rs ≡ none
      → lookup (command_idempotency_key req) other ≡ none
      → dispatch first req (rs, w) ≡ (ok response, (rs₁, w₁))
      → view.hash v (command_idempotency (command_idempotency_key req))
        ≡ view.hash w₁ (command_idempotency (command_idempotency_key req))
      → dispatch second req (other, v) ≡ (ok answer, (other₁, v₁))
      → (response ≡ command_idempotency_conflict_response req) ⊎ ((answer ≡ response) × (v₁ ≡ v))
  dispatch_from_redis first second req hash response answer rs rs₁ other other₁ w w₁ v v₁ wired
        wired' numbered hashed hashed' dec l l' h still h' =
      elim (dispatch-Stored first wired req numbered hash hashed response rs rs₁ w w₁ dec l h) [
        | inl c ↦ inl c
        | inr (payload, (kept, back)) ↦ inr (
            stored-dispatch second wired' req numbered hash hashed' response answer other other₁ v
              v₁ (payload, (still ∙ kept, back)) l' h')
      ]
