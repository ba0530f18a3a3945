-- ===== src/Commands.antt =====
-- app/playersrv/command_service.go: the registry of the commands and the dispatcher that
-- remembers the answers. A payload is an anypb.Any, kept as its bytes; a response is copied by value.
use globalmail.Prelude.{
  ℕ, Bool, ◌||◌, String, Option, none, some, List, [], ◌∷◌, map, sort, Result, ok, err, Action,
  pure, raise, or_raise, ◌>>=◌, ◌>>◌, ◌==◌, int_eq, string_eq, triple_eq, if◌then◌else◌,
}
use globalmail.Prelude.Int.{ℤ, pos, ltb_ℤ}
use globalmail.Prelude.Dict.{Dict, lookup, insert}
use globalmail.Types.{
  Duration, Bytes, Error, encode_error, command_definition_required, command_handler_required,
  command_already_registered,
}
pub mod Once

pub record CommandRequest : Type 0 where
  pub command_id : ℤ
  pub uid : ℤ
  pub role_id : ℤ
  pub server_id : ℤ
  pub seq : ℤ
  pub payload : Option Bytes

pub record CommandResponse : Type 0 where
  pub command_id : ℤ
  pub seq : ℤ
  pub code : ℤ
  pub message : String
  pub payload : Option Bytes

pub record CommandDefinition : Type 0 where
  pub command_id : ℤ
  pub name : String
  pub request_type : String
  pub response_type : String

abbrev pub CommandHandler : Type 0 → Type 0
CommandHandler W = CommandRequest → Action W Error (Option Bytes)

pub record CommandRegistration (W : Type 0) : Type 0 where
  pub definition : CommandDefinition
  pub handler : CommandHandler W

abbrev pub CommandRegistry : Type 0 → Type 0
CommandRegistry W = Dict ℤ (CommandRegistration W)

module _ {W : Type 0} where
  -- A nil definition and a nil handler are `none`; COMMAND_ID_UNSPECIFIED is 0.
  unfoldable pub register :
      Option CommandDefinition
      → Option (CommandHandler W)
      → CommandRegistry W
      → Result Error (CommandRegistry W)
  register none handler registry = err command_definition_required
  register (some definition) none registry =
      if definition.command_id == pos 0
      then err command_definition_required
      else err command_handler_required
  register (some definition) (some handler) registry =
      if definition.command_id == pos 0
      then err command_definition_required
      else elim (lookup definition.command_id registry) [
        | some r ↦ err command_already_registered
        | none ↦ ok (
            insert definition.command_id (record { definition = definition; handler = handler })
              registry)
      ]

  unfoldable pub dispatch_registered :
      CommandRegistry W → CommandRequest → Action W Error CommandResponse
  dispatch_registered registry req = elim (lookup req.command_id registry) [
    | none ↦ pure (record {
      command_id = req.command_id;
      seq = req.seq;
      code = pos 404;
      message = "unknown command";
      payload = none;
    })
    | some registration ↦ do
      payload ← registration.handler req
      pure (record {
        command_id = req.command_id;
        seq = req.seq;
        code = pos 0;
        message = "ok";
        payload = payload;
      })
  ]

  unfoldable pub definitions : CommandRegistry W → List CommandDefinition
  definitions registry =
      sort (λ a b. ltb_ℤ a.command_id b.command_id) (map (λ e. e.1.definition) registry)

pub record CommandIdempotencyRecord : Type 0 where
  pub hash : String
  pub response : CommandResponse

abbrev pub Key : Type 0
Key = ℤ × ℤ × ℤ

pub record CommandIdempotencyStore (W : Type 0) : Type 0 where
  pub get_command_idempotency : Key → Action W Error (Option (String × CommandResponse))
  pub save_command_idempotency :
      Key → String → CommandResponse → Duration → Action W Error (Unit {0})

pub record IdempotentCommandDispatcher (W : Type 0) : Type 0 where
  pub next : CommandRequest → Action W Error CommandResponse
  pub store : Option (CommandIdempotencyStore W)
  pub ttl : Duration
  -- the hexadecimal SHA-256 of the marshalled payload
  pub request_hash : Option Bytes → Option String

abbrev pub Records : Type 0
Records = Dict Key CommandIdempotencyRecord

-- The print of the three numbers with colons between them tells all triples apart.
abbrev pub command_idempotency_key : CommandRequest → Key
command_idempotency_key req = (req.uid, req.command_id, req.seq)

unfoldable pub command_idempotency_conflict_response : CommandRequest → CommandResponse
command_idempotency_conflict_response req = record {
  command_id = req.command_id;
  seq = req.seq;
  code = pos 409;
  message = "command idempotency key reused with different payload";
  payload = none;
}

module _ {W : Type 0} (d : IdempotentCommandDispatcher W) where
  abbrev pub DispatchAction : Type 0 → Type 0
  DispatchAction A = Action (Records × W) Error A

  abbrev pub lift_call : {A : Type 0} → Action W Error A → DispatchAction A
  lift_call m (rs, w) = let (r, w') = m w in (r, (rs, w'))

  abbrev pub remember : Key → String → CommandResponse → DispatchAction (Unit {0})
  remember key hash response (rs, w) =
      (ok tt, (insert key (record { hash = hash; response = response }) rs, w))

  -- What a record of the key answers.
  unfoldable pub answer : CommandRequest → String → String → CommandResponse → CommandResponse
  unfolding command_idempotency_conflict_response
  answer req stored_hash hash response =
      if stored_hash == hash then response else command_idempotency_conflict_response req

  unfoldable pub save : Key → String → CommandResponse → DispatchAction (Unit {0})
  save key hash response = elim d.store [
    | none ↦ pure tt
    | some store ↦ lift_call (store.save_command_idempotency key hash response d.ttl)
  ]

  unfoldable pub run_next : CommandRequest → Key → String → DispatchAction CommandResponse
  unfolding save
  run_next req key hash = do
    response ← lift_call (d.next req)
    remember key hash response
    save key hash response
    pure response

  unfoldable pub from_store :
      CommandRequest
      → Key
      → String
      → Option (String × CommandResponse)
      → DispatchAction CommandResponse
  unfolding run_next command_idempotency_conflict_response
  from_store req key hash none = run_next req key hash
  from_store req key hash (some (stored_hash, response)) =
      if stored_hash == hash
      then (remember key hash response >> pure response)
      else pure (command_idempotency_conflict_response req)

  unfoldable pub stored_answer : Key → DispatchAction (Option (String × CommandResponse))
  stored_answer key = elim d.store [
    | none ↦ pure none
    | some store ↦ lift_call (store.get_command_idempotency key)
  ]

  unfoldable pub dispatch_keyed :
      CommandRequest
      → Key
      → String
      → Option CommandIdempotencyRecord
      → DispatchAction CommandResponse
  unfolding answer stored_answer from_store
  dispatch_keyed req key hash (some r) = pure (answer req r.hash hash r.response)
  dispatch_keyed req key hash none = do found ← stored_answer key; from_store req key hash found

  unfoldable pub dispatch : CommandRequest → DispatchAction CommandResponse
  unfolding dispatch_keyed
  dispatch req c =
      if req.uid == pos 0 || req.seq == pos 0
      then lift_call (d.next req) c
      else (do
        hash ← or_raise (d.request_hash req.payload) encode_error
        λ c.
            dispatch_keyed req (command_idempotency_key req) hash
              (lookup (command_idempotency_key req) c.0) c)
          c
