-- ===== src/Config/Usable.antt =====
-- config/config.go with the constructors that its settings go to, as cmd/playersrv/main.go and
-- cmd/gatewaysrv/main.go pass them on.
use globalmail.Prelude.{
  ◌≡◌, arith, Bool, false, none, List, [], ◌∷◌, string_eq, All, Bool-cases, inl, inr,
}
use globalmail.Prelude.Int.{ℤ, pos, positive_or, ◌<ℤ◌}
use globalmail.Config.{Config}
use globalmail.Config.Validate.{ConfigError, guards, first_error, validate}
use globalmail.RequestQueue.{CommandQueueOptions, new_command_request_queue}

-- What playersrv's main passes to the queue.
unfoldable pub queue_options : Config → CommandQueueOptions
queue_options c = record {
  workers = c.player.request_queue_workers;
  capacity = c.player.request_queue_capacity;
  role_queue_capacity = c.player.request_role_queue_capacity;
  request_timeout = c.player.request_timeout;
}

-- The settings that are a number of something or a time.
abbrev pub amounts : Config → List ℤ
amounts c =
    c.etcd.lease_ttl ∷ c.etcd.keep_alive_interval ∷ c.gateway.route_ttl ∷ c.gateway.virtual_nodes
    ∷ c.gateway.session_ttl ∷ c.gateway.gateway_conn_renew_interval ∷ c.account.login_token_ttl
    ∷ c.player.request_queue_workers ∷ c.player.request_queue_capacity
    ∷ c.player.request_role_queue_capacity ∷ c.player.request_timeout
    ∷ c.player.command_idempotency_ttl ∷ c.player.global_mail_poll_interval
    ∷ c.player.global_mail_rebuild_lock_ttl ∷ c.player.global_mail_rebuild_wait
    ∷ c.mail_relay.flush_interval ∷ c.mail_relay.fetch_limit ∷ c.mail_relay.lock_ttl
    ∷ c.mail_relay.max_retries ∷ []

abbrev IsClear : Bool × ConfigError → Type 0
IsClear guard = guard.0 ≡ false

first_error-none : (gs : List (Bool × ConfigError)) → first_error gs ≡ none → All IsClear gs
unfolding first_error
first_error-none [] h = tt
first_error-none ((b, e) ∷ gs) h = elim (Bool-cases b) [
  | inl z ↦ absurd (ground (arith, h, z))
  | inr z ↦ (z, first_error-none gs (ground (arith, h, z)))
]

abbrev pub IsPositive : ℤ → Type 0
IsPositive x = pos 0 <ℤ x

-- A configuration that passes has nothing but positive amounts.
validate-IsPositive : (c : Config) → validate c ≡ none → All IsPositive (amounts c)
unfolding validate guards
validate-IsPositive c h = let clear = first_error-none (guards c) h in ground (arith, clear)

-- The queue of a player server whose configuration passes has the workers and the room that the
-- configuration asks for: no default takes their place.
pub validate-queue_options :
    (c : Config)
    → validate c ≡ none
    → let q = new_command_request_queue (queue_options c) in
      (pos q.workers ≡ c.player.request_queue_workers)
      × ((pos q.capacity ≡ c.player.request_queue_capacity)
          × (pos q.role_queue_capacity ≡ c.player.request_role_queue_capacity))
unfolding new_command_request_queue queue_options positive_or
validate-queue_options c h = let p = validate-IsPositive c h in ground (arith, p)
