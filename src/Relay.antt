-- ===== src/Relay.antt =====
-- domain/globalmail/outbox.go: OutboxRelay. `clock` is what `r.now()` answers in a world.
use globalmail.Prelude.{
  ℕ, zero, suc, ◌+◌, ◌-◌, ◌*◌, String, Bool, true, false, Option, none, some, List, [], ◌∷◌, Action,
  Result, ok, err, ◌==◌, string_eq, if◌then◌else◌, leb, ltb,
}
use globalmail.Prelude.Int.{
  ℤ, pos, negsuc, pos_part, neg_part, sub_ℕ, ◌+ℤ◌, wrap64, ltb_ℤ, positive_or,
}
use globalmail.Types.{
  Time, Duration, Bytes, Error, decode_error, mail_not_found, GlobalMail, OutboxEvent,
  GlobalMailChangedEvent,
}
use globalmail.Ports.{OutboxRepository, MailRepository, CacheRepository, EventPublisher}
pub mod Backoff
pub mod Order
pub mod Worker

-- `decode` is json.Unmarshal into a GlobalMailChangedEvent.
pub record OutboxRelay (W : Type 0) : Type 0 where
  pub outbox : OutboxRepository W
  pub mails : MailRepository W
  pub cache : CacheRepository W
  pub publisher : EventPublisher W
  pub decode : Bytes → Option GlobalMailChangedEvent
  pub worker_id : String
  pub lock_ttl : Duration
  pub max_retries : ℤ

unfoldable pub with_outbox_relay_worker_id : {W : Type 0} → String → OutboxRelay W → OutboxRelay W
with_outbox_relay_worker_id worker_id relay =
    if worker_id == "" then relay else record relay { worker_id = worker_id }

-- A duration or a count that is not positive leaves the default.
unfoldable pub with_outbox_relay_lock_ttl : {W : Type 0} → ℤ → OutboxRelay W → OutboxRelay W
with_outbox_relay_lock_ttl lock_ttl relay = record relay {
  lock_ttl = positive_or lock_ttl relay.lock_ttl;
}

unfoldable pub with_outbox_relay_max_retries : {W : Type 0} → ℤ → OutboxRelay W → OutboxRelay W
with_outbox_relay_max_retries max_retries relay =
    if ltb_ℤ (pos 0) max_retries then record relay { max_retries = max_retries } else relay

unfoldable pub apply_options :
    {W : Type 0} → List (OutboxRelay W → OutboxRelay W) → OutboxRelay W → OutboxRelay W
apply_options [] relay = relay
apply_options (opt ∷ opts) relay = apply_options opts (opt relay)

unfoldable pub new_outbox_relay :
    {W : Type 0}
    → OutboxRepository W
    → MailRepository W
    → CacheRepository W
    → EventPublisher W
    → (Bytes → Option GlobalMailChangedEvent)
    → List (OutboxRelay W → OutboxRelay W)
    → OutboxRelay W
unfolding apply_options
new_outbox_relay outbox mails cache publisher decode opts = apply_options opts (record {
  outbox = outbox;
  mails = mails;
  cache = cache;
  publisher = publisher;
  decode = decode;
  worker_id = "outbox-relay";
  lock_ttl = 5 * 60000000000;
  max_retries = pos 5;
})

abbrev pub minute : ℕ
minute = 60000000000

-- `time.Duration(n) * time.Minute`, in nanoseconds.
unfoldable pub minutes : ℤ → ℤ
minutes n = wrap64 (sub_ℕ (minute * pos_part n) (minute * neg_part n))

-- A time before the zero time is cut off at it.
abbrev pub add_duration : Time → ℤ → Time
add_duration t d = t + pos_part d - neg_part d

unfoldable pub next_retry_time : Time → ℤ → Time
unfolding minutes
next_retry_time now retry_count =
    let backoff = minutes (wrap64 (retry_count +ℤ pos 1)) in
    add_duration now (if ltb_ℤ (pos (30 * minute)) backoff then pos (30 * minute) else backoff)

-- How the loop goes on after an event: counted as published, left for a retry, or stopped.
pub data Attempt : Type 0 where
  done retried : Attempt
  stopped : Error → Attempt

module _ {W : Type 0} (relay : OutboxRelay W) (clock : W → Time) where
  open relay use {outbox, mails, cache, publisher, decode, worker_id, lock_ttl, max_retries}

  -- MarkFailed is told the next retry time; its own error is dropped.
  unfoldable pub retry : OutboxEvent → Error → W → Attempt × W
  retry event e w = (
    retried,
    (outbox.mark_failed event.id (next_retry_time (clock w) event.retry_count) e max_retries w).1,
  )

  -- One stage of the loop's body: on an error the event is left for a retry.
  abbrev pub stage :
      {A : Type 0} → OutboxEvent → Action W Error A → (A → W → Attempt × W) → W → Attempt × W
  stage event m k w = let (r, w') = m w in elim r [ ok a ↦ k a w' | err e ↦ retry event e w' ]

  -- The stages from the Redis projection on, for an event whose mail is there.
  unfoldable pub project : OutboxEvent → GlobalMailChangedEvent → GlobalMail → W → Attempt × W
  unfolding retry
  project event changed mail = stage event (cache.set_global_mail mail) λ _.
      stage event (cache.add_global_mail_to_indexes mail) λ _.
        stage event (cache.advance_global_mail_version event.version) λ _.
          stage event (publisher.publish_global_mail_changed changed) λ _ w.
            let (r, w') = outbox.mark_published event.id (clock w) w in
            elim r [ ok u ↦ (done, w') | err e ↦ (stopped e, w') ]

  -- The body of the loop of Flush.
  unfoldable pub process : OutboxEvent → W → Attempt × W
  unfolding project retry
  process event = elim (decode event.payload) [
    | none ↦ retry event decode_error
    | some changed ↦ stage event (mails.get_global_mail_by_id event.aggregate_id) λ found.
        elim found [
          | none ↦ retry event (mail_not_found event.aggregate_id)
          | some mail ↦ project event changed mail
        ]
  ]

  -- The loop: the number of events published, and the error that stopped it, if one did.
  unfoldable pub process_all : ℕ → List OutboxEvent → W → (ℕ × Option Error) × W
  unfolding process
  process_all published [] w = ((published, none), w)
  process_all published (event ∷ events) w =
      let (a, w') = process event w in
      elim a [
        | done ↦ process_all (suc published) events w'
        | retried ↦ process_all published events w'
        | stopped e ↦ ((published, some e), w')
      ]

  unfoldable pub flush : ℤ → W → (ℕ × Option Error) × W
  unfolding process_all
  flush limit w =
      let (r, w') =
        outbox.fetch_pending (pos (positive_or limit 100)) worker_id (clock w + lock_ttl) w in
      elim r [ ok events ↦ process_all 0 events w' | err e ↦ ((0, some e), w') ]
