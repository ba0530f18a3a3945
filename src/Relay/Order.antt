-- ===== src/Relay/Order.antt =====
-- domain/globalmail/outbox.go: the effects of one event, and the count of Flush.
use globalmail.Prelude.{
  ℕ, suc, ◌≡◌, ◌+◌, ◌≤◌, refl, Option, none, some, List, [], ◌∷◌, length, ok, err, Action, Result,
  arith,
}
use globalmail.Prelude.Int.{ℤ}
use globalmail.Types.{Time, Error, GlobalMail, OutboxEvent, GlobalMailChangedEvent, mail_not_found}
use globalmail.Relay.{
  OutboxRelay, Attempt, done, stopped, process, project, retry, stage, process_all,
}

-- The run of one event that ends in `done`: the worlds between its calls, each of which succeeded.
pub record WentThrough {W : Type 0} (relay : OutboxRelay W) (clock : W → Time) (event : OutboxEvent)
    (w w' : W) : Type 0 where
  pub changed : GlobalMailChangedEvent
  pub mail : GlobalMail
  pub version : ℤ
  pub w₁ : W
  pub w₂ : W
  pub w₃ : W
  pub w₄ : W
  pub w₅ : W
  pub decoded : relay.decode event.payload ≡ some changed
  pub loaded : relay.mails.get_global_mail_by_id event.aggregate_id w ≡ (ok (some mail), w₁)
  pub projected : relay.cache.set_global_mail mail w₁ ≡ (ok tt, w₂)
  pub indexed : relay.cache.add_global_mail_to_indexes mail w₂ ≡ (ok tt, w₃)
  pub advanced : relay.cache.advance_global_mail_version event.version w₃ ≡ (ok version, w₄)
  pub announced : relay.publisher.publish_global_mail_changed changed w₄ ≡ (ok tt, w₅)
  pub marked : relay.outbox.mark_published event.id (clock w₅) w₅ ≡ (ok tt, w')

module _ {W : Type 0} (relay : OutboxRelay W) (clock : W → Time) where
  -- A stage after which the event is done went through its call.
  stage-done :
      {A : Type 0} (event : OutboxEvent) (m : Action W Error A) (k : A → W → Attempt × W) (w w' : W)
      → stage relay clock event m k w ≡ (done, w')
      → (a : A) × (w₁ : W) × (m w ≡ (ok a, w₁)) × (k a w₁ ≡ (done, w'))
  unfolding retry
  stage-done {A} event m k w w' h = through (m w) refl h
    where
      through :
          (r : Result Error A × W)
          → m w ≡ r
          → stage relay clock event m k w ≡ (done, w')
          → (a : A) × (w₁ : W) × (m w ≡ (ok a, w₁)) × (k a w₁ ≡ (done, w'))
      through (ok a, w₁) e g = (a, w₁, e, ground (arith, e, g))
      through (err x, w₁) e g = absurd (ground (arith, e, g))

  module _ (event : OutboxEvent) (w w' : W) where
    load : GlobalMailChangedEvent → Option GlobalMail → W → Attempt × W
    load changed found = elim found [
      | none ↦ retry relay clock event (mail_not_found event.aggregate_id)
      | some mail ↦ project relay clock event changed mail
    ]

    project-done :
        (changed : GlobalMailChangedEvent) (mail : GlobalMail) (w₁ : W)
        → relay.decode event.payload ≡ some changed
        → relay.mails.get_global_mail_by_id event.aggregate_id w ≡ (ok (some mail), w₁)
        → project relay clock event changed mail w₁ ≡ (done, w')
        → WentThrough relay clock event w w'
    unfolding project
    project-done changed mail w₁ dec got h =
        let marking : Unit {0} → W → Attempt × W = λ _ v.
          let (r, v') = relay.outbox.mark_published event.id (clock v) v in
          elim r [ ok u ↦ (done, v') | err e ↦ (stopped e, v') ] in
        let announcing : ℤ → W → Attempt × W = λ _.
          stage relay clock event (relay.publisher.publish_global_mail_changed changed) marking in
        let advancing : Unit {0} → W → Attempt × W = λ _.
          stage relay clock event (relay.cache.advance_global_mail_version event.version)
            announcing in
        let indexing : Unit {0} → W → Attempt × W =
          λ _. stage relay clock event (relay.cache.add_global_mail_to_indexes mail) advancing in
        let (u, w₂, e₂, h₂) =
          stage-done event (relay.cache.set_global_mail mail) indexing w₁ w' h in
        let (u₃, w₃, e₃, h₃) =
          stage-done event (relay.cache.add_global_mail_to_indexes mail) advancing w₂ w' h₂ in
        let (v, w₄, e₄, h₄) =
          stage-done event (relay.cache.advance_global_mail_version event.version) announcing w₃ w'
            h₃ in
        let (u₅, w₅, e₅, h₅) =
          stage-done event (relay.publisher.publish_global_mail_changed changed) marking w₄ w' h₄ in
        record {
          changed = changed;
          mail = mail;
          version = v;
          w₁ = w₁;
          w₂ = w₂;
          w₃ = w₃;
          w₄ = w₄;
          w₅ = w₅;
          decoded = dec;
          loaded = got;
          projected = e₂;
          indexed = e₃;
          advanced = e₄;
          announced = e₅;
          marked = ground arith;
        }

  -- An event counts as published only after its mail was loaded from MySQL, written to Redis and to
  -- the indexes, the version advanced to the event's, the change announced, and the event marked, in
  -- this order and each without an error.
  pub process-WentThrough :
      (event : OutboxEvent) (w w' : W)
      → process relay clock event w ≡ (done, w')
      → WentThrough relay clock event w w'
  unfolding process retry load
  process-WentThrough event w w' h = decoded (relay.decode event.payload) refl h
    where
      loaded :
          (changed : GlobalMailChangedEvent) (found : Option GlobalMail) (w₁ : W)
          → relay.decode event.payload ≡ some changed
          → relay.mails.get_global_mail_by_id event.aggregate_id w ≡ (ok found, w₁)
          → load event w w' changed found w₁ ≡ (done, w')
          → WentThrough relay clock event w w'
      loaded changed none w₁ dec got g = absurd (ground arith)
      loaded changed (some mail) w₁ dec got g = project-done event w w' changed mail w₁ dec got g

      decoded :
          (d : Option GlobalMailChangedEvent)
          → relay.decode event.payload ≡ d
          → process relay clock event w ≡ (done, w')
          → WentThrough relay clock event w w'
      decoded none dec g = absurd (ground (arith, dec, g))
      decoded (some changed) dec g =
          let (found, w₁, got, g') =
            stage-done event (relay.mails.get_global_mail_by_id event.aggregate_id)
              (load event w w' changed) w w' (ground (arith, dec, g)) in
          loaded changed found w₁ dec got g'

  -- The events that Flush counts are no more than those that it was given.
  pub process_all-count :
      (published : ℕ) (events : List OutboxEvent) (w : W)
      → (process_all relay clock published events w).0.0 ≤ published + length events
  unfolding process_all
  process_all-count published [] w = omega arith
  process_all-count published (event ∷ events) w = ground (
    arith,
    process_all-count (suc published) events (process relay clock event w).1,
    process_all-count published events (process relay clock event w).1,
  )
