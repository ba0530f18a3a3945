-- ===== src/Publisher/Idempotency.antt =====
-- domain/globalmail/publisher.go: what the key of a command makes of a second publish, and the
-- version of what is published.
use globalmail.Prelude.{
  ◌≡◌, ◌≢◌, refl, ◌∙◌, String, Option, none, some, Action, ok, err, ◌==◌, string_eq, int_eq, false,
  ◌>>=◌, >>=-eq-ok, or_raise, arith, ==_refl, ==_cases, inl, inr,
}
use globalmail.Prelude.Int.{ℤ, pos}
use globalmail.Types.{
  Time, Bytes, Error, encode_error, idempotency_conflict, GlobalMail, OutboxEvent,
  PublishIdempotencyRecord, MailStatus,
}
use globalmail.Ports.{MailRepository, IdGenerator}
use globalmail.Publisher.{
  PublishCommand, Codec, validate_mail, or_publish, published_mail, changed_event, outbox_event,
  idempotency_record, next_id, mail_id, store_mail, publish_new, replay, publish_checked, publish,
}

module _ {W : Type 0} (repo : MailRepository W) (ids : IdGenerator W) (codec : Codec) where
  store_mail-mail :
      (cmd : PublishCommand) (hash : String) (now : Time) (mail stored : GlobalMail)
      (event : OutboxEvent) (w w' : W)
      → store_mail repo ids codec cmd hash now mail event w ≡ (ok stored, w')
      → stored ≡ mail
  unfolding store_mail
  store_mail-mail cmd hash now mail stored event w w' h = ground arith

  store_mail-record :
      (cmd : PublishCommand) (hash : String) (now : Time) (mail stored : GlobalMail)
      (event : OutboxEvent) (w w' : W)
      → (cmd.idempotency_key == "") ≡ false
      → store_mail repo ids codec cmd hash now mail event w ≡ (ok stored, w')
      → (snapshot : Bytes) × (codec.encode_mail mail ≡ some snapshot)
        × (repo.create_global_mail_with_outbox_and_idempotency mail event
              (idempotency_record cmd hash mail snapshot now)
              w
            ≡ (ok tt, w'))
  unfolding store_mail
  store_mail-record cmd hash now mail stored event w w' keyed h =
      encoded (codec.encode_mail mail) refl
    where
      encoded :
          (o : Option Bytes)
          → codec.encode_mail mail ≡ o
          → (snapshot : Bytes) × (codec.encode_mail mail ≡ some snapshot)
            × (repo.create_global_mail_with_outbox_and_idempotency mail event
                  (idempotency_record cmd hash mail snapshot now)
                  w
                ≡ (ok tt, w'))
      encoded none e = absurd (ground (arith, e, h, keyed))
      encoded (some snapshot) e = (snapshot, e, ground (arith, e, h, keyed))

  publish_new-stored :
      (cmd : PublishCommand) (hash : String) (now : Time) (mail : GlobalMail) (w w' : W)
      → publish_new repo ids codec cmd hash now w ≡ (ok mail, w')
      → (id : ℤ) × (event : OutboxEvent) × (w₁ : W) × (mail ≡ published_mail cmd id now)
        × (store_mail repo ids codec cmd hash now (published_mail cmd id now) event w₁
            ≡ (ok mail, w'))
  unfolding publish_new
  publish_new-stored cmd hash now mail w w' h =
      let after : ℤ → ℤ → Bytes → Action W Error GlobalMail = λ id event_id payload.
        let m = published_mail cmd id now in
        store_mail repo ids codec cmd hash now m (outbox_event m event_id payload now) in
      let encoded : ℤ → ℤ → Action W Error Bytes = λ id event_id.
        or_raise
          (codec.encode_event
            (changed_event (published_mail cmd id now) event_id (or_publish cmd.action) now))
          encode_error in
      let with_event : ℤ → Action W Error GlobalMail =
        λ id. next_id repo ids codec >>= λ event_id. encoded id event_id >>= after id event_id in
      let (id, w₁, e₁, h₁) =
        >>=-eq-ok (mail_id repo ids codec cmd.mail.id) with_event w w' mail h in
      let (event_id, w₂, e₂, h₂) =
        >>=-eq-ok (next_id repo ids codec) (λ i. encoded id i >>= after id i) w₁ w' mail h₁ in
      let (payload, w₃, e₃, h₃) =
        >>=-eq-ok (encoded id event_id) (after id event_id) w₂ w' mail h₂ in
      let m = published_mail cmd id now in
      (
        id,
        outbox_event m event_id payload now,
        w₃,
        store_mail-mail cmd hash now m mail (outbox_event m event_id payload now) w₃ w' h₃,
        h₃,
      )

  -- What is published has version 1, whatever was published before and whatever version the
  -- command's mail carries, it is `published` and its times are the clock's.
  pub publish_new-first :
      (cmd : PublishCommand) (hash : String) (now : Time) (mail : GlobalMail) (w w' : W)
      → publish_new repo ids codec cmd hash now w ≡ (ok mail, w')
      → (mail.version ≡ pos 1)
        × (mail.status ≡ MailStatus.published)
        × (mail.create_time ≡ now)
        × (mail.title ≡ cmd.mail.title)
  unfolding publish_new mail_id published_mail
  publish_new-first cmd hash now mail w w' h =
      let (id, event, w₁, m, stored) = publish_new-stored cmd hash now mail w w' h in
      ground (arith, m)

  pub publish_new-record :
      (cmd : PublishCommand) (hash : String) (now : Time) (mail : GlobalMail) (w w' : W)
      → (cmd.idempotency_key == "") ≡ false
      → publish_new repo ids codec cmd hash now w ≡ (ok mail, w')
      → (snapshot : Bytes) × (event : OutboxEvent) × (w₁ : W) × (codec.encode_mail mail
          ≡ some snapshot)
        × (repo.create_global_mail_with_outbox_and_idempotency mail event
              (idempotency_record cmd hash mail snapshot now)
              w₁
            ≡ (ok tt, w'))
  publish_new-record cmd hash now mail w w' keyed h =
      let (id, event, w₁, m, h₁) = publish_new-stored cmd hash now mail w w' h in
      let (snapshot, enc, created) =
        store_mail-record cmd hash now (published_mail cmd id now) mail event w₁ w' keyed h₁ in
      (snapshot, event, w₁, ground (arith, m, enc), ground (arith, m, created))

  -- A mail that was published under a new key, and whose encoding decodes to it. The store reads
  -- back the record that it keeps, with its digest and a snapshot that decodes the same: the columns
  -- cut the times, and MySQL writes JSON anew.
  module _
      (reads_back : (mail : GlobalMail) (event : OutboxEvent) (r : PublishIdempotencyRecord)
          (w w' : W)
        → repo.create_global_mail_with_outbox_and_idempotency mail event r w ≡ (ok tt, w')
        → (r' : PublishIdempotencyRecord) × (repo.get_publish_idempotency r.key w'
            ≡ (ok (some r'), w'))
          × (r'.request_hash ≡ r.request_hash)
          × (codec.decode_mail r'.response_snapshot ≡ codec.decode_mail r.response_snapshot))
      (cmd : PublishCommand) (keyed : (cmd.idempotency_key == "") ≡ false) (now : Time)
      (mail : GlobalMail)
      (decode_encode : (b : Bytes)
        → codec.encode_mail mail ≡ some b
        → codec.decode_mail b ≡ some mail)
      (w w₁ w' : W) (unknown : repo.get_publish_idempotency cmd.idempotency_key w ≡ (ok none, w₁))
      (published : publish repo ids codec cmd now w ≡ (ok mail, w')) where
    -- Hence the first call went on to `publish_new`.
    first_call :
        (hash : String) × (validate_mail cmd.mail ≡ none)
        × (codec.digest cmd.mail cmd.conditions (or_publish cmd.action) ≡ some hash)
        × (publish_new repo ids codec cmd hash now w₁ ≡ (ok mail, w'))
    unfolding publish publish_checked
    first_call =
        digested (codec.digest cmd.mail cmd.conditions (or_publish cmd.action))
          (validate_mail cmd.mail) refl refl
      where
        digested :
            (d : Option String) (v : Option Error)
            → codec.digest cmd.mail cmd.conditions (or_publish cmd.action) ≡ d
            → validate_mail cmd.mail ≡ v
            → (hash : String) × (validate_mail cmd.mail ≡ none)
              × (codec.digest cmd.mail cmd.conditions (or_publish cmd.action) ≡ some hash)
              × (publish_new repo ids codec cmd hash now w₁ ≡ (ok mail, w'))
        digested d (some x) e v = absurd (ground (arith, e, v, published))
        digested none none e v = absurd (ground (arith, e, v, published))
        digested (some hash) none e v =
            (hash, v, e, ground (arith, e, v, published, keyed, unknown))

    -- After a command was published under a new key, in a store that reads back the digest of the
    -- record it keeps and a snapshot that decodes the same, and if the encoding of the mail decodes to
    -- it: the same command again, at any time, answers the same mail, and the store is only read.
    pub publish_again : (later : Time) → publish repo ids codec cmd later w' ≡ (ok mail, w')
    unfolding publish publish_checked replay idempotency_record
    publish_again later =
        let (hash, valid, digest, new) = first_call in
        let (snapshot, event, w₂, enc, created) =
          publish_new-record cmd hash now mail w₁ w' keyed new in
        let (kept, found, same_hash, same_mail) =
          reads_back mail event (idempotency_record cmd hash mail snapshot now) w₂ w' created in
        let decoded = same_mail ∙ decode_encode snapshot enc in
        ground (arith, valid, digest, found, decoded, keyed, same_hash, ==_refl {A = String} hash)

    -- After a command was published under a new key, in a store that reads back the digest of the
    -- record it keeps and a snapshot that decodes the same: another valid command under the same key, with another digest, is refused as a conflict, and
    -- the store is only read.
    pub publish-conflict :
        (other : PublishCommand) (hash' : String) (later : Time)
        → other.idempotency_key ≡ cmd.idempotency_key
        → validate_mail other.mail ≡ none
        → codec.digest other.mail other.conditions (or_publish other.action) ≡ some hash'
        → codec.digest cmd.mail cmd.conditions (or_publish cmd.action) ≢ some hash'
        → publish repo ids codec other later w' ≡ (err idempotency_conflict, w')
    unfolding publish publish_checked replay idempotency_record
    publish-conflict other hash' later same valid' digest' differs =
        let (hash, valid, digest, new) = first_call in
        let (snapshot, event, w₂, enc, created) =
          publish_new-record cmd hash now mail w₁ w' keyed new in
        let (kept, found, same_hash, same_mail) =
          reads_back mail event (idempotency_record cmd hash mail snapshot now) w₂ w' created in
        elim (==_cases hash hash') [
          | inl (p, b) ↦ absurd (ground (arith, digest, differs, p))
          | inr (n, b) ↦ ground (arith, found, same_hash, b)
        ]
