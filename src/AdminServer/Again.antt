-- ===== src/AdminServer/Again.antt =====
-- app/adminsrv/server.go with domain/globalmail/publisher.go: an operator who sends a request again.
use globalmail.Prelude.{
  ◌≡◌, refl, arith, true, false, Option, none, some, Result, ok, err, ◌==◌, string_eq, Bool-cases,
  inl, inr,
}
use globalmail.Types.{Time, Bytes, Error, GlobalMail, OutboxEvent, PublishIdempotencyRecord}
use globalmail.Ports.{MailRepository, IdGenerator}
use globalmail.Publisher.{Codec, publish}
use globalmail.Publisher.Idempotency.{publish_again}
use globalmail.AdminServer.{
  PublishRequest, AdminRequest, AdminResponse, publish_command, answer_publish,
  handle_publish_global_mail,
}

module _ {W : Type 0} (repo : MailRepository W) (ids : IdGenerator W) (codec : Codec)
    (decode : Bytes → Option PublishRequest) where
  abbrev created : GlobalMail → AdminResponse
  created mail = record { status = 201; mail = some mail }

  -- A mail is only answered by a POST whose body is read, and whose command was published.
  created_by :
      (r : AdminRequest) (req : PublishRequest) (now : Time) (mail : GlobalMail) (w w' : W)
      → decode r.body ≡ some req
      → handle_publish_global_mail repo ids codec decode r now w ≡ (created mail, w')
      → ((r.method == "POST") ≡ true)
        × (publish repo ids codec (publish_command r req) now w ≡ (ok mail, w'))
  unfolding handle_publish_global_mail answer_publish
  created_by r req now mail w w' d h = elim (Bool-cases (r.method == "POST")) [
    | inr z ↦ absurd (ground (arith, h, z))
    | inl z ↦ by_result (publish repo ids codec (publish_command r req) now w) refl z
  ]
    where
      by_result :
          (o : Result Error GlobalMail × W)
          → publish repo ids codec (publish_command r req) now w ≡ o
          → (r.method == "POST") ≡ true
          → ((r.method == "POST") ≡ true)
            × (publish repo ids codec (publish_command r req) now w ≡ (ok mail, w'))
      by_result (err e, w₁) f z = absurd (ground (arith, h, d, z, f))
      by_result (ok stored, w₁) f z = (z, ground (arith, h, d, z, f))

  -- A request under a new key that was answered with a created mail: sent again, at any time, it
  -- is answered with the same mail and status, and no second mail is stored. The store reads back
  -- the digest of the record that it keeps and a snapshot that decodes the same, and the encoding of
  -- the mail decodes to it.
  pub handle_publish_global_mail-again :
      (r : AdminRequest) (req : PublishRequest) (now later : Time) (mail : GlobalMail) (w w₁ w' : W)
      → ((mail : GlobalMail) (event : OutboxEvent) (p : PublishIdempotencyRecord) (w w' : W)
          → repo.create_global_mail_with_outbox_and_idempotency mail event p w ≡ (ok tt, w')
          → (p' : PublishIdempotencyRecord) × (repo.get_publish_idempotency p.key w'
              ≡ (ok (some p'), w'))
            × (p'.request_hash ≡ p.request_hash)
            × (codec.decode_mail p'.response_snapshot ≡ codec.decode_mail p.response_snapshot))
      → ((b : Bytes) → codec.encode_mail mail ≡ some b → codec.decode_mail b ≡ some mail)
      → decode r.body ≡ some req
      → ((publish_command r req).idempotency_key == "") ≡ false
      → repo.get_publish_idempotency (publish_command r req).idempotency_key w ≡ (ok none, w₁)
      → handle_publish_global_mail repo ids codec decode r now w
        ≡ (record { status = 201; mail = some mail }, w')
      → handle_publish_global_mail repo ids codec decode r later w'
        ≡ (record { status = 201; mail = some mail }, w')
  unfolding handle_publish_global_mail answer_publish
  handle_publish_global_mail-again r req now later mail w w₁ w' reads_back dec d keyed unknown h =
      let (post, published) = created_by r req now mail w w' d h in
      let again =
        publish_again repo ids codec reads_back (publish_command r req) keyed now mail dec w w₁ w'
          unknown published later in
      ground (arith, post, d, again)
