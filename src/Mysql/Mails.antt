-- ===== src/Mysql/Mails.antt =====
-- data/mysql/repository.go: the mails with their conditions, and the transaction that creates one
-- together with its outbox event and its idempotency record.
use globalmail.Prelude.{
  ◌≡◌, ◌∙◌, Bool, ◌&&◌, leb, ltb, String, Option, none, some, List, [], ◌∷◌, Action, ok, pure,
  ◌>>=◌, ◌>>◌, >>=-eq-ok, ◌==◌, int_eq, string_eq, ==_refl, arith,
}
use globalmail.Prelude.Int.{ℤ}
use globalmail.Types.{
  Time, Bytes, Error, GlobalMail, OutboxEvent, PublishIdempotencyRecord, is_published,
}
use globalmail.Mysql.Table.{Table, IsTable}
use globalmail.Mysql.Models.{
  GlobalMailModel, GlobalMailConditionModel, GlobalMailOutboxEventModel, GlobalMailIdempotencyModel,
}
use globalmail.Mysql.Mapper.{
  to_global_mail_model, condition_rows, to_outbox_model, to_idempotency_model,
  to_idempotency_record, to_global_mail,
}

-- The four tables over one database, and gorm's `Transaction`.
pub record MailTables (D : Type 0) : Type 0 where
  pub mails : Table D ℤ GlobalMailModel
  pub conditions : Table D ℤ GlobalMailConditionModel
  pub outbox : Table D ℤ GlobalMailOutboxEventModel
  pub idempotency : Table D String GlobalMailIdempotencyModel
  pub transaction : Action D Error (Unit {0}) → Action D Error (Unit {0})

-- A record that was read, as far as it tells the same as the one that was written; the times are not
-- compared.
pub record IsRead (decode : Bytes → Option GlobalMail) (r p : PublishIdempotencyRecord)
    : Type 0 where
  pub key : p.key ≡ r.key
  pub action : p.action ≡ r.action
  pub request_hash : p.request_hash ≡ r.request_hash
  pub global_mail_id : p.global_mail_id ≡ r.global_mail_id
  pub target_version : p.target_version ≡ r.target_version
  pub status : p.status ≡ r.status
  pub snapshot : decode p.response_snapshot ≡ decode r.response_snapshot

-- The columns of the idempotency table: text and numbers are kept, JSON decodes to the same.
abbrev pub KeepsRecord :
    (Bytes → Option GlobalMail) → (GlobalMailIdempotencyModel → GlobalMailIdempotencyModel) → Type 0
unfolding to_idempotency_record
KeepsRecord decode kept =
    (m : GlobalMailIdempotencyModel)
    → IsRead decode (to_idempotency_record m) (to_idempotency_record (kept m))

module _ {D : Type 0} (db : MailTables D) where
  open db use {mails, conditions, outbox, idempotency, transaction}

  -- The loop over the conditions.
  unfoldable pub create_conditions : List GlobalMailConditionModel → Action D Error (Unit {0})
  create_conditions [] = pure tt
  create_conditions (row ∷ rows) = conditions.create row >> create_conditions rows

  unfoldable pub create_record : Option GlobalMailIdempotencyModel → Action D Error (Unit {0})
  create_record none = pure tt
  create_record (some row) = idempotency.create row

  -- The body of the transaction.
  unfoldable pub create_rows :
      GlobalMail → OutboxEvent → Option GlobalMailIdempotencyModel → Action D Error (Unit {0})
  unfolding create_conditions create_record
  create_rows mail event row = do
    mails.create (to_global_mail_model mail)
    create_conditions (condition_rows mail mail.conditions)
    outbox.create (to_outbox_model event)
    create_record row

  unfoldable pub create_global_mail_with_outbox :
      GlobalMail → OutboxEvent → Action D Error (Unit {0})
  unfolding create_rows
  create_global_mail_with_outbox mail event = transaction (create_rows mail event none)

  unfoldable pub create_global_mail_with_outbox_and_idempotency :
      GlobalMail → OutboxEvent → PublishIdempotencyRecord → Action D Error (Unit {0})
  unfolding create_rows
  create_global_mail_with_outbox_and_idempotency mail event r =
      transaction (create_rows mail event (some (to_idempotency_model r)))

  unfoldable pub get_publish_idempotency : String → Action D Error (Option PublishIdempotencyRecord)
  get_publish_idempotency key = do
    found ← idempotency.first key
    elim found [ none ↦ pure none | some row ↦ pure (some (to_idempotency_record row)) ]

  -- The SELECT of the conditions of a mail.
  unfoldable pub with_conditions : GlobalMailModel → Action D Error GlobalMail
  with_conditions model = do
    rows ← conditions.select (λ c. c.global_mail_id == model.global_mail_id) none
    pure (to_global_mail model rows)

  unfoldable pub get_global_mail_by_id : ℤ → Action D Error (Option GlobalMail)
  unfolding with_conditions
  get_global_mail_by_id mail_id = do
    found ← mails.first mail_id
    elim found [ none ↦ pure none | some model ↦ do mail ← with_conditions model; pure (some mail) ]

  abbrev pub is_active : Time → GlobalMailModel → Bool
  is_active now m = is_published m.status && (leb m.start_time now && ltb now m.expire_time)

  unfoldable pub load_all : List GlobalMailModel → Action D Error (List GlobalMail)
  unfolding with_conditions
  load_all [] = pure []
  load_all (model ∷ models) = do
    mail ← with_conditions model
    rest ← load_all models
    pure (mail ∷ rest)

  unfoldable pub get_published_global_mails : Time → Action D Error (List GlobalMail)
  unfolding load_all
  get_published_global_mails now = do models ← mails.select (is_active now) none; load_all models

  module _
      (commits : (m : Action D Error (Unit {0})) (d d' : D)
        → transaction m d ≡ (ok tt, d')
        → m d ≡ (ok tt, d'))
      (law : IsTable idempotency)
      (by_key : (m : GlobalMailIdempotencyModel) → idempotency.key m ≡ m.idempotency_key) where
    record_created :
        (mail : GlobalMail) (event : OutboxEvent) (row : GlobalMailIdempotencyModel) (d d' : D)
        → create_rows mail event (some row) d ≡ (ok tt, d')
        → idempotency.rows d' (idempotency.key row) ≡ some (idempotency.kept row)
    unfolding create_rows create_record
    record_created mail event row d d' h =
        let recorded : Action D Error (Unit {0}) = idempotency.create row in
        let with_event : Action D Error (Unit {0}) =
          outbox.create (to_outbox_model event) >> recorded in
        let with_conditions : Action D Error (Unit {0}) =
          create_conditions (condition_rows mail mail.conditions) >> with_event in
        let (u₁, d₁, e₁, h₁) =
          >>=-eq-ok (mails.create (to_global_mail_model mail)) (λ _. with_conditions) d d' tt h in
        let (u₂, d₂, e₂, h₂) =
          >>=-eq-ok (create_conditions (condition_rows mail mail.conditions)) (λ _. with_event) d₁
            d' tt h₁ in
        let (u₃, d₃, e₃, h₃) =
          >>=-eq-ok (outbox.create (to_outbox_model event)) (λ _. recorded) d₂ d' tt h₂ in
        (law.create_ok row d₃ d' h₃).1 (idempotency.key row)
        ∙ ground (arith, ==_refl {A = String} (idempotency.key row))

    -- Where a transaction that succeeds has done what its body does, and the columns keep texts and
    -- numbers as they are and JSON as something that decodes the same: once a mail is created with an
    -- idempotency record, a read of the record's key that succeeds finds a record with the same key,
    -- action, digest, mail, version and status, whose snapshot decodes to the same mail.
    pub create-get_publish_idempotency :
        (decode : Bytes → Option GlobalMail)
        → KeepsRecord decode idempotency.kept
        → (mail : GlobalMail) (event : OutboxEvent) (r : PublishIdempotencyRecord)
          (found : Option PublishIdempotencyRecord) (d d' d'' : D)
        → create_global_mail_with_outbox_and_idempotency mail event r d ≡ (ok tt, d')
        → get_publish_idempotency r.key d' ≡ (ok found, d'')
        → (p : PublishIdempotencyRecord) × (found ≡ some p) × IsRead decode r p
    unfolding create_global_mail_with_outbox_and_idempotency get_publish_idempotency
        to_idempotency_model to_idempotency_record
    create-get_publish_idempotency decode keeps mail event r found d d' d'' created read =
        let row = to_idempotency_model r in
        let there = record_created mail event row d d' (commits _ d d' created) in
        let back : Option GlobalMailIdempotencyModel
            → Action D Error (Option PublishIdempotencyRecord) =
          λ o. elim o [ none ↦ pure none | some m ↦ pure (some (to_idempotency_record m)) ] in
        let (o, d₁, e, h) = >>=-eq-ok (idempotency.first r.key) back d' d'' found read in
        let seen = law.first_ok r.key d' d₁ o e in
        (
          to_idempotency_record (idempotency.kept row),
          ground (arith, by_key row, there, seen.0, h),
          record {
            key = (keeps row).key;
            action = (keeps row).action;
            request_hash = (keeps row).request_hash;
            global_mail_id = (keeps row).global_mail_id;
            target_version = (keeps row).target_version;
            status = (keeps row).status;
            snapshot = (keeps row).snapshot;
          },
        )
