-- ===== src/Publisher.antt =====
-- domain/globalmail/publisher.go: PublisherService.
use globalmail.Prelude.{
  String, Bool, ◌||◌, not, Option, none, some, List, Action, pure, raise, or_raise, raise_if, ◌>>=◌,
  ◌>>◌, ok, err, Result, ltb, if◌then◌else◌, ◌==◌, string_eq, nat_eq, int_eq,
}
use globalmail.Prelude.Int.{ℤ, pos}
use globalmail.Types.{
  Time, Bytes, Error, title_required, content_required, times_required, expire_not_after_start,
  encode_error, decode_error, idempotency_conflict, GlobalMail, Condition, MailStatus, OutboxEvent,
  OutboxStatus, GlobalMailChangedEvent, PublishIdempotencyRecord, IdempotencyStatus,
}
use globalmail.Ports.{MailRepository, IdGenerator}
pub mod Idempotency

pub record PublishCommand : Type 0 where
  pub mail : GlobalMail
  pub conditions : List Condition
  pub action : String
  pub idempotency_key : String

-- encoding/json at the types that are published, and the digest of a command: json.Marshal of mail,
-- conditions and action, then SHA-256 in hexadecimal.
pub record Codec : Type 0 where
  pub encode_event : GlobalMailChangedEvent → Option Bytes
  pub encode_mail : GlobalMail → Option Bytes
  pub decode_mail : Bytes → Option GlobalMail
  pub digest : GlobalMail → List Condition → String → Option String

unfoldable pub validate_mail : GlobalMail → Option Error
validate_mail mail =
    if mail.title == ""
    then some title_required
    else if mail.content == ""
    then some content_required
    else if mail.start_time == 0 || mail.expire_time == 0
    then some times_required
    else if not (ltb mail.start_time mail.expire_time)
    then some expire_not_after_start
    else none

abbrev pub or_publish : String → String
or_publish action = if action == "" then "publish" else action

-- The mail as it is stored.
unfoldable pub published_mail : PublishCommand → ℤ → Time → GlobalMail
published_mail cmd id now = record cmd.mail {
  id = id;
  status = MailStatus.published;
  version = pos 1;
  conditions = cmd.conditions;
  create_time = now;
  update_time = now;
}

unfoldable pub changed_event : GlobalMail → ℤ → String → Time → GlobalMailChangedEvent
changed_event mail event_id action now = record {
  event_id = event_id;
  global_mail_id = mail.id;
  version = mail.version;
  action = action;
  timestamp = now;
}

unfoldable pub outbox_event : GlobalMail → ℤ → Bytes → Time → OutboxEvent
outbox_event mail event_id payload now = record {
  id = event_id;
  type = "GlobalMailChanged";
  aggregate_id = mail.id;
  version = mail.version;
  payload = payload;
  status = OutboxStatus.pending;
  retry_count = pos 0;
  next_retry_time = none;
  locked_by = "";
  locked_until = none;
  failure_reason = "";
  published_time = none;
  create_time = now;
  update_time = now;
}

unfoldable pub idempotency_record :
    PublishCommand → String → GlobalMail → Bytes → Time → PublishIdempotencyRecord
idempotency_record cmd hash mail snapshot now = record {
  key = cmd.idempotency_key;
  action = or_publish cmd.action;
  request_hash = hash;
  global_mail_id = mail.id;
  target_version = mail.version;
  status = IdempotencyStatus.succeeded;
  response_snapshot = snapshot;
  create_time = now;
  update_time = now;
}

module _ {W : Type 0} (repo : MailRepository W) (ids : IdGenerator W) (codec : Codec) where
  unfoldable pub next_id : Action W Error ℤ
  next_id w = let (id, w') = ids.next_id w in (ok id, w')

  -- `if mail.ID == 0 { mail.ID = s.ids.NextID() }`
  unfoldable pub mail_id : ℤ → Action W Error ℤ
  unfolding next_id
  mail_id id = if id == pos 0 then next_id else pure id

  unfoldable pub store_mail :
      PublishCommand → String → Time → GlobalMail → OutboxEvent → Action W Error GlobalMail
  unfolding idempotency_record
  store_mail cmd hash now mail event =
      if cmd.idempotency_key == ""
      then (repo.create_global_mail_with_outbox mail event >> pure mail)
      else (do
        snapshot ← or_raise (codec.encode_mail mail) encode_error
        repo.create_global_mail_with_outbox_and_idempotency mail event
            (idempotency_record cmd hash mail snapshot now)
        pure mail)

  -- Publish from the choice of the ids on.
  unfoldable pub publish_new : PublishCommand → String → Time → Action W Error GlobalMail
  unfolding mail_id next_id published_mail changed_event outbox_event store_mail
  publish_new cmd hash now = do
    id ← mail_id cmd.mail.id
    event_id ← next_id
    let mail = published_mail cmd id now
    payload ←
        or_raise (codec.encode_event (changed_event mail event_id (or_publish cmd.action) now))
          encode_error
    store_mail cmd hash now mail (outbox_event mail event_id payload now)

  -- What a record of the key answers.
  unfoldable pub replay : String → PublishIdempotencyRecord → Action W Error GlobalMail
  replay hash r =
      if r.request_hash == hash
      then or_raise (codec.decode_mail r.response_snapshot) decode_error
      else raise idempotency_conflict

  unfoldable pub publish_checked : PublishCommand → String → Time → Action W Error GlobalMail
  unfolding replay publish_new
  publish_checked cmd hash now = if cmd.idempotency_key == "" then publish_new cmd hash now else (do
    found ← repo.get_publish_idempotency cmd.idempotency_key
    elim found [ some r ↦ replay hash r | none ↦ publish_new cmd hash now ])

  unfoldable pub publish : PublishCommand → Time → Action W Error GlobalMail
  unfolding validate_mail publish_checked
  publish cmd now = elim (validate_mail cmd.mail) [
    | some e ↦ raise e
    | none ↦ do
      hash ← or_raise (codec.digest cmd.mail cmd.conditions (or_publish cmd.action)) encode_error
      publish_checked cmd hash now
  ]
