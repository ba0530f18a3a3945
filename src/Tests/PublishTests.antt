-- ===== src/Tests/PublishTests.antt =====
-- Publishing, relaying and the versions at concrete inputs.
use globalmail.Prelude.{
  ◌≡◌, refl, none, some, List, [], ◌∷◌, ok, err, arith, Option, String, ◌+◌, ◌*◌, ◌==◌, string_eq,
  if◌then◌else◌, int_eq,
}
use globalmail.Prelude.Int.{ℤ, pos}
use globalmail.Types.{GlobalMail, OutboxEvent, PublishIdempotencyRecord, idempotency_conflict}
use globalmail.Ports.{MailRepository, IdGenerator, OutboxRepository, EventPublisher}
use globalmail.Cache.Snapshot.{CacheSnapshot, empty_snapshot}
use globalmail.Publisher.{
  PublishCommand, Codec, validate_mail, published_mail, changed_event, outbox_event,
  idempotency_record, next_id, mail_id, store_mail, publish_new, publish_checked, publish,
}
use globalmail.AdminServer.{
  PublishRequest, AdminRequest, requested_mail, publish_command, answer_publish,
  handle_publish_global_mail,
}
use globalmail.AdminServer.Again.{handle_publish_global_mail-again}
use globalmail.Publisher.Idempotency.{publish_again, publish-conflict}
use globalmail.Relay.{OutboxRelay, process, project, minute, next_retry_time}
use globalmail.Relay.Order.{WentThrough, process-WentThrough}
use globalmail.Relay.Backoff.{next_retry_time_bounds}
use globalmail.Redis.Version.{Kv, IsKv, advance_script, advance_global_mail_version}
use globalmail.Events.{handle}
use globalmail.Events.Stall.{next_mail_stalls}
use globalmail.Tests.Data.{mail_of, event_of, changed_of, plain_cache, plain_mails, no_wait}

-- The world is the list of the idempotency records, newest first.
abbrev Records : Type 0
Records = List PublishIdempotencyRecord

-- What the columns keep of a record: times in seconds, here all cut to 0.
abbrev in_seconds : PublishIdempotencyRecord → PublishIdempotencyRecord
in_seconds r = record r { create_time = 0; update_time = 0 }

abbrev latest : String → Records → Option PublishIdempotencyRecord
latest key [] = none
latest key (r ∷ rs) = if r.key == key then some (in_seconds r) else none

abbrev keeping : MailRepository Records
keeping = record plain_mails {
  create_global_mail_with_outbox_and_idempotency = λ mail event r w. (ok tt, r ∷ w);
  get_publish_idempotency = λ key w. (ok (latest key w), w);
}

abbrev counter : {W : Type 0} → IdGenerator W
counter = record { next_id = λ w. (pos 9, w) }

abbrev command : PublishCommand
command = record { mail = mail_of (pos 7) []; conditions = []; action = ""; idempotency_key = "k" }

abbrev as_published : GlobalMail
unfolding published_mail
as_published = published_mail command (pos 7) 20

-- The digest tells the actions apart.
abbrev codec : Codec
codec = record {
  encode_event = λ e. some [];
  encode_mail = λ m. some (1 ∷ []);
  decode_mail = λ b. some as_published;
  digest = λ m cs action. some action;
}

abbrev stored_record : PublishIdempotencyRecord
unfolding idempotency_record
stored_record = idempotency_record command "publish" as_published (1 ∷ []) 20

reads_back :
    (c : Codec) (mail : GlobalMail) (event : OutboxEvent) (r : PublishIdempotencyRecord)
    (w w' : Records)
    → keeping.create_global_mail_with_outbox_and_idempotency mail event r w ≡ (ok tt, w')
    → (r' : PublishIdempotencyRecord) × (keeping.get_publish_idempotency r.key w'
        ≡ (ok (some r'), w'))
      × (r'.request_hash ≡ r.request_hash)
      × (c.decode_mail r'.response_snapshot ≡ c.decode_mail r.response_snapshot)
reads_back c mail event r w w' h =
    (in_seconds r, ground (arith, string_eq.beq_iff r.key r.key), refl, refl)

publish_again_example :
    publish keeping counter codec command 30 (stored_record ∷ [])
    ≡ (ok as_published, stored_record ∷ [])
unfolding publish validate_mail publish_checked publish_new mail_id next_id store_mail
    published_mail changed_event outbox_event idempotency_record stored_record as_published
publish_again_example =
    publish_again keeping counter codec (reads_back codec) command refl 20 as_published
      (λ b e. refl) [] [] (stored_record ∷ []) refl refl 30

abbrev other_command : PublishCommand
other_command = record command { action = "update" }

publish-conflict_example :
    publish keeping counter codec other_command 30 (stored_record ∷ [])
    ≡ (err idempotency_conflict, stored_record ∷ [])
unfolding publish validate_mail publish_checked publish_new mail_id next_id store_mail
    published_mail changed_event outbox_event idempotency_record stored_record as_published
publish-conflict_example =
    publish-conflict keeping counter codec (reads_back codec) command refl 20 as_published
      (λ b e. refl) [] [] (stored_record ∷ []) refl refl other_command "update" 30 refl refl refl
      (λ e. ground (arith, e, string_eq.beq_iff "publish" "update"))

-- The operator's request for the mail above.
abbrev wanted : PublishRequest
wanted = record {
  idempotency_key = "";
  operator_id = pos 1;
  title = "title";
  content = "content";
  sender = "";
  category = "";
  start_time = 10;
  expire_time = 100;
  conditions = [];
}

abbrev posted : AdminRequest
posted = record { method = "POST"; idempotency_header = "k"; body = [] }

abbrev admin_mail : GlobalMail
unfolding published_mail publish_command requested_mail
admin_mail = published_mail (publish_command posted wanted) (pos 9) 20

abbrev admin_codec : Codec
admin_codec = record codec { decode_mail = λ b. some admin_mail }

abbrev admin_record : PublishIdempotencyRecord
unfolding idempotency_record publish_command requested_mail
admin_record = idempotency_record (publish_command posted wanted) "publish" admin_mail (1 ∷ []) 20

handle_publish_global_mail-again_example :
    handle_publish_global_mail keeping counter admin_codec
      (λ b. some wanted)
      posted
      30
      (admin_record ∷ [])
    ≡ (record { status = 201; mail = some admin_mail }, admin_record ∷ [])
unfolding publish validate_mail publish_checked publish_new mail_id next_id store_mail
    published_mail changed_event outbox_event idempotency_record admin_record admin_mail
    publish_command requested_mail handle_publish_global_mail answer_publish
handle_publish_global_mail-again_example =
    handle_publish_global_mail-again keeping counter admin_codec (λ b. some wanted) posted wanted 20
      30 admin_mail [] [] (admin_record ∷ []) (reads_back admin_codec) (λ b e. refl) refl refl refl
      refl

abbrev outbox : OutboxRepository ℤ
outbox = record {
  fetch_pending = λ limit worker until w. (ok [], w);
  mark_published = λ id at w. (ok tt, w);
  mark_failed = λ id next e max w. (ok tt, w);
}

abbrev announcer : EventPublisher ℤ
announcer = record { publish_global_mail_changed = λ e w. (ok tt, w) }

abbrev relay : OutboxRelay ℤ
relay = record {
  outbox = outbox;
  mails = plain_mails;
  cache = plain_cache;
  publisher = announcer;
  decode = λ b. some (changed_of (pos 1));
  worker_id = "outbox-relay";
  lock_ttl = 300;
  max_retries = pos 5;
}

process-WentThrough_example : WentThrough relay (λ w. 20) (event_of (pos 4)) (pos 2) (pos 4)
unfolding process project
process-WentThrough_example =
    process-WentThrough relay (λ w. 20) (event_of (pos 4)) (pos 2) (pos 4) refl

next_retry_time_bounds_example : next_retry_time 100 (pos 2) ≡ 100 + minute * 3
next_retry_time_bounds_example = next_retry_time_bounds 100 2 (omega arith)

-- Redis as the version's value.
abbrev value_kv : Kv (Option ℤ)
value_kv = record { version = λ w. w; get = λ w. (ok w, w); eval = λ f w. (ok (f w).0, (f w).1) }

value_kv-IsKv : IsKv value_kv
value_kv-IsKv = record {
  get_ok = λ v w w' h. ground arith;
  eval_ok = λ f v w w' h. ground arith;
  eval_err = λ f e w w' h. absurd (ground arith);
}

abbrev at_one : CacheSnapshot
unfolding empty_snapshot
at_one = record empty_snapshot { version = pos 1 }

next_mail_stalls_example :
    (some (pos 1) ≡ some (pos 1))
    × (handle plain_cache plain_mails none 30 no_wait
          (λ c. (ok tt, c))
          (changed_event as_published (pos 9) "publish" 20)
          20
          (at_one, pos 1)
        ≡ (ok tt, (at_one, pos 1)))
unfolding publish_new mail_id next_id store_mail published_mail changed_event outbox_event
    idempotency_record stored_record as_published at_one advance_global_mail_version advance_script
next_mail_stalls_example =
    next_mail_stalls plain_cache plain_mails none 30 no_wait (λ c. (ok tt, c)) keeping counter codec
      value_kv value_kv-IsKv command "publish" 20 as_published [] (stored_record ∷ []) refl
      (ok (pos 1)) (some (pos 1)) (some (pos 1)) (ground arith) refl (pos 9) "publish" 20 20 at_one
      (pos 1) (ground arith)
