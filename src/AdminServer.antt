-- ===== src/AdminServer.antt =====
-- app/adminsrv/server.go: the handler that publishes a mail. The decoder of the body is
-- encoding/json's.
use globalmail.Prelude.{
  ℕ, Bool, not, String, Option, none, some, List, [], Result, ok, err, ◌==◌, string_eq,
  if◌then◌else◌, ◌≡◌, refl, arith,
}
use globalmail.Prelude.Int.{ℤ, pos}
use globalmail.Json.{empty}
use globalmail.Types.{Time, Bytes, Error, GlobalMail, Condition, MailStatus}
use globalmail.Ports.{MailRepository, IdGenerator}
use globalmail.Publisher.{Codec, PublishCommand, publish}
pub mod Again

pub record PublishRequest : Type 0 where
  pub idempotency_key : String
  pub operator_id : ℤ
  pub title : String
  pub content : String
  pub sender : String
  pub category : String
  pub start_time : Time
  pub expire_time : Time
  pub conditions : List Condition

pub record AdminRequest : Type 0 where
  pub method : String
  pub idempotency_header : String
  pub body : Bytes

-- The mail is the body of an answer that is no error.
pub record AdminResponse : Type 0 where
  pub status : ℕ
  pub mail : Option GlobalMail

abbrev pub failed : ℕ → AdminResponse
failed status = record { status = status; mail = none }

-- The fields that the request does not have are zero.
unfoldable pub requested_mail : PublishRequest → GlobalMail
requested_mail req = record {
  id = pos 0;
  operator_id = req.operator_id;
  title = req.title;
  content = req.content;
  message_map = empty;
  loots = empty;
  sender = req.sender;
  category = req.category;
  template_id = pos 0;
  params = empty;
  external_url = "";
  start_time = req.start_time;
  expire_time = req.expire_time;
  status = MailStatus.unset;
  version = pos 0;
  conditions = [];
  create_time = 0;
  update_time = 0;
}

-- The key of the body, or that of the header.
unfoldable pub publish_command : AdminRequest → PublishRequest → PublishCommand
unfolding requested_mail
publish_command r req = record {
  mail = requested_mail req;
  conditions = req.conditions;
  action = "publish";
  idempotency_key = if req.idempotency_key == "" then r.idempotency_header else req.idempotency_key;
}

module _ {W : Type 0} (repo : MailRepository W) (ids : IdGenerator W) (codec : Codec)
    (decode : Bytes → Option PublishRequest) where
  unfoldable pub answer_publish : Result Error GlobalMail × W → AdminResponse × W
  answer_publish (err e, w) = (failed 400, w)
  answer_publish (ok mail, w) = (record { status = 201; mail = some mail }, w)

  unfoldable pub handle_publish_global_mail : AdminRequest → Time → W → AdminResponse × W
  unfolding publish_command answer_publish
  handle_publish_global_mail r now w =
      if not (r.method == "POST") then (failed 405, w) else elim (decode r.body) [
        | none ↦ (failed 400, w)
        | some req ↦ answer_publish (publish repo ids codec (publish_command r req) now w)
      ]
