-- ===== src/Kafka.antt =====
-- infra/kafka: the topic and the consumer group of the events, and the messages. The Kafka client is
-- a reader of values and a writer of messages; `print` is fmt's %d.
use Prim.Native.String.{◌++◌}
use globalmail.Prelude.{
  String, Option, List, [], ◌∷◌, Action, or_raise, ◌>>=◌, ◌==◌, string_eq, if◌then◌else◌,
}
use globalmail.Prelude.Int.{ℤ}
use globalmail.Types.{Time, Bytes, Error, decode_error, encode_error, GlobalMailChangedEvent}
use globalmail.Config.{KafkaConfig}

pub record ReaderConfig : Type 0 where
  pub brokers : List String
  pub topic : String
  pub group_id : String

pub record KafkaMessage : Type 0 where
  pub key : String
  pub value : Bytes
  pub time : Time
  pub headers : List (String × String)

abbrev pub topic_of : KafkaConfig → String
topic_of cfg = cfg.topic_prefix ++ ".global-mail-events"

unfoldable pub new_global_mail_consumer : KafkaConfig → String → ReaderConfig
new_global_mail_consumer cfg group_id =
    let configured = if group_id == "" then cfg.consumer_group else group_id in
    record {
      brokers = cfg.brokers;
      topic = topic_of cfg;
      group_id = if configured == "" then "globalmail-playersrv" else configured;
    }

unfoldable pub new_global_mail_publisher : KafkaConfig → String
new_global_mail_publisher cfg = topic_of cfg

unfoldable pub event_message : (ℤ → String) → GlobalMailChangedEvent → Bytes → Time → KafkaMessage
event_message print event payload now = record {
  key = print event.global_mail_id;
  value = payload;
  time = now;
  headers = ("event_type", "GlobalMailChanged") ∷ ("version", print event.version) ∷ [];
}

module _ {W : Type 0} where
  unfoldable pub read_global_mail_changed :
      Action W Error Bytes
      → (Bytes → Option GlobalMailChangedEvent)
      → Action W Error GlobalMailChangedEvent
  read_global_mail_changed read_message decode = do
    value ← read_message
    or_raise (decode value) decode_error

  unfoldable pub publish_global_mail_changed :
      (KafkaMessage → Action W Error (Unit {0}))
      → (GlobalMailChangedEvent → Option Bytes)
      → (ℤ → String)
      → GlobalMailChangedEvent
      → Time
      → Action W Error (Unit {0})
  unfolding event_message
  publish_global_mail_changed write_messages encode print event now = do
    payload ← or_raise (encode event) encode_error
    write_messages (event_message print event payload now)
