-- ===== src/Config.antt =====
-- config/config.go: the settings. A Duration is its nanoseconds, an int64.
use globalmail.Prelude.{ℕ, ◌*◌, Bool, false, String, List, [], ◌∷◌}
use globalmail.Prelude.Int.{ℤ, pos}
pub mod Validate
pub mod Durations
pub mod Usable

pub record ServiceConfig : Type 0 where
  pub name : String
  pub instance_id : String
  pub env : String
  pub listen_addr : String
  pub public_addr : String

pub record MysqlConfig : Type 0 where
  pub dsn : String
  pub max_open_conns : ℤ
  pub max_idle_conns : ℤ
  pub conn_max_lifetime : ℤ
  pub auto_migrate : Bool

pub record RedisConfig : Type 0 where
  pub addrs : List String
  pub username : String
  pub password : String
  pub db : ℤ
  pub key_prefix : String
  pub dial_timeout : ℤ
  pub read_timeout : ℤ
  pub write_timeout : ℤ

pub record KafkaConfig : Type 0 where
  pub brokers : List String
  pub topic_prefix : String
  pub consumer_group : String

pub record EtcdConfig : Type 0 where
  pub endpoints : List String
  pub username : String
  pub password : String
  pub dial_timeout : ℤ
  pub lease_ttl : ℤ
  pub keep_alive_interval : ℤ
  pub service_key_prefix : String

pub record GatewayConfig : Type 0 where
  pub route_ttl : ℤ
  pub virtual_nodes : ℤ
  pub session_ttl : ℤ
  pub gateway_conn_renew_interval : ℤ

pub record AccountConfig : Type 0 where
  pub login_token_ttl : ℤ
  pub player_service_addr : String

pub record PlayerConfig : Type 0 where
  pub request_queue_workers : ℤ
  pub request_queue_capacity : ℤ
  pub request_role_queue_capacity : ℤ
  pub request_timeout : ℤ
  pub command_idempotency_ttl : ℤ
  pub global_mail_poll_interval : ℤ
  pub global_mail_rebuild_lock_ttl : ℤ
  pub global_mail_rebuild_wait : ℤ

pub record MailRelayConfig : Type 0 where
  pub flush_interval : ℤ
  pub fetch_limit : ℤ
  pub lock_ttl : ℤ
  pub max_retries : ℤ

pub record Config : Type 0 where
  pub service : ServiceConfig
  pub mysql : MysqlConfig
  pub redis : RedisConfig
  pub kafka : KafkaConfig
  pub etcd : EtcdConfig
  pub gateway : GatewayConfig
  pub account : AccountConfig
  pub player : PlayerConfig
  pub mail_relay : MailRelayConfig

abbrev pub second : ℕ
second = 1000000000

-- The settings before a file is read. The fields that the source leaves out are zero.
unfoldable pub default_config : Config
default_config = record {
  service = record {
    name = "globalmail";
    instance_id = "local";
    env = "dev";
    listen_addr = ":8080";
    public_addr = "127.0.0.1:8080";
  };
  mysql = record {
    dsn = "";
    max_open_conns = pos 50;
    max_idle_conns = pos 10;
    conn_max_lifetime = pos (3600 * second);
    auto_migrate = false;
  };
  redis = record {
    addrs = "127.0.0.1:6379" ∷ [];
    username = "";
    password = "";
    db = pos 0;
    key_prefix = "rh:";
    dial_timeout = pos (3 * second);
    read_timeout = pos (2 * second);
    write_timeout = pos (2 * second);
  };
  kafka = record { brokers = "127.0.0.1:9092" ∷ []; topic_prefix = "rh"; consumer_group = "" };
  etcd = record {
    endpoints = "127.0.0.1:2379" ∷ [];
    username = "";
    password = "";
    dial_timeout = pos (3 * second);
    lease_ttl = pos (10 * second);
    keep_alive_interval = pos (3 * second);
    service_key_prefix = "/rh/services";
  };
  gateway = record {
    route_ttl = pos (300 * second);
    virtual_nodes = pos 100;
    session_ttl = pos (90 * second);
    gateway_conn_renew_interval = pos (30 * second);
  };
  account = record { login_token_ttl = pos (120 * second); player_service_addr = "127.0.0.1:9001" };
  player = record {
    request_queue_workers = pos 4;
    request_queue_capacity = pos 1024;
    request_role_queue_capacity = pos 32;
    request_timeout = pos (3 * second);
    command_idempotency_ttl = pos (600 * second);
    global_mail_poll_interval = pos (30 * second);
    global_mail_rebuild_lock_ttl = pos (30 * second);
    global_mail_rebuild_wait = pos 100000000;
  };
  mail_relay = record {
    flush_interval = pos second;
    fetch_limit = pos 100;
    lock_ttl = pos (300 * second);
    max_retries = pos 5;
  };
}
