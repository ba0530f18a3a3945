-- ===== src/Config/Validate.antt =====
-- config/config.go: Validate. An error names the setting that it complains of.
use globalmail.Prelude.{
  Bool, true, false, ◌||◌, String, Option, none, some, List, [], ◌∷◌, ◌==◌, string_eq,
  if◌then◌else◌,
}
use globalmail.Prelude.Int.{ℤ, pos, ltb_ℤ, leb_ℤ}
use globalmail.Config.{Config}

pub data ConfigError : Type 0 where
  service_name_required service_instance_id_required mysql_limits_negative redis_addrs_required
        kafka_brokers_required etcd_endpoints_required etcd_lease_ttl etcd_keepalive_interval
        gateway_route_ttl gateway_virtual_nodes gateway_session_ttl gateway_conn_renew_interval
        account_login_token_ttl account_player_service_addr_required player_request_queue_workers
        player_request_queue_capacity player_request_role_queue_capacity player_request_timeout
        player_command_idempotency_ttl player_global_mail_poll_interval
        player_global_mail_rebuild_lock_ttl player_global_mail_rebuild_wait
        mail_relay_flush_interval mail_relay_fetch_limit mail_relay_lock_ttl mail_relay_max_retries
        yaml_error :
      ConfigError

abbrev pub is_empty : List String → Bool
is_empty [] = true
is_empty (x ∷ xs) = false

-- `x <= 0`.
abbrev pub le : ℤ → Bool
le x = leb_ℤ x (pos 0)

-- The guards in their order, each with the error that it returns.
unfoldable pub guards : Config → List (Bool × ConfigError)
guards c =
    (c.service.name == "", service_name_required)
    ∷ (c.service.instance_id == "", service_instance_id_required)
    ∷ (
      ltb_ℤ c.mysql.max_open_conns (pos 0) || ltb_ℤ c.mysql.max_idle_conns (pos 0),
      mysql_limits_negative,
    )
    ∷ (is_empty c.redis.addrs, redis_addrs_required)
    ∷ (is_empty c.kafka.brokers, kafka_brokers_required)
    ∷ (is_empty c.etcd.endpoints, etcd_endpoints_required)
    ∷ (le c.etcd.lease_ttl, etcd_lease_ttl)
    ∷ (le c.etcd.keep_alive_interval, etcd_keepalive_interval)
    ∷ (le c.gateway.route_ttl, gateway_route_ttl)
    ∷ (le c.gateway.virtual_nodes, gateway_virtual_nodes)
    ∷ (le c.gateway.session_ttl, gateway_session_ttl)
    ∷ (le c.gateway.gateway_conn_renew_interval, gateway_conn_renew_interval)
    ∷ (le c.account.login_token_ttl, account_login_token_ttl)
    ∷ (c.account.player_service_addr == "", account_player_service_addr_required)
    ∷ (le c.player.request_queue_workers, player_request_queue_workers)
    ∷ (le c.player.request_queue_capacity, player_request_queue_capacity)
    ∷ (le c.player.request_role_queue_capacity, player_request_role_queue_capacity)
    ∷ (le c.player.request_timeout, player_request_timeout)
    ∷ (le c.player.command_idempotency_ttl, player_command_idempotency_ttl)
    ∷ (le c.player.global_mail_poll_interval, player_global_mail_poll_interval)
    ∷ (le c.player.global_mail_rebuild_lock_ttl, player_global_mail_rebuild_lock_ttl)
    ∷ (le c.player.global_mail_rebuild_wait, player_global_mail_rebuild_wait)
    ∷ (le c.mail_relay.flush_interval, mail_relay_flush_interval)
    ∷ (le c.mail_relay.fetch_limit, mail_relay_fetch_limit)
    ∷ (le c.mail_relay.lock_ttl, mail_relay_lock_ttl)
    ∷ (le c.mail_relay.max_retries, mail_relay_max_retries)
    ∷ []

unfoldable pub first_error : List (Bool × ConfigError) → Option ConfigError
first_error [] = none
first_error ((failed, e) ∷ rest) = if failed then some e else first_error rest

unfoldable pub validate : Config → Option ConfigError
unfolding guards first_error
validate c = first_error (guards c)
