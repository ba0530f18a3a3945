-- ===== src/Ports.antt =====
-- domain/globalmail/ports.go: the interfaces that the domain services are written against. `W` is
-- the world behind them; a call returns a result and the world that it leaves.
use globalmail.Prelude.{ℕ, String, Bool, List, Option, Action}
use globalmail.Prelude.Int.{ℤ}
use globalmail.Types.{
  Time, Error, GlobalMail, OutboxEvent, GlobalMailChangedEvent, PublishIdempotencyRecord,
  UserGlobalMailState, UserProfile, RewardGrant, BackpackGrant,
}

pub record MailRepository (W : Type 0) : Type 0 where
  pub create_global_mail_with_outbox : GlobalMail → OutboxEvent → Action W Error (Unit {0})
  pub create_global_mail_with_outbox_and_idempotency :
      GlobalMail → OutboxEvent → PublishIdempotencyRecord → Action W Error (Unit {0})
  pub get_publish_idempotency : String → Action W Error (Option PublishIdempotencyRecord)
  pub get_global_mail_by_id : ℤ → Action W Error (Option GlobalMail)
  pub get_published_global_mails : Time → Action W Error (List GlobalMail)
  -- The Go map is keyed by the mail's id.
  pub get_user_states : ℤ → List ℤ → Action W Error (List (ℤ × UserGlobalMailState))
  pub save_user_state : UserGlobalMailState → Action W Error (Unit {0})

pub record RewardRepository (W : Type 0) : Type 0 where
  pub grant_global_mail_reward : RewardGrant → Action W Error Bool

pub record RewardLedgerRepository (W : Type 0) : Type 0 where
  pub reserve_global_mail_reward : RewardGrant → Action W Error Bool
  pub mark_global_mail_reward_succeeded : ℤ × ℤ × ℤ → String → Time → Action W Error (Unit {0})
  pub mark_global_mail_reward_failed : ℤ × ℤ × ℤ → Error → Time → Action W Error (Unit {0})

pub record BackpackRepository (W : Type 0) : Type 0 where
  pub grant_backpack_reward : BackpackGrant → Action W Error (String × Bool)

pub record CacheRepository (W : Type 0) : Type 0 where
  pub get_global_mail_version : Action W Error ℤ
  pub increment_global_mail_version : Action W Error ℤ
  pub advance_global_mail_version : ℤ → Action W Error ℤ
  pub get_global_mail : ℤ → Action W Error (Option GlobalMail)
  pub set_global_mail : GlobalMail → Action W Error (Unit {0})
  pub get_active_global_mail_ids : Time → Action W Error (List ℤ)
  pub add_global_mail_to_indexes : GlobalMail → Action W Error (Unit {0})
  pub get_user_profile : ℤ → Action W Error (Option UserProfile)

-- A lock that was acquired comes with the call that releases it.
pub record CacheRebuildLocker (W : Type 0) : Type 0 where
  pub try_acquire_global_mail_rebuild_lock :
      ℤ → ℕ → Action W Error (Option (Action W Error (Unit {0})))

pub record EventPublisher (W : Type 0) : Type 0 where
  pub publish_global_mail_changed : GlobalMailChangedEvent → Action W Error (Unit {0})

pub record OutboxRepository (W : Type 0) : Type 0 where
  pub fetch_pending : ℤ → String → Time → Action W Error (List OutboxEvent)
  pub mark_published : ℤ → Time → Action W Error (Unit {0})
  pub mark_failed : ℤ → Time → Error → ℤ → Action W Error (Unit {0})

pub record IdGenerator (W : Type 0) : Type 0 where
  pub next_id : W → ℤ × W
