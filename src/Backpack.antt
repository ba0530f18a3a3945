-- ===== src/Backpack.antt =====
-- app/playersrv/backpack_service.go: the reward service that keeps a ledger beside the backpack.
-- The service is written against its two repositories; in playersrv (cmd/playersrv/main.go) both are
-- the MySQL repository.
use globalmail.Prelude.{
  String, Bool, true, false, Option, none, some, Action, pure, raise, ◌>>=◌, ok, err, Result, ◌==◌,
  nat_eq, if◌then◌else◌,
}
use globalmail.Prelude.Int.{ℤ}
use globalmail.Types.{
  Time, Error, reward_service_incomplete, RewardGrant, BackpackGrant, GrantStatus,
}
use globalmail.Ports.{RewardLedgerRepository, BackpackRepository}
pub mod OnMysql
pub mod AtMostOnce

-- The grant as it is reserved.
unfoldable pub pending_grant : Time → RewardGrant → RewardGrant
pending_grant now g = record g {
  create_time = if g.create_time == 0 then now else g.create_time;
  update_time = now;
  status = GrantStatus.pending;
}

unfoldable pub backpack_grant : Time → RewardGrant → BackpackGrant
backpack_grant now g = record {
  role_id = g.role_id;
  server_id = g.server_id;
  grant_key = g.grant_key;
  loot_index = g.loot_index;
  loot = g.loot;
  create_time = now;
}

module _ {W : Type 0} where
  -- What follows the backpack's answer. The error of `MarkGlobalMailRewardFailed` is dropped.
  unfoldable pub settle :
      RewardLedgerRepository W
      → ℤ × ℤ × ℤ
      → Time
      → Result Error (String × Bool) × W
      → Result Error Bool × W
  settle ledger key now (err e, w) = (err e, (ledger.mark_global_mail_reward_failed key e now w).1)
  settle ledger key now (ok (external_id, granted), w) =
      (ledger.mark_global_mail_reward_succeeded key external_id now >>= λ _. pure true) w

  unfoldable pub grant_reserved :
      RewardLedgerRepository W → BackpackRepository W → Time → RewardGrant → Action W Error Bool
  unfolding pending_grant backpack_grant settle
  grant_reserved ledger backpack now g = do
    reserved ← ledger.reserve_global_mail_reward (pending_grant now g)
    if reserved
        then (λ w.
            settle ledger g.grant_key now (backpack.grant_backpack_reward (backpack_grant now g) w))
        else pure false

  unfoldable pub grant_global_mail_reward :
      Option (RewardLedgerRepository W)
      → Option (BackpackRepository W)
      → Time
      → RewardGrant
      → Action W Error Bool
  unfolding grant_reserved
  grant_global_mail_reward (some ledger) (some backpack) now g =
      grant_reserved ledger backpack now g
  grant_global_mail_reward none b now g = raise reward_service_incomplete
  grant_global_mail_reward (some ledger) none now g = raise reward_service_incomplete
