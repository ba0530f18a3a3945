-- ===== src/Mysql/Ledger.antt =====
-- data/mysql/repository.go: the reward ledger and the backpack.
use globalmail.Prelude.{Bool, String, Action, pure, ◌>>=◌, ◌==◌, nat_eq, if◌then◌else◌}
use globalmail.Prelude.Int.{ℤ}
use globalmail.Types.{
  Time, Error, RewardGrant, BackpackGrant, GrantStatus, unset, succeeded, failed,
}
use globalmail.Mysql.Table.{Table}
use globalmail.Mysql.Models.{UserGlobalMailRewardLedgerModel, UserBackpackRewardModel}

abbrev pub or_succeeded : GrantStatus → GrantStatus
or_succeeded unset = succeeded
or_succeeded st = st

abbrev pub or_time : Time → Time → Time
or_time t d = if t == 0 then d else t

unfoldable pub ledger_row : RewardGrant → Time → UserGlobalMailRewardLedgerModel
ledger_row g now = record {
  grant_key = g.grant_key;
  role_id = g.role_id;
  server_id = g.server_id;
  global_mail_id = g.global_mail_id;
  loot_index = g.loot_index;
  status = or_succeeded g.status;
  external_reward_id = g.external_reward_id;
  failure_reason = g.failure_reason;
  create_time = or_time g.create_time now;
  update_time = or_time g.update_time (or_time g.create_time now);
}

unfoldable pub backpack_row : BackpackGrant → UserBackpackRewardModel
backpack_row g = record {
  grant_key = g.grant_key;
  role_id = g.role_id;
  server_id = g.server_id;
  loot_index = g.loot_index;
  loot = g.loot;
  create_time = g.create_time;
}

abbrev pub succeeded_row :
    String → Time → UserGlobalMailRewardLedgerModel → UserGlobalMailRewardLedgerModel
succeeded_row external_id at r = record r {
  status = succeeded;
  external_reward_id = external_id;
  failure_reason = "";
  update_time = at;
}

abbrev pub failed_row :
    String → Time → UserGlobalMailRewardLedgerModel → UserGlobalMailRewardLedgerModel
failed_row reason at r = record r { status = failed; failure_reason = reason; update_time = at }

-- `reason` is `cause.Error()`, the text of an error.
module _ {D : Type 0} (t : Table D (ℤ × ℤ × ℤ) UserGlobalMailRewardLedgerModel) where
  unfoldable pub reserve_global_mail_reward : Time → RewardGrant → Action D Error Bool
  unfolding ledger_row
  reserve_global_mail_reward now g = t.create_or_ignore (ledger_row g now)

  unfoldable pub grant_global_mail_reward : Time → RewardGrant → Action D Error Bool
  unfolding reserve_global_mail_reward
  grant_global_mail_reward now g =
      reserve_global_mail_reward now (record g { status = or_succeeded g.status })

  unfoldable pub mark_global_mail_reward_succeeded :
      ℤ × ℤ × ℤ → String → Time → Action D Error (Unit {0})
  mark_global_mail_reward_succeeded key external_id at = t.update key (succeeded_row external_id at)

  unfoldable pub mark_global_mail_reward_failed :
      (Error → String) → ℤ × ℤ × ℤ → Error → Time → Action D Error (Unit {0})
  mark_global_mail_reward_failed text key cause at = t.update key (failed_row (text cause) at)

-- `external_id` prints "playersrv-backpack:" and the grant key.
unfoldable pub grant_backpack_reward :
    {D : Type 0}
    → Table D (ℤ × ℤ × ℤ) UserBackpackRewardModel
    → (ℤ × ℤ × ℤ → String)
    → BackpackGrant
    → Action D Error (String × Bool)
unfolding backpack_row
grant_backpack_reward t external_id g = do
  granted ← t.create_or_ignore (backpack_row g)
  pure (external_id g.grant_key, granted)
