-- ===== src/Backpack/OnMysql.antt =====
-- cmd/playersrv/main.go: the reward service over the MySQL repository. Ledger and backpack are two
-- tables, and a statement on one leaves the other alone.
use globalmail.Prelude.{String, Action}
use globalmail.Prelude.Int.{ℤ}
use globalmail.Types.{Time, Error}
use globalmail.Ports.{RewardLedgerRepository, BackpackRepository}
use globalmail.Mysql.Table.{Table}
use globalmail.Mysql.Models.{UserGlobalMailRewardLedgerModel, UserBackpackRewardModel}
use globalmail.Mysql.Ledger.{
  reserve_global_mail_reward, mark_global_mail_reward_succeeded, mark_global_mail_reward_failed,
  grant_backpack_reward,
}

abbrev pub on_ledger : {L B A : Type 0} → Action L Error A → Action (L × B) Error A
on_ledger m (l, b) = let (r, l') = m l in (r, (l', b))

abbrev pub on_backpack : {L B A : Type 0} → Action B Error A → Action (L × B) Error A
on_backpack m (l, b) = let (r, b') = m b in (r, (l, b'))

module _ {L B : Type 0} (ledger : Table L (ℤ × ℤ × ℤ) UserGlobalMailRewardLedgerModel)
    (backpack : Table B (ℤ × ℤ × ℤ) UserBackpackRewardModel) (text : Error → String)
    (external_id : ℤ × ℤ × ℤ → String) (clock : Time) where
  -- `clock` is the repository's own reading of the time, used for a grant with no time of its own.
  abbrev pub mysql_ledger : RewardLedgerRepository (L × B)
  mysql_ledger = record {
    reserve_global_mail_reward = λ g. on_ledger (reserve_global_mail_reward ledger clock g);
    mark_global_mail_reward_succeeded =
        λ key ext at. on_ledger (mark_global_mail_reward_succeeded ledger key ext at);
    mark_global_mail_reward_failed =
        λ key cause at. on_ledger (mark_global_mail_reward_failed ledger text key cause at);
  }

  abbrev pub mysql_backpack : BackpackRepository (L × B)
  mysql_backpack = record {
    grant_backpack_reward = λ g. on_backpack (grant_backpack_reward backpack external_id g);
  }
