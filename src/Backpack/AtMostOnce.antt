-- ===== src/Backpack/AtMostOnce.antt =====
-- app/playersrv/backpack_service.go over the MySQL repository: two grants of one reward key.
use globalmail.Prelude.{
  ◌≡◌, ◌≢◌, refl, String, Bool, true, false, none, some, Action, ok, err, Result, triple_eq,
  triple_beq_iff, ==_refl, arith,
}
use globalmail.Prelude.Int.{ℤ}
use globalmail.Types.{Time, Error, RewardGrant}
use globalmail.Mysql.Table.{Table, IsTable, Same}
use globalmail.Mysql.Models.{UserGlobalMailRewardLedgerModel, UserBackpackRewardModel}
use globalmail.Mysql.Ledger.{
  succeeded_row, ledger_row, reserve_global_mail_reward, mark_global_mail_reward_succeeded,
  grant_backpack_reward,
}
use globalmail.Backpack.{pending_grant, grant_reserved}
use globalmail.Backpack.OnMysql.{mysql_ledger, mysql_backpack}

-- An insert that is ignored on a conflict, of a key that is there.
known_key :
    {L : Type 0} (t : Table L (ℤ × ℤ × ℤ) UserGlobalMailRewardLedgerModel)
    → IsTable t
    → (row : UserGlobalMailRewardLedgerModel) (l : L) (res : Result Error Bool × L)
    → t.create_or_ignore row l ≡ res
    → t.rows l (t.key row) ≢ none
    → (res.0 ≢ ok true) × Same t l res.1
known_key t law row l (ok true, l') e known = absurd (known (law.create_or_ignore_new row l l' e).0)
known_key t law row l (ok false, l') e known = (λ p. cc, (law.create_or_ignore_old row l l' e).1)
known_key t law row l (err x, l') e known =
    (λ p. cc, (law.failed row (λ r. r) (t.key row) x l l').0 e)

module _ {L B : Type 0} (ledger : Table L (ℤ × ℤ × ℤ) UserGlobalMailRewardLedgerModel)
    (backpack : Table B (ℤ × ℤ × ℤ) UserBackpackRewardModel) (text : Error → String)
    (external_id : ℤ × ℤ × ℤ → String) (clock : Time) (law : IsTable ledger)
    (by_key : (m : UserGlobalMailRewardLedgerModel) → ledger.key m ≡ m.grant_key) where
  abbrev grant : Time → RewardGrant → Action (L × B) Error Bool
  grant =
      grant_reserved (mysql_ledger {B = B} ledger backpack text external_id clock)
        (mysql_backpack ledger backpack text external_id clock)

  -- A key that stands in the ledger, whatever its status, is answered with `false` or an error; the
  -- backpack's table stays as it is and no row of the ledger changes. So a grant that failed in the backpack is never made
  -- up for by calling again.
  pub grant_known_key :
      (now : Time) (g : RewardGrant) (l : L) (b : B)
      → ledger.rows l g.grant_key ≢ none
      → ((grant now g (l, b)).0 ≢ ok true)
        × Same ledger l (grant now g (l, b)).1.0
        × ((grant now g (l, b)).1.1 ≡ b)
  unfolding grant_reserved reserve_global_mail_reward pending_grant ledger_row
  grant_known_key now g l b known =
      let row = ledger_row (pending_grant now g) clock in
      let f =
        known_key ledger law row l (ledger.create_or_ignore row l) refl
          (λ e. known (ground (arith, by_key row, e))) in
      (ground (arith, f.0), λ k. ground (arith, f.0, f.1 k), ground (arith, f.0))

  -- A call that answers `true` has found the key new, left a row of the key in the ledger, and left
  -- all other keys of the ledger alone.
  pub grant_succeeds :
      (now : Time) (g : RewardGrant) (l l' : L) (b b' : B)
      → grant now g (l, b) ≡ (ok true, (l', b'))
      → (ledger.rows l g.grant_key ≡ none)
        × ((row : UserGlobalMailRewardLedgerModel) × (ledger.rows l' g.grant_key ≡ some row))
        × ((k : ℤ × ℤ × ℤ) → g.grant_key ≢ k → ledger.rows l' k ≡ ledger.rows l k)
  unfolding grant_reserved reserve_global_mail_reward pending_grant ledger_row grant_backpack_reward
      mark_global_mail_reward_succeeded
  grant_succeeds now g l l' b b' h =
      let key = g.grant_key in
      let row = ledger_row (pending_grant now g) clock in
      let f = succeeded_row (external_id key) now in
      let l₁ = (ledger.create_or_ignore row l).1 in
      let reserved : ledger.create_or_ignore row l ≡ (ok true, l₁) = ground arith in
      let marked : ledger.update key f l₁ ≡ (ok tt, l') = ground arith in
      let new = law.create_or_ignore_new row l l₁ reserved in
      let upd = law.update_ok key f l₁ l' marked in
      (
        ground (arith, by_key row, new.0),
        (
          ledger.kept (f (ledger.kept row)),
          ground (arith, by_key row, new.1 key, upd key, ==_refl {A = ℤ × ℤ × ℤ} key),
        ),
        λ k ne. ground (arith, by_key row, new.1 k, upd k, triple_beq_iff key k, ne),
      )

  -- A reward is granted at most once: right after a call that answers `true`, no call with the same
  -- key answers `true`, and the backpack's table stays as it is.
  pub grant_at_most_once :
      (now later : Time) (g g' : RewardGrant) (l l' : L) (b b' c : B)
      → g'.grant_key ≡ g.grant_key
      → grant now g (l, b) ≡ (ok true, (l', b'))
      → ((grant later g' (l', c)).0 ≢ ok true) × ((grant later g' (l', c)).1.1 ≡ c)
  grant_at_most_once now later g g' l l' b b' c same h =
      let (new, (row, found), frame) = grant_succeeds now g l l' b b' h in
      let known = grant_known_key later g' l' c (λ e. ground (arith, found, e, same)) in
      (known.0, known.2)
