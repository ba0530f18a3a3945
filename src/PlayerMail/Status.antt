-- ===== src/PlayerMail/Status.antt =====
-- app/playersrv/mail_service.go: how the calls on a mail change the player's state of it.
use globalmail.Prelude.{
  ℕ, ◌≡◌, ◌≤◌, refl, true, false, List, contains, ok, Action, pure, arith, ◌>>◌, >>=-eq-ok,
  Bool-cases, int_eq, nat_eq, subst, inl, inr, ◌==◌,
}
use globalmail.Prelude.Int.{ℤ}
use globalmail.Prelude.Dict.{Dict, lookup}
use globalmail.Types.{
  Time, Error, GlobalMail, UserProfile, UserGlobalMailState, UserMailStatus, unread, read, claimed,
  deleted, unset, is_deleted,
}
use globalmail.PlayerMail.Loots.{contains-merge_loot_indexes}
use globalmail.PlayerMail.Service.{PlayerMailService, apply_claim, update_found}
use globalmail.PlayerMail.States.{
  apply_read, apply_delete, record_claim, state_or, new_state, stamp, bump_version,
}

pub data MailCall : Type 0 where
  marks_read deletes : MailCall
  claims : List ℤ → MailCall

-- The function that each call hands to `updateGlobalMailState`.
abbrev pub apply_of :
    {W : Type 0}
    → PlayerMailService W
    → UserProfile
    → ℤ
    → MailCall
    → UserGlobalMailState
    → GlobalMail
    → Time
    → Action W Error UserGlobalMailState
apply_of service p id marks_read = λ state _ now. pure (apply_read state now)
apply_of service p id deletes = λ state _ now. pure (apply_delete state now)
apply_of service p id (claims is) = apply_claim service p id is

-- A status is followed by none of a lower rank.
abbrev pub rank : UserMailStatus → ℕ
rank unset = 0
rank unread = 0
rank read = 1
rank claimed = 2
rank deleted = 3

pub record Advances (a b : UserGlobalMailState) : Type 0 where
  pub same_role : b.role_id ≡ a.role_id
  pub same_mail : b.global_mail_id ≡ a.global_mail_id
  pub rises : rank a.status ≤ rank b.status
  pub keeps_claims :
      (i : ℤ) → contains a.claimed_loot_indexes i ≡ true → contains b.claimed_loot_indexes i ≡ true
  pub stays_deleted :
      a.status ≡ deleted → (b.status ≡ deleted) × (b.claimed_loot_indexes ≡ a.claimed_loot_indexes)
  pub same_version : b.version ≡ a.version

apply_read-Advances : (a : UserGlobalMailState) (now : Time) → Advances a (apply_read a now)
unfolding apply_read
apply_read-Advances a now = ground arith

apply_delete-Advances : (a : UserGlobalMailState) (now : Time) → Advances a (apply_delete a now)
unfolding apply_delete
apply_delete-Advances a now = ground arith

Advances-refl : (a : UserGlobalMailState) → Advances a a
Advances-refl a = ground arith

record_claim-Advances :
    (a : UserGlobalMailState) (is : List ℤ) (now : Time)
    → is_deleted a.status ≡ false
    → Advances a (record_claim a is now)
unfolding record_claim
record_claim-Advances a is now h = record {
  same_role = refl;
  same_mail = refl;
  rises = ground arith;
  keeps_claims = λ i k. ground (arith, contains-merge_loot_indexes a.claimed_loot_indexes is i);
  stays_deleted = λ e. ground arith;
  same_version = refl;
}

unstamped :
    (a b : UserGlobalMailState) (now : Time)
    → Advances a b
    → Advances a (record b { update_time = now })
unstamped a b now v = record {
  same_role = v.same_role;
  same_mail = v.same_mail;
  rises = v.rises;
  keeps_claims = v.keeps_claims;
  stays_deleted = v.stays_deleted;
  same_version = v.same_version;
}

abbrev save_stamped :
    {W : Type 0}
    → PlayerMailService W
    → Time
    → UserGlobalMailState
    → Action W Error UserGlobalMailState
save_stamped service now b = service.repo.save_user_state (stamp b now) >> pure (stamp b now)

module _ {W : Type 0} (service : PlayerMailService W) (p : UserProfile) (id : ℤ) where
  apply_of-Advances :
      (c : MailCall) (a b : UserGlobalMailState) (mail : GlobalMail) (now : Time) (w w' : W)
      → apply_of service p id c a mail now w ≡ (ok b, w')
      → Advances a b
  unfolding apply_claim
  apply_of-Advances marks_read a b mail now w w' h =
      subst (Advances a) (ground arith) (apply_read-Advances a now)
  apply_of-Advances deletes a b mail now w w' h =
      subst (Advances a) (ground arith) (apply_delete-Advances a now)
  apply_of-Advances (claims is) a b mail now w w' h = elim (Bool-cases (is_deleted a.status)) [
    | inl gone ↦ subst (Advances a) (ground arith) (Advances-refl a)
    | inr there ↦ subst (Advances a) (ground arith) (record_claim-Advances a is now there)
  ]

  stamp-Advances :
      (a b : UserGlobalMailState) (now : Time) → Advances a b → Advances a (stamp b now)
  stamp-Advances a b now v = elim (Bool-cases (b.update_time == 0)) [
    | inl z ↦ subst (Advances a) (ground arith) (unstamped a b now v)
    | inr nz ↦ subst (Advances a) (ground arith) v
  ]

  -- What any call leaves, if it succeeds, of the state that the player had, or of the fresh state
  -- where he had none: the same player and mail, a status of no lower rank, all claims of before,
  -- the next version number, and after a deletion the same deleted status and claims.
  pub update_found-Advances :
      (c : MailCall) (st' : UserGlobalMailState) (mail : GlobalMail) (now : Time)
      (states : Dict ℤ UserGlobalMailState) (w w' : W)
      → update_found service p id (apply_of service p id c) now mail states w ≡ (ok st', w')
      → Advances (bump_version (state_or (new_state p id now) (lookup id states))) st'
  unfolding update_found
  update_found-Advances c st' mail now states w w' h =
      let a = bump_version (state_or (new_state p id now) (lookup id states)) in
      let (b, w₁, applied, rest) =
        >>=-eq-ok (apply_of service p id c a mail now) (save_stamped service now) w w' st' h in
      let (u, w₂, saved, done) =
        >>=-eq-ok (service.repo.save_user_state (stamp b now)) (λ _. pure (stamp b now)) w₁ w' st'
          rest in
      subst (Advances a) (ground arith)
        (stamp-Advances a b now (apply_of-Advances c a b mail now w w₁ applied))
