-- ===== src/PlayerMail/Rewards.antt =====
-- app/playersrv/mail_service.go: which rewards a claim asks for.
use mathlib.Core.List.{append_assoc, append-nil}
use globalmail.Prelude.{
  ◌≡◌, All, contains, not, ◌&&◌, subst, refl, int_eq, sym, ap, ◌∙◌, Bool, false, Option, none, some,
  List, [], ◌∷◌, ◌++◌, map, ok, err, Action, pure, ◌>>◌, >>=-eq-ok, if◌then◌else◌, arith,
}
use globalmail.Prelude.Int.{ℤ}
use globalmail.Json.{RawMessage, empty}
use globalmail.Types.{
  Time, Error, GlobalMail, UserProfile, UserGlobalMailState, RewardGrant, is_deleted,
}
use globalmail.Ports.{RewardRepository}
use globalmail.PlayerMail.Loots.{
  new_loot_indexes, loot_at_index, HandsOut, loot_at_index-HandsOut, IsAscending,
  loot_indexes-IsAscending, contains-new_loot_indexes, claim_again_grants_nothing,
}
use globalmail.PlayerMail.Service.{
  PlayerMailService, grant_reward, grant_all, apply_claim, from_result,
}
use globalmail.PlayerMail.States.{reward_grant, record_claim}

-- The loot that a claim of the index hands out.
abbrev loot_of : RawMessage → ℤ → RawMessage
loot_of loots i = elim (loot_at_index loots i) [ ok loot ↦ loot | err e ↦ empty ]

-- The grants that stand for the indexes, in their order.
abbrev pub grants : UserProfile → GlobalMail → ℤ → Time → List ℤ → List RewardGrant
grants p mail id now = map (λ i. reward_grant p id i (loot_of mail.loots i) now)

abbrev pub indexes_of : List RewardGrant → List ℤ
indexes_of gs = map (λ (g : RewardGrant). g.loot_index) gs

-- A grant for the player and the mail, of what the mail holds at the grant's index.
abbrev pub IsGrant : UserProfile → GlobalMail → ℤ → RewardGrant → Type 0
IsGrant p mail id g =
    (g.role_id ≡ p.role_id)
    × ((g.server_id ≡ p.server_id)
        × ((g.global_mail_id ≡ id)
            × ((g.grant_key ≡ (p.role_id, id, g.loot_index))
                × HandsOut mail.loots g.loot_index g.loot)))

-- A reward service seen through the list of the grants that it was asked for.
pub record IsLogged {W : Type 0} (r : RewardRepository W) (log : W → List RewardGrant)
    : Type 0 where
  pub appends :
      (g : RewardGrant) (w w' : W) (granted : Bool)
      → r.grant_global_mail_reward g w ≡ (ok granted, w')
      → log w' ≡ log w ++ g ∷ []

-- The call that the service makes of the rewards it is wired to, if of any.
abbrev chosen : {W : Type 0} → Option (RewardRepository W) → RewardGrant → Action W Error (Unit {0})
chosen rewards g = elim rewards [
  | none ↦ pure tt
  | some r ↦ r.grant_global_mail_reward g >> pure tt
]

abbrev claim_or_keep :
    {W : Type 0}
    → Bool
    → PlayerMailService W
    → UserProfile
    → ℤ
    → List ℤ
    → UserGlobalMailState
    → GlobalMail
    → Time
    → Action W Error UserGlobalMailState
claim_or_keep b service p id is st mail now =
    if b
    then pure st
    else grant_all service p mail id (new_loot_indexes st.claimed_loot_indexes is) now
      >> pure (record_claim st is now)

module _ {W : Type 0} (service : PlayerMailService W) (r : RewardRepository W)
    (wired : service.rewards ≡ some r) (log : W → List RewardGrant) (l : IsLogged r log)
    (p : UserProfile) (id : ℤ) where
  indexes_of-grants :
      (mail : GlobalMail) (now : Time) (is : List ℤ) → indexes_of (grants p mail id now is) ≡ is
  unfolding reward_grant
  indexes_of-grants mail now [] = refl
  indexes_of-grants mail now (i ∷ is) = ap (λ xs. i ∷ xs) (indexes_of-grants mail now is)

  grant_reward-log :
      (i : ℤ) (loot : RawMessage) (now : Time) (w w' : W) (u : Unit {0})
      → grant_reward service p id i loot now w ≡ (ok u, w')
      → log w' ≡ log w ++ reward_grant p id i loot now ∷ []
  unfolding grant_reward
  grant_reward-log i loot now w w' u h =
      let g = reward_grant p id i loot now in
      let (b, w₁, asked, done) =
        >>=-eq-ok (r.grant_global_mail_reward g) (λ _. pure tt) w w' u
          (sym (ap (λ o. chosen o g w) wired) ∙ h) in
      l.appends g w w' b (asked ∙ ground arith)

  grant_all-log :
      (mail : GlobalMail) (is : List ℤ) (now : Time) (w w' : W) (u : Unit {0})
      → grant_all service p mail id is now w ≡ (ok u, w')
      → log w' ≡ log w ++ grants p mail id now is
  unfolding grant_all
  grant_all-log mail [] now w w' u h = ground (arith, append-nil (log w))
  grant_all-log mail (i ∷ is) now w w' u h =
      let rest = grant_all service p mail id is now in
      let (loot, w₁, at, h₁) =
        >>=-eq-ok (from_result (loot_at_index mail.loots i))
          (λ loot. grant_reward service p id i loot now >> rest) w w' u h in
      let (v, w₂, granted, h₂) =
        >>=-eq-ok (grant_reward service p id i loot now) (λ _. rest) w₁ w' u h₁ in
      ground (
        arith,
        at,
        grant_reward-log i loot now w₁ w₂ v granted,
        grant_all-log mail is now w₂ w' u h₂,
        append_assoc (log w) (reward_grant p id i loot now ∷ []) (grants p mail id now is),
      )

  grant_all-IsGrant :
      (mail : GlobalMail) (is : List ℤ) (now : Time) (w w' : W) (u : Unit {0})
      → grant_all service p mail id is now w ≡ (ok u, w')
      → All (IsGrant p mail id) (grants p mail id now is)
  unfolding grant_all reward_grant
  grant_all-IsGrant mail [] now w w' u h = tt
  grant_all-IsGrant mail (i ∷ is) now w w' u h =
      let rest = grant_all service p mail id is now in
      let (loot, w₁, at, h₁) =
        >>=-eq-ok (from_result (loot_at_index mail.loots i))
          (λ loot. grant_reward service p id i loot now >> rest) w w' u h in
      let (v, w₂, granted, h₂) =
        >>=-eq-ok (grant_reward service p id i loot now) (λ _. rest) w₁ w' u h₁ in
      let found : loot_at_index mail.loots i ≡ ok loot = ground (arith, at) in
      let out : HandsOut mail.loots i (loot_of mail.loots i) =
        subst (HandsOut mail.loots i) (ground (arith, found))
          (loot_at_index-HandsOut mail.loots loot i found) in
      ((refl, (refl, (refl, (refl, out)))), grant_all-IsGrant mail is now w₂ w' u h₂)

  apply_claim-log :
      (is : List ℤ) (st st' : UserGlobalMailState) (mail : GlobalMail) (now : Time) (w w' : W)
      → is_deleted st.status ≡ false
      → apply_claim service p id is st mail now w ≡ (ok st', w')
      → (log w' ≡ log w ++ grants p mail id now (new_loot_indexes st.claimed_loot_indexes is))
        × All
            (IsGrant p mail id)
            (grants p mail id now (new_loot_indexes st.claimed_loot_indexes is))
  unfolding apply_claim
  apply_claim-log is st st' mail now w w' there h =
      let new = new_loot_indexes st.claimed_loot_indexes is in
      let (u, w₁, granted, done) =
        >>=-eq-ok (grant_all service p mail id new now) (λ _. pure (record_claim st is now)) w w'
          st' (sym (ap (λ b. claim_or_keep b service p id is st mail now w) there) ∙ h) in
      let all : grant_all service p mail id new now w ≡ (ok u, w') = granted ∙ ground arith in
      (grant_all-log mail new now w w' u all, grant_all-IsGrant mail new now w w' u all)

  -- Of a service whose reward port logs what it is asked for: a claim of a mail that is not deleted,
  -- if it succeeds, has asked for some grants and for nothing else. Their loot indexes are strictly
  -- rising, and are those that the claim names and that were not claimed before; and each grant is
  -- for the player and the mail, under the key of the three numbers, and hands out what the loots of
  -- the mail hold at its index.
  pub apply_claim-grants :
      (is : List ℤ) (st st' : UserGlobalMailState) (mail : GlobalMail) (now : Time) (w w' : W)
      → is_deleted st.status ≡ false
      → apply_claim service p id is st mail now w ≡ (ok st', w')
      → (asked : List RewardGrant) × (log w' ≡ log w ++ asked)
        × (IsAscending (indexes_of asked)
            × (((i : ℤ)
                  → contains (indexes_of asked) i
                    ≡ (contains is i && not (contains st.claimed_loot_indexes i)))
                × All (IsGrant p mail id) asked))
  apply_claim-grants is st st' mail now w w' there h =
      let new = new_loot_indexes st.claimed_loot_indexes is in
      let (logged, each) = apply_claim-log is st st' mail now w w' there h in
      let same : new ≡ indexes_of (grants p mail id now new) =
        sym (indexes_of-grants mail now new) in
      (
        grants p mail id now new,
        logged,
        (
          subst IsAscending same (loot_indexes-IsAscending st.claimed_loot_indexes is).1,
          (
            λ i.
                ap (λ xs. contains xs i) (sym same)
                ∙ contains-new_loot_indexes st.claimed_loot_indexes is i,
            each,
          ),
        ),
      )

  -- After a claim that succeeded on a mail that was not deleted, the same claim on the state that it
  -- left, if it succeeds, asks for no grant at all.
  pub apply_claim-again :
      (is : List ℤ) (st st' st'' : UserGlobalMailState) (mail : GlobalMail) (now later : Time)
      (w w' v v' : W)
      → is_deleted st.status ≡ false
      → apply_claim service p id is st mail now w ≡ (ok st', w')
      → apply_claim service p id is st' mail later v ≡ (ok st'', v')
      → log v' ≡ log v
  unfolding apply_claim record_claim
  apply_claim-again is st st' st'' mail now later w w' v v' there h k =
      let new = new_loot_indexes st.claimed_loot_indexes is in
      let (u, w₁, granted, done) =
        >>=-eq-ok (grant_all service p mail id new now) (λ _. pure (record_claim st is now)) w w'
          st' (sym (ap (λ b. claim_or_keep b service p id is st mail now w) there) ∙ h) in
      let same : record_claim st is now ≡ st' = ground arith in
      let nothing =
        ap (λ (s : UserGlobalMailState). new_loot_indexes s.claimed_loot_indexes is) (sym same)
        ∙ claim_again_grants_nothing st.claimed_loot_indexes is in
      (apply_claim-log is st' st'' mail later v v' (ground (arith, same)) k).0
      ∙ ap (λ xs. log v ++ grants p mail id later xs) nothing
      ∙ append-nil (log v)
