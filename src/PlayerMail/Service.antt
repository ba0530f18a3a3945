-- ===== src/PlayerMail/Service.antt =====
-- app/playersrv/mail_service.go: PlayerMailService. The calls of the stores go through the ports;
-- the times that a call reads from the clocks are its argument.
use globalmail.Prelude.{
  Bool, Option, none, some, List, [], ◌∷◌, map, sort, Result, Action, pure, raise, ◌>>=◌, ◌>>◌,
  if◌then◌else◌, ◌==◌, nat_eq, int_eq,
}
use globalmail.Prelude.Int.{ℤ, ltb_ℤ}
use globalmail.Prelude.Dict.{Dict, lookup}
use globalmail.Json.{RawMessage}
use globalmail.Types.{
  Time, Duration, Error, mail_not_visible, GlobalMail, UserProfile, UserGlobalMailState,
  UserMailStatus, unread, is_deleted,
}
use globalmail.Ports.{MailRepository, CacheRepository, CacheRebuildLocker, RewardRepository}
use globalmail.Cache.Snapshot.{visible_mails}
use globalmail.Cache.Refresh.{Waiting, CacheAction, lift, snapshot, refresh_if_stale, force_refresh}
use globalmail.PlayerMail.States.{
  new_state, state_or, apply_read, apply_delete, record_claim, reward_grant, stamp, bump_version,
}
use globalmail.PlayerMail.Loots.{new_loot_indexes, loot_at_index}

pub record MailItem : Type 0 where
  pub mail : GlobalMail
  pub status : UserMailStatus
  pub claimed_loot_indexes : List ℤ
  pub state : Option UserGlobalMailState

-- The service with its cache: the ports, and the settings of the cache.
pub record PlayerMailService (W : Type 0) : Type 0 where
  pub repo : MailRepository W
  pub rewards : Option (RewardRepository W)
  pub cache : CacheRepository W
  pub locker : Option (CacheRebuildLocker W)
  pub rebuild_lock_ttl : Duration
  pub wait : Waiting
  pub others : CacheAction W (Unit {0})

-- The clock of the cache at a refresh and at a look at the snapshot, and that of the service.
pub record Readings : Type 0 where
  pub refreshed : Time
  pub looked : Time
  pub now : Time

unfoldable pub later_id : MailItem → MailItem → Bool
later_id a b = ltb_ℤ b.mail.id a.mail.id

-- The body of the loop of `ListGlobalMails`: `none` for a mail that the player has deleted.
unfoldable pub list_item : Dict ℤ UserGlobalMailState → GlobalMail → Option MailItem
list_item states mail = elim (lookup mail.id states) [
  | none ↦ some (record { mail = mail; status = unread; claimed_loot_indexes = []; state = none })
  | some state ↦
      if is_deleted state.status
      then none
      else some (record {
        mail = mail;
        status = state.status;
        claimed_loot_indexes = state.claimed_loot_indexes;
        state = some state;
      })
]

unfoldable pub list_items : Dict ℤ UserGlobalMailState → List GlobalMail → List MailItem
unfolding list_item
list_items states [] = []
list_items states (mail ∷ mails) = elim (list_item states mail) [
  | none ↦ list_items states mails
  | some item ↦ item ∷ list_items states mails
]

unfoldable pub find_mail : ℤ → List GlobalMail → Option GlobalMail
find_mail id [] = none
find_mail id (mail ∷ mails) = if mail.id == id then some mail else find_mail id mails

abbrev pub from_result : {W A : Type 0} → Result Error A → Action W Error A
from_result r w = (r, w)

module _ {W : Type 0} (service : PlayerMailService W) where
  open service use {repo, rewards, cache, locker, rebuild_lock_ttl, wait, others}

  -- Whether the reward was new is not looked at.
  unfoldable pub grant_reward : UserProfile → ℤ → ℤ → RawMessage → Time → Action W Error (Unit {0})
  unfolding reward_grant
  grant_reward p mail_id i loot now = elim rewards [
    | none ↦ pure tt
    | some r ↦ r.grant_global_mail_reward (reward_grant p mail_id i loot now) >> pure tt
  ]

  -- The loop of `ClaimGlobalMail` over the new indexes.
  unfoldable pub grant_all :
      UserProfile → GlobalMail → ℤ → List ℤ → Time → Action W Error (Unit {0})
  unfolding grant_reward
  grant_all p mail mail_id [] now = pure tt
  grant_all p mail mail_id (i ∷ is) now = do
    loot ← from_result (loot_at_index mail.loots i)
    grant_reward p mail_id i loot now
    grant_all p mail mail_id is now

  -- The function that `ClaimGlobalMail` applies.
  unfoldable pub apply_claim :
      UserProfile
      → ℤ
      → List ℤ
      → UserGlobalMailState
      → GlobalMail
      → Time
      → Action W Error UserGlobalMailState
  unfolding grant_all record_claim
  apply_claim p mail_id loot_indexes state mail now =
      if is_deleted state.status then pure state else do
        grant_all p mail mail_id (new_loot_indexes state.claimed_loot_indexes loot_indexes) now
        pure (record_claim state loot_indexes now)

  unfoldable pub refresh_cache : Time → CacheAction W (Unit {0})
  refresh_cache now = refresh_if_stale cache repo locker rebuild_lock_ttl wait others now

  unfoldable pub cache_version : CacheAction W ℤ
  cache_version = do s ← snapshot; pure s.version

  unfoldable pub force_refresh_cache : Time → CacheAction W (Unit {0})
  force_refresh_cache now = force_refresh cache repo locker rebuild_lock_ttl wait others now

  unfoldable pub set_reward_repository : Option (RewardRepository W) → PlayerMailService W
  set_reward_repository r = record service { rewards = r }

  unfoldable pub list_global_mails : UserProfile → Readings → CacheAction W (List MailItem)
  unfolding refresh_cache list_items later_id
  list_global_mails p t = do
    refresh_cache t.refreshed
    s ← snapshot
    let mails = visible_mails s p t.looked
    states ← lift (repo.get_user_states p.role_id (map (λ m. m.id) mails))
    pure (sort later_id (list_items states mails))

  -- The rest of `updateGlobalMailState` once the mail and the player's states are there.
  unfoldable pub update_found :
      UserProfile
      → ℤ
      → (UserGlobalMailState → GlobalMail → Time → Action W Error UserGlobalMailState)
      → Time
      → GlobalMail
      → Dict ℤ UserGlobalMailState
      → Action W Error UserGlobalMailState
  unfolding new_state
  update_found p mail_id apply now mail states = do
    let state = state_or (new_state p mail_id now) (lookup mail_id states)
    changed ← apply (bump_version state) mail now
    repo.save_user_state (stamp changed now)
    pure (stamp changed now)

  unfoldable pub update_global_mail_state :
      UserProfile
      → ℤ
      → (UserGlobalMailState → GlobalMail → Time → Action W Error UserGlobalMailState)
      → Readings
      → CacheAction W UserGlobalMailState
  unfolding refresh_cache find_mail update_found
  update_global_mail_state p mail_id apply t = do
    refresh_cache t.refreshed
    s ← snapshot
    elim (find_mail mail_id (visible_mails s p t.looked)) [
      | none ↦ raise mail_not_visible
      | some mail ↦ do
        states ← lift (repo.get_user_states p.role_id (mail_id ∷ []))
        lift (update_found p mail_id apply t.now mail states)
    ]

  unfoldable pub mark_global_mail_read :
      UserProfile → ℤ → Readings → CacheAction W UserGlobalMailState
  unfolding update_global_mail_state apply_read
  mark_global_mail_read p mail_id t =
      update_global_mail_state p mail_id (λ state _ now. pure (apply_read state now)) t

  unfoldable pub claim_global_mail :
      UserProfile → ℤ → List ℤ → Readings → CacheAction W UserGlobalMailState
  unfolding update_global_mail_state apply_claim
  claim_global_mail p mail_id loot_indexes t =
      update_global_mail_state p mail_id (apply_claim p mail_id loot_indexes) t

  unfoldable pub delete_global_mail : UserProfile → ℤ → Readings → CacheAction W UserGlobalMailState
  unfolding update_global_mail_state apply_delete
  delete_global_mail p mail_id t =
      update_global_mail_state p mail_id (λ state _ now. pure (apply_delete state now)) t
