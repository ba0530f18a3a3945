-- ===== src/Tests/PlayerTests.antt =====
-- PlayerMailService at concrete inputs.
use globalmail.Prelude.{
  ◌≡◌, ◌&&◌, not, All, refl, none, some, List, [], ◌∷◌, ◌++◌, sort, dedup, insert_sorted, contains,
  int_eq, ok, arith, true,
}
use globalmail.Prelude.Int.{ℤ, pos}
use globalmail.Json.{decode_items}
use globalmail.Types.{GlobalMail, RewardGrant, unread, read, claimed}
use globalmail.Ports.{RewardRepository, CacheRepository}
use globalmail.Prelude.Dict.{lookup}
use globalmail.PlayerMail.Service.{
  PlayerMailService, apply_claim, grant_all, grant_reward, update_found,
}
use globalmail.PlayerMail.States.{
  record_claim, reward_grant, apply_read, new_state, state_or, bump_version,
}
use globalmail.PlayerMail.Loots.{IsAscending, loot_at_index, new_loot_indexes, merge_loot_indexes}
use globalmail.PlayerMail.Status.{Advances, marks_read, update_found-Advances}
use globalmail.PlayerMail.Rewards.{
  IsLogged, grants, indexes_of, IsGrant, apply_claim-grants, apply_claim-again,
}
use globalmail.Tests.Data.{mail_of, player, state_of, plain_mails, no_wait}

-- The world is the list of the grants that were asked for.
abbrev logging : RewardRepository (List RewardGrant)
logging = record { grant_global_mail_reward = λ g w. (ok true, w ++ g ∷ []) }

abbrev no_cache : CacheRepository (List RewardGrant)
no_cache = record {
  get_global_mail_version = λ w. (ok (pos 0), w);
  increment_global_mail_version = λ w. (ok (pos 0), w);
  advance_global_mail_version = λ v w. (ok v, w);
  get_global_mail = λ id w. (ok none, w);
  set_global_mail = λ mail w. (ok tt, w);
  get_active_global_mail_ids = λ now w. (ok [], w);
  add_global_mail_to_indexes = λ mail w. (ok tt, w);
  get_user_profile = λ id w. (ok none, w);
}

abbrev service : PlayerMailService (List RewardGrant)
service = record {
  repo = plain_mails;
  rewards = some logging;
  cache = no_cache;
  locker = none;
  rebuild_lock_ttl = 30;
  wait = no_wait;
  others = λ c. (ok tt, c);
}

abbrev two_loots : GlobalMail
two_loots = mail_of (pos 7) []

logging-IsLogged : IsLogged logging (λ w. w)
logging-IsLogged = record { appends = λ g w w' b h. ground arith }

apply_claim-grants_example :
    (asked : List RewardGrant) × (grants player two_loots (pos 7) 20 (pos 1 ∷ []) ≡ [] ++ asked)
    × (IsAscending (indexes_of asked)
        × (((i : ℤ)
              → contains (indexes_of asked) i
                ≡ (contains (pos 1 ∷ pos 0 ∷ []) i && not (contains (pos 0 ∷ []) i)))
            × All (IsGrant player two_loots (pos 7)) asked))
unfolding apply_claim record_claim grant_all grant_reward reward_grant loot_at_index decode_items
    new_loot_indexes merge_loot_indexes sort dedup insert_sorted contains
apply_claim-grants_example =
    apply_claim-grants service logging refl (λ w. w) logging-IsLogged player (pos 7)
      (pos 1 ∷ pos 0 ∷ []) (state_of claimed (pos 0 ∷ []))
      (record_claim (state_of claimed (pos 0 ∷ [])) (pos 1 ∷ pos 0 ∷ []) 20) two_loots 20 []
      (grants player two_loots (pos 7) 20 (pos 1 ∷ [])) refl refl

abbrev no_grants : List RewardGrant
no_grants = []

apply_claim-again_example : no_grants ≡ no_grants
unfolding apply_claim record_claim grant_all grant_reward reward_grant loot_at_index decode_items
    new_loot_indexes merge_loot_indexes sort dedup insert_sorted contains
apply_claim-again_example =
    apply_claim-again service logging refl (λ w. w) logging-IsLogged player (pos 7) (pos 1 ∷ [])
      (state_of read []) (record_claim (state_of read []) (pos 1 ∷ []) 20)
      (record_claim (record_claim (state_of read []) (pos 1 ∷ []) 20) (pos 1 ∷ []) 30) two_loots 20
      30 [] (grants player two_loots (pos 7) 20 (pos 1 ∷ [])) [] [] refl refl refl

update_found-Advances_example :
    Advances
      (bump_version (state_or (new_state player (pos 7) 20) (some (state_of unread []))))
      (apply_read (bump_version (state_of unread [])) 20)
unfolding update_found apply_read lookup
update_found-Advances_example =
    update_found-Advances service player (pos 7) marks_read
      (apply_read (bump_version (state_of unread [])) 20) two_loots 20
      ((pos 7, state_of unread []) ∷ []) [] [] refl
