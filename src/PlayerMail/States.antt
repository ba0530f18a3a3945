-- ===== src/PlayerMail/States.antt =====
-- app/playersrv/mail_service.go: the player's state of a mail, and what each call makes of it.
use globalmail.Prelude.{Option, none, some, List, [], if◌then◌else◌, ◌==◌, nat_eq, int_eq}
use globalmail.Prelude.Int.{ℤ, pos, ◌+ℤ◌, wrap64}
use globalmail.Json.{RawMessage}
use globalmail.Types.{
  Time, UserProfile, UserGlobalMailState, UserMailStatus, unread, read, claimed, deleted, unset,
  RewardGrant, GrantStatus, is_deleted,
}
use globalmail.PlayerMail.Loots.{merge_loot_indexes}

-- The state of a mail that the player has none of yet.
unfoldable pub new_state : UserProfile → ℤ → Time → UserGlobalMailState
new_state p mail_id now = record {
  role_id = p.role_id;
  server_id = p.server_id;
  global_mail_id = mail_id;
  status = unread;
  claimed_loot_indexes = [];
  claim_time = none;
  delete_time = none;
  version = pos 0;
  create_time = now;
  update_time = 0;
}

abbrev pub state_or : UserGlobalMailState → Option UserGlobalMailState → UserGlobalMailState
state_or fresh none = fresh
state_or fresh (some st) = st

abbrev pub or_now : Option Time → Time → Option Time
or_now none now = some now
or_now (some t) now = some t

abbrev pub read_status : UserMailStatus → UserMailStatus
read_status unset = read
read_status unread = read
read_status s = s

-- The function that `MarkGlobalMailRead` applies.
unfoldable pub apply_read : UserGlobalMailState → Time → UserGlobalMailState
apply_read state now =
    if is_deleted state.status
    then state
    else record state { status = read_status state.status; update_time = now }

-- The function that `DeleteGlobalMail` applies.
unfoldable pub apply_delete : UserGlobalMailState → Time → UserGlobalMailState
apply_delete state now = record state {
  status = deleted;
  delete_time = or_now state.delete_time now;
  update_time = now;
}

-- The changes that `ClaimGlobalMail` makes to the state once the rewards are granted.
unfoldable pub record_claim : UserGlobalMailState → List ℤ → Time → UserGlobalMailState
record_claim state loot_indexes now = record state {
  status = claimed;
  claimed_loot_indexes = merge_loot_indexes state.claimed_loot_indexes loot_indexes;
  claim_time = or_now state.claim_time now;
  update_time = now;
}

unfoldable pub reward_grant : UserProfile → ℤ → ℤ → RawMessage → Time → RewardGrant
reward_grant p mail_id i loot now = record {
  role_id = p.role_id;
  server_id = p.server_id;
  global_mail_id = mail_id;
  loot_index = i;
  loot = loot;
  grant_key = (p.role_id, mail_id, i);
  status = GrantStatus.succeeded;
  external_reward_id = "";
  failure_reason = "";
  create_time = now;
  update_time = now;
}

-- `if state.UpdateTime.IsZero() { state.UpdateTime = now }`
abbrev pub stamp : UserGlobalMailState → Time → UserGlobalMailState
stamp state now = if state.update_time == 0 then record state { update_time = now } else state

abbrev pub bump_version : UserGlobalMailState → UserGlobalMailState
bump_version state = record state { version = wrap64 (state.version +ℤ pos 1) }
