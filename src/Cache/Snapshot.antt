-- ===== src/Cache/Snapshot.antt =====
-- domain/globalmail/cache.go: the snapshot that a refresh builds, and the mails that it shows to a
-- player.
use globalmail.Prelude.{
  not, ◌||◌, Option, none, some, List, [], ◌∷◌, ◌++◌, ltb, if◌then◌else◌, int_eq,
}
use globalmail.Prelude.Int.{ℤ, pos, ltb_ℤ}
use globalmail.Prelude.Dict.{Dict, lookup, insert}
use globalmail.Types.{Time, GlobalMail, UserProfile, is_published}
use globalmail.Cache.Conditions.{
  CompiledCondition, compile_conditions, conditions_match, server_ids_from_conditions,
}

pub record CacheSnapshot : Type 0 where
  pub version : ℤ
  pub max_global_mail_id : ℤ
  pub mails_by_id : Dict ℤ GlobalMail
  pub active_mail_ids : List ℤ
  pub mail_ids_by_server : Dict ℤ (List ℤ)
  pub compiled_conditions : Dict ℤ (List CompiledCondition)
  pub last_refresh_time : Time

-- The snapshot of `NewLocalCache`.
unfoldable pub empty_snapshot : CacheSnapshot
empty_snapshot = record {
  version = pos 0;
  max_global_mail_id = pos 0;
  mails_by_id = [];
  active_mail_ids = [];
  mail_ids_by_server = [];
  compiled_conditions = [];
  last_refresh_time = 0;
}

-- A missing key of a Go map of slices reads as the empty slice.
abbrev pub at_server : ℤ → Dict ℤ (List ℤ) → List ℤ
at_server server index = elim (lookup server index) [ some ids ↦ ids | none ↦ [] ]

abbrev pub compiled_at : ℤ → Dict ℤ (List CompiledCondition) → List CompiledCondition
compiled_at id table = elim (lookup id table) [ some cs ↦ cs | none ↦ [] ]

-- The inner loop of `refresh`.
unfoldable pub index_servers : ℤ → List ℤ → Dict ℤ (List ℤ) → Dict ℤ (List ℤ)
index_servers id [] index = index
index_servers id (server ∷ servers) index =
    index_servers id servers (insert server (at_server server index ++ id ∷ []) index)

-- The body of the loop over the mails in `refresh`.
unfoldable pub add_mail : CacheSnapshot → GlobalMail → CacheSnapshot
unfolding index_servers
add_mail s mail = record s {
  mails_by_id = insert mail.id mail s.mails_by_id;
  active_mail_ids = s.active_mail_ids ++ mail.id ∷ [];
  max_global_mail_id = if ltb_ℤ s.max_global_mail_id mail.id then mail.id else s.max_global_mail_id;
  compiled_conditions = insert mail.id (compile_conditions mail.conditions) s.compiled_conditions;
  mail_ids_by_server =
      index_servers mail.id (server_ids_from_conditions mail.conditions) s.mail_ids_by_server;
}

unfoldable pub add_mails : CacheSnapshot → List GlobalMail → CacheSnapshot
unfolding add_mail
add_mails s [] = s
add_mails s (mail ∷ mails) = add_mails (add_mail s mail) mails

unfoldable pub build_snapshot : ℤ → Time → List GlobalMail → CacheSnapshot
unfolding empty_snapshot add_mails
build_snapshot version now mails =
    add_mails (record empty_snapshot { version = version; last_refresh_time = now }) mails

-- `if len(candidateIDs) == 0 { candidateIDs = snapshot.ActiveMailIDs }`
abbrev pub or_else : List ℤ → List ℤ → List ℤ
or_else [] all = all
or_else (id ∷ ids) all = id ∷ ids

unfoldable pub candidate_ids : CacheSnapshot → UserProfile → List ℤ
candidate_ids s p = or_else (at_server p.server_id s.mail_ids_by_server) s.active_mail_ids

-- The body of the loop of `VisibleMails`: `none` where it goes on with the next candidate.
unfoldable pub visible_at : CacheSnapshot → UserProfile → Time → ℤ → Option GlobalMail
visible_at s p now id = elim (lookup id s.mails_by_id) [
  | none ↦ none
  | some mail ↦
      if not (is_published mail.status)
      then none
      else if ltb now mail.start_time || not (ltb now mail.expire_time)
      then none
      else if not (conditions_match (compiled_at id s.compiled_conditions) p)
      then none
      else some mail
]

unfoldable pub visible_from : CacheSnapshot → UserProfile → Time → List ℤ → List GlobalMail
unfolding visible_at
visible_from s p now [] = []
visible_from s p now (id ∷ ids) = elim (visible_at s p now id) [
  | none ↦ visible_from s p now ids
  | some mail ↦ mail ∷ visible_from s p now ids
]

unfoldable pub visible_mails : CacheSnapshot → UserProfile → Time → List GlobalMail
unfolding candidate_ids visible_from
visible_mails s p now = visible_from s p now (candidate_ids s p)
