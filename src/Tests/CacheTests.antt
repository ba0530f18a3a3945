-- ===== src/Tests/CacheTests.antt =====
-- The cache at concrete inputs.
use globalmail.Prelude.{refl, inl, none, [], ◌∷◌, ok, arith, In, contains}
use globalmail.Prelude.Int.{ℤ, pos, ◌≤ℤ◌, ◌<ℤ◌}
use globalmail.Types.{GlobalMail}
use globalmail.Cache.Conditions.{
  compile_conditions, conditions_match, server_ids_from_conditions, condition_server_ids,
}
use globalmail.Cache.Snapshot.{
  CacheSnapshot, empty_snapshot, add_mail, add_mails, index_servers, build_snapshot, candidate_ids,
  visible_at, visible_from, visible_mails,
}
use globalmail.Cache.Build.{names_server}
use globalmail.Cache.Visibility.{
  IsShown, visible_mails_sound, visible_mails_complete, unaddressed_mail_hidden,
}
use globalmail.Cache.Refresh.{
  CacheAction, load_mails, load_from_shared_cache, load_current, refresh, refresh_locked,
  refresh_if_stale, force_refresh,
}
use globalmail.Cache.Freshness.{refresh_if_stale-fresh, force_refresh-lowers}
use globalmail.Prelude.Dict.{lookup, insert}
use globalmail.Json.{decode_int_list, decode_int}
use globalmail.Tests.Data.{mail_of, for_server, player, plain_cache, plain_mails, no_wait}

abbrev everyone : GlobalMail
everyone = mail_of (pos 7) []

abbrev server_two : GlobalMail
server_two = mail_of (pos 8) (for_server (pos 2) ∷ [])

visible_mails_sound_example : In everyone (everyone ∷ []) × IsShown player 50 everyone
unfolding visible_mails build_snapshot add_mails add_mail empty_snapshot index_servers candidate_ids
    visible_from visible_at lookup insert server_ids_from_conditions conditions_match
    compile_conditions
visible_mails_sound_example =
    visible_mails_sound (pos 1) 20 (everyone ∷ []) player 50 everyone (inl refl)

visible_mails_complete_example :
    In everyone (visible_mails (build_snapshot (pos 1) 20 (everyone ∷ [])) player 50)
unfolding conditions_match compile_conditions contains names_server server_ids_from_conditions
visible_mails_complete_example =
    visible_mails_complete (pos 1) 20 (everyone ∷ []) player 50 everyone (refl, tt) (inl refl)
      (record { is_live = refl; started = omega arith; not_expired = omega arith; eligible = refl })
      (inl λ j. ground arith)

unaddressed_mail_hidden_example :
    In everyone (visible_mails (build_snapshot (pos 1) 20 (everyone ∷ server_two ∷ [])) player 50)
    → ⊥
unfolding contains names_server server_ids_from_conditions condition_server_ids decode_int_list
    decode_int
unaddressed_mail_hidden_example =
    unaddressed_mail_hidden (pos 1) 20 (everyone ∷ server_two ∷ []) player 50 everyone (pos 8, refl)
      refl

abbrev idle : CacheAction ℤ (Unit {0})
idle c = (ok tt, c)

abbrev old_snapshot : CacheSnapshot
unfolding empty_snapshot
old_snapshot = empty_snapshot

refresh_if_stale-fresh_example : pos 4 ≤ℤ (build_snapshot (pos 4) 20 (everyone ∷ [])).version
unfolding refresh_if_stale refresh_locked refresh load_current load_from_shared_cache load_mails
    empty_snapshot
refresh_if_stale-fresh_example =
    refresh_if_stale-fresh plain_cache plain_mails none 30 no_wait idle 20 (pos 4) old_snapshot
      (build_snapshot (pos 4) 20 (everyone ∷ [])) (pos 4) (pos 4) (pos 4) refl refl

-- Another goroutine stores a snapshot of version 9 while this one waits.
abbrev overtakes : CacheAction ℤ (Unit {0})
overtakes c = (ok tt, (build_snapshot (pos 9) 20 [], c.1))

force_refresh-lowers_example :
    (build_snapshot (pos 4) 20 (everyone ∷ [])).version <ℤ (build_snapshot (pos 9) 20 []).version
unfolding force_refresh refresh load_current load_from_shared_cache load_mails build_snapshot
    add_mails add_mail empty_snapshot
force_refresh-lowers_example =
    force_refresh-lowers plain_cache plain_mails none 30 no_wait overtakes 20 (pos 4) old_snapshot
      (build_snapshot (pos 4) 20 (everyone ∷ [])) (pos 4) (pos 4) (pos 4) refl (ground arith) refl
