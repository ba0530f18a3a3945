-- ===== src/Events/Stall.antt =====
-- What a published mail does to the version in Redis and to the caches of the player servers.
use globalmail.Prelude.{◌≡◌, String, List, [], ◌∷◌, Option, Result, ok, arith}
use globalmail.Prelude.Int.{ℤ, pos, ◌≤ℤ◌}
use globalmail.Types.{Time, Duration, Error, GlobalMail}
use globalmail.Ports.{MailRepository, CacheRepository, CacheRebuildLocker, IdGenerator}
use globalmail.Cache.Snapshot.{CacheSnapshot}
use globalmail.Cache.Refresh.{Waiting, CacheAction, refresh_if_stale}
use globalmail.Publisher.{PublishCommand, Codec, publish_new, changed_event}
use globalmail.Publisher.Idempotency.{publish_new-first}
use globalmail.Redis.Version.{Kv, IsKv, or_zero, advance_global_mail_version, advance-stalls}
use globalmail.Events.{handle, poll}

module _ {V : Type 0} (cache : CacheRepository V) (repo : MailRepository V)
    (locker : Option (CacheRebuildLocker V)) (ttl : Duration) (wait : Waiting)
    (others : CacheAction V (Unit {0})) where
  -- While Redis announces no more than the cache's version, and reading it succeeds, the poller
  -- leaves the cache as it is, however often it ticks.
  poll-idle :
      (ticks : List Time) (s : CacheSnapshot) (v : V) (remote : ℤ)
      → cache.get_global_mail_version v ≡ (ok remote, v)
      → remote ≤ℤ s.version
      → poll cache repo locker ttl wait others ticks (s, v) ≡ (s, v)
  unfolding poll refresh_if_stale
  poll-idle [] s v remote read old = ground arith
  poll-idle (now ∷ ticks) s v remote read old = ground (arith, poll-idle ticks s v remote read old)

  -- The flaw of the versions: every mail is published with version 1. So once Redis stands at a
  -- version of at least 1, relaying the next mail does not advance it; and a player server whose
  -- cache has a version of at least 1 drops the event without a refresh.
  pub next_mail_stalls :
      {W R : Type 0} (w_repo : MailRepository W) (ids : IdGenerator W) (codec : Codec) (kv : Kv R)
      (law : IsKv kv) (cmd : PublishCommand) (hash : String) (now : Time) (mail : GlobalMail)
      (w w' : W)
      → publish_new w_repo ids codec cmd hash now w ≡ (ok mail, w')
      → (answer : Result Error ℤ) (r r' : R) → pos 1 ≤ℤ or_zero (kv.version r)
      → advance_global_mail_version kv mail.version r ≡ (answer, r')
      → (event_id : ℤ) (action : String) (sent seen : Time) (s : CacheSnapshot) (v : V)
      → pos 1 ≤ℤ s.version
      → (kv.version r' ≡ kv.version r)
        × (handle cache repo locker ttl wait others
              (changed_event mail event_id action sent)
              seen
              (s, v)
            ≡ (ok tt, (s, v)))
  unfolding handle changed_event
  next_mail_stalls w_repo ids codec kv law cmd hash now mail w w' published answer r r' high
        advanced event_id action sent seen s v fresh =
      let first = (publish_new-first w_repo ids codec cmd hash now mail w w' published).0 in
      (
        advance-stalls kv law mail.version answer r r' (ground (arith, first, high)) advanced,
        ground (arith, first, fresh),
      )
