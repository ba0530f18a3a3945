-- ===== src/Events.antt =====
-- app/playersrv/event_consumer.go and app/playersrv/cache_poller.go: what makes a player server
-- refresh its cache.
use globalmail.Prelude.{
  List, [], ◌∷◌, Bool, ◌&&◌, Option, Action, pure, ◌>>=◌, ◌>>◌, Result, ok, err, if◌then◌else◌,
}
use globalmail.Prelude.Int.{ℤ, pos, ltb_ℤ, leb_ℤ}
use globalmail.Types.{Time, Duration, Error, GlobalMailChangedEvent}
use globalmail.Ports.{MailRepository, CacheRepository, CacheRebuildLocker}
use globalmail.Cache.Snapshot.{CacheSnapshot}
use globalmail.Cache.Refresh.{Waiting, CacheAction, snapshot, force_refresh, refresh_if_stale}
pub mod Stall

module _ {W : Type 0} (cache : CacheRepository W) (repo : MailRepository W)
    (locker : Option (CacheRebuildLocker W)) (ttl : Duration) (wait : Waiting)
    (others : CacheAction W (Unit {0})) where
  -- EventConsumer.Handle.
  unfoldable pub handle : GlobalMailChangedEvent → Time → CacheAction W (Unit {0})
  handle event now = do
    s ← snapshot
    if ltb_ℤ (pos 0) event.version && leb_ℤ event.version s.version
        then pure tt
        else force_refresh cache repo locker ttl wait others now

  -- The loop of EventConsumer.Run over the events that the reader yields; an error of Handle ends it.
  unfoldable pub run : List (GlobalMailChangedEvent × Time) → CacheAction W (Unit {0})
  unfolding handle
  run [] = pure tt
  run (event ∷ events) = do handle event.0 event.1; run events

  -- The loop of RunGlobalMailCachePoller over the times of its ticks; an error is logged.
  unfoldable pub poll : List Time → CacheSnapshot × W → CacheSnapshot × W
  poll [] c = c
  poll (now ∷ ticks) c = poll ticks (refresh_if_stale cache repo locker ttl wait others now c).1
