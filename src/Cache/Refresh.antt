-- ===== src/Cache/Refresh.antt =====
-- domain/globalmail/cache.go: the refresh of the local cache from Redis, or from MySQL where Redis
-- is incomplete. The state is the snapshot in the process beside the world `W` of the stores. What
-- other processes do meanwhile is part of the calls of the stores.
use globalmail.Prelude.{
  ℕ, zero, suc, Option, none, some, List, [], ◌∷◌, ok, Action, pure, raise, ◌>>=◌, ◌>>◌,
  if◌then◌else◌,
}
use globalmail.Prelude.Int.{ℤ, leb_ℤ}
use globalmail.Types.{Time, Duration, Error, GlobalMail}
use globalmail.Ports.{MailRepository, CacheRepository, CacheRebuildLocker}
use globalmail.Cache.Snapshot.{CacheSnapshot, build_snapshot}

-- How a wait ends that no tick of its ticker has ended: the timer, or the caller's context.
pub data WaitEnd : Type 0 where
  timed_out : WaitEnd
  context_done : Error → WaitEnd

-- What the timers do while this process waits: the ticks before the end, and the end.
pub record Waiting : Type 0 where
  pub ticks : ℕ
  pub finish : WaitEnd

abbrev pub CacheAction : Type 0 → Type 0 → Type 0
CacheAction W A = Action (CacheSnapshot × W) Error A

-- A call of a store, beside the snapshot.
abbrev pub lift : {W A : Type 0} → Action W Error A → CacheAction W A
lift m (s, w) = let (r, w') = m w in (r, (s, w'))

abbrev pub snapshot : {W : Type 0} → CacheAction W CacheSnapshot
snapshot (s, w) = (ok s, (s, w))

abbrev pub store_snapshot : {W : Type 0} → CacheSnapshot → CacheAction W (Unit {0})
store_snapshot s' (s, w) = (ok tt, (s', w))

module _ {W : Type 0} (cache : CacheRepository W) where
  open cache use {
    get_active_global_mail_ids, get_global_mail, set_global_mail, add_global_mail_to_indexes,
  }

  -- The loop of `loadFromSharedCache`: one mail that is missing makes the whole load fail.
  unfoldable pub load_mails : List ℤ → Action W Error (Option (List GlobalMail))
  load_mails [] = pure (some [])
  load_mails (id ∷ ids) = do
    found ← get_global_mail id
    elim found [
      | none ↦ pure none
      | some mail ↦ do
        rest ← load_mails ids
        elim rest [ none ↦ pure none | some mails ↦ pure (some (mail ∷ mails)) ]
    ]

  unfoldable pub load_from_shared_cache : Time → Action W Error (Option (List GlobalMail))
  unfolding load_mails
  load_from_shared_cache now = do
    ids ← get_active_global_mail_ids now
    elim ids [ [] ↦ pure none | id ∷ rest ↦ load_mails (id ∷ rest) ]

  unfoldable pub refill : List GlobalMail → Action W Error (Unit {0})
  refill [] = pure tt
  refill (mail ∷ mails) = do set_global_mail mail; add_global_mail_to_indexes mail; refill mails

  unfoldable pub wait_for_shared_cache :
      Time → ℕ → WaitEnd → Action W Error (Option (List GlobalMail))
  unfolding load_from_shared_cache
  wait_for_shared_cache now zero timed_out = pure none
  wait_for_shared_cache now zero (context_done e) = raise e
  wait_for_shared_cache now (suc ticks) finish = do
    found ← load_from_shared_cache now
    elim found [ some mails ↦ pure (some mails) | none ↦ wait_for_shared_cache now ticks finish ]

  module _ (repo : MailRepository W) where
    unfoldable pub load_published_from_mysql_and_refill : Time → Action W Error (List GlobalMail)
    unfolding refill
    load_published_from_mysql_and_refill now = do
      mails ← repo.get_published_global_mails now
      refill mails
      pure mails

    -- `release` runs whether or not the load fails, and its own error is dropped.
    unfoldable pub load_locked : Action W Error (Unit {0}) → Time → Action W Error (List GlobalMail)
    unfolding load_published_from_mysql_and_refill
    load_locked release now w =
        let (r, w') = load_published_from_mysql_and_refill now w in (r, (release w').1)

    -- The function that `rebuildSharedCache` runs once for all callers of one version.
    unfoldable pub rebuild_shared_cache :
        Option (CacheRebuildLocker W)
        → ℤ
        → Time
        → Duration
        → Waiting
        → Action W Error (List GlobalMail)
    unfolding load_locked load_published_from_mysql_and_refill wait_for_shared_cache
    rebuild_shared_cache none version now ttl wait = load_published_from_mysql_and_refill now
    rebuild_shared_cache (some locker) version now ttl wait = do
      acquired ← locker.try_acquire_global_mail_rebuild_lock version ttl
      elim acquired [
        | some release ↦ load_locked release now
        | none ↦ do
          found ← wait_for_shared_cache now wait.ticks wait.finish
          elim found [ some mails ↦ pure mails | none ↦ load_published_from_mysql_and_refill now ]
      ]

    module _ (locker : Option (CacheRebuildLocker W)) (ttl : Duration) (wait : Waiting) where
      unfoldable pub load_current : ℤ → Time → Action W Error (List GlobalMail)
      unfolding load_from_shared_cache rebuild_shared_cache
      load_current version now = do
        found ← load_from_shared_cache now
        elim found [
          | some mails ↦ pure mails
          | none ↦ rebuild_shared_cache locker version now ttl wait
        ]

      unfoldable pub refresh : ℤ → Time → CacheAction W (Unit {0})
      unfolding load_current
      refresh version now = do
        mails ← lift (load_current version now)
        store_snapshot (build_snapshot version now mails)

      -- `others` is what other goroutines of the process do to the cache while this one waits for
      -- its mutex. The version test is made before the mutex is taken and again under it.
      module _ (others : CacheAction W (Unit {0})) where
        unfoldable pub refresh_locked : ℤ → Time → CacheAction W (Unit {0})
        unfolding refresh
        refresh_locked remote now = do
          s ← snapshot
          if leb_ℤ remote s.version then pure tt else refresh remote now

        unfoldable pub refresh_if_stale : Time → CacheAction W (Unit {0})
        unfolding refresh_locked
        refresh_if_stale now = do
          remote ← lift cache.get_global_mail_version
          s ← snapshot
          if leb_ℤ remote s.version then pure tt else (λ c. refresh_locked remote now (others c).1)

        unfoldable pub force_refresh : Time → CacheAction W (Unit {0})
        unfolding refresh
        force_refresh now = do
          remote ← lift cache.get_global_mail_version
          λ c. refresh remote now (others c).1
