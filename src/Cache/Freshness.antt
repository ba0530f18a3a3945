-- ===== src/Cache/Freshness.antt =====
-- domain/globalmail/cache.go: the version of the local snapshot against the version that Redis announces.
use globalmail.Prelude.{◌≡◌, sym, ◌∙◌, inl, inr, List, Option, Result, ok, err, arith, Bool-cases}
use globalmail.Prelude.Int.{ℤ, ◌≤ℤ◌, ◌<ℤ◌, leb_ℤ}
use globalmail.Types.{Time, Duration, Error, GlobalMail}
use globalmail.Ports.{MailRepository, CacheRepository, CacheRebuildLocker}
use globalmail.Cache.Snapshot.{CacheSnapshot, build_snapshot}
use globalmail.Cache.Build.{build_snapshot_bounds}
use globalmail.Cache.Refresh.{
  Waiting, CacheAction, load_current, refresh, refresh_locked, refresh_if_stale, force_refresh,
}

-- What is left of a refresh once the mails are there, or have failed to come.
abbrev finish_refresh :
    {W : Type 0}
    → ℤ
    → Time
    → CacheSnapshot
    → Result Error (List GlobalMail) × W
    → Result Error (Unit {0}) × (CacheSnapshot × W)
finish_refresh version now s (ok mails, w) = (ok tt, (build_snapshot version now mails, w))
finish_refresh version now s (err e, w) = (err e, (s, w))

finish-version :
    {W : Type 0} (version : ℤ) (now : Time) (s s' : CacheSnapshot) (w' : W)
    (p : Result Error (List GlobalMail) × W)
    → finish_refresh version now s p ≡ (ok tt, (s', w'))
    → s'.version ≡ version
finish-version version now s s' w' (ok mails, w) h =
    ground (arith, (build_snapshot_bounds version now mails).0)
finish-version version now s s' w' (err e, w) h = cc

abbrev pure_unit : {W : Type 0} → CacheAction W (Unit {0})
pure_unit c = (ok tt, c)

module _ {W : Type 0} (cache : CacheRepository W) (repo : MailRepository W)
    (locker : Option (CacheRebuildLocker W)) (ttl : Duration) (wait : Waiting) where
  refresh_lem :
      (version : ℤ) (now : Time) (s : CacheSnapshot) (w : W)
      → refresh cache repo locker ttl wait version now (s, w)
        ≡ finish_refresh version now s (load_current cache repo locker ttl wait version now w)
  unfolding refresh
  refresh_lem version now s w = ground arith

  -- A refresh that succeeds leaves a snapshot of exactly the version it was asked for.
  refresh-version :
      (version : ℤ) (now : Time) (s s' : CacheSnapshot) (w w' : W)
      → refresh cache repo locker ttl wait version now (s, w) ≡ (ok tt, (s', w'))
      → s'.version ≡ version
  unfolding refresh
  refresh-version version now s s' w w' h =
      finish-version version now s s' w' (load_current cache repo locker ttl wait version now w)
        (sym (refresh_lem version now s w) ∙ h)

  module _ (others : CacheAction W (Unit {0})) where
    locked-fresh :
        (remote : ℤ) (now : Time) (s s' : CacheSnapshot) (w w' : W)
        → refresh_locked cache repo locker ttl wait others remote now (s, w) ≡ (ok tt, (s', w'))
        → remote ≤ℤ s'.version
    unfolding refresh_locked
    locked-fresh remote now s s' w w' h = elim (Bool-cases (leb_ℤ remote s.version)) [
      | inl fresh ↦ ground arith
      | inr stale ↦ ground (arith, refresh-version remote now s s' w w')
    ]

    -- When the call succeeds, the snapshot is at least as new as the version that Redis announced
    -- at its start, whatever other goroutines did to the cache in between.
    pub refresh_if_stale-fresh :
        (now : Time) (remote : ℤ) (s s' : CacheSnapshot) (w w₁ w' : W)
        → cache.get_global_mail_version w ≡ (ok remote, w₁)
        → refresh_if_stale cache repo locker ttl wait others now (s, w) ≡ (ok tt, (s', w'))
        → remote ≤ℤ s'.version
    unfolding refresh_if_stale
    refresh_if_stale-fresh now remote s s' w w₁ w' read h =
        elim (Bool-cases (leb_ℤ remote s.version)) [
          | inl fresh ↦ ground arith
          | inr stale ↦
              let c = (others (s, w₁)).1 in locked-fresh remote now c.0 s' c.1 w' (ground arith)
        ]

  -- Alone, a call that fails leaves the snapshot as it was: the players go on reading the old one.
  refresh_if_stale-keeps :
      (now : Time) (e : Error) (s s' : CacheSnapshot) (w w' : W)
      → refresh_if_stale cache repo locker ttl wait pure_unit now (s, w) ≡ (err e, (s', w'))
      → s' ≡ s
  unfolding refresh_if_stale refresh_locked refresh
  refresh_if_stale-keeps now e s s' w w' h = ground arith

  -- The flaw of `ForceRefresh`: it reads the version before it waits for the mutex. If meanwhile
  -- another goroutine has stored a newer snapshot, the call puts an older version number back.
  pub force_refresh-lowers :
      (others : CacheAction W (Unit {0})) (now : Time) (remote : ℤ) (s s' : CacheSnapshot)
      (w w₁ w' : W)
      → cache.get_global_mail_version w ≡ (ok remote, w₁)
      → remote <ℤ (others (s, w₁)).1.0.version
      → force_refresh cache repo locker ttl wait others now (s, w) ≡ (ok tt, (s', w'))
      → s'.version <ℤ (others (s, w₁)).1.0.version
  unfolding force_refresh
  force_refresh-lowers others now remote s s' w w₁ w' read newer h =
      let c = (others (s, w₁)).1 in ground (arith, refresh-version remote now c.0 s' c.1 w')
