-- ===== src/Cache/Partial.antt =====
-- domain/globalmail/cache.go: a refresh from a projection that is not complete.
use globalmail.Prelude.{◌≡◌, some, List, map, ok, In}
use globalmail.Prelude.Int.{ℤ}
use globalmail.Types.{GlobalMail}
use globalmail.Ports.{CacheRepository}

abbrev pub ids_of : List GlobalMail → List ℤ
ids_of mails = map (λ (m : GlobalMail). m.id) mails

module _ {W : Type 0} (cache : CacheRepository W) where
  -- Redis has the mails of the ids, and reading one changes nothing.
  abbrev pub HasMails : List ℤ → Type 0
  HasMails ids =
      (id : ℤ) (v : W)
      → In id ids
      → (mail : GlobalMail) × ((cache.get_global_mail id v ≡ (ok (some mail), v)) × (mail.id ≡ id))
