-- ===== src/Cache/Build.antt =====
-- domain/globalmail/cache.go: what a snapshot that is built from a list of mails holds, map by map.
use globalmail.Prelude.{
  ◌≡◌, refl, ◌∙◌, ◌⊎◌, inl, inr, Bool, false, ◌&&◌, ◌||◌, some, List, [], ◌∷◌, ◌++◌, map, In,
  contains, contains-append, IsDistinct, ◌==◌, int_eq, arith,
}
use globalmail.Prelude.Int.{ℤ, ◌≤ℤ◌, eqb_ℤ_iff}
use globalmail.Prelude.Dict.{Dict, lookup, insert, lookup-insert, lookup-insert_self}
use mathlib.Core.List.{append_assoc, append-nil}
use globalmail.Types.{Time, GlobalMail}
use globalmail.Cache.Conditions.{compile_conditions, server_ids_from_conditions}
use globalmail.Cache.Snapshot.{
  CacheSnapshot, empty_snapshot, at_server, compiled_at, index_servers, add_mail, add_mails,
  build_snapshot,
}

abbrev pub mail_ids : List GlobalMail → List ℤ
mail_ids = map (λ m. m.id)

-- A mail with the id `j` among the mails names the server.
unfoldable pub names_server : ℤ → ℤ → List GlobalMail → Bool
names_server server j [] = false
names_server server j (m ∷ ms) =
    m.id == j && contains (server_ids_from_conditions m.conditions) server
    || names_server server j ms

pub found_among :
    (id : ℤ) (m : GlobalMail) (s : CacheSnapshot) (mails : List GlobalMail)
    → lookup id (add_mails s mails).mails_by_id ≡ some m
    → In m mails ⊎ (lookup id s.mails_by_id ≡ some m)
unfolding add_mails
found_among id m s [] h = inr h
found_among id m s (x ∷ xs) h = elim (found_among id m (add_mail s x) xs h) [
  | inl there ↦ inl (inr there)
  | inr here ↦ ground (arith, here, lookup-insert id x.id x s.mails_by_id)
]

-- Every mail of the snapshot stands beside its own compiled conditions.
abbrev IsCompiled : CacheSnapshot → Type 0
IsCompiled s =
    (id : ℤ) (m : GlobalMail)
    → lookup id s.mails_by_id ≡ some m
    → (lookup id s.compiled_conditions ≡ some (compile_conditions m.conditions)) × (m.id ≡ id)

add_mail-IsCompiled :
    (s : CacheSnapshot) (x : GlobalMail) → IsCompiled s → IsCompiled (add_mail s x)
unfolding add_mail
add_mail-IsCompiled s x c id m h = ground (
  arith,
  c id m,
  eqb_ℤ_iff x.id id,
  lookup-insert id x.id x s.mails_by_id,
  lookup-insert id x.id (compile_conditions x.conditions) s.compiled_conditions,
)

add_mails-IsCompiled :
    (s : CacheSnapshot) (mails : List GlobalMail) → IsCompiled s → IsCompiled (add_mails s mails)
unfolding add_mails
add_mails-IsCompiled s [] c = c
add_mails-IsCompiled s (x ∷ xs) c =
    add_mails-IsCompiled (add_mail s x) xs (add_mail-IsCompiled s x c)

lookup_other :
    (id : ℤ) (s : CacheSnapshot) (mails : List GlobalMail)
    → contains (mail_ids mails) id ≡ false
    → lookup id (add_mails s mails).mails_by_id ≡ lookup id s.mails_by_id
unfolding add_mails contains
lookup_other id s [] h = refl
lookup_other id s (x ∷ xs) h =
    ground (arith, lookup_other id (add_mail s x) xs, lookup-insert id x.id x s.mails_by_id)

pub mails_found :
    (m : GlobalMail) (s : CacheSnapshot) (mails : List GlobalMail)
    → IsDistinct (mail_ids mails)
    → In m mails
    → lookup m.id (add_mails s mails).mails_by_id ≡ some m
unfolding add_mails
mails_found m s [] d h = absurd (h tt)
mails_found m s (x ∷ xs) d (inl e) =
    rw e (lookup_other x.id (add_mail s x) xs d.0 ∙ lookup-insert_self x.id x s.mails_by_id)
mails_found m s (x ∷ xs) d (inr h) = mails_found m (add_mail s x) xs d.1 h

pub active-add_mails :
    (s : CacheSnapshot) (mails : List GlobalMail)
    → (add_mails s mails).active_mail_ids ≡ s.active_mail_ids ++ mail_ids mails
unfolding add_mails
active-add_mails s [] = simp append-nil
active-add_mails s (x ∷ xs) = simp (active-add_mails (add_mail s x) xs, append_assoc)

index_servers-contains :
    (server j id : ℤ) (servers : List ℤ) (index : Dict ℤ (List ℤ))
    → contains (at_server server (index_servers id servers index)) j
      ≡ (contains (at_server server index) j || id == j && contains servers server)
unfolding index_servers contains
index_servers-contains server j id [] index = ground arith
index_servers-contains server j id (x ∷ xs) index = ground (
  arith,
  eqb_ℤ_iff x server,
  index_servers-contains server j id xs (insert x (at_server x index ++ id ∷ []) index),
  lookup-insert server x (at_server x index ++ id ∷ []) index,
  contains-append (at_server x index) (id ∷ []) j,
)

add_mail-servers :
    (server j : ℤ) (s : CacheSnapshot) (x : GlobalMail)
    → contains (at_server server (add_mail s x).mail_ids_by_server) j ≡ (
        contains (at_server server s.mail_ids_by_server) j
        || x.id == j && contains (server_ids_from_conditions x.conditions) server)
unfolding add_mail
add_mail-servers server j s x =
    index_servers-contains server j x.id (server_ids_from_conditions x.conditions)
      s.mail_ids_by_server

pub servers-add_mails :
    (server j : ℤ) (s : CacheSnapshot) (mails : List GlobalMail)
    → contains (at_server server (add_mails s mails).mail_ids_by_server) j
      ≡ (contains (at_server server s.mail_ids_by_server) j || names_server server j mails)
unfolding add_mails names_server
servers-add_mails server j s [] = ground arith
servers-add_mails server j s (x ∷ xs) =
    ground (arith, servers-add_mails server j (add_mail s x) xs, add_mail-servers server j s x)

-- No mail has an id above the snapshot's largest.
add_mail-max :
    (s : CacheSnapshot) (x : GlobalMail)
    → (s.max_global_mail_id ≤ℤ (add_mail s x).max_global_mail_id)
      × (x.id ≤ℤ (add_mail s x).max_global_mail_id)
unfolding add_mail
add_mail-max s x = ground arith

max-add_mails :
    (s : CacheSnapshot) (mails : List GlobalMail)
    → s.max_global_mail_id ≤ℤ (add_mails s mails).max_global_mail_id
unfolding add_mails
max-add_mails s [] = omega arith
max-add_mails s (x ∷ xs) = omega (arith, add_mail-max s x, max-add_mails (add_mail s x) xs)

In-max-add_mails :
    (m : GlobalMail) (s : CacheSnapshot) (mails : List GlobalMail)
    → In m mails
    → m.id ≤ℤ (add_mails s mails).max_global_mail_id
unfolding add_mails
In-max-add_mails m s [] h = absurd (h tt)
In-max-add_mails m s (x ∷ xs) (inl e) =
    rw e (omega (arith, add_mail-max s x, max-add_mails (add_mail s x) xs))
In-max-add_mails m s (x ∷ xs) (inr h) = In-max-add_mails m (add_mail s x) xs h

-- The version of a snapshot is not touched by its mails.
pub version-add_mails :
    (s : CacheSnapshot) (mails : List GlobalMail) → (add_mails s mails).version ≡ s.version
unfolding add_mails add_mail
version-add_mails s [] = refl
version-add_mails s (x ∷ xs) = version-add_mails (add_mail s x) xs

module _ (version : ℤ) (now : Time) where
  abbrev start : CacheSnapshot
  unfolding empty_snapshot
  start = record empty_snapshot { version = version; last_refresh_time = now }

  start_empty : (id : ℤ) (m : GlobalMail) → lookup id start.mails_by_id ≡ some m → ⊥
  unfolding empty_snapshot lookup
  start_empty id m h = cc

  start-IsCompiled : IsCompiled start
  start-IsCompiled id m h = absurd (start_empty id m h)

module _ (version : ℤ) (now : Time) (mails : List GlobalMail) where
  -- A snapshot that is built from a list of mails carries the given version, and no mail of the
  -- list has an id above its largest id.
  pub build_snapshot_bounds :
      ((build_snapshot version now mails).version ≡ version)
      × ((m : GlobalMail)
          → In m mails
          → m.id ≤ℤ (build_snapshot version now mails).max_global_mail_id)
  unfolding build_snapshot
  build_snapshot_bounds = (version-add_mails _ mails, λ m h. In-max-add_mails m _ mails h)

  -- A mail that the snapshot finds under an id is one of the list, has that id, and stands beside
  -- its own compiled conditions.
  pub build_snapshot_sound :
      (id : ℤ) (m : GlobalMail)
      → lookup id (build_snapshot version now mails).mails_by_id ≡ some m
      → In m mails
        × (m.id ≡ id)
        × (compiled_at id (build_snapshot version now mails).compiled_conditions
            ≡ compile_conditions m.conditions)
  unfolding build_snapshot
  build_snapshot_sound id m h =
      let c = add_mails-IsCompiled _ mails (start-IsCompiled version now) id m h in
      (
        elim (found_among id m _ mails h) [
          | inl a ↦ a
          | inr b ↦ absurd (start_empty version now id m b)
        ],
        c.1,
        ground (arith, c.0),
      )

  pub build_snapshot_complete :
      (m : GlobalMail)
      → IsDistinct (mail_ids mails)
      → In m mails
      → lookup m.id (build_snapshot version now mails).mails_by_id ≡ some m
  unfolding build_snapshot
  build_snapshot_complete m d h = mails_found m _ mails d h

  pub build_snapshot_active : (build_snapshot version now mails).active_mail_ids ≡ mail_ids mails
  unfolding build_snapshot empty_snapshot
  build_snapshot_active = active-add_mails _ mails

  pub build_snapshot_servers :
      (server j : ℤ)
      → contains (at_server server (build_snapshot version now mails).mail_ids_by_server) j
        ≡ names_server server j mails
  unfolding build_snapshot contains empty_snapshot names_server lookup
  build_snapshot_servers server j = servers-add_mails server j _ mails
