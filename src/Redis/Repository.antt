-- ===== src/Redis/Repository.antt =====
-- data/redis/repository.go: the calls of the mail server. JSON and protobuf are a codec, `clock` is
-- what time.Now answers; the two calls of the version stand in Redis/Version.antt.
use globalmail.Prelude.{
  ◌/◌, ◌++◌, not, ◌&&◌, Option, none, some, List, [], ◌∷◌, map, Action, pure, or_raise, ◌>>=◌, ◌==◌,
  string_eq, int_eq, if◌then◌else◌,
}
use globalmail.Prelude.Int.{ℤ, sub_ℕ}
use globalmail.Json.{decode_int, decode_int_list}
use globalmail.Types.{
  Time, Bytes, Error, decode_error, encode_error, Condition, GlobalMail, UserProfile,
}
use globalmail.Commands.{CommandResponse}
use globalmail.Redis.Client.{
  RedisClient, Write, zadd, sadd, removes, active_index, global_mail, by_server, user_profile,
}
use globalmail.Redis.Lifetimes.{mail_ttl, default_ttl}

pub record RedisCodec : Type 0 where
  pub encode_mail : GlobalMail → Option Bytes
  pub decode_mail : Bytes → Option GlobalMail
  pub encode_profile : UserProfile → Option Bytes
  pub decode_profile : Bytes → Option UserProfile
  pub encode_response : CommandResponse → Option Bytes
  pub decode_response : Bytes → Option CommandResponse
  pub print_nano : Time → Bytes

-- `t.Unix()`, with the seconds from Go's zero time to 1970.
unfoldable pub unix : Time → ℤ
unix t = sub_ℕ (t / 1000000000) 62135596800

-- The loop of `serverIDsFromConditions`; `ids` is what it has appended so far.
unfoldable pub indexed_server_ids : List ℤ → List Condition → List ℤ
indexed_server_ids ids [] = ids
indexed_server_ids ids (c ∷ cs) =
    if not (c.type == "server") && not (c.type == "server_id")
    then indexed_server_ids ids cs
    else indexed_server_ids
        (elim (decode_int_list c.value) [
          | some more ↦ ids ++ more
          | none ↦ elim (decode_int c.value) [ some id ↦ ids ++ id ∷ [] | none ↦ ids ]
        ])
        cs

-- A value that is there is decoded.
abbrev pub decoded : {W A : Type 0} → (Bytes → Option A) → Option Bytes → Action W Error (Option A)
decoded decode none = pure none
decoded decode (some payload) = do value ← or_raise (decode payload) decode_error; pure (some value)

-- Every member is scanned as a number.
unfoldable pub scan_ids : List (Option ℤ) → Option (List ℤ)
scan_ids [] = some []
scan_ids (none ∷ members) = none
scan_ids (some id ∷ members) = elim (scan_ids members) [ none ↦ none | some ids ↦ some (id ∷ ids) ]

module _ {W : Type 0} (client : RedisClient W) (codec : RedisCodec) (clock : W → Time) where
  unfoldable pub get_global_mail : ℤ → Action W Error (Option GlobalMail)
  get_global_mail mail_id = do
    payload ← client.get (global_mail mail_id)
    decoded codec.decode_mail payload

  unfoldable pub set_global_mail : GlobalMail → Action W Error (Unit {0})
  unfolding mail_ttl
  set_global_mail mail = do
    payload ← or_raise (codec.encode_mail mail) encode_error
    λ w. client.set (global_mail mail.id) payload (mail_ttl mail.expire_time (clock w)) w

  unfoldable pub get_active_global_mail_ids : Time → Action W Error (List ℤ)
  unfolding unix scan_ids
  get_active_global_mail_ids now = do
    members ← client.z_range_by_score active_index (unix now)
    or_raise (scan_ids members) decode_error

  unfoldable pub index_writes : GlobalMail → List Write
  unfolding unix indexed_server_ids
  index_writes mail =
      zadd active_index mail.id (unix mail.expire_time)
      ∷ map (λ server_id. sadd (by_server server_id) (mail.id ∷ []))
          (indexed_server_ids [] mail.conditions)

  unfoldable pub add_global_mail_to_indexes : GlobalMail → Action W Error (Unit {0})
  unfolding index_writes
  add_global_mail_to_indexes mail = client.exec (index_writes mail)

  unfoldable pub get_global_mails_by_server : ℤ → Action W Error (List ℤ)
  unfolding scan_ids
  get_global_mails_by_server server_id = do
    members ← client.s_members (by_server server_id)
    or_raise (scan_ids members) decode_error

  unfoldable pub set_global_mails_by_server : ℤ → List ℤ → Action W Error (Unit {0})
  set_global_mails_by_server server_id [] = client.exec (removes (by_server server_id) ∷ [])
  set_global_mails_by_server server_id (id ∷ ids) =
      client.exec (removes (by_server server_id) ∷ sadd (by_server server_id) (id ∷ ids) ∷ [])

  unfoldable pub get_user_profile : ℤ → Action W Error (Option UserProfile)
  get_user_profile role_id = do
    payload ← client.get (user_profile role_id)
    decoded codec.decode_profile payload

  unfoldable pub set_user_profile : UserProfile → ℤ → Action W Error (Unit {0})
  unfolding default_ttl
  set_user_profile profile ttl = do
    payload ← or_raise (codec.encode_profile profile) encode_error
    client.set (user_profile profile.role_id) payload (default_ttl ttl 300)
