-- ===== src/Redis/Client.antt =====
-- The commands that data/redis calls on its client, with what Redis documents of them. `view` says
-- what is stored under a key now, and a key whose time to live has run out is not there. A key is
-- named by what is printed into it, since the keys differ before their first colon; a member is the
-- number that it prints, `none` if it prints none.
use globalmail.Prelude.{
  ◌≡◌, ◌⊎◌, err, ◌≢◌, ◌↔◌, Bool, true, false, String, Option, none, some, List, [], ◌∷◌, ok, Action,
  In, All,
}
use globalmail.Prelude.Int.{ℤ, ◌≤ℤ◌}
use globalmail.Types.{Bytes, Error}

pub data RedisKey : Type 0 where
  active_index : RedisKey
  global_mail by_server user_profile rebuild_lock gate_conn srv_router : ℤ → RedisKey
  command_idempotency : ℤ × ℤ × ℤ → RedisKey
  login_token : String → RedisKey

-- The writes of a transaction.
pub data Write : Type 0 where
  zadd : RedisKey → ℤ → ℤ → Write
  sadd : RedisKey → List ℤ → Write
  removes : RedisKey → Write
  hset : RedisKey → String → Bytes → Write
  expires : RedisKey → ℤ → Write

-- `eval` runs a script over the value of one key as one step.
pub record RedisClient (W : Type 0) : Type 0 where
  pub get : RedisKey → Action W Error (Option Bytes)
  pub set : RedisKey → Bytes → ℤ → Action W Error (Unit {0})
  pub set_nx : RedisKey → Bytes → ℤ → Action W Error Bool
  pub del : RedisKey → Action W Error (Unit {0})
  pub eval : RedisKey → (Option Bytes → Option Bytes) → Action W Error (Unit {0})
  pub z_range_by_score : RedisKey → ℤ → Action W Error (List (Option ℤ))
  pub s_members : RedisKey → Action W Error (List (Option ℤ))
  pub hm_get : RedisKey → Action W Error (Option (String × Bytes))
  pub exec : List Write → Action W Error (Unit {0})

pub record RedisView (W : Type 0) : Type 0 where
  pub value : W → RedisKey → Option Bytes
  pub score : W → RedisKey → ℤ → Option ℤ
  pub hash : W → RedisKey → Option (String × Bytes)

abbrev pub is_zadd : Write → Bool
is_zadd (zadd k m s) = true
is_zadd w = false

abbrev pub IsNoZadd : Write → Type 0
IsNoZadd write = is_zadd write ≡ false

pub record IsRedis {W : Type 0} (client : RedisClient W) (view : RedisView W) : Type 0 where
  pub get_ok :
      (k : RedisKey) (v : Option Bytes) (w w' : W)
      → client.get k w ≡ (ok v, w')
      → (v ≡ view.value w k) × (w' ≡ w)
  pub set_ok :
      (k : RedisKey) (b : Bytes) (ttl : ℤ) (w w' : W)
      → client.set k b ttl w ≡ (ok tt, w')
      → view.value w' k ≡ some b
  -- SET NX answers whether the key was not there and has been set.
  pub set_nx_true :
      (k : RedisKey) (b : Bytes) (ttl : ℤ) (w w' : W)
      → client.set_nx k b ttl w ≡ (ok true, w')
      → (view.value w k ≡ none) × (view.value w' k ≡ some b)
  pub set_nx_false :
      (k : RedisKey) (b : Bytes) (ttl : ℤ) (w w' : W)
      → client.set_nx k b ttl w ≡ (ok false, w')
      → (view.value w k ≢ none) × (w' ≡ w)
  -- A command that answers an error has been done, or has not.
  pub set_nx_failed :
      (k : RedisKey) (b : Bytes) (ttl : ℤ) (x : Error) (w w' : W)
      → client.set_nx k b ttl w ≡ (err x, w')
      → (view.value w' k ≡ view.value w k) ⊎ ((view.value w k ≡ none) × (view.value w' k ≡ some b))
  pub eval_failed :
      (k : RedisKey) (f : Option Bytes → Option Bytes) (x : Error) (w w' : W)
      → client.eval k f w ≡ (err x, w')
      → (view.value w' k ≡ view.value w k) ⊎ (view.value w' k ≡ f (view.value w k))
  pub eval_ok :
      (k : RedisKey) (f : Option Bytes → Option Bytes) (w w' : W)
      → client.eval k f w ≡ (ok tt, w')
      → view.value w' k ≡ f (view.value w k)
  -- The members of a score of at least `min`.
  pub z_range_ok :
      (k : RedisKey) (min m s : ℤ) (ms : List (Option ℤ)) (w w' : W)
      → client.z_range_by_score k min w ≡ (ok ms, w')
      → view.score w k m ≡ some s
      → In (some m) ms ↔ (min ≤ℤ s)
  pub zadd_ok :
      (k : RedisKey) (m s : ℤ) (ws : List Write) (w w' : W)
      → client.exec (zadd k m s ∷ ws) w ≡ (ok tt, w')
      → All IsNoZadd ws
      → view.score w' k m ≡ some s
  pub hm_get_ok :
      (k : RedisKey) (v : Option (String × Bytes)) (w w' : W)
      → client.hm_get k w ≡ (ok v, w')
      → (v ≡ view.hash w k) × (w' ≡ w)
  pub hset_ok :
      (k : RedisKey) (h : String) (b : Bytes) (ttl : ℤ) (w w' : W)
      → client.exec (hset k h b ∷ expires k ttl ∷ []) w ≡ (ok tt, w')
      → view.hash w' k ≡ some (h, b)
