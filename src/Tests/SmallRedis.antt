-- ===== src/Tests/SmallRedis.antt =====
-- A Redis that has room for one value, one member and
-- one hash, whatever their keys are, and does not lose them.
use globalmail.Prelude.{
  ◌≡◌, ◌≢◌, ◌↔◌, refl, subst, inl, inr, Bool, true, false, String, List, [], ◌∷◌, Option, none,
  some, Result, ok, err, arith, In, All, int_eq, nat_eq, string_eq, triple_eq, if◌then◌else◌, ◌==◌,
  Bool-cases,
}
use globalmail.Prelude.Int.{ℤ, leb_ℤ, ◌≤ℤ◌}
use globalmail.Types.{Bytes, Error}
use globalmail.Redis.Client.{
  RedisClient, RedisView, IsRedis, IsNoZadd, Write, zadd, hset, sadd, removes, expires,
}

pub record Cell : Type 0 where
  pub value : Option Bytes
  pub member : Option (ℤ × ℤ)
  pub hash : Option (String × Bytes)

abbrev pub write : Write → Cell → Cell
write (zadd k m s) c = record c { member = some (m, s) }
write (hset k h b) c = record c { hash = some (h, b) }
write (sadd k ms) c = c
write (removes k) c = c
write (expires k ttl) c = c

abbrev pub write_all : List Write → Cell → Cell
write_all [] c = c
write_all (x ∷ xs) c = write_all xs (write x c)

abbrev pub from_score : ℤ → Option (ℤ × ℤ) → List (Option ℤ)
from_score min none = []
from_score min (some (m, s)) = if leb_ℤ min s then some m ∷ [] else []

abbrev pub client : RedisClient Cell
client = record {
  get = λ k c. (ok c.value, c);
  set = λ k b ttl c. (ok tt, record c { value = some b });
  set_nx = λ k b ttl c. elim c.value [
    | none ↦ (ok true, record c { value = some b })
    | some _ ↦ (ok false, c)
  ];
  del = λ k c. (ok tt, record c { value = none });
  eval = λ k f c. (ok tt, record c { value = f c.value });
  z_range_by_score = λ k min c. (ok (from_score min c.member), c);
  s_members = λ k c. (ok [], c);
  hm_get = λ k c. (ok c.hash, c);
  exec = λ ws c. (ok tt, write_all ws c);
}

abbrev pub score_of : ℤ → Option (ℤ × ℤ) → Option ℤ
score_of m none = none
score_of m (some (n, s)) = if n == m then some s else none

abbrev pub view : RedisView Cell
view = record { value = λ c k. c.value; score = λ c k m. score_of m c.member; hash = λ c k. c.hash }

from_score-In :
    (min m s : ℤ) (member : Option (ℤ × ℤ))
    → score_of m member ≡ some s
    → In (some m) (from_score min member) ↔ (min ≤ℤ s)
from_score-In min m s none h = absurd (ground (arith, h))
from_score-In min m s (some (n, t)) h = elim (Bool-cases (leb_ℤ min t)) [
  | inl z ↦ rw z (
    λ i. ground (arith, z, h, int_eq.beq_iff n m),
    λ l. inl (ground (arith, h, int_eq.beq_iff n m)),
  )
  | inr z ↦ rw z (λ i. absurd (i tt), λ l. absurd (ground (arith, z, h, l, int_eq.beq_iff n m)))
]

keeps_member : (ws : List Write) (c : Cell) → All IsNoZadd ws → (write_all ws c).member ≡ c.member
keeps_member [] c h = refl
keeps_member (zadd k m s ∷ ws) c h = absurd (ground (arith, h))
keeps_member (sadd k ms ∷ ws) c h = keeps_member ws c h.1
keeps_member (removes k ∷ ws) c h = keeps_member ws c h.1
keeps_member (hset k x b ∷ ws) c h = keeps_member ws (write (hset k x b) c) h.1
keeps_member (expires k ttl ∷ ws) c h = keeps_member ws c h.1

-- A set that is refused has found a value.
refused :
    (o : Option Bytes) (b : Bytes) (w w' : Cell)
    → w.value ≡ o
    → ◌≡◌ {A = Result Error Bool × Cell}
        (elim w.value [ none ↦ (ok true, record w { value = some b }) | some _ ↦ (ok false, w) ])
        (ok false, w')
    → (w.value ≢ none) × (w' ≡ w)
refused none b w w' e h = absurd (ground (arith, e, h))
refused (some x) b w w' e h = (λ n. ground (arith, e, n), ground (arith, e, h))

-- A set does not fail.
unfailing :
    (o : Option Bytes) (b : Bytes) (x : Error) (w w' : Cell)
    → w.value ≡ o
    → ◌≡◌ {A = Result Error Bool × Cell}
        (elim w.value [ none ↦ (ok true, record w { value = some b }) | some _ ↦ (ok false, w) ])
        (err x, w')
    → w'.value ≡ w.value
unfailing none b x w w' e h = absurd (ground (arith, e, h))
unfailing (some y) b x w w' e h = absurd (ground (arith, e, h))

pub client-IsRedis : IsRedis client view
client-IsRedis = record {
  get_ok = λ k v w w' h. ground (arith, h);
  set_ok = λ k b ttl w w' h. ground (arith, h);
  set_nx_true = λ k b ttl w w' h. ground (arith, h);
  set_nx_false = λ k b ttl w w' h. refused w.value b w w' refl h;
  set_nx_failed = λ k b ttl x w w' h. inl (unfailing w.value b x w w' refl h);
  eval_failed = λ k f x w w' h. absurd (ground (arith, h));
  eval_ok = λ k f w w' h. ground (arith, h);
  z_range_ok = λ k min m s ms w w' h e.
      subst (λ x. In (some m) x ↔ (min ≤ℤ s)) (ground (arith, h))
        (from_score-In min m s w.member e);
  zadd_ok = λ k m s ws w w' h n. ground (arith, h, keeps_member ws (write (zadd k m s) w) n);
  hm_get_ok = λ k v w w' h. ground (arith, h);
  hset_ok = λ k x b ttl w w' h. ground (arith, h);
}
