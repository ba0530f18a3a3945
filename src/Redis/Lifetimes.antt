-- ===== src/Redis/Lifetimes.antt =====
-- data/redis: how long the keys live. `time.Until` is cut off at the ends of an int64; what is added
-- to it wraps.
use globalmail.Prelude.{
  ℕ, ◌+◌, ◌*◌, ◌≤◌, ◌<◌, ◌≡◌, sym, subst, arith, if◌then◌else◌, ltb, ◌⊎◌, inl, inr, Bool-cases,
}
use globalmail.Prelude.Int.{ℤ, pos, negsuc, sub_ℕ, InRange, ◌+ℤ◌, ◌<ℤ◌, leb_ℤ, wrap64, wrap64_id}
use globalmail.Types.{Time}

abbrev pub minute : ℕ
minute = 60000000000

abbrev pub int64_max : ℕ
int64_max = 9223372036854775807

-- `t.Sub(u)` of two times.
unfoldable pub saturate : ℤ → ℤ
saturate (pos n) = if ltb int64_max n then pos int64_max else pos n
saturate (negsuc n) = if ltb int64_max n then negsuc int64_max else negsuc n

unfoldable pub until : Time → Time → ℤ
unfolding saturate
until t now = saturate (sub_ℕ t now)

abbrev pub positive : ℤ → ℤ → ℤ
positive ttl other = if leb_ℤ ttl (pos 0) then other else ttl

-- Of the mail in SetGlobalMail.
unfoldable pub mail_ttl : Time → Time → ℤ
unfolding until
mail_ttl expire_time now =
    wrap64 (positive (until expire_time now) (pos (60 * minute)) +ℤ pos (10 * minute))

-- Of the tokens, connections and routes.
unfoldable pub routing_ttl : ℤ → Time → Time → ℤ
unfolding until
routing_ttl ttl expire_at now = positive (positive ttl (until expire_at now)) (pos minute)

-- Of the profiles, the rebuild lock and the command records, with their defaults in seconds.
unfoldable pub default_ttl : ℤ → ℕ → ℤ
default_ttl ttl seconds = positive ttl (pos (seconds * 1000000000))

-- A route, a connection and a login token never stay for good: their time to live is positive
-- whatever was asked for.
routing_ttl-pos : (ttl : ℤ) (expire_at now : Time) → pos 0 <ℤ routing_ttl ttl expire_at now
unfolding routing_ttl
routing_ttl-pos ttl expire_at now = ground arith

-- A mail that ends within 292 years, less ten minutes: if it has not ended, Redis keeps it until ten
-- minutes after its end, and else for an hour and ten minutes from now.
pub mail_ttl_bounds :
    (expire_time now : Time)
    → expire_time + 10 * minute ≤ now + int64_max
    → ((now < expire_time)
        × ((pos now +ℤ mail_ttl expire_time now) ≡ pos (expire_time + 10 * minute)))
      ⊎ ((expire_time ≤ now) × (mail_ttl expire_time now ≡ pos (70 * minute)))
unfolding mail_ttl until saturate ◌+ℤ◌
mail_ttl_bounds expire_time now h =
    let x : ℤ = positive (until expire_time now) (pos (60 * minute)) +ℤ pos (10 * minute) in
    let r : InRange 9223372036854775808 x = ground arith in
    elim (Bool-cases (ltb now expire_time)) [
      | inl z ↦ inl (ground (arith, z), ground (arith, wrap64_id x r, z))
      | inr z ↦ inr (ground (arith, z), ground (arith, wrap64_id x r, z))
    ]

-- A mail that ends more than 292 years from now: the time to live wraps below zero.
mail_ttl_wraps :
    (expire_time now : Time) → now + int64_max < expire_time → mail_ttl expire_time now <ℤ pos 0
unfolding mail_ttl until saturate wrap64 ◌+ℤ◌
mail_ttl_wraps expire_time now h =
    let e : positive (until expire_time now) (pos (60 * minute)) ≡ pos int64_max = ground arith in
    subst (λ x. wrap64 (x +ℤ pos (10 * minute)) <ℤ pos 0) (sym e) wrapped
  where
    wrapped : wrap64 (pos int64_max +ℤ pos (10 * minute)) <ℤ pos 0
    wrapped = ground arith
