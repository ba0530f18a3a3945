-- ===== src/Relay/Backoff.antt =====
-- domain/globalmail/outbox.go: the time of the next attempt.
use globalmail.Prelude.{ℕ, suc, ◌+◌, ◌*◌, ◌≤◌, ◌<◌, ◌≡◌, ap, ◌∙◌, arith, ltb, if◌then◌else◌}
use globalmail.Prelude.Int.{pos, ◌+ℤ◌, wrap64, wrap64_id}
use globalmail.Types.{Time}
use globalmail.Relay.{minute, minutes, next_retry_time}

minutes_pos : (n : ℕ) → n ≤ 153722867 → minutes (pos n) ≡ pos (minute * n)
unfolding minutes
minutes_pos n h = ground (arith, wrap64_id (pos (minute * n)))

next_count : (n : ℕ) → n < 150000000 → wrap64 (pos n +ℤ pos 1) ≡ pos (suc n)
unfolding ◌+ℤ◌
next_count n h = ground (arith, wrap64_id (pos (n + 1)))

backoff_lem : (n : ℕ) → n < 150000000 → minutes (wrap64 (pos n +ℤ pos 1)) ≡ pos (minute * suc n)
backoff_lem n h = ap minutes (next_count n h) ∙ minutes_pos (suc n) (omega arith)

-- After up to 150 million attempts the next one is due in as many minutes as there were, counting
-- the one that has just failed, and in 30 minutes at most.
pub next_retry_time_bounds :
    (now : Time) (n : ℕ)
    → n < 150000000
    → next_retry_time now (pos n) ≡ now + minute * (if ltb n 30 then suc n else 30)
unfolding next_retry_time
next_retry_time_bounds now n h = ground (arith, backoff_lem n h)
