-- ===== src/Mysql/Outbox/Lifecycle.antt =====
-- data/mysql/repository.go: the life of an outbox row, who may take it, and how often it is tried.
use globalmail.Prelude.{
  ℕ, zero, suc, ◌+◌, ◌≡◌, ◌↔◌, ltb, ◌≤◌, refl, sym, true, false, Option, none, some, String, Action,
  raise, ok, arith, int_eq, if◌then◌else◌, >>=-eq-ok,
}
use globalmail.Prelude.Int.{ℤ, pos, ◌+ℤ◌, positive_or}
use globalmail.Types.{Time, Error, pending, failed}
use globalmail.Mysql.Table.{Table, IsTable, Puts}
use globalmail.Mysql.Models.{GlobalMailOutboxEventModel}
use globalmail.Mysql.Outbox.{
  is_due, lock_row, published_row, status_after, failed_attempt, mark_failed,
}

-- A row that a worker has locked is due again from when the lock runs out, a row to be retried from
-- its next retry time on; a published row and a row that has failed for good are never due.
is_due-after :
    (worker reason : String) (until now at t : Time) (r : GlobalMailOutboxEventModel)
    → ((is_due t (lock_row worker until now r) ≡ true) ↔ (until ≤ t))
      × ((is_due t (failed_attempt pending at reason now r) ≡ true) ↔ (at ≤ t))
      × (is_due t (published_row at r) ≡ false)
      × (is_due t (failed_attempt failed at reason now r) ≡ false)
unfolding is_due lock_row published_row failed_attempt
is_due-after worker reason until now at t r =
    ((λ h. ground arith, λ h. ground arith), (λ h. ground arith, λ h. ground arith), refl, refl)

-- The row after a number of failed attempts in a row.
abbrev pub attempts :
    ℕ → ℤ → Time → String → Time → GlobalMailOutboxEventModel → GlobalMailOutboxEventModel
attempts zero max_retries next reason now r = r
attempts (suc n) max_retries next reason now r =
    let q = attempts n max_retries next reason now r in
    failed_attempt (status_after max_retries q.retry_count) next reason now q

attempts-count :
    (n k : ℕ) (max_retries : ℤ) (next : Time) (reason : String) (now : Time)
    (r : GlobalMailOutboxEventModel)
    → r.retry_count ≡ pos k
    → (attempts n max_retries next reason now r).retry_count ≡ pos (k + n)
unfolding failed_attempt ◌+ℤ◌
attempts-count zero k max_retries next reason now r h = ground arith
attempts-count (suc n) k max_retries next reason now r h =
    ground (arith, attempts-count n k max_retries next reason now r h)

-- A new event that keeps failing is pending again after each of its first attempts, and has failed
-- for good after as many attempts as the setting allows, 5 if the setting is not positive.
pub attempts-status :
    (n : ℕ) (max_retries : ℤ) (next : Time) (reason : String) (now : Time)
    (r : GlobalMailOutboxEventModel)
    → r.retry_count ≡ pos 0
    → (attempts (suc n) max_retries next reason now r).status
      ≡ (if ltb (suc n) (positive_or max_retries 5) then pending else failed)
unfolding failed_attempt status_after ◌+ℤ◌
attempts-status n max_retries next reason now r h =
    ground (arith, attempts-count n 0 max_retries next reason now r h)

module _ {D : Type 0} (t : Table D ℤ GlobalMailOutboxEventModel) (law : IsTable t)
    (by_id : (m : GlobalMailOutboxEventModel) → t.key m ≡ m.event_id) (now : Time) where
  -- What MarkFailed does with the row that its SELECT found.
  abbrev record_failure :
      (Error → String)
      → Error
      → Error
      → ℤ
      → ℤ
      → Time
      → Option GlobalMailOutboxEventModel
      → Action D Error (Unit {0})
  record_failure reason missing cause id max_retries next found = elim found [
    | none ↦ raise missing
    | some r ↦
        t.update id
          (failed_attempt (status_after max_retries r.retry_count) next (reason cause) now)
  ]

  -- A failed attempt that is recorded counts up the retries of its row by one, gives the row the
  -- status that the count calls for, frees its lock, and leaves all other rows alone.
  mark_failed-rows :
      (reason : Error → String) (missing cause : Error) (id max_retries : ℤ) (next : Time)
      (d d' : D)
      → mark_failed t now reason missing id next cause max_retries d ≡ (ok tt, d')
      → (r : GlobalMailOutboxEventModel) × (t.rows d id ≡ some r)
        × Puts t id
            (some (
              t.kept (
                failed_attempt (status_after max_retries r.retry_count) next (reason cause) now r)))
            d
            d'
  unfolding mark_failed
  mark_failed-rows reason missing cause id max_retries next d d' h =
      let (o, d₁, read, rest) =
        >>=-eq-ok (t.first id) (record_failure reason missing cause id max_retries next) d d' tt
          h in
      with_row o d₁ read rest
    where
      with_row :
          (o : Option GlobalMailOutboxEventModel) (d₁ : D)
          → t.first id d ≡ (ok o, d₁)
          → record_failure reason missing cause id max_retries next o d₁ ≡ (ok tt, d')
          → (r : GlobalMailOutboxEventModel) × (t.rows d id ≡ some r)
            × Puts t id
                (some (
                  t.kept (
                    failed_attempt
                      (status_after max_retries r.retry_count)
                      next
                      (reason cause)
                      now
                      r)))
                d
                d'
      with_row none d₁ read rest = cc
      with_row (some r) d₁ read rest =
          let seen = law.first_ok id d d₁ (some r) read in
          let f = failed_attempt (status_after max_retries r.retry_count) next (reason cause) now in
          let put = law.update_ok id f d₁ d' rest in
          (r, sym seen.0, λ k. ground (arith, put k, seen.0, seen.1 id, seen.1 k))
