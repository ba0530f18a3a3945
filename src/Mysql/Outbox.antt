-- ===== src/Mysql/Outbox.antt =====
-- data/mysql/repository.go: FetchPending, MarkPublished and MarkFailed on the outbox table.
use globalmail.Prelude.{
  ℕ, ◌≡◌, Bool, true, false, ◌&&◌, ◌||◌, Option, none, some, String, List, [], ◌∷◌, map, Action,
  pure, raise, ◌>>=◌, ◌>>◌, ok, err, leb, if◌then◌else◌, ◌==◌, string_eq, int_eq,
}
use globalmail.Prelude.Int.{ℤ, pos, ◌+ℤ◌, leb_ℤ, positive_or}
use globalmail.Types.{
  Time, Error, OutboxEvent, OutboxStatus, pending, processing, published, failed, external,
}
use globalmail.Mysql.Table.{Table}
use globalmail.Mysql.Models.{GlobalMailOutboxEventModel}
use globalmail.Mysql.Mapper.{to_outbox_event}
pub mod Lifecycle

-- next_retry_time IS NULL OR next_retry_time <= now
abbrev pub null_or_past : Option Time → Time → Bool
null_or_past none now = true
null_or_past (some t) now = leb t now

-- locked_until <= now
abbrev pub past : Option Time → Time → Bool
past none now = false
past (some t) now = leb t now

-- The condition of FetchPending.
unfoldable pub is_due : Time → GlobalMailOutboxEventModel → Bool
is_due now r = elim r.status [
  | pending ↦ null_or_past r.next_retry_time now
  | processing ↦ past r.locked_until now
  | published ↦ false
  | failed ↦ false
]

-- The assignments of FetchPending.
unfoldable pub lock_row :
    String → Time → Time → GlobalMailOutboxEventModel → GlobalMailOutboxEventModel
lock_row worker until now r = record r {
  status = processing;
  locked_by = worker;
  locked_until = some until;
  next_retry_time = none;
  update_time = now;
}

-- An event as FetchPending returns it.
unfoldable pub locked_event : String → Time → GlobalMailOutboxEventModel → OutboxEvent
locked_event worker until r = record (to_outbox_event r) {
  status = processing;
  locked_by = worker;
  locked_until = some until;
}

unfoldable pub published_row : Time → GlobalMailOutboxEventModel → GlobalMailOutboxEventModel
published_row at r = record r {
  status = published;
  locked_by = "";
  locked_until = none;
  failure_reason = "";
  published_time = some at;
  update_time = at;
}

-- The status that MarkFailed gives an event of that many failed attempts before this one.
unfoldable pub status_after : ℤ → ℤ → OutboxStatus
status_after max_retries count =
    if leb_ℤ (pos (positive_or max_retries 5)) (count +ℤ pos 1) then failed else pending

abbrev pub retry_at : OutboxStatus → Time → Option Time
retry_at pending next = some next
retry_at st next = none

-- The assignments of MarkFailed.
unfoldable pub failed_attempt :
    OutboxStatus → Time → String → Time → GlobalMailOutboxEventModel → GlobalMailOutboxEventModel
failed_attempt st next reason now r = record r {
  status = st;
  retry_count = r.retry_count +ℤ pos 1;
  locked_by = "";
  locked_until = none;
  failure_reason = reason;
  update_time = now;
  next_retry_time = retry_at st next;
}

abbrev pub or_worker : String → String
or_worker w = if w == "" then "outbox-relay" else w

-- `now` is the repository's reading of its clock, `reason` the cut and trimmed text of an error, and
-- `missing` the error of a SELECT that finds no row.
module _ {D : Type 0} (t : Table D ℤ GlobalMailOutboxEventModel) (now : Time) where
  -- The body of the transaction of FetchPending.
  unfoldable pub lock_due : ℤ → String → Time → Action D Error (List OutboxEvent)
  unfolding is_due lock_row locked_event
  lock_due limit worker until = do
    models ← t.select (is_due now) (some (positive_or limit 100))
    elim models [
      | [] ↦ pure []
      | m ∷ ms ↦
          t.update_in (map (λ r. r.event_id) (m ∷ ms)) (lock_row (or_worker worker) until now)
          >> pure (map (locked_event (or_worker worker) until) (m ∷ ms))
    ]

  unfoldable pub fetch_pending :
      (Action D Error (List OutboxEvent) → Action D Error (List OutboxEvent))
      → ℤ
      → String
      → Time
      → Action D Error (List OutboxEvent)
  unfolding lock_due
  fetch_pending transaction limit worker until = transaction (lock_due limit worker until)

  unfoldable pub mark_published : ℤ → Time → Action D Error (Unit {0})
  unfolding published_row
  mark_published id at = t.update id (published_row at)

  unfoldable pub mark_failed :
      (Error → String) → Error → ℤ → Time → Error → ℤ → Action D Error (Unit {0})
  unfolding status_after failed_attempt
  mark_failed reason missing id next cause max_retries = do
    found ← t.first id
    elim found [
      | none ↦ raise missing
      | some r ↦
          t.update id
            (failed_attempt (status_after max_retries r.retry_count) next (reason cause) now)
    ]
