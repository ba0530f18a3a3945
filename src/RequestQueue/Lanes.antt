-- ===== src/RequestQueue/Lanes.antt =====
-- app/playersrv/request_queue.go: the goroutines of the lanes, `handle`, and the goroutines that
-- call the dispatcher, move by move; what the dispatcher answers comes in with the move.
use globalmail.Prelude.{
  set_at, and_then, ℕ, zero, suc, ◌+◌, ◌≡◌, ◌++◌, true, false, Option, none, some, List, [], ◌∷◌,
  err, int_eq, if◌then◌else◌, ltb, length, get_elem?,
}
use globalmail.Prelude.Int.{ℤ}
use globalmail.Prelude.Dict.{lookup}
use globalmail.Commands.{CommandRequest}
use globalmail.RequestQueue.{
  ContextError, CommandResult, DispatchRun, CommandRoleLane, LaneStage, CommandRequestQueue,
  context_error, command_queue_closed, dispatching, delivered, exited, idle, stopped, starting,
  acquiring, finishing, running,
}
use globalmail.RequestQueue.Calls.{
  Choice, done, closed, proceed, full, enter, parent_done, time_out, put_job, put_lane,
  release_capacity, call_move,
}

-- A send to `job.result`, which holds one value.
unfoldable pub deliver : ℕ → CommandResult → CommandRequestQueue → Option CommandRequestQueue
deliver i r q = and_then (get_elem? q.jobs i) λ job. elim job.result [
  | some _ ↦ none
  | none ↦ some (put_job i (record job { result = some r }) q)
]

-- `release()` of a run; a receive from an empty `workerSlots` would wait.
unfoldable pub release_worker : ℕ → DispatchRun → CommandRequestQueue → Option CommandRequestQueue
release_worker k run q = if run.slot_released then some q else elim q.slots [
  | zero ↦ none
  | suc n ↦
      some (record q { slots = n; runs = set_at k (record run { slot_released = true }) q.runs })
]

unfoldable pub acquire_worker : CommandRequestQueue → Option CommandRequestQueue
acquire_worker q =
    if ltb q.slots q.workers
    then some (record q {
      slots = q.slots + 1;
      runs = q.runs ++ record { result = none; slot_released = false; stage = dispatching } ∷ [];
    })
    else none

-- The lane hands a result over, and is left with the deferred `releaseCapacity`.
unfoldable pub finish :
    ℤ → CommandRoleLane → ℕ → CommandResult → CommandRequestQueue → Option CommandRequestQueue
unfolding deliver
finish role lane i r q =
    and_then (deliver i r q) λ t. some (put_lane role (record lane { stage = finishing i }) t)

-- The error of the context of a job, once it is done.
unfoldable pub job_error : ℕ → CommandRequestQueue → Option ContextError
job_error i q = and_then (get_elem? q.jobs i) λ job. job.ctx.own

unfoldable pub take_result : ℕ → DispatchRun → CommandRequestQueue → CommandRequestQueue
take_result k run q = record q { runs = set_at k (record run { result = none }) q.runs }

-- The next job of the lane.
unfoldable pub take_job :
    ℤ → CommandRoleLane → List ℕ → CommandRequestQueue → Option CommandRequestQueue
take_job role lane [] q = none
take_job role lane (i ∷ rest) q =
    some (put_lane role (record lane { jobs = rest; stage = starting i }) q)

unfoldable pub lane_move :
    LaneStage → Choice → ℤ → CommandRoleLane → CommandRequestQueue → Option CommandRequestQueue
unfolding take_job finish job_error acquire_worker release_worker take_result release_capacity
lane_move idle closed role lane q =
    if q.closed then some (put_lane role (record lane { stage = stopped }) q) else none
lane_move idle proceed role lane q = take_job role lane lane.jobs q
lane_move (starting i) done role lane q =
    and_then (job_error i q) λ e. finish role lane i (err (context_error e)) q
lane_move (starting i) full role lane q = elim (job_error i q) [
  | some e ↦ none
  | none ↦ some (put_lane role (record lane { stage = acquiring i }) q)
]
lane_move (acquiring i) done role lane q =
    and_then (job_error i q) λ e. finish role lane i (err (context_error e)) q
lane_move (acquiring i) closed role lane q =
    if q.closed then finish role lane i (err command_queue_closed) q else none
lane_move (acquiring i) proceed role lane q =
    and_then (acquire_worker q)
      λ t. some (put_lane role (record lane { stage = running i (length q.runs) }) t)
lane_move (running i k) done role lane q = and_then (job_error i q) λ e.
    and_then (get_elem? q.runs k)
      λ run. and_then (release_worker k run q) (finish role lane i (err (context_error e)))
lane_move (running i k) proceed role lane q =
    and_then (get_elem? q.runs k)
      λ run. and_then run.result λ r. finish role lane i r (take_result k run q)
lane_move (finishing i) proceed role lane q = and_then (get_elem? q.jobs i) λ job.
    and_then (release_capacity i job q) λ t. some (put_lane role (record lane { stage = idle }) t)
lane_move _ _ role lane q = none

-- The dispatcher returns, and later the deferred `release()` runs.
unfoldable pub run_returns :
    ℕ → CommandResult → DispatchRun → CommandRequestQueue → Option CommandRequestQueue
run_returns k r run q = elim run.stage [
  | dispatching ↦
      some (record q { runs = set_at k (record run { result = some r; stage = delivered }) q.runs })
  | _ ↦ none
]

unfoldable pub run_exits : ℕ → DispatchRun → CommandRequestQueue → Option CommandRequestQueue
unfolding release_worker
run_exits k run q = elim run.stage [
  | delivered ↦ and_then (release_worker k run q) λ t.
      some
        (record t { runs = set_at k (record run { slot_released = true; stage = exited }) t.runs })
  | _ ↦ none
]

pub data Move : Type 0 where
  enters : CommandRequest → Move
  cancels : ℕ → ContextError → Move
  times_out : ℕ → Move
  calls : ℕ → Choice → Move
  lanes : ℤ → Choice → Move
  returns : ℕ → CommandResult → Move
  exits : ℕ → Move
  closes : Move

unfoldable pub perform : Move → CommandRequestQueue → Option CommandRequestQueue
unfolding enter parent_done time_out call_move lane_move run_returns run_exits
perform (enters req) q = some (enter req q)
perform (cancels i e) q = and_then (get_elem? q.jobs i) λ job. some (parent_done i e job q)
perform (times_out i) q = and_then (get_elem? q.jobs i) λ job. time_out i job q
perform (calls i c) q = and_then (get_elem? q.jobs i) λ job. call_move job.stage c i job q
perform (lanes role c) q = and_then (lookup role q.lanes) λ lane. lane_move lane.stage c role lane q
perform (returns k r) q = and_then (get_elem? q.runs k) λ run. run_returns k r run q
perform (exits k) q = and_then (get_elem? q.runs k) λ run. run_exits k run q
perform closes q = some (record q { closed = true })

-- A run of the queue: the moves that were made, in their order.
pub data Reach (q : CommandRequestQueue) : CommandRequestQueue → Type 0 where
  here : Reach q q
  next : {t u : CommandRequestQueue} → Reach q t → (m : Move) → perform m t ≡ some u → Reach q u
