-- ===== src/RequestQueue.antt =====
-- app/playersrv/request_queue.go: the state of the queue. A channel without values is the number of
-- its tokens, `lane.jobs` is a list, and a job is named by the number of the call of Dispatch that
-- made it. A context is the error of the caller's context and the error of the call's own.
use globalmail.Prelude.{
  ℕ, zero, suc, ◌-◌, ◌+◌, Bool, true, false, Option, none, some, List, [], Result, ok, err, ◌==◌,
  int_eq, if◌then◌else◌, ltb,
}
use globalmail.Prelude.Int.{ℤ, pos, negsuc, positive_or}
use globalmail.Prelude.Dict.{Dict}
use globalmail.Types.{Error}
use globalmail.Commands.{CommandRequest, CommandResponse}
pub mod Calls
pub mod Lanes
pub mod Counts
pub mod Releases
pub mod Runs
pub mod Progress
pub mod Overrun
pub mod GoesOn
pub mod LanesBounded
pub mod CallsBounded
pub mod Bounded
pub mod Attended
pub mod LanesAttended
pub mod Waiting
pub mod Serial

pub data ContextError : Type 0 where
  canceled deadline_exceeded : ContextError

-- `dispatch_error` is an error of the dispatcher that is not a deadline.
pub data CommandError : Type 0 where
  context_error : ContextError → CommandError
  command_queue_closed : CommandError
  dispatch_error : Error → CommandError

abbrev pub CommandResult : Type 0
CommandResult = Result CommandError CommandResponse

pub record Context : Type 0 where
  pub parent : Option ContextError
  pub own : Option ContextError

-- Where the call of Dispatch stands: before each of its three selects, or at its end.
pub data CallStage : Type 0 where
  entering admitted placing waiting : CallStage
  answered : CommandResult → CallStage

-- `sent` says that the job's token went into `capacity`, `released` that `releaseOnce` has run.
pub record CommandJob : Type 0 where
  pub ctx : Context
  pub req : CommandRequest
  pub result : Option CommandResult
  pub sent : Bool
  pub released : Bool
  pub stage : CallStage

-- The goroutine that calls the dispatcher, with the `sync.Once` of its worker slot.
pub data RunStage : Type 0 where
  dispatching delivered exited : RunStage

pub record DispatchRun : Type 0 where
  pub result : Option CommandResult
  pub slot_released : Bool
  pub stage : RunStage

-- Where the goroutine of a lane stands, with the job it handles and the run it waits for.
pub data LaneStage : Type 0 where
  idle stopped : LaneStage
  starting acquiring finishing : ℕ → LaneStage
  running : ℕ → ℕ → LaneStage

pub record CommandRoleLane : Type 0 where
  pub jobs : List ℕ
  pub stage : LaneStage

pub record CommandQueueOptions : Type 0 where
  pub workers : ℤ
  pub capacity : ℤ
  pub role_queue_capacity : ℤ
  pub request_timeout : ℤ

pub record CommandRequestQueue : Type 0 where
  pub capacity : ℕ
  pub workers : ℕ
  pub role_queue_capacity : ℕ
  pub request_timeout : ℤ
  pub closed : Bool
  pub tokens : ℕ
  pub slots : ℕ
  pub jobs : List CommandJob
  pub runs : List DispatchRun
  pub lanes : Dict ℤ CommandRoleLane

unfoldable pub new_command_request_queue : CommandQueueOptions → CommandRequestQueue
new_command_request_queue opts = record {
  capacity = positive_or opts.capacity 1024;
  workers = positive_or opts.workers 4;
  role_queue_capacity = positive_or opts.role_queue_capacity 32;
  request_timeout = opts.request_timeout;
  closed = false;
  tokens = 0;
  slots = 0;
  jobs = [];
  runs = [];
  lanes = [];
}

unfoldable pub command_role_id : CommandRequest → ℤ
command_role_id req = if req.role_id == pos 0 then req.uid else req.role_id

unfoldable pub command_queue_full_response : CommandRequest → CommandResponse
command_queue_full_response req = record {
  command_id = req.command_id;
  seq = req.seq;
  code = pos 429;
  message = "command queue full";
  payload = none;
}

unfoldable pub command_timeout_response : CommandRequest → CommandResponse
command_timeout_response req = record {
  command_id = req.command_id;
  seq = req.seq;
  code = pos 504;
  message = "command request timeout";
  payload = none;
}

-- What is answered when the call's context is done with the error `own`.
unfoldable pub context_done_response :
    Option ContextError → ContextError → CommandRequest → CommandResult
unfolding command_timeout_response
context_done_response none deadline_exceeded req = ok (command_timeout_response req)
context_done_response _ own req = err (context_error own)

-- What is answered when the result has come.
unfoldable pub result_response : CommandResult → CommandRequest → CommandResult
unfolding command_timeout_response
result_response (err (context_error deadline_exceeded)) req = ok (command_timeout_response req)
result_response r req = r

-- The context of the call is cancelled at its end if it has a timeout of its own.
abbrev pub has_timeout : ℤ → Bool
has_timeout (pos zero) = false
has_timeout (pos (suc n)) = true
has_timeout (negsuc n) = false

abbrev pub or_else : {A : Type 0} → Option A → A → Option A
or_else none a = some a
or_else (some b) a = some b
