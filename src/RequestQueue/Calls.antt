-- ===== src/RequestQueue/Calls.antt =====
-- app/playersrv/request_queue.go: Dispatch, move by move. A move is one alternative of a select, and
-- is there only where the select can take it; a send to a full channel and a receive from an empty
-- one are not there.
use globalmail.Prelude.{
  set_at, ℕ, zero, suc, ◌+◌, ◌++◌, Bool, true, false, Option, none, some, [], ◌∷◌, ok, err, int_eq,
  if◌then◌else◌, ltb, length,
}
use globalmail.Prelude.Int.{ℤ}
use globalmail.Prelude.Dict.{lookup, insert}
use globalmail.Commands.{CommandRequest}
use globalmail.RequestQueue.{
  ContextError, CommandResult, CommandJob, CallStage, CommandRoleLane, CommandRequestQueue,
  deadline_exceeded, canceled, command_queue_closed, entering, admitted, placing, waiting, answered,
  idle, command_role_id, command_queue_full_response, context_done_response, result_response,
  has_timeout, or_else,
}

-- Dispatch is called.
unfoldable pub enter : CommandRequest → CommandRequestQueue → CommandRequestQueue
enter req q = record q {
  jobs =
      q.jobs
      ++ record {
        ctx = record { parent = none; own = none };
        req = req;
        result = none;
        sent = false;
        released = false;
        stage = entering;
      }
        ∷ [];
}

abbrev pub put_job : ℕ → CommandJob → CommandRequestQueue → CommandRequestQueue
put_job i job q = record q { jobs = set_at i job q.jobs }

abbrev pub put_lane : ℤ → CommandRoleLane → CommandRequestQueue → CommandRequestQueue
put_lane role lane q = record q { lanes = insert role lane q.lanes }

-- The caller's context is done, and the call's own with it.
unfoldable pub parent_done :
    ℕ → ContextError → CommandJob → CommandRequestQueue → CommandRequestQueue
parent_done i e job q =
    put_job i
      (record job {
        ctx = record { parent = or_else job.ctx.parent e; own = or_else job.ctx.own e };
      })
      q

-- The queue's own timeout has passed.
unfoldable pub time_out : ℕ → CommandJob → CommandRequestQueue → Option CommandRequestQueue
time_out i job q =
    if has_timeout q.request_timeout
    then some (
        put_job i
          (record job {
            ctx = record { parent = job.ctx.parent; own = or_else job.ctx.own deadline_exceeded };
          })
          q)
    else none

-- `job.releaseCapacity()`; a receive from an empty `capacity` would wait.
unfoldable pub release_capacity : ℕ → CommandJob → CommandRequestQueue → Option CommandRequestQueue
release_capacity i job q = if job.released then some q else elim q.tokens [
  | zero ↦ none
  | suc n ↦ some (record q { tokens = n; jobs = set_at i (record job { released = true }) q.jobs })
]

-- The call returns, and cancels its own context.
unfoldable pub answer : ℕ → CommandResult → CommandJob → CommandRequestQueue → CommandRequestQueue
answer i a job q =
    put_job i
      (record job {
        stage = answered a;
        ctx = record {
          parent = job.ctx.parent;
          own = if has_timeout q.request_timeout then or_else job.ctx.own canceled else job.ctx.own;
        };
      })
      q

-- The token is given back and the call returns.
unfoldable pub give_up :
    ℕ → CommandResult → CommandJob → CommandRequestQueue → Option CommandRequestQueue
unfolding release_capacity answer
give_up i a job q = elim (release_capacity i job q) [
  | none ↦ none
  | some t ↦ some (answer i a (record job { released = true }) t)
]

-- What a select without a ready channel answers; `default` is taken only there.
abbrev pub Answer : Type 0
Answer = Option CommandResult

unfoldable pub done_answer : CommandJob → Answer
unfolding context_done_response
done_answer job = elim job.ctx.own [
  | none ↦ none
  | some e ↦ some (context_done_response job.ctx.parent e job.req)
]

unfoldable pub closed_answer : CommandRequestQueue → Answer
closed_answer q = if q.closed then some (err command_queue_closed) else none

unfoldable pub full_answer : Bool → CommandJob → CommandRequestQueue → Answer
unfolding command_queue_full_response
full_answer has_room job q = elim job.ctx.own [
  | some e ↦ none
  | none ↦
      if q.closed
      then none
      else if has_room
      then none
      else some (ok (command_queue_full_response job.req))
]

unfoldable pub admit : ℕ → CommandJob → CommandRequestQueue → Option CommandRequestQueue
admit i job q =
    if ltb q.tokens q.capacity
    then some (record q {
      tokens = q.tokens + 1;
      jobs = set_at i (record job { sent = true; stage = admitted }) q.jobs;
    })
    else none

abbrev pub new_lane : CommandRoleLane
new_lane = record { jobs = []; stage = idle }

unfoldable pub the_lane : ℤ → CommandRequestQueue → CommandRoleLane
the_lane role q = elim (lookup role q.lanes) [ none ↦ new_lane | some lane ↦ lane ]

-- The call of `laneFor`, under the queue's mutex.
unfoldable pub lane_for : ℕ → CommandJob → CommandRequestQueue → CommandRequestQueue
unfolding command_role_id the_lane
lane_for i job q =
    let role = command_role_id job.req in
    put_job i (record job { stage = placing }) (put_lane role (the_lane role q) q)

unfoldable pub lane_has_room : CommandJob → CommandRequestQueue → Bool
unfolding command_role_id the_lane
lane_has_room job q = ltb (length (the_lane (command_role_id job.req) q).jobs) q.role_queue_capacity

unfoldable pub place : ℕ → CommandJob → CommandRequestQueue → Option CommandRequestQueue
unfolding command_role_id the_lane lane_has_room
place i job q =
    let role = command_role_id job.req in
    let lane = the_lane role q in
    if lane_has_room job q
    then some (
        put_job i (record job { stage = waiting })
          (put_lane role (record lane { jobs = lane.jobs ++ i ∷ [] }) q))
    else none

unfoldable pub receive : ℕ → CommandJob → CommandRequestQueue → Option CommandRequestQueue
unfolding answer result_response
receive i job q = elim job.result [
  | none ↦ none
  | some r ↦ some (answer i (result_response r job.req) (record job { result = none }) q)
]

-- The alternatives of a select: the context is done, the queue is closed, the channel is ready, or
-- `default`.
pub data Choice : Type 0 where
  done closed proceed full : Choice

-- An answer before a token was sent, and one after.
abbrev pub leave : ℕ → CommandJob → CommandRequestQueue → Answer → Option CommandRequestQueue
leave i job q none = none
leave i job q (some a) = some (answer i a job q)

abbrev pub withdraw : ℕ → CommandJob → CommandRequestQueue → Answer → Option CommandRequestQueue
withdraw i job q none = none
withdraw i job q (some a) = give_up i a job q

unfoldable pub call_move :
    CallStage → Choice → ℕ → CommandJob → CommandRequestQueue → Option CommandRequestQueue
unfolding give_up answer done_answer closed_answer full_answer admit lane_for lane_has_room place
    receive
call_move entering done i job q = leave i job q (done_answer job)
call_move entering closed i job q = leave i job q (closed_answer q)
call_move entering proceed i job q = admit i job q
call_move entering full i job q = leave i job q (full_answer (ltb q.tokens q.capacity) job q)
call_move admitted proceed i job q = some (lane_for i job q)
call_move placing done i job q = withdraw i job q (done_answer job)
call_move placing closed i job q = withdraw i job q (closed_answer q)
call_move placing proceed i job q = place i job q
call_move placing full i job q = withdraw i job q (full_answer (lane_has_room job q) job q)
call_move waiting done i job q = withdraw i job q (done_answer job)
call_move waiting closed i job q = withdraw i job q (closed_answer q)
call_move waiting proceed i job q = receive i job q
call_move _ _ i job q = none
