-- ===== src/Tests/QueueTests.antt =====
-- The request queue, its settings and the group of rebuilds at concrete inputs.
use globalmail.Prelude.{
  ◌≢◌, ◌++◌, ℕ, ◌≡◌, refl, inr, List, [], ◌∷◌, Option, none, some, and_then, and_then-some, arith,
  subst, int_eq, string_eq, true, false,
}
use globalmail.Prelude.Int.{ℤ, pos, positive_or}
use globalmail.Prelude.Dict.{lookup, insert}
use globalmail.Commands.{CommandRequest}
use globalmail.RequestQueue.{
  CommandQueueOptions, CommandRequestQueue, CommandJob, DispatchRun, deadline_exceeded,
  new_command_request_queue, command_role_id, running, waiting, dispatching,
}
use globalmail.RequestQueue.Calls.{
  Choice, proceed, full, enter, time_out, admit, lane_for, lane_has_room, place, the_lane,
  call_move,
}
use globalmail.RequestQueue.Lanes.{
  Move, enters, calls, lanes, times_out, perform, Reach, here, next, lane_move, take_job,
  acquire_worker, job_error,
}
use globalmail.RequestQueue.Bounded.{IsBounded}
use globalmail.RequestQueue.Runs.{Reach-IsBounded}
use globalmail.RequestQueue.Progress.{HasAnswered, call_moves, done_call_returns}
use globalmail.RequestQueue.Serial.{WorksOn, working_runs-apart}
use globalmail.RequestQueue.Overrun.{Beside, overrun_moves, timed_out-Beside}
use globalmail.RequestQueue.GoesOn.{perform_all}
use globalmail.Config.{default_config}
use globalmail.Config.Validate.{validate, guards, first_error}
use globalmail.Config.Usable.{queue_options, validate-queue_options}
use globalmail.Cache.Singleflight.{FlightGroup, joins, flying, join, fly, fly_all, fly_all-one}

abbrev options : CommandQueueOptions
options = record {
  workers = pos 1;
  capacity = pos 2;
  role_queue_capacity = pos 1;
  request_timeout = pos 3000000000;
}

abbrev request : CommandRequest
request = record {
  command_id = pos 1001;
  uid = pos 3;
  role_id = pos 3;
  server_id = pos 1;
  seq = pos 1;
  payload = none;
}

abbrev start : CommandRequestQueue
unfolding new_command_request_queue positive_or
start = new_command_request_queue options

abbrev run_moves : List Move → CommandRequestQueue → Option CommandRequestQueue
run_moves [] q = some q
run_moves (m ∷ ms) q = and_then (perform m q) (run_moves ms)

moves-Reach :
    (ms : List Move) (s q u : CommandRequestQueue) → Reach s q → run_moves ms q ≡ some u → Reach s u
moves-Reach [] s q u r h = subst (Reach s) (ground (arith, h)) r
moves-Reach (m ∷ ms) s q u r h =
    let (t, e, f) = and_then-some (perform m q) (run_moves ms) u h in
    moves-Reach ms s t u (next r m e) f

abbrev or_start : Option CommandRequestQueue → CommandRequestQueue
or_start none = start
or_start (some q) = q

-- A command is dispatched, and its time runs out.
abbrev timed_out_moves : List Move
timed_out_moves =
    enters request
    ∷ calls 0 proceed
    ∷ calls 0 proceed
    ∷ calls 0 proceed
    ∷ lanes (pos 3) proceed
    ∷ lanes (pos 3) full
    ∷ lanes (pos 3) proceed
    ∷ times_out 0
    ∷ []

abbrev late : CommandRequestQueue
unfolding new_command_request_queue positive_or perform enter call_move admit lane_for place
    lane_has_room the_lane command_role_id lookup insert lane_move take_job job_error acquire_worker
    time_out
late = or_start (run_moves timed_out_moves start)

late-Reach : Reach (new_command_request_queue options) late
unfolding new_command_request_queue positive_or perform enter call_move admit lane_for place
    lane_has_room the_lane command_role_id lookup insert lane_move take_job job_error acquire_worker
    time_out late start
late-Reach = moves-Reach timed_out_moves start start late here refl

Reach-IsBounded_example : IsBounded late
Reach-IsBounded_example = Reach-IsBounded options late late-Reach

abbrev late_job : CommandJob
late_job = record {
  ctx = record { parent = none; own = some deadline_exceeded };
  req = request;
  result = none;
  sent = true;
  released = false;
  stage = waiting;
}

done_call_returns_example :
    (cs : List Choice) × (u : CommandRequestQueue) × ((call_moves 0 cs late ≡ some u)
      × HasAnswered 0 u)
unfolding new_command_request_queue positive_or perform enter call_move admit lane_for place
    lane_has_room the_lane command_role_id lookup insert lane_move take_job job_error acquire_worker
    time_out late start
done_call_returns_example =
    done_call_returns options late 0 late_job deadline_exceeded late-Reach refl refl
      (inr (inr (inr refl)))

abbrev busy_run : DispatchRun
busy_run = record { result = none; slot_released = false; stage = dispatching }

-- Another command of the same role waits behind the one whose time runs out.
abbrev crowded_moves : List Move
crowded_moves =
    enters request
    ∷ calls 0 proceed
    ∷ calls 0 proceed
    ∷ calls 0 proceed
    ∷ lanes (pos 3) proceed
    ∷ lanes (pos 3) full
    ∷ lanes (pos 3) proceed
    ∷ enters request
    ∷ calls 1 proceed
    ∷ calls 1 proceed
    ∷ calls 1 proceed
    ∷ times_out 0
    ∷ []

abbrev crowded : CommandRequestQueue
unfolding new_command_request_queue positive_or perform enter call_move admit lane_for place
    lane_has_room the_lane command_role_id lookup insert lane_move take_job job_error acquire_worker
    time_out
crowded = or_start (run_moves crowded_moves start)

crowded-Reach : Reach (new_command_request_queue options) crowded
unfolding new_command_request_queue positive_or perform enter call_move admit lane_for place
    lane_has_room the_lane command_role_id lookup insert lane_move take_job job_error acquire_worker
    time_out crowded start
crowded-Reach = moves-Reach crowded_moves start start crowded here refl

abbrev next_job : CommandJob
next_job = record {
  ctx = record { parent = none; own = none };
  req = request;
  result = none;
  sent = true;
  released = false;
  stage = waiting;
}

timed_out-Beside_example :
    (pos 3 ≡ pos 3)
    × ((pos 3 ≡ pos 3)
        × ((u : CommandRequestQueue) × ((perform_all (overrun_moves (pos 3)) crowded ≡ some u)
              × Beside (pos 3) 0 1 u)))
unfolding new_command_request_queue positive_or perform enter call_move admit lane_for place
    lane_has_room the_lane command_role_id lookup insert lane_move take_job job_error acquire_worker
    time_out crowded start
timed_out-Beside_example =
    timed_out-Beside options crowded (pos 3) (record { jobs = 1 ∷ []; stage = running 0 0 }) 0 1 0
      [] late_job next_job busy_run deadline_exceeded crowded-Reach refl refl refl refl refl refl
      refl refl refl refl refl

validate-queue_options_example :
    let q = new_command_request_queue (queue_options default_config) in
    (pos q.workers ≡ pos 4) × ((pos q.capacity ≡ pos 1024) × (pos q.role_queue_capacity ≡ pos 32))
unfolding validate guards first_error default_config
validate-queue_options_example = validate-queue_options default_config refl

abbrev one_flight : FlightGroup ℕ
one_flight = record { m = ("7", 0) ∷ []; flights = record { key = "7"; stage = flying } ∷ [] }

fly_all-one_example : ◌≡◌ {A = ℕ} 0 0
unfolding fly_all fly join lookup insert
fly_all-one_example =
    fly_all-one (joins "7" ∷ joins "7" ∷ []) one_flight 0 0 (record { key = "7"; stage = flying })
      (record { key = "7"; stage = flying }) refl refl refl refl refl refl

-- Two commands of different roles are dispatched beside each other.
abbrev wide : CommandQueueOptions
wide = record {
  workers = pos 2;
  capacity = pos 2;
  role_queue_capacity = pos 1;
  request_timeout = pos 3000000000;
}

abbrev wide_start : CommandRequestQueue
unfolding new_command_request_queue positive_or
wide_start = new_command_request_queue wide

abbrev dispatch_moves : ℕ → CommandRequest → ℤ → List Move
dispatch_moves i req role =
    enters req
    ∷ calls i proceed
    ∷ calls i proceed
    ∷ calls i proceed
    ∷ lanes role proceed
    ∷ lanes role full
    ∷ lanes role proceed
    ∷ []

abbrev two_moves : List Move
two_moves =
    dispatch_moves 0 request (pos 3)
    ++ dispatch_moves 1 (record request { uid = pos 4; role_id = pos 4 }) (pos 4)

abbrev both_busy : CommandRequestQueue
unfolding new_command_request_queue positive_or perform enter call_move admit lane_for place
    lane_has_room the_lane command_role_id lookup insert lane_move take_job job_error acquire_worker
both_busy = or_start (run_moves two_moves wide_start)

both_busy-Reach : Reach (new_command_request_queue wide) both_busy
unfolding new_command_request_queue positive_or perform enter call_move admit lane_for place
    lane_has_room the_lane command_role_id lookup insert lane_move take_job job_error acquire_worker
    both_busy wide_start
both_busy-Reach = moves-Reach two_moves wide_start wide_start both_busy here refl

working_runs-apart_example :
    (x : (job : CommandJob) × WorksOn both_busy 0 job) × (y : (job : CommandJob) × WorksOn both_busy
        1 job)
    × (◌≢◌ {A = ℕ} 0 1 → command_role_id x.0.req ≢ command_role_id y.0.req)
unfolding new_command_request_queue positive_or perform enter call_move admit lane_for place
    lane_has_room the_lane command_role_id lookup insert lane_move take_job job_error acquire_worker
    both_busy wide_start
working_runs-apart_example =
    working_runs-apart wide both_busy 0 1 busy_run busy_run both_busy-Reach refl refl refl refl refl
      refl
