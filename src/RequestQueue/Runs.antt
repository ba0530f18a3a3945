-- ===== src/RequestQueue/Runs.antt =====
-- app/playersrv/request_queue.go: every move keeps the invariant, and with it every run of the
-- queue.
use globalmail.Prelude.{
  set_at, and_then-some, ℕ, ◌≡◌, refl, true, Option, some, get_elem?, arith, int_eq, subst, sym,
}
use globalmail.Prelude.Dict.{lookup}
use globalmail.RequestQueue.{
  ContextError, CommandResult, CommandJob, DispatchRun, CommandRoleLane, CommandRequestQueue,
  CommandQueueOptions, or_else, deadline_exceeded, new_command_request_queue, delivered, exited,
}
use globalmail.RequestQueue.Calls.{put_job, parent_done, time_out, enter, call_move}
use globalmail.RequestQueue.Lanes.{
  lane_move, run_returns, run_exits, Move, enters, cancels, times_out, calls, lanes, returns, exits,
  closes, perform, Reach, here, next,
}
use globalmail.RequestQueue.Bounded.{IsBounded, JobOk, put_job-IsBounded}
use globalmail.RequestQueue.Releases.{
  release_worker-ReleasedRun, put_run-IsBounded, enter-IsBounded,
}
use globalmail.RequestQueue.CallsBounded.{call_move-IsBounded}
use globalmail.RequestQueue.LanesBounded.{lane_move-IsBounded_of}

run_returns-IsBounded :
    (k : ℕ) (r : CommandResult) (run : DispatchRun) (q u : CommandRequestQueue)
    → IsBounded q
    → get_elem? q.runs k ≡ some run
    → run_returns k r run q ≡ some u
    → IsBounded u
unfolding run_returns
run_returns-IsBounded k r run q u w e h =
    let b : DispatchRun = record run { result = some r; stage = delivered } in
    let t : CommandRequestQueue = record q { runs = set_at k b q.runs } in
    let f : t ≡ u = ground (arith, h) in subst IsBounded f (put_run-IsBounded k run b q w e refl)

run_exits-IsBounded :
    (k : ℕ) (run : DispatchRun) (q u : CommandRequestQueue)
    → IsBounded q
    → get_elem? q.runs k ≡ some run
    → run_exits k run q ≡ some u
    → IsBounded u
unfolding run_exits
run_exits-IsBounded k run q u w e h =
    let (t, r, z) = release_worker-ReleasedRun k run q w e in
    let b : DispatchRun = record run { slot_released = true; stage = exited } in
    let v : CommandRequestQueue = record t { runs = set_at k b t.runs } in
    let f : v ≡ u = ground (arith, h, r) in
    subst IsBounded f
      (put_run-IsBounded k (record run { slot_released = true }) b t z.0 z.1.1.1 refl)

context-IsBounded :
    (i : ℕ) (job b : CommandJob) (q u : CommandRequestQueue)
    → IsBounded q
    → get_elem? q.jobs i ≡ some job
    → b ≡ record job { ctx = b.ctx }
    → put_job i b q ≡ u
    → IsBounded u
context-IsBounded i job b q u w e k h = subst IsBounded h (
    put_job-IsBounded i job b q w e (ground (arith, k)) (ground (arith, k)) (ground (arith, k))
      (subst JobOk (sym k) (w.jobs_ok i job e)))

time_out-IsBounded :
    (i : ℕ) (job : CommandJob) (q u : CommandRequestQueue)
    → IsBounded q
    → get_elem? q.jobs i ≡ some job
    → time_out i job q ≡ some u
    → IsBounded u
unfolding time_out
time_out-IsBounded i job q u w e h =
    let b : CommandJob = record job {
      ctx = record { parent = job.ctx.parent; own = or_else job.ctx.own deadline_exceeded };
    } in
    context-IsBounded i job b q u w e refl (ground (arith, h))

parent_done-IsBounded :
    (i : ℕ) (x : ContextError) (job : CommandJob) (q u : CommandRequestQueue)
    → IsBounded q
    → get_elem? q.jobs i ≡ some job
    → some (parent_done i x job q) ≡ some u
    → IsBounded u
unfolding parent_done
parent_done-IsBounded i x job q u w e h =
    let b : CommandJob = record job {
      ctx = record { parent = or_else job.ctx.parent x; own = or_else job.ctx.own x };
    } in
    context-IsBounded i job b q u w e refl (ground (arith, h))

closed-IsBounded : (q : CommandRequestQueue) → IsBounded q → IsBounded (record q { closed = true })
closed-IsBounded q w = record {
  tokens_held = w.tokens_held;
  tokens_capped = w.tokens_capped;
  slots_held = w.slots_held;
  slots_capped = w.slots_capped;
  jobs_ok = w.jobs_ok;
  lanes_ok = w.lanes_ok;
}

empty-IsBounded : (opts : CommandQueueOptions) → IsBounded (new_command_request_queue opts)
unfolding new_command_request_queue lookup
empty-IsBounded opts = record {
  tokens_held = refl;
  tokens_capped = omega arith;
  slots_held = refl;
  slots_capped = omega arith;
  jobs_ok = λ i job h. absurd (ground (arith, h));
  lanes_ok = λ role lane h. absurd (ground (arith, h));
}

pub perform-IsBounded :
    (m : Move) (q u : CommandRequestQueue) → IsBounded q → perform m q ≡ some u → IsBounded u
unfolding perform
perform-IsBounded (enters req) q u w h =
    let f : enter req q ≡ u = ground (arith, h) in subst IsBounded f (enter-IsBounded req q w)
perform-IsBounded (cancels i e) q u w h =
    let with_job : CommandJob → Option CommandRequestQueue = λ job. some (parent_done i e job q) in
    let (job, f, g) = and_then-some (get_elem? q.jobs i) with_job u h in
    parent_done-IsBounded i e job q u w f g
perform-IsBounded (times_out i) q u w h =
    let with_job : CommandJob → Option CommandRequestQueue = λ job. time_out i job q in
    let (job, f, g) = and_then-some (get_elem? q.jobs i) with_job u h in
    time_out-IsBounded i job q u w f g
perform-IsBounded (calls i c) q u w h =
    let with_job : CommandJob → Option CommandRequestQueue = λ job. call_move job.stage c i job q in
    let (job, f, g) = and_then-some (get_elem? q.jobs i) with_job u h in
    call_move-IsBounded job.stage c i job q u w f (w.jobs_ok i job f) g
perform-IsBounded (lanes role c) q u w h =
    let with_lane : CommandRoleLane → Option CommandRequestQueue =
      λ lane. lane_move lane.stage c role lane q in
    let (lane, f, g) = and_then-some (lookup role q.lanes) with_lane u h in
    lane_move-IsBounded_of role lane c q u w f g
perform-IsBounded (returns k r) q u w h =
    let with_run : DispatchRun → Option CommandRequestQueue = λ run. run_returns k r run q in
    let (run, f, g) = and_then-some (get_elem? q.runs k) with_run u h in
    run_returns-IsBounded k r run q u w f g
perform-IsBounded (exits k) q u w h =
    let with_run : DispatchRun → Option CommandRequestQueue = λ run. run_exits k run q in
    let (run, f, g) = and_then-some (get_elem? q.runs k) with_run u h in
    run_exits-IsBounded k run q u w f g
perform-IsBounded closes q u w h =
    let f : record q { closed = true } ≡ u = ground (arith, h) in
    subst IsBounded f (closed-IsBounded q w)

-- In every state that the goroutines reach: the tokens in the channel are those of the jobs that
-- were admitted and have not given theirs back, and fit the capacity; the worker slots in use are
-- those of the runs that hold one, and fit the workers; no lane holds more jobs than it has room
-- for; a job in a lane is one of the lane's role; and a job that is placed, or in a lane, had sent
-- its token.
pub Reach-IsBounded :
    (opts : CommandQueueOptions) (q : CommandRequestQueue)
    → Reach (new_command_request_queue opts) q
    → IsBounded q
Reach-IsBounded opts q here = empty-IsBounded opts
Reach-IsBounded opts q (next {t} r m h) = perform-IsBounded m t q (Reach-IsBounded opts t r) h
