-- ===== src/RequestQueue/Serial.antt =====
-- app/playersrv/request_queue.go: the runs of the dispatcher that hold a worker slot, and the lanes
-- that wait for them.
use globalmail.Prelude.{
  All, [], ◌∷◌, set_at, and_then, and_then-some, ℕ, ◌≡◌, ◌≢◌, refl, false, true, Option, some,
  get_elem?, arith, int_eq, inl, inr, subst,
}
use globalmail.Prelude.Dict.{lookup}
use globalmail.RequestQueue.{
  command_role_id, CommandResult, DispatchRun, CommandJob, CommandRoleLane, CommandQueueOptions,
  CommandRequestQueue, dispatching, delivered, exited, running, new_command_request_queue,
}
use globalmail.RequestQueue.Calls.{enter, parent_done, time_out, call_move}
use globalmail.RequestQueue.Lanes.{
  release_worker, lane_move, run_returns, run_exits, Move, enters, cancels, times_out, calls, lanes,
  returns, exits, closes, perform, Reach, here, next,
}
use globalmail.RequestQueue.Attended.{
  Waited, IsAttended, same-IsAttended, Changed, set_at-Changed, run-IsAttended,
  call_move-IsAttended,
}
use globalmail.RequestQueue.Bounded.{IsBounded, IsSent, stage_jobs}
use globalmail.RequestQueue.Runs.{Reach-IsBounded}
use globalmail.RequestQueue.LanesAttended.{lane_move-IsAttended}
use globalmail.RequestQueue.Waiting.{release_worker-Changed}

-- A run that has left the dispatcher needs no lane.
left_dispatcher-IsAttended :
    (k : ℕ) (b : DispatchRun) (q u : CommandRequestQueue)
    → IsAttended q
    → Changed k b q u
    → u.lanes ≡ q.lanes
    → b.stage ≢ dispatching
    → IsAttended u
left_dispatcher-IsAttended k b q u w c l n =
    run-IsAttended k b q u w c (λ j _ x. subst (λ lanes. Waited lanes j) (ground (arith, l)) x)
      (λ d. absurd (n d))

run_returns-IsAttended :
    (k : ℕ) (r : CommandResult) (run : DispatchRun) (q u : CommandRequestQueue)
    → IsAttended q
    → run_returns k r run q ≡ some u
    → IsAttended u
unfolding run_returns
run_returns-IsAttended k r run q u w h =
    let b : DispatchRun = record run { result = some r; stage = delivered } in
    left_dispatcher-IsAttended k b q u w (set_at-Changed k b q u (ground (arith, h)))
      (ground (arith, h)) (λ e. ground (arith, e))

run_exits-IsAttended :
    (k : ℕ) (run : DispatchRun) (q u : CommandRequestQueue)
    → IsAttended q
    → get_elem? q.runs k ≡ some run
    → run_exits k run q ≡ some u
    → IsAttended u
unfolding run_exits
run_exits-IsAttended k run q u w g h =
    let b : DispatchRun = record run { slot_released = true; stage = exited } in
    let exit : CommandRequestQueue → Option CommandRequestQueue =
      λ t. some (record t { runs = set_at k b t.runs }) in
    let from_delivered : and_then (release_worker k run q) exit ≡ some u = ground (arith, h) in
    let (t, e, f) = and_then-some (release_worker k run q) exit u from_delivered in
    let c = release_worker-Changed k run q t g e in
    left_dispatcher-IsAttended k b q u w
      (λ j x y. elim (set_at-Changed k b t u (ground (arith, f)) j x y) [
        | inl p ↦ inl p
        | inr p ↦ elim (c.0 j x p.1) [ inl z ↦ absurd (p.0 z.0) | inr z ↦ inr z ]
      ])
      (ground (arith, f, c.1)) (λ e. ground (arith, e))

perform-IsAttended :
    (m : Move) (q u : CommandRequestQueue) → IsAttended q → perform m q ≡ some u → IsAttended u
unfolding perform enter parent_done time_out
perform-IsAttended (enters req) q u w h = same-IsAttended q u w (ground (arith, h))
perform-IsAttended (cancels i e) q u w h =
    let with_job : CommandJob → Option CommandRequestQueue = λ job. some (parent_done i e job q) in
    let (job, f, g) = and_then-some (get_elem? q.jobs i) with_job u h in
    same-IsAttended q u w (ground (arith, g))
perform-IsAttended (times_out i) q u w h =
    let with_job : CommandJob → Option CommandRequestQueue = λ job. time_out i job q in
    let (job, f, g) = and_then-some (get_elem? q.jobs i) with_job u h in
    same-IsAttended q u w (ground (arith, g))
perform-IsAttended (calls i c) q u w h =
    let with_job : CommandJob → Option CommandRequestQueue = λ job. call_move job.stage c i job q in
    let (job, f, g) = and_then-some (get_elem? q.jobs i) with_job u h in
    call_move-IsAttended job.stage c i job q u w g
perform-IsAttended (lanes role c) q u w h =
    let with_lane : CommandRoleLane → Option CommandRequestQueue =
      λ lane. lane_move lane.stage c role lane q in
    let (lane, f, g) = and_then-some (lookup role q.lanes) with_lane u h in
    lane_move-IsAttended role lane q u w f lane.stage c refl g
perform-IsAttended (returns k r) q u w h =
    let with_run : DispatchRun → Option CommandRequestQueue = λ run. run_returns k r run q in
    let (run, f, g) = and_then-some (get_elem? q.runs k) with_run u h in
    run_returns-IsAttended k r run q u w g
perform-IsAttended (exits k) q u w h =
    let with_run : DispatchRun → Option CommandRequestQueue = λ run. run_exits k run q in
    let (run, f, g) = and_then-some (get_elem? q.runs k) with_run u h in
    run_exits-IsAttended k run q u w f g
perform-IsAttended closes q u w h = same-IsAttended q u w (ground (arith, h))

reached-IsAttended :
    (opts : CommandQueueOptions) (q : CommandRequestQueue)
    → Reach (new_command_request_queue opts) q
    → IsAttended q
unfolding new_command_request_queue
reached-IsAttended opts q here = λ k run g. absurd (ground (arith, g))
reached-IsAttended opts q (next {t} r m h) =
    perform-IsAttended m t q (reached-IsAttended opts t r) h

-- The lane of the role of `job` waits for the run `k`, with the job in hand.
abbrev pub WorksOn : CommandRequestQueue → ℕ → CommandJob → Type 0
WorksOn q k job =
    (i : ℕ) × (lane : CommandRoleLane) × ((get_elem? q.jobs i ≡ some job)
      × ((lookup (command_role_id job.req) q.lanes ≡ some lane) × (lane.stage ≡ running i k)))

Waited-WorksOn :
    (q : CommandRequestQueue) (k : ℕ)
    → IsBounded q
    → Waited q.lanes k
    → (job : CommandJob) × WorksOn q k job
Waited-WorksOn q k w (role, lane, i, (g, s)) =
    let placed : All (IsSent role q.jobs) (i ∷ []) =
      subst (λ stage. All (IsSent role q.jobs) (stage_jobs stage)) s (w.lanes_ok role lane g).1.1 in
    by_job placed.0
  where
    by_job : IsSent role q.jobs i → (job : CommandJob) × WorksOn q k job
    by_job (job, e, (_, same)) = (job, (i, lane, (e, (ground (arith, g, same), s))))

-- In every state that the goroutines reach: a run that is in the dispatcher and holds its worker
-- slot works on a job that the lane of the job's role has in hand, and two such runs work on jobs
-- of different roles.
pub working_runs-apart :
    (opts : CommandQueueOptions) (q : CommandRequestQueue) (k l : ℕ) (a b : DispatchRun)
    → Reach (new_command_request_queue opts) q
    → get_elem? q.runs k ≡ some a
    → get_elem? q.runs l ≡ some b
    → a.stage ≡ dispatching
    → b.stage ≡ dispatching
    → a.slot_released ≡ false
    → b.slot_released ≡ false
    → (x : (job : CommandJob) × WorksOn q k job) × (y : (job : CommandJob) × WorksOn q l job) × (k
          ≢ l
        → command_role_id x.0.req ≢ command_role_id y.0.req)
working_runs-apart opts q k l a b reach e f d d' s s' =
    let bounded = Reach-IsBounded opts q reach in
    let w = reached-IsAttended opts q reach in
    let x = Waited-WorksOn q k bounded ((w k a e d).1 s) in
    let y = Waited-WorksOn q l bounded ((w l b f d').1 s') in (x, y, λ n same. n (one x y same))
  where
    one :
        (x : (job : CommandJob) × WorksOn q k job) (y : (job : CommandJob) × WorksOn q l job)
        → command_role_id x.0.req ≡ command_role_id y.0.req
        → k ≡ l
    one (job, (i, lane, (_, (g, t)))) (job', (i', lane', (_, (g', t')))) same =
        ground (arith, g, t, g', t', same)
