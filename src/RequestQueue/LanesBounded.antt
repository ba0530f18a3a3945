-- ===== src/RequestQueue/LanesBounded.antt =====
-- app/playersrv/request_queue.go: the moves of the lanes keep the invariant.
use globalmail.Prelude.{
  and_then, and_then-some, ℕ, ◌≤◌, ◌≡◌, refl, Option, none, some, List, [], ◌∷◌, get_elem?, arith,
  length, All, int_eq, Bool-cases, Option-cases, inl, inr, subst, err, sym,
}
use globalmail.Prelude.Int.{ℤ}
use globalmail.Prelude.Dict.{lookup}
use globalmail.RequestQueue.{
  ContextError, CommandResult, CommandJob, DispatchRun, LaneStage, CommandRoleLane,
  CommandRequestQueue, idle, stopped, starting, acquiring, finishing, running, context_error,
  command_queue_closed,
}
use globalmail.RequestQueue.Calls.{Choice, done, closed, proceed, full, put_job, put_lane}
use globalmail.RequestQueue.Lanes.{
  deliver, finish, job_error, take_result, take_job, acquire_worker, release_worker, lane_move,
}
use globalmail.RequestQueue.Bounded.{
  IsBounded, IsSent, stage_jobs, LaneOk, LaneOk-mono, put_job-IsBounded, put_lane-IsBounded,
  set_at-IsSent,
}
use globalmail.RequestQueue.Releases.{
  Keeps, Keeps-refl, release_capacity-Released, release_worker-ReleasedRun,
  acquire_worker-IsBounded, put_run-IsBounded,
}

-- The lane goes on to another stage, after a step that kept the invariant.
staged-IsBounded :
    (role : ℤ) (lane after : CommandRoleLane) (q t : CommandRequestQueue)
    → IsBounded t
    → Keeps q t
    → LaneOk role q.jobs q.role_queue_capacity after
    → IsBounded (put_lane role after t)
staged-IsBounded role lane after q t w k l = put_lane-IsBounded role after t w (
    subst (λ r. LaneOk role t.jobs r after) (sym k.room)
      (LaneOk-mono role q.jobs t.jobs q.role_queue_capacity after (k.sent role) l))

deliver-IsBounded :
    (i : ℕ) (r : CommandResult) (q t : CommandRequestQueue)
    → IsBounded q
    → deliver i r q ≡ some t
    → IsBounded t × Keeps q t
unfolding deliver
deliver-IsBounded i r q t w h =
    let deliver_job : CommandJob → Option CommandRequestQueue = λ job. elim job.result [
      | some _ ↦ none
      | none ↦ some (put_job i (record job { result = some r }) q)
    ] in
    let (job, e, f) = and_then-some (get_elem? q.jobs i) deliver_job t h in
    elim (Option-cases job.result) [
      | inr (x, z) ↦ absurd (ground (arith, f, z))
      | inl z ↦
          let b : CommandJob = record job { result = some r } in
          subst (λ t. IsBounded t × Keeps q t) (ground (arith, f, z))
            (
              put_job-IsBounded i job b q w e refl refl refl (w.jobs_ok i job e),
              record {
                room = refl;
                sent = λ role j. set_at-IsSent role i j job b q.jobs e refl (λ h. h);
                lanes = refl;
              },
            )
    ]

module _ (role : ℤ) (lane : CommandRoleLane) where
  finish-IsBounded :
      (i : ℕ) (r : CommandResult) (q t u : CommandRequestQueue)
      → LaneOk role q.jobs q.role_queue_capacity (record lane { stage = finishing i })
      → IsBounded t
      → Keeps q t
      → finish role lane i r t ≡ some u
      → IsBounded u
  unfolding finish
  finish-IsBounded i r q t u l w k h =
      let lane' : CommandRoleLane = record lane { stage = finishing i } in
      let put : CommandRequestQueue → Option CommandRequestQueue =
        λ v. some (put_lane role lane' v) in
      let (v, e, f) = and_then-some (deliver i r t) put u h in
      let (w', k') = deliver-IsBounded i r t v w e in
      subst IsBounded (ground (arith, f)) (
        staged-IsBounded role lane lane' t v w' k' (
          subst (λ r. LaneOk role t.jobs r lane') (sym k.room)
            (LaneOk-mono role q.jobs t.jobs q.role_queue_capacity lane' (k.sent role) l)))

  take_job-IsBounded :
      (jobs : List ℕ) (q t : CommandRequestQueue)
      → IsBounded q
      → length jobs ≤ q.role_queue_capacity
      → All (IsSent role q.jobs) jobs
      → take_job role lane jobs q ≡ some t
      → IsBounded t
  unfolding take_job
  take_job-IsBounded [] q t w l s h = absurd (ground (arith, h))
  take_job-IsBounded (i ∷ rest) q t w l s h =
      let lane' : CommandRoleLane = record lane { jobs = rest; stage = starting i } in
      subst IsBounded (ground (arith, h))
        (put_lane-IsBounded role lane' q w (omega (arith, l), (s.1, (s.0, tt))))

  module _ (q u : CommandRequestQueue) (w : IsBounded q)
      (l : length lane.jobs ≤ q.role_queue_capacity) (s : All (IsSent role q.jobs) lane.jobs) where
    -- A job that the lane holds is done with an error.
    fail-IsBounded :
        (i : ℕ)
        → IsSent role q.jobs i
        → and_then (job_error i q) (λ e. finish role lane i (err (context_error e)) q) ≡ some u
        → IsBounded u
    fail-IsBounded i k h =
        let fail : ContextError → Option CommandRequestQueue =
          λ e. finish role lane i (err (context_error e)) q in
        let (e, _, f) = and_then-some (job_error i q) fail u h in
        finish-IsBounded i (err (context_error e)) q q u (l, (s, (k, tt))) w (Keeps-refl q) f

    start-IsBounded :
        (i : ℕ)
        → IsSent role q.jobs i
        → lane_move (starting i) full role lane q ≡ some u
        → IsBounded u
    unfolding lane_move
    start-IsBounded i k h = elim (Option-cases (job_error i q)) [
      | inr (x, z) ↦ absurd (ground (arith, h, z))
      | inl z ↦
          let lane' : CommandRoleLane = record lane { stage = acquiring i } in
          subst IsBounded (ground (arith, h, z))
            (put_lane-IsBounded role lane' q w (l, (s, (k, tt))))
    ]

    close-IsBounded :
        (i : ℕ)
        → IsSent role q.jobs i
        → lane_move (acquiring i) closed role lane q ≡ some u
        → IsBounded u
    unfolding lane_move
    close-IsBounded i k h = elim (Bool-cases q.closed) [
      | inr z ↦ absurd (ground (arith, h, z))
      | inl z ↦
          finish-IsBounded i (err command_queue_closed) q q u (l, (s, (k, tt))) w (Keeps-refl q)
            (ground (arith, h, z))
    ]

    acquire-IsBounded :
        (i : ℕ)
        → IsSent role q.jobs i
        → lane_move (acquiring i) proceed role lane q ≡ some u
        → IsBounded u
    unfolding lane_move
    acquire-IsBounded i k h =
        let lane' : CommandRoleLane = record lane { stage = running i (length q.runs) } in
        let put : CommandRequestQueue → Option CommandRequestQueue =
          λ t. some (put_lane role lane' t) in
        let (t, e, f) = and_then-some (acquire_worker q) put u h in
        let (w', k') = acquire_worker-IsBounded q t w e in
        subst IsBounded (ground (arith, f))
          (staged-IsBounded role lane lane' q t w' k' (l, (s, (k, tt))))

    stop-IsBounded : lane_move idle closed role lane q ≡ some u → IsBounded u
    unfolding lane_move
    stop-IsBounded h = elim (Bool-cases q.closed) [
      | inr z ↦ absurd (ground (arith, h, z))
      | inl z ↦
          let lane' : CommandRoleLane = record lane { stage = stopped } in
          subst IsBounded (ground (arith, h, z)) (put_lane-IsBounded role lane' q w (l, (s, tt)))
    ]

    -- The context of a running job is done: the worker slot is given back first.
    abandon-IsBounded :
        (i k : ℕ)
        → IsSent role q.jobs i
        → lane_move (running i k) done role lane q ≡ some u
        → IsBounded u
    unfolding lane_move
    abandon-IsBounded i k m h =
        let release : ContextError → DispatchRun → Option CommandRequestQueue =
          λ e run. and_then (release_worker k run q) (finish role lane i (err (context_error e))) in
        let with_error : ContextError → Option CommandRequestQueue =
          λ e. and_then (get_elem? q.runs k) (release e) in
        let (e, _, f) = and_then-some (job_error i q) with_error u h in
        let (run, g, f') = and_then-some (get_elem? q.runs k) (release e) u f in
        let (t, r, z) = release_worker-ReleasedRun k run q w g in
        let h' : finish role lane i (err (context_error e)) t ≡ some u = ground (arith, f', r) in
        finish-IsBounded i (err (context_error e)) q t u (l, (s, (m, tt))) z.0 z.1.0 h'

    run_done-IsBounded :
        (i k : ℕ)
        → IsSent role q.jobs i
        → lane_move (running i k) proceed role lane q ≡ some u
        → IsBounded u
    unfolding lane_move take_result
    run_done-IsBounded i k m h =
        let hand : DispatchRun → CommandResult → Option CommandRequestQueue =
          λ run r. finish role lane i r (take_result k run q) in
        let with_run : DispatchRun → Option CommandRequestQueue =
          λ run. and_then run.result (hand run) in
        let (run, g, f) = and_then-some (get_elem? q.runs k) with_run u h in
        let (r, _, f') = and_then-some run.result (hand run) u f in
        finish-IsBounded i r q (take_result k run q) u (l, (s, (m, tt)))
          (put_run-IsBounded k run (record run { result = none }) q w g refl)
          (record { room = refl; sent = λ role i h. h; lanes = refl }) f'

    let_go-IsBounded :
        (i : ℕ)
        → IsSent role q.jobs i
        → lane_move (finishing i) proceed role lane q ≡ some u
        → IsBounded u
    unfolding lane_move
    let_go-IsBounded i (a, e, sent) h =
        let lane' : CommandRoleLane = record lane { stage = idle } in
        let (t, r, z) = release_capacity-Released i a q w e sent.0 in
        subst IsBounded (ground (arith, h, e, r))
          (staged-IsBounded role lane lane' q t z.0 z.1.0 (l, (s, tt)))

    lane_move-IsBounded :
        (stage : LaneStage) (c : Choice)
        → All (IsSent role q.jobs) (stage_jobs stage)
        → lane_move stage c role lane q ≡ some u
        → IsBounded u
    unfolding lane_move
    lane_move-IsBounded idle done k h = absurd (ground (arith, h))
    lane_move-IsBounded idle closed k h = stop-IsBounded h
    lane_move-IsBounded idle proceed k h = take_job-IsBounded lane.jobs q u w l s h
    lane_move-IsBounded idle full k h = absurd (ground (arith, h))
    lane_move-IsBounded stopped c k h = absurd (ground (arith, h))
    lane_move-IsBounded (starting i) done k h = fail-IsBounded i k.0 h
    lane_move-IsBounded (starting i) closed k h = absurd (ground (arith, h))
    lane_move-IsBounded (starting i) proceed k h = absurd (ground (arith, h))
    lane_move-IsBounded (starting i) full k h = start-IsBounded i k.0 h
    lane_move-IsBounded (acquiring i) done k h = fail-IsBounded i k.0 h
    lane_move-IsBounded (acquiring i) closed k h = close-IsBounded i k.0 h
    lane_move-IsBounded (acquiring i) proceed k h = acquire-IsBounded i k.0 h
    lane_move-IsBounded (acquiring i) full k h = absurd (ground (arith, h))
    lane_move-IsBounded (running i n) done k h = abandon-IsBounded i n k.0 h
    lane_move-IsBounded (running i n) closed k h = absurd (ground (arith, h))
    lane_move-IsBounded (running i n) proceed k h = run_done-IsBounded i n k.0 h
    lane_move-IsBounded (running i n) full k h = absurd (ground (arith, h))
    lane_move-IsBounded (finishing i) done k h = absurd (ground (arith, h))
    lane_move-IsBounded (finishing i) closed k h = absurd (ground (arith, h))
    lane_move-IsBounded (finishing i) proceed k h = let_go-IsBounded i k.0 h
    lane_move-IsBounded (finishing i) full k h = absurd (ground (arith, h))

pub lane_move-IsBounded_of :
    (role : ℤ) (lane : CommandRoleLane) (c : Choice) (q u : CommandRequestQueue)
    → IsBounded q
    → lookup role q.lanes ≡ some lane
    → lane_move lane.stage c role lane q ≡ some u
    → IsBounded u
lane_move-IsBounded_of role lane c q u w e h =
    let l = w.lanes_ok role lane e in
    lane_move-IsBounded role lane q u w l.0 l.1.0 lane.stage c l.1.1 h
