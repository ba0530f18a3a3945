-- ===== src/RequestQueue/LanesAttended.antt =====
-- app/playersrv/request_queue.go: the moves of a lane, and which run it waits for.
use globalmail.Prelude.{
  and_then, and_then-some, get_elem?-append_place, ℕ, ◌≡◌, ◌≢◌, false, true, Option, none, nat_eq,
  ◌++◌, [], ◌∷◌, some, List, get_elem?, length, arith, int_eq, Bool-cases, Option-cases, inl, inr,
  subst, sym, err,
}
use globalmail.Prelude.Int.{ℤ}
use globalmail.Prelude.Dict.{lookup, insert, lookup-insert_self}
use globalmail.RequestQueue.{
  ContextError, CommandResult, DispatchRun, CommandJob, CommandRoleLane, LaneStage,
  CommandRequestQueue, dispatching, running, idle, stopped, starting, acquiring, finishing,
  context_error, command_queue_closed,
}
use globalmail.RequestQueue.Calls.{Choice, done, closed, proceed, full, put_lane, release_capacity}
use globalmail.RequestQueue.Lanes.{
  finish, job_error, take_result, take_job, acquire_worker, release_worker, lane_move,
}
use globalmail.RequestQueue.Attended.{
  Waited, Waited-insert, IsAttended, set_at-Changed, release_capacity-Same,
}
use globalmail.RequestQueue.Waiting.{
  release_worker-Changed, finish-insert, staged-IsAttended, left-IsAttended,
}

module _ (role : ℤ) (lane : CommandRoleLane) (q u : CommandRequestQueue) (w : IsAttended q)
    (at_role : lookup role q.lanes ≡ some lane) where
  fail-IsAttended :
      (i : ℕ)
      → ((j k : ℕ) → lane.stage ≢ running j k)
      → and_then (job_error i q) (λ e. finish role lane i (err (context_error e)) q) ≡ some u
      → IsAttended u
  fail-IsAttended i n h =
      let fail : ContextError → Option CommandRequestQueue =
        λ e. finish role lane i (err (context_error e)) q in
      let (e, _, f) = and_then-some (job_error i q) fail u h in
      let p = finish-insert role lane i (err (context_error e)) q u f in
      staged-IsAttended role lane q u w at_role (record lane { stage = finishing i }) n p.0 p.1

  take_job-IsAttended :
      (jobs : List ℕ) → lane.stage ≡ idle → take_job role lane jobs q ≡ some u → IsAttended u
  unfolding take_job
  take_job-IsAttended [] s h = absurd (ground (arith, h))
  take_job-IsAttended (i ∷ rest) s h =
      staged-IsAttended role lane q u w at_role (record lane { jobs = rest; stage = starting i })
        (λ i k e. ground (arith, e, s)) (ground (arith, h)) (ground (arith, h))

  start-IsAttended :
      (i : ℕ)
      → lane.stage ≡ starting i
      → lane_move (starting i) full role lane q ≡ some u
      → IsAttended u
  unfolding lane_move
  start-IsAttended i s h = elim (Option-cases (job_error i q)) [
    | inr (x, z) ↦ absurd (ground (arith, h, z))
    | inl z ↦
        staged-IsAttended role lane q u w at_role (record lane { stage = acquiring i })
          (λ i k e. ground (arith, e, s)) (ground (arith, h, z)) (ground (arith, h, z))
  ]

  close-IsAttended :
      (i : ℕ)
      → lane.stage ≡ acquiring i
      → lane_move (acquiring i) closed role lane q ≡ some u
      → IsAttended u
  unfolding lane_move
  close-IsAttended i s h = elim (Bool-cases q.closed) [
    | inr z ↦ absurd (ground (arith, h, z))
    | inl z ↦
        let p = finish-insert role lane i (err command_queue_closed) q u (ground (arith, h, z)) in
        staged-IsAttended role lane q u w at_role (record lane { stage = finishing i })
          (λ i k e. ground (arith, e, s)) p.0 p.1
  ]

  stop-IsAttended : lane.stage ≡ idle → lane_move idle closed role lane q ≡ some u → IsAttended u
  unfolding lane_move
  stop-IsAttended s h =
      staged-IsAttended role lane q u w at_role (record lane { stage = stopped })
        (λ i k e. ground (arith, e, s)) (ground (arith, h)) (ground (arith, h))

  -- A new run is waited for by its lane.
  acquire-IsAttended :
      (i : ℕ)
      → lane.stage ≡ acquiring i
      → lane_move (acquiring i) proceed role lane q ≡ some u
      → IsAttended u
  unfolding lane_move acquire_worker
  acquire-IsAttended i s h k run g d =
      let after : CommandRoleLane = record lane { stage = running i (length q.runs) } in
      let b : DispatchRun = record { result = none; slot_released = false; stage = dispatching } in
      let l : u.lanes ≡ insert role after q.lanes = ground (arith, h) in
      let r : u.runs ≡ q.runs ++ b ∷ [] = ground (arith, h) in
      elim (get_elem?-append_place k b run q.runs (ground (arith, r, g))) [
        | inl p ↦ (
          ground (arith, p),
          λ x. (
            role,
            after,
            i,
            (ground (arith, l, lookup-insert_self role after q.lanes), ground (arith, p)),
          ),
        )
        | inr e ↦
            let a = w k run e d in
            (
              a.0,
              λ x.
                  subst (λ lanes. Waited lanes k) (sym l)
                    (Waited-insert role after q.lanes k
                      (λ old j e f. ground (arith, e, f, at_role, s)) (a.1 x)),
            )
      ]

  let_go-IsAttended :
      (i : ℕ)
      → lane.stage ≡ finishing i
      → lane_move (finishing i) proceed role lane q ≡ some u
      → IsAttended u
  unfolding lane_move
  let_go-IsAttended i s h =
      let go : CommandJob → CommandRequestQueue → Option CommandRequestQueue =
        λ job t. some (put_lane role (record lane { stage = idle }) t) in
      let with_job : CommandJob → Option CommandRequestQueue =
        λ job. and_then (release_capacity i job q) (go job) in
      let (job, _, f) = and_then-some (get_elem? q.jobs i) with_job u h in
      let (t, e, f') = and_then-some (release_capacity i job q) (go job) u f in
      let p = release_capacity-Same i job q t e in
      staged-IsAttended role lane q u w at_role (record lane { stage = idle })
        (λ i k e. ground (arith, e, s)) (ground (arith, f', p)) (ground (arith, f', p))

  abandon-IsAttended :
      (i k : ℕ)
      → lane.stage ≡ running i k
      → lane_move (running i k) done role lane q ≡ some u
      → IsAttended u
  unfolding lane_move
  abandon-IsAttended i k s h =
      let release : ContextError → DispatchRun → Option CommandRequestQueue =
        λ e run. and_then (release_worker k run q) (finish role lane i (err (context_error e))) in
      let with_error : ContextError → Option CommandRequestQueue =
        λ e. and_then (get_elem? q.runs k) (release e) in
      let (e, _, f) = and_then-some (job_error i q) with_error u h in
      let (run, g, f') = and_then-some (get_elem? q.runs k) (release e) u f in
      let (t, r, f'') =
        and_then-some (release_worker k run q) (finish role lane i (err (context_error e))) u f' in
      let c = release_worker-Changed k run q t g r in
      let p = finish-insert role lane i (err (context_error e)) t u f'' in
      left-IsAttended role lane q u w at_role i k (record lane { stage = finishing i })
        (record run { slot_released = true }) s (λ j x e. c.0 j x (ground (arith, e, p)))
        (ground (arith, p, c.1)) (λ d. ((w k run g d).0, λ x. absurd (ground (arith, x))))

  run_done-IsAttended :
      (i k : ℕ)
      → lane.stage ≡ running i k
      → lane_move (running i k) proceed role lane q ≡ some u
      → IsAttended u
  unfolding lane_move take_result
  run_done-IsAttended i k s h =
      let hand : DispatchRun → CommandResult → Option CommandRequestQueue =
        λ run r. finish role lane i r (take_result k run q) in
      let with_run : DispatchRun → Option CommandRequestQueue =
        λ run. and_then run.result (hand run) in
      let (run, g, f) = and_then-some (get_elem? q.runs k) with_run u h in
      let (r, z, f') = and_then-some run.result (hand run) u f in
      let p = finish-insert role lane i r (take_result k run q) u f' in
      let b : DispatchRun = record run { result = none } in
      left-IsAttended role lane q u w at_role i k (record lane { stage = finishing i }) b s
        (set_at-Changed k b q u p.0) p.1
        (λ d. let e = (w k run g d).0 in absurd (ground (arith, e, z)))

  pub lane_move-IsAttended :
      (stage : LaneStage) (c : Choice)
      → lane.stage ≡ stage
      → lane_move stage c role lane q ≡ some u
      → IsAttended u
  unfolding lane_move
  lane_move-IsAttended idle done s h = absurd (ground (arith, h))
  lane_move-IsAttended idle closed s h = stop-IsAttended s h
  lane_move-IsAttended idle proceed s h = take_job-IsAttended lane.jobs s h
  lane_move-IsAttended idle full s h = absurd (ground (arith, h))
  lane_move-IsAttended stopped c s h = absurd (ground (arith, h))
  lane_move-IsAttended (starting i) done s h = fail-IsAttended i (λ j k e. ground (arith, e, s)) h
  lane_move-IsAttended (starting i) closed s h = absurd (ground (arith, h))
  lane_move-IsAttended (starting i) proceed s h = absurd (ground (arith, h))
  lane_move-IsAttended (starting i) full s h = start-IsAttended i s h
  lane_move-IsAttended (acquiring i) done s h = fail-IsAttended i (λ j k e. ground (arith, e, s)) h
  lane_move-IsAttended (acquiring i) closed s h = close-IsAttended i s h
  lane_move-IsAttended (acquiring i) proceed s h = acquire-IsAttended i s h
  lane_move-IsAttended (acquiring i) full s h = absurd (ground (arith, h))
  lane_move-IsAttended (running i n) done s h = abandon-IsAttended i n s h
  lane_move-IsAttended (running i n) closed s h = absurd (ground (arith, h))
  lane_move-IsAttended (running i n) proceed s h = run_done-IsAttended i n s h
  lane_move-IsAttended (running i n) full s h = absurd (ground (arith, h))
  lane_move-IsAttended (finishing i) done s h = absurd (ground (arith, h))
  lane_move-IsAttended (finishing i) closed s h = absurd (ground (arith, h))
  lane_move-IsAttended (finishing i) proceed s h = let_go-IsAttended i s h
  lane_move-IsAttended (finishing i) full s h = absurd (ground (arith, h))
