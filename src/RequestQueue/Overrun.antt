-- ===== src/RequestQueue/Overrun.antt =====
-- app/playersrv/request_queue.go: what becomes of a command whose time has run out while the
-- dispatcher works on it.
use globalmail.Prelude.{
  set_at, suc, zero, ◌<◌, ◌≢◌, ◌++◌, List, [], ◌∷◌, length, inl, inr, ℕ-cases, ◌∙◌, subst, All,
  false, get_elem?-set_at, ℕ, ◌≡◌, refl, true, none, some, get_elem?, arith, err, int_eq,
}
use globalmail.Prelude.Int.{ℤ}
use globalmail.Prelude.Dict.{lookup, lookup-insert_self}
use globalmail.RequestQueue.{
  command_role_id, ContextError, CommandJob, DispatchRun, CommandRoleLane, CommandQueueOptions,
  CommandRequestQueue, dispatching, finishing, running, context_error, new_command_request_queue,
}
use globalmail.RequestQueue.Calls.{done, proceed, full, put_job, put_lane}
use globalmail.RequestQueue.Lanes.{
  deliver, finish, job_error, release_worker, lane_move, perform, lanes, Reach, Move,
}
use globalmail.RequestQueue.Releases.{release_worker-ReleasedRun}
use globalmail.RequestQueue.Runs.{Reach-IsBounded, perform-IsBounded}
use globalmail.RequestQueue.Bounded.{IsBounded, IsSent, stage_jobs}
use globalmail.RequestQueue.GoesOn.{
  perform_all, new_run, get_elem?-set_at_other, after_acquire, goes_on,
}

module _ (role : ℤ) (lane : CommandRoleLane) (i k : ℕ) (job : CommandJob) (run : DispatchRun)
    (x : ContextError) (q t : CommandRequestQueue) where
  -- The queue after the lane's move, where `t` is the queue with the slot given back.
  after : CommandRequestQueue
  after =
      put_lane role (record lane { stage = finishing i })
        (put_job i (record job { result = some (err (context_error x)) }) t)

  abandons :
      lookup role q.lanes ≡ some lane
      → lane.stage ≡ running i k
      → get_elem? q.jobs i ≡ some job
      → job.ctx.own ≡ some x
      → job.result ≡ none
      → get_elem? q.runs k ≡ some run
      → release_worker k run q ≡ some t
      → t.jobs ≡ q.jobs
      → perform (lanes role done) q ≡ some after
  unfolding perform lane_move job_error finish deliver after
  abandons l s e d n g r j = ground (arith, l, s, e, d, n, g, r, j)

released_slot :
    (k : ℕ) (run : DispatchRun) (q t : CommandRequestQueue)
    → run.slot_released ≡ false
    → release_worker k run q ≡ some t
    → (suc t.slots ≡ q.slots)
      × ((t.workers ≡ q.workers)
          × ((t.runs ≡ set_at k (record run { slot_released = true }) q.runs)
              × ((t.jobs ≡ q.jobs) × (t.lanes ≡ q.lanes))))
unfolding release_worker
released_slot k run q t n h = elim (ℕ-cases q.slots) [
  | inl z ↦ absurd (ground (arith, h, n, z))
  | inr (m, z) ↦ ground (arith, h, n, z)
]

get_elem?-append_new :
    (b : DispatchRun) (xs : List DispatchRun) → get_elem? (xs ++ b ∷ []) (length xs) ≡ some b
get_elem?-append_new b [] = refl
get_elem?-append_new b (x ∷ xs) = get_elem?-append_new b xs

get_elem?-append_old :
    (k : ℕ) (a b : DispatchRun) (xs : List DispatchRun)
    → get_elem? xs k ≡ some a
    → (get_elem? (xs ++ b ∷ []) k ≡ some a) × (k < length xs)
get_elem?-append_old k a b [] h = absurd (ground (arith, h))
get_elem?-append_old zero a b (x ∷ xs) h = (h, omega arith)
get_elem?-append_old (suc k) a b (x ∷ xs) h =
    let p = get_elem?-append_old k a b xs h in (p.0, omega (arith, p.1))

-- The lane waits for a run of the job `j`, which is in the dispatcher, and so is the run `k`.
abbrev pub Beside : ℤ → ℕ → ℕ → CommandRequestQueue → Type 0
Beside role k j q =
    (l : ℕ) × (lane : CommandRoleLane) × (a : DispatchRun) × (b : DispatchRun) × ((k ≢ l)
      × (((lookup role q.lanes ≡ some lane) × (lane.stage ≡ running j l))
          × (((get_elem? q.runs k ≡ some a) × (a.stage ≡ dispatching))
              × ((get_elem? q.runs l ≡ some b) × (b.stage ≡ dispatching)))))

-- The moves of a lane that lets a job go, takes the next one and starts it.
abbrev pub overrun_moves : ℤ → List Move
overrun_moves role =
    lanes role done
    ∷ lanes role proceed
    ∷ lanes role proceed
    ∷ lanes role full
    ∷ lanes role proceed
    ∷ []

-- The flaw: in every state that the goroutines reach, take a lane that waits for a run which is in the
-- dispatcher and holds its worker slot. If the context of the run's job is done, with nothing handed
-- over yet, and the next job of the lane is not done, five moves of the lane alone, one after the
-- other, bring that next job to the dispatcher while the run is still there. Both jobs are of the
-- lane's role.
pub timed_out-Beside :
    (opts : CommandQueueOptions) (q : CommandRequestQueue) (role : ℤ) (lane : CommandRoleLane)
    (i j k : ℕ) (rest : List ℕ) (job next : CommandJob) (run : DispatchRun) (x : ContextError)
    → Reach (new_command_request_queue opts) q
    → lookup role q.lanes ≡ some lane
    → lane.stage ≡ running i k
    → lane.jobs ≡ j ∷ rest
    → get_elem? q.jobs i ≡ some job
    → job.ctx.own ≡ some x
    → job.result ≡ none
    → get_elem? q.jobs j ≡ some next
    → next.ctx.own ≡ none
    → get_elem? q.runs k ≡ some run
    → run.stage ≡ dispatching
    → run.slot_released ≡ false
    → (command_role_id job.req ≡ role)
      × ((command_role_id next.req ≡ role)
          × ((u : CommandRequestQueue) × ((perform_all (overrun_moves role) q ≡ some u)
                × Beside role k j u)))
unfolding after
timed_out-Beside opts q role lane i j k rest job next run x reach l s js e d n e' fresh g b held =
    let w = reach_bounded in
    let (t, r, z) = release_worker-ReleasedRun k run q w g in
    let f = released_slot k run q t held r in
    let lane' : CommandRoleLane = record lane { stage = finishing i } in
    let v = after role lane i k job run x q t in
    let a : CommandJob = record job { result = some (err (context_error x)) } in
    let first : perform (lanes role done) q ≡ some v =
      abandons role lane i k job run x q t l s e d n g r z.1.1.0 in
    let w' = perform-IsBounded (lanes role done) q v w first in
    let apart : i ≢ j = λ same. ground (arith, same, e, e', d, fresh) in
    let at_i : get_elem? v.jobs i ≡ some a =
      get_elem?-set_at i job a t.jobs (ground (arith, e, z.1.1.0)) in
    let at_j : get_elem? v.jobs j ≡ some next =
      get_elem?-set_at_other i j a t.jobs apart ∙ ground (arith, e', z.1.1.0) in
    let (t', (go, runs)) =
      goes_on role i j rest a next lane' v w' (lookup-insert_self role lane' t.lanes) refl js at_i
        (placed stage_of).1.0 apart at_j fresh (omega (arith, f, w.slots_capped)) in
    let old : DispatchRun = record run { slot_released = true } in
    let kept = get_elem?-append_old k old new_run t'.runs (ground (arith, runs, z.1.1.1)) in
    (
      (placed stage_of).1.1,
      (
        waits,
        (
          after_acquire role i j rest a next lane' v t',
          (
            ground (arith, first, go),
            (
              length t'.runs,
              record lane' { jobs = rest; stage = running j (length t'.runs) },
              old,
              new_run,
              (
                λ same. omega (arith, same, kept.1),
                (
                  (lookup-insert_self role _ _, refl),
                  ((kept.0, b), (get_elem?-append_new new_run t'.runs, refl)),
                ),
              ),
            ),
          ),
        ),
      ),
    )
  where
    reach_bounded : IsBounded q
    reach_bounded = Reach-IsBounded opts q reach

    stage_of : IsSent role q.jobs i
    stage_of =
        let sent : All (IsSent role q.jobs) (i ∷ []) =
          subst (λ stage. All (IsSent role q.jobs) (stage_jobs stage)) s
            (reach_bounded.lanes_ok role lane l).1.1 in
        sent.0

    placed :
        IsSent role q.jobs i
        → (job.sent ≡ true) × ((job.sent ≡ true) × (command_role_id job.req ≡ role))
    placed (job', e₁, (sent, same)) =
        (ground (arith, e, e₁, sent), (ground (arith, e, e₁, sent), ground (arith, e, e₁, same)))

    waits : command_role_id next.req ≡ role
    waits =
        let sent : All (IsSent role q.jobs) (j ∷ rest) =
          subst (All (IsSent role q.jobs)) js (reach_bounded.lanes_ok role lane l).1.0 in
        by_next sent.0
      where
        by_next : IsSent role q.jobs j → command_role_id next.req ≡ role
        by_next (next', e₁, (sent, same)) = ground (arith, e', e₁, same)
