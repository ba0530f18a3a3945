-- ===== src/RequestQueue/GoesOn.antt =====
-- app/playersrv/request_queue.go: a lane that is done with a job goes on to its next one.
use globalmail.Prelude.{
  set_at, and_then, ℕ, suc, zero, ◌+◌, ◌<◌, ◌≡◌, ◌≢◌, ◌∙◌, refl, inl, inr, true, false, Option,
  none, some, List, [], ◌∷◌, ◌++◌, get_elem?, length, arith, int_eq, Bool-cases, ℕ-cases,
}
use globalmail.Prelude.Int.{ℤ}
use globalmail.Prelude.Dict.{lookup, lookup-insert_self}
use globalmail.RequestQueue.{
  CommandJob, DispatchRun, CommandRoleLane, CommandRequestQueue, dispatching, idle, starting,
  acquiring, finishing, running,
}
use globalmail.RequestQueue.Calls.{proceed, full, put_lane, release_capacity}
use globalmail.RequestQueue.Lanes.{
  job_error, take_job, acquire_worker, lane_move, perform, Move, lanes,
}
use globalmail.RequestQueue.Bounded.{IsBounded}
use globalmail.RequestQueue.Releases.{release_capacity-Released}

abbrev pub perform_all : List Move → CommandRequestQueue → Option CommandRequestQueue
perform_all [] q = some q
perform_all (m ∷ ms) q = and_then (perform m q) (perform_all ms)

-- The run that a lane starts.
abbrev pub new_run : DispatchRun
new_run = record { result = none; slot_released = false; stage = dispatching }

pub get_elem?-set_at_other :
    (i j : ℕ) (b : CommandJob) (xs : List CommandJob)
    → i ≢ j
    → get_elem? (set_at i b xs) j ≡ get_elem? xs j
get_elem?-set_at_other i j b [] n = refl
get_elem?-set_at_other zero zero b (x ∷ xs) n = absurd (n refl)
get_elem?-set_at_other zero (suc j) b (x ∷ xs) n = refl
get_elem?-set_at_other (suc i) zero b (x ∷ xs) n = refl
get_elem?-set_at_other (suc i) (suc j) b (x ∷ xs) n =
    get_elem?-set_at_other i j b xs (λ e. n (ground (arith, e)))

-- What giving a token back leaves alone.
release_capacity-frame :
    (i j : ℕ) (a : CommandJob) (q t : CommandRequestQueue)
    → i ≢ j
    → release_capacity i a q ≡ some t
    → (get_elem? t.jobs j ≡ get_elem? q.jobs j)
      × ((t.runs ≡ q.runs)
          × ((t.lanes ≡ q.lanes) × ((t.slots ≡ q.slots) × (t.workers ≡ q.workers))))
unfolding release_capacity
release_capacity-frame i j a q t n h = elim (Bool-cases a.released) [
  | inl r ↦ ground (arith, h, r)
  | inr r ↦ elim (ℕ-cases q.tokens) [
    | inl z ↦ absurd (ground (arith, h, r, z))
    | inr (m, z) ↦
        let s = get_elem?-set_at_other i j (record a { released = true }) q.jobs n in
        ground (arith, h, r, z, s)
  ]
]

module _ (role : ℤ) (i j : ℕ) (rest : List ℕ) (a next : CommandJob) (lane : CommandRoleLane)
    (q : CommandRequestQueue) where
  abbrev pub after_idle : CommandRequestQueue → CommandRequestQueue
  after_idle t = put_lane role (record lane { stage = idle }) t

  abbrev pub after_take : CommandRequestQueue → CommandRequestQueue
  after_take t = put_lane role (record lane { jobs = rest; stage = starting j }) (after_idle t)

  abbrev pub after_start : CommandRequestQueue → CommandRequestQueue
  after_start t = put_lane role (record lane { jobs = rest; stage = acquiring j }) (after_take t)

  abbrev pub after_acquire : CommandRequestQueue → CommandRequestQueue
  after_acquire t =
      let v = after_start t in
      put_lane role (record lane { jobs = rest; stage = running j (length v.runs) })
        (record v { slots = v.slots + 1; runs = v.runs ++ new_run ∷ [] })

  gives_back :
      (t : CommandRequestQueue)
      → lookup role q.lanes ≡ some lane
      → lane.stage ≡ finishing i
      → get_elem? q.jobs i ≡ some a
      → release_capacity i a q ≡ some t
      → perform (lanes role proceed) q ≡ some (after_idle t)
  unfolding perform lane_move
  gives_back t l s e r = ground (arith, l, s, e, r)

  takes :
      (t : CommandRequestQueue)
      → lane.jobs ≡ j ∷ rest
      → perform (lanes role proceed) (after_idle t) ≡ some (after_take t)
  unfolding perform lane_move take_job
  takes t s = ground (arith, lookup-insert_self role (record lane { stage = idle }) t.lanes, s)

  starts :
      (t : CommandRequestQueue)
      → get_elem? t.jobs j ≡ some next
      → next.ctx.own ≡ none
      → perform (lanes role full) (after_take t) ≡ some (after_start t)
  unfolding perform lane_move job_error
  starts t e n = ground (
    arith,
    lookup-insert_self role (record lane { jobs = rest; stage = starting j }) (after_idle t).lanes,
    e,
    n,
  )

  acquires :
      (t : CommandRequestQueue)
      → t.slots < t.workers
      → perform (lanes role proceed) (after_start t) ≡ some (after_acquire t)
  unfolding perform lane_move acquire_worker
  acquires t s = ground (
    arith,
    lookup-insert_self role (record lane { jobs = rest; stage = acquiring j }) (after_take t).lanes,
    s,
  )

  -- With a free worker, four moves of the lane bring its next job to the dispatcher.
  pub goes_on :
      IsBounded q
      → lookup role q.lanes ≡ some lane
      → lane.stage ≡ finishing i
      → lane.jobs ≡ j ∷ rest
      → get_elem? q.jobs i ≡ some a
      → a.sent ≡ true
      → i ≢ j
      → get_elem? q.jobs j ≡ some next
      → next.ctx.own ≡ none
      → q.slots < q.workers
      → (t : CommandRequestQueue) × ((perform_all
              (lanes role proceed ∷ lanes role proceed ∷ lanes role full ∷ lanes role proceed ∷ [])
              q
            ≡ some (after_acquire t))
          × (t.runs ≡ q.runs))
  goes_on w l s js e sent n g own free =
      let (t, r, z) = release_capacity-Released i a q w e sent in
      let f = release_capacity-frame i j a q t n r in
      let g₁ = gives_back t l s e r in
      let g₂ = takes t js in
      let g₃ = starts t (f.0 ∙ g) own in
      let g₄ = acquires t (ground (arith, f, free)) in (t, (ground (arith, g₁, g₂, g₃, g₄), f.1.0))
