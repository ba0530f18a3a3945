-- ===== src/RequestQueue/Progress.antt =====
-- app/playersrv/request_queue.go: a call of Dispatch returns when its context is done.
use globalmail.Prelude.{
  get_elem?-set_at, and_then, ℕ, ◌≡◌, ◌⊎◌, inl, inr, refl, Option, some, List, [], ◌∷◌, get_elem?,
  arith, int_eq, true,
}
use globalmail.RequestQueue.{
  ContextError, CommandResult, CommandJob, CallStage, CommandQueueOptions, CommandRequestQueue,
  entering, admitted, placing, waiting, answered, new_command_request_queue, context_done_response,
}
use globalmail.RequestQueue.Calls.{
  Choice, done, proceed, answer, give_up, lane_for, call_move, done_answer,
}
use globalmail.RequestQueue.Lanes.{calls, perform, Reach}
use globalmail.RequestQueue.Bounded.{IsBounded}
use globalmail.RequestQueue.Releases.{release_capacity-Released}
use globalmail.RequestQueue.Runs.{perform-IsBounded, Reach-IsBounded}

-- The moves of one call, one after the other.
unfoldable pub call_moves : ℕ → List Choice → CommandRequestQueue → Option CommandRequestQueue
unfolding perform
call_moves i [] q = some q
call_moves i (c ∷ cs) q = and_then (perform (calls i c) q) (call_moves i cs)

abbrev pub HasAnswered : ℕ → CommandRequestQueue → Type 0
HasAnswered i q =
    (job : CommandJob) × (r : CommandResult) × ((get_elem? q.jobs i ≡ some job)
      × (job.stage ≡ answered r))

abbrev pub IsOpen : CallStage → Type 0
IsOpen stage = (stage ≡ entering) ⊎ ((stage ≡ admitted) ⊎ ((stage ≡ placing) ⊎ (stage ≡ waiting)))

answer-HasAnswered :
    (i : ℕ) (r : CommandResult) (a job : CommandJob) (q : CommandRequestQueue)
    → get_elem? q.jobs i ≡ some a
    → HasAnswered i (answer i r job q)
unfolding answer
answer-HasAnswered i r a job q e = (_, r, (get_elem?-set_at i a _ q.jobs e, refl))

module _ (i : ℕ) (job : CommandJob) (q : CommandRequestQueue) (w : IsBounded q)
    (e : get_elem? q.jobs i ≡ some job) where
  leave_done :
      (x : ContextError)
      → job.ctx.own ≡ some x
      → job.stage ≡ entering
      → (u : CommandRequestQueue) × ((perform (calls i done) q ≡ some u) × HasAnswered i u)
  unfolding perform call_move done_answer
  leave_done x d s =
      let r = context_done_response job.ctx.parent x job.req in
      (answer i r job q, (ground (arith, e, d, s), answer-HasAnswered i r job job q e))

  withdraw_done :
      (x : ContextError)
      → job.ctx.own ≡ some x
      → (job.stage ≡ placing) ⊎ (job.stage ≡ waiting)
      → job.sent ≡ true
      → (u : CommandRequestQueue) × ((perform (calls i done) q ≡ some u) × HasAnswered i u)
  unfolding perform call_move done_answer give_up
  withdraw_done x d s k =
      let b : CommandJob = record job { released = true } in
      let r = context_done_response job.ctx.parent x job.req in
      let (t, f, z) = release_capacity-Released i job q w e k in
      (answer i r b t, (ground (arith, e, d, s, f), answer-HasAnswered i r b b t z.1.1))

  -- The lane is found, and the call stands before its second select.
  place_next :
      job.stage ≡ admitted
      → let b : CommandJob = record job { stage = placing } in
        (perform (calls i proceed) q ≡ some (lane_for i job q))
        × (get_elem? (lane_for i job q).jobs i ≡ some b)
  unfolding perform call_move lane_for
  place_next s = (ground (arith, e, s), get_elem?-set_at i job _ q.jobs e)

  one_move :
      (u : CommandRequestQueue)
      → perform (calls i done) q ≡ some u
      → HasAnswered i u
      → (cs : List Choice) × (u : CommandRequestQueue) × ((call_moves i cs q ≡ some u)
          × HasAnswered i u)
  unfolding call_moves
  one_move u f a = (done ∷ [], u, (ground (arith, f), a))

two_moves :
    (i : ℕ) (q t u : CommandRequestQueue)
    → perform (calls i proceed) q ≡ some t
    → perform (calls i done) t ≡ some u
    → HasAnswered i u
    → (cs : List Choice) × (u : CommandRequestQueue) × ((call_moves i cs q ≡ some u)
        × HasAnswered i u)
unfolding call_moves
two_moves i q t u f g a = (proceed ∷ done ∷ [], u, (ground (arith, f, g), a))

-- In every state that the goroutines reach: a call that is under way and whose context is done has
-- moves of its own, one after the other and with no move of another goroutine between, after which
-- it has returned.
pub done_call_returns :
    (opts : CommandQueueOptions) (q : CommandRequestQueue) (i : ℕ) (job : CommandJob)
    (x : ContextError)
    → Reach (new_command_request_queue opts) q
    → get_elem? q.jobs i ≡ some job
    → job.ctx.own ≡ some x
    → IsOpen job.stage
    → (cs : List Choice) × (u : CommandRequestQueue) × ((call_moves i cs q ≡ some u)
        × HasAnswered i u)
done_call_returns opts q i job x r e d o =
    let w = Reach-IsBounded opts q r in
    let sent = w.jobs_ok i job e in
    elim o [
      | inl s ↦ let (u, (f, a)) = leave_done i job q w e x d s in one_move i job q w e u f a
      | inr (inl s) ↦
          let b : CommandJob = record job { stage = placing } in
          let t = lane_for i job q in
          let (f, g) = place_next i job q w e s in
          let k : job.sent ≡ true = ground (arith, sent, s) in
          let (u, (h, a)) =
            withdraw_done i b t (perform-IsBounded (calls i proceed) q t w f) g x d (inl refl) k in
          two_moves i q t u f h a
      | inr (inr s) ↦
          let k : job.sent ≡ true = ground (arith, sent, s) in
          let (u, (f, a)) = withdraw_done i job q w e x d s k in one_move i job q w e u f a
    ]
