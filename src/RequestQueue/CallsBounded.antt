-- ===== src/RequestQueue/CallsBounded.antt =====
-- app/playersrv/request_queue.go: the moves of Dispatch keep the invariant.
use globalmail.Prelude.{
  ℕ, ◌≡◌, ◌++◌, refl, true, none, some, List, [], ◌∷◌, get_elem?, arith, length-append, All-append,
  int_eq, Bool-cases, Option-cases, inl, inr, subst,
}
use globalmail.Prelude.Int.{ℤ}
use globalmail.Prelude.Dict.{lookup}
use globalmail.RequestQueue.{
  CommandResult, CommandJob, CallStage, CommandRoleLane, CommandRequestQueue, entering, admitted,
  placing, waiting, answered, command_role_id, result_response,
}
use globalmail.RequestQueue.Calls.{
  Choice, done, closed, proceed, full, Answer, put_lane, answer, give_up, leave, withdraw, the_lane,
  new_lane, lane_for, lane_has_room, place, receive, call_move,
}
use globalmail.RequestQueue.Bounded.{
  IsBounded, StageOk, IsSent, LaneOk, put_job-IsBounded, put_lane-IsBounded,
}
use globalmail.RequestQueue.Releases.{release_capacity-Released, admit-IsBounded}

new_lane-LaneOk : (role : ℤ) (jobs : List CommandJob) (room : ℕ) → LaneOk role jobs room new_lane
new_lane-LaneOk role jobs room = (omega arith, (tt, tt))

the_lane-LaneOk :
    (role : ℤ) (q : CommandRequestQueue)
    → IsBounded q
    → LaneOk role q.jobs q.role_queue_capacity (the_lane role q)
unfolding the_lane
the_lane-LaneOk role q w = elim (Option-cases (lookup role q.lanes)) [
  | inl e ↦
      let f : new_lane ≡ the_lane role q = ground (arith, e) in
      subst (LaneOk role q.jobs q.role_queue_capacity) f
        (new_lane-LaneOk role q.jobs q.role_queue_capacity)
  | inr (lane, e) ↦
      let f : lane ≡ the_lane role q = ground (arith, e) in
      subst (LaneOk role q.jobs q.role_queue_capacity) f (w.lanes_ok role lane e)
]

-- The answer to a job that is in the queue as `a`, and is left as `b`.
answer-IsBounded :
    (i : ℕ) (r : CommandResult) (a b : CommandJob) (q : CommandRequestQueue)
    → IsBounded q
    → get_elem? q.jobs i ≡ some a
    → b.sent ≡ a.sent
    → b.released ≡ a.released
    → b.req ≡ a.req
    → IsBounded (answer i r b q)
unfolding answer
answer-IsBounded i r a b q w e s k p = put_job-IsBounded i a _ q w e s k p tt

give_up-IsBounded :
    (i : ℕ) (r : CommandResult) (job : CommandJob) (q t : CommandRequestQueue)
    → IsBounded q
    → get_elem? q.jobs i ≡ some job
    → job.sent ≡ true
    → give_up i r job q ≡ some t
    → IsBounded t
unfolding give_up
give_up-IsBounded i r job q t w e s h =
    let b : CommandJob = record job { released = true } in
    let (u, k, z) = release_capacity-Released i job q w e s in
    subst IsBounded (ground (arith, h, k)) (answer-IsBounded i r b b u z.0 z.1.1 refl refl refl)

leave-IsBounded :
    (i : ℕ) (job : CommandJob) (a : Answer) (q t : CommandRequestQueue)
    → IsBounded q
    → get_elem? q.jobs i ≡ some job
    → leave i job q a ≡ some t
    → IsBounded t
leave-IsBounded i job none q t w e h = absurd (ground (arith, h))
leave-IsBounded i job (some a) q t w e h =
    subst IsBounded (ground (arith, h)) (answer-IsBounded i a job job q w e refl refl refl)

withdraw-IsBounded :
    (i : ℕ) (job : CommandJob) (a : Answer) (q t : CommandRequestQueue)
    → IsBounded q
    → get_elem? q.jobs i ≡ some job
    → job.sent ≡ true
    → withdraw i job q a ≡ some t
    → IsBounded t
withdraw-IsBounded i job none q t w e s h = absurd (ground (arith, h))
withdraw-IsBounded i job (some a) q t w e s h = give_up-IsBounded i a job q t w e s h

lane_for-IsBounded :
    (i : ℕ) (job : CommandJob) (q : CommandRequestQueue)
    → IsBounded q
    → get_elem? q.jobs i ≡ some job
    → job.sent ≡ true
    → IsBounded (lane_for i job q)
unfolding lane_for
lane_for-IsBounded i job q w e s =
    let role = command_role_id job.req in
    put_job-IsBounded i job (record job { stage = placing }) (put_lane role (the_lane role q) q)
      (put_lane-IsBounded role (the_lane role q) q w (the_lane-LaneOk role q w)) e refl refl refl s

place-IsBounded :
    (i : ℕ) (job : CommandJob) (q t : CommandRequestQueue)
    → IsBounded q
    → get_elem? q.jobs i ≡ some job
    → job.sent ≡ true
    → place i job q ≡ some t
    → IsBounded t
unfolding place lane_has_room
place-IsBounded i job q t w e s h = elim (Bool-cases (lane_has_room job q)) [
  | inr z ↦ absurd (ground (arith, h, z))
  | inl z ↦
      let role = command_role_id job.req in
      let lane = the_lane role q in
      let k = the_lane-LaneOk role q w in
      let longer : CommandRoleLane = record lane { jobs = lane.jobs ++ i ∷ [] } in
      subst IsBounded (ground (arith, h, z)) (
        put_job-IsBounded i job (record job { stage = waiting }) (put_lane role longer q)
          (put_lane-IsBounded role longer q w (
            ground (arith, z, length-append lane.jobs (i ∷ [])),
            (
              All-append (IsSent role q.jobs) lane.jobs (i ∷ []) k.1.0 ((job, e, (s, refl)), tt),
              k.1.1,
            ),
          ))
          e refl refl refl s)
]

receive-IsBounded :
    (i : ℕ) (job : CommandJob) (q t : CommandRequestQueue)
    → IsBounded q
    → get_elem? q.jobs i ≡ some job
    → receive i job q ≡ some t
    → IsBounded t
unfolding receive
receive-IsBounded i job q t w e h = elim (Option-cases job.result) [
  | inl z ↦ absurd (ground (arith, h, z))
  | inr (r, z) ↦ subst IsBounded (ground (arith, h, z)) (
      answer-IsBounded i (result_response r job.req) job (record job { result = none }) q w e refl
        refl refl)
]

-- A move of a call keeps the invariant.
pub call_move-IsBounded :
    (s : CallStage) (c : Choice) (i : ℕ) (job : CommandJob) (q t : CommandRequestQueue)
    → IsBounded q
    → get_elem? q.jobs i ≡ some job
    → StageOk s job.sent job.released
    → call_move s c i job q ≡ some t
    → IsBounded t
unfolding call_move
call_move-IsBounded entering done i job q t w e k h = leave-IsBounded i job _ q t w e h
call_move-IsBounded entering closed i job q t w e k h = leave-IsBounded i job _ q t w e h
call_move-IsBounded entering proceed i job q t w e k h = admit-IsBounded i job q t w e k.0 k.1 h
call_move-IsBounded entering full i job q t w e k h = leave-IsBounded i job _ q t w e h
call_move-IsBounded admitted done i job q t w e k h = absurd (ground (arith, h))
call_move-IsBounded admitted closed i job q t w e k h = absurd (ground (arith, h))
call_move-IsBounded admitted proceed i job q t w e k h =
    subst IsBounded (ground (arith, h)) (lane_for-IsBounded i job q w e k)
call_move-IsBounded admitted full i job q t w e k h = absurd (ground (arith, h))
call_move-IsBounded placing done i job q t w e k h = withdraw-IsBounded i job _ q t w e k h
call_move-IsBounded placing closed i job q t w e k h = withdraw-IsBounded i job _ q t w e k h
call_move-IsBounded placing proceed i job q t w e k h = place-IsBounded i job q t w e k h
call_move-IsBounded placing full i job q t w e k h = withdraw-IsBounded i job _ q t w e k h
call_move-IsBounded waiting done i job q t w e k h = withdraw-IsBounded i job _ q t w e k h
call_move-IsBounded waiting closed i job q t w e k h = withdraw-IsBounded i job _ q t w e k h
call_move-IsBounded waiting proceed i job q t w e k h = receive-IsBounded i job q t w e h
call_move-IsBounded waiting full i job q t w e k h = absurd (ground (arith, h))
call_move-IsBounded (answered a) c i job q t w e k h = absurd (ground (arith, h))
