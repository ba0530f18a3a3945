-- ===== src/RequestQueue/Attended.antt =====
-- app/playersrv/request_queue.go: which lane waits for a run of the dispatcher.
use globalmail.Prelude.{
  ◌⊎◌, ◌++◌, [], ◌∷◌, set_at, get_elem?-set_at_place, ℕ, ◌≡◌, ◌≢◌, refl, false, none, some,
  get_elem?, arith, int_eq, Bool-cases, Option-cases, inl, inr, subst, sym, ◌==◌, ltb, ℕ-cases,
}
use globalmail.Prelude.Int.{ℤ}
use globalmail.Prelude.Dict.{Dict, lookup, insert, lookup-insert}
use globalmail.RequestQueue.{
  DispatchRun, CommandJob, CallStage, CommandRoleLane, CommandRequestQueue, dispatching, running,
  entering, admitted, placing, waiting, answered, command_role_id,
}
use globalmail.RequestQueue.Calls.{
  Choice, done, closed, proceed, full, answer, release_capacity, give_up, leave, withdraw, admit,
  lane_for, the_lane, place, receive, call_move, Answer, lane_has_room, done_answer, closed_answer,
  full_answer,
}

-- A lane of the map waits for the run `k`.
abbrev pub Waited : Dict ℤ CommandRoleLane → ℕ → Type 0
Waited lanes k =
    (role : ℤ) × (lane : CommandRoleLane) × (i : ℕ) × ((lookup role lanes ≡ some lane)
      × (lane.stage ≡ running i k))

abbrev pub RunOk : Dict ℤ CommandRoleLane → ℕ → DispatchRun → Type 0
RunOk lanes k run =
    run.stage ≡ dispatching → (run.result ≡ none) × (run.slot_released ≡ false → Waited lanes k)

abbrev pub IsAttended : CommandRequestQueue → Type 0
IsAttended q = (k : ℕ) (run : DispatchRun) → get_elem? q.runs k ≡ some run → RunOk q.lanes k run

-- A lane is put in place of one that, if it waited for `k`, leaves that to the new one.
pub Waited-insert :
    (role : ℤ) (lane : CommandRoleLane) (lanes : Dict ℤ CommandRoleLane) (k : ℕ)
    → ((old : CommandRoleLane) (i : ℕ)
        → lookup role lanes ≡ some old
        → old.stage ≡ running i k
        → lane.stage ≡ running i k)
    → Waited lanes k
    → Waited (insert role lane lanes) k
Waited-insert role lane lanes k f (r, l, i, (e, s)) = elim (Bool-cases (role == r)) [
  | inl z ↦ (
    role,
    lane,
    i,
    (ground (arith, lookup-insert role role lane lanes, z), f l i (ground (arith, e, z)) s),
  )
  | inr z ↦ (r, l, i, (ground (arith, lookup-insert r role lane lanes, z, e), s))
]

-- What a step leaves alone that only changes jobs and tokens.
abbrev pub Same : CommandRequestQueue → CommandRequestQueue → Type 0
Same q u = (u.runs ≡ q.runs) × (u.lanes ≡ q.lanes)

pub kept-IsAttended :
    (q u : CommandRequestQueue)
    → IsAttended q
    → u.runs ≡ q.runs
    → ((k : ℕ) → Waited q.lanes k → Waited u.lanes k)
    → IsAttended u
kept-IsAttended q u w e f k run g d =
    let p = w k run (ground (arith, e, g)) d in (p.0, λ s. f k (p.1 s))

pub same-IsAttended : (q u : CommandRequestQueue) → IsAttended q → Same q u → IsAttended u
same-IsAttended q u w s = kept-IsAttended q u w s.0 λ k. subst (λ lanes. Waited lanes k) (sym s.1)

-- Of the runs, only the one numbered `k` is changed.
abbrev pub Changed : ℕ → DispatchRun → CommandRequestQueue → CommandRequestQueue → Type 0
Changed k b q u =
    (j : ℕ) (run : DispatchRun)
    → get_elem? u.runs j ≡ some run
    → ((j ≡ k) × (run ≡ b)) ⊎ ((j ≢ k) × (get_elem? q.runs j ≡ some run))

pub set_at-Changed :
    (k : ℕ) (b : DispatchRun) (q u : CommandRequestQueue)
    → u.runs ≡ set_at k b q.runs
    → Changed k b q u
set_at-Changed k b q u e j run g = get_elem?-set_at_place k j b run q.runs (ground (arith, e, g))

-- Only the lane of a run that changes may stop to wait.
pub run-IsAttended :
    (k : ℕ) (b : DispatchRun) (q u : CommandRequestQueue)
    → IsAttended q
    → Changed k b q u
    → ((j : ℕ) → j ≢ k → Waited q.lanes j → Waited u.lanes j)
    → RunOk u.lanes k b
    → IsAttended u
run-IsAttended k b q u w c f ok' j run g = elim (c j run g) [
  | inl p ↦ subst (RunOk u.lanes j) (sym p.1) (subst (λ n. RunOk u.lanes n b) (sym p.0) ok')
  | inr p ↦ λ d. let a = w j run p.1 d in (a.0, λ s. f j p.0 (a.1 s))
]

pub release_capacity-Same :
    (i : ℕ) (job : CommandJob) (q u : CommandRequestQueue)
    → release_capacity i job q ≡ some u
    → Same q u
unfolding release_capacity
release_capacity-Same i job q u h = elim (ℕ-cases q.tokens) [
  | inl z ↦ ground (arith, h, z)
  | inr (n, z) ↦ ground (arith, h, z)
]

give_up-Same :
    (i : ℕ) (a : CommandJob) (q u : CommandRequestQueue) (x : Answer)
    → withdraw i a q x ≡ some u
    → Same q u
unfolding give_up answer
give_up-Same i a q u none h = absurd (ground (arith, h))
give_up-Same i a q u (some x) h = elim (Option-cases (release_capacity i a q)) [
  | inl z ↦ absurd (ground (arith, h, z))
  | inr (t, z) ↦ let s = release_capacity-Same i a q t z in ground (arith, h, z, s)
]

-- The lane of a role is put back, made anew where there was none, and waits as it did.
lane-IsAttended :
    (role : ℤ) (lane : CommandRoleLane) (q u : CommandRequestQueue)
    → IsAttended q
    → u.runs ≡ q.runs
    → u.lanes ≡ insert role lane q.lanes
    → lane.stage ≡ (the_lane role q).stage
    → IsAttended u
unfolding the_lane
lane-IsAttended role lane q u w r l s = kept-IsAttended q u w r λ k x.
    subst (λ lanes. Waited lanes k) (sym l)
      (Waited-insert role lane q.lanes k (λ old i e f. ground (arith, s, e, f)) x)

leave-Same :
    (i : ℕ) (a : CommandJob) (q u : CommandRequestQueue) (x : Answer)
    → leave i a q x ≡ some u
    → Same q u
unfolding answer
leave-Same i a q u none h = absurd (ground (arith, h))
leave-Same i a q u (some x) h = ground (arith, h)

admit-Same : (i : ℕ) (a : CommandJob) (q u : CommandRequestQueue) → admit i a q ≡ some u → Same q u
unfolding admit
admit-Same i a q u h = ground (arith, h)

receive-Same :
    (i : ℕ) (a : CommandJob) (q u : CommandRequestQueue) → receive i a q ≡ some u → Same q u
unfolding receive answer
receive-Same i a q u h = elim (Option-cases a.result) [
  | inl z ↦ absurd (ground (arith, h, z))
  | inr (r, z) ↦ ground (arith, h, z)
]

place-IsAttended :
    (i : ℕ) (a : CommandJob) (q u : CommandRequestQueue)
    → IsAttended q
    → place i a q ≡ some u
    → IsAttended u
unfolding place
place-IsAttended i a q u w h =
    let role = command_role_id a.req in
    let lane : CommandRoleLane = record (the_lane role q) {
      jobs = (the_lane role q).jobs ++ i ∷ [];
    } in
    lane-IsAttended role lane q u w (ground (arith, h)) (ground (arith, h)) refl

pub call_move-IsAttended :
    (stage : CallStage) (c : Choice) (i : ℕ) (a : CommandJob) (q u : CommandRequestQueue)
    → IsAttended q
    → call_move stage c i a q ≡ some u
    → IsAttended u
unfolding call_move lane_for
call_move-IsAttended entering done i a q u w h =
    same-IsAttended q u w (leave-Same i a q u (done_answer a) h)
call_move-IsAttended entering closed i a q u w h =
    same-IsAttended q u w (leave-Same i a q u (closed_answer q) h)
call_move-IsAttended entering proceed i a q u w h = same-IsAttended q u w (admit-Same i a q u h)
call_move-IsAttended entering full i a q u w h =
    same-IsAttended q u w (leave-Same i a q u (full_answer (ltb q.tokens q.capacity) a q) h)
call_move-IsAttended admitted done i a q u w h = absurd (ground (arith, h))
call_move-IsAttended admitted closed i a q u w h = absurd (ground (arith, h))
call_move-IsAttended admitted proceed i a q u w h =
    let role = command_role_id a.req in
    lane-IsAttended role (the_lane role q) q u w (ground (arith, h)) (ground (arith, h)) refl
call_move-IsAttended admitted full i a q u w h = absurd (ground (arith, h))
call_move-IsAttended placing done i a q u w h =
    same-IsAttended q u w (give_up-Same i a q u (done_answer a) h)
call_move-IsAttended placing closed i a q u w h =
    same-IsAttended q u w (give_up-Same i a q u (closed_answer q) h)
call_move-IsAttended placing proceed i a q u w h = place-IsAttended i a q u w h
call_move-IsAttended placing full i a q u w h =
    same-IsAttended q u w (give_up-Same i a q u (full_answer (lane_has_room a q) a q) h)
call_move-IsAttended waiting done i a q u w h =
    same-IsAttended q u w (give_up-Same i a q u (done_answer a) h)
call_move-IsAttended waiting closed i a q u w h =
    same-IsAttended q u w (give_up-Same i a q u (closed_answer q) h)
call_move-IsAttended waiting proceed i a q u w h = same-IsAttended q u w (receive-Same i a q u h)
call_move-IsAttended waiting full i a q u w h = absurd (ground (arith, h))
call_move-IsAttended (answered x) c i a q u w h = absurd (ground (arith, h))
