-- ===== src/RequestQueue/Bounded.antt =====
-- app/playersrv/request_queue.go: the invariant of the queue, and the steps that its moves share.
use globalmail.Prelude.{
  set_at, get_elem?-set_at_or, ℕ, zero, suc, ◌≤◌, ◌≡◌, ◌++◌, inl, inr, refl, Bool, true, false,
  some, List, [], ◌∷◌, get_elem?, arith, length, All, int_eq, Bool-cases, sym, subst, ap, ◌∙◌, ◌==◌,
}
use globalmail.Prelude.Int.{ℤ}
use globalmail.Prelude.Dict.{lookup, lookup-insert}
use globalmail.RequestQueue.{
  CommandJob, CallStage, LaneStage, CommandRoleLane, CommandRequestQueue, entering, answered, idle,
  command_role_id, stopped, starting, acquiring, finishing, running,
}
use globalmail.RequestQueue.Calls.{put_job, put_lane}
use globalmail.RequestQueue.Counts.{count, count-set_at, holds_token, holds_slot}

-- A token is sent before a job is placed, and not before the first select.
abbrev pub StageOk : CallStage → Bool → Bool → Type 0
StageOk entering sent released = (sent ≡ false) × (released ≡ false)
StageOk (answered _) sent released = Unit {0}
StageOk _ sent released = sent ≡ true

abbrev pub JobOk : CommandJob → Type 0
JobOk job = StageOk job.stage job.sent job.released

-- A job of the role, whose token was sent.
abbrev pub IsSent : ℤ → List CommandJob → ℕ → Type 0
IsSent role jobs i =
    (job : CommandJob) × (get_elem? jobs i ≡ some job)
    × ((job.sent ≡ true) × (command_role_id job.req ≡ role))

abbrev pub stage_jobs : LaneStage → List ℕ
stage_jobs idle = []
stage_jobs stopped = []
stage_jobs (starting i) = i ∷ []
stage_jobs (acquiring i) = i ∷ []
stage_jobs (finishing i) = i ∷ []
stage_jobs (running i k) = i ∷ []

abbrev pub LaneOk : ℤ → List CommandJob → ℕ → CommandRoleLane → Type 0
LaneOk role jobs room lane =
    (length lane.jobs ≤ room)
    × (All (IsSent role jobs) lane.jobs × All (IsSent role jobs) (stage_jobs lane.stage))

pub record IsBounded (q : CommandRequestQueue) : Type 0 where
  pub tokens_held : q.tokens ≡ count holds_token q.jobs
  pub tokens_capped : q.tokens ≤ q.capacity
  pub slots_held : q.slots ≡ count holds_slot q.runs
  pub slots_capped : q.slots ≤ q.workers
  pub jobs_ok : (i : ℕ) (job : CommandJob) → get_elem? q.jobs i ≡ some job → JobOk job
  pub lanes_ok :
      (role : ℤ) (lane : CommandRoleLane)
      → lookup role q.lanes ≡ some lane
      → LaneOk role q.jobs q.role_queue_capacity lane

-- A job that was sent stays sent, whatever else changes of it.
pub set_at-IsSent :
    (role : ℤ) (i j : ℕ) (a b : CommandJob) (jobs : List CommandJob)
    → get_elem? jobs i ≡ some a
    → b.req ≡ a.req
    → (a.sent ≡ true → b.sent ≡ true)
    → IsSent role jobs j
    → IsSent role (set_at i b jobs) j
set_at-IsSent role i j a b [] e q k s = s
set_at-IsSent role zero zero a b (x ∷ jobs) e q k (job, f, s) =
    (b, refl, (k (ground (arith, e, f, s)), ap command_role_id q ∙ ground (arith, e, f, s)))
set_at-IsSent role zero (suc j) a b (x ∷ jobs) e q k s = s
set_at-IsSent role (suc i) zero a b (x ∷ jobs) e q k s = s
set_at-IsSent role (suc i) (suc j) a b (x ∷ jobs) e q k s = set_at-IsSent role i j a b jobs e q k s

pub append-IsSent :
    (role : ℤ) (j : ℕ) (jobs more : List CommandJob)
    → IsSent role jobs j
    → IsSent role (jobs ++ more) j
append-IsSent role j [] more (job, e, s) = absurd (ground (arith, e))
append-IsSent role zero (x ∷ jobs) more s = s
append-IsSent role (suc j) (x ∷ jobs) more s = append-IsSent role j jobs more s

pub All-map : (P Q : ℕ → Type 0) (xs : List ℕ) → ((i : ℕ) → P i → Q i) → All P xs → All Q xs
All-map P Q [] f h = tt
All-map P Q (x ∷ xs) f h = (f x h.0, All-map P Q xs f h.1)

pub LaneOk-mono :
    (role : ℤ) (jobs more : List CommandJob) (room : ℕ) (lane : CommandRoleLane)
    → ((i : ℕ) → IsSent role jobs i → IsSent role more i)
    → LaneOk role jobs room lane
    → LaneOk role more room lane
LaneOk-mono role jobs more room lane f (l, st) = (
  l,
  (
    All-map (IsSent role jobs) (IsSent role more) lane.jobs f st.0,
    All-map (IsSent role jobs) (IsSent role more) (stage_jobs lane.stage) f st.1,
  ),
)

-- A job is changed, and keeps what it says of its token.
pub put_job-IsBounded :
    (i : ℕ) (a b : CommandJob) (q : CommandRequestQueue)
    → IsBounded q
    → get_elem? q.jobs i ≡ some a
    → b.sent ≡ a.sent
    → b.released ≡ a.released
    → b.req ≡ a.req
    → JobOk b
    → IsBounded (put_job i b q)
put_job-IsBounded i a b q w e s r p k = record {
  tokens_held = ground (arith, count-set_at holds_token i a b q.jobs e, w.tokens_held, s, r);
  tokens_capped = w.tokens_capped;
  slots_held = w.slots_held;
  slots_capped = w.slots_capped;
  jobs_ok = λ j c f. elim (get_elem?-set_at_or i j b c q.jobs f) [
    | inl g ↦ subst JobOk (sym g) k
    | inr g ↦ w.jobs_ok j c g
  ];
  lanes_ok = λ role lane f.
      LaneOk-mono role q.jobs (set_at i b q.jobs) q.role_queue_capacity lane
        (λ j. set_at-IsSent role i j a b q.jobs e p (λ h. s ∙ h)) (w.lanes_ok role lane f);
}

pub put_lane-IsBounded :
    (role : ℤ) (lane : CommandRoleLane) (q : CommandRequestQueue)
    → IsBounded q
    → LaneOk role q.jobs q.role_queue_capacity lane
    → IsBounded (put_lane role lane q)
put_lane-IsBounded role lane q w k = record {
  tokens_held = w.tokens_held;
  tokens_capped = w.tokens_capped;
  slots_held = w.slots_held;
  slots_capped = w.slots_capped;
  jobs_ok = w.jobs_ok;
  lanes_ok = λ j c f. elim (Bool-cases (role == j)) [
    | inl g ↦
        subst (LaneOk j q.jobs q.role_queue_capacity)
          (ground (arith, lookup-insert j role lane q.lanes, f, g))
          (subst (λ r. LaneOk r q.jobs q.role_queue_capacity lane) (ground (arith, g)) k)
    | inr g ↦ w.lanes_ok j c (ground (arith, lookup-insert j role lane q.lanes, f, g))
  ];
}
