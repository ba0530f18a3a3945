-- ===== src/RequestQueue/Waiting.antt =====
-- app/playersrv/request_queue.go: steps of a lane, and what they leave of the runs and of the lanes
-- that wait for them.
use globalmail.Prelude.{
  and_then-some, ℕ, ◌≡◌, ◌≢◌, true, Option, none, nat_eq, some, get_elem?, arith, int_eq,
  Bool-cases, Option-cases, inl, inr, subst, sym, ◌==◌, ℕ-cases,
}
use globalmail.Prelude.Int.{ℤ}
use globalmail.Prelude.Dict.{lookup, insert}
use globalmail.RequestQueue.{
  CommandResult, DispatchRun, CommandJob, CommandRoleLane, CommandRequestQueue, running, finishing,
}
use globalmail.RequestQueue.Calls.{put_lane, put_job}
use globalmail.RequestQueue.Lanes.{deliver, finish, release_worker}
use globalmail.RequestQueue.Attended.{
  Waited, Waited-insert, RunOk, IsAttended, Same, Changed, set_at-Changed, run-IsAttended,
  kept-IsAttended,
}

deliver-Same :
    (i : ℕ) (r : CommandResult) (q t : CommandRequestQueue) → deliver i r q ≡ some t → Same q t
unfolding deliver
deliver-Same i r q t h =
    let deliver_job : CommandJob → Option CommandRequestQueue = λ job. elim job.result [
      | some _ ↦ none
      | none ↦ some (put_job i (record job { result = some r }) q)
    ] in
    let (job, e, f) = and_then-some (get_elem? q.jobs i) deliver_job t h in
    elim (Option-cases job.result) [
      | inr (x, z) ↦ absurd (ground (arith, f, z))
      | inl z ↦ ground (arith, f, z)
    ]

-- Only the slot of one run changes.
pub release_worker-Changed :
    (k : ℕ) (run : DispatchRun) (q t : CommandRequestQueue)
    → get_elem? q.runs k ≡ some run
    → release_worker k run q ≡ some t
    → Changed k (record run { slot_released = true }) q t × (t.lanes ≡ q.lanes)
unfolding release_worker
release_worker-Changed k run q t g h = elim (Bool-cases run.slot_released) [
  | inl r ↦ (
    λ j x e. elim (Bool-cases (j == k)) [
      | inl z ↦ inl (ground (arith, z), ground (arith, z, e, h, g, r))
      | inr z ↦ inr (ground (arith, z), ground (arith, e, h, r))
    ],
    ground (arith, h, r),
  )
  | inr r ↦ elim (ℕ-cases q.slots) [
    | inl z ↦ absurd (ground (arith, h, r, z))
    | inr (n, z) ↦ (
      set_at-Changed k (record run { slot_released = true }) q t (ground (arith, h, r, z)),
      ground (arith, h, r, z),
    )
  ]
]

module _ (role : ℤ) (lane : CommandRoleLane) where
  pub finish-insert :
      (i : ℕ) (r : CommandResult) (q u : CommandRequestQueue)
      → finish role lane i r q ≡ some u
      → (u.runs ≡ q.runs) × (u.lanes ≡ insert role (record lane { stage = finishing i }) q.lanes)
  unfolding finish
  finish-insert i r q u h =
      let put : CommandRequestQueue → Option CommandRequestQueue =
        λ v. some (put_lane role (record lane { stage = finishing i }) v) in
      let (v, e, f) = and_then-some (deliver i r q) put u h in
      let s = deliver-Same i r q v e in ground (arith, f, s)

  module _ (q u : CommandRequestQueue) (w : IsAttended q)
      (at_role : lookup role q.lanes ≡ some lane) where
    -- A lane that waits for no run goes on.
    pub staged-IsAttended :
        (after : CommandRoleLane)
        → ((i k : ℕ) → lane.stage ≢ running i k)
        → u.runs ≡ q.runs
        → u.lanes ≡ insert role after q.lanes
        → IsAttended u
    staged-IsAttended after n r l = kept-IsAttended q u w r λ k x.
        subst (λ lanes. Waited lanes k) (sym l)
          (Waited-insert role after q.lanes k
            (λ old i e f. absurd (n i k (ground (arith, e, f, at_role)))) x)

    -- A lane that waits for the run `k` goes on without it.
    pub left-IsAttended :
        (i k : ℕ) (after : CommandRoleLane) (b : DispatchRun)
        → lane.stage ≡ running i k
        → Changed k b q u
        → u.lanes ≡ insert role after q.lanes
        → RunOk u.lanes k b
        → IsAttended u
    left-IsAttended i k after b s c l ok' =
        run-IsAttended k b q u w c
          (λ j n x.
            subst (λ lanes. Waited lanes j) (sym l)
              (Waited-insert role after q.lanes j
                (λ old i' e f. absurd (n (ground (arith, e, f, at_role, s)))) x))
          ok'
