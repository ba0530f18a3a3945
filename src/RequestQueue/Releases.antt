-- ===== src/RequestQueue/Releases.antt =====
-- app/playersrv/request_queue.go: tokens and worker slots are given back once, and come back to
-- channels that hold them.
use globalmail.Prelude.{
  set_at, get_elem?-set_at, get_elem?-set_at_or, get_elem?-append_or, ℕ, suc, ◌+◌, ◌≤◌, ◌≡◌, ◌++◌,
  inl, inr, refl, true, false, none, some, List, [], ◌∷◌, get_elem?, arith, Bool-cases, ℕ-cases,
  sym, subst, ◌∙◌, ap, ltb,
}
use globalmail.Prelude.Int.{ℤ}
use globalmail.Commands.{CommandRequest}
use globalmail.RequestQueue.{
  CommandJob, DispatchRun, CommandRequestQueue, dispatching, admitted, entering,
}
use globalmail.RequestQueue.Calls.{release_capacity, admit, enter}
use globalmail.RequestQueue.Lanes.{release_worker, acquire_worker}
use globalmail.RequestQueue.Counts.{
  count, count-pos, count-append, count-set_at, holds_token, holds_slot,
}
use globalmail.RequestQueue.Bounded.{
  IsBounded, JobOk, IsSent, LaneOk-mono, append-IsSent, set_at-IsSent,
}

-- What a step leaves as it is: the room of a lane, and which jobs were sent.
pub record Keeps (q t : CommandRequestQueue) : Type 0 where
  pub room : t.role_queue_capacity ≡ q.role_queue_capacity
  pub sent : (role : ℤ) (i : ℕ) → IsSent role q.jobs i → IsSent role t.jobs i
  pub lanes : t.lanes ≡ q.lanes

pub Keeps-refl : (q : CommandRequestQueue) → Keeps q q
Keeps-refl q = record { room = refl; sent = λ role i h. h; lanes = refl }

drop_token-IsBounded :
    (i n : ℕ) (a : CommandJob) (q : CommandRequestQueue)
    → IsBounded q
    → get_elem? q.jobs i ≡ some a
    → a.sent ≡ true
    → a.released ≡ false
    → q.tokens ≡ suc n
    → let b = record a { released = true } in
      IsBounded (record q { tokens = n; jobs = set_at i b q.jobs })
drop_token-IsBounded i n a q w e s r z =
    let b : CommandJob = record a { released = true } in
    record {
      tokens_held = ground (arith, count-set_at holds_token i a b q.jobs e, w.tokens_held, s, r, z);
      tokens_capped = omega (arith, w.tokens_capped, z);
      slots_held = w.slots_held;
      slots_capped = w.slots_capped;
      jobs_ok = λ j c f. elim (get_elem?-set_at_or i j b c q.jobs f) [
        | inl g ↦ subst JobOk (sym g) (ground (arith, w.jobs_ok i a e, s))
        | inr g ↦ w.jobs_ok j c g
      ];
      lanes_ok = λ role lane f.
          LaneOk-mono role q.jobs (set_at i b q.jobs) q.role_queue_capacity lane
            (λ j. set_at-IsSent role i j a b q.jobs e refl (λ h. h)) (w.lanes_ok role lane f);
    }

abbrev pub Released : ℕ → CommandJob → CommandRequestQueue → CommandRequestQueue → Type 0
Released i a q t =
    IsBounded t × (Keeps q t × (get_elem? t.jobs i ≡ some (record a { released = true })))

-- Where the token of a job was sent, giving it back does not wait, and keeps the invariant.
pub release_capacity-Released :
    (i : ℕ) (a : CommandJob) (q : CommandRequestQueue)
    → IsBounded q
    → get_elem? q.jobs i ≡ some a
    → a.sent ≡ true
    → (t : CommandRequestQueue) × (release_capacity i a q ≡ some t) × Released i a q t
unfolding release_capacity
release_capacity-Released i a q w e s = elim (Bool-cases a.released) [
  | inl r ↦ (q, rw r refl, (w, (Keeps-refl q, e ∙ ap some (ground (arith, r)))))
  | inr r ↦ elim (ℕ-cases q.tokens) [
    | inl z ↦
        let p = count-pos holds_token i a q.jobs e (ground (arith, s, r)) in
        absurd (omega (arith, p, z, w.tokens_held))
    | inr (n, z) ↦
        let b : CommandJob = record a { released = true } in
        (
          record q { tokens = n; jobs = set_at i b q.jobs },
          ground (arith, r, z),
          (
            drop_token-IsBounded i n a q w e s r z,
            (
              record {
                room = refl;
                sent = λ role j. set_at-IsSent role i j a b q.jobs e refl (λ h. h);
                lanes = refl;
              },
              get_elem?-set_at i a b q.jobs e,
            ),
          ),
        )
  ]
]

-- A token that was taken counts as held.
pub admit-IsBounded :
    (i : ℕ) (a : CommandJob) (q t : CommandRequestQueue)
    → IsBounded q
    → get_elem? q.jobs i ≡ some a
    → a.sent ≡ false
    → a.released ≡ false
    → admit i a q ≡ some t
    → IsBounded t
unfolding admit
admit-IsBounded i a q t w e s r h = elim (Bool-cases (ltb q.tokens q.capacity)) [
  | inr z ↦ absurd (ground (arith, h, z))
  | inl z ↦
      let b : CommandJob = record a { sent = true; stage = admitted } in
      subst IsBounded (ground (arith, h, z)) (kept b z refl refl)
]
  where
    kept :
        (b : CommandJob)
        → ltb q.tokens q.capacity ≡ true
        → b ≡ record a { sent = true; stage = admitted }
        → b.stage ≡ admitted
        → IsBounded (record q { tokens = q.tokens + 1; jobs = set_at i b q.jobs })
    kept b z k l = record {
      tokens_held = ground (arith, count-set_at holds_token i a b q.jobs e, w.tokens_held, s, r, k);
      tokens_capped = ground (arith, z);
      slots_held = w.slots_held;
      slots_capped = w.slots_capped;
      jobs_ok = λ j c f. elim (get_elem?-set_at_or i j b c q.jobs f) [
        | inl g ↦ subst JobOk (sym (g ∙ k)) refl
        | inr g ↦ w.jobs_ok j c g
      ];
      lanes_ok = λ role lane f.
          LaneOk-mono role q.jobs (set_at i b q.jobs) q.role_queue_capacity lane
            (λ j.
              set_at-IsSent role i j a b q.jobs e (ap (λ (x : CommandJob). x.req) k)
                (λ h. ap (λ (x : CommandJob). x.sent) k))
            (w.lanes_ok role lane f);
    }

pub enter-IsBounded :
    (req : CommandRequest) (q : CommandRequestQueue) → IsBounded q → IsBounded (enter req q)
unfolding enter
enter-IsBounded req q w =
    let b : CommandJob = record {
      ctx = record { parent = none; own = none };
      req = req;
      result = none;
      sent = false;
      released = false;
      stage = entering;
    } in
    record {
      tokens_held = ground (arith, count-append holds_token q.jobs (b ∷ []), w.tokens_held);
      tokens_capped = w.tokens_capped;
      slots_held = w.slots_held;
      slots_capped = w.slots_capped;
      jobs_ok = λ j c f. elim (get_elem?-append_or j b c q.jobs f) [
        | inl g ↦ subst JobOk (sym g) (refl, refl)
        | inr g ↦ w.jobs_ok j c g
      ];
      lanes_ok = λ role lane f.
          LaneOk-mono role q.jobs (q.jobs ++ b ∷ []) q.role_queue_capacity lane
            (λ j. append-IsSent role j q.jobs (b ∷ [])) (w.lanes_ok role lane f);
    }

-- The runs change, and the slots with them.
runs-IsBounded :
    (n : ℕ) (runs : List DispatchRun) (q : CommandRequestQueue)
    → IsBounded q
    → n ≡ count holds_slot runs
    → n ≤ q.workers
    → IsBounded (record q { slots = n; runs = runs })
runs-IsBounded n runs q w h l = record {
  tokens_held = w.tokens_held;
  tokens_capped = w.tokens_capped;
  slots_held = h;
  slots_capped = l;
  jobs_ok = w.jobs_ok;
  lanes_ok = w.lanes_ok;
}

pub put_run-IsBounded :
    (k : ℕ) (a b : DispatchRun) (q : CommandRequestQueue)
    → IsBounded q
    → get_elem? q.runs k ≡ some a
    → b.slot_released ≡ a.slot_released
    → IsBounded (record q { runs = set_at k b q.runs })
put_run-IsBounded k a b q w e s =
    runs-IsBounded q.slots (set_at k b q.runs) q w
      (ground (arith, count-set_at holds_slot k a b q.runs e, w.slots_held, s)) w.slots_capped

pub acquire_worker-IsBounded :
    (q t : CommandRequestQueue) → IsBounded q → acquire_worker q ≡ some t → IsBounded t × Keeps q t
unfolding acquire_worker
acquire_worker-IsBounded q t w h = elim (Bool-cases (ltb q.slots q.workers)) [
  | inr z ↦ absurd (ground (arith, h, z))
  | inl z ↦
      let b : DispatchRun = record { result = none; slot_released = false; stage = dispatching } in
      subst (λ t. IsBounded t × Keeps q t) (ground (arith, h, z))
        (
          runs-IsBounded (q.slots + 1) (q.runs ++ b ∷ []) q w
              (ground (arith, count-append holds_slot q.runs (b ∷ []), w.slots_held))
              (ground (arith, z)),
          record { room = refl; sent = λ role i s. s; lanes = refl },
        )
]

abbrev pub ReleasedRun : ℕ → DispatchRun → CommandRequestQueue → CommandRequestQueue → Type 0
ReleasedRun k a q t =
    IsBounded t
    × (Keeps q t
        × ((t.jobs ≡ q.jobs) × (get_elem? t.runs k ≡ some (record a { slot_released = true }))))

-- Giving a worker slot back does not wait either.
pub release_worker-ReleasedRun :
    (k : ℕ) (a : DispatchRun) (q : CommandRequestQueue)
    → IsBounded q
    → get_elem? q.runs k ≡ some a
    → (t : CommandRequestQueue) × (release_worker k a q ≡ some t) × ReleasedRun k a q t
unfolding release_worker
release_worker-ReleasedRun k a q w e = elim (Bool-cases a.slot_released) [
  | inl r ↦ (q, rw r refl, (w, (Keeps-refl q, (refl, e ∙ ap some (ground (arith, r))))))
  | inr r ↦ elim (ℕ-cases q.slots) [
    | inl z ↦
        let p = count-pos holds_slot k a q.runs e (ground (arith, r)) in
        absurd (omega (arith, p, z, w.slots_held))
    | inr (n, z) ↦
        let b : DispatchRun = record a { slot_released = true } in
        (
          record q { slots = n; runs = set_at k b q.runs },
          ground (arith, r, z),
          (
            runs-IsBounded n (set_at k b q.runs) q w
                (ground (arith, count-set_at holds_slot k a b q.runs e, w.slots_held, r, z))
                (omega (arith, w.slots_capped, z)),
            (
              record { room = refl; sent = λ role i s. s; lanes = refl },
              (refl, get_elem?-set_at k a b q.runs e),
            ),
          ),
        )
  ]
]
