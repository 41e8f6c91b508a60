-- ===== src/Store/Jobs/Claims.antt =====
-- No job is handed out twice: the methods of the queue never make a job wait again.
use mesh_vpn.Base.{
  ℕ, ◌+◌, ◌≤◌, ◌≡◌, ap, inl, inr, Bool, true, ◌&&◌, List, [], ◌∷◌, ◌++◌, arith, if◌then◌else◌,
  update_first-cases, Bool-cases, first-cases, none,
}
use mesh_vpn.Text.{Text, text_eq}
use mesh_vpn.Store.Jobs.{
  Jobs, JobState, is_waiting, claim, enqueue, has_id, start, write_job, assign, assign_to_worker,
  claim_for_worker, claim_next, fail, finish, is_for, is_queued, mark_done, mark_failed, queued,
  release, release_from_worker,
}
use mesh_vpn.Store.Jobs.Calls.{
  times, Call, asks, assigns, claimed_id, claims, claims_for, enqueued_by, enqueues, handed_out,
  marks_done, marks_failed, releases, step, History, all_enqueued, all_handed_out, run,
}
use mesh_vpn.Store.Jobs.Fifo.{claim-cases, get_next_unassigned_job-state}

-- 1 for a queued job with the id, and 0 for any other.
unfoldable pub weight : Text → JobState → ℕ
weight id j = if is_waiting j && text_eq j.job.job_id id then 1 else 0

-- How many queued jobs have the id.
unfoldable pub pending : Text → Jobs → ℕ
pending id [] = 0
pending id (j ∷ r) = weight id j + pending id r

pending-append : (id : Text) (r s : Jobs) → pending id (r ++ s) ≡ pending id r + pending id s
unfolding pending
pending-append id [] s = omega arith
pending-append id (j ∷ r) s = omega (arith, pending-append id r s)

times-append : (id : Text) (xs ys : List Text) → times id (xs ++ ys) ≡ times id xs + times id ys
unfolding times
times-append id [] ys = omega arith
times-append id (x ∷ xs) ys = omega (arith, times-append id xs ys)

pending_at :
    (id : Text) (before behind : Jobs) (j : JobState)
    → pending id (before ++ j ∷ behind) ≡ pending id before + (weight id j + pending id behind)
unfolding pending
pending_at id before behind j = pending-append id before (j ∷ behind)

weight-start :
    (id : Text) (now : ℕ) (j : JobState)
    → is_waiting j ≡ true
    → times id ((start now j).job.job_id ∷ []) + weight id (start now j) ≤ weight id j
unfolding weight times
weight-start id now j h = ground arith

-- A claim hands out a job that no longer waits.
claim-pending :
    (id : Text) (test : JobState → Bool) (now : ℕ) (r : Jobs)
    → ((j : JobState) → test j ≡ true → is_waiting j ≡ true)
    → times id (claimed_id (claim test now r).0) + pending id (claim test now r).1 ≤ pending id r
unfolding times
claim-pending id test now r waits = elim (claim-cases test now r) [
  | inl (e, u) ↦ rw u (omega arith)
  | inr (s, u) ↦ rw u (
      omega (
        arith,
        ap (pending id) s.split,
        pending_at id s.before s.behind s.found,
        pending_at id s.before s.behind (start now s.found),
        weight-start id now s.found (waits s.found s.passes),
      ))
]

-- A write that makes no job wait again leaves no more jobs waiting.
write_job-pending :
    (id key : Text) (write : JobState → JobState) (r : Jobs)
    → ((j : JobState) → weight id (write j) ≤ weight id j)
    → pending id (write_job key write r).1 ≤ pending id r
unfolding write_job pending
write_job-pending id key write r falls = elim (update_first-cases (has_id key) write r) [
  | inl (e, u) ↦ rw (u, write_job) (omega arith)
  | inr (s, u) ↦
      rw (u, write_job)
        (omega (
          arith,
          ap (pending id) s.split,
          pending_at id s.before s.behind s.found,
          pending_at id s.before s.behind (write s.found),
          falls s.found,
        ))
]

-- The writes of the methods, at a job.
weight-finish : (id : Text) (now : ℕ) (j : JobState) → weight id (finish now j) ≤ weight id j
unfolding weight
weight-finish id now j = omega arith

weight-fail :
    (id : Text) (now : ℕ) (text : Text) (j : JobState) → weight id (fail now text j) ≤ weight id j
unfolding weight
weight-fail id now text j = omega arith

assign_to_worker-pending :
    (id : Text) (now : ℕ) (key worker : Text) (r : Jobs)
    → pending id (assign_to_worker now key worker r).1 ≤ pending id r
unfolding assign_to_worker
assign_to_worker-pending id now key worker r = elim (first-cases (has_id key) r) [
  | inl (e, u) ↦ rw (u, assign_to_worker) (omega arith)
  | inr (s, u) ↦
      rw (u, assign_to_worker)
        (elim (Bool-cases (is_queued s.found.status)) [
          | inl e ↦
              rw e
                (write_job-pending id key (assign now worker) r (λ j. unfold weight in omega arith))
          | inr e ↦ rw e (omega arith)
        ])
]

-- A call hands out and leaves waiting no more jobs than waited before it or than it enqueued.
step-pending :
    (id : Text) (now : ℕ) (c : Call) (r : Jobs)
    → times id (handed_out now c r) + pending id (step now c r)
      ≤ pending id r + times id (enqueued_by c)
unfolding step handed_out times claim_next claim_for_worker mark_done mark_failed
    release_from_worker
step-pending id now (enqueues job) r =
    unfold enqueue weight pending in
    omega (
      arith,
      pending-append id r
          (record { job = job; status = queued; last_error = []; finished_at = none } ∷ []),
    )
step-pending id now claims r = omega (arith, claim-pending id is_waiting now r (λ j h. h))
step-pending id now asks r = rw get_next_unassigned_job-state (omega arith)
step-pending id now (claims_for worker) r =
    omega (arith, claim-pending id (is_for worker) now r (λ j h. ground arith))
step-pending id now (marks_done key) r =
    omega (arith, write_job-pending id key (finish now) r (weight-finish id now))
step-pending id now (releases key) r =
    omega (arith, write_job-pending id key release r (λ j. unfold weight in omega arith))
step-pending id now (marks_failed key text) r =
    omega (arith, write_job-pending id key (fail now text) r (weight-fail id now text))
step-pending id now (assigns key worker) r =
    omega (arith, assign_to_worker-pending id now key worker r)

run-pending :
    (id : Text) (r : Jobs) (cs : History)
    → times id (all_handed_out r cs) + pending id (run r cs)
      ≤ pending id r + times id (all_enqueued cs)
unfolding run all_handed_out all_enqueued times
run-pending id r [] = omega arith
run-pending id r ((now, c) ∷ cs) = omega (
  arith,
  times-append id (handed_out now c r) (all_handed_out (step now c r) cs),
  times-append id (enqueued_by c) (all_enqueued cs),
  step-pending id now c r,
  run-pending id (step now c r) cs,
)

-- From an empty queue, and whatever calls are made, in any order and by any workers: an id is handed
-- out, to all workers together, at most as often as a job with that id was enqueued. So a job that
-- is enqueued once is claimed by one worker at most.
pub handed_out_at_most_once :
    (id : Text) (cs : History) → times id (all_handed_out [] cs) ≤ times id (all_enqueued cs)
handed_out_at_most_once id cs = unfold pending in omega (arith, run-pending id [] cs)
