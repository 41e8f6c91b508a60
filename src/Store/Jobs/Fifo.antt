-- ===== src/Store/Jobs/Fifo.antt =====
-- The queue of waiting jobs: what claims take from it, and in which order.
use mesh_vpn.Base.{
  ℕ, ◌≡◌, ◌⊎◌, inl, inr, Bool, true, none, [], ◌∷◌, ◌++◌, arith, keep, keep-append, keep-at,
  SplitAt, update_first-cases, first-cases,
}
use mesh_vpn.Text.{Text}
use mesh_vpn.Domain.{DeploymentJob}
use mesh_vpn.Store.Errors.{no_queued_jobs, ok, err, Exec}
use mesh_vpn.Store.Jobs.{
  Jobs, JobState, queued, is_waiting, is_for, is_unassigned, start, claim, claim_next, enqueue,
  claim_for_worker, get_next_unassigned_job,
}

-- The queued jobs, oldest first.
abbrev pub waiting : Jobs → Jobs
waiting = keep is_waiting

-- An enqueued job goes to the end of the queue.
pub waiting-enqueue :
    (job : DeploymentJob) (r : Jobs)
    → waiting (enqueue job r).1
      ≡ waiting r ++ record { job = job; status = queued; last_error = []; finished_at = none } ∷ []
unfolding enqueue keep
waiting-enqueue job r = keep-append is_waiting r _

-- A claim fails and changes nothing, or it starts the first job that passes its test.
pub claim-cases :
    (test : JobState → Bool) (now : ℕ) (r : Jobs)
    → ((keep test r ≡ []) × (claim test now r ≡ (err no_queued_jobs, r)))
      ⊎ ((s : SplitAt test r) × (claim test now r
            ≡ (ok (start now s.found).job, s.before ++ start now s.found ∷ s.behind)))
unfolding claim
claim-cases test now r = elim (update_first-cases test (start now) r) [
  | inl (e, u) ↦ inl (e, rw (u, claim))
  | inr (s, u) ↦ inr (s, rw (u, claim))
]

-- The queue without a job that left it.
waiting-start :
    (now : ℕ) (before behind : Jobs) (j : JobState)
    → waiting (before ++ start now j ∷ behind) ≡ waiting before ++ waiting behind
unfolding keep
waiting-start now before behind j = rw (keep-append is_waiting before (start now j ∷ behind))

-- What a claim may return and leave: nothing is queued, or the first that is leaves the queue.
abbrev pub Pops : ℕ → Jobs → Exec Jobs DeploymentJob → Type 0
Pops now r m =
    ((waiting r ≡ []) × (m r ≡ (err no_queued_jobs, r)))
    ⊎ ((j : JobState) × (waiting r ≡ j ∷ waiting (m r).1) × ((m r).0 ≡ ok (start now j).job))

-- The queue is empty, and a claim fails and changes nothing; or the claim returns the oldest queued
-- job, stamped with the time, and takes it, and no other, off the queue.
pub claim_next-Pops : (now : ℕ) (r : Jobs) → Pops now r (claim_next now)
unfolding claim_next
claim_next-Pops now r = elim (claim-cases is_waiting now r) [
  | inl e ↦ inl e
  | inr (s, u) ↦ inr (
    s.found,
    rw (u, waiting-start now s.before s.behind s.found, s.none_before) (keep-at is_waiting r s),
    rw u,
  )
]

-- The jobs of the queue that are assigned to a worker, oldest first.
abbrev pub waiting_for : Text → Jobs → Jobs
waiting_for worker = keep (is_for worker)

is_for_waiting : (worker : Text) (j : JobState) → is_for worker j ≡ true → is_waiting j ≡ true
is_for_waiting worker j h = ground arith

-- What the claim of a worker may return and leave: no job of the queue is for it, or the first that
-- is leaves the queue, from between those before and those behind it.
abbrev pub PopsFor : Text → ℕ → Jobs → Exec Jobs DeploymentJob → Type 0
PopsFor worker now r m =
    ((waiting_for worker r ≡ []) × (m r ≡ (err no_queued_jobs, r)))
    ⊎ ((j : JobState) × (front : Jobs) × (back : Jobs) × (waiting_for worker r
          ≡ j ∷ waiting_for worker (m r).1)
        × (waiting r ≡ front ++ j ∷ back)
        × (waiting (m r).1 ≡ front ++ back)
        × ((m r).0 ≡ ok (start now j).job))

-- No queued job is assigned to the worker, and its claim fails and changes nothing; or the claim
-- returns the one of them that was enqueued first, and takes it, and no other, off the queue.
pub claim_for_worker-PopsFor :
    (now : ℕ) (worker : Text) (r : Jobs) → PopsFor worker now r (claim_for_worker now worker)
unfolding claim_for_worker keep
claim_for_worker-PopsFor now worker r = elim (claim-cases (is_for worker) now r) [
  | inl e ↦ inl e
  | inr (s, u) ↦ inr (
    s.found,
    waiting s.before,
    waiting s.behind,
    rw (u, keep-append (is_for worker) s.before (start now s.found ∷ s.behind), s.none_before)
        (keep-at (is_for worker) r s),
    rw (
      s.split,
      keep-append is_waiting s.before (s.found ∷ s.behind),
      is_for_waiting worker s.found s.passes,
    ),
    rw (u, waiting-start now s.before s.behind s.found),
    rw u,
  )
]

-- What a search for a job without a worker may return.
abbrev pub Finds : Jobs → Exec Jobs DeploymentJob → Type 0
Finds r m =
    ((keep is_unassigned r ≡ []) × (m r ≡ (err no_queued_jobs, r)))
    ⊎ ((s : SplitAt is_unassigned r) × (m r ≡ (ok s.found.job, r)))

-- Asking for the next unassigned job changes nothing; it answers with the oldest queued job that has
-- no worker, and fails only when there is none.
pub get_next_unassigned_job-Finds : (r : Jobs) → Finds r get_next_unassigned_job
unfolding get_next_unassigned_job
get_next_unassigned_job-Finds r = elim (first-cases is_unassigned r) [
  | inl (e, u) ↦ inl (e, rw (u, get_next_unassigned_job))
  | inr (s, u) ↦ inr (s, rw (u, get_next_unassigned_job))
]

pub get_next_unassigned_job-state : (r : Jobs) → (get_next_unassigned_job r).1 ≡ r
get_next_unassigned_job-state r = elim (get_next_unassigned_job-Finds r) [
  | inl (e, u) ↦ rw u
  | inr (s, u) ↦ rw u
]
