-- ===== src/Store/Jobs/Held/Waiting.antt =====
-- The jobs that wait for a worker, while its claims and reports come in.
use mesh_vpn.Store.Jobs.{
  JobState, Jobs, claim_for_worker, has_id, is_for, is_queued, start, write_job,
}
use mesh_vpn.Store.Jobs.Held.{
  Ends, bit, found_held, held, how_many, how_many-keep, is_held, named, rewritten,
}
use mesh_vpn.Store.Jobs.Fifo.{claim-cases}
use mesh_vpn.Store.Errors.{err, no_queued_jobs, ok}
use mesh_vpn.Domain.{DeploymentJob}
use mesh_vpn.Text.{Text}
use mesh_vpn.Base.{
  ap, arith, false, inl, inr, length, refl, update_first-cases, ℕ, ◌+◌, ◌≡◌, ◌≤◌, ◌⊎◌, ◌∙◌,
}

abbrev pub waiting_for : Text → Jobs → ℕ
waiting_for worker r = how_many (is_for worker) r

-- A claim finds nothing where nothing waits, and takes one job of those that wait elsewhere.
pub claim_for_worker-waiting :
    (worker : Text) (now : ℕ) (r : Jobs)
    → let (out, r') = claim_for_worker now worker r in
      ((out ≡ err no_queued_jobs) × (r' ≡ r) × (waiting_for worker r ≡ 0))
      ⊎ ((job : DeploymentJob) × (out ≡ ok job)
          × (waiting_for worker r' + 1 ≡ waiting_for worker r))
unfolding claim_for_worker
claim_for_worker-waiting worker now r = elim (claim-cases (is_for worker) now r) [
  | inl (e, u) ↦
      rw u (inl (refl, refl, how_many-keep (is_for worker) r ∙ ap (length {A = JobState}) e))
  | inr (s, u) ↦ rw u (
      inr (
        (start now s.found).job,
        refl,
        omega (
          arith,
          rewritten (is_for worker) r s (start now s.found) (is_for worker),
          ap bit s.passes,
        ),
      ))
]

-- A job that is held does not wait.
not_waiting :
    (worker id : Text) (j : JobState) → bit (is_held worker id j) ≡ 1 → bit (is_for worker j) ≡ 0
unfolding is_held
not_waiting worker id j h = ground arith

left : (worker : Text) (j : JobState) → is_queued j.status ≡ false → bit (is_for worker j) ≡ 0
left worker j h = ground arith

pub write_job-waiting :
    (worker id : Text) (write : JobState → JobState) (r : Jobs)
    → Ends write
    → named id r ≤ 1
    → held worker id r ≡ 1
    → waiting_for worker (write_job id write r).1 ≡ waiting_for worker r
unfolding write_job
write_job-waiting worker id write r ends once one = elim (update_first-cases (has_id id) write r) [
  | inl (e, u) ↦ rw (u, write_job) refl
  | inr (s, u) ↦
      rw (u, write_job)
        (omega (
          arith,
          rewritten (has_id id) r s (write s.found) (is_for worker),
          not_waiting worker id s.found (found_held worker id r s once one),
          left worker (write s.found) (ends.leaves s.found),
        ))
]
