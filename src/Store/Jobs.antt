-- ===== src/Store/Jobs.antt =====
-- The job queue of control-plane/internal/store/jobs.go, `InMemoryJobRepository`. Each method holds the
-- mutex from its first line to its last, so a history is a sequence of calls. The clock is an argument.
pub mod Calls
pub mod Fifo
pub mod Held
pub mod Claims
use mesh_vpn.Base.{
  ℕ, Bool, true, false, ◌&&◌, Option, none, some, List, [], ◌∷◌, ◌++◌, if◌then◌else◌, update_first,
  first,
}
use mesh_vpn.Text.{Text, text_eq, is_empty}
use mesh_vpn.Domain.{DeploymentJob}
use mesh_vpn.Store.Errors.{no_queued_jobs, job_not_found, job_not_assignable, ok, err, Exec}

-- The values that `status` takes.
pub data JobStatus : Type 0 where
  queued running done failed : JobStatus

pub record JobState : Type 0 where
  pub job : DeploymentJob
  pub status : JobStatus
  pub last_error : Text
  pub finished_at : Option ℕ

abbrev pub Jobs : Type 0
Jobs = List JobState

abbrev pub is_queued : JobStatus → Bool
is_queued queued = true
is_queued _ = false

-- The tests of the loops.
abbrev pub is_waiting : JobState → Bool
is_waiting j = is_queued j.status

abbrev pub has_id : Text → JobState → Bool
has_id id j = text_eq j.job.job_id id

abbrev pub is_for : Text → JobState → Bool
is_for worker j = is_queued j.status && text_eq j.job.assigned_worker_id worker

abbrev pub is_unassigned : JobState → Bool
is_unassigned j = is_queued j.status && is_empty j.job.assigned_worker_id

-- The writes of the loops.
abbrev pub start : ℕ → JobState → JobState
start now j = record j { job = record j.job { assigned_at = some now }; status = running }

abbrev pub finish : ℕ → JobState → JobState
finish now j = record j { status = done; finished_at = some now }

abbrev pub fail : ℕ → Text → JobState → JobState
fail now text j = record j { status = failed; last_error = text; finished_at = some now }

abbrev pub assign : ℕ → Text → JobState → JobState
assign now worker j = record j {
  job = record j.job { assigned_worker_id = worker; assigned_at = some now };
}

abbrev pub release : JobState → JobState
release j = record j { job = record j.job { assigned_worker_id = []; assigned_at = none } }

unfoldable pub enqueue : DeploymentJob → Exec Jobs (Unit {0})
enqueue job r =
    (ok tt, r ++ record { job = job; status = queued; last_error = []; finished_at = none } ∷ [])

-- `for i := range r.jobs { if test { write; return r.jobs[i].job, nil } }; return missing`
unfoldable pub claim : (JobState → Bool) → ℕ → Exec Jobs DeploymentJob
unfolding update_first
claim test now r = elim (update_first test (start now) r) [
  | none ↦ (err no_queued_jobs, r)
  | some (j, r') ↦ (ok j.job, r')
]

unfoldable pub claim_next : ℕ → Exec Jobs DeploymentJob
unfolding claim
claim_next now = claim is_waiting now

unfoldable pub claim_for_worker : ℕ → Text → Exec Jobs DeploymentJob
unfolding claim
claim_for_worker now worker = claim (is_for worker) now

-- The loop of the methods that look a job up by its id and write to it.
unfoldable pub write_job : Text → (JobState → JobState) → Exec Jobs (Unit {0})
unfolding update_first
write_job id write r = elim (update_first (has_id id) write r) [
  | none ↦ (err (job_not_found id), r)
  | some (j, r') ↦ (ok tt, r')
]

unfoldable pub mark_done : ℕ → Text → Exec Jobs (Unit {0})
unfolding write_job
mark_done now id = write_job id (finish now)

unfoldable pub mark_failed : ℕ → Text → Text → Exec Jobs (Unit {0})
unfolding write_job
mark_failed now id text = write_job id (fail now text)

unfoldable pub release_from_worker : Text → Exec Jobs (Unit {0})
unfolding write_job
release_from_worker id = write_job id release

-- A job that is no longer queued cannot be assigned.
unfoldable pub assign_to_worker : ℕ → Text → Text → Exec Jobs (Unit {0})
unfolding write_job first
assign_to_worker now id worker r = elim (first (has_id id) r) [
  | none ↦ (err (job_not_found id), r)
  | some j ↦
      if is_queued j.status
      then write_job id (assign now worker) r
      else (err (job_not_assignable id), r)
]

unfoldable pub get_next_unassigned_job : Exec Jobs DeploymentJob
unfolding first
get_next_unassigned_job r = elim (first is_unassigned r) [
  | none ↦ (err no_queued_jobs, r)
  | some j ↦ (ok j.job, r)
]
