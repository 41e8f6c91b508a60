-- ===== src/Store/JobTable.antt =====
-- The table `deployment_jobs` and the statements of control-plane/internal/store/jobs.go on it,
-- `PostgresJobRepository`. `now` is the time of the statement, and `job_id` the primary key. The
-- payload is JSON of a job, and decodes to that job.
pub mod Oldest
pub mod Listed
pub mod Marked
use mesh_vpn.Domain.{DeploymentJob}
use mesh_vpn.Text.{Text, codes, is_empty, text_eq}
use mesh_vpn.Store.Jobs.{JobStatus, done, failed, is_queued, queued, running}
use mesh_vpn.Store.Errors.{
  Error, Exec, database, err, job_not_assignable, job_not_found, no_queued_jobs, ok,
}
use mesh_vpn.Base.{
  Bool, List, Option, [], false, first, keep, ltb, none, set_first, some, true, ℕ, ◌&&◌, ◌++◌, ◌+◌,
  ◌∷◌,
}
use mesh_vpn.Base.Sorting.{sort_by}

pub record JobRow : Type 0 where
  pub job_id : Text
  pub deployment_id : Text
  pub payload : DeploymentJob
  pub status : JobStatus
  pub attempts : ℕ
  pub last_error : Option Text
  pub queued_at : ℕ
  pub started_at : Option ℕ
  pub finished_at : Option ℕ
  pub assigned_worker_id : Option Text
  pub assigned_at : Option ℕ

abbrev pub JobTable : Type 0
JobTable = List JobRow

abbrev pub has_job_id : Text → JobRow → Bool
has_job_id id row = text_eq row.job_id id

abbrev pub new_row : DeploymentJob → JobRow
new_row job = record {
  job_id = job.job_id;
  deployment_id = job.deployment_id;
  payload = job;
  status = queued;
  attempts = 0;
  last_error = none;
  queued_at = job.queued_at;
  started_at = none;
  finished_at = none;
  assigned_worker_id = none;
  assigned_at = none;
}

abbrev pub duplicate_key : Error
duplicate_key = database (codes "duplicate key")

-- `INSERT INTO deployment_jobs`
unfoldable pub enqueue : DeploymentJob → Exec JobTable (Unit {0})
unfolding first
enqueue job rows = elim (first (has_job_id job.job_id) rows) [
  | none ↦ (ok tt, rows ++ new_row job ∷ [])
  | some row ↦ (err duplicate_key, rows)
]

-- `ORDER BY queued_at ASC`
abbrev pub older : JobRow → JobRow → Bool
older r s = ltb r.queued_at s.queued_at

abbrev pub started : ℕ → JobRow → JobRow
started now row = record row {
  status = running;
  started_at = some now;
  attempts = row.attempts + 1;
}

-- The job of a row, `RETURNING j.job_id, j.payload`.
abbrev pub job_of : JobRow → DeploymentJob
job_of row = record row.payload { job_id = row.job_id }

-- `WITH picked AS (SELECT ... WHERE test ORDER BY queued_at ASC LIMIT 1) UPDATE ...`
unfoldable pub claim : (JobRow → Bool) → ℕ → Exec JobTable DeploymentJob
unfolding sort_by keep set_first
claim test now rows = elim (sort_by older (keep test rows)) [
  | [] ↦ (err no_queued_jobs, rows)
  | row ∷ others ↦ (ok (job_of row), set_first (has_job_id row.job_id) (started now) rows)
]

abbrev pub is_waiting : JobRow → Bool
is_waiting row = is_queued row.status

-- `status = 'queued' AND assigned_worker_id = $1`
abbrev pub is_assigned : Text → Option Text → Bool
is_assigned worker none = false
is_assigned worker (some id) = text_eq id worker

abbrev pub is_for : Text → JobRow → Bool
is_for worker row = is_queued row.status && is_assigned worker row.assigned_worker_id

-- `status = 'queued' AND (assigned_worker_id IS NULL OR assigned_worker_id = '')`
abbrev pub is_free : Option Text → Bool
is_free none = true
is_free (some id) = is_empty id

abbrev pub is_unassigned : JobRow → Bool
is_unassigned row = is_queued row.status && is_free row.assigned_worker_id

-- `UPDATE deployment_jobs SET ... WHERE job_id = $1 AND test`, and the error for no affected row
unfoldable pub update_job :
    Text → (JobRow → Bool) → (JobRow → JobRow) → Error → Exec JobTable (Unit {0})
unfolding first set_first
update_job id test write e rows = elim (first (λ row. has_job_id id row && test row) rows) [
  | none ↦ (err e, rows)
  | some row ↦ (ok tt, set_first (λ row. has_job_id id row && test row) write rows)
]

abbrev pub always : JobRow → Bool
always row = true

unfoldable pub mark_done : ℕ → Text → Exec JobTable (Unit {0})
unfolding update_job
mark_done now id =
    update_job id always
      (λ row. record row { status = done; finished_at = some now; last_error = none })
      (job_not_found id)

unfoldable pub mark_failed : ℕ → Text → Text → Exec JobTable (Unit {0})
unfolding update_job
mark_failed now id text =
    update_job id always
      (λ row. record row { status = failed; finished_at = some now; last_error = some text })
      (job_not_found id)

abbrev pub assigned_to : ℕ → Text → JobRow → JobRow
assigned_to now worker row = record row { assigned_worker_id = some worker; assigned_at = some now }

unfoldable pub assign_to_worker : ℕ → Text → Text → Exec JobTable (Unit {0})
unfolding update_job
assign_to_worker now id worker =
    update_job id is_waiting (assigned_to now worker) (job_not_assignable id)

abbrev pub released : JobRow → JobRow
released row = record row { assigned_worker_id = none; assigned_at = none }

unfoldable pub release_from_worker : Text → Exec JobTable (Unit {0})
unfolding update_job
release_from_worker id = update_job id always released (job_not_found id)

unfoldable pub get_next_unassigned_job : Exec JobTable DeploymentJob
unfolding sort_by keep
get_next_unassigned_job rows = elim (sort_by older (keep is_unassigned rows)) [
  | [] ↦ (err no_queued_jobs, rows)
  | row ∷ others ↦ (ok (job_of row), rows)
]
