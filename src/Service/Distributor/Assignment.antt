-- ===== src/Service/Distributor/Assignment.antt =====
-- What `distributeJobs` of control-plane/internal/service/distributor.go leaves in a database that does
-- not fail.
use mesh_vpn.Store.DeploymentTable
use mesh_vpn.Store.Database.{job_repository, deployment_repository}
use mesh_vpn.Store.JobTable
use mesh_vpn.Store.Workers
use mesh_vpn.Store.Errors.{Result, err, ok}
use mesh_vpn.Domain.{Worker, DeploymentJob, DeploymentRecord}
use mesh_vpn.Text.{Text}
use mesh_vpn.Store.JobTable.{JobTable, assigned_to, has_job_id, job_of}
use mesh_vpn.Store.Database.{Database, worker_repository}
use mesh_vpn.Store.Workers.{Workers, has_worker_id, increment, newer}
use mesh_vpn.Store.Database.Calm.{statement_calm, statement-deployments_aside}
use mesh_vpn.Store.Workers.Lookup.{IsKnown, update_worker-IsKnown}
use mesh_vpn.Store.JobTable.Oldest.{Next, assign_to_worker-Next, get_next_unassigned_job-Next}
use mesh_vpn.Base.{[], inl, inr, refl, set_first, subst, sym, ℕ, ◌&&◌, ◌≡◌, ◌⊎◌, ap, some, ◌∙◌}
use mesh_vpn.Service.Placement.{Settings, select_worker}
use mesh_vpn.Service.Placement.Eligible.{CanTake, OnWorker, select_worker-CanTake}
use mesh_vpn.Service.Placement.Chosen.{select_worker-Returns}
use mesh_vpn.Service.Distributor.{
  after_assignment, after_increment, after_selection, log_placement_diagnostics, update_assignment,
  after_next, assigned_record, distribute_jobs, note_assignment,
}
use mesh_vpn.Store.DeploymentTable.{DeploymentTable, upsert}
use mesh_vpn.Service.Distributor.Known.{OnAssignable, get-IsKnown, list-IsKnown}

-- The oldest queued row without a worker is assigned to a worker that can take a job, and counted
-- there.
pub record IsAssigned (now : ℕ) (before after : Database) : Type 0 where
  pub next : Next before.jobs
  pub worker : Worker
  pub can_take : CanTake worker
  pub known : IsKnown before.workers worker
  pub assigned :
      after.jobs
      ≡ set_first
          (λ r. has_job_id next.row.job_id r && JobTable.is_waiting r)
          (assigned_to now worker.worker_id)
          before.jobs
  pub counted :
      after.workers ≡ set_first (has_worker_id worker.worker_id) (increment now) before.workers

-- Nothing changes, or a job is assigned.
abbrev pub Distributes : ℕ → Database → Database → Type 0
Distributes now before after = (after ≡ before) ⊎ IsAssigned now before after

module _ (db : Database) (calm : db.faults ≡ []) where
  abbrev next_after : ℕ → Next db.jobs → Worker → JobTable.JobTable
  next_after now next w =
      set_first (λ r. has_job_id next.row.job_id r && JobTable.is_waiting r)
        (assigned_to now w.worker_id) db.jobs

  abbrev workers_after : ℕ → Worker → Workers.Workers
  workers_after now w = set_first (has_worker_id w.worker_id) (increment now) db.workers

  module _ (d : Settings) (now : ℕ) (next : Next db.jobs) where
    abbrev job : DeploymentJob
    job = job_of next.row

    assigns :
        (w : Worker)
        → job_repository.assign_to_worker now job.job_id w.worker_id db
          ≡ (ok tt, record db { jobs = next_after now next w })
    assigns w =
        statement_calm _ db calm
        ∙ ap (λ r. (r.0, record db { jobs = r.1 }))
            (assign_to_worker-Next now w.worker_id db.jobs next)

    counts :
        (w : Worker)
        → IsKnown db.workers w
        → worker_repository.increment_job_count now w.worker_id
            (record db { jobs = next_after now next w })
          ≡ (ok tt, record db { jobs = next_after now next w; workers = workers_after now w })
    unfolding Workers.increment_job_count
    counts w h =
        statement_calm _ (record db { jobs = next_after now next w }) calm
        ∙ ap (λ r. (r.0, record db { jobs = next_after now next w; workers = r.1 }))
            (update_worker-IsKnown w (increment now) db.workers h)

    note_aside :
        (id : Text) (r : Result DeploymentRecord) (s : Database)
        → let after =
            (note_assignment job_repository worker_repository
              (some deployment_repository)
              d
              deployment_repository
              id
              r
              s).1 in
          (after.jobs ≡ s.jobs) × (after.workers ≡ s.workers)
    note_aside id (err e) s = (refl, refl)
    note_aside id (ok rec) s =
        statement-deployments_aside (λ users. upsert users (assigned_record id rec)) s

    update_aside :
        (w : Worker) (s : Database)
        → let after =
            (update_assignment job_repository worker_repository
              (some deployment_repository)
              d
              (some deployment_repository)
              job
              w
              s).1 in
          (after.jobs ≡ s.jobs) × (after.workers ≡ s.workers)
    unfolding update_assignment
    update_aside w s =
        let read = deployment_repository.get job.deployment_id s in
        let read_aside =
          statement-deployments_aside (λ users. DeploymentTable.get job.deployment_id) s in
        let written_aside = note_aside w.worker_id read.0 read.1 in
        (written_aside.0 ∙ read_aside.0, written_aside.1 ∙ read_aside.1)

    selected :
        (r : Result Worker)
        → OnWorker CanTake r
        → OnAssignable db r
        → Distributes now db
            (after_selection job_repository worker_repository
              (some deployment_repository)
              d
              now
              job
              r
              db).1
    unfolding after_selection after_assignment after_increment log_placement_diagnostics
    selected (err e) c k = inl (list-IsKnown db calm db refl).0
    selected (ok w) c k = inr (
        subst
          (λ r.
            IsAssigned now db
              (after_assignment job_repository worker_repository (some deployment_repository) d now
                job w r.0 r.1).1)
          (sym (assigns w))
          (subst
            (λ r.
              IsAssigned now db
                (after_increment job_repository worker_repository (some deployment_repository) d job
                  w r.0 r.1).1)
            (sym (counts w k))
            (let aside =
                update_aside w
                  (record db { jobs = next_after now next w; workers = workers_after now w }) in
              record {
                next = next;
                worker = w;
                can_take = c;
                known = k;
                assigned = aside.0;
                counted = aside.1;
              })))

  asked-Distributes :
      (now : ℕ) (d : Settings) (next : Next db.jobs)
      → Distributes now db
          (after_next job_repository worker_repository
            (some deployment_repository)
            d
            now
            (ok (job_of next.row))
            db).1
  unfolding after_next
  asked-Distributes now d next =
      let chosen = select_worker worker_repository d (job_of next.row) db in
      let (kept, assignable) =
        select_worker-Returns worker_repository d (λ s. s ≡ db) (IsKnown db.workers)
          (list-IsKnown db calm) (get-IsKnown db calm) (job_of next.row) db refl in
      subst
        (λ s.
          Distributes now db
            (after_selection job_repository worker_repository (some deployment_repository) d now
              (job_of next.row) chosen.0 s).1)
        (sym kept)
        (selected d now next chosen.0
          (select_worker-CanTake worker_repository d (job_of next.row) db) assignable)

  -- On a database that does not fail, a distribution changes nothing; or it assigns the oldest queued
  -- job without a worker to a worker of the table that is not offline and has a free slot, and counts
  -- the job there: no other job and no other worker is changed.
  pub distribute_jobs-Distributes :
      (now : ℕ) (d : Settings)
      → Distributes now db
          (distribute_jobs job_repository worker_repository (some deployment_repository) d now db).1
  unfolding distribute_jobs after_next
  distribute_jobs-Distributes now d =
      subst
        (λ r.
          Distributes now db
            (after_next job_repository worker_repository (some deployment_repository) d now r.0
              r.1).1)
        (sym (statement_calm _ db calm))
        (elim (get_next_unassigned_job-Next db.jobs) [
          | inl e ↦
              subst
                (λ r.
                  Distributes now db
                    (after_next job_repository worker_repository (some deployment_repository) d now
                      r.0 (record db { jobs = r.1 })).1)
                (sym e) (inl refl)
          | inr (next, e) ↦
              subst
                (λ r.
                  Distributes now db
                    (after_next job_repository worker_repository (some deployment_repository) d now
                      r.0 (record db { jobs = r.1 })).1)
                (sym e) (asked-Distributes now d next)
        ])
