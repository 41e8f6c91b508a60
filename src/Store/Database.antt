-- ===== src/Store/Database.antt =====
-- The database that the Postgres repositories share, and their methods on it. `faults` says which of
-- the coming statements the driver reports as failed, in order: such a statement, or the transaction
-- that it belongs to, leaves the tables as they were. Where the list ends all statements succeed.
pub mod Calm
pub mod Outcomes
use mesh_vpn.Store.Workers
use mesh_vpn.Store.JobTable
use mesh_vpn.Store.DeploymentTable
use mesh_vpn.Text.{Text}
use mesh_vpn.Store.DeploymentTable.{DeploymentTable}
use mesh_vpn.Store.Errors.{Exec, database, err, Result, ok, Program}
use mesh_vpn.Store.JobTable.{JobTable}
use mesh_vpn.Store.Workers.{
  Workers, decrement_job_count, get_available_worker, increment_job_count, list_by_status,
  mark_offline, register, update_heartbeat,
}
use mesh_vpn.Base.{List, Option, [], none, some, ◌∷◌}
use mesh_vpn.Domain.{DeploymentRecord}
use mesh_vpn.Store.Repositories.{DeploymentRepository, JobRepository, WorkerRepository}
use mesh_vpn.Store.Jobs.{claim_for_worker, claim_next}

pub record Database : Type 0 where
  pub workers : Workers.Workers
  pub jobs : JobTable.JobTable
  pub deployments : DeploymentTable.DeploymentTable
  pub users : List Text
  pub faults : List (Option Text)

-- Whether the next statement fails, with the state after it.
unfoldable pub next_fault : Database → List (Option Text) → Option Text × Database
next_fault db [] = (none, db)
next_fault db (fault ∷ faults) = (fault, record db { faults = faults })

abbrev run_unless : {A : Type 0} → Option Text → Exec Database A → Exec Database A
run_unless none m db = m db
run_unless (some text) m db = (err (database text), db)

-- One statement outside a transaction.
unfoldable pub statement : {A : Type 0} → Exec Database A → Exec Database A
unfolding next_fault
statement m db = let (fault, db') = next_fault db db.faults in run_unless fault m db'

abbrev nothing : Exec Database (Unit {0})
nothing db = (ok tt, db)

-- The tables of one state with the faults of another: the state after a rollback.
abbrev roll_back : Database → Database → Database
roll_back before now = record before { faults = now.faults }

-- `Commit`, where the statement has succeeded.
abbrev commit : {A : Type 0} → Database → A → Database → Result A × Database
commit before a db =
    let (committed, now) = statement nothing db in
    elim committed [ err e ↦ (err e, roll_back before now) | ok _ ↦ (ok a, now) ]

abbrev finish : {A : Type 0} → Database → Result A × Database → Result A × Database
finish before (err e, db) = (err e, roll_back before db)
finish before (ok a, db) = commit before a db

-- `BeginTx`, one statement and `Commit`, with the deferred rollback.
unfoldable pub transaction : {A : Type 0} → Exec Database A → Exec Database A
unfolding statement
transaction m db =
    let (begun, before) = statement nothing db in
    elim begun [ err e ↦ (err e, before) | ok _ ↦ finish before (statement m before) ]

abbrev on_workers : {A : Type 0} → Exec Workers.Workers A → Exec Database A
on_workers m db = let (r, ws) = m db.workers in (r, record db { workers = ws })

abbrev on_jobs : {A : Type 0} → Exec JobTable.JobTable A → Exec Database A
on_jobs m db = let (r, rows) = m db.jobs in (r, record db { jobs = rows })

abbrev on_deployments :
    {A : Type 0} → (List Text → Exec DeploymentTable.DeploymentTable A) → Exec Database A
on_deployments m db =
    let (r, rows) = m db.users db.deployments in (r, record db { deployments = rows })

-- `PostgresJobRepository`
abbrev pub job_repository : JobRepository Database
job_repository = record {
  enqueue = λ job. statement (on_jobs (JobTable.enqueue job));
  claim_next = λ now. transaction (on_jobs (JobTable.claim JobTable.is_waiting now));
  mark_done = λ now id. statement (on_jobs (JobTable.mark_done now id));
  mark_failed = λ now id text. statement (on_jobs (JobTable.mark_failed now id text));
  assign_to_worker = λ now id worker. statement (on_jobs (JobTable.assign_to_worker now id worker));
  release_from_worker = λ id. statement (on_jobs (JobTable.release_from_worker id));
  claim_for_worker =
      λ now worker. transaction (on_jobs (JobTable.claim (JobTable.is_for worker) now));
  get_next_unassigned_job = statement (on_jobs JobTable.get_next_unassigned_job);
}

-- `PostgresWorkerRepository`
abbrev pub worker_repository : WorkerRepository Database
worker_repository = record {
  register = λ now w. statement (on_workers (Workers.register now w));
  update = λ now w. statement (on_workers (Workers.update now w));
  get = λ id. statement (on_workers (Workers.get id));
  list = statement (on_workers Workers.list);
  list_by_status = λ status. statement (on_workers (Workers.list_by_status status));
  update_heartbeat = λ now id. statement (on_workers (Workers.update_heartbeat now id));
  increment_job_count = λ now id. statement (on_workers (Workers.increment_job_count now id));
  decrement_job_count = λ now id. statement (on_workers (Workers.decrement_job_count now id));
  mark_offline = λ now id. statement (on_workers (Workers.mark_offline now id));
  get_available_worker = statement (on_workers Workers.get_available_worker);
}

-- `Start` and `Update` log an error and drop it.
abbrev write_deployment : DeploymentRecord → Program Database (Unit {0})
write_deployment rec db =
    (tt, (statement (on_deployments (λ users. DeploymentTable.upsert users rec)) db).1)

-- A query that fails gives the empty list.
abbrev or_empty : Exec Database (List DeploymentRecord) → Program Database (List DeploymentRecord)
or_empty m db = let (r, db') = m db in elim r [ err e ↦ ([], db') | ok recs ↦ (recs, db') ]

-- `PostgresDeploymentRepository`
abbrev pub deployment_repository : DeploymentRepository Database
deployment_repository = record {
  start = write_deployment;
  update = write_deployment;
  get = λ id. statement (on_deployments (λ users. DeploymentTable.get id));
  list = or_empty (statement (λ db. (ok (DeploymentTable.list db.deployments), db)));
  list_by_user_id = λ user.
      or_empty (statement (λ db. (ok (DeploymentTable.list_by_user_id user db.deployments), db)));
}
