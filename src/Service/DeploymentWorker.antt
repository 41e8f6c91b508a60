-- ===== src/Service/DeploymentWorker.antt =====
-- `DeploymentWorker` of control-plane/internal/service/worker.go: `processNext`, the run of one job. The
-- runner calls git, docker and kubectl, and is a parameter: what it logs and returns for a job.
pub mod Settled
use mesh_vpn.Store.Errors.{
  ◌>>=◌, ◌>>◌, Error, Program, Result, database, deployment_not_found, err, ok, pure,
}
use mesh_vpn.Runtime.Host.{DeploymentResult}
use mesh_vpn.Domain.{DeploymentJob, DeploymentRecord}
use mesh_vpn.Text.{Text, codes, is_empty, text_eq, trim_space}
use mesh_vpn.Store.Repositories.{DeploymentRepository, JobRepository, WorkerRepository}
use mesh_vpn.Store.Jobs.Calls.{run}
use mesh_vpn.Base.{Bool, List, Option, [], if◌then◌else◌, none, some, true, ℕ, ◌&&◌, ◌++◌}
use mesh_vpn.Base.Int.{ℤ}
use mesh_vpn.Service.Reconcile.{ignored}
use mesh_vpn.Service.Distributor.{deploying_status}
use mesh_vpn.Service.Autoscaling.{mode_horizontal}
use mesh_vpn.Service.LiveLogs.{LiveLogs, append_live_logs, byte_length, persist_live_logs}
use mesh_vpn.Http.DeployHandler.{deploy}
use mesh_vpn.Agent.Executor.{returned}

pub data Deployed : Type 0 where
  deployed : DeploymentResult → Deployed
  not_deployed : Text → Deployed

-- A run: its updates with their times, the logs that it returns and its result or error text.
pub record Run : Type 0 where
  pub updates : List (ℕ × Text)
  pub build_logs : Text
  pub outcome : Deployed

-- `ApplyCPUAutoscaling` returns an output, and an error text if it fails.
pub record Runner : Type 0 where
  pub deploy : DeploymentJob → Run
  pub apply_cpu_autoscaling : Text → ℤ → ℤ → ℤ → Text × Option Text

pub record WorkerSettings : Type 0 where
  pub worker_id : Text
  pub enable_cpu_hpa : Bool
  pub use_assigned : Bool

-- The times at which `processNext` reads the clock or writes to the queue.
pub record Times : Type 0 where
  pub claimed : ℕ
  pub logging : ℕ
  pub returned : ℕ
  pub finished : ℕ
  pub settled : ℕ

-- `getErr.Error()`, for the errors that `Get` returns.
abbrev pub error_text : Error → Text
error_text deployment_not_found = codes "deployment not found"
error_text (database text) = text
error_text _ = []

unfoldable pub claimed_record : DeploymentRecord → DeploymentRecord
claimed_record rec = record rec {
  status = deploying_status;
  build_logs = codes "=== worker ===\njob claimed, deployment started\n";
}

-- The logs that are stored: those returned, or where they are blank those captured.
abbrev pub logs_or : Text → Text → Text
logs_or logs captured = if is_empty (trim_space logs) then captured else logs

unfoldable pub failed_record : Text → ℕ → DeploymentRecord → Text → Text → DeploymentRecord
failed_record worker now rec e logs = record rec {
  owner_worker_id = worker;
  container = [];
  image = [];
  url = [];
  status = codes "failed";
  error = e;
  build_logs = logs;
  finished_at = some now;
}

unfoldable pub deployed_record :
    Text → ℕ → DeploymentRecord → DeploymentResult → Text → DeploymentRecord
deployed_record worker now rec result logs = record rec {
  deployment_id = result.deployment_id;
  owner_worker_id = worker;
  repo = result.repo;
  subdomain = result.subdomain;
  port = result.port;
  container = result.container;
  image = result.image;
  url = result.url;
  status = codes "running";
  error = [];
  build_logs = logs;
  finished_at = some now;
}

abbrev pub add_output : Text → Text → Text
add_output logs output =
    if is_empty (trim_space output)
    then logs
    else logs ++ codes "\n=== hpa output ===\n" ++ output ++ codes "\n"

abbrev pub add_warning : Text → Option Text → Text
add_warning logs none = logs
add_warning logs (some e) = logs ++ codes "\n=== hpa warning ===\n" ++ e ++ codes "\n"

-- The logs with what the autoscaler said, where it is asked.
unfoldable pub hpa_build_logs :
    Runner → WorkerSettings → DeploymentRecord → DeploymentResult → Text → Text
unfolding trim_space text_eq
hpa_build_logs runner w rec result logs =
    if w.enable_cpu_hpa && text_eq rec.scaling_mode mode_horizontal
    then (let (output, e) =
          runner.apply_cpu_autoscaling result.container rec.min_replicas rec.max_replicas
            rec.cpu_target in
        add_warning (add_output logs output) e)
    else logs

module _ {S : Type 0} (repo : DeploymentRepository S) (jobs : JobRepository S) (runner : Runner)
    (w : WorkerSettings) (at : Times) where
  -- What is stored behind the run, and how the job ends.
  unfoldable pub settle : DeploymentJob → DeploymentRecord → Run → LiveLogs → Program S (Unit {0})
  unfolding failed_record deployed_record hpa_build_logs
  settle job rec run live = elim run.outcome [
    | not_deployed e ↦
        repo.update (
          failed_record w.worker_id at.finished rec e (
            logs_or run.build_logs
              (live.build_logs ++ codes "\n=== error ===\n" ++ e ++ codes "\n")))
        >> ignored (jobs.mark_failed at.settled job.job_id e)
    | deployed result ↦
        repo.update (
          deployed_record w.worker_id at.finished rec result (
            hpa_build_logs runner w rec result (
              logs_or run.build_logs (
                live.build_logs
                ++ codes "\n=== worker ===\ndeployment completed without runtime logs\n"))))
        >> ignored (jobs.mark_done at.settled job.job_id)
  ]

  -- The updates of the run, and the last one behind it.
  unfoldable pub capture : DeploymentRecord → Run → Program S LiveLogs
  unfolding append_live_logs persist_live_logs byte_length
  capture rec run = do
    repo.update rec
    live ← append_live_logs repo w.worker_id rec run.updates (record {
      build_logs = rec.build_logs;
      persisted_length = byte_length rec.build_logs;
      persisted_at = at.logging;
    })
    persist_live_logs repo w.worker_id rec true at.returned live

  unfoldable pub run_claimed : DeploymentJob → DeploymentRecord → Program S (Unit {0})
  unfolding settle capture
  run_claimed job rec = capture rec (runner.deploy job) >>= settle job rec (runner.deploy job)

  abbrev pub run_found : DeploymentJob → Result DeploymentRecord → Program S (Unit {0})
  run_found job (err e) = ignored (jobs.mark_failed at.settled job.job_id (error_text e))
  run_found job (ok rec) = run_claimed job (claimed_record rec)

  unfoldable pub run_job : DeploymentJob → Program S (Unit {0})
  unfolding run_claimed claimed_record
  run_job job = repo.get job.deployment_id >>= run_found job

  -- The deferred call: where jobs are assigned, the worker's count goes down on every path.
  abbrev pub count_down : Option (WorkerRepository S) → Program S (Unit {0})
  count_down none = pure tt
  count_down (some repo') =
      if w.use_assigned then ignored (repo'.decrement_job_count at.settled w.worker_id) else pure tt

  abbrev pub process_claimed :
      Option (WorkerRepository S) → Result DeploymentJob → Program S (Unit {0})
  process_claimed workers (err e) = pure tt
  process_claimed workers (ok job) = run_job job >> count_down workers

  unfoldable pub process_next : Option (WorkerRepository S) → Program S (Unit {0})
  unfolding run_job
  process_next workers =
      (if w.use_assigned
        then jobs.claim_for_worker at.claimed w.worker_id
        else jobs.claim_next at.claimed)
      >>= process_claimed workers
