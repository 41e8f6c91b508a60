-- ===== src/Service/Distributor.antt =====
-- `JobDistributor` of control-plane/internal/service/distributor.go: its start, the distribution of one
-- job, and one turn of its loop.
pub mod Known
pub mod Assignment
use mesh_vpn.Store.Errors.{◌>>=◌, ◌>>◌, Program, Result, err, ok, pure}
use mesh_vpn.Domain.{DeploymentJob, DeploymentRecord, Worker, idle}
use mesh_vpn.Text.{Text, codes, is_empty, text_eq}
use mesh_vpn.Store.Repositories.{DeploymentRepository, JobRepository, WorkerRepository}
use mesh_vpn.Base.{Bool, List, Option, [], if◌then◌else◌, none, not, some, ℕ, ◌++◌, ◌∷◌}
use mesh_vpn.Base.Int.{pos, ℤ}
use mesh_vpn.Service.Requeue.{Distribution, on_repositories}
use mesh_vpn.Service.Reconcile.{
  for_each, ignored, reconcile_offline_deployments, reconcile_rebalance, reconcile_worker_health,
}
use mesh_vpn.Service.Building.{queued_status}
use mesh_vpn.Service.Placement.{Settings, select_worker}

-- What `NewJobDistributor` reads of the configuration.
pub record Config : Type 0 where
  pub control_plane_as_worker : Bool
  pub control_plane_worker_id : Text
  pub enable_multi_worker : Bool
  pub job_placement_strategy : Text
  pub control_plane_max_jobs : ℤ
  pub worker_heartbeat_timeout : ℕ

-- The worker of the control plane, or the empty id.
abbrev pub control_plane_worker_of : Config → Text
control_plane_worker_of cfg =
    if not cfg.control_plane_as_worker
    then []
    else if is_empty cfg.control_plane_worker_id
    then codes "control-plane-local"
    else cfg.control_plane_worker_id

abbrev pub new_job_distributor : Config → Settings
new_job_distributor cfg = record {
  enabled = cfg.enable_multi_worker;
  control_plane_worker = control_plane_worker_of cfg;
  placement_strategy = cfg.job_placement_strategy;
  max_jobs_control_plane = cfg.control_plane_max_jobs;
  heartbeat_timeout = cfg.worker_heartbeat_timeout;
  rebalance_cooldown = 600000000000;
  rebalance_min_delta = pos 200;
}

-- The worker that `registerControlPlaneAsWorker` registers; `register` sets the times.
abbrev pub control_plane_record : Settings → Worker
control_plane_record d = record {
  worker_id = d.control_plane_worker;
  name = codes "Control-Plane (Local Worker)";
  tailscale_ip = codes "localhost";
  hostname = codes "control-plane";
  status = idle;
  capabilities = record {
    runtime = codes "kubernetes";
    k8s_version = [];
    memory_gb = pos 8;
    cpu_cores = pos 4;
    max_concurrent_jobs = d.max_jobs_control_plane;
    supported_packages = codes "small" ∷ codes "medium" ∷ codes "large" ∷ [];
  };
  max_concurrent_jobs = d.max_jobs_control_plane;
  current_jobs = pos 0;
  last_heartbeat = none;
  created_at = 0;
  updated_at = 0;
}

abbrev pub deploying_status : Text
deploying_status = codes "deploying"

unfoldable pub assigned_record : Text → DeploymentRecord → DeploymentRecord
assigned_record worker rec = record rec {
  owner_worker_id = worker;
  status = if text_eq rec.status queued_status then deploying_status else rec.status;
  build_logs =
      rec.build_logs ++ codes "\n=== distributor ===\nassigned to worker " ++ worker ++ codes "\n";
}

module _ {S : Type 0} (jobs : JobRepository S) (workers : WorkerRepository S)
    (deployments : Option (DeploymentRepository S)) (d : Settings) where
  unfoldable pub register_control_plane : ℕ → Program S (Unit {0})
  register_control_plane now = ignored (workers.register now (control_plane_record d))

  -- It reads the workers, for the log alone.
  unfoldable pub log_placement_diagnostics : Program S (Unit {0})
  log_placement_diagnostics = ignored workers.list

  abbrev pub note_assignment :
      DeploymentRepository S → Text → Result DeploymentRecord → Program S (Unit {0})
  note_assignment repo worker (err e) = pure tt
  note_assignment repo worker (ok rec) = repo.update (assigned_record worker rec)

  -- Without a repository of deployments there is nothing to note.
  unfoldable pub update_assignment :
      Option (DeploymentRepository S) → DeploymentJob → Worker → Program S (Unit {0})
  unfolding assigned_record
  update_assignment none job w = pure tt
  update_assignment (some repo) job w =
      repo.get job.deployment_id >>= note_assignment repo w.worker_id

  -- A job whose worker could not be counted up is released again.
  unfoldable pub after_increment : DeploymentJob → Worker → Result (Unit {0}) → Program S (Unit {0})
  unfolding update_assignment
  after_increment job w (err e) = ignored (jobs.release_from_worker job.job_id)
  after_increment job w (ok _) = update_assignment deployments job w

  unfoldable pub after_assignment :
      ℕ → DeploymentJob → Worker → Result (Unit {0}) → Program S (Unit {0})
  unfolding after_increment
  after_assignment now job w (err e) = pure tt
  after_assignment now job w (ok _) =
      workers.increment_job_count now w.worker_id >>= after_increment job w

  unfoldable pub after_selection : ℕ → DeploymentJob → Result Worker → Program S (Unit {0})
  unfolding after_assignment log_placement_diagnostics
  after_selection now job (err e) = log_placement_diagnostics
  after_selection now job (ok w) =
      jobs.assign_to_worker now job.job_id w.worker_id >>= after_assignment now job w

  unfoldable pub after_next : ℕ → Result DeploymentJob → Program S (Unit {0})
  unfolding after_selection select_worker
  after_next now (err e) = pure tt
  after_next now (ok job) = select_worker workers d job >>= after_selection now job

  unfoldable pub distribute_jobs : ℕ → Program S (Unit {0})
  unfolding after_next
  distribute_jobs now = jobs.get_next_unassigned_job >>= after_next now

module _ {S : Type 0} (uuid : ℕ → Text) (jobs : JobRepository S) (workers : WorkerRepository S)
    (deployments : Option (DeploymentRepository S)) (d : Settings) where
  -- Without a repository of deployments the last two reconciliations do nothing.
  unfoldable pub reconcile_deployments :
      Option (DeploymentRepository S) → ℕ → Program (Distribution S) (Unit {0})
  unfolding reconcile_offline_deployments reconcile_rebalance
  reconcile_deployments none now = pure tt
  reconcile_deployments (some repo) now = do
    reconcile_offline_deployments uuid jobs repo workers now
    reconcile_rebalance uuid jobs repo workers d now

  -- What one tick of `Start` runs.
  unfoldable pub tick : ℕ → Program (Distribution S) (Unit {0})
  unfolding reconcile_worker_health reconcile_deployments distribute_jobs
  tick now = do
    on_repositories (reconcile_worker_health workers d now)
    reconcile_deployments deployments now
    on_repositories (distribute_jobs jobs workers deployments d now)

  -- `Start` until the context is done: the ticks that come, with their times.
  unfoldable pub ticks : List ℕ → Program (Distribution S) (Unit {0})
  unfolding tick for_each
  ticks nows = for_each tick nows

  unfoldable pub start : ℕ → List ℕ → Program (Distribution S) (Unit {0})
  unfolding register_control_plane ticks
  start now nows =
      if not d.enabled
      then pure tt
      else if is_empty d.control_plane_worker
      then ticks nows
      else on_repositories (register_control_plane jobs workers deployments d now) >> ticks nows
