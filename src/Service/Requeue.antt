-- ===== src/Service/Requeue.antt =====
-- `requeueDeployment` of control-plane/internal/service/distributor.go, and the state that a
-- `JobDistributor` keeps beside the repositories.

pub mod Waiting
use mesh_vpn.Store.Errors.{◌>>=◌, ◌>>◌, Exec, Program, Result, err, ok}
use mesh_vpn.Domain.{DeploymentJob, DeploymentRecord}
use mesh_vpn.Text.{Text, codes, remove_all, text_eq}
use mesh_vpn.Store.Repositories.{DeploymentRepository, JobRepository}
use mesh_vpn.Base.{List, Option, [], if◌then◌else◌, none, some, suc, take, ℕ, ◌++◌, ◌∷◌}
use mesh_vpn.Service.Building.{queued_status}

-- `lastShiftByDeploy`, and how many ids were drawn so far.
pub record Distribution (S : Type 0) : Type 0 where
  pub repositories : S
  pub last_shift : List (Text × ℕ)
  pub drawn : ℕ

-- What the repositories do to their part of the state.
abbrev pub on_repositories : {S A : Type 0} → Program S A → Program (Distribution S) A
on_repositories m s = let (a, r) = m s.repositories in (a, record s { repositories = r })

-- The entry of a map, and the write to it.
unfoldable pub last_shift_of : Text → List (Text × ℕ) → Option ℕ
last_shift_of id [] = none
last_shift_of id ((key, at) ∷ shifts) =
    let rest = last_shift_of id shifts in if text_eq key id then some at else rest

unfoldable pub record_shift : Text → ℕ → List (Text × ℕ) → List (Text × ℕ)
record_shift id now [] = (id, now) ∷ []
record_shift id now ((key, at) ∷ shifts) =
    let rest = record_shift id now shifts in
    if text_eq key id then (key, now) ∷ shifts else (key, at) ∷ rest

unfoldable pub requeued_record : Text → DeploymentRecord → DeploymentRecord
requeued_record reason dep = record dep {
  status = queued_status;
  owner_worker_id = [];
  error = reason;
  build_logs = dep.build_logs ++ codes "\n=== rebalance/failover ===\n" ++ reason ++ codes "\n";
  finished_at = none;
}

abbrev pub requeued_job : Text → ℕ → DeploymentRecord → DeploymentJob
requeued_job id now dep = record {
  job_id = id;
  deployment_id = dep.deployment_id;
  repo = dep.repo;
  subdomain = dep.subdomain;
  port = dep.port;
  scaling_mode = dep.scaling_mode;
  min_replicas = dep.min_replicas;
  max_replicas = dep.max_replicas;
  cpu_target = dep.cpu_target;
  cpu_request = dep.cpu_request;
  cpu_limit = dep.cpu_limit;
  node_selector = dep.node_selector;
  env = dep.env;
  build_args = dep.build_args;
  cpu_cores = dep.cpu_cores;
  memory_mb = dep.memory_mb;
  requested_by = dep.requested_by;
  queued_at = now;
  assigned_worker_id = [];
  assigned_at = none;
}

-- `uuid n` is the text of the n-th id that the library of UUIDs returns.
module _ {S : Type 0} (uuid : ℕ → Text) (jobs : JobRepository S)
    (deployments : DeploymentRepository S) where
  -- `strings.ReplaceAll(uuid.NewString(), "-", "")[:12]`
  unfoldable pub next_job_id : Program (Distribution S) Text
  unfolding remove_all
  next_job_id s = (take 12 (remove_all b'-' (uuid s.drawn)), record s { drawn = suc s.drawn })

  unfoldable pub after_enqueue :
      Text → ℕ → DeploymentRecord → Result (Unit {0}) → Exec (Distribution S) Text
  unfolding record_shift
  after_enqueue id now dep (err e) s = (err e, s)
  after_enqueue id now dep (ok _) s =
      (ok id, record s { last_shift = record_shift dep.deployment_id now s.last_shift })

  unfoldable pub requeue_deployment : ℕ → DeploymentRecord → Text → Exec (Distribution S) Text
  unfolding next_job_id after_enqueue requeued_record
  requeue_deployment now dep reason = do
    on_repositories (deployments.update (requeued_record reason dep))
    id ← next_job_id
    outcome ← on_repositories (jobs.enqueue (requeued_job id now dep))
    after_enqueue id now dep outcome
