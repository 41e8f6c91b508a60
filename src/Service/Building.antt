-- ===== src/Service/Building.antt =====
-- The checks of `EnqueueDeploy` in control-plane/internal/service/deployments.go, and the record and the
-- job that it makes of a request. The ids come from the library of UUIDs, and are arguments.
use mesh_vpn.Service.Requests.{
  ◌>>=◌, Checked, DeployRequest, ServiceError, invalid, invalid_build_args, invalid_node_selector,
  negative_resources, repo_required, valid,
}
use mesh_vpn.Domain.{DeploymentJob, DeploymentRecord, StringMap}
use mesh_vpn.Text.{Text, codes, is_empty, trim_space}
use mesh_vpn.Base.{[], if◌then◌else◌, none, ℕ, ◌||◌}
use mesh_vpn.Base.Int.{eq_ℤ, lt_ℤ, pos, ℤ}
use mesh_vpn.Service.Subdomains.{sanitize_env_map}
use mesh_vpn.Service.Autoscaling.{normalize}

pub record Ids : Type 0 where
  pub deployment_id : Text
  pub job_id : Text
  pub short_id : Text

-- The checks that stand before the choice of a subdomain.
unfoldable pub check_request : DeployRequest → Checked DeployRequest
check_request given = do
  req ← normalize given
  if is_empty (trim_space req.repo) then invalid repo_required else valid req

pub record Maps : Type 0 where
  pub env : StringMap
  pub build_args : StringMap
  pub node_selector : StringMap

-- `fmt.Errorf("...: %w", err)`
abbrev wrap : (ServiceError → ServiceError) → Checked StringMap → Checked StringMap
wrap f (valid m) = valid m
wrap f (invalid e) = invalid (f e)

-- The checks that stand behind it.
unfoldable pub check_maps : DeployRequest → Checked Maps
check_maps req = do
  env ← sanitize_env_map req.env
  build_args ← wrap invalid_build_args (sanitize_env_map req.build_args)
  (if lt_ℤ req.cpu_cores (pos 0) || lt_ℤ req.memory_mb (pos 0)
      then invalid negative_resources
      else do
        node_selector ← wrap invalid_node_selector (sanitize_env_map req.node_selector)
        valid (record { env = env; build_args = build_args; node_selector = node_selector }))

abbrev pub default_port : ℤ
default_port = pos 3000

abbrev pub port_of : DeployRequest → ℤ
port_of req = if eq_ℤ req.port (pos 0) then default_port else req.port

abbrev pub queued_status : Text
queued_status = codes "queued"

abbrev pub build_record : Ids → ℕ → DeployRequest → Text → Maps → DeploymentRecord
build_record ids now req subdomain maps = record {
  deployment_id = ids.deployment_id;
  owner_worker_id = [];
  requested_by = trim_space req.requested_by;
  user_id = trim_space req.user_id;
  package_name = trim_space req.package_name;
  repo = trim_space req.repo;
  subdomain = subdomain;
  port = port_of req;
  scaling_mode = req.scaling_mode;
  min_replicas = req.min_replicas;
  max_replicas = req.max_replicas;
  cpu_target = req.cpu_target;
  cpu_request = req.cpu_request;
  cpu_limit = req.cpu_limit;
  node_selector = maps.node_selector;
  cpu_cores = req.cpu_cores;
  memory_mb = req.memory_mb;
  container = [];
  image = [];
  url = [];
  status = queued_status;
  error = [];
  build_logs = [];
  env = maps.env;
  build_args = maps.build_args;
  started_at = now;
  finished_at = none;
}

abbrev pub build_job : Ids → ℕ → DeployRequest → Text → Maps → DeploymentJob
build_job ids now req subdomain maps = record {
  job_id = ids.job_id;
  deployment_id = ids.deployment_id;
  repo = trim_space req.repo;
  subdomain = subdomain;
  port = port_of req;
  scaling_mode = req.scaling_mode;
  min_replicas = req.min_replicas;
  max_replicas = req.max_replicas;
  cpu_target = req.cpu_target;
  cpu_request = req.cpu_request;
  cpu_limit = req.cpu_limit;
  node_selector = maps.node_selector;
  env = maps.env;
  build_args = maps.build_args;
  cpu_cores = req.cpu_cores;
  memory_mb = req.memory_mb;
  requested_by = trim_space req.requested_by;
  queued_at = now;
  assigned_worker_id = [];
  assigned_at = none;
}

-- What is stored for a request with its subdomain, if its maps pass.
unfoldable pub build :
    Ids → ℕ → DeployRequest → Checked Text → Checked (DeploymentRecord × DeploymentJob)
build ids now req named = do
  subdomain ← named
  maps ← check_maps req
  valid (build_record ids now req subdomain maps, build_job ids now req subdomain maps)
