-- ===== src/Examples/Data.antt =====
-- Jobs, workers, deployments and requests that the examples share.
use mesh_vpn.Domain.{DeploymentJob, DeploymentRecord, Worker, idle, offline}
use mesh_vpn.Text.{Text, codes}
use mesh_vpn.Store.Repositories.{WorkerRepository}
use mesh_vpn.Store.Jobs.{JobState, queued}
use mesh_vpn.Store.Errors.{err, no_available_workers, no_rows, ok, pure}
use mesh_vpn.Store.Memory.{Memory}
use mesh_vpn.Base.Int.{pos, ℤ}
use mesh_vpn.Service.Requests.{DeployRequest}
use mesh_vpn.Service.Building.{Ids}
use mesh_vpn.Service.Placement.{Settings}
use mesh_vpn.Base.{List, [], none, some, true, ◌∷◌}

abbrev pub a_job : Text → Text → DeploymentJob
a_job id worker = record {
  job_id = id;
  deployment_id = codes "d1";
  repo = codes "https://github.com/user/my-app";
  subdomain = codes "my-app";
  port = pos 3000;
  scaling_mode = codes "none";
  min_replicas = pos 0;
  max_replicas = pos 0;
  cpu_target = pos 0;
  cpu_request = pos 500;
  cpu_limit = pos 0;
  node_selector = [];
  env = [];
  build_args = [];
  cpu_cores = pos 500;
  memory_mb = pos 512;
  requested_by = codes "ann";
  queued_at = 5;
  assigned_worker_id = worker;
  assigned_at = none;
}

abbrev pub a_worker : Text → Text → ℤ → Worker
a_worker id status jobs = record {
  worker_id = id;
  name = id;
  tailscale_ip = codes "100.64.0.2";
  hostname = id;
  status = status;
  capabilities = record {
    runtime = codes "kubernetes";
    k8s_version = [];
    memory_gb = pos 16;
    cpu_cores = pos 8;
    max_concurrent_jobs = pos 2;
    supported_packages = [];
  };
  max_concurrent_jobs = pos 2;
  current_jobs = jobs;
  last_heartbeat = some 7;
  created_at = 3;
  updated_at = 7;
}

abbrev pub a_deployment : Text → Text → Text → DeploymentRecord
a_deployment id owner status = record {
  deployment_id = id;
  owner_worker_id = owner;
  requested_by = codes "ann";
  user_id = codes "u1";
  package_name = codes "small";
  repo = codes "https://github.com/user/my-app";
  subdomain = codes "my-app";
  port = pos 3000;
  scaling_mode = codes "none";
  min_replicas = pos 0;
  max_replicas = pos 0;
  cpu_target = pos 0;
  cpu_request = pos 500;
  cpu_limit = pos 0;
  node_selector = [];
  cpu_cores = pos 500;
  memory_mb = pos 512;
  container = [];
  image = [];
  url = [];
  status = status;
  error = [];
  build_logs = [];
  env = [];
  build_args = [];
  started_at = 5;
  finished_at = none;
}

abbrev pub a_request : Text → DeployRequest
a_request mode = record {
  repo = codes "https://github.com/user/my-app";
  port = pos 0;
  subdomain = [];
  package_name = codes "small";
  scaling_mode = mode;
  min_replicas = pos 0;
  max_replicas = pos 4;
  cpu_target = pos 0;
  cpu_request = pos 0;
  cpu_limit = pos 0;
  node_selector = [];
  env = [];
  build_args = [];
  cpu_cores = pos 500;
  memory_mb = pos 512;
  requested_by = codes "ann";
  user_id = codes "u1";
}

abbrev pub some_settings : Settings
some_settings = record {
  enabled = true;
  control_plane_worker = codes "control-plane-local";
  placement_strategy = codes "smart";
  max_jobs_control_plane = pos 1;
  heartbeat_timeout = 60;
  rebalance_cooldown = 600;
  rebalance_min_delta = pos 200;
}

abbrev pub some_ids : Ids
some_ids = record { deployment_id = codes "d9"; job_id = codes "j9"; short_id = codes "abc123" }

abbrev pub queued_job : Text → Text → JobState
queued_job id to = record {
  job = a_job id to;
  status = queued;
  last_error = [];
  finished_at = none;
}

-- A store that holds one deployment.
abbrev pub one_deployment : DeploymentRecord → Memory
one_deployment rec = record {
  deployments = record { records = (rec.deployment_id, rec) ∷ []; order = rec.deployment_id ∷ [] };
  jobs = [];
}

-- Workers that never change, beside any state.
abbrev pub fixed_workers : {S : Type 0} → List Worker → WorkerRepository S
fixed_workers ws = record {
  register = λ now w. pure (ok tt);
  update = λ now w. pure (ok tt);
  get = λ id. pure (err no_rows);
  list = pure (ok ws);
  list_by_status = λ status. pure (ok ws);
  update_heartbeat = λ now id. pure (ok tt);
  increment_job_count = λ now id. pure (ok tt);
  decrement_job_count = λ now id. pure (ok tt);
  mark_offline = λ now id. pure (ok tt);
  get_available_worker = pure (err no_available_workers);
}

abbrev pub two_workers : List Worker
two_workers = a_worker (codes "w1") offline (pos 0) ∷ a_worker (codes "w2") idle (pos 1) ∷ []

-- A deployment runs on the worker that is offline.
abbrev pub stranded : DeploymentRecord
stranded = a_deployment (codes "d1") (codes " w1") (codes "running")
