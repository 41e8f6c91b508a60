-- ===== src/Domain.antt =====
-- The records of control-plane/internal/domain: workers, jobs and deployments. An instant is a number
-- of nanoseconds on one clock, Go's `int` is `ℤ`, and a number of CPU cores (a float64 in the source,
-- always a multiple of 1/1000) is held in thousandths. A `map[string]string` is its list of entries.
pub mod Packages
use mesh_vpn.Base.{ℕ, Option, List}
use mesh_vpn.Base.Int.{ℤ}
use mesh_vpn.Text.{Text, codes}

abbrev pub StringMap : Type 0
StringMap = List (Text × Text)

pub record WorkerCapabilities : Type 0 where
  pub runtime : Text
  pub k8s_version : Text
  pub memory_gb : ℤ
  pub cpu_cores : ℤ
  pub max_concurrent_jobs : ℤ
  pub supported_packages : List Text

pub record Worker : Type 0 where
  pub worker_id : Text
  pub name : Text
  pub tailscale_ip : Text
  pub hostname : Text
  pub status : Text
  pub capabilities : WorkerCapabilities
  pub max_concurrent_jobs : ℤ
  pub current_jobs : ℤ
  pub last_heartbeat : Option ℕ
  pub created_at : ℕ
  pub updated_at : ℕ

-- The values of `WorkerStatus`; a worker's own `status` field is a free text.
abbrev pub idle : Text
idle = codes "idle"

abbrev pub busy : Text
busy = codes "busy"

abbrev pub offline : Text
offline = codes "offline"

pub record DeploymentJob : Type 0 where
  pub job_id : Text
  pub deployment_id : Text
  pub repo : Text
  pub subdomain : Text
  pub port : ℤ
  pub scaling_mode : Text
  pub min_replicas : ℤ
  pub max_replicas : ℤ
  pub cpu_target : ℤ
  pub cpu_request : ℤ
  pub cpu_limit : ℤ
  pub node_selector : StringMap
  pub env : StringMap
  pub build_args : StringMap
  pub cpu_cores : ℤ
  pub memory_mb : ℤ
  pub requested_by : Text
  pub queued_at : ℕ
  pub assigned_worker_id : Text
  pub assigned_at : Option ℕ

pub record DeploymentRecord : Type 0 where
  pub deployment_id : Text
  pub owner_worker_id : Text
  pub requested_by : Text
  pub user_id : Text
  pub package_name : Text
  pub repo : Text
  pub subdomain : Text
  pub port : ℤ
  pub scaling_mode : Text
  pub min_replicas : ℤ
  pub max_replicas : ℤ
  pub cpu_target : ℤ
  pub cpu_request : ℤ
  pub cpu_limit : ℤ
  pub node_selector : StringMap
  pub cpu_cores : ℤ
  pub memory_mb : ℤ
  pub container : Text
  pub image : Text
  pub url : Text
  pub status : Text
  pub error : Text
  pub build_logs : Text
  pub env : StringMap
  pub build_args : StringMap
  pub started_at : ℕ
  pub finished_at : Option ℕ
