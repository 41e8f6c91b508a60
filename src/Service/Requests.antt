-- ===== src/Service/Requests.antt =====
-- A deployment request, and the errors of the service. `CPUCores`, a float64, is held in thousandths.
use mesh_vpn.Domain.{StringMap}
use mesh_vpn.Text.{Text}
use mesh_vpn.Store.Errors.{Error}
use mesh_vpn.Base.Int.{ℤ}

pub record DeployRequest : Type 0 where
  pub repo : Text
  pub port : ℤ
  pub subdomain : Text
  pub package_name : Text
  pub scaling_mode : Text
  pub min_replicas : ℤ
  pub max_replicas : ℤ
  pub cpu_target : ℤ
  pub cpu_request : ℤ
  pub cpu_limit : ℤ
  pub node_selector : StringMap
  pub env : StringMap
  pub build_args : StringMap
  pub cpu_cores : ℤ
  pub memory_mb : ℤ
  pub requested_by : Text
  pub user_id : Text

-- One constructor for each error text.
pub data ServiceError : Type 0 where
  invalid_scaling_mode : Text → ServiceError
  max_below_min bad_cpu_target missing_cpu_request limit_below_request : ServiceError
  repo_required negative_resources no_repo_subdomain : ServiceError
  invalid_subdomain subdomain_in_use invalid_env_name : Text → ServiceError
  invalid_build_args invalid_node_selector : ServiceError → ServiceError
  enqueue_failed : Error → ServiceError

pub data Checked {ℓ} (A : Type ℓ) : Type ℓ where
  valid : A → Checked A
  invalid : ServiceError → Checked A

infixl 5 ◌>>=◌
abbrev pub ◌>>=◌ {ℓ κ} : {A : Type ℓ} {B : Type κ} → Checked A → (A → Checked B) → Checked B
valid a >>= f = f a
invalid e >>= f = invalid e
