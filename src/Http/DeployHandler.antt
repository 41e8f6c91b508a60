-- ===== src/Http/DeployHandler.antt =====
-- `Handlers.Deploy` of control-plane/internal/httpapi/handlers.go. What `BindJSON` makes of the body is
-- an argument, and so are the ids of the sign-in.
pub mod Request
use mesh_vpn.Store.Errors.{◌>>=◌, Program, database, pure}
use mesh_vpn.Domain.{DeploymentRecord, StringMap}
use mesh_vpn.Text.{Text, codes, contains_text, is_empty, text_eq, to_lower, trim_space}
use mesh_vpn.Store.Repositories.{DeploymentRepository, JobRepository}
use mesh_vpn.Base.{Bool, Option, if◌then◌else◌, none, some, ℕ, ◌&&◌, ◌++◌, ◌||◌}
use mesh_vpn.Base.Int.{le_ℤ, lt_ℤ, pos, ℤ, ◌*ℤ◌}
use mesh_vpn.Service.Requests.{
  Checked, DeployRequest, ServiceError, bad_cpu_target, enqueue_failed, invalid, invalid_build_args,
  invalid_env_name, invalid_node_selector, invalid_scaling_mode, invalid_subdomain,
  limit_below_request, max_below_min, missing_cpu_request, negative_resources, no_repo_subdomain,
  repo_required, subdomain_in_use, valid,
}
use mesh_vpn.Service.Deployments.{enqueue_deploy}
use mesh_vpn.Service.Building.{Ids}
use mesh_vpn.Service.Autoscaling.{mode_horizontal}
use mesh_vpn.Domain.Packages.{PackageSpec, get_package_spec}
use mesh_vpn.Http.WorkerHandler.{build_worker_deployment_url}

-- The fields that `Deploy` reads.
pub record DeployPayload : Type 0 where
  pub repo : Text
  pub port : ℤ
  pub subdomain : Text
  pub package_name : Text
  pub min_replicas : ℤ
  pub max_replicas : ℤ
  pub cpu_target_utilization : ℤ
  pub node_selector : StringMap
  pub env : StringMap
  pub build_args : StringMap

-- `auth.sub`, and the id of the user.
pub record Caller : Type 0 where
  pub sub : Text
  pub user_id : Text

pub record DeployResponse : Type 0 where
  pub stored : DeploymentRecord
  pub url : Text
  pub package_name : Text
  pub spec : PackageSpec
  pub autoscaling_enabled : Bool

pub data DeployReply : Type 0 where
  refused : ℕ → Text → DeployReply
  accepted : DeployResponse → DeployReply

unfoldable pub package_of : Text → Text
unfolding to_lower trim_space
package_of given =
    let name = to_lower (trim_space given) in if is_empty name then codes "small" else name

-- A target or a number of replicas that is out of bounds gives way to a default.
abbrev pub cpu_target_of : ℤ → ℤ
cpu_target_of n = if lt_ℤ (pos 0) n && le_ℤ n (pos 100) then n else pos 70

abbrev pub min_replicas_of : ℤ → ℤ
min_replicas_of n = if lt_ℤ (pos 0) n then n else pos 1

abbrev pub max_replicas_of : PackageSpec → ℤ → ℤ
max_replicas_of spec n = if lt_ℤ (pos 0) n && le_ℤ n spec.max_replicas then n else spec.max_replicas

abbrev pub user_of : Caller → Text
user_of caller =
    if is_empty (trim_space caller.user_id)
    then trim_space caller.sub
    else trim_space caller.user_id

unfoldable pub deploy_request : DeployPayload → Caller → Text → PackageSpec → DeployRequest
unfolding trim_space
deploy_request payload caller package_name spec = record {
  repo = payload.repo;
  port = payload.port;
  subdomain = payload.subdomain;
  package_name = package_name;
  scaling_mode = mode_horizontal;
  min_replicas = min_replicas_of payload.min_replicas;
  max_replicas = max_replicas_of spec payload.max_replicas;
  cpu_target = cpu_target_of payload.cpu_target_utilization;
  cpu_request = spec.cpu_cores;
  cpu_limit = 2 *ℤ spec.cpu_cores;
  node_selector = payload.node_selector;
  env = payload.env;
  build_args = payload.build_args;
  cpu_cores = spec.cpu_cores;
  memory_mb = spec.memory_mb;
  requested_by = trim_space caller.sub;
  user_id = user_of caller;
}

-- The texts of the errors of `EnqueueDeploy`. `Enqueue` fails only in the database.
unfoldable pub service_error_text : ServiceError → Text
service_error_text (invalid_scaling_mode mode) = codes "invalid scaling_mode: " ++ mode
service_error_text max_below_min =
    codes "max_replicas must be greater than or equal to min_replicas"
service_error_text bad_cpu_target = codes "cpu_target_utilization must be between 1 and 100"
service_error_text missing_cpu_request =
    codes "cpu_request_milli is required when scaling_mode is horizontal"
service_error_text limit_below_request =
    codes "cpu_limit_milli must be greater than or equal to cpu_request_milli"
service_error_text repo_required = codes "repo is required"
service_error_text negative_resources = codes "cpu and memory must be positive"
service_error_text no_repo_subdomain = codes "could not extract subdomain from repo URL"
service_error_text (invalid_subdomain given) = codes "invalid subdomain format: " ++ given
service_error_text (subdomain_in_use name) =
    codes "subdomain '" ++ name ++ codes "' is already in use"
service_error_text (invalid_env_name key) = codes "invalid env var name: " ++ key
service_error_text (invalid_build_args e) = codes "invalid build_args: " ++ service_error_text e
service_error_text (invalid_node_selector e) =
    codes "invalid node_selector: " ++ service_error_text e
service_error_text (enqueue_failed (database text)) = codes "enqueue deployment: " ++ text
service_error_text (enqueue_failed _) = codes "enqueue deployment: "

unfoldable pub status_of : Text → ℕ
unfolding contains_text
status_of text =
    if contains_text (codes "repo is required") text
      || contains_text (codes "invalid") text
      || contains_text (codes "subdomain") text
      || contains_text (codes "already in use") text
    then 400
    else 500

module _ {S : Type 0} (repo : DeploymentRepository S) (jobs : JobRepository S)
    (enable_cpu_hpa : Bool) (app_base_domain : Text) where
  unfoldable pub reply_to : Text → PackageSpec → Checked DeploymentRecord → DeployReply
  unfolding service_error_text status_of build_worker_deployment_url text_eq
  reply_to package_name spec (invalid e) =
      refused (status_of (service_error_text e)) (service_error_text e)
  reply_to package_name spec (valid rec) = accepted (record {
    stored = rec;
    url = build_worker_deployment_url app_base_domain rec.subdomain;
    package_name = package_name;
    spec = spec;
    autoscaling_enabled = text_eq rec.scaling_mode mode_horizontal && enable_cpu_hpa;
  })

  deploy_as : Ids → ℕ → DeployPayload → Caller → Text → Option PackageSpec → Program S DeployReply
  unfolding deploy_request reply_to enqueue_deploy
  deploy_as ids now payload caller package_name none = pure (
      refused 400
        (codes "invalid package '" ++ package_name ++ codes "'. must be: small, medium, large"))
  deploy_as ids now payload caller package_name (some spec) = do
    outcome ← enqueue_deploy repo jobs ids now (deploy_request payload caller package_name spec)
    pure (reply_to package_name spec outcome)

  unfoldable pub deploy : Ids → ℕ → Caller → Option DeployPayload → Program S DeployReply
  unfolding deploy_as package_of get_package_spec
  deploy ids now caller none = pure (refused 400 (codes "repo is required"))
  deploy ids now caller (some payload) =
      let package_name = package_of payload.package_name in
      deploy_as ids now payload caller package_name (get_package_spec package_name)
