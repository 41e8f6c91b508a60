-- ===== src/Fleet/Routes.antt =====
-- The routes of /api/workers in control-plane/internal/httpapi/router.go, and what the handlers bind of the
-- bodies that an agent sends: the keys are the same on both sides. A request without a body is a GET.
use mesh_vpn.Http.WorkerHandler
use mesh_vpn.Http.WorkerHandler.{HeartbeatBody, JobReport, RegisterRequest, beat}
use mesh_vpn.Agent.Jobs.{
  Body, Request, no_body, registration, heartbeat, completed, failure, report,
}
use mesh_vpn.Text.{Text, codes, drop_prefix, has_prefix, is_empty, text_eq}
use mesh_vpn.Store.Repositories.{DeploymentRepository, JobRepository, WorkerRepository}
use mesh_vpn.Store.Errors.{Program}
use mesh_vpn.Base.{
  ◌||◌, Bool, Option, [], drop, false, if◌then◌else◌, length, none, not, some, true, ℕ, ◌&&◌,
}
use mesh_vpn.Forwarder.Hosts.{cut_first}
use mesh_vpn.Http.Replies.{Reply, error_body}

pub data Route : Type 0 where
  to_register : Route
  to_heartbeat to_claim to_complete to_failed : Text → Route

abbrev pub routed_get : Text → Text → Option Route
routed_get id action = if text_eq action (codes "claim-job") then some (to_claim id) else none

abbrev pub routed_post : Text → Text → Option Route
routed_post id action =
    if text_eq action (codes "heartbeat")
    then some (to_heartbeat id)
    else if text_eq action (codes "job-complete")
    then some (to_complete id)
    else if text_eq action (codes "job-failed")
    then some (to_failed id)
    else none

-- The segments behind the group's path.
abbrev pub routed : Bool → Text → Option (Text × Text) → Option Route
routed is_get rest none =
    if not is_get && text_eq rest (codes "register") then some to_register else none
routed is_get rest (some (id, action)) =
    if is_empty id then none else if is_get then routed_get id action else routed_post id action

abbrev pub group_path : Text
group_path = codes "/api/workers/"

unfoldable pub route : Bool → Text → Option Route
unfolding text_eq has_prefix cut_first
route is_get path =
    if has_prefix group_path path
    then (let rest = drop (length group_path) path in routed is_get rest (cut_first b'/' rest))
    else none

abbrev pub is_get : Body → Bool
is_get no_body = true
is_get _ = false

-- `binding:"required"` of three fields
abbrev pub required_worker : RegisterRequest → Option RegisterRequest
required_worker req =
    if is_empty req.worker_id || is_empty req.name || is_empty req.tailscale_ip
    then none
    else some req

abbrev pub bound_registration : Body → Option RegisterRequest
bound_registration (registration cfg hostname) = required_worker (record {
  worker_id = cfg.worker_id;
  name = cfg.worker_name;
  tailscale_ip = cfg.tailscale_ip;
  hostname = hostname;
  capabilities = record {
    runtime = cfg.runtime.type;
    k8s_version = [];
    memory_gb = cfg.memory_gb;
    cpu_cores = cfg.cpu_cores;
    max_concurrent_jobs = cfg.max_concurrent_jobs;
    supported_packages = cfg.supported_packages;
  };
})
bound_registration _ = none

abbrev pub bound_beat : Body → HeartbeatBody
bound_beat (heartbeat status count) = beat status count
bound_beat no_body = WorkerHandler.no_body
bound_beat _ = WorkerHandler.bad_body

-- `binding:"required"`
abbrev pub required_id : JobReport → Option JobReport
required_id report = if is_empty report.job_id then none else some report

abbrev pub bound_report : Body → Option JobReport
bound_report (completed job_id id) =
    required_id (record { job_id = job_id; deployment_id = id; error = [] })
bound_report (failure job_id id e) =
    required_id (record { job_id = job_id; deployment_id = id; error = e })
bound_report _ = none

-- The repositories of the router, and the variable of the environment.
pub record Plane (S : Type 0) : Type 0 where
  pub workers : WorkerRepository S
  pub jobs : JobRepository S
  pub deployments : Option (DeploymentRepository S)
  pub app_base_domain : Text

module _ {S : Type 0} (plane : Plane S) (now : ℕ) where
  unfoldable pub handle : Body → Route → Program S Reply
  unfolding WorkerHandler.register_worker WorkerHandler.heartbeat WorkerHandler.claim_job
      WorkerHandler.job_complete WorkerHandler.job_failed
  handle body to_register =
      WorkerHandler.register_worker plane.workers plane.jobs plane.deployments plane.app_base_domain
        now (bound_registration body)
  handle body (to_heartbeat id) =
      WorkerHandler.heartbeat plane.workers plane.jobs plane.deployments plane.app_base_domain now
        id (bound_beat body)
  handle body (to_claim id) =
      WorkerHandler.claim_job plane.workers plane.jobs plane.deployments plane.app_base_domain now
        id
  handle body (to_complete id) =
      WorkerHandler.job_complete plane.workers plane.jobs plane.deployments plane.app_base_domain
        now id (bound_report body)
  handle body (to_failed id) =
      WorkerHandler.job_failed plane.workers plane.jobs plane.deployments plane.app_base_domain now
        id (bound_report body)

  abbrev pub handle_found : Body → Option Route → Program S Reply
  handle_found body none s =
      (record { code = 404; body = error_body (codes "404 page not found") }, s)
  handle_found body (some r) s = handle body r s

  -- `base` is the URL of the control plane.
  unfoldable pub serve : Text → Request → Program S Reply
  unfolding route handle drop_prefix
  serve base req = handle_found req.body (route (is_get req.body) (drop_prefix base req.url))
