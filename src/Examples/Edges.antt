-- ===== src/Examples/Edges.antt =====
-- The theorems on the worker, the handlers and the router at concrete data.
use mesh_vpn.Store.Memory
use mesh_vpn.Domain.{idle}
use mesh_vpn.Text.{Text, codes, is_empty, text_eq}
use mesh_vpn.Router.{
  Request, cache_after, cache_get, cache_set, entry_of, get_worker_ip, put, query,
}
use mesh_vpn.Store.Memory.{Memory}
use mesh_vpn.Store.Memory.Lawful.{memory_laws}
use mesh_vpn.Base.{List, [], arith, first, if◌then◌else◌, none, refl, some, true, ℕ, ◌∷◌, ◌≡◌}
use mesh_vpn.Base.Int.{lt_ℤ, pos}
use mesh_vpn.Service.Requests.{invalid, max_below_min, valid}
use mesh_vpn.Service.DeploymentWorker.{Runner, Times, WorkerSettings, not_deployed, run_job}
use mesh_vpn.Service.Autoscaling.{normalize}
use mesh_vpn.Service.LiveLogs.{LiveLogs, append_live_logs, byte_length}
use mesh_vpn.Service.DeploymentWorker.Settled.{IsSettled, run_job-IsSettled}
use mesh_vpn.Service.LiveLogs.Captured.{IsCaptured, append_live_logs-IsCaptured}
use mesh_vpn.Router.Staleness.{IsRecent, get_worker_ip-IsRecent}
use mesh_vpn.Domain.Packages.{PackageSpec, get_package_spec}
use mesh_vpn.Http.DeployHandler.{Caller, DeployPayload, deploy_request}
use mesh_vpn.Http.WorkerHandler.{JobReport, job_complete, job_failed}
use mesh_vpn.Http.Replies.{Reply}
use mesh_vpn.Http.WorkerHandler.Reports.{job_complete-IsCompleted, job_failed-IsFailed}
use mesh_vpn.Http.WorkerHandler.Reported.{IsCompleted, IsFailed, IsRewrittenIf, is_about}
use mesh_vpn.Http.DeployHandler.Request.{deploy_request-normalize}
use mesh_vpn.Examples.Data.{
  a_deployment, a_job, a_worker, fixed_workers, one_deployment, queued_job,
}

abbrev stored : Memory
stored = one_deployment (a_deployment (codes "d1") [] (codes "queued"))

-- A runner that logs two chunks and fails.
abbrev a_runner : Runner
a_runner = record {
  deploy = λ job. record {
    updates = (21, codes "clone") ∷ (22, codes "build") ∷ [];
    build_logs = [];
    outcome = not_deployed (codes "build failed");
  };
  apply_cpu_autoscaling = λ container low high target. ([], none);
}

abbrev worker_settings : WorkerSettings
worker_settings = record { worker_id = codes "w1"; enable_cpu_hpa = true; use_assigned = true }

abbrev times_of_run : Times
times_of_run = record { claimed = 10; logging = 20; returned = 30; finished = 40; settled = 41 }

run_job-IsSettled_example :
    IsSettled Memory.deployment_repository Memory.job_repository memory_laws a_runner
      worker_settings times_of_run
      (codes "d1")
      (a_runner.deploy (a_job (codes "j1") []))
      (run_job Memory.deployment_repository Memory.job_repository a_runner worker_settings
        times_of_run
        (a_job (codes "j1") [])
        stored).1
run_job-IsSettled_example =
    run_job-IsSettled Memory.deployment_repository Memory.job_repository memory_laws a_runner
      worker_settings times_of_run (a_job (codes "j1") [])
      (a_deployment (codes "d1") [] (codes "queued")) stored
      (unfold Memory.get Memory.lookup text_eq in refl)

abbrev live : LiveLogs
live = record { build_logs = []; persisted_length = 0; persisted_at = 20 }

abbrev chunks : List (ℕ × Text)
chunks = (21, codes "clone") ∷ (22, codes "build") ∷ []

abbrev updated : LiveLogs × Memory
updated =
    append_live_logs Memory.deployment_repository (codes "w1")
      (a_deployment (codes "d1") [] (codes "queued")) chunks live stored

append_live_logs-IsCaptured_example :
    IsCaptured Memory.deployment_repository Memory.job_repository memory_laws
      (codes "w1")
      (a_deployment (codes "d1") [] (codes "queued"))
      updated.0
      updated.1
append_live_logs-IsCaptured_example =
    append_live_logs-IsCaptured Memory.deployment_repository Memory.job_repository memory_laws
      (codes "w1") (a_deployment (codes "d1") [] (codes "queued")) chunks live stored
      (record {
        held = a_deployment (codes "d1") [] (codes "queued");
        seen = unfold memory_laws Memory.lookup text_eq in refl;
        length_known = unfold byte_length in refl;
        no_lag = unfold byte_length in omega arith;
      })

abbrev report : JobReport
report = record { job_id = codes "j1"; deployment_id = codes "d1"; error = codes "no space" }

-- The job is in the queue.
abbrev with_job : Memory
with_job = record stored { jobs = queued_job (codes "j1") (codes "w1") ∷ [] }

with_job_valid : memory_laws.IsValid with_job
unfolding memory_laws Memory.lookup
with_job_valid = (record { listed = λ id. ground arith; distinct = (refl, tt) }, (refl, tt))

abbrev completed : Reply × Memory
completed =
    job_complete (fixed_workers []) Memory.job_repository (some Memory.deployment_repository) [] 9
      (codes "w1") (some report) with_job

job_complete-IsCompleted_example :
    IsRewrittenIf
      (is_about (codes "d1") (codes "d1") completed.0)
      (IsCompleted [] (codes "w1") (codes "d1"))
      (memory_laws.view (codes "d1") with_job)
      (memory_laws.view (codes "d1") completed.1)
job_complete-IsCompleted_example =
    job_complete-IsCompleted (fixed_workers []) Memory.job_repository Memory.deployment_repository
      memory_laws [] (λ id now worker s. refl) (codes "d1") 9 (codes "w1") report with_job
      with_job_valid

abbrev reported : Reply × Memory
reported =
    job_failed (fixed_workers []) Memory.job_repository (some Memory.deployment_repository) [] 9
      (codes "w1") (some report) with_job

job_failed-IsFailed_example :
    IsRewrittenIf
      (is_about (codes "d1") (codes "d1") reported.0)
      (IsFailed [] 9 (codes "w1") (codes "d1") (codes "no space"))
      (memory_laws.view (codes "d1") with_job)
      (memory_laws.view (codes "d1") reported.1)
job_failed-IsFailed_example =
    job_failed-IsFailed (fixed_workers []) Memory.job_repository Memory.deployment_repository
      memory_laws [] (λ id now worker s. refl) (codes "d1") 9 (codes "w1") report with_job
      with_job_valid

abbrev payload : DeployPayload
payload = record {
  repo = codes "https://github.com/user/my-app";
  port = pos 0;
  subdomain = [];
  package_name = codes "small";
  min_replicas = pos 9;
  max_replicas = pos 0;
  cpu_target_utilization = pos 0;
  node_selector = [];
  env = [];
  build_args = [];
}

abbrev caller : Caller
caller = record { sub = codes "ann"; user_id = [] }

abbrev small_spec : PackageSpec
small_spec = record { cpu_cores = pos 500; memory_mb = pos 512; max_replicas = pos 3 }

-- Nine replicas at least are more than a small package allows.
deploy_request-normalize_example :
    normalize (deploy_request payload caller (codes "small") small_spec) ≡ (
      if lt_ℤ
        (deploy_request payload caller (codes "small") small_spec).max_replicas
        (deploy_request payload caller (codes "small") small_spec).min_replicas
      then invalid max_below_min
      else valid (deploy_request payload caller (codes "small") small_spec))
deploy_request-normalize_example =
    deploy_request-normalize payload caller (codes "small") small_spec
      (unfold get_package_spec text_eq in refl)

-- The deployment my-app runs on w1.
abbrev asked : ℕ → Request
asked now = record {
  at = now;
  subdomain = codes "my-app";
  deployments = a_deployment (codes "d1") (codes "w1") (codes "running") ∷ [];
  workers = a_worker (codes "w1") idle (pos 0) ∷ [];
  fault = none;
}

get_worker_ip-IsRecent_example :
    IsRecent 15 12 (codes "my-app") (codes "100.64.0.2") (asked 12 ∷ asked 3 ∷ [])
get_worker_ip-IsRecent_example =
    get_worker_ip-IsRecent 15 (asked 3 ∷ []) (asked 12) (codes "100.64.0.2") (
      unfold get_worker_ip cache_after cache_get cache_set query entry_of put first text_eq
        is_empty in
      refl)
