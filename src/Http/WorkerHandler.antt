-- ===== src/Http/WorkerHandler.antt =====
-- `WorkerHandler` of control-plane/internal/httpapi/workers.go. What `BindJSON` makes of a body is an
-- argument: `none` where it fails.
pub mod Reported
pub mod Reports
use mesh_vpn.Store.Errors.{◌>>=◌, ◌>>◌, Program, Result, err, no_queued_jobs, ok, pure}
use mesh_vpn.Domain.{DeploymentJob, DeploymentRecord, Worker, WorkerCapabilities, idle}
use mesh_vpn.Text.{Text, codes, is_empty, to_lower, trim_char, trim_space}
use mesh_vpn.Store.Repositories.{DeploymentRepository, JobRepository, WorkerRepository}
use mesh_vpn.Base.{List, Option, [], if◌then◌else◌, none, some, ℕ, ◌++◌}
use mesh_vpn.Base.Int.{pos, ℤ}
use mesh_vpn.Service.Reconcile.{running_status}
use mesh_vpn.Http.Replies.{
  Reply, bad_request, job_body, server_error, status_body, success, worker_body, workers_body,
}

pub record RegisterRequest : Type 0 where
  pub worker_id : Text
  pub name : Text
  pub tailscale_ip : Text
  pub hostname : Text
  pub capabilities : WorkerCapabilities

-- A body that is absent, that does not parse, or that gives a status and a count.
pub data HeartbeatBody : Type 0 where
  no_body bad_body : HeartbeatBody
  beat : Text → ℤ → HeartbeatBody

pub record JobReport : Type 0 where
  pub job_id : Text
  pub deployment_id : Text
  pub error : Text

abbrev pub registered_worker : RegisterRequest → Worker
registered_worker req = record {
  worker_id = req.worker_id;
  name = req.name;
  tailscale_ip = req.tailscale_ip;
  hostname = req.hostname;
  status = idle;
  capabilities = req.capabilities;
  max_concurrent_jobs = req.capabilities.max_concurrent_jobs;
  current_jobs = pos 0;
  last_heartbeat = none;
  created_at = 0;
  updated_at = 0;
}

-- `app_base_domain` is the variable of the environment.
unfoldable pub build_worker_deployment_url : Text → Text → Text
unfolding trim_char to_lower trim_space
build_worker_deployment_url app_base_domain subdomain =
    let base = trim_char b'.' (to_lower (trim_space app_base_domain)) in
    codes "https://"
    ++ subdomain
    ++ codes "."
    ++ (if is_empty base then codes "keshavstack.tech" else base)

-- The container and the URL where the record has none.
abbrev pub or_container : Text → Text → Text
or_container container id =
    if is_empty (trim_space container) then codes "app-" ++ id else container

abbrev pub or_url : Text → DeploymentRecord → Text
or_url env rec =
    if is_empty (trim_space rec.url) then build_worker_deployment_url env rec.subdomain else rec.url

unfoldable pub completed_record : Text → Text → Text → DeploymentRecord → DeploymentRecord
unfolding trim_space build_worker_deployment_url
completed_record env worker id rec = record rec {
  status = running_status;
  owner_worker_id = worker;
  container = or_container rec.container id;
  url = or_url env rec;
  error = [];
  finished_at = none;
  build_logs = rec.build_logs ++ codes "\n=== worker ===\nremote worker reported job complete\n";
}

unfoldable pub reported_failed : Text → ℕ → Text → Text → Text → DeploymentRecord → DeploymentRecord
unfolding trim_space build_worker_deployment_url
reported_failed env now worker id e rec = record rec {
  status = codes "failed";
  owner_worker_id = worker;
  container = or_container rec.container id;
  url = or_url env rec;
  error = e;
  finished_at = some now;
  build_logs = rec.build_logs ++ codes "\n=== worker error ===\n" ++ e ++ codes "\n";
}

module _ {S : Type 0} where
  abbrev pub write_found :
      DeploymentRepository S
      → (DeploymentRecord → DeploymentRecord)
      → Result DeploymentRecord
      → Program S (Unit {0})
  write_found repo write (err e) = pure tt
  write_found repo write (ok rec) = repo.update (write rec)

  -- The write to the record of the deployment, where there is one.
  unfoldable pub write_deployment :
      Option (DeploymentRepository S)
      → Text
      → (DeploymentRecord → DeploymentRecord)
      → Program S (Unit {0})
  write_deployment none id write = pure tt
  write_deployment (some repo) id write =
      if is_empty id then pure tt else repo.get id >>= write_found repo write

module _ {S : Type 0} (workers : WorkerRepository S) (jobs : JobRepository S)
    (deployments : Option (DeploymentRepository S)) (env : Text) where
  abbrev pub reply_registered : Worker → Result (Unit {0}) → Reply
  reply_registered w (err e) = server_error (codes "failed to register worker")
  reply_registered w (ok _) = success (worker_body w)

  unfoldable pub register_worker : ℕ → Option RegisterRequest → Program S Reply
  register_worker now none = pure (bad_request (codes "invalid request payload"))
  register_worker now (some req) = do
    outcome ← workers.register now (registered_worker req)
    pure (reply_registered (registered_worker req) outcome)

  abbrev pub reply_updated : Result (Unit {0}) → Reply
  reply_updated (err e) = server_error (codes "heartbeat status update failed")
  reply_updated (ok _) = success (status_body (codes "ok"))

  abbrev pub set_reported : ℕ → Text → ℤ → Result Worker → Program S Reply
  set_reported now status count (err e) =
      pure (server_error (codes "heartbeat worker lookup failed"))
  set_reported now status count (ok w) = do
    outcome ← workers.update now (record w { status = status; current_jobs = count })
    pure (reply_updated outcome)

  abbrev pub after_beat : ℕ → Text → Text → ℤ → Result (Unit {0}) → Program S Reply
  after_beat now id status count (err e) = pure (server_error (codes "heartbeat update failed"))
  after_beat now id status count (ok _) =
      if is_empty status
      then pure (success (status_body (codes "ok")))
      else workers.get id >>= set_reported now status count

  unfoldable pub heartbeat : ℕ → Text → HeartbeatBody → Program S Reply
  heartbeat now id bad_body = pure (bad_request (codes "invalid heartbeat payload"))
  heartbeat now id no_body = workers.update_heartbeat now id >>= after_beat now id [] (pos 0)
  heartbeat now id (beat status count) =
      workers.update_heartbeat now id >>= after_beat now id status count

  abbrev pub reply_claimed : Result DeploymentJob → Reply
  reply_claimed (ok job) = success (job_body (some job))
  reply_claimed (err no_queued_jobs) = success (job_body none)
  reply_claimed (err _) = server_error (codes "failed to claim job")

  unfoldable pub claim_job : ℕ → Text → Program S Reply
  claim_job now id = do claimed ← jobs.claim_for_worker now id; pure (reply_claimed claimed)

  abbrev pub after_count :
      Text → (DeploymentRecord → DeploymentRecord) → Result (Unit {0}) → Program S Reply
  after_count id write (err e) = pure (server_error (codes "failed to decrement worker job count"))
  after_count id write (ok _) =
      write_deployment deployments id write >> pure (success (status_body (codes "ok")))

  abbrev pub after_mark :
      ℕ
      → Text
      → Text
      → Text
      → (DeploymentRecord → DeploymentRecord)
      → Result (Unit {0})
      → Program S Reply
  after_mark now worker text id write (err e) = pure (server_error text)
  after_mark now worker text id write (ok _) =
      workers.decrement_job_count now worker >>= after_count id write

  unfoldable pub job_complete : ℕ → Text → Option JobReport → Program S Reply
  unfolding write_deployment completed_record
  job_complete now worker none = pure (bad_request (codes "job_id required"))
  job_complete now worker (some report) =
      jobs.mark_done now report.job_id
      >>= after_mark now worker (codes "failed to mark job done") report.deployment_id
          (completed_record env worker report.deployment_id)

  unfoldable pub job_failed : ℕ → Text → Option JobReport → Program S Reply
  unfolding write_deployment reported_failed
  job_failed now worker none = pure (bad_request (codes "job_id required"))
  job_failed now worker (some report) =
      jobs.mark_failed now report.job_id report.error
      >>= after_mark now worker (codes "failed to mark job failed") report.deployment_id
          (reported_failed env now worker report.deployment_id report.error)

  abbrev reply_listed : Result (List Worker) → Reply
  reply_listed (err e) = server_error (codes "failed to list workers")
  reply_listed (ok ws) = success (workers_body ws)

  unfoldable pub list_workers : Program S Reply
  list_workers = do listed ← workers.list; pure (reply_listed listed)
