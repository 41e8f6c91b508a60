-- ===== src/Service/Requeue/Waiting.antt =====
-- The job that `requeueDeployment` of control-plane/internal/service/distributor.go leaves in the queue.
use mesh_vpn.Store.Memory
use mesh_vpn.Store.Jobs
use mesh_vpn.Store.Jobs.Fifo.{waiting, waiting-enqueue}
use mesh_vpn.Service.Deployments.Submission.{Deploys}
use mesh_vpn.Domain.{DeploymentJob, DeploymentRecord}
use mesh_vpn.Text.{Text, remove_all}
use mesh_vpn.Store.Jobs.{Jobs, queued}
use mesh_vpn.Store.Memory.{Memory}
use mesh_vpn.Base.{[], arith, none, refl, take, ℕ, ◌++◌, ◌∷◌, ◌≡◌}
use mesh_vpn.Service.Requeue.{
  Distribution, after_enqueue, next_job_id, requeue_deployment, requeued_job,
}

-- One job that deploys the record, and has no worker, stands behind those that waited.
pub record Waits (dep : DeploymentRecord) (before after : Jobs) : Type 0 where
  pub job : DeploymentJob
  pub deploys : Deploys job dep
  pub no_worker : job.assigned_worker_id ≡ []
  pub waits :
      waiting after
      ≡ waiting before
        ++ record { job = job; status = queued; last_error = []; finished_at = none } ∷ []

-- Over the in-memory stores, a deployment that is requeued has exactly one new job, which deploys it
-- as it was recorded and has no worker, behind all jobs that waited before.
pub requeue_deployment-Waits :
    (uuid : ℕ → Text) (now : ℕ) (dep : DeploymentRecord) (reason : Text) (s : Distribution Memory)
    → Waits dep s.repositories.jobs
        (requeue_deployment uuid Memory.job_repository Memory.deployment_repository now dep reason
          s).1.repositories.jobs
unfolding requeue_deployment next_job_id after_enqueue Jobs.enqueue
requeue_deployment-Waits uuid now dep reason s = record {
  job = requeued_job (take 12 (remove_all b'-' (uuid s.drawn))) now dep;
  deploys = ground arith;
  no_worker = refl;
  waits =
      waiting-enqueue (requeued_job (take 12 (remove_all b'-' (uuid s.drawn))) now dep)
        s.repositories.jobs;
}
