-- ===== src/Examples/Reconciliation.antt =====
-- The theorems on the reconciliations at concrete data.
use mesh_vpn.Store.Jobs
use mesh_vpn.Store.Database.{job_repository, deployment_repository}
use mesh_vpn.Store.Memory
use mesh_vpn.Domain.{DeploymentRecord}
use mesh_vpn.Text.{
  Text, codes, is_empty, is_space, text_eq, trim_both, trim_left, trim_space, remove_all,
}
use mesh_vpn.Store.Database.{Database, worker_repository}
use mesh_vpn.Store.Memory.{Memory}
use mesh_vpn.Store.Workers.Lookup.{find}
use mesh_vpn.Store.Memory.Lawful.{memory_laws}
use mesh_vpn.Store.Repositories.Laws.{map_record}
use mesh_vpn.Base.{[], arith, false, refl, some, ℕ, ◌∙◌, ◌≡◌, ◌∷◌, keep}
use mesh_vpn.Service.Requeue.{
  Distribution, requeued_record, after_enqueue, next_job_id, requeue_deployment,
}
use mesh_vpn.Service.Reconcile.{
  failover_reason, is_offline_in, is_stranded, reconcile_worker_health,
}
use mesh_vpn.Service.Reconcile.Failover.{
  failed_over, failover, reconcile_offline_deployments-settled, reconcile_offline_deployments-view,
}
use mesh_vpn.Service.Reconcile.Silent.{IsJudged, reconcile_worker_health-IsJudged}
use mesh_vpn.Service.Reconcile.FailedOver.{IsFailedOver, reconcile_offline_deployments-IsFailedOver}
use mesh_vpn.Service.Reconcile.{reconcile_rebalance}
use mesh_vpn.Base.{IsRewritten, first}
use mesh_vpn.Examples.Data.{
  fixed_workers, one_deployment, some_settings, stranded, two_workers, a_job,
}
use mesh_vpn.Store.JobTable.{new_row}
use mesh_vpn.Service.Distributor.{distribute_jobs}
use mesh_vpn.Service.Distributor.Assignment.{Distributes, distribute_jobs-Distributes}
use mesh_vpn.Store.Jobs.{Jobs}
use mesh_vpn.Store.Errors.{Result, ok}
use mesh_vpn.Service.Reconcile.Cooldown.{requeue_deployment-rests}
use mesh_vpn.Service.Requeue.Waiting.{Waits, requeue_deployment-Waits}

abbrev distribution : Distribution Memory
distribution = record { repositories = one_deployment stranded; last_shift = []; drawn = 0 }

abbrev some_uuid : ℕ → Text
some_uuid n = codes "123e4567-e89b-12d3-a456-426614174000"

abbrev after_failover : Distribution Memory
after_failover =
    failover some_uuid Memory.job_repository Memory.deployment_repository memory_laws
      (fixed_workers two_workers) 9 distribution

distribution_valid : memory_laws.IsValid distribution.repositories
unfolding Memory.lookup memory_laws
distribution_valid = (record { listed = λ id. ground arith; distinct = (refl, tt) }, (refl, tt))

reconcile_offline_deployments-IsFailedOver_example :
    IsRewritten
      (IsFailedOver two_workers)
      (memory_laws.view (codes "d1") distribution.repositories)
      (memory_laws.view (codes "d1") after_failover.repositories)
reconcile_offline_deployments-IsFailedOver_example =
    reconcile_offline_deployments-IsFailedOver some_uuid Memory.job_repository
      Memory.deployment_repository memory_laws (fixed_workers two_workers) two_workers 9
      (codes "d1") distribution refl distribution_valid

-- No record of d1 is stranded behind the failover, so this one, which is what it leaves, is not.
abbrev rescued : DeploymentRecord
rescued = requeued_record failover_reason stranded

rescues : memory_laws.view (codes "d1") after_failover.repositories ≡ some rescued
rescues =
    seen_d1
    ∙ unfold memory_laws is_stranded is_offline_in trim_space trim_both trim_left is_space is_empty
        text_eq Memory.lookup in
      refl
  where
    seen_d1 :
        memory_laws.view (codes "d1") after_failover.repositories
        ≡ map_record
            (failed_over two_workers)
            (memory_laws.view (codes "d1") distribution.repositories)
    seen_d1 =
        reconcile_offline_deployments-view some_uuid Memory.job_repository
          Memory.deployment_repository memory_laws (fixed_workers two_workers) two_workers 9
          (codes "d1") distribution refl distribution_valid

reconcile_offline_deployments-settled_example : is_stranded two_workers rescued ≡ false
reconcile_offline_deployments-settled_example =
    reconcile_offline_deployments-settled some_uuid Memory.job_repository
      Memory.deployment_repository memory_laws (fixed_workers two_workers) two_workers 9
      (codes "d1") rescued distribution refl distribution_valid rescues

-- The worker w2 is silent for longer than the timeout.
abbrev database : Database
database = record { workers = two_workers; jobs = []; deployments = []; users = []; faults = [] }

reconcile_worker_health-IsJudged_example :
    IsRewritten (IsJudged some_settings 100) (find (codes "w2") database.workers) (
      find
        (codes "w2")
        (reconcile_worker_health worker_repository some_settings 100 database).1.workers)
unfolding first
reconcile_worker_health-IsJudged_example =
    reconcile_worker_health-IsJudged some_settings 100 (codes "w2") database refl
      (unfold first text_eq in refl, (refl, tt))

-- A job waits, and the worker w2 is free.
abbrev busy_database : Database
busy_database = record database { jobs = new_row (a_job (codes "j1") []) ∷ [] }

distribute_jobs-Distributes_example :
    Distributes 9 busy_database
      (distribute_jobs job_repository worker_repository
        (some deployment_repository)
        some_settings
        9
        busy_database).1
distribute_jobs-Distributes_example = distribute_jobs-Distributes busy_database refl 9 some_settings

-- What requeueing the deployment that is stranded records.
abbrev requeued : Result Text × Distribution Memory
requeued =
    requeue_deployment some_uuid Memory.job_repository Memory.deployment_repository 9 stranded
      failover_reason distribution

requeues : requeued.0 ≡ ok (codes "123e4567e89b")
unfolding requeue_deployment after_enqueue next_job_id remove_all keep Jobs.enqueue
requeues = refl

-- The deployment runs again, on a worker that another one outdoes.
abbrev since : Memory
since = one_deployment (record stranded { owner_worker_id = codes "w1" })

requeue_deployment-rests_example :
    memory_laws.view
      (codes "d1")
      (reconcile_rebalance some_uuid Memory.job_repository Memory.deployment_repository
        (fixed_workers two_workers)
        some_settings
        600
        (record requeued.1 { repositories = since })).1.repositories
    ≡ memory_laws.view (codes "d1") since
requeue_deployment-rests_example =
    requeue_deployment-rests some_uuid Memory.job_repository Memory.deployment_repository
      memory_laws (fixed_workers two_workers) (λ id s. refl) some_settings 9 600 stranded
      failover_reason (codes "123e4567e89b") distribution since requeues (omega arith)

requeue_deployment-Waits_example :
    Waits stranded distribution.repositories.jobs requeued.1.repositories.jobs
requeue_deployment-Waits_example =
    requeue_deployment-Waits some_uuid 9 stranded failover_reason distribution
