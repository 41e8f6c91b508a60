-- ===== src/Service/DeploymentWorker/Settled.antt =====
-- How `processNext` of control-plane/internal/service/worker.go leaves the record of a deployment.
use mesh_vpn.Domain.{DeploymentRecord, DeploymentJob}
use mesh_vpn.Text.{Text, codes}
use mesh_vpn.Store.Repositories.{DeploymentRepository, JobRepository}
use mesh_vpn.Store.Repositories.Laws.{DeploymentLaws}
use mesh_vpn.Service.DeploymentWorker.{
  Deployed, Run, Runner, Times, WorkerSettings, deployed, not_deployed, claimed_record,
  deployed_record, failed_record, logs_or, run_claimed, run_found, run_job, settle, capture,
}
use mesh_vpn.Text.Laws.{text_eq_iff}
use mesh_vpn.Base.{[], arith, some, ℕ, ◌∙◌, ◌≡◌, refl, subst, sym, ◌++◌}
use mesh_vpn.Store.Errors.{ok}
use mesh_vpn.Service.LiveLogs.{LiveLogs}
use mesh_vpn.Store.Jobs.Calls.{run}

-- The id under which a run that has ended is stored.
abbrev pub id_of : Text → Deployed → Text
id_of id (deployed result) = result.deployment_id
id_of id (not_deployed e) = id

-- The record says how the run ended: it runs where and under the name that the runner reports, or
-- has failed with the runner's error; and it is owned by the worker, and finished.
abbrev pub Tells : Text → ℕ → Deployed → DeploymentRecord → Type 0
Tells worker now (deployed result) rec =
    (rec.status ≡ codes "running")
    × (rec.error ≡ [])
    × (rec.url ≡ result.url)
    × (rec.container ≡ result.container)
    × (rec.subdomain ≡ result.subdomain)
    × (rec.owner_worker_id ≡ worker)
    × (rec.finished_at ≡ some now)
Tells worker now (not_deployed e) rec =
    (rec.status ≡ codes "failed")
    × (rec.error ≡ e)
    × (rec.url ≡ [])
    × (rec.container ≡ [])
    × (rec.owner_worker_id ≡ worker)
    × (rec.finished_at ≡ some now)

module _ {S : Type 0} (repo : DeploymentRepository S) (jobs : JobRepository S)
    (laws : DeploymentLaws repo jobs) (runner : Runner) (w : WorkerSettings) (at : Times) where
  -- The record is stored under the id, and tells how the run ended.
  pub record IsSettled (id : Text) (run : Run) (s : S) : Type 0 where
    pub final : DeploymentRecord
    pub stored : laws.view (id_of id run.outcome) s ≡ some final
    pub tells : Tells w.worker_id at.finished run.outcome final

  view_own :
      (id : Text) (rec : DeploymentRecord) (s : S)
      → rec.deployment_id ≡ id
      → laws.view id (repo.update rec s).1 ≡ some rec
  view_own id rec s e =
      laws.view_update id rec s ∙ ground (arith, e, text_eq_iff rec.deployment_id id)

  settle-IsSettled :
      (job : DeploymentJob) (rec : DeploymentRecord) (run : Run) (live : LiveLogs) (s : S)
      → IsSettled rec.deployment_id run (settle repo jobs runner w at job rec run live s).1
  unfolding settle failed_record deployed_record
  settle-IsSettled job rec run live s = settle_outcome run.outcome
    where
      logs : Text → Text
      logs tail = logs_or run.build_logs (live.build_logs ++ tail)

      settle_outcome :
          (outcome : Deployed)
          → IsSettled rec.deployment_id
              (record run { outcome = outcome })
              (settle repo jobs runner w at job rec (record run { outcome = outcome }) live s).1
      settle_outcome (not_deployed e) = record {
        final = failed_record w.worker_id at.finished rec e _;
        stored =
            laws.view_mark_failed rec.deployment_id at.settled job.job_id e _
            ∙ view_own rec.deployment_id (failed_record w.worker_id at.finished rec e _) s refl;
        tells = (refl, refl, refl, refl, refl, refl);
      }
      settle_outcome (deployed result) = record {
        final = deployed_record w.worker_id at.finished rec result _;
        stored =
            laws.view_mark_done result.deployment_id at.settled job.job_id _
            ∙ view_own result.deployment_id (deployed_record w.worker_id at.finished rec result _) s
                refl;
        tells = (refl, refl, refl, refl, refl, refl, refl);
      }

  run_claimed-IsSettled :
      (job : DeploymentJob) (rec : DeploymentRecord) (s : S)
      → IsSettled rec.deployment_id
          (runner.deploy job)
          (run_claimed repo jobs runner w at job rec s).1
  unfolding run_claimed
  run_claimed-IsSettled job rec s =
      settle-IsSettled job rec (runner.deploy job)
        (capture repo jobs runner w at rec (runner.deploy job) s).0
        (capture repo jobs runner w at rec (runner.deploy job) s).1

  -- Over stores that keep the laws, a job whose deployment `Get` finds ends, whatever the runner logs
  -- and returns, with a stored record that tells how the run ended: running where the runner succeeds,
  -- failed with its error where not.
  pub run_job-IsSettled :
      (job : DeploymentJob) (rec : DeploymentRecord) (s : S)
      → repo.get job.deployment_id s ≡ (ok rec, s)
      → IsSettled rec.deployment_id (runner.deploy job) (run_job repo jobs runner w at job s).1
  unfolding run_job claimed_record
  run_job-IsSettled job rec s h =
      subst
        (λ r.
          IsSettled rec.deployment_id (runner.deploy job)
            (run_found repo jobs runner w at job r.0 r.1).1)
        (sym h) (run_claimed-IsSettled job (claimed_record rec) s)
