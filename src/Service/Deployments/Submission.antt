-- ===== src/Service/Deployments/Submission.antt =====
-- What becomes of a request for a deployment in a control plane without a database.
use mesh_vpn.Store.Memory
use mesh_vpn.Store.Jobs
use mesh_vpn.Store.Memory.{Memory}
use mesh_vpn.Domain.{DeploymentJob, DeploymentRecord}
use mesh_vpn.Text.{Text, trim_space}
use mesh_vpn.Store.Jobs.{queued, Jobs}
use mesh_vpn.Store.Errors.{ok}
use mesh_vpn.Store.Jobs.Fifo.{waiting, waiting-enqueue}
use mesh_vpn.Service.Requests.{Checked, DeployRequest, valid, ServiceError, invalid}
use mesh_vpn.Service.Deployments.{enqueue_deploy, submit, enqueue_checked, submit_if}
use mesh_vpn.Service.Building.{
  Ids, Maps, build_job, build_record, queued_status, build, check_maps, check_request,
}
use mesh_vpn.Base.{[], arith, none, refl, ℕ, ◌++◌, ◌∷◌, ◌≡◌, inl, inr, ◌∙◌, ◌⊎◌, subst, sym}
use mesh_vpn.Store.Memory.Listing.{get-write}
use mesh_vpn.Text.Laws.{text_eq_refl}
use mesh_vpn.Service.Subdomains.{generate_subdomain, if_unique, is_subdomain_unique}

-- The job is the one that deploys the record.
pub record Deploys (job : DeploymentJob) (rec : DeploymentRecord) : Type 0 where
  pub deployment_id : job.deployment_id ≡ rec.deployment_id
  pub repo : job.repo ≡ rec.repo
  pub subdomain : job.subdomain ≡ rec.subdomain
  pub port : job.port ≡ rec.port
  pub scaling_mode : job.scaling_mode ≡ rec.scaling_mode
  pub min_replicas : job.min_replicas ≡ rec.min_replicas
  pub max_replicas : job.max_replicas ≡ rec.max_replicas
  pub cpu_target : job.cpu_target ≡ rec.cpu_target
  pub cpu_request : job.cpu_request ≡ rec.cpu_request
  pub cpu_limit : job.cpu_limit ≡ rec.cpu_limit
  pub node_selector : job.node_selector ≡ rec.node_selector
  pub env : job.env ≡ rec.env
  pub build_args : job.build_args ≡ rec.build_args
  pub cpu_cores : job.cpu_cores ≡ rec.cpu_cores
  pub memory_mb : job.memory_mb ≡ rec.memory_mb
  pub requested_by : job.requested_by ≡ rec.requested_by

-- What a request that was accepted as `rec` leaves: the record, marked as queued and readable under
-- its new id, and behind the jobs that waited before one job that deploys it and has no worker.
pub record Submitted (ids : Ids) (rec : DeploymentRecord) (before after : Memory) : Type 0 where
  pub id : rec.deployment_id ≡ ids.deployment_id
  pub marked : rec.status ≡ queued_status
  pub stored : (Memory.get ids.deployment_id after.deployments).0 ≡ ok rec
  pub job : DeploymentJob
  pub deploys : Deploys job rec
  pub no_worker : job.assigned_worker_id ≡ []
  pub waits :
      waiting after.jobs
      ≡ waiting before.jobs
        ++ record { job = job; status = queued; last_error = []; finished_at = none } ∷ []

abbrev pub submits : Ids → ℕ → DeployRequest → Memory → Checked DeploymentRecord × Memory
submits = enqueue_deploy Memory.deployment_repository Memory.job_repository

submit-Submitted :
    (ids : Ids) (now : ℕ) (req : DeployRequest) (subdomain : Text) (maps : Maps) (s : Memory)
    → let rec = build_record ids now req subdomain maps in
      let out =
        submit Memory.deployment_repository Memory.job_repository rec
          (build_job ids now req subdomain maps)
          s in
      (out.0 ≡ valid rec) × Submitted ids rec s out.1
unfolding submit
submit-Submitted ids now req subdomain maps s = (
  unfold Jobs.enqueue in refl,
  record {
    id = refl;
    marked = refl;
    stored =
        (get-write ids.deployment_id (build_record ids now req subdomain maps) s.deployments).0
        ∙ rw (text_eq_refl ids.deployment_id);
    job = build_job ids now req subdomain maps;
    deploys = ground arith;
    no_worker = refl;
    waits = waiting-enqueue (build_job ids now req subdomain maps) s.jobs;
  },
)

-- A request is refused, and nothing changes; or it is accepted.
abbrev pub Outcome : Ids → Memory → Checked DeploymentRecord × Memory → Type 0
Outcome ids s out =
    ((e : ServiceError) × (out ≡ (invalid e, s)))
    ⊎ ((rec : DeploymentRecord) × (out.0 ≡ valid rec) × Submitted ids rec s out.1)

Checked-cases {ℓ} :
    {A : Type ℓ} (c : Checked A)
    → ((e : ServiceError) × (c ≡ invalid e)) ⊎ ((a : A) × (c ≡ valid a))
Checked-cases (valid a) = inr (a, refl)
Checked-cases (invalid e) = inl (e, refl)

build-Outcome :
    (ids : Ids) (now : ℕ) (req : DeployRequest) (named : Checked Text) (s : Memory)
    → Outcome ids s
        (submit_if Memory.deployment_repository Memory.job_repository (build ids now req named) s)
unfolding build submit_if
build-Outcome ids now req (invalid e) s = inl (e, refl)
build-Outcome ids now req (valid subdomain) s = elim (Checked-cases (check_maps req)) [
  | inl (e, c) ↦ rw (c, build) (inl (e, refl))
  | inr (maps, c) ↦
      rw (c, build)
        (let (answered, after) = submit-Submitted ids now req subdomain maps s in
          inr (build_record ids now req subdomain maps, answered, after))
]

generate_subdomain-state :
    (short_id repo_url given : Text) (s : Memory)
    → (generate_subdomain Memory.deployment_repository short_id repo_url given s).1 ≡ s
unfolding generate_subdomain if_unique is_subdomain_unique Memory.list
generate_subdomain-state short_id repo_url given s = ground arith

checked-Outcome :
    (ids : Ids) (now : ℕ) (c : Checked DeployRequest) (s : Memory)
    → Outcome ids s (enqueue_checked Memory.deployment_repository Memory.job_repository ids now c s)
unfolding enqueue_checked
checked-Outcome ids now (invalid e) s = inl (e, refl)
checked-Outcome ids now (valid req) s =
    let named =
      generate_subdomain Memory.deployment_repository ids.short_id (trim_space req.repo)
        req.subdomain s in
    subst
      (λ t. Outcome ids s (
        submit_if Memory.deployment_repository Memory.job_repository (build ids now req named.0) t))
      (sym (generate_subdomain-state ids.short_id (trim_space req.repo) req.subdomain s))
      (build-Outcome ids now req named.0 s)

-- Without a database a request is refused, with nothing stored and nothing enqueued; or it is
-- accepted, and then its record is stored as queued and exactly one job, which deploys that record,
-- stands behind the jobs that waited before.
pub enqueue_deploy-Outcome :
    (ids : Ids) (now : ℕ) (req : DeployRequest) (s : Memory) → Outcome ids s (submits ids now req s)
unfolding enqueue_deploy
enqueue_deploy-Outcome ids now req s = checked-Outcome ids now (check_request req) s
