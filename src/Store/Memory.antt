-- ===== src/Store/Memory.antt =====
-- The stores of a control plane without a database: `InMemoryDeploymentRepository` of
-- control-plane/internal/store/repository.go, and with it the queue of jobs.go.
pub mod Listing
pub mod Lawful
use mesh_vpn.Store.Jobs
use mesh_vpn.Domain.{DeploymentRecord}
use mesh_vpn.Text.{Text, text_eq}
use mesh_vpn.Store.Repositories.{DeploymentRepository, JobRepository}
use mesh_vpn.Store.Jobs.{Jobs, claim_for_worker, claim_next}
use mesh_vpn.Store.Errors.{Exec, Program, deployment_not_found, err, ok}
use mesh_vpn.Base.{Bool, List, Option, [], if◌then◌else◌, none, some, true, ◌∷◌}

-- A Go map is the list of its entries. `order` has the newest id first.
pub record Deployments : Type 0 where
  pub records : List (Text × DeploymentRecord)
  pub order : List Text

unfoldable pub lookup : Text → List (Text × DeploymentRecord) → Option DeploymentRecord
lookup id [] = none
lookup id ((key, rec) ∷ records) =
    let rest = lookup id records in if text_eq key id then some rec else rest

-- `records[id] = rec`
unfoldable pub store :
    Text → DeploymentRecord → List (Text × DeploymentRecord) → List (Text × DeploymentRecord)
store id rec [] = (id, rec) ∷ []
store id rec ((key, old) ∷ records) =
    let rest = store id rec records in
    if text_eq key id then (key, rec) ∷ records else (key, old) ∷ rest

unfoldable pub start : DeploymentRecord → Program Deployments (Unit {0})
unfolding lookup store
start rec s = (
  tt,
  record {
    records = store rec.deployment_id rec s.records;
    order = elim (lookup rec.deployment_id s.records) [
      | none ↦ rec.deployment_id ∷ s.order
      | some old ↦ s.order
    ];
  },
)

unfoldable pub update : DeploymentRecord → Program Deployments (Unit {0})
unfolding store
update rec s = (tt, record s { records = store rec.deployment_id rec s.records })

unfoldable pub get : Text → Exec Deployments DeploymentRecord
unfolding lookup
get id s = elim (lookup id s.records) [
  | none ↦ (err deployment_not_found, s)
  | some rec ↦ (ok rec, s)
]

-- The records of the ids that have one and pass a test, in order.
unfoldable pub collect :
    (DeploymentRecord → Bool) → List (Text × DeploymentRecord) → List Text → List DeploymentRecord
unfolding lookup
collect test records [] = []
collect test records (id ∷ ids) =
    let rest = collect test records ids in
    elim (lookup id records) [ none ↦ rest | some rec ↦ if test rec then rec ∷ rest else rest ]

unfoldable pub list : Program Deployments (List DeploymentRecord)
unfolding collect
list s = (collect (λ rec. true) s.records s.order, s)

unfoldable pub list_by_user_id : Text → Program Deployments (List DeploymentRecord)
unfolding collect
list_by_user_id user s = (collect (λ rec. text_eq rec.user_id user) s.records s.order, s)

pub record Memory : Type 0 where
  pub deployments : Deployments
  pub jobs : Jobs.Jobs

abbrev on_deployments : {A : Type 0} → Program Deployments A → Program Memory A
on_deployments m s = let (a, d) = m s.deployments in (a, record s { deployments = d })

abbrev on_jobs : {A : Type 0} → Program Jobs.Jobs A → Program Memory A
on_jobs m s = let (a, j) = m s.jobs in (a, record s { jobs = j })

abbrev pub job_repository : JobRepository Memory
job_repository = record {
  enqueue = λ job. on_jobs (Jobs.enqueue job);
  claim_next = λ now. on_jobs (Jobs.claim_next now);
  mark_done = λ now id. on_jobs (Jobs.mark_done now id);
  mark_failed = λ now id text. on_jobs (Jobs.mark_failed now id text);
  assign_to_worker = λ now id worker. on_jobs (Jobs.assign_to_worker now id worker);
  release_from_worker = λ id. on_jobs (Jobs.release_from_worker id);
  claim_for_worker = λ now worker. on_jobs (Jobs.claim_for_worker now worker);
  get_next_unassigned_job = on_jobs Jobs.get_next_unassigned_job;
}

abbrev pub deployment_repository : DeploymentRepository Memory
deployment_repository = record {
  start = λ rec. on_deployments (start rec);
  update = λ rec. on_deployments (update rec);
  get = λ id. on_deployments (get id);
  list = on_deployments list;
  list_by_user_id = λ user. on_deployments (list_by_user_id user);
}
