-- ===== src/Fleet/Stored.antt =====
-- The Postgres repositories of the router as the end of an agent's requests.
use mesh_vpn.Fleet.Queue.{Meter, QueueLaws, Claims, Keeps, Marks}
use mesh_vpn.Fleet.Routes.{Plane}
use mesh_vpn.Domain.{DeploymentJob}
use mesh_vpn.Store.Database
use mesh_vpn.Store.Database.{Database}
use mesh_vpn.Store.Database.Outcomes.{
  committed_table, is_calm, statement-deployments, statement-jobs, statement-workers,
  transaction-cases, transaction_calm,
}
use mesh_vpn.Store.JobTable
use mesh_vpn.Store.Workers
use mesh_vpn.Store.DeploymentTable
use mesh_vpn.Store.JobTable.{JobRow, JobTable, always}
use mesh_vpn.Store.JobTable.Listed.{claim-Other, claim-Takes, queue_of}
use mesh_vpn.Store.JobTable.Marked.{update_job-write}
use mesh_vpn.Store.Jobs.{JobState, done, failed, write_job}
use mesh_vpn.Store.Jobs.Held.{Ends, IsClaimed, IsKeyed, alike-IsKeyed, claim_fails, held}
use mesh_vpn.Store.Repositories.{DeploymentRepository}
use mesh_vpn.Store.Errors.{Exec, Result, database, err, job_not_found, ok}
use mesh_vpn.Store.Jobs.Held.Waiting.{waiting_for}
use mesh_vpn.Text.{Text, is_empty, text_eq}
use mesh_vpn.Base.{
  [], ap, false, ◌+◌, inl, inr, none, refl, some, subst, sym, true, ℕ, ◌∙◌, ◌≡◌, ◌⊎◌,
}
use mesh_vpn.Store.DeploymentTable.{DeploymentTable}
use mesh_vpn.Store.Workers.{Workers}

abbrev pub stored_plane : Text → Plane Database
stored_plane app_base_domain = record {
  workers = Database.worker_repository;
  jobs = Database.job_repository;
  deployments = some Database.deployment_repository;
  app_base_domain = app_base_domain;
}

abbrev pub stored_meter : Meter Database
stored_meter = record { queue = λ db. queue_of db.jobs; is_calm = is_calm }

-- What a statement that ends a job makes of the rows.
abbrev Ending : Text → (JobTable → JobTable) → Type 0
Ending id m =
    (rows : JobTable)
    → (write : JobState → JobState) × Ends write
      × (queue_of (m rows) ≡ (write_job id write (queue_of rows)).1)

done-Ending : (now : ℕ) (id : Text) → Ending id (λ rows. (JobTable.mark_done now id rows).1)
unfolding JobTable.mark_done
done-Ending now id rows = (
  (λ j. record j { status = done; finished_at = some now; last_error = [] }),
  record { same_job = λ j. refl; stops = λ j. refl; leaves = λ j. refl },
  update_job-write id _ _ (λ row. refl) (job_not_found id) rows,
)

failed-Ending :
    (now : ℕ) (id text : Text) → Ending id (λ rows. (JobTable.mark_failed now id text rows).1)
unfolding JobTable.mark_failed
failed-Ending now id text rows = (
  (λ j. record j { status = failed; finished_at = some now; last_error = text }),
  record { same_job = λ j. refl; stops = λ j. refl; leaves = λ j. refl },
  update_job-write id _ _ (λ row. refl) (job_not_found id) rows,
)

-- A statement on the jobs that ends one.
ends-Marks :
    (id : Text) (m : JobTable → JobTable) (db after : Database)
    → Ending id m
    → ((after.jobs ≡ db.jobs) ⊎ (after.jobs ≡ m db.jobs))
    → (is_calm db ≡ true → (after.jobs ≡ m db.jobs) × (is_calm after ≡ true))
    → Marks stored_meter id db after
ends-Marks id m db after ending outcome calm =
    let (write, ends, writes) = ending db.jobs in
    record {
      outcome = elim outcome [
        | inl same ↦ inl (ap queue_of same)
        | inr ran ↦ inr (write, ends, ap queue_of ran ∙ writes)
      ];
      in_calm = λ c. (write, ends, ap queue_of (calm c).0 ∙ writes);
      still_calm = λ c. (calm c).1;
    }

-- A claim that finds no row leaves the rows.
committed-same :
    (rows : JobTable) (p : Result DeploymentJob × JobTable)
    → ((p.1 ≡ rows) ⊎ ((job : DeploymentJob) × (p.0 ≡ ok job)))
    → committed_table rows p ≡ p.1
committed-same rows (ok job, rows') h = refl
committed-same rows (err e, rows') (inl same) = sym same
committed-same rows (err e, rows') (inr (job, h)) = absurd (cc)

abbrev statement_claim : Text → ℕ → Exec JobTable DeploymentJob
statement_claim worker now = JobTable.claim (JobTable.is_for worker) now

stored-Claims :
    (now : ℕ) (worker : Text) (db : Database)
    → is_empty worker ≡ false
    → IsKeyed (queue_of db.jobs)
    → let (out, db') = Database.job_repository.claim_for_worker now worker db in
      Claims stored_meter worker db out db'
stored-Claims now worker db not_empty keyed =
    let m = statement_claim worker now in
    let after = (Database.job_repository.claim_for_worker now worker db).1 in
    let takes = claim-Takes worker not_empty now db.jobs keyed in
    let kept : committed_table db.jobs (m db.jobs) ≡ (m db.jobs).1 =
      committed-same db.jobs (m db.jobs) (elim takes.1 [
        | inl (nothing, same, none_left) ↦ inl same
        | inr (job, is_job, less) ↦ inr (job, is_job)
      ]) in
    record {
      outcome = elim (transaction-cases m db) [
        | inl (text, fails, same) ↦
            subst (λ out. IsClaimed worker (queue_of db.jobs) out (queue_of after.jobs)) (sym fails)
              (subst
                (λ rows. IsClaimed worker (queue_of db.jobs) (err (database text)) (queue_of rows))
                (sym same) (claim_fails text))
        | inr (says, leaves) ↦
            subst (λ out. IsClaimed worker (queue_of db.jobs) out (queue_of after.jobs)) (sym says)
              (subst (λ rows. IsClaimed worker (queue_of db.jobs) (m db.jobs).0 (queue_of rows))
                (sym (leaves ∙ kept)) takes.0)
      ];
      in_calm = λ c.
          let ((says, leaves), calm) = transaction_calm m db c in
          elim takes.1 [
            | inl (nothing, same, none_left) ↦
                inl (says ∙ nothing, ap queue_of (leaves ∙ kept ∙ same), none_left)
            | inr (job, is_job, less) ↦ inr (
              job,
              says ∙ is_job,
              ap (λ rows. waiting_for worker (queue_of rows) + 1) (leaves ∙ kept) ∙ less,
            )
          ];
      still_calm = λ c. (transaction_calm m db c).1;
    }

-- What a worker holds stays where another one claims.
pub claim-Other_stored :
    (now : ℕ) (worker other : Text) (db : Database)
    → text_eq other worker ≡ false
    → is_empty other ≡ false
    → IsKeyed (queue_of db.jobs)
    → let after = (Database.job_repository.claim_for_worker now other db).1 in
      IsKeyed (queue_of after.jobs)
      × ((id : Text) → held worker id (queue_of after.jobs) ≡ held worker id (queue_of db.jobs))
claim-Other_stored now worker other db differs not_empty keyed =
    let m = statement_claim other now in
    let after = (Database.job_repository.claim_for_worker now other db).1 in
    let takes = claim-Takes other not_empty now db.jobs keyed in
    let kept : committed_table db.jobs (m db.jobs) ≡ (m db.jobs).1 =
      committed-same db.jobs (m db.jobs) (elim takes.1 [
        | inl (nothing, same, none_left) ↦ inl same
        | inr (job, is_job, less) ↦ inr (job, is_job)
      ]) in
    let (same_held, same) = claim-Other other not_empty worker differs now db.jobs keyed in
    elim (transaction-cases m db) [
      | inl (text, fails, unchanged) ↦ (
        subst (λ rows. IsKeyed (queue_of rows)) (sym unchanged) keyed,
        λ id. ap (λ rows. held worker id (queue_of rows)) unchanged,
      )
      | inr (says, leaves) ↦ (
        subst (λ rows. IsKeyed (queue_of rows)) (sym (leaves ∙ kept))
            (alike-IsKeyed (queue_of db.jobs) _ same keyed),
        λ id. ap (λ rows. held worker id (queue_of rows)) (leaves ∙ kept) ∙ same_held id,
      )
    ]

same_repository :
    (repo : DeploymentRepository Database) (app_base_domain : Text)
    → (stored_plane app_base_domain).deployments ≡ some repo
    → Database.deployment_repository ≡ repo
same_repository repo app_base_domain e = ap (λ o. elim o [ none ↦ repo | some r ↦ r ]) e

-- The Postgres repositories, whatever statements fail, keep the laws of the queue.
pub stored-QueueLaws :
    (app_base_domain : Text) → QueueLaws (stored_plane app_base_domain) stored_meter
stored-QueueLaws app_base_domain = record {
  claim_takes = stored-Claims;
  done_marks = λ now id db.
      let (outcome, calm) = statement-jobs (JobTable.mark_done now id) db in
      ends-Marks id (λ rows. (JobTable.mark_done now id rows).1) db _ (done-Ending now id) outcome
        calm;
  failed_marks = λ now id text db.
      let (outcome, calm) = statement-jobs (JobTable.mark_failed now id text) db in
      ends-Marks id (λ rows. (JobTable.mark_failed now id text rows).1) db _
        (failed-Ending now id text) outcome calm;
  keeps_register = λ now w db.
      keeps db (Database.worker_repository.register now w db).1
        (statement-workers (Workers.register now w) db);
  keeps_update = λ now w db.
      keeps db (Database.worker_repository.update now w db).1
        (statement-workers (Workers.update now w) db);
  keeps_get = λ id db.
      keeps db (Database.worker_repository.get id db).1 (statement-workers (Workers.get id) db);
  keeps_beat = λ now id db.
      keeps db (Database.worker_repository.update_heartbeat now id db).1
        (statement-workers (Workers.update_heartbeat now id) db);
  keeps_count = λ now id db.
      keeps db (Database.worker_repository.decrement_job_count now id db).1
        (statement-workers (Workers.decrement_job_count now id) db);
  keeps_read = λ repo id db e.
      subst (λ (r : DeploymentRepository Database). Keeps stored_meter db (r.get id db).1)
        (same_repository repo app_base_domain e)
        (keeps db (Database.deployment_repository.get id db).1
          (statement-deployments (λ users. DeploymentTable.get id) db));
  keeps_write = λ repo rec db e.
      subst (λ (r : DeploymentRepository Database). Keeps stored_meter db (r.update rec db).1)
        (same_repository repo app_base_domain e)
        (keeps db (Database.deployment_repository.update rec db).1
          (statement-deployments (λ users. DeploymentTable.upsert users rec) db));
}
  where
    keeps :
        (db after : Database)
        → ((after.jobs ≡ db.jobs) × (is_calm db ≡ true → is_calm after ≡ true))
        → Keeps stored_meter db after
    keeps db after (same, calm) = (ap queue_of same, calm)
