-- ===== src/Fleet/Queue.antt =====
-- What the handlers of workers do to the queue of jobs.
use mesh_vpn.Http.WorkerHandler
use mesh_vpn.Http.WorkerHandler.{beat}
use mesh_vpn.Store.Jobs.Held.{IsKeyed}
use mesh_vpn.Store.Jobs.Held.Waiting.{waiting_for}
use mesh_vpn.Domain.{DeploymentRecord, Worker, DeploymentJob}
use mesh_vpn.Text.{Text, is_empty}
use mesh_vpn.Store.Repositories.{DeploymentRepository}
use mesh_vpn.Store.Jobs.{Jobs, JobState, write_job}
use mesh_vpn.Store.Errors.{Result, err, ok, no_queued_jobs}
use mesh_vpn.Base.{
  Bool-cases, Option, inl, inr, none, refl, some, ℕ, ◌∙◌, ◌≡◌, Bool, false, true, ◌+◌, ◌⊎◌,
}
use mesh_vpn.Base.Int.{ℤ}
use mesh_vpn.Http.WorkerHandler.{RegisterRequest}
use mesh_vpn.Fleet.Routes.{Plane}
use mesh_vpn.Http.WorkerHandler.{JobReport, after_count, after_mark, write_found}
use mesh_vpn.Store.Jobs.Held.{Ends, IsClaimed}

-- How a call of an agent changes the state of a control plane: `queue` is what the repositories store of the
-- jobs, and `is_calm` says that the database refuses none of the coming statements.
pub record Meter (S : Type 0) : Type 0 where
  pub queue : S → Jobs
  pub is_calm : S → Bool

module _ {S : Type 0} (m : Meter S) where
  abbrev pub IsStillCalm : S → S → Type 0
  IsStillCalm s s' = m.is_calm s ≡ true → m.is_calm s' ≡ true

  -- The jobs stay.
  abbrev pub Keeps : S → S → Type 0
  Keeps s s' = (m.queue s' ≡ m.queue s) × IsStillCalm s s'

  -- The first job with an id has ended.
  abbrev pub HasEnded : Text → S → S → Type 0
  HasEnded id s s' =
      (write : JobState → JobState) × Ends write × (m.queue s' ≡ (write_job id write (m.queue s)).1)

  -- A report may fail, in which case nothing is changed, and does not where the database is calm.
  pub record Marks (id : Text) (s s' : S) : Type 0 where
    pub outcome : (m.queue s' ≡ m.queue s) ⊎ HasEnded id s s'
    pub in_calm : m.is_calm s ≡ true → HasEnded id s s'
    pub still_calm : IsStillCalm s s'

  -- Where the database is calm, a claim takes one job of those that wait, unless none does.
  abbrev pub TakesOne : Text → S → Result DeploymentJob → S → Type 0
  TakesOne worker s out s' =
      ((out ≡ err no_queued_jobs) × (m.queue s' ≡ m.queue s) × (waiting_for worker (m.queue s) ≡ 0))
      ⊎ ((job : DeploymentJob) × (out ≡ ok job)
          × (waiting_for worker (m.queue s') + 1 ≡ waiting_for worker (m.queue s)))

  pub record Claims (worker : Text) (s : S) (out : Result DeploymentJob) (s' : S) : Type 0 where
    pub outcome : IsClaimed worker (m.queue s) out (m.queue s')
    pub in_calm : m.is_calm s ≡ true → TakesOne worker s out s'
    pub still_calm : IsStillCalm s s'

  pub Keeps-trans : (s s' s'' : S) → Keeps s s' → Keeps s' s'' → Keeps s s''
  Keeps-trans s s' s'' (q, c) (q', c') = (q' ∙ q, λ h. c' (c h))

  pub Marks-Keeps : (id : Text) (s s' s'' : S) → Marks id s s' → Keeps s' s'' → Marks id s s''
  Marks-Keeps id s s' s'' marks (q, c) = record {
    outcome = elim marks.outcome [
      | inl same ↦ inl (q ∙ same)
      | inr (write, ends, e) ↦ inr (write, ends, q ∙ e)
    ];
    in_calm = λ h. let (write, ends, e) = marks.in_calm h in (write, ends, q ∙ e);
    still_calm = λ h. c (marks.still_calm h);
  }

-- What the repositories of the control plane promise: a claim by a worker whose id is not empty gives it one
-- of the jobs that wait for it, or fails; a report ends the run of its job, or fails; and no other call that a
-- handler of workers makes touches the jobs. No call makes a calm database fail.
pub record QueueLaws {S : Type 0} (plane : Plane S) (m : Meter S) : Type 0 where
  pub claim_takes :
      (now : ℕ) (worker : Text) (s : S)
      → is_empty worker ≡ false
      → IsKeyed (m.queue s)
      → let (out, s') = plane.jobs.claim_for_worker now worker s in Claims m worker s out s'
  pub done_marks : (now : ℕ) (id : Text) (s : S) → Marks m id s (plane.jobs.mark_done now id s).1
  pub failed_marks :
      (now : ℕ) (id text : Text) (s : S) → Marks m id s (plane.jobs.mark_failed now id text s).1
  pub keeps_register : (now : ℕ) (w : Worker) (s : S) → Keeps m s (plane.workers.register now w s).1
  pub keeps_update : (now : ℕ) (w : Worker) (s : S) → Keeps m s (plane.workers.update now w s).1
  pub keeps_get : (id : Text) (s : S) → Keeps m s (plane.workers.get id s).1
  pub keeps_beat :
      (now : ℕ) (id : Text) (s : S) → Keeps m s (plane.workers.update_heartbeat now id s).1
  pub keeps_count :
      (now : ℕ) (id : Text) (s : S) → Keeps m s (plane.workers.decrement_job_count now id s).1
  pub keeps_read :
      (repo : DeploymentRepository S) (id : Text) (s : S)
      → plane.deployments ≡ some repo
      → Keeps m s (repo.get id s).1
  pub keeps_write :
      (repo : DeploymentRepository S) (rec : DeploymentRecord) (s : S)
      → plane.deployments ≡ some repo
      → Keeps m s (repo.update rec s).1

module _ {S : Type 0} (plane : Plane S) (m : Meter S) (laws : QueueLaws plane m) (now : ℕ) where
  set_reported-queue :
      (status : Text) (count : ℤ) (r : Result Worker) (s : S)
      → Keeps m s
          (WorkerHandler.set_reported plane.workers plane.jobs plane.deployments
            plane.app_base_domain now status count r s).1
  set_reported-queue status count (err e) s = (refl, λ h. h)
  set_reported-queue status count (ok w) s = laws.keeps_update now _ s

  after_beat-queue :
      (id status : Text) (count : ℤ) (r : Result (Unit {0})) (s : S)
      → Keeps m s
          (WorkerHandler.after_beat plane.workers plane.jobs plane.deployments plane.app_base_domain
            now id status count r s).1
  after_beat-queue id status count (err e) s = (refl, λ h. h)
  after_beat-queue id status count (ok _) s = elim (Bool-cases (is_empty status)) [
    | inl e ↦ rw e (refl, λ h. h)
    | inr e ↦ rw e (Keeps-trans m s _ _ (laws.keeps_get id s) (set_reported-queue status count _ _))
  ]

  pub heartbeat-queue :
      (id status : Text) (count : ℤ) (s : S)
      → Keeps m s
          (WorkerHandler.heartbeat plane.workers plane.jobs plane.deployments plane.app_base_domain
            now id
            (beat status count)
            s).1
  unfolding WorkerHandler.heartbeat
  heartbeat-queue id status count s =
      Keeps-trans m s _ _ (laws.keeps_beat now id s) (after_beat-queue id status count _ _)

  pub register-queue :
      (req : Option RegisterRequest) (s : S)
      → Keeps m s
          (WorkerHandler.register_worker plane.workers plane.jobs plane.deployments
            plane.app_base_domain now req s).1
  unfolding WorkerHandler.register_worker
  register-queue none s = (refl, λ h. h)
  register-queue (some req) s = laws.keeps_register now _ s

  write_found-queue :
      (repo : DeploymentRepository S) (write : DeploymentRecord → DeploymentRecord)
      → (r : Result DeploymentRecord) (s : S) → plane.deployments ≡ some repo
      → Keeps m s (write_found repo write r s).1
  write_found-queue repo write (err e) s h = (refl, λ h. h)
  write_found-queue repo write (ok rec) s h = laws.keeps_write repo (write rec) s h

  write_deployment-queue :
      (deployments : Option (DeploymentRepository S)) (id : Text)
      → (write : DeploymentRecord → DeploymentRecord) (s : S) → plane.deployments ≡ deployments
      → Keeps m s (WorkerHandler.write_deployment deployments id write s).1
  unfolding WorkerHandler.write_deployment
  write_deployment-queue none id write s h = (refl, λ h. h)
  write_deployment-queue (some repo) id write s h = elim (Bool-cases (is_empty id)) [
    | inl e ↦ rw e (refl, λ h. h)
    | inr e ↦
        rw e
          (Keeps-trans m s _ _ (laws.keeps_read repo id s h) (write_found-queue repo write _ _ h))
  ]

  after_count-queue :
      (id : Text) (write : DeploymentRecord → DeploymentRecord) (r : Result (Unit {0})) (s : S)
      → Keeps m s
          (after_count plane.workers plane.jobs plane.deployments plane.app_base_domain id write r
            s).1
  after_count-queue id write (err e) s = (refl, λ h. h)
  after_count-queue id write (ok _) s = write_deployment-queue plane.deployments id write s refl

  after_mark-queue :
      (worker text id : Text) (write : DeploymentRecord → DeploymentRecord)
      → (r : Result (Unit {0})) (s : S)
      → Keeps m s
          (after_mark plane.workers plane.jobs plane.deployments plane.app_base_domain now worker
            text id write r s).1
  after_mark-queue worker text id write (err e) s = (refl, λ h. h)
  after_mark-queue worker text id write (ok _) s =
      Keeps-trans m s _ _ (laws.keeps_count now worker s) (after_count-queue id write _ _)

  pub job_complete-queue :
      (worker : Text) (report : JobReport) (s : S)
      → Marks m report.job_id s
          (WorkerHandler.job_complete plane.workers plane.jobs plane.deployments
            plane.app_base_domain now worker
            (some report)
            s).1
  unfolding WorkerHandler.job_complete
  job_complete-queue worker report s =
      Marks-Keeps m report.job_id s _ _ (laws.done_marks now report.job_id s)
        (after_mark-queue worker _ _ _ _ _)

  pub job_failed-queue :
      (worker : Text) (report : JobReport) (s : S)
      → Marks m report.job_id s
          (WorkerHandler.job_failed plane.workers plane.jobs plane.deployments plane.app_base_domain
            now worker
            (some report)
            s).1
  unfolding WorkerHandler.job_failed
  job_failed-queue worker report s =
      Marks-Keeps m report.job_id s _ _ (laws.failed_marks now report.job_id report.error s)
        (after_mark-queue worker _ _ _ _ _)
