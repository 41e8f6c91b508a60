-- ===== src/Http/WorkerHandler/Reports.antt =====
-- What the report of a worker in control-plane/internal/httpapi/workers.go makes of a deployment.
use mesh_vpn.Domain.{DeploymentRecord}
use mesh_vpn.Text.{Text, is_empty, text_eq}
use mesh_vpn.Store.Repositories.{DeploymentRepository, JobRepository, WorkerRepository}
use mesh_vpn.Store.Repositories.Laws.{DeploymentLaws, map_record}
use mesh_vpn.Base.{
  Bool-cases, Option-cases, ap, if◌then◌else◌, inl, inr, not, refl, some, ◌&&◌, ◌∙◌, ◌≡◌, none,
  subst, sym, ℕ,
}
use mesh_vpn.Http.WorkerHandler.{
  write_deployment, write_found, JobReport, after_count, after_mark, completed_record, job_complete,
  job_failed, reported_failed,
}
use mesh_vpn.Text.Laws.{text_eq_iff}
use mesh_vpn.Store.Errors.{Result, err, ok}
use mesh_vpn.Http.WorkerHandler.Reported.{
  KeepsDeployment, IsRewrittenIf, map_record-IsRewrittenIf, IsCompleted, IsFailed,
  completed_record-IsCompleted, reported_failed-IsFailed, is_about, after_reply,
}

module _ {S : Type 0} (workers : WorkerRepository S) (jobs : JobRepository S)
    (repo : DeploymentRepository S) (laws : DeploymentLaws repo jobs) (env : Text) where
  write_deployment-view :
      (id dep : Text) (write : DeploymentRecord → DeploymentRecord) (s : S)
      → KeepsDeployment write
      → ((rec : DeploymentRecord) → laws.view dep s ≡ some rec → rec.deployment_id ≡ dep)
      → laws.view id (write_deployment (some repo) dep write s).1 ≡ (
          if not (is_empty dep) && text_eq dep id
          then map_record write (laws.view id s)
          else laws.view id s)
  unfolding write_deployment
  write_deployment-view id dep write s keeps keyed = elim (Bool-cases (is_empty dep)) [
    | inl e ↦ rw e refl
    | inr e ↦ rw e (
        ap (λ r. laws.view id (write_found repo write r.0 r.1).1) (laws.get_view dep s)
        ∙ elim (Option-cases (laws.view dep s)) [
          | inl f ↦ rw f (elim (Bool-cases (text_eq dep id)) [
            | inl g ↦ rw (g, subst (λ k. laws.view k s ≡ none) ((text_eq_iff dep id).0 g) f) refl
            | inr g ↦ rw g refl
          ])
          | inr (rec, f) ↦ rw f (
              laws.view_update id (write rec) s
              ∙ ap (λ k. if text_eq k id then some (write rec) else laws.view id s)
                  (keeps rec ∙ keyed rec f)
              ∙ (elim (Bool-cases (text_eq dep id)) [
                | inl g ↦
                    rw (g, subst (λ k. laws.view k s ≡ some rec) ((text_eq_iff dep id).0 g) f) refl
                | inr g ↦ rw g refl
              ]))
        ])
  ]

  count-view :
      (id dep : Text) (write : DeploymentRecord → DeploymentRecord) (r : Result (Unit {0})) (s : S)
      → KeepsDeployment write
      → ((rec : DeploymentRecord) → laws.view dep s ≡ some rec → rec.deployment_id ≡ dep)
      → let out = after_count workers jobs (some repo) env dep write r s in
        laws.view id out.1 ≡ after_reply id dep write (laws.view id s) out.0
  count-view id dep write (err e) s keeps keyed = refl
  count-view id dep write (ok _) s keeps keyed = write_deployment-view id dep write s keeps keyed

  module _
      (count_aside : (id : Text) (now : ℕ) (worker : Text) (s : S)
        → laws.view id (workers.decrement_job_count now worker s).1 ≡ laws.view id s) where
    mark-view :
        (id : Text) (now : ℕ) (worker text dep : Text) (write : DeploymentRecord → DeploymentRecord)
        (r : Result (Unit {0})) (s : S)
        → KeepsDeployment write
        → ((rec : DeploymentRecord) → laws.view dep s ≡ some rec → rec.deployment_id ≡ dep)
        → let out = after_mark workers jobs (some repo) env now worker text dep write r s in
          laws.view id out.1 ≡ after_reply id dep write (laws.view id s) out.0
    mark-view id now worker text dep write (err e) s keeps keyed = refl
    mark-view id now worker text dep write (ok _) s keeps keyed =
        let counted = workers.decrement_job_count now worker s in
        count-view id dep write counted.0 counted.1 keeps
          (λ rec f. keyed rec (sym (count_aside dep now worker s) ∙ f))
        ∙ ap
            (λ seen.
              after_reply id dep write seen
                (after_count workers jobs (some repo) env dep write counted.0 counted.1).0)
            (count_aside id now worker s)

    job_complete-view :
        (id : Text) (now : ℕ) (worker : Text) (report : JobReport) (s : S)
        → laws.IsValid s
        → let out = job_complete workers jobs (some repo) env now worker (some report) s in
          laws.view id out.1
          ≡ after_reply id report.deployment_id
              (completed_record env worker report.deployment_id)
              (laws.view id s)
              out.0
    unfolding job_complete completed_record
    job_complete-view id now worker report s v =
        let marked = jobs.mark_done now report.job_id s in
        mark-view id now worker _ report.deployment_id
          (completed_record env worker report.deployment_id) marked.0 marked.1 (λ rec. refl)
          (λ rec f.
            laws.view_keyed report.deployment_id rec s v
              (sym (laws.view_mark_done report.deployment_id now report.job_id s) ∙ f))
        ∙ ap
            (λ seen.
              after_reply id report.deployment_id (completed_record env worker report.deployment_id)
                seen (job_complete workers jobs (some repo) env now worker (some report) s).0)
            (laws.view_mark_done id now report.job_id s)

    job_failed-view :
        (id : Text) (now : ℕ) (worker : Text) (report : JobReport) (s : S)
        → laws.IsValid s
        → let out = job_failed workers jobs (some repo) env now worker (some report) s in
          laws.view id out.1
          ≡ after_reply id report.deployment_id
              (reported_failed env now worker report.deployment_id report.error)
              (laws.view id s)
              out.0
    unfolding job_failed reported_failed
    job_failed-view id now worker report s v =
        let marked = jobs.mark_failed now report.job_id report.error s in
        mark-view id now worker _ report.deployment_id
          (reported_failed env now worker report.deployment_id report.error) marked.0 marked.1
          (λ rec. refl)
          (λ rec f.
            laws.view_keyed report.deployment_id rec s v (
              sym (laws.view_mark_failed report.deployment_id now report.job_id report.error s)
              ∙ f))
        ∙ ap
            (λ seen.
              after_reply id report.deployment_id
                (reported_failed env now worker report.deployment_id report.error) seen
                (job_failed workers jobs (some repo) env now worker (some report) s).0)
            (laws.view_mark_failed id now report.job_id report.error s)

    -- Over stores that keep the laws, in a valid state, and where counting a worker down leaves the
    -- deployments as they are: where the answer to a report of success is a success, its deployment,
    -- where it has one, is then running on that worker, with no error and no end, with the container and
    -- the URL that it had, or those of its id and subdomain, and with its logs and a line more. No other
    -- deployment is changed, nothing else of this one, and none at all behind an error.
    pub job_complete-IsCompleted :
        (id : Text) (now : ℕ) (worker : Text) (report : JobReport) (s : S)
        → laws.IsValid s
        → let out = job_complete workers jobs (some repo) env now worker (some report) s in
          IsRewrittenIf
            (is_about id report.deployment_id out.0)
            (IsCompleted env worker report.deployment_id)
            (laws.view id s)
            (laws.view id out.1)
    job_complete-IsCompleted id now worker report s v =
        map_record-IsRewrittenIf
          (is_about id report.deployment_id
            (job_complete workers jobs (some repo) env now worker (some report) s).0)
          (IsCompleted env worker report.deployment_id)
          (completed_record env worker report.deployment_id) (laws.view id s) _
          (completed_record-IsCompleted env worker report.deployment_id)
          (job_complete-view id now worker report s v)

    -- Over stores that keep the laws, in a valid state, and where counting a worker down leaves the
    -- deployments as they are: where the answer to a report of failure is a success, its deployment,
    -- where it has one, has then failed on that worker with the reported error at that time, with the
    -- container and the URL that it had, or those of its id and subdomain, and with its logs and the
    -- error. No other deployment is changed, nothing else of this one, and none at all behind an error.
    pub job_failed-IsFailed :
        (id : Text) (now : ℕ) (worker : Text) (report : JobReport) (s : S)
        → laws.IsValid s
        → let out = job_failed workers jobs (some repo) env now worker (some report) s in
          IsRewrittenIf
            (is_about id report.deployment_id out.0)
            (IsFailed env now worker report.deployment_id report.error)
            (laws.view id s)
            (laws.view id out.1)
    job_failed-IsFailed id now worker report s v =
        map_record-IsRewrittenIf
          (is_about id report.deployment_id
            (job_failed workers jobs (some repo) env now worker (some report) s).0)
          (IsFailed env now worker report.deployment_id report.error)
          (reported_failed env now worker report.deployment_id report.error) (laws.view id s) _
          (reported_failed-IsFailed env now worker report.deployment_id report.error)
          (job_failed-view id now worker report s v)
