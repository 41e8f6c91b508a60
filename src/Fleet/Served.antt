-- ===== src/Fleet/Served.antt =====
-- What the requests of an agent do to the queue of jobs.
use mesh_vpn.Http.WorkerHandler
use mesh_vpn.Agent.Jobs.{
  Config, Body, no_body, registration, heartbeat, completed, failure, status_of,
}
use mesh_vpn.Http.WorkerHandler.{beat}
use mesh_vpn.Text.{has_prefix, codes, drop_prefix, text_eq}
use mesh_vpn.Text.{Text, contains_char, is_empty}
use mesh_vpn.Base.{
  Bool, [], arith, false, if◌then◌else◌, refl, some, ℕ, ◌++◌, ◌==◌, ◌∙◌, ◌∷◌, ◌≡◌, String, ap,
  append_assoc, subst, sym,
}
use mesh_vpn.Base.Int.{ℤ}
use mesh_vpn.Forwarder.Hosts.{cut_first}
use mesh_vpn.Http.WorkerHandler.{RegisterRequest}
use mesh_vpn.Fleet.Routes.{
  bound_registration, Plane, group_path, route, routed_get, routed_post, handle, handle_found,
  is_get, serve,
}
use mesh_vpn.Http.WorkerHandler.{JobReport, after_count, after_mark, write_found}
use mesh_vpn.Agent.Jobs.{
  claim_request, complete_request, completed, failed_request, failure, heartbeat_request,
  register_request, registration, worker_url,
}
use mesh_vpn.Text.Suffixes.{drop-append, has_prefix-append}
use mesh_vpn.Fleet.Queue.{
  QueueLaws, register-queue, heartbeat-queue, job_complete-queue, job_failed-queue, Keeps, Marks,
  Meter,
}

cut_first-append :
    (sep : ℕ) (front back : Text)
    → contains_char sep front ≡ false
    → cut_first sep (front ++ sep ∷ back) ≡ some (front, back)
unfolding cut_first contains_char
cut_first-append sep [] back h = ground arith
cut_first-append sep (c ∷ front) back h =
    let other : (c == sep) ≡ false = ground arith in
    rw (other, cut_first-append sep front back (ground arith)) refl

-- The path of a worker's action is routed with the worker's id.
route-worker :
    (get : Bool) (worker action : Text)
    → contains_char b'/' worker ≡ false
    → is_empty worker ≡ false
    → route get (group_path ++ worker ++ b'/' ∷ action)
      ≡ (if get then routed_get worker action else routed_post worker action)
unfolding route has_prefix
route-worker get worker action plain not_empty =
    rw (cut_first-append b'/' worker action plain, not_empty) refl

drop_prefix-append : (p s : Text) → drop_prefix p (p ++ s) ≡ s
unfolding drop_prefix
drop_prefix-append p s = rw (has_prefix-append p s) (drop-append p s)

-- A worker's URL is routed by its action, for the worker's own id.
module _ {S : Type 0} (plane : Plane S) (now : ℕ) (cfg : Config)
    (plain : contains_char b'/' cfg.worker_id ≡ false)
    (not_empty : is_empty cfg.worker_id ≡ false) where
  worker_url-append :
      (action : String)
      → worker_url cfg action ≡ cfg.url ++ (group_path ++ cfg.worker_id ++ b'/' ∷ codes action)
  worker_url-append action = simp append_assoc

  serve-worker :
      (action : String) (body : Body) (s : S)
      → serve plane now cfg.url (record { url = worker_url cfg action; body = body }) s
        ≡ handle_found plane now body
            (if is_get body
              then routed_get cfg.worker_id (codes action)
              else routed_post cfg.worker_id (codes action))
            s
  unfolding serve
  serve-worker action body s =
      ap (λ path. handle_found plane now body (route (is_get body) path) s)
        (ap (drop_prefix cfg.url) (worker_url-append action)
          ∙ drop_prefix-append cfg.url (group_path ++ cfg.worker_id ++ b'/' ∷ codes action))
      ∙ ap (λ r. handle_found plane now body r s)
          (route-worker (is_get body) cfg.worker_id (codes action) plain not_empty)

  module _ (m : Meter S) (laws : QueueLaws plane m) where
    pub serve_heartbeat :
        (active : ℤ) (s : S)
        → Keeps m s (serve plane now cfg.url (heartbeat_request cfg active) s).1
    unfolding text_eq handle
    serve_heartbeat active s =
        subst (λ p. Keeps m s p.1)
          (sym (serve-worker "heartbeat" (heartbeat (status_of cfg active) active) s))
          (heartbeat-queue plane m laws now cfg.worker_id (status_of cfg active) active s)

    pub serve_complete :
        (job_id id : Text) (s : S)
        → is_empty job_id ≡ false
        → Marks m job_id s (serve plane now cfg.url (complete_request cfg job_id id) s).1
    unfolding text_eq handle
    serve_complete job_id id s some_id =
        subst (λ p. Marks m job_id s p.1)
          (sym (serve-worker "job-complete" (completed job_id id) s))
          (rw some_id (
            job_complete-queue plane m laws now cfg.worker_id
              (record { job_id = job_id; deployment_id = id; error = [] }) s))

    pub serve_failed :
        (job_id id e : Text) (s : S)
        → is_empty job_id ≡ false
        → Marks m job_id s (serve plane now cfg.url (failed_request cfg job_id id e) s).1
    unfolding text_eq handle
    serve_failed job_id id e s some_id =
        subst (λ p. Marks m job_id s p.1) (sym (serve-worker "job-failed" (failure job_id id e) s))
          (rw some_id (
            job_failed-queue plane m laws now cfg.worker_id
              (record { job_id = job_id; deployment_id = id; error = e }) s))

    pub serve_register :
        (hostname : Text) (s : S)
        → Keeps m s (serve plane now cfg.url (register_request cfg hostname) s).1
    unfolding serve route has_prefix cut_first text_eq handle
    serve_register hostname s =
        subst
          (λ path.
            Keeps m s (handle_found plane now (registration cfg hostname) (route false path) s).1)
          (sym (drop_prefix-append cfg.url (codes "/api/workers/register")))
          (register-queue plane m laws now (bound_registration (registration cfg hostname)) s)

  pub serve_claim :
      (s : S)
      → serve plane now cfg.url (claim_request cfg) s
        ≡ WorkerHandler.claim_job plane.workers plane.jobs plane.deployments plane.app_base_domain
            now cfg.worker_id s
  unfolding text_eq handle
  serve_claim s = serve-worker "claim-job" no_body s
