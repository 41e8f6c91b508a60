-- ===== src/Fleet/Claims.antt =====
-- A claim gives an agent the job that the queue then has running for it.
use mesh_vpn.Http.WorkerHandler
use mesh_vpn.Agent.Jobs.{
  Claimed, claim_job, Agent, polling, send, after_claim, claim_request, claimed_by,
}
use mesh_vpn.Text.{Text, codes, contains_char, is_empty}
use mesh_vpn.Store.Jobs.{Jobs}
use mesh_vpn.Store.Jobs.Held.{
  alike-IsKeyed, IsKeyed, held, one_of, IsClaimed, claim_fails, nothing_claimed, one_claimed,
}
use mesh_vpn.Base.{
  Bool, true, inl, inr, ◌+◌, ap, arith, length, refl, subst, sym, ℕ, ◌∙◌, ◌≡◌, false,
}
use mesh_vpn.Fleet.Joined.{plane_after, respond, before, made, client, Joint}
use mesh_vpn.Fleet.Served.{serve_claim}
use mesh_vpn.Fleet.Queue.{QueueLaws, Meter, Claims}
use mesh_vpn.Domain.{DeploymentJob}
use mesh_vpn.Store.Errors.{Result}
use mesh_vpn.Http.WorkerHandler.{reply_claimed}
use mesh_vpn.Fleet.Agreement.{
  IsSmooth, before-calm, Agrees, Agrees-add, Agrees-zero, IsForeign, IsJoined, IsSafe,
  before-Agrees, before-IsKeyed, has_in_hand, queue_after, sent_cases, stays-IsJoined,
}

module _ {S : Type 0} (joint : Joint S) (m : Meter S) (laws : QueueLaws joint.plane m)
    (exact : Bool) (fates : exact ≡ true → IsSmooth joint m)
    (foreign : (n : ℕ) → IsForeign joint m (joint.others n))
    (plain : contains_char b'/' joint.cfg.worker_id ≡ false)
    (not_empty : is_empty joint.cfg.worker_id ≡ false) where
  abbrev answered : Result DeploymentJob → Claimed
  answered out = joint.codec.decode (
      joint.codec.encode
        (reply_claimed joint.plane.workers joint.plane.jobs joint.plane.deployments
          joint.plane.app_base_domain out).body)

  -- What a claim gives is then in hand.
  after_claim-IsJoined :
      (a a' : Agent) (out : Result DeploymentJob) (r' : Jobs)
      → IsClaimed joint.cfg.worker_id (m.queue (before joint a)) out r'
      → IsJoined joint m exact a
      → a.phase ≡ polling
      → a'.phase ≡ a.phase
      → queue_after joint m a'.exchanges ≡ r'
      → (exact ≡ true → m.is_calm (plane_after joint a'.exchanges) ≡ true)
      → IsJoined joint m exact (after_claim joint.cfg (client joint) (answered out) a')
  after_claim-IsJoined a a' _ _ nothing_claimed joined e e' now calm =
      rw joint.codec.decode_none
        (stays-IsJoined joint m exact fates foreign a a' joined e' now calm)
  after_claim-IsJoined a a' _ _ (claim_fails text) joined e e' now calm =
      rw (joint.codec.decode_error (codes "failed to claim job"))
        (stays-IsJoined joint m exact fates foreign a a' joined e' now calm)
  after_claim-IsJoined a a' _ _ (one_claimed job r' more same) joined e e' now calm =
      let agreed : (id : Text)
          → Agrees exact (held joint.cfg.worker_id id (m.queue (before joint a))) 0 =
        before-Agrees joint m exact fates foreign a polling e joined in
      rw (joint.codec.decode_job job) (record {
        keyed = subst IsKeyed (sym now) (
            alike-IsKeyed (m.queue (before joint a)) r' same
              (before-IsKeyed joint m exact fates foreign a joined));
        agrees = λ id.
            subst (λ k. Agrees exact k (one_of id job.job_id))
              (sym (ap (held joint.cfg.worker_id id) now ∙ more id))
              (subst
                (λ n.
                  Agrees exact
                    (held joint.cfg.worker_id id (m.queue (before joint a)) + one_of id job.job_id)
                    n)
                (omega arith) (Agrees-add exact (one_of id job.job_id) _ 0 (agreed id)));
        safe = (job.port, refl);
        calm = calm;
      })

  -- A claim whose answer is lost, if it was served.
  unheard_claim-IsJoined :
      (a a' : Agent) (out : Result DeploymentJob) (r' : Jobs)
      → IsClaimed joint.cfg.worker_id (m.queue (before joint a)) out r'
      → exact ≡ false
      → IsJoined joint m exact a
      → a'.phase ≡ polling
      → queue_after joint m a'.exchanges ≡ r'
      → IsJoined joint m exact a'
  unheard_claim-IsJoined a a' out r' is_claimed loose joined e now = record {
    keyed = subst IsKeyed (sym now) (claimed_keyed out r' is_claimed);
    agrees = λ id.
        subst
          (λ p.
            Agrees exact (held joint.cfg.worker_id id (queue_after joint m a'.exchanges))
              (has_in_hand joint m p id))
          (sym e) (Agrees-zero exact _ loose);
    safe = subst (IsSafe joint m) (sym e) tt;
    calm = λ e'. cc;
  }
    where
      claimed_keyed :
          (out : Result DeploymentJob) (r' : Jobs)
          → IsClaimed joint.cfg.worker_id (m.queue (before joint a)) out r'
          → IsKeyed r'
      claimed_keyed _ _ nothing_claimed = before-IsKeyed joint m exact fates foreign a joined
      claimed_keyed _ _ (claim_fails text) = before-IsKeyed joint m exact fates foreign a joined
      claimed_keyed _ _ (one_claimed job r' more same) =
          alike-IsKeyed (m.queue (before joint a)) r' same
            (before-IsKeyed joint m exact fates foreign a joined)

  pub claim_job-IsJoined :
      (a : Agent)
      → a.phase ≡ polling
      → IsJoined joint m exact a
      → IsJoined joint m exact (claim_job joint.cfg (client joint) a)
  unfolding claim_job WorkerHandler.claim_job client
  claim_job-IsJoined a e joined =
      elim (sent_cases joint m exact fates foreign (claim_request joint.cfg) a) [
        | inl (answer, now) ↦
            subst
              (λ x.
                IsJoined joint m exact (
                  after_claim joint.cfg (client joint) (claimed_by joint.cfg (client joint) x)
                    sent))
              (sym (answer ∙ ap (λ p. respond joint p.0) serves))
              (after_claim-IsJoined a sent claimed.0 (m.queue claimed.1) takes.outcome joined e refl
                (ap m.queue (now ∙ ap (λ p. p.1) serves))
                (λ tight.
                  subst (λ s. m.is_calm s ≡ true) (sym (now ∙ ap (λ p. p.1) serves))
                    (takes.still_calm (before-calm joint m exact fates foreign a joined tight))))
        | inr (loose, text, answer, q) ↦
            subst
              (λ x.
                IsJoined joint m exact (
                  after_claim joint.cfg (client joint) (claimed_by joint.cfg (client joint) x)
                    sent))
              (sym answer)
              (elim q [
                | inl now ↦
                    unheard_claim-IsJoined a sent claimed.0 (m.queue claimed.1) takes.outcome loose
                      joined e (ap m.queue (now ∙ ap (λ p. p.1) serves))
                | inr now ↦
                    stays-IsJoined joint m exact fates foreign a sent joined refl (ap m.queue now)
                      (λ tight. cc)
              ])
      ]
    where
      now : ℕ
      now = joint.clock (length a.exchanges)

      sent : Agent
      sent = (send joint.cfg (client joint) (claim_request joint.cfg) a).1

      claimed : Result DeploymentJob × S
      claimed = joint.plane.jobs.claim_for_worker now joint.cfg.worker_id (before joint a)

      serves :
          made joint (claim_request joint.cfg) a
          ≡ WorkerHandler.claim_job joint.plane.workers joint.plane.jobs joint.plane.deployments
              joint.plane.app_base_domain now joint.cfg.worker_id
              (before joint a)
      serves = serve_claim joint.plane now joint.cfg plain not_empty (before joint a)

      takes : Claims m joint.cfg.worker_id (before joint a) claimed.0 claimed.1
      takes =
          laws.claim_takes now joint.cfg.worker_id (before joint a) not_empty
            (before-IsKeyed joint m exact fates foreign a joined)
