-- ===== src/Fleet/Progress.antt =====
-- How an agent works off the jobs that wait for its worker.
use mesh_vpn.Http.WorkerHandler
use mesh_vpn.Http.WorkerHandler.{reply_claimed}
use mesh_vpn.Agent.Executor.{JobFields, execute}
use mesh_vpn.Agent.Jobs.{
  Agent, Claimed, Phase, Request, Tick, advance, advance_from, after_claim, after_execution, beat,
  beat_in, claim_job, claim_request, claimed_by, crashed, execute_job, heartbeat_request,
  heartbeat_tick, job_step, polling, report, reporting, run_ticks, send, send_heartbeat, working,
}
use mesh_vpn.Fleet.Agreement.{
  IsSmooth, before-calm, Heard, IsForeign, IsJoined, IsSafe, before-IsKeyed, queue_after,
  sent_cases,
}
use mesh_vpn.Fleet.Joined.{plane_after, Joint, before, client, made, respond}
use mesh_vpn.Fleet.Queue.{QueueLaws, Meter, TakesOne, Keeps}
use mesh_vpn.Fleet.Served.{serve_claim, serve_heartbeat}
use mesh_vpn.Fleet.Settled.{advance-IsJoined}
use mesh_vpn.Fleet.Steps.{beat-IsJoined, execute_returns, reporting-IsReported}
use mesh_vpn.Store.Jobs.Held.Waiting.{waiting_for, write_job-waiting}
use mesh_vpn.Store.Errors.{Result}
use mesh_vpn.Domain.{DeploymentJob}
use mesh_vpn.Text.{Text, contains_char, is_empty}
use mesh_vpn.Base.{
  List, ap, arith, false, inl, inr, length, refl, subst, sym, true, ℕ, ◌*◌, ◌+◌, ◌∙◌, ◌≡◌, ◌⊎◌, [],
  ◌∷◌, ◌≤◌,
}
use mesh_vpn.Service.Distributor.{ticks}

-- What the job in hand still takes.
abbrev pub owed : Phase → ℕ
owed polling = 0
owed (working job_id job) = 2
owed (reporting job_id req) = 1
owed (crashed job_id) = 0

-- The steps of the loop of jobs, among which the heartbeats fall.
abbrev pub steps : List Tick → ℕ
steps [] = 0
steps (heartbeat_tick ∷ ticks) = steps ticks
steps (job_step ∷ ticks) = steps ticks + 1

module _ {S : Type 0} (joint : Joint S) (m : Meter S) (laws : QueueLaws joint.plane m)
    (smooth : IsSmooth joint m) (foreign : (n : ℕ) → IsForeign joint m (joint.others n))
    (patient : (n : ℕ) (s : S)
      → waiting_for joint.cfg.worker_id (m.queue (joint.others n s))
        ≡ waiting_for joint.cfg.worker_id (m.queue s))
    (plain : contains_char b'/' joint.cfg.worker_id ≡ false)
    (not_empty : is_empty joint.cfg.worker_id ≡ false) where
  abbrev pub waits : Agent → ℕ
  waits a = waiting_for joint.cfg.worker_id (queue_after joint m a.exchanges)

  -- Three steps for each job that waits, and those of the job in hand.
  abbrev pub to_do : Agent → ℕ
  to_do a = waits a * 3 + owed a.phase

  waits-before : (a : Agent) → waiting_for joint.cfg.worker_id (m.queue (before joint a)) ≡ waits a
  waits-before a = patient (length a.exchanges) _

  heard : (req : Request) (a : Agent) → Heard joint m true req a
  heard req a = elim (sent_cases joint m true (λ e. smooth) foreign req a) [
    | inl h ↦ h
    | inr (loose, text, answer, q) ↦ cc
  ]

  -- A request that leaves the queue alone.
  pub send-to_do :
      (req : Request) (a : Agent)
      → Keeps m (before joint a) (made joint req a).1
      → to_do (send joint.cfg (client joint) req a).1 ≡ to_do a
  unfolding send
  send-to_do req a same =
      ap (λ k. k * 3 + owed a.phase)
        (ap (waiting_for joint.cfg.worker_id) (ap m.queue (heard req a).1 ∙ same.0)
          ∙ waits-before a)

  beat-to_do : (a : Agent) → to_do (beat joint.cfg (client joint) joint.machine a) ≡ to_do a
  unfolding beat send_heartbeat
  beat-to_do a = by_phase a.phase
    where
      sent :
          to_do (send joint.cfg (client joint) (heartbeat_request joint.cfg a.active_jobs) a).1
          ≡ to_do a
      sent = send-to_do (heartbeat_request joint.cfg a.active_jobs) a (
          serve_heartbeat joint.plane (joint.clock (length a.exchanges)) joint.cfg plain not_empty m
            laws a.active_jobs (before joint a))

      by_phase : (p : Phase) → to_do (beat_in joint.cfg (client joint) joint.machine p a) ≡ to_do a
      by_phase polling = sent
      by_phase (working job_id job) = sent
      by_phase (reporting job_id req) = sent
      by_phase (crashed job_id) = refl

  -- A step of the loop of jobs does one thing of those that are to do, if there is one.
  abbrev Works : Agent → Agent → Type 0
  Works a a' = (to_do a' + 1 ≡ to_do a) ⊎ ((to_do a ≡ 0) × (to_do a' ≡ 0))

  abbrev answered : Result DeploymentJob → Claimed
  answered out = joint.codec.decode (
      joint.codec.encode
        (reply_claimed joint.plane.workers joint.plane.jobs joint.plane.deployments
          joint.plane.app_base_domain out).body)

  after_claim-Works :
      (a a' : Agent) (out : Result DeploymentJob) (s' : S)
      → a.phase ≡ polling
      → a'.phase ≡ polling
      → TakesOne m joint.cfg.worker_id (before joint a) out s'
      → plane_after joint a'.exchanges ≡ s'
      → Works a (after_claim joint.cfg (client joint) (answered out) a')
  after_claim-Works a a' out s' e e' takes left =
      let waits' = ap (λ s. waiting_for joint.cfg.worker_id (m.queue s)) left in
      elim takes [
        | inl (nothing, kept, none_left) ↦
            subst (λ o. Works a (after_claim joint.cfg (client joint) (answered o) a'))
              (sym nothing)
              (rw joint.codec.decode_none (
                inr (
                  omega (arith, none_left, waits-before a, ap owed e),
                  omega (
                    arith,
                    none_left,
                    waits',
                    ap (waiting_for joint.cfg.worker_id) kept,
                    ap owed e',
                  ),
                )))
        | inr (job, is_job, less) ↦
            subst (λ o. Works a (after_claim joint.cfg (client joint) (answered o) a')) (sym is_job)
              (rw (joint.codec.decode_job job)
                (inl (omega (arith, less, waits', waits-before a, ap owed e))))
      ]

  claim_job-Works :
      (a : Agent)
      → a.phase ≡ polling
      → IsJoined joint m true a
      → Works a (claim_job joint.cfg (client joint) a)
  unfolding claim_job WorkerHandler.claim_job client
  claim_job-Works a e joined =
      subst
        (λ x.
          Works a
            (after_claim joint.cfg (client joint) (claimed_by joint.cfg (client joint) x) sent))
        (sym ((heard (claim_request joint.cfg) a).0 ∙ ap (λ p. respond joint p.0) serves))
        (after_claim-Works a sent claimed.0 claimed.1 e e
          ((laws.claim_takes now joint.cfg.worker_id (before joint a) not_empty
              (before-IsKeyed joint m true (λ e. smooth) foreign a joined)).in_calm
            (before-calm joint m true (λ e. smooth) foreign a joined refl))
          ((heard (claim_request joint.cfg) a).1 ∙ ap (λ p. p.1) serves))
    where
      now : ℕ
      now = joint.clock (length a.exchanges)

      sent : Agent
      sent = (send joint.cfg (client joint) (claim_request joint.cfg) a).1

      claimed : Result DeploymentJob × S
      claimed = joint.plane.jobs.claim_for_worker now joint.cfg.worker_id (before joint a)

      serves :
          made joint (claim_request joint.cfg) a
          ≡ WorkerHandler.claim_job joint.plane.workers joint.plane.jobs joint.plane.deployments
              joint.plane.app_base_domain now joint.cfg.worker_id
              (before joint a)
      serves = serve_claim joint.plane now joint.cfg plain not_empty (before joint a)

  execute_job-Works :
      (job_id : Text) (job : JobFields) (a : Agent)
      → a.phase ≡ working job_id job
      → IsJoined joint m true a
      → Works a (execute_job joint.cfg (client joint) joint.machine job_id job a)
  unfolding execute_job
  execute_job-Works job_id job a e joined =
      let (port, some_port) = subst (IsSafe joint m) e joined.safe in
      let (r, returns) =
        execute_returns joint.machine joint.cfg.runtime job port a.history some_port in
      subst
        (λ x. Works a (
          after_execution joint.cfg (client joint) job_id job x
            (record a { history = (execute joint.machine joint.cfg.runtime job a.history).1 })))
        (sym returns) (inl (omega (arith, ap owed e)))

  report-Works :
      (job_id : Text) (req : Request) (a : Agent)
      → a.phase ≡ reporting job_id req
      → IsJoined joint m true a
      → Works a (report joint.cfg (client joint) joint.machine req a)
  unfolding report send
  report-Works job_id req a e joined =
      let told =
        reporting-IsReported joint m laws true (λ e. smooth) foreign plain not_empty job_id req a e
          joined in
      let keyed = before-IsKeyed joint m true (λ e. smooth) foreign a joined in
      let (write, ends, writes) =
        told.marks.in_calm (before-calm joint m true (λ e. smooth) foreign a joined refl) in
      let same =
        ap (waiting_for joint.cfg.worker_id) (ap m.queue (heard req a).1 ∙ writes)
        ∙ write_job-waiting joint.cfg.worker_id job_id write (m.queue (before joint a)) ends
            (keyed.distinct job_id) told.one
        ∙ waits-before a in
      inl (omega (arith, same, ap owed e))

  advance-Works :
      (a : Agent)
      → IsJoined joint m true a
      → Works a (advance joint.cfg (client joint) joint.machine a)
  unfolding advance
  advance-Works a joined = by_phase a.phase refl
    where
      by_phase :
          (p : Phase)
          → a.phase ≡ p
          → Works a (advance_from joint.cfg (client joint) joint.machine p a)
      by_phase polling e = claim_job-Works a e joined
      by_phase (working job_id job) e = execute_job-Works job_id job a e joined
      by_phase (reporting job_id req) e = report-Works job_id req a e joined
      by_phase (crashed job_id) e = absurd (subst (IsSafe joint m) e joined.safe)

  pub run_ticks-to_do :
      (ticks : List Tick) (a : Agent)
      → IsJoined joint m true a
      → to_do a ≤ steps ticks
      → to_do (run_ticks joint.cfg (client joint) joint.machine ticks a) ≡ 0
  unfolding run_ticks
  run_ticks-to_do [] a joined enough = omega (arith, enough)
  run_ticks-to_do (heartbeat_tick ∷ ticks) a joined enough =
      run_ticks-to_do ticks (beat joint.cfg (client joint) joint.machine a)
        (beat-IsJoined joint m laws true (λ e. smooth) foreign plain not_empty a joined)
        (omega (arith, beat-to_do a, enough))
  run_ticks-to_do (job_step ∷ ticks) a joined enough =
      run_ticks-to_do ticks (advance joint.cfg (client joint) joint.machine a)
        (advance-IsJoined joint m laws true (λ e. smooth) foreign plain not_empty a joined)
        (omega (arith, advance-Works a joined, enough))
