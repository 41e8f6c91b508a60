-- ===== src/Fleet/Joined.antt =====
-- The agent with the control plane as its client's other end.
use mesh_vpn.Http.Replies.{Body}
use mesh_vpn.Agent.Host.{Machine}
use mesh_vpn.Agent.Jobs.{
  Agent, Config, Claimed, Client, Exchanges, Request, Response, given_job, no_job, no_response,
  response,
}
use mesh_vpn.Domain.{DeploymentJob}
use mesh_vpn.Text.{Text}
use mesh_vpn.Base.{[], length, none, some, suc, ℕ, ◌∷◌, ◌≡◌, ap, arith, ◌++◌, ◌+◌, ◌∙◌}
use mesh_vpn.Fleet.Routes.{Plane, serve}
use mesh_vpn.Http.Replies.{Reply, error_body, job_body}
use mesh_vpn.Agent.Executor.{JobFields}

-- What becomes of an exchange on the way: it is delivered, or the request or the answer is lost.
pub data Fate : Type 0 where
  delivered : Fate
  request_lost answer_lost : Text → Fate

-- The fields that an agent reads of a job's JSON.
abbrev pub fields_of : DeploymentJob → JobFields
fields_of job = record {
  job_id = some job.job_id;
  deployment_id = some job.deployment_id;
  repo = some job.repo;
  subdomain = some job.subdomain;
  port = some job.port;
  cpu_cores = some job.cpu_cores;
  memory_mb = some job.memory_mb;
}

-- `encoding/json` on both sides: a job arrives with its fields, and another body has no job.
pub record Codec : Type 0 where
  pub encode : Body → Text
  pub decode : Text → Claimed
  pub decode_job :
      (job : DeploymentJob) → decode (encode (job_body (some job))) ≡ given_job (fields_of job)
  pub decode_none : decode (encode (job_body none)) ≡ no_job
  pub decode_error : (e : Text) → decode (encode (error_body e)) ≡ no_job

-- An agent and its control plane: `others n` is what the rest of the control plane does before exchange
-- `n`, and `fate n` is what becomes of that exchange.
pub record Joint (S : Type 0) : Type 0 where
  pub plane : Plane S
  pub codec : Codec
  pub cfg : Config
  pub machine : Machine
  pub clock : ℕ → ℕ
  pub others : ℕ → S → S
  pub fate : ℕ → Fate
  pub initial : S

module _ {S : Type 0} (joint : Joint S) where
  abbrev pub respond : Reply → Response
  respond reply = response reply.code (joint.codec.encode reply.body)

  abbrev pub served : ℕ → Request → S → Reply × S
  served n req s = serve joint.plane (joint.clock n) joint.cfg.url req (joint.others n s)

  abbrev pub arrives : Fate → Reply × S → S → Response × S
  arrives delivered (reply, after) before = (respond reply, after)
  arrives (request_lost e) (reply, after) before = (no_response e, before)
  arrives (answer_lost e) (reply, after) before = (no_response e, after)

  abbrev pub exchange : ℕ → Request → S → Response × S
  exchange n req s = arrives (joint.fate n) (served n req s) (joint.others n s)

  unfoldable pub replay : ℕ → S → Exchanges → S
  unfolding serve
  replay n s [] = s
  replay n s ((req, answer) ∷ xs) = replay (suc n) (exchange n req s).1 xs

  -- The control plane's state behind the exchanges with an agent.
  unfoldable pub plane_after : Exchanges → S
  unfolding replay
  plane_after xs = replay 0 joint.initial xs

  -- The control plane when a request of the agent comes in, and what it makes of the request.
  abbrev pub before : Agent → S
  before a = joint.others (length a.exchanges) (plane_after a.exchanges)

  abbrev pub made : Request → Agent → Reply × S
  made req a = serve joint.plane (joint.clock (length a.exchanges)) joint.cfg.url req (before a)

  unfoldable pub client : Client
  unfolding plane_after
  client = record {
    answer = λ xs req. (exchange (length xs) req (plane_after xs)).0;
    decode_claim = joint.codec.decode;
  }

replay-append :
    {S : Type 0} (joint : Joint S) (n : ℕ) (s : S) (xs : Exchanges) (req : Request)
    (answer : Response)
    → replay joint n s (xs ++ (req, answer) ∷ [])
      ≡ (exchange joint (n + length xs) req (replay joint n s xs)).1
unfolding replay
replay-append joint n s [] req answer = ap (λ k. (exchange joint k req s).1) (omega arith)
replay-append joint n s ((r, a) ∷ xs) req answer =
    let s' = (exchange joint n r s).1 in
    replay-append joint (suc n) s' xs req answer
    ∙ ap (λ k. (exchange joint k req (replay joint (suc n) s' xs)).1) (omega arith)

pub plane_after-append :
    {S : Type 0} (joint : Joint S) (xs : Exchanges) (req : Request) (answer : Response)
    → plane_after joint (xs ++ (req, answer) ∷ [])
      ≡ (exchange joint (length xs) req (plane_after joint xs)).1
unfolding plane_after
plane_after-append joint xs req answer =
    replay-append joint 0 joint.initial xs req answer
    ∙ ap (λ k. (exchange joint k req (replay joint 0 joint.initial xs)).1) (omega arith)
