-- ===== src/Agent/Jobs.antt =====
-- The agent of worker-agent/internal/agent/agent.go: it registers, sends heartbeats, claims a job at a
-- time, executes it and reports on it. The loop of heartbeats runs beside the loop of jobs, so that a
-- heartbeat may come between any two steps of a job. Answers to requests are a function of the
-- exchanges before, and what `encoding/json` makes of a claim's body is a parameter.
pub mod Reported
use mesh_vpn.Text.{Text, codes}
use mesh_vpn.Agent.Host.{Attempt, History, Machine, done, failed}
use mesh_vpn.Base.{List, Option, String, [], if◌then◌else◌, none, some, ℕ, ◌++◌, ◌==◌, ◌∷◌}
use mesh_vpn.Base.Int.{lt_ℤ, pos, ℤ, ◌+ℤ◌, ◌-ℤ◌}
use mesh_vpn.Agent.Executor.{
  Execution, JobFields, RuntimeConfig, execute, panicked, returned, text_or_empty,
}
use mesh_vpn.Service.Distributor.{ticks}

pub record Config : Type 0 where
  pub worker_id : Text
  pub worker_name : Text
  pub tailscale_ip : Text
  pub max_concurrent_jobs : ℤ
  pub memory_gb : ℤ
  pub cpu_cores : ℤ
  pub supported_packages : List Text
  pub url : Text
  pub runtime : RuntimeConfig

pub data Body : Type 0 where
  no_body : Body
  registration : Config → Text → Body
  heartbeat : Text → ℤ → Body
  completed : Text → Text → Body
  failure : Text → Text → Text → Body

pub record Request : Type 0 where
  pub url : Text
  pub body : Body

pub data Response : Type 0 where
  no_response : Text → Response
  response : ℕ → Text → Response

abbrev pub Exchanges : Type 0
Exchanges = List (Request × Response)

-- A claim's body: it does not parse, it has no job, its job does not parse, or it has these fields.
pub data Claimed : Type 0 where
  bad_body no_job bad_job : Claimed
  given_job : JobFields → Claimed

pub record Client : Type 0 where
  pub answer : Exchanges → Request → Response
  pub decode_claim : Text → Claimed

-- Where the loop of jobs is: it waits for its tick, executes a job, is about to report on one, or has
-- ended the process by a panic in a job.
pub data Phase : Type 0 where
  polling : Phase
  working : Text → JobFields → Phase
  reporting : Text → Request → Phase
  crashed : Text → Phase

pub record Agent : Type 0 where
  pub active_jobs : ℤ
  pub phase : Phase
  pub exchanges : Exchanges
  pub history : History

pub data Tick : Type 0 where
  heartbeat_tick job_step : Tick

abbrev pub new_agent : Agent
new_agent = record { active_jobs = pos 0; phase = polling; exchanges = []; history = [] }

module _ (cfg : Config) where
  -- The URL of a worker's action.
  abbrev pub worker_url : String → Text
  worker_url action = cfg.url ++ codes "/api/workers/" ++ cfg.worker_id ++ codes "/" ++ codes action

  abbrev pub claim_request : Request
  claim_request = record { url = worker_url "claim-job"; body = no_body }

  abbrev pub complete_request : Text → Text → Request
  complete_request job_id id = record {
    url = worker_url "job-complete";
    body = completed job_id id;
  }

  abbrev pub failed_request : Text → Text → Text → Request
  failed_request job_id id e = record { url = worker_url "job-failed"; body = failure job_id id e }

  abbrev pub status_of : ℤ → Text
  status_of active = if lt_ℤ (pos 0) active then codes "busy" else codes "idle"

  abbrev pub heartbeat_request : ℤ → Request
  heartbeat_request active = record {
    url = worker_url "heartbeat";
    body = heartbeat (status_of active) active;
  }

  abbrev pub register_request : Text → Request
  register_request hostname = record {
    url = cfg.url ++ codes "/api/workers/register";
    body = registration cfg hostname;
  }

  module _ (client : Client) where
    -- One exchange, whose answer is kept.
    unfoldable pub send : Request → Agent → Response × Agent
    send req a =
        let answer = client.answer a.exchanges req in
        (answer, record a { exchanges = a.exchanges ++ (req, answer) ∷ [] })

    abbrev pub registered : Response → Attempt (Unit {0})
    registered (no_response e) = failed (codes "register request failed: " ++ e)
    registered (response status body) =
        if status == 200 then done tt else failed (codes "registration failed: " ++ body)

    unfoldable pub register : Text → Agent → Attempt (Unit {0}) × Agent
    unfolding send
    register hostname a =
        let (answer, a') = send (register_request hostname) a in (registered answer, a')

    unfoldable pub send_heartbeat : Agent → Agent
    unfolding send
    send_heartbeat a = (send (heartbeat_request a.active_jobs) a).1

    -- A job without an id is dropped.
    abbrev pub begin_job : JobFields → Option Text → Agent → Agent
    begin_job job none a = a
    begin_job job (some job_id) a = record a {
      active_jobs = a.active_jobs +ℤ pos 1;
      phase = working job_id job;
    }

    abbrev pub after_claim : Claimed → Agent → Agent
    after_claim (given_job job) a = begin_job job job.job_id a
    after_claim _ a = a

    abbrev pub claimed_by : Response → Claimed
    claimed_by (no_response e) = bad_body
    claimed_by (response status body) = client.decode_claim body

    -- `claimAndExecuteJob` up to the call of the executor
    unfoldable pub claim_job : Agent → Agent
    unfolding send ◌+ℤ◌
    claim_job a = let (answer, a') = send claim_request a in after_claim (claimed_by answer) a'

    abbrev pub report_of : Text → Text → Attempt (Unit {0}) → Request
    report_of job_id id (done _) = complete_request job_id id
    report_of job_id id (failed e) = failed_request job_id id e

    abbrev pub after_execution : Text → JobFields → Execution → Agent → Agent
    after_execution job_id job panicked a = record a { phase = crashed job_id }
    after_execution job_id job (returned r) a = record a {
      active_jobs = a.active_jobs -ℤ pos 1;
      phase = reporting job_id (report_of job_id (text_or_empty job.deployment_id) r);
    }

    module _ (machine : Machine) where
      unfoldable pub execute_job : Text → JobFields → Agent → Agent
      unfolding execute ◌-ℤ◌
      execute_job job_id job a =
          let (r, h) = execute machine cfg.runtime job a.history in
          after_execution job_id job r (record a { history = h })

      -- `reportJobComplete` or `reportJobFailed`; the answer is not looked at.
      unfoldable pub report : Request → Agent → Agent
      unfolding send
      report req a = record (send req a).1 { phase = polling }

      abbrev pub advance_from : Phase → Agent → Agent
      advance_from polling a = claim_job a
      advance_from (working job_id job) a = execute_job job_id job a
      advance_from (reporting job_id req) a = report req a
      advance_from (crashed job_id) a = a

      -- Nothing runs any more once the process has ended.
      abbrev pub beat_in : Phase → Agent → Agent
      beat_in (crashed job_id) a = a
      beat_in _ a = send_heartbeat a

      unfoldable pub advance : Agent → Agent
      unfolding claim_job execute_job report
      advance a = advance_from a.phase a

      unfoldable pub beat : Agent → Agent
      unfolding send_heartbeat
      beat a = beat_in a.phase a

      -- `heartbeatLoop` and `pollJobs` side by side: what runs next.
      unfoldable pub run_ticks : List Tick → Agent → Agent
      unfolding advance beat
      run_ticks [] a = a
      run_ticks (heartbeat_tick ∷ ticks) a = run_ticks ticks (beat a)
      run_ticks (job_step ∷ ticks) a = run_ticks ticks (advance a)

      -- `Start`: without a registration nothing runs.
      unfoldable pub start : Text → List Tick → Agent → Agent
      unfolding register run_ticks
      start hostname ticks a =
          let (r, a') = register hostname a in
          elim r [ done _ ↦ run_ticks ticks a' | failed e ↦ a' ]
