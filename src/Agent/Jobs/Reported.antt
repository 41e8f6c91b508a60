-- ===== src/Agent/Jobs/Reported.antt =====
-- Which jobs the agent of worker-agent/internal/agent/agent.go reports on, and what it says of itself.
use mesh_vpn.Text.{Text}
use mesh_vpn.Agent.Jobs.{
  Agent, Body, Claimed, Client, Config, Exchanges, Phase, Request, Response, given_job, claimed_by,
  completed, crashed, failure, no_body, polling, reporting, working, after_claim, claim_job,
  claim_request, send, beat, beat_in, send_heartbeat, Tick, advance, advance_from, after_execution,
  bad_body, bad_job, begin_job, execute_job, heartbeat, heartbeat_request, heartbeat_tick, job_step,
  no_job, registration, report, run_ticks, new_agent, register, register_request, registered, start,
}
use mesh_vpn.Base.Int.{pos, ◌+ℤ◌, ◌-ℤ◌}
use mesh_vpn.Base.{
  List, [], append-nil, append_assoc, none, some, ℕ, ◌++◌, ◌∷◌, ◌≡◌, refl, ap, ◌∙◌, Option, subst,
  sym,
}
use mesh_vpn.Agent.Host.{Machine, done, failed, Attempt}
use mesh_vpn.Service.Distributor.{ticks}
use mesh_vpn.Agent.Executor.{Execution, JobFields, execute, panicked, returned}

-- The id of a job that an answer gives out.
abbrev given : Claimed → List Text
given (given_job job) = elim job.job_id [ none ↦ [] | some job_id ↦ job_id ∷ [] ]
given _ = []

abbrev reported_in : Body → List Text
reported_in (completed job_id id) = job_id ∷ []
reported_in (failure job_id id e) = job_id ∷ []
reported_in _ = []

-- The ids that reports named, in order.
pub reported : Exchanges → List Text
reported [] = []
reported ((req, answer) ∷ xs) = reported_in req.body ++ reported xs

-- The job between its claim and its report.
abbrev pub in_hand : Phase → List Text
in_hand polling = []
in_hand (working job_id job) = job_id ∷ []
in_hand (reporting job_id req) = job_id ∷ []
in_hand (crashed job_id) = job_id ∷ []

abbrev executing : Phase → ℕ
executing polling = 0
executing (working job_id job) = 1
executing (reporting job_id req) = 0
executing (crashed job_id) = 1

abbrev IsDue : Phase → Type 0
IsDue (reporting job_id req) = reported_in req.body ≡ job_id ∷ []
IsDue _ = Unit

module _ (cfg : Config) (client : Client) where
  abbrev given_in : Body → Response → List Text
  given_in no_body answer = given (claimed_by cfg client answer)
  given_in _ answer = []

  -- The ids of the jobs that the control plane gave out, in order: claims are the requests with no
  -- body.
  pub given_out : Exchanges → List Text
  given_out [] = []
  given_out ((req, answer) ∷ xs) = given_in req.body answer ++ given_out xs

  -- Every job that was given out was reported on, once and in order, or is in hand; and the agent counts
  -- the job that it executes.
  pub record IsTracked (a : Agent) : Type 0 where
    pub accounted : given_out a.exchanges ≡ reported a.exchanges ++ in_hand a.phase
    pub counted : a.active_jobs ≡ pos (executing a.phase)
    pub due : IsDue a.phase

  given_out-append :
      (xs : Exchanges) (req : Request) (answer : Response)
      → given_out (xs ++ (req, answer) ∷ []) ≡ given_out xs ++ given_in req.body answer
  unfolding given_out
  given_out-append [] req answer = append-nil _
  given_out-append (x ∷ xs) req answer = simp (given_out-append xs req answer, append_assoc)

  reported-append :
      (xs : Exchanges) (req : Request) (answer : Response)
      → reported (xs ++ (req, answer) ∷ []) ≡ reported xs ++ reported_in req.body
  unfolding reported
  reported-append [] req answer = append-nil _
  reported-append (x ∷ xs) req answer = simp (reported-append xs req answer, append_assoc)

  -- The history of exchanges behind one more.
  abbrev sent : Request → Agent → Exchanges
  sent req a = a.exchanges ++ (req, client.answer a.exchanges req) ∷ []

  send_accounted :
      (req : Request) (a : Agent)
      → IsTracked a
      → given_out (sent req a)
        ≡ (reported a.exchanges ++ in_hand a.phase)
          ++ given_in req.body (client.answer a.exchanges req)
  send_accounted req a t =
      given_out-append a.exchanges req (client.answer a.exchanges req)
      ∙ ap (λ ids. ids ++ given_in req.body (client.answer a.exchanges req)) t.accounted

  -- Where the loop waits, the ids that were given out are those that were reported.
  IsTracked-polling :
      (a : Agent)
      → a.phase ≡ polling
      → a.active_jobs ≡ pos 0
      → given_out a.exchanges ≡ reported a.exchanges
      → IsTracked a
  IsTracked-polling a e n h = record {
    accounted = h ∙ simp (e, append-nil);
    counted = n ∙ ap (λ p. pos (executing p)) (sym e);
    due = subst IsDue (sym e) tt;
  }

  -- A claim gives out the job that is then in hand.
  begin_job-IsTracked :
      (c : Claimed) (a : Agent)
      → a.phase ≡ polling
      → a.active_jobs ≡ pos 0
      → given_out a.exchanges ≡ reported a.exchanges ++ given c
      → IsTracked (after_claim cfg client c a)
  unfolding ◌+ℤ◌
  begin_job-IsTracked bad_body a e n h = IsTracked-polling a e n (h ∙ append-nil _)
  begin_job-IsTracked no_job a e n h = IsTracked-polling a e n (h ∙ append-nil _)
  begin_job-IsTracked bad_job a e n h = IsTracked-polling a e n (h ∙ append-nil _)
  begin_job-IsTracked (given_job job) a e n h = begun job.job_id h
    where
      begun :
          (o : Option Text)
          → given_out a.exchanges
            ≡ reported a.exchanges ++ (elim o [ none ↦ [] | some id ↦ id ∷ [] ])
          → IsTracked (begin_job cfg client job o a)
      begun none h' = IsTracked-polling a e n (h' ∙ append-nil _)
      begun (some id) h' = record { accounted = h'; counted = ap (λ k. k +ℤ pos 1) n; due = tt }

  claim_job-IsTracked :
      (a : Agent) → a.phase ≡ polling → IsTracked a → IsTracked (claim_job cfg client a)
  unfolding claim_job send
  claim_job-IsTracked a e t =
      begin_job-IsTracked (claimed_by cfg client (client.answer a.exchanges (claim_request cfg)))
        (send cfg client (claim_request cfg) a).1 e (t.counted ∙ ap (λ p. pos (executing p)) e)
        (send_accounted (claim_request cfg) a t ∙ simp (e, reported-append, append-nil))

  send_heartbeat-IsTracked : (a : Agent) → IsTracked a → IsTracked (send_heartbeat cfg client a)
  unfolding send_heartbeat send
  send_heartbeat-IsTracked a t = record {
    accounted =
        send_accounted (heartbeat_request cfg a.active_jobs) a t
        ∙ simp (reported-append, append-nil);
    counted = t.counted;
    due = t.due;
  }

  given_in-report :
      (body : Body) (answer : Response) {job_id : Text}
      → reported_in body ≡ job_id ∷ []
      → given_in body answer ≡ []
  given_in-report no_body answer h = cc
  given_in-report (registration c hostname) answer h = refl
  given_in-report (heartbeat status n) answer h = refl
  given_in-report (completed job_id id) answer h = refl
  given_in-report (failure job_id id e) answer h = refl

  module _ (machine : Machine) where
    beat-IsTracked : (a : Agent) → IsTracked a → IsTracked (beat cfg client machine a)
    unfolding beat
    beat-IsTracked a t = by_phase a.phase
      where
        by_phase : (p : Phase) → IsTracked (beat_in cfg client machine p a)
        by_phase polling = send_heartbeat-IsTracked a t
        by_phase (working job_id job) = send_heartbeat-IsTracked a t
        by_phase (reporting job_id req) = send_heartbeat-IsTracked a t
        by_phase (crashed job_id) = t

    -- The job stays in hand until its report.
    after_execution-IsTracked :
        (job_id : Text) (job : JobFields) (r : Execution) (a : Agent)
        → a.phase ≡ working job_id job
        → IsTracked a
        → IsTracked (after_execution cfg client job_id job r a)
    unfolding ◌-ℤ◌
    after_execution-IsTracked job_id job r a e t = by_result r
      where
        held : given_out a.exchanges ≡ reported a.exchanges ++ job_id ∷ []
        held = t.accounted ∙ ap (λ p. reported a.exchanges ++ in_hand p) e

        one : a.active_jobs ≡ pos 1
        one = t.counted ∙ ap (λ p. pos (executing p)) e

        by_result : (r : Execution) → IsTracked (after_execution cfg client job_id job r a)
        by_result panicked = record { accounted = held; counted = one; due = tt }
        by_result (returned (done u)) = record {
          accounted = held;
          counted = ap (λ k. k -ℤ pos 1) one;
          due = refl;
        }
        by_result (returned (failed text)) = record {
          accounted = held;
          counted = ap (λ k. k -ℤ pos 1) one;
          due = refl;
        }

    report-IsTracked :
        (job_id : Text) (req : Request) (a : Agent)
        → a.phase ≡ reporting job_id req
        → IsTracked a
        → IsTracked (report cfg client machine req a)
    unfolding report send
    report-IsTracked job_id req a e t =
        let due : reported_in req.body ≡ job_id ∷ [] = subst IsDue e t.due in
        record {
          accounted =
              send_accounted req a t
              ∙ simp (e, reported-append, append-nil, due, given_in-report req.body _ due);
          counted = t.counted ∙ ap (λ p. pos (executing p)) e;
          due = tt;
        }

    advance-IsTracked : (a : Agent) → IsTracked a → IsTracked (advance cfg client machine a)
    unfolding advance execute_job
    advance-IsTracked a t = by_phase a.phase refl
      where
        by_phase : (p : Phase) → a.phase ≡ p → IsTracked (advance_from cfg client machine p a)
        by_phase polling e = claim_job-IsTracked a e t
        by_phase (working job_id job) e =
            let (r, h) = execute machine cfg.runtime job a.history in
            after_execution-IsTracked job_id job r (record a { history = h }) e
              (record { accounted = t.accounted; counted = t.counted; due = t.due })
        by_phase (reporting job_id req) e = report-IsTracked job_id req a e t
        by_phase (crashed job_id) e = t

    run_ticks-IsTracked :
        (ticks : List Tick) (a : Agent)
        → IsTracked a
        → IsTracked (run_ticks cfg client machine ticks a)
    unfolding run_ticks
    run_ticks-IsTracked [] a t = t
    run_ticks-IsTracked (heartbeat_tick ∷ ticks) a t =
        run_ticks-IsTracked ticks (beat cfg client machine a) (beat-IsTracked a t)
    run_ticks-IsTracked (job_step ∷ ticks) a t =
        run_ticks-IsTracked ticks (advance cfg client machine a) (advance-IsTracked a t)

    -- From its start, however the heartbeats fall between the steps of the jobs, and whatever is
    -- answered: the jobs with an id that the control plane gives out are the jobs for which the agent
    -- sends a report, one each and in the order in which they were given out, and behind them the one
    -- in hand, if there is one; and the agent counts one active job while it executes one, or has
    -- crashed in it, and none else.
    pub start-IsTracked :
        (hostname : Text) (ticks : List Tick)
        → IsTracked (start cfg client machine hostname ticks new_agent)
    unfolding start register send reported given_out
    start-IsTracked hostname ticks = by_result (registered cfg client answer)
      where
        answer : Response
        answer = client.answer [] (register_request cfg hostname)

        joined : Agent
        joined = record new_agent { exchanges = (register_request cfg hostname, answer) ∷ [] }

        fresh : IsTracked joined
        fresh = record { accounted = refl; counted = refl; due = tt }

        by_result :
            (r : Attempt (Unit {0}))
            → IsTracked
                (elim r [ done _ ↦ run_ticks cfg client machine ticks joined | failed e ↦ joined ])
        by_result (done u) = run_ticks-IsTracked ticks joined fresh
        by_result (failed e) = fresh
