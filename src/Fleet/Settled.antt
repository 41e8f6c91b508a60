-- ===== src/Fleet/Settled.antt =====
-- What becomes of the jobs that the control plane gives to an agent.
use mesh_vpn.Agent.Host.{done, failed, Attempt}
use mesh_vpn.Agent.Jobs.{
  beat, advance, advance_from, run_ticks, start, register, registered, register_request, new_agent,
  Tick, heartbeat_tick, job_step, Agent, Phase, crashed, polling, reporting, working, send,
}
use mesh_vpn.Text.{Text, contains_char, is_empty}
use mesh_vpn.Store.Jobs.Held.{IsKeyed, held}
use mesh_vpn.Base.{Bool, true, [], refl, ℕ, ◌∷◌, ◌≡◌, false, List}
use mesh_vpn.Fleet.Joined.{before, client, plane_after, replay, Joint}
use mesh_vpn.Fleet.Served.{serve_register}
use mesh_vpn.Fleet.Queue.{QueueLaws, Meter}
use mesh_vpn.Service.Distributor.{ticks}
use mesh_vpn.Fleet.Agreement.{IsSmooth, Agrees, IsJoined, IsForeign, send-IsJoined}
use mesh_vpn.Fleet.Claims.{claim_job-IsJoined}
use mesh_vpn.Fleet.Steps.{beat-IsJoined, execute_job-IsJoined, report-IsJoined}

module _ {S : Type 0} (joint : Joint S) (m : Meter S) (laws : QueueLaws joint.plane m)
    (exact : Bool) (fates : exact ≡ true → IsSmooth joint m)
    (foreign : (n : ℕ) → IsForeign joint m (joint.others n))
    (plain : contains_char b'/' joint.cfg.worker_id ≡ false)
    (not_empty : is_empty joint.cfg.worker_id ≡ false) where
  pub advance-IsJoined :
      (a : Agent)
      → IsJoined joint m exact a
      → IsJoined joint m exact (advance joint.cfg (client joint) joint.machine a)
  unfolding advance
  advance-IsJoined a joined = by_phase a.phase refl
    where
      by_phase :
          (p : Phase)
          → a.phase ≡ p
          → IsJoined joint m exact (advance_from joint.cfg (client joint) joint.machine p a)
      by_phase polling e =
          claim_job-IsJoined joint m laws exact fates foreign plain not_empty a e joined
      by_phase (working job_id job) e =
          execute_job-IsJoined joint m laws exact fates foreign plain not_empty job_id job a e
            joined
      by_phase (reporting job_id req) e =
          report-IsJoined joint m laws exact fates foreign plain not_empty job_id req a e joined
      by_phase (crashed job_id) e = joined

  run_ticks-IsJoined :
      (ticks : List Tick) (a : Agent)
      → IsJoined joint m exact a
      → IsJoined joint m exact (run_ticks joint.cfg (client joint) joint.machine ticks a)
  unfolding run_ticks
  run_ticks-IsJoined [] a joined = joined
  run_ticks-IsJoined (heartbeat_tick ∷ ticks) a joined =
      run_ticks-IsJoined ticks (beat joint.cfg (client joint) joint.machine a)
        (beat-IsJoined joint m laws exact fates foreign plain not_empty a joined)
  run_ticks-IsJoined (job_step ∷ ticks) a joined =
      run_ticks-IsJoined ticks (advance joint.cfg (client joint) joint.machine a)
        (advance-IsJoined a joined)

  pub start-IsJoined :
      (hostname : Text) (ticks : List Tick)
      → IsKeyed (m.queue joint.initial)
      → ((id : Text) → Agrees exact (held joint.cfg.worker_id id (m.queue joint.initial)) 0)
      → (exact ≡ true → m.is_calm joint.initial ≡ true)
      → IsJoined joint m exact
          (start joint.cfg (client joint) joint.machine hostname ticks new_agent)
  unfolding start register plane_after replay
  start-IsJoined hostname ticks keyed none_held calm = by_result (
      registered joint.cfg (client joint)
        (send joint.cfg (client joint) (register_request joint.cfg hostname) new_agent).0)
    where
      fresh : IsJoined joint m exact new_agent
      fresh = record { keyed = keyed; agrees = none_held; safe = tt; calm = calm }

      joined :
          IsJoined joint m exact
            (send joint.cfg (client joint) (register_request joint.cfg hostname) new_agent).1
      joined =
          send-IsJoined joint m exact fates foreign (register_request joint.cfg hostname) new_agent
            (serve_register joint.plane (joint.clock 0) joint.cfg plain not_empty m laws hostname
              (before joint new_agent))
            fresh

      by_result :
          (r : Attempt (Unit {0}))
          → IsJoined joint m exact (elim r [
            | done _ ↦
                run_ticks joint.cfg
                  (client joint)
                  joint.machine
                  ticks
                  (send joint.cfg (client joint) (register_request joint.cfg hostname) new_agent).1
            | failed e ↦
                (send joint.cfg (client joint) (register_request joint.cfg hostname) new_agent).1
          ])
      by_result (done u) = run_ticks-IsJoined ticks _ joined
      by_result (failed e) = joined
