-- ===== src/Fleet/Outcome.antt =====
-- The jobs of an agent, from its start on.
use mesh_vpn.Fleet.Agreement.{IsForeign, IsSafe, has_in_hand, queue_after, IsJoined}
use mesh_vpn.Fleet.Progress.{owed, run_ticks-to_do, send-to_do, steps, to_do}
use mesh_vpn.Store.Jobs.Held.Waiting.{waiting_for}
use mesh_vpn.Fleet.Served.{serve_register}
use mesh_vpn.Agent.Host.{Attempt, done, failed}
use mesh_vpn.Fleet.Joined.{before, plane_after, replay}
use mesh_vpn.Agent.Jobs.{polling, register, register_request, reporting, run_ticks, working}
use mesh_vpn.Base.{[], ap, ◌*◌, ◌∙◌, refl}
use mesh_vpn.Fleet.Settled.{start-IsJoined}
use mesh_vpn.Fleet.Joined.{Joint, client, delivered}
use mesh_vpn.Fleet.Queue.{QueueLaws, Meter, IsStillCalm}
use mesh_vpn.Agent.Jobs.{Agent, Phase, Tick, crashed, new_agent, start}
use mesh_vpn.Store.Jobs.Held.{IsKeyed, held}
use mesh_vpn.Store.Jobs.Held.Others.{held-other}
use mesh_vpn.Store.Jobs.{Jobs}
use mesh_vpn.Text.{Text, contains_char, is_empty, text_eq}
use mesh_vpn.Base.{List, arith, false, subst, true, ℕ, ◌+◌, ◌≡◌, ◌≤◌}
use mesh_vpn.Service.Distributor.{ticks}

module _ {S : Type 0} (joint : Joint S) where
  abbrev pub started : Text → List Tick → Agent
  started hostname ticks = start joint.cfg (client joint) joint.machine hostname ticks new_agent

  module _ (m : Meter S) (laws : QueueLaws joint.plane m) where
    IsSafe-crashed : (p : Phase) (job_id : Text) → IsSafe joint m p → ¬ (p ≡ crashed job_id)
    IsSafe-crashed p job_id safe e = subst (IsSafe joint m) e safe

    -- What the queue has running for a worker behind an agent's run.
    abbrev pub queue_behind : Text → List Tick → Jobs
    queue_behind hostname ticks = queue_after joint m (started hostname ticks).exchanges

    module _ (foreign : (n : ℕ) → IsForeign joint m (joint.others n))
        (plain : contains_char b'/' joint.cfg.worker_id ≡ false)
        (not_empty : is_empty joint.cfg.worker_id ≡ false) (keyed : IsKeyed (m.queue joint.initial))
        (hostname : Text) (ticks : List Tick) where
      -- Over repositories that keep the laws of `QueueLaws`, as those on Postgres do by
      -- `stored-QueueLaws`: a claim gives the worker one of the jobs that wait for it, or fails; a
      -- report ends the run of its job, or fails; other calls leave the jobs alone. From a queue of jobs
      -- with ids, all different, of which none is running for the worker: where no exchange is lost, no
      -- statement of the database fails, and the rest of the control plane keeps ids different, leaves
      -- alone what the worker holds and makes no statement fail, then however the heartbeats fall
      -- between the steps of the jobs, and whatever the commands of the machine answer, the jobs that
      -- the queue has running for the worker are the one that its agent has in hand, or none while it
      -- polls; and no job has ended the agent by a panic. The worker's id is not empty and has no slash.
      pub start-settled :
          ((n : ℕ) → joint.fate n ≡ delivered)
          → m.is_calm joint.initial ≡ true
          → ((n : ℕ) (s : S) → IsStillCalm m s (joint.others n s))
          → ((id : Text) → held joint.cfg.worker_id id (m.queue joint.initial) ≡ 0)
          → (id : Text)
          → (held joint.cfg.worker_id id (queue_behind hostname ticks)
              ≡ has_in_hand joint m (started hostname ticks).phase id)
            × (¬ ((started hostname ticks).phase ≡ crashed id))
      start-settled fates is_calm stays_calm none_held id =
          let joined =
            start-IsJoined joint m laws true (λ e. (fates, stays_calm)) foreign plain not_empty
              hostname ticks keyed none_held (λ e. is_calm) in
          (joined.agrees id, IsSafe-crashed _ id joined.safe)

      -- Over repositories that keep the laws of `QueueLaws`, as those on Postgres do by
      -- `stored-QueueLaws`: a claim gives the worker one of the jobs that wait for it, or fails; a
      -- report ends the run of its job, or fails; other calls leave the jobs alone. From a queue of jobs
      -- with ids, all different, whatever requests and answers are lost and whatever calls of the
      -- database fail, and where the rest of the control plane keeps ids different and leaves alone what
      -- the worker holds: the job that the agent has in hand is one that the queue has running for its
      -- worker, and no other worker has it running; and no job has ended the agent by a panic. The
      -- worker's id is not empty and has no slash.
      pub start-alone :
          (other : Text)
          → text_eq other joint.cfg.worker_id ≡ false
          → (id : Text)
          → (has_in_hand joint m (started hostname ticks).phase id
              ≤ held joint.cfg.worker_id id (queue_behind hostname ticks))
            × (has_in_hand joint m (started hostname ticks).phase id
                  + held other id (queue_behind hostname ticks)
                ≤ 1)
            × (¬ ((started hostname ticks).phase ≡ crashed id))
      start-alone other differs id =
          let joined =
            start-IsJoined joint m laws false (λ e. absurd (cc)) foreign plain not_empty hostname
              ticks keyed (λ id'. omega arith) (λ e. cc) in
          (
            joined.agrees id,
            omega (
              arith,
              joined.agrees id,
              held-other joint.cfg.worker_id other id (queue_behind hostname ticks) differs,
              joined.keyed.distinct id,
            ),
            IsSafe-crashed _ id joined.safe,
          )

      -- With no job to do, the agent polls.
      idle : (p : Phase) → IsSafe joint m p → owed p ≡ 0 → p ≡ polling
      idle polling safe h = refl
      idle (working job_id job) safe h = absurd (omega (arith, h))
      idle (reporting job_id req) safe h = absurd (omega (arith, h))
      idle (crashed job_id) safe h = absurd safe

      -- An agent whose registration is is_done.
      started-registered :
          (xs : List Tick)
          → (register joint.cfg (client joint) hostname new_agent).0 ≡ done tt
          → started hostname xs
            ≡ run_ticks joint.cfg
                (client joint)
                joint.machine
                xs
                (register joint.cfg (client joint) hostname new_agent).1
      unfolding start register
      started-registered xs h =
          let a = (register joint.cfg (client joint) hostname new_agent).1 in
          ap
            (λ (r : Attempt (Unit {0})). elim r [
              | done _ ↦ run_ticks joint.cfg (client joint) joint.machine xs a
              | failed e ↦ a
            ])
            h

      -- Over repositories that keep the laws of `QueueLaws`, as those on Postgres do by
      -- `stored-QueueLaws`: a claim gives the worker one of the jobs that wait for it, or fails; a
      -- report ends the run of its job, or fails; other calls leave the jobs alone. From a queue of jobs
      -- with ids, all different, of which none is running for the worker: an agent whose registration is
      -- answered, whose exchanges are not lost, and whose requests meet no failing statement of the
      -- database, is done with all jobs that wait for its worker after three steps of its loop of jobs
      -- for each: it polls, none of them waits, and none is running for the worker, however heartbeats
      -- fall between the steps and whether or not the jobs succeed. The rest of the control plane keeps
      -- ids different, leaves alone what the worker holds, does not change how many jobs wait for it,
      -- and makes no statement fail. The worker's id is not empty and has no slash.
      pub start-finishes :
          ((n : ℕ) → joint.fate n ≡ delivered)
          → m.is_calm joint.initial ≡ true
          → ((n : ℕ) (s : S) → IsStillCalm m s (joint.others n s))
          → ((id : Text) → held joint.cfg.worker_id id (m.queue joint.initial) ≡ 0)
          → ((n : ℕ) (s : S)
              → waiting_for joint.cfg.worker_id (m.queue (joint.others n s))
                ≡ waiting_for joint.cfg.worker_id (m.queue s))
          → ((register joint.cfg (client joint) hostname new_agent).0 ≡ done tt)
          → waiting_for joint.cfg.worker_id (m.queue joint.initial) * 3 ≤ steps ticks
          → ((started hostname ticks).phase ≡ polling)
            × (waiting_for joint.cfg.worker_id (queue_behind hostname ticks) ≡ 0)
            × ((id : Text) → held joint.cfg.worker_id id (queue_behind hostname ticks) ≡ 0)
      unfolding register plane_after replay run_ticks
      start-finishes fates is_calm stays_calm none_held patient is_done enough =
          let joined =
            start-IsJoined joint m laws true (λ e. (fates, stays_calm)) foreign plain not_empty
              hostname in
          let begun : IsJoined joint m true
              (register joint.cfg (client joint) hostname new_agent).1 =
            subst (IsJoined joint m true) (started-registered [] is_done)
              (joined [] keyed none_held (λ e. is_calm)) in
          let kept : to_do joint m laws (fates, stays_calm) foreign patient plain not_empty
                (register joint.cfg (client joint) hostname new_agent).1
              ≡ to_do joint m laws (fates, stays_calm) foreign patient plain not_empty new_agent =
            send-to_do joint m laws (fates, stays_calm) foreign patient plain not_empty
              (register_request joint.cfg hostname) new_agent
              (serve_register joint.plane (joint.clock 0) joint.cfg plain not_empty m laws hostname
                (before joint new_agent)) in
          let finished : to_do joint m laws (fates, stays_calm) foreign patient plain not_empty
                (started hostname ticks)
              ≡ 0 =
            ap (to_do joint m laws (fates, stays_calm) foreign patient plain not_empty)
              (started-registered ticks is_done)
            ∙ run_ticks-to_do joint m laws (fates, stays_calm) foreign patient plain not_empty ticks
                _ begun (omega (arith, kept, enough)) in
          let behind = joined ticks keyed none_held (λ e. is_calm) in
          let resting = idle (started hostname ticks).phase behind.safe (omega (arith, finished)) in
          (
            resting,
            omega (arith, finished),
            λ id. behind.agrees id ∙ ap (λ p. has_in_hand joint m p id) resting,
          )
