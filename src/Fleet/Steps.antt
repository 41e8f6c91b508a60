-- ===== src/Fleet/Steps.antt =====
-- A heartbeat, the execution of a job and the report on it.
use mesh_vpn.Agent.Host.{done, failed, Attempt, Machine, History}
use mesh_vpn.Agent.Executor.{JobFields, RuntimeConfig, execute, returned, with_port, text_or_empty}
use mesh_vpn.Agent.Jobs.{
  beat, send_heartbeat, heartbeat_request, beat_in, execute_job, after_execution, report, Agent,
  Phase, Request, crashed, polling, reporting, working, report_of, send,
}
use mesh_vpn.Text.{Text, codes, text_eq, contains_char, is_empty}
use mesh_vpn.Store.Jobs.{write_job}
use mesh_vpn.Store.Jobs.Held.{
  held-named, alike-IsKeyed, held-not_empty, bit, IsKeyed, one_of, held, write_job-held,
}
use mesh_vpn.Base.{
  Bool, true, Bool-cases, ap, arith, inl, inr, length, refl, some, subst, sym, ℕ, ◌≡◌, false, ◌+◌,
}
use mesh_vpn.Base.Int.{ℤ}
use mesh_vpn.Fleet.Joined.{before, made, client, Joint, served}
use mesh_vpn.Fleet.Served.{serve_complete, serve_failed, serve_heartbeat}
use mesh_vpn.Fleet.Queue.{QueueLaws, Meter, Marks, HasEnded}
use mesh_vpn.Text.Laws.{text_eq_refl}
use mesh_vpn.Fleet.Agreement.{
  IsSmooth, before-calm, Agrees, Agrees-pos, Agrees-take, Agrees-zero, sent_cases, has_in_hand,
  IsSafe, IsJoined, IsForeign, before-IsKeyed, before-Agrees, send-IsJoined, queue_after,
}

-- A job whose port is given ends neither the executor nor the agent.
pub execute_returns :
    (machine : Machine) (runtime : RuntimeConfig) (job : JobFields) (port : ℤ) (h : History)
    → job.port ≡ some port
    → (r : Attempt (Unit {0})) × ((execute machine runtime job h).0 ≡ returned r)
unfolding execute
execute_returns machine runtime job port h e =
    subst (λ p. (r : Attempt (Unit {0})) × ((with_port machine runtime job p h).0 ≡ returned r))
      (sym e)
      (elim (Bool-cases (text_eq runtime.type (codes "kubernetes"))) [
        | inl k ↦ rw k (_, refl)
        | inr k ↦ rw k (_, refl)
      ])

module _ {S : Type 0} (joint : Joint S) (m : Meter S) (laws : QueueLaws joint.plane m)
    (exact : Bool) (fates : exact ≡ true → IsSmooth joint m)
    (foreign : (n : ℕ) → IsForeign joint m (joint.others n))
    (plain : contains_char b'/' joint.cfg.worker_id ≡ false)
    (not_empty : is_empty joint.cfg.worker_id ≡ false) where
  pub beat-IsJoined :
      (a : Agent)
      → IsJoined joint m exact a
      → IsJoined joint m exact (beat joint.cfg (client joint) joint.machine a)
  unfolding beat send_heartbeat
  beat-IsJoined a joined = by_phase a.phase
    where
      sent :
          IsJoined joint m exact
            (send joint.cfg (client joint) (heartbeat_request joint.cfg a.active_jobs) a).1
      sent =
          send-IsJoined joint m exact fates foreign (heartbeat_request joint.cfg a.active_jobs) a
            (serve_heartbeat joint.plane (joint.clock (length a.exchanges)) joint.cfg plain
              not_empty m laws a.active_jobs (before joint a))
            joined

      by_phase :
          (p : Phase) → IsJoined joint m exact (beat_in joint.cfg (client joint) joint.machine p a)
      by_phase polling = sent
      by_phase (working job_id job) = sent
      by_phase (reporting job_id req) = sent
      by_phase (crashed job_id) = joined

  pub execute_job-IsJoined :
      (job_id : Text) (job : JobFields) (a : Agent)
      → a.phase ≡ working job_id job
      → IsJoined joint m exact a
      → IsJoined joint m exact (execute_job joint.cfg (client joint) joint.machine job_id job a)
  unfolding execute_job
  execute_job-IsJoined job_id job a e joined =
      let (port, some_port) = subst (IsSafe joint m) e joined.safe in
      let (r, returns) =
        execute_returns joint.machine joint.cfg.runtime job port a.history some_port in
      subst
        (λ x. IsJoined joint m exact (
          after_execution joint.cfg (client joint) job_id job x
            (record a { history = (execute joint.machine joint.cfg.runtime job a.history).1 })))
        (sym returns)
        (record {
          keyed = joined.keyed;
          agrees = λ id.
              subst
                (λ p.
                  Agrees exact (held joint.cfg.worker_id id (queue_after joint m a.exchanges))
                    (has_in_hand joint m p id))
                e (joined.agrees id);
          safe = (r, text_or_empty job.deployment_id, refl);
          calm = joined.calm;
        })

  -- A report ends the run of the job in hand, or fails.
  made_report :
      (job_id id : Text) (r : Attempt (Unit {0})) (a : Agent)
      → is_empty job_id ≡ false
      → Marks m job_id
          (before joint a)
          (made joint (report_of joint.cfg (client joint) job_id id r) a).1
  made_report job_id id (done u) a h =
      serve_complete joint.plane (joint.clock (length a.exchanges)) joint.cfg plain not_empty m laws
        job_id id (before joint a) h
  made_report job_id id (failed text) a h =
      serve_failed joint.plane (joint.clock (length a.exchanges)) joint.cfg plain not_empty m laws
        job_id id text (before joint a) h

  -- A report is on a job that the queue has running for the worker.
  pub record IsReported (job_id : Text) (req : Request) (a : Agent) : Type 0 where
    pub one : held joint.cfg.worker_id job_id (m.queue (before joint a)) ≡ 1
    pub marks : Marks m job_id (before joint a) (made joint req a).1

  pub reporting-IsReported :
      (job_id : Text) (req : Request) (a : Agent)
      → a.phase ≡ reporting job_id req
      → IsJoined joint m exact a
      → IsReported job_id req a
  reporting-IsReported job_id req a e joined =
      let (r, id, is_report) = subst (IsSafe joint m) e joined.safe in
      let q = m.queue (before joint a) in
      let keyed = before-IsKeyed joint m exact fates foreign a joined in
      let one : held joint.cfg.worker_id job_id q ≡ 1 = omega (
        arith,
        Agrees-pos exact _ _
            (before-Agrees joint m exact fates foreign a (reporting job_id req) e joined job_id),
        ap bit (text_eq_refl job_id),
        held-named joint.cfg.worker_id job_id q,
        keyed.distinct job_id,
      ) in
      record {
        one = one;
        marks =
            subst (λ req'. Marks m job_id (before joint a) (made joint req' a).1) (sym is_report)
              (made_report job_id id r a (held-not_empty joint.cfg.worker_id job_id q keyed one));
      }

  -- The queue behind the end of a run.
  ended :
      (job_id : Text) (req : Request) (a : Agent)
      → IsReported job_id req a
      → IsJoined joint m exact a
      → HasEnded m job_id (before joint a) (made joint req a).1
      → IsKeyed (m.queue (made joint req a).1)
        × ((id : Text)
            → held joint.cfg.worker_id id (m.queue (made joint req a).1) + one_of id job_id
              ≡ held joint.cfg.worker_id id (m.queue (before joint a)))
  ended job_id req a told joined (write, ends, writes) =
      let q = m.queue (before joint a) in
      let keyed = before-IsKeyed joint m exact fates foreign a joined in
      let (less, same) =
        write_job-held joint.cfg.worker_id job_id write q ends (keyed.distinct job_id) told.one in
      (
        subst IsKeyed (sym writes) (alike-IsKeyed q (write_job job_id write q).1 same keyed),
        λ id.
            subst
              (λ r.
                held joint.cfg.worker_id id r + one_of id job_id ≡ held joint.cfg.worker_id id q)
              (sym writes) (less id),
      )

  pub report-IsJoined :
      (job_id : Text) (req : Request) (a : Agent)
      → a.phase ≡ reporting job_id req
      → IsJoined joint m exact a
      → IsJoined joint m exact (report joint.cfg (client joint) joint.machine req a)
  unfolding report
  report-IsJoined job_id req a e joined = elim (sent_cases joint m exact fates foreign req a) [
    | inl (answer, now) ↦ record {
      keyed = subst (λ s. IsKeyed (m.queue s)) (sym now) marked_keyed;
      agrees = λ id'. elim (Bool-cases exact) [
        | inl tight ↦
            subst (λ s. Agrees exact (held joint.cfg.worker_id id' (m.queue s)) 0) (sym now)
              (Agrees-take exact _ _ _
                (before-Agrees joint m exact fates foreign a (reporting job_id req) e joined id')
                ((ended job_id req a told joined (told.marks.in_calm (calm_before tight))).1 id'))
        | inr loose ↦ Agrees-zero exact _ loose
      ];
      safe = tt;
      calm = λ tight.
          subst (λ s. m.is_calm s ≡ true) (sym now) (told.marks.still_calm (calm_before tight));
    }
    | inr (loose, text, answer, now) ↦ record {
      keyed = elim now [
        | inl served ↦ subst (λ s. IsKeyed (m.queue s)) (sym served) marked_keyed
        | inr lost ↦
            subst (λ s. IsKeyed (m.queue s)) (sym lost)
              (before-IsKeyed joint m exact fates foreign a joined)
      ];
      agrees = λ id'. Agrees-zero exact _ loose;
      safe = tt;
      calm = λ tight. cc;
    }
  ]
    where
      told : IsReported job_id req a
      told = reporting-IsReported job_id req a e joined

      calm_before : exact ≡ true → m.is_calm (before joint a) ≡ true
      calm_before = before-calm joint m exact fates foreign a joined

      marked_keyed : IsKeyed (m.queue (made joint req a).1)
      marked_keyed = elim told.marks.outcome [
        | inl same ↦ subst IsKeyed (sym same) (before-IsKeyed joint m exact fates foreign a joined)
        | inr runs_out ↦ (ended job_id req a told joined runs_out).0
      ]
