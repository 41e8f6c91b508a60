-- ===== src/Examples/Fleet.antt =====
-- The theorems on an agent and its control plane at concrete data: the Postgres repositories, and a codec that
-- writes a text with its length in front.
use mesh_vpn.Store.Database
use mesh_vpn.Store.Workers
use mesh_vpn.Store.JobTable
use mesh_vpn.Agent.Host.{done}
use mesh_vpn.Store.Database.{Database}
use mesh_vpn.Store.Database.Outcomes.{transaction_calm}
use mesh_vpn.Store.JobTable.{JobRow, assigned_to, new_row}
use mesh_vpn.Store.JobTable.Listed.{queue_of}
use mesh_vpn.Fleet.Stored.{claim-Other_stored, stored-QueueLaws, stored_meter, stored_plane}
use mesh_vpn.Examples.Data.{a_job, a_worker}
use mesh_vpn.Domain.{idle}
use mesh_vpn.Fleet.Routes.{Plane}
use mesh_vpn.Fleet.Joined.{
  Codec, Fate, Joint, client, answer_lost, delivered, fields_of, request_lost,
}
use mesh_vpn.Fleet.Queue.{IsStillCalm, Keeps, QueueLaws}
use mesh_vpn.Fleet.Agreement.{IsForeign, has_in_hand}
use mesh_vpn.Store.Jobs.Held.Waiting.{waiting_for}
use mesh_vpn.Fleet.Outcome.{start-finishes, queue_behind, start-alone, start-settled, started}
use mesh_vpn.Http.Replies.{Body, error_body, job_body}
use mesh_vpn.Agent.Executor.{JobFields}
use mesh_vpn.Agent.Jobs.{
  new_agent, register, polling, Claimed, given_job, no_job, Tick, heartbeat_tick, job_step, crashed,
}
use mesh_vpn.Store.Jobs
use mesh_vpn.Store.Jobs.{JobState, Jobs}
use mesh_vpn.Store.Jobs.Held.{is_held, named, IsKeyed, held}
use mesh_vpn.Text.Laws.{text_eq_iff}
use mesh_vpn.Text.Suffixes.{drop-append}
use mesh_vpn.Examples.Agents.{a_config, a_machine}
use mesh_vpn.Domain.{DeploymentJob}
use mesh_vpn.Text.{Text, codes, contains_char, is_empty, text_eq}
use mesh_vpn.Base.{
  first, set_first, sym, Option, Bool-cases, inl, inr, ◌≤◌, ◌+◌, ap, subst, List, [], arith, drop,
  if◌then◌else◌, length, none, refl, some, ℕ, ◌++◌, ◌==◌, ◌∷◌, ◌≡◌, take, zero,
}
use mesh_vpn.Base.Int.{negsuc, pos, ℤ}

abbrev put : Text → Text → Text
put t rest = length t ∷ t ++ rest

abbrev put_int : ℤ → Text → Text
put_int (pos n) rest = 0 ∷ n ∷ rest
put_int (negsuc n) rest = 1 ∷ n ∷ rest

abbrev get : Text → Text × Text
get [] = ([], [])
get (n ∷ s) = (take n s, drop n s)

abbrev get_int : Text → ℤ × Text
get_int (k ∷ n ∷ s) = ((if k == 0 then pos n else negsuc n), s)
get_int s = (pos 0, s)

take-append : (t rest : Text) → take (length t) (t ++ rest) ≡ t
take-append [] rest = refl
take-append (c ∷ t) rest = ap (λ (s : Text). c ∷ s) (take-append t rest)

get_int-put_int : (k : ℤ) (rest : Text) → get_int (put_int k rest) ≡ (k, rest)
get_int-put_int (pos n) rest = refl
get_int-put_int (negsuc n) rest = refl

abbrev encode : Body → Text
encode (job_body (some job)) =
    0
    ∷ put job.job_id (
        put job.deployment_id (
          put job.repo (
            put job.subdomain
              (put_int job.port (put_int job.cpu_cores (put_int job.memory_mb []))))))
encode (error_body e) = 1 ∷ e
encode _ = []

abbrev read_fields : Text → JobFields
read_fields s =
    let (job_id, s1) = get s in
    let (deployment_id, s2) = get s1 in
    let (repo, s3) = get s2 in
    let (subdomain, s4) = get s3 in
    let (port, s5) = get_int s4 in
    let (cpu_cores, s6) = get_int s5 in
    let (memory_mb, s7) = get_int s6 in
    record {
      job_id = some job_id;
      deployment_id = some deployment_id;
      repo = some repo;
      subdomain = some subdomain;
      port = some port;
      cpu_cores = some cpu_cores;
      memory_mb = some memory_mb;
    }

abbrev decode : Text → Claimed
decode (zero ∷ s) = given_job (read_fields s)
decode _ = no_job

decode-job :
    (job : DeploymentJob) → decode (encode (job_body (some job))) ≡ given_job (fields_of job)
decode-job job = simp (take-append, drop-append, get_int-put_int)

abbrev a_codec : Codec
a_codec = record {
  encode = encode;
  decode = decode;
  decode_job = decode-job;
  decode_none = refl;
  decode_error = λ e. refl;
}

-- The Postgres repositories.
abbrev a_plane : Plane Database
a_plane = stored_plane []

a_queue : QueueLaws a_plane stored_meter
a_queue = stored-QueueLaws []

abbrev assigned_row : Text → Text → JobRow
assigned_row id worker = assigned_to 0 worker (new_row (a_job id worker))

abbrev a_database : List (Option Text) → Database
a_database faults = record {
  workers = a_worker (codes "w1") idle (pos 0) ∷ a_worker (codes "w2") idle (pos 0) ∷ [];
  jobs =
      assigned_row (codes "j1") (codes "w1")
      ∷ assigned_row (codes "j2") (codes "w2")
      ∷ assigned_row (codes "j3") (codes "w1")
      ∷ [];
  deployments = [];
  users = [];
  faults = faults;
}

-- Between the requests of one worker's agent, those of another's.
abbrev other_claims : ℕ → Database → Database
other_claims n db = (Database.job_repository.claim_for_worker n (codes "w2") db).1

abbrev other_beats : ℕ → Database → Database
other_beats n db = (Database.worker_repository.update_heartbeat n (codes "w2") db).1

abbrev joint_with : (ℕ → Database → Database) → (ℕ → Fate) → List (Option Text) → Joint Database
joint_with others fate faults = record {
  plane = a_plane;
  codec = a_codec;
  cfg = a_config;
  machine = a_machine;
  clock = λ n. n;
  others = others;
  fate = fate;
  initial = a_database faults;
}

-- No exchange is lost, and no statement fails.
abbrev smooth_joint : (ℕ → Database → Database) → Joint Database
smooth_joint others = joint_with others (λ n. delivered) []

other_claims-IsForeign :
    (fate : ℕ → Fate) (faults : List (Option Text)) (n : ℕ)
    → IsForeign (joint_with other_claims fate faults) stored_meter (other_claims n)
other_claims-IsForeign fate faults n db keyed =
    claim-Other_stored n (codes "w1") (codes "w2") db (unfold text_eq in refl)
      (unfold is_empty in refl) keyed

other_claims-calm : (n : ℕ) (db : Database) → IsStillCalm stored_meter db (other_claims n db)
other_claims-calm n db c = (transaction_calm _ db c).1

abbrev start_jobs : Jobs.Jobs
start_jobs = queue_of (a_database []).jobs

start_jobs-IsKeyed : IsKeyed start_jobs
unfolding text_eq
start_jobs-IsKeyed = record { distinct = once; not_empty = refl }
  where
    once : (id : Text) → named id start_jobs ≤ 1
    once id = elim (Bool-cases (text_eq (codes "j1") id)) [
      | inl e ↦
          subst (λ i. named i start_jobs ≤ 1) ((text_eq_iff (codes "j1") id).0 e) (omega arith)
      | inr n1 ↦ elim (Bool-cases (text_eq (codes "j2") id)) [
        | inl e ↦
            subst (λ i. named i start_jobs ≤ 1) ((text_eq_iff (codes "j2") id).0 e) (omega arith)
        | inr n2 ↦ ground (arith, n1, n2)
      ]
    ]

-- A first job is reported on, and a second one is claimed.
abbrev fleet_ticks : List Tick
fleet_ticks = job_step ∷ heartbeat_tick ∷ job_step ∷ job_step ∷ job_step ∷ []

start-settled_example :
    let joint = smooth_joint other_claims in
    let a = started joint (codes "host") fleet_ticks in
    (held
        (codes "w1")
        (codes "j3")
        (queue_behind joint stored_meter a_queue (codes "host") fleet_ticks)
      ≡ has_in_hand joint stored_meter a.phase (codes "j3"))
    × (¬ (a.phase ≡ crashed (codes "j3")))
start-settled_example =
    start-settled (smooth_joint other_claims) stored_meter a_queue
      (other_claims-IsForeign (λ n. delivered) []) (unfold contains_char in refl)
      (unfold is_empty in refl) start_jobs-IsKeyed (codes "host") fleet_ticks (λ n. refl) refl
      other_claims-calm (λ id. unfold is_held in refl) (codes "j3")

-- The answer to the first claim is lost, as is a heartbeat; and the commit of a claim fails.
abbrev some_lost : ℕ → Fate
some_lost n =
    if n == 1
    then answer_lost (codes "EOF")
    else if n == 2
    then request_lost (codes "EOF")
    else delivered

abbrev some_faults : List (Option Text)
some_faults = none ∷ none ∷ some (codes "connection reset") ∷ none ∷ some (codes "timeout") ∷ []

start-alone_example :
    let joint = joint_with other_claims some_lost some_faults in
    let a = started joint (codes "host") fleet_ticks in
    let q = queue_behind joint stored_meter a_queue (codes "host") fleet_ticks in
    (has_in_hand joint stored_meter a.phase (codes "j3") ≤ held (codes "w1") (codes "j3") q)
    × (has_in_hand joint stored_meter a.phase (codes "j3") + held (codes "w2") (codes "j3") q ≤ 1)
    × (¬ (a.phase ≡ crashed (codes "j3")))
start-alone_example =
    start-alone (joint_with other_claims some_lost some_faults) stored_meter a_queue
      (other_claims-IsForeign some_lost some_faults) (unfold contains_char in refl)
      (unfold is_empty in refl) start_jobs-IsKeyed (codes "host") fleet_ticks (codes "w2")
      (unfold text_eq in refl) (codes "j3")

other_beats-Keeps : (n : ℕ) (db : Database) → Keeps stored_meter db (other_beats n db)
other_beats-Keeps n db = a_queue.keeps_beat n (codes "w2") db

other_beats-IsForeign : (n : ℕ) → IsForeign (smooth_joint other_beats) stored_meter (other_beats n)
other_beats-IsForeign n db keyed =
    let same = (other_beats-Keeps n db).0 in
    (subst IsKeyed (sym same) keyed, λ id. ap (held (codes "w1") id) same)

-- Two jobs wait for the worker.
abbrev six_steps : List Tick
six_steps = job_step ∷ job_step ∷ heartbeat_tick ∷ job_step ∷ job_step ∷ job_step ∷ job_step ∷ []

registers :
    (register a_config (client (smooth_joint other_beats)) (codes "host") new_agent).0 ≡ done tt
registers =
    unfold register client is_empty Workers.register Workers.update_heartbeat Database.statement
      Database.next_fault first set_first text_eq in
    refl

start-finishes_example :
    let joint = smooth_joint other_beats in
    ((started joint (codes "host") six_steps).phase ≡ polling)
    × (waiting_for (codes "w1") (queue_behind joint stored_meter a_queue (codes "host") six_steps)
        ≡ 0)
    × ((id : Text)
        → held (codes "w1") id (queue_behind joint stored_meter a_queue (codes "host") six_steps)
          ≡ 0)
start-finishes_example =
    start-finishes (smooth_joint other_beats) stored_meter a_queue other_beats-IsForeign
      (unfold contains_char in refl) (unfold is_empty in refl) start_jobs-IsKeyed (codes "host")
      six_steps (λ n. refl) refl (λ n db. (other_beats-Keeps n db).1) (λ id. unfold is_held in refl)
      (λ n db. ap (waiting_for (codes "w1")) (other_beats-Keeps n db).0) registers
      (unfold text_eq in omega arith)

-- The job that was claimed is in hand, and running for the worker.
settled_runs :
    let joint = smooth_joint other_beats in
    (has_in_hand joint stored_meter
        (started joint (codes "host") (job_step ∷ [])).phase
        (codes "j1")
      ≡ 1)
    × (held
          (codes "w1")
          (codes "j1")
          (queue_behind joint stored_meter a_queue (codes "host") (job_step ∷ []))
        ≡ 1)
unfolding mesh_vpn.Agent.Jobs.start client is_empty Workers.register Workers.update_heartbeat
    Database.transaction Database.next_fault first set_first text_eq is_held JobTable.claim
settled_runs = (refl, refl)
