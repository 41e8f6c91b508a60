-- ===== src/Examples/Stores.antt =====
-- The theorems on the stores at concrete data.
use mesh_vpn.Store.JobTable
use mesh_vpn.Store.DeploymentTable
use mesh_vpn.Store.Jobs
use mesh_vpn.Domain.{DeploymentRecord, Worker, idle}
use mesh_vpn.Text.{Text, codes, text_eq}
use mesh_vpn.Store.Jobs.{Jobs, claim_for_worker, claim_next}
use mesh_vpn.Store.Workers.Slots.{Change, IsSound, changes, changes-IsSound, decrements, increments}
use mesh_vpn.Store.Jobs.Calls.{History, all_enqueued, all_handed_out, claims, enqueues, times}
use mesh_vpn.Store.Jobs.Claims.{handed_out_at_most_once}
use mesh_vpn.Store.Jobs.Fifo.{PopsFor, claim_for_worker-PopsFor}
use mesh_vpn.Base.{◌/◌, ◌*◌, All, List, [], arith, if◌then◌else◌, ℕ, ◌<◌, ◌∷◌, ◌≡◌, ◌≤◌, some, ◌&&◌}
use mesh_vpn.Base.Int.{pos}
use mesh_vpn.Examples.Data.{a_deployment, a_job, a_worker, queued_job}
use mesh_vpn.Store.DeploymentTable.{stored_end, DeploymentTable, is_accepted, upsert}
use mesh_vpn.Store.JobTable.{JobRow, JobTable, new_row}
use mesh_vpn.Store.DeploymentTable.Writes.{answer_of, get-upsert}
use mesh_vpn.Store.JobTable.Oldest.{TakesOldest, claim-TakesOldest}

-- Two jobs of which one has a worker.
abbrev two_jobs : Jobs.Jobs
two_jobs = queued_job (codes "j1") [] ∷ queued_job (codes "j2") (codes "w1") ∷ []

-- Two workers ask for a job that was enqueued once.
abbrev race : History
race = (1, enqueues (a_job (codes "j1") [])) ∷ (2, claims) ∷ (3, claims) ∷ []

handed_out_at_most_once_example :
    times (codes "j1") (all_handed_out [] race) ≤ times (codes "j1") (all_enqueued race)
handed_out_at_most_once_example = handed_out_at_most_once (codes "j1") race

claim_for_worker-PopsFor_example : PopsFor (codes "w1") 9 two_jobs (claim_for_worker 9 (codes "w1"))
claim_for_worker-PopsFor_example = claim_for_worker-PopsFor 9 (codes "w1") two_jobs

abbrev sound_workers : List Worker
sound_workers = a_worker (codes "w1") idle (pos 1) ∷ a_worker (codes "w2") idle (pos 0) ∷ []

-- The last slot of a worker is taken and given back.
abbrev one_job : List (ℕ × Change)
one_job = (8, increments (codes "w1")) ∷ (9, decrements (codes "w1")) ∷ []

worker-IsSound : (id : Text) (n : ℕ) → n < 2 → IsSound (a_worker id idle (pos n))
worker-IsSound id n h = record {
  can_work = omega arith;
  holds = omega arith;
  idle_has_room = λ e. omega arith;
}

changes-IsSound_example : All IsSound (changes sound_workers one_job)
changes-IsSound_example =
    changes-IsSound sound_workers one_job (tt, (tt, tt))
      (
        worker-IsSound (codes "w1") 1 (omega arith),
        (worker-IsSound (codes "w2") 0 (omega arith), tt),
      )

abbrev d1 : DeploymentRecord
d1 = a_deployment (codes "d1") [] (codes "queued")

-- A record that nobody requested is accepted, and cannot be read.
abbrev orphan : DeploymentRecord
orphan = record d1 { requested_by = [] }

get-upsert_example : (DeploymentTable.get (codes "d1") (upsert (codes "u1" ∷ []) orphan []).1).0 ≡ (
    if is_accepted (codes "u1" ∷ []) orphan && text_eq (codes "d1") (codes "d1")
    then answer_of (
        some (record orphan {
          started_at = orphan.started_at / 1000 * 1000;
          finished_at = stored_end orphan.finished_at;
        }))
    else (DeploymentTable.get (codes "d1") []).0)
get-upsert_example = get-upsert (codes "u1" ∷ []) (codes "d1") orphan []

abbrev two_rows : List JobRow
two_rows = new_row (a_job (codes "j1") []) ∷ new_row (a_job (codes "j2") (codes "w1")) ∷ []

claim-TakesOldest_example :
    TakesOldest JobTable.is_waiting 9 two_rows (JobTable.claim JobTable.is_waiting 9)
claim-TakesOldest_example = claim-TakesOldest JobTable.is_waiting 9 two_rows
