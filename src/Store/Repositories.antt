-- ===== src/Store/Repositories.antt =====
-- The interfaces `JobRepository`, `WorkerRepository` and `DeploymentRepository` of
-- control-plane/internal/store, over the state that an implementation keeps. `ℕ` is the current time.
pub mod Laws
use mesh_vpn.Domain.{DeploymentJob, DeploymentRecord, Worker}
use mesh_vpn.Text.{Text}
use mesh_vpn.Store.Jobs.{claim_for_worker, claim_next}
use mesh_vpn.Store.Errors.{Exec, Program}
use mesh_vpn.Store.Workers.{
  decrement_job_count, get_available_worker, increment_job_count, list_by_status, mark_offline,
  register, update_heartbeat,
}
use mesh_vpn.Base.{List, ℕ}

pub record JobRepository (S : Type 0) : Type 0 where
  pub enqueue : DeploymentJob → Exec S (Unit {0})
  pub claim_next : ℕ → Exec S DeploymentJob
  pub mark_done : ℕ → Text → Exec S (Unit {0})
  pub mark_failed : ℕ → Text → Text → Exec S (Unit {0})
  pub assign_to_worker : ℕ → Text → Text → Exec S (Unit {0})
  pub release_from_worker : Text → Exec S (Unit {0})
  pub claim_for_worker : ℕ → Text → Exec S DeploymentJob
  pub get_next_unassigned_job : Exec S DeploymentJob

pub record WorkerRepository (S : Type 0) : Type 0 where
  pub register : ℕ → Worker → Exec S (Unit {0})
  pub update : ℕ → Worker → Exec S (Unit {0})
  pub get : Text → Exec S Worker
  pub list : Exec S (List Worker)
  pub list_by_status : Text → Exec S (List Worker)
  pub update_heartbeat : ℕ → Text → Exec S (Unit {0})
  pub increment_job_count : ℕ → Text → Exec S (Unit {0})
  pub decrement_job_count : ℕ → Text → Exec S (Unit {0})
  pub mark_offline : ℕ → Text → Exec S (Unit {0})
  pub get_available_worker : Exec S Worker

pub record DeploymentRepository (S : Type 0) : Type 0 where
  pub start : DeploymentRecord → Program S (Unit {0})
  pub update : DeploymentRecord → Program S (Unit {0})
  pub get : Text → Exec S DeploymentRecord
  pub list : Program S (List DeploymentRecord)
  pub list_by_user_id : Text → Program S (List DeploymentRecord)
