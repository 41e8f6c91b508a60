-- ===== src/Store/Repositories/Laws.antt =====
-- What the services of control-plane/internal/service rely on of a repository of deployments, and of
-- the queue of jobs that stands beside it.
use mesh_vpn.Domain.{DeploymentJob, DeploymentRecord}
use mesh_vpn.Text.{Text, text_eq}
use mesh_vpn.Store.Repositories.{DeploymentRepository, JobRepository}
use mesh_vpn.Base.{List, Option, [], if◌then◌else◌, none, some, ◌∷◌, ◌≡◌, ℕ}
use mesh_vpn.Store.Errors.{Result, deployment_not_found, err, ok}

-- The first record of an id.
unfoldable pub find_record : Text → List DeploymentRecord → Option DeploymentRecord
find_record id [] = none
find_record id (rec ∷ recs) =
    let rest = find_record id recs in if text_eq rec.deployment_id id then some rec else rest

-- No id has two records.
abbrev pub HasDistinctIds : List DeploymentRecord → Type 0
HasDistinctIds [] = Unit
HasDistinctIds (rec ∷ recs) = (find_record rec.deployment_id recs ≡ none) × HasDistinctIds recs

abbrev pub map_record :
    (DeploymentRecord → DeploymentRecord) → Option DeploymentRecord → Option DeploymentRecord
map_record f none = none
map_record f (some rec) = some (f rec)

-- What `Get` answers for the record of an id, if there is one.
abbrev pub found_or_not : Option DeploymentRecord → Result DeploymentRecord
found_or_not none = err deployment_not_found
found_or_not (some rec) = ok rec

-- `view id s` is the record that a state holds for an id: `Update` writes there, `Get` reads
-- it, `List` returns what
-- a valid state holds, and the queue leaves it as it is.
pub record DeploymentLaws {S : Type 0} (repo : DeploymentRepository S) (jobs : JobRepository S)
    : Type 1 where
  pub IsValid : S → Type 0
  pub view : Text → S → Option DeploymentRecord
  pub view_update :
      (id : Text) (rec : DeploymentRecord) (s : S)
      → view id (repo.update rec s).1
        ≡ (if text_eq rec.deployment_id id then some rec else view id s)
  pub view_keyed :
      (id : Text) (rec : DeploymentRecord) (s : S)
      → IsValid s
      → view id s ≡ some rec
      → rec.deployment_id ≡ id
  pub get_view : (id : Text) (s : S) → repo.get id s ≡ (found_or_not (view id s), s)
  pub view_enqueue :
      (id : Text) (job : DeploymentJob) (s : S) → view id (jobs.enqueue job s).1 ≡ view id s
  pub view_mark_done :
      (id : Text) (now : ℕ) (job_id : Text) (s : S)
      → view id (jobs.mark_done now job_id s).1 ≡ view id s
  pub view_mark_failed :
      (id : Text) (now : ℕ) (job_id text : Text) (s : S)
      → view id (jobs.mark_failed now job_id text s).1 ≡ view id s
  pub list_state : (s : S) → (repo.list s).1 ≡ s
  pub list_view : (id : Text) (s : S) → IsValid s → find_record id (repo.list s).0 ≡ view id s
  pub list_distinct : (s : S) → IsValid s → HasDistinctIds (repo.list s).0
