-- ===== src/Store/Database/Calm.antt =====
-- A database whose driver reports no more failures.
use mesh_vpn.Store.Errors.{Exec}
use mesh_vpn.Store.Database.{Database, next_fault, statement, run_unless, on_deployments}
use mesh_vpn.Base.{[], ◌≡◌, ap, List, Option, none, refl, some, ◌∷◌}
use mesh_vpn.Text.{Text}
use mesh_vpn.Store.DeploymentTable.{DeploymentTable}

pub statement_calm :
    {A : Type 0} (m : Exec Database A) (db : Database) → db.faults ≡ [] → statement m db ≡ m db
unfolding statement next_fault
statement_calm m db h = ap (λ f. let (fault, db') = next_fault db f in run_unless fault m db') h

-- A statement on the deployments leaves the other tables alone, whether it fails or not.
pub statement-deployments_aside :
    {A : Type 0} (m : List Text → Exec DeploymentTable A) (db : Database)
    → let after = (statement (on_deployments m) db).1 in
      (after.jobs ≡ db.jobs) × (after.workers ≡ db.workers)
unfolding statement next_fault
statement-deployments_aside m db = by_faults db.faults
  where
    by_faults :
        (faults : List (Option Text))
        → let (fault, db') = next_fault db faults in
          let after = (run_unless fault (on_deployments m) db').1 in
          (after.jobs ≡ db.jobs) × (after.workers ≡ db.workers)
    by_faults [] = (refl, refl)
    by_faults (none ∷ faults) = (refl, refl)
    by_faults (some text ∷ faults) = (refl, refl)
