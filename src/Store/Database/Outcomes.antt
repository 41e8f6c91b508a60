-- ===== src/Store/Database/Outcomes.antt =====
-- What a statement and a transaction may come to, and what they do where no statement fails any more.
use mesh_vpn.Text.{Text}
use mesh_vpn.Store.DeploymentTable.{DeploymentTable}
use mesh_vpn.Store.Workers.{Workers}
use mesh_vpn.Store.Errors.{Exec, Result, database, err, ok}
use mesh_vpn.Store.JobTable.{JobTable}
use mesh_vpn.Store.Database.{
  Database, next_fault, on_deployments, on_jobs, on_workers, run_unless, statement, transaction,
}
use mesh_vpn.Base.{
  Bool, List, Option, [], ap, false, inl, inr, none, refl, some, subst, sym, true, ◌∙◌, ◌∷◌, ◌≡◌,
  ◌⊎◌,
}

abbrev has_none : List (Option Text) → Bool
has_none [] = true
has_none (fault ∷ faults) = false

abbrev pub is_calm : Database → Bool
is_calm db = has_none db.faults

-- A statement runs, or the driver reports a failure.
pub record Ran {A : Type 0} (m : Exec Database A) (db : Database) (r : Result A × Database)
    : Type 0 where
  pub state : Database
  pub same_jobs : state.jobs ≡ db.jobs
  pub outcome : (r ≡ m state) ⊎ ((text : Text) × (r ≡ (err (database text), state)))
  pub in_calm : is_calm db ≡ true → r ≡ m db

pub statement-Ran : {A : Type 0} (m : Exec Database A) (db : Database) → Ran m db (statement m db)
unfolding statement next_fault
statement-Ran {A = A} m db = by_faults db.faults refl
  where
    by_faults :
        (faults : List (Option Text))
        → db.faults ≡ faults
        → Ran m db (let (fault, db') = next_fault db faults in run_unless fault m db')
    by_faults [] h = record {
      state = db;
      same_jobs = refl;
      outcome = inl refl;
      in_calm = λ c. refl;
    }
    by_faults (none ∷ faults) h = record {
      state = record db { faults = faults };
      same_jobs = refl;
      outcome = inl refl;
      in_calm = λ c. let off = ap has_none h in absurd (cc);
    }
    by_faults (some text ∷ faults) h = record {
      state = record db { faults = faults };
      same_jobs = refl;
      outcome = inr (text, refl);
      in_calm = λ c. let off = ap has_none h in absurd (cc);
    }

-- The table behind a statement that is rolled back where it fails.
abbrev pub committed_table : {A : Type 0} → JobTable → Result A × JobTable → JobTable
committed_table rows (err e, rows') = rows
committed_table rows (ok a, rows') = rows'

-- A transaction commits, or the driver reports a failure and no row is changed.
abbrev pub Committed : {A : Type 0} → Exec JobTable A → Database → Result A × Database → Type 0
Committed m db r = (r.0 ≡ (m db.jobs).0) × (r.1.jobs ≡ committed_table db.jobs (m db.jobs))

abbrev RolledBack : {A : Type 0} → Database → Result A × Database → Type 0
RolledBack db r = (text : Text) × (r.0 ≡ err (database text)) × (r.1.jobs ≡ db.jobs)

module _ {A : Type 0} (m : Exec JobTable A) where
  by_faults :
      (db : Database) (faults : List (Option Text)) (out : Result A × JobTable)
      → m db.jobs ≡ out
      → let db' = record db { faults = faults } in
        let r = transaction (on_jobs m) db' in RolledBack db' r ⊎ Committed m db' r
  unfolding transaction statement next_fault
  by_faults db [] (ok a, rows) h = rw h (inr (refl, refl))
  by_faults db [] (err e, rows) h = rw h (inr (refl, refl))
  by_faults db (some text ∷ faults) out h = inl (text, refl, refl)
  by_faults db (none ∷ []) (ok a, rows) h = rw h (inr (refl, refl))
  by_faults db (none ∷ []) (err e, rows) h = rw h (inr (refl, refl))
  by_faults db (none ∷ some text ∷ faults) out h = inl (text, refl, refl)
  by_faults db (none ∷ none ∷ []) (ok a, rows) h = rw h (inr (refl, refl))
  by_faults db (none ∷ none ∷ []) (err e, rows) h = rw h (inr (refl, refl))
  by_faults db (none ∷ none ∷ some text ∷ faults) (ok a, rows) h = rw h (inl (text, refl, refl))
  by_faults db (none ∷ none ∷ some text ∷ faults) (err e, rows) h = rw h (inr (refl, refl))
  by_faults db (none ∷ none ∷ none ∷ faults) (ok a, rows) h = rw h (inr (refl, refl))
  by_faults db (none ∷ none ∷ none ∷ faults) (err e, rows) h = rw h (inr (refl, refl))

  pub transaction-cases :
      (db : Database) → let r = transaction (on_jobs m) db in RolledBack db r ⊎ Committed m db r
  transaction-cases db = by_faults db db.faults (m db.jobs) refl

  calm_run :
      (db : Database) (out : Result A × JobTable)
      → m db.jobs ≡ out
      → let db' = record db { faults = [] } in
        let r = transaction (on_jobs m) db' in Committed m db' r × (is_calm r.1 ≡ true)
  unfolding transaction statement next_fault
  calm_run db (ok a, rows) h = rw h ((refl, refl), refl)
  calm_run db (err e, rows) h = rw h ((refl, refl), refl)

  pub transaction_calm :
      (db : Database)
      → is_calm db ≡ true
      → let r = transaction (on_jobs m) db in Committed m db r × (is_calm r.1 ≡ true)
  transaction_calm db c =
      subst
        (λ faults.
          let db' = record db { faults = faults } in
          let r = transaction (on_jobs m) db' in Committed m db' r × (is_calm r.1 ≡ true))
        (sym (no_faults db.faults c)) (calm_run db (m db.jobs) refl)
    where
      no_faults : (faults : List (Option Text)) → has_none faults ≡ true → faults ≡ []
      no_faults [] h = refl
      no_faults (fault ∷ faults) h = absurd (cc)

-- A statement on a table other than the jobs'.
abbrev IsAside : {A : Type 0} → Exec Database A → Type 0
IsAside m = (s : Database) → ((m s).1.jobs ≡ s.jobs) × ((m s).1.faults ≡ s.faults)

statement-aside :
    {A : Type 0} (m : Exec Database A) (db : Database)
    → IsAside m
    → ((statement m db).1.jobs ≡ db.jobs) × (is_calm db ≡ true → is_calm (statement m db).1 ≡ true)
statement-aside m db aside =
    let ran = statement-Ran m db in
    (
      elim ran.outcome [
        | inl e ↦ ap (λ r. r.1.jobs) e ∙ (aside ran.state).0 ∙ ran.same_jobs
        | inr (text, e) ↦ ap (λ r. r.1.jobs) e ∙ ran.same_jobs
      ],
      λ c. ap (λ r. is_calm r.1) (ran.in_calm c) ∙ ap has_none (aside db).1 ∙ c,
    )

abbrev pub Aside : {A : Type 0} → Database → Result A × Database → Type 0
Aside db r = (r.1.jobs ≡ db.jobs) × (is_calm db ≡ true → is_calm r.1 ≡ true)

pub statement-workers :
    {A : Type 0} (m : Exec Workers A) (db : Database) → Aside db (statement (on_workers m) db)
statement-workers m db = statement-aside (on_workers m) db (λ s. (refl, refl))

pub statement-deployments :
    {A : Type 0} (m : List Text → Exec DeploymentTable A) (db : Database)
    → Aside db (statement (on_deployments m) db)
statement-deployments m db = statement-aside (on_deployments m) db (λ s. (refl, refl))

-- A statement on the jobs runs on them, or changes nothing.
pub statement-jobs :
    {A : Type 0} (m : Exec JobTable A) (db : Database)
    → let after = (statement (on_jobs m) db).1 in
      ((after.jobs ≡ db.jobs) ⊎ (after.jobs ≡ (m db.jobs).1))
      × (is_calm db ≡ true → (after.jobs ≡ (m db.jobs).1) × (is_calm after ≡ true))
statement-jobs m db =
    let ran = statement-Ran (on_jobs m) db in
    (
      elim ran.outcome [
        | inl e ↦ inr (ap (λ r. r.1.jobs) e ∙ ap (λ rows. (m rows).1) ran.same_jobs)
        | inr (text, e) ↦ inl (ap (λ r. r.1.jobs) e ∙ ran.same_jobs)
      ],
      λ c. (ap (λ r. r.1.jobs) (ran.in_calm c), ap (λ r. is_calm r.1) (ran.in_calm c) ∙ c),
    )
