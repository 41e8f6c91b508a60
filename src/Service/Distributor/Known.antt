-- ===== src/Service/Distributor/Known.antt =====
-- The workers that the table of a database which does not fail lists and returns.
use mesh_vpn.Store.Workers
use mesh_vpn.Domain.{Worker}
use mesh_vpn.Text.{Text}
use mesh_vpn.Store.Errors.{Result}
use mesh_vpn.Store.Database.{Database, worker_repository}
use mesh_vpn.Store.Workers.{Workers, newer}
use mesh_vpn.Store.Database.Calm.{statement_calm}
use mesh_vpn.Store.Workers.Lookup.{All-IsKnown, IsKnown, find, find-worker_id}
use mesh_vpn.Base.{Option-cases, [], ap, arith, inl, inr, none, refl, subst, sym, ◌∙◌, ◌≡◌}
use mesh_vpn.Base.Sorting.{sort_by-All}
use mesh_vpn.Service.Placement.Eligible.{OnWorker}
use mesh_vpn.Service.Placement.Chosen.{OnWorkers, Returns}

-- What is returned of the workers has its row in the table.
abbrev pub OnAssignable : Database → Result Worker → Type 0
OnAssignable db = OnWorker (λ w. IsKnown db.workers w)

module _ (db : Database) (calm : db.faults ≡ []) where
  pub list-IsKnown : Returns (λ s. s ≡ db) (OnWorkers (IsKnown db.workers)) worker_repository.list
  unfolding Workers.list
  list-IsKnown s i =
      subst
        (λ t.
          ((worker_repository.list t).1 ≡ db)
          × OnWorkers (IsKnown db.workers) (worker_repository.list t).0)
        (sym i)
        (subst (λ r. (r.1 ≡ db) × OnWorkers (IsKnown db.workers) r.0)
          (sym (statement_calm _ db calm))
          (refl, sort_by-All newer (IsKnown db.workers) db.workers (All-IsKnown db.workers)))

  found-IsKnown :
      (id : Text)
      → ((Workers.get id db.workers).1 ≡ db.workers) × OnAssignable db (Workers.get id db.workers).0
  unfolding Workers.get
  found-IsKnown id = elim (Option-cases (find id db.workers)) [
    | inl e ↦ rw (e, Workers.get) (refl, tt)
    | inr (w, e) ↦
        rw (e, Workers.get)
          (
            refl,
            λ absent.
                let same =
                  subst (λ k. find k db.workers ≡ none) (find-worker_id id w db.workers e) absent in
                ground (arith, sym e ∙ same),
          )
  ]

  pub get-IsKnown : (id : Text) → Returns (λ s. s ≡ db) (OnAssignable db) (worker_repository.get id)
  get-IsKnown id s i =
      subst
        (λ t.
          ((worker_repository.get id t).1 ≡ db) × OnAssignable db (worker_repository.get id t).0)
        (sym i)
        (subst (λ r. (r.1 ≡ db) × OnAssignable db r.0) (sym (statement_calm _ db calm))
          (ap (λ ws. record db { workers = ws }) (found-IsKnown id).0, (found-IsKnown id).1))
