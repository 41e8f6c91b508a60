-- ===== src/Service/Reconcile/Health.antt =====
-- Which workers `reconcileWorkerHealth` of control-plane/internal/service/distributor.go marks offline.
use mesh_vpn.Store.Workers
use mesh_vpn.Domain.{Worker}
use mesh_vpn.Text.{Text, text_eq}
use mesh_vpn.Store.Workers.{newer, Workers, set_offline}
use mesh_vpn.Base.Sorting.{insert_sorted, sort_by}
use mesh_vpn.Service.Reconcile.{
  is_stale, for_each, mark_if_stale, reconcile_worker_health, mark_stale,
}
use mesh_vpn.Service.Placement.{Settings}
use mesh_vpn.Base.{
  Bool, List, [], arith, false, refl, ℕ, ◌&&◌, ◌||◌, ◌∙◌, ◌∷◌, ◌≡◌, Bool-cases, Option, ap,
  if◌then◌else◌, inl, inr,
}
use mesh_vpn.Store.Database.{Database, worker_repository}
use mesh_vpn.Store.Database.Calm.{statement_calm}
use mesh_vpn.Store.Workers.Lookup.{find, find-update_worker, map_some}

-- One of the workers has the id and is stale.
unfoldable pub is_marked : Settings → ℕ → List Worker → Text → Bool
unfolding is_stale
is_marked d now [] id = false
is_marked d now (w ∷ ws) id = is_stale d now w && text_eq w.worker_id id || is_marked d now ws id

-- The order of the workers does not matter.
is_marked-insert_sorted :
    (d : Settings) (now : ℕ) (w : Worker) (ws : List Worker) (id : Text)
    → is_marked d now (insert_sorted newer w ws) id ≡ is_marked d now (w ∷ ws) id
unfolding is_marked insert_sorted
is_marked-insert_sorted d now w [] id = refl
is_marked-insert_sorted d now w (v ∷ ws) id = ground (arith, is_marked-insert_sorted d now w ws id)

is_marked-sort_by :
    (d : Settings) (now : ℕ) (ws : List Worker) (id : Text)
    → is_marked d now (sort_by newer ws) id ≡ is_marked d now ws id
unfolding is_marked sort_by
is_marked-sort_by d now [] id = refl
is_marked-sort_by d now (w ∷ ws) id =
    is_marked-insert_sorted d now w (sort_by newer ws) id
    ∙ ground (arith, is_marked-sort_by d now ws id)

abbrev workers_after : Settings → ℕ → Worker → Workers.Workers → Workers.Workers
workers_after d now w ws =
    if is_stale d now w then (Workers.mark_offline now w.worker_id ws).1 else ws

-- One turn of the loop, and the loop, on a database that does not fail.
turn-workers :
    (d : Settings) (now : ℕ) (w : Worker) (db : Database)
    → db.faults ≡ []
    → (mark_if_stale worker_repository d now w db).1
      ≡ record db { workers = workers_after d now w db.workers }
unfolding mark_if_stale
turn-workers d now w db h = elim (Bool-cases (is_stale d now w)) [
  | inl e ↦ rw e (ap (λ r. r.1) (statement_calm _ db h))
  | inr e ↦ rw e refl
]

abbrev marked : Settings → ℕ → List Worker → Text → Option Worker → Option Worker
marked d now ws id found = if is_marked d now ws id then map_some (set_offline now) found else found

find-workers_after :
    (d : Settings) (now : ℕ) (id : Text) (w : Worker) (ws : Workers.Workers)
    → find id (workers_after d now w ws) ≡ marked d now (w ∷ []) id (find id ws)
unfolding is_marked Workers.mark_offline
find-workers_after d now id w ws = elim (Bool-cases (is_stale d now w)) [
  | inl e ↦ rw e (find-update_worker id w.worker_id (set_offline now) ws (λ v. refl) ∙ ground arith)
  | inr e ↦ rw e refl
]

loop-workers :
    (d : Settings) (now : ℕ) (id : Text) (ws : List Worker) (db : Database)
    → db.faults ≡ []
    → find id (for_each (mark_if_stale worker_repository d now) ws db).1.workers
      ≡ marked d now ws id (find id db.workers)
unfolding for_each is_marked
loop-workers d now id [] db h = refl
loop-workers d now id (w ∷ ws) db h =
    ap (λ s. find id (for_each (mark_if_stale worker_repository d now) ws s).1.workers)
      (turn-workers d now w db h)
    ∙ loop-workers d now id ws (record db { workers = workers_after d now w db.workers }) h
    ∙ ground (arith, find-workers_after d now id w db.workers)

pub reconcile_worker_health-workers :
    (d : Settings) (now : ℕ) (id : Text) (db : Database)
    → db.faults ≡ []
    → find id (reconcile_worker_health worker_repository d now db).1.workers ≡ (
        if is_marked d now db.workers id
        then map_some (set_offline now) (find id db.workers)
        else find id db.workers)
unfolding reconcile_worker_health Workers.list
reconcile_worker_health-workers d now id db h =
    ap (λ r. find id (mark_stale worker_repository d now r.0 r.1).1.workers) (statement_calm _ db h)
    ∙ loop-workers d now id (sort_by newer db.workers) db h
    ∙ ground (arith, is_marked-sort_by d now db.workers id)
