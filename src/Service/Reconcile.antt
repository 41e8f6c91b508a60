-- ===== src/Service/Reconcile.antt =====
-- The three reconciliations of control-plane/internal/service/distributor.go.
pub mod Failover
pub mod FailedOver
pub mod Health
pub mod Silent
pub mod Cooldown
use mesh_vpn.Store.Errors.{◌>>=◌, ◌>>◌, Program, err, ok, pure, Result}
use mesh_vpn.Domain.{DeploymentRecord, Worker, offline}
use mesh_vpn.Text.{Text, codes, is_empty, text_eq, trim_space}
use mesh_vpn.Store.Repositories.{DeploymentRepository, JobRepository, WorkerRepository}
use mesh_vpn.Base.{
  Bool, List, Option, [], false, if◌then◌else◌, leb, ltb, none, not, some, true, ℕ, ◌&&◌, ◌+◌, ◌||◌,
  ◌∷◌,
}
use mesh_vpn.Base.Int.{lt_ℤ, ℤ, ◌-ℤ◌}
use mesh_vpn.Service.Requeue.{Distribution, last_shift_of, on_repositories, requeue_deployment}
use mesh_vpn.Service.Placement.{Settings, best_available_worker, placement_score}

abbrev pub running_status : Text
running_status = codes "running"

-- A `for` loop whose body drops its errors.
unfoldable pub for_each :
    {S A : Type 0} → (A → Program S (Unit {0})) → List A → Program S (Unit {0})
for_each body [] = pure tt
for_each body (x ∷ xs) = body x >> for_each body xs

abbrev pub ignored : {S A : Type 0} → Program S A → Program S (Unit {0})
ignored m = m >> pure tt

-- The tests of the loop of `reconcileWorkerHealth`.
unfoldable pub is_stale : Settings → ℕ → Worker → Bool
is_stale d now w =
    if text_eq w.worker_id d.control_plane_worker
    then false
    else if text_eq w.status offline
    then false
    else elim w.last_heartbeat [ none ↦ false | some at ↦ not (leb now (at + d.heartbeat_timeout)) ]

-- The set of offline workers holds an id.
unfoldable pub is_offline_in : List Worker → Text → Bool
is_offline_in [] id = false
is_offline_in (w ∷ ws) id =
    text_eq w.status offline && text_eq w.worker_id id || is_offline_in ws id

-- `len(offline) != 0`
unfoldable pub any_offline : List Worker → Bool
any_offline [] = false
any_offline (w ∷ ws) = text_eq w.status offline || any_offline ws

-- `workerByID[id]`: the last worker of that id was written last.
unfoldable pub worker_of : Text → List Worker → Option Worker
worker_of id [] = none
worker_of id (w ∷ ws) = elim (worker_of id ws) [
  | some v ↦ some v
  | none ↦ if text_eq w.worker_id id then some w else none
]

abbrev pub is_running : DeploymentRecord → Bool
is_running dep = text_eq dep.status running_status

-- The tests of the loop of `reconcileOfflineDeployments`.
unfoldable pub is_stranded : List Worker → DeploymentRecord → Bool
unfolding is_offline_in trim_space
is_stranded workers dep =
    if not (is_running dep)
    then false
    else if is_empty (trim_space dep.owner_worker_id)
    then false
    else is_offline_in workers (trim_space dep.owner_worker_id)

-- `now.Sub(last) < d.rebalanceCooldown`, where the last shift is known.
abbrev cools_down : Settings → ℕ → Option ℕ → Bool
cools_down d now none = false
cools_down d now (some last) = ltb now (last + d.rebalance_cooldown)

-- The tests on the scores: the best worker is another one and better by enough.
abbrev outdoes : Settings → Text → Option ℤ → Option (Worker × ℤ) → Bool
outdoes d owner none best = false
outdoes d owner (some score) none = false
outdoes d owner (some score) (some (w, best)) =
    if text_eq w.worker_id owner
    then false
    else if lt_ℤ (best -ℤ score) d.rebalance_min_delta
    then false
    else true

abbrev is_outdone : Settings → List Worker → Text → Option Worker → Bool
is_outdone d workers id none = false
is_outdone d workers id (some owner) =
    outdoes d id (placement_score owner) (best_available_worker workers)

-- The tests of the loop of `reconcileRebalance`.
unfoldable pub is_misplaced : Settings → ℕ → List Worker → List (Text × ℕ) → DeploymentRecord → Bool
unfolding worker_of last_shift_of placement_score best_available_worker
is_misplaced d now workers shifts dep =
    let owner = trim_space dep.owner_worker_id in
    if not (is_running dep)
    then false
    else if is_empty owner
    then false
    else if cools_down d now (last_shift_of dep.deployment_id shifts)
    then false
    else is_outdone d workers owner (worker_of owner workers)

abbrev pub failover_reason : Text
failover_reason = codes "owner worker went offline, deployment re-queued for failover"

abbrev pub rebalance_reason : Text
rebalance_reason = codes "better worker available online, deployment re-queued for rebalance"

module _ {S : Type 0} (workers : WorkerRepository S) (d : Settings) where
  unfoldable pub mark_if_stale : ℕ → Worker → Program S (Unit {0})
  unfolding is_stale
  mark_if_stale now w =
      if is_stale d now w then ignored (workers.mark_offline now w.worker_id) else pure tt

  -- What follows the listing of the workers, where that succeeds.
  abbrev pub mark_stale : ℕ → Result (List Worker) → Program S (Unit {0})
  mark_stale now (err e) = pure tt
  mark_stale now (ok ws) = for_each (mark_if_stale now) ws

  unfoldable pub reconcile_worker_health : ℕ → Program S (Unit {0})
  unfolding mark_if_stale for_each
  reconcile_worker_health now = workers.list >>= mark_stale now

module _ {S : Type 0} (uuid : ℕ → Text) (jobs : JobRepository S)
    (deployments : DeploymentRepository S) where
  -- One turn of a loop over the deployments.
  unfoldable pub requeue_if :
      (List (Text × ℕ) → DeploymentRecord → Bool)
      → Text
      → ℕ
      → DeploymentRecord
      → Program (Distribution S) (Unit {0})
  unfolding requeue_deployment
  requeue_if test reason now dep s =
      if test s.last_shift dep
      then ignored (requeue_deployment uuid jobs deployments now dep reason) s
      else (tt, s)

  unfoldable pub requeue_all :
      (List (Text × ℕ) → DeploymentRecord → Bool) → Text → ℕ → Program (Distribution S) (Unit {0})
  unfolding requeue_if for_each
  requeue_all test reason now = do
    deps ← on_repositories deployments.list
    for_each (requeue_if test reason now) deps

  -- What follows the listing of the workers, where that succeeds.
  abbrev pub requeue_stranded : ℕ → Result (List Worker) → Program (Distribution S) (Unit {0})
  requeue_stranded now (err e) = pure tt
  requeue_stranded now (ok ws) =
      if any_offline ws then requeue_all (λ shifts. is_stranded ws) failover_reason now else pure tt

  unfoldable pub reconcile_offline_deployments :
      WorkerRepository S → ℕ → Program (Distribution S) (Unit {0})
  unfolding requeue_all is_stranded any_offline
  reconcile_offline_deployments workers now = on_repositories workers.list >>= requeue_stranded now

  abbrev pub requeue_misplaced :
      Settings → ℕ → Result (List Worker) → Program (Distribution S) (Unit {0})
  requeue_misplaced d now (err e) = pure tt
  requeue_misplaced d now (ok ws) = requeue_all (is_misplaced d now ws) rebalance_reason now

  unfoldable pub reconcile_rebalance :
      WorkerRepository S → Settings → ℕ → Program (Distribution S) (Unit {0})
  unfolding requeue_all is_misplaced
  reconcile_rebalance workers d now = on_repositories workers.list >>= requeue_misplaced d now
