-- ===== src/Service/Placement.antt =====
-- The choice of a worker for a job in control-plane/internal/service/distributor.go.
pub mod Eligible
pub mod Best
pub mod Chosen
use mesh_vpn.Store.Errors.{◌>>=◌, Program, Result, err, no_available_workers, ok, pure}
use mesh_vpn.Domain.{DeploymentJob, Worker, offline}
use mesh_vpn.Text.{Text, codes, is_empty, text_eq, text_lt}
use mesh_vpn.Store.Repositories.{WorkerRepository}
use mesh_vpn.Base.{
  Bool, List, Option, [], false, if◌then◌else◌, keep, none, not, some, true, ℕ, ◌&&◌, ◌∷◌,
}
use mesh_vpn.Base.Int.{eq_ℤ, le_ℤ, lt_ℤ, negsuc, pos, ℤ, ◌*ℤ◌, ◌+ℤ◌, ◌-ℤ◌}
use mesh_vpn.Base.Sorting.{sort_by}

-- The settings of a `JobDistributor`.
pub record Settings : Type 0 where
  pub enabled : Bool
  pub control_plane_worker : Text
  pub placement_strategy : Text
  pub max_jobs_control_plane : ℤ
  pub heartbeat_timeout : ℕ
  pub rebalance_cooldown : ℕ
  pub rebalance_min_delta : ℤ

-- `worker.Status != offline && worker.CurrentJobs < worker.MaxConcurrentJobs`
abbrev pub can_take : Worker → Bool
can_take w = not (text_eq w.status offline) && lt_ℤ w.current_jobs w.max_concurrent_jobs

-- The tests of the loop in `getRemoteWorker`.
unfoldable pub is_candidate : Settings → Worker → Bool
is_candidate d w =
    if text_eq w.worker_id d.control_plane_worker
    then false
    else if text_eq w.status offline
    then false
    else if le_ℤ w.max_concurrent_jobs w.current_jobs
    then false
    else true

abbrev pub free_slots : Worker → ℤ
free_slots w = w.max_concurrent_jobs -ℤ w.current_jobs

-- The order of `sort.SliceStable`.
unfoldable pub is_preferred : Worker → Worker → Bool
is_preferred v w =
    if not (eq_ℤ (free_slots v) (free_slots w))
    then lt_ℤ (free_slots w) (free_slots v)
    else if not (eq_ℤ v.capabilities.cpu_cores w.capabilities.cpu_cores)
    then lt_ℤ w.capabilities.cpu_cores v.capabilities.cpu_cores
    else if not (eq_ℤ v.capabilities.memory_gb w.capabilities.memory_gb)
    then lt_ℤ w.capabilities.memory_gb v.capabilities.memory_gb
    else text_lt v.worker_id w.worker_id

-- The best candidate of a list of workers.
unfoldable pub pick_remote : Settings → List Worker → Result Worker
unfolding keep sort_by
pick_remote d workers = elim (sort_by is_preferred (keep (is_candidate d) workers)) [
  | [] ↦ err no_available_workers
  | w ∷ others ↦ ok w
]

abbrev pub small_cores : ℤ
small_cores = pos 500

abbrev pub if_takes : Result Worker → Option Worker
if_takes (err e) = none
if_takes (ok w) = if can_take w then some w else none

-- The worker that was found, or what another program finds.
abbrev pub worker_or :
    {S : Type 0} → Program S (Result Worker) → Option Worker → Program S (Result Worker)
worker_or otherwise (some w) = pure (ok w)
worker_or otherwise none = otherwise

module _ {S : Type 0} (workers : WorkerRepository S) (d : Settings) where
  unfoldable pub get_remote_worker : Program S (Result Worker)
  get_remote_worker = do
    listed ← workers.list
    pure (elim listed [ err e ↦ err e | ok ws ↦ pick_remote d ws ])

  -- The control plane's own worker, if there is one and it can take a job.
  unfoldable pub control_plane : Program S (Option Worker)
  control_plane s =
      if is_empty d.control_plane_worker
      then (none, s)
      else (let (found, s') = workers.get d.control_plane_worker s in (if_takes found, s'))

  abbrev pub remote_or_control_plane : Result Worker → Program S (Result Worker)
  remote_or_control_plane (ok w) = pure (ok w)
  remote_or_control_plane (err e) = control_plane >>= worker_or (pure (err no_available_workers))

  -- Remote workers first, then the control plane.
  unfoldable pub remote_then_local : Program S (Result Worker)
  unfolding get_remote_worker control_plane
  remote_then_local = get_remote_worker >>= remote_or_control_plane

  unfoldable pub smart_placement : DeploymentJob → Program S (Result Worker)
  unfolding remote_then_local control_plane
  smart_placement job =
      if le_ℤ job.cpu_cores small_cores
      then control_plane >>= worker_or remote_then_local
      else remote_then_local

  unfoldable pub local_first_placement : Program S (Result Worker)
  unfolding get_remote_worker control_plane
  local_first_placement = control_plane >>= worker_or get_remote_worker

  unfoldable pub remote_only_placement : Program S (Result Worker)
  unfolding get_remote_worker
  remote_only_placement = get_remote_worker

  unfoldable pub select_worker : DeploymentJob → Program S (Result Worker)
  unfolding smart_placement local_first_placement remote_only_placement
  select_worker job =
      if text_eq d.placement_strategy (codes "smart")
      then smart_placement job
      else if text_eq d.placement_strategy (codes "local-first")
      then local_first_placement
      else if text_eq d.placement_strategy (codes "remote-only")
      then remote_only_placement
      else smart_placement job

-- `workerPlacementScore`
unfoldable pub placement_score : Worker → Option ℤ
placement_score w =
    if text_eq w.status offline
    then none
    else if le_ℤ w.max_concurrent_jobs (pos 0)
    then none
    else if le_ℤ (free_slots w) (pos 0)
    then none
    else some
        (1000 *ℤ free_slots w +ℤ 100 *ℤ w.capabilities.cpu_cores +ℤ 10 *ℤ w.capabilities.memory_gb)

abbrev better : ℤ × Option Worker → Worker → Option ℤ → ℤ × Option Worker
better best w none = best
better (score, best) w (some new) = if lt_ℤ score new then (new, some w) else (score, best)

-- The loop of `bestAvailableWorker` over the best score and the best worker so far.
unfoldable pub best_from : ℤ × Option Worker → List Worker → ℤ × Option Worker
unfolding placement_score
best_from best [] = best
best_from best (w ∷ ws) = best_from (better best w (placement_score w)) ws

-- `bestScore := -1`, and `if bestScore < 0` behind the loop
unfoldable pub best_available_worker : List Worker → Option (Worker × ℤ)
unfolding best_from
best_available_worker ws =
    let (score, best) = best_from (negsuc 0, none) ws in
    if lt_ℤ score (pos 0) then none else elim best [ none ↦ none | some w ↦ some (w, score) ]
