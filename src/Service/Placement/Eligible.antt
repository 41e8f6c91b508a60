-- ===== src/Service/Placement/Eligible.antt =====
-- Which workers the choice in control-plane/internal/service/distributor.go returns.
use mesh_vpn.Store.Errors.{◌>>=◌}
use mesh_vpn.Base.Sorting.{sort_by-All}
use mesh_vpn.Domain.{Worker, DeploymentJob}
use mesh_vpn.Text.{text_eq, is_empty, codes}
use mesh_vpn.Store.Errors.{Result, err, no_available_workers, ok, Program, pure}
use mesh_vpn.Base.{
  All, Bool-cases, List, [], arith, false, inl, inr, true, ◌∷◌, ◌≡◌, Option, none, some, All-map,
  keep_passes,
}
use mesh_vpn.Service.Placement.{
  Settings, can_take, is_candidate, is_preferred, pick_remote, control_plane, get_remote_worker,
  if_takes, local_first_placement, remote_only_placement, remote_then_local, select_worker,
  small_cores, smart_placement, remote_or_control_plane, worker_or,
}
use mesh_vpn.Store.Repositories.{WorkerRepository}
use mesh_vpn.Base.Int.{le_ℤ}

-- What a result holds of the worker that it returns, if it returns one.
abbrev pub OnWorker : (Worker → Type 0) → Result Worker → Type 0
OnWorker P (err e) = Unit
OnWorker P (ok w) = P w

abbrev pub CanTake : Worker → Type 0
CanTake w = can_take w ≡ true

abbrev pub IsCandidate : Settings → Worker → Type 0
IsCandidate d w = (text_eq w.worker_id d.control_plane_worker ≡ false) × CanTake w

is_candidate_lem : (d : Settings) (w : Worker) → is_candidate d w ≡ true → IsCandidate d w
unfolding is_candidate
is_candidate_lem d w h = ground arith

pub first-OnWorker :
    (P : Worker → Type 0) (ws : List Worker)
    → All P ws
    → OnWorker P (elim ws [ [] ↦ err no_available_workers | w ∷ others ↦ ok w ])
first-OnWorker P [] hs = tt
first-OnWorker P (w ∷ ws) hs = hs.0

pub pick_remote-IsCandidate :
    (d : Settings) (ws : List Worker) → OnWorker (IsCandidate d) (pick_remote d ws)
unfolding pick_remote
pick_remote-IsCandidate d ws = first-OnWorker (IsCandidate d) _ (
    sort_by-All is_preferred (IsCandidate d) _ (
      All-map (λ w. is_candidate d w ≡ true) (IsCandidate d) (is_candidate_lem d) _
        (keep_passes (is_candidate d) ws)))

abbrev OnOption : (Worker → Type 0) → Option Worker → Type 0
OnOption P none = Unit
OnOption P (some w) = P w

if_takes-CanTake : (r : Result Worker) → OnOption CanTake (if_takes r)
if_takes-CanTake (err e) = tt
if_takes-CanTake (ok w) = elim (Bool-cases (can_take w)) [ inl e ↦ rw e e | inr e ↦ rw e tt ]

listed-IsCandidate :
    (d : Settings) (r : Result (List Worker))
    → OnWorker (IsCandidate d) (elim r [ err e ↦ err e | ok ws ↦ pick_remote d ws ])
listed-IsCandidate d (err e) = tt
listed-IsCandidate d (ok ws) = pick_remote-IsCandidate d ws

OnWorker-CanTake :
    (d : Settings) (r : Result Worker) → OnWorker (IsCandidate d) r → OnWorker CanTake r
OnWorker-CanTake d (err e) h = tt
OnWorker-CanTake d (ok w) h = h.1

worker_or-CanTake :
    {S : Type 0} (otherwise : Program S (Result Worker)) (o : Option Worker)
    → OnOption CanTake o
    → ((s : S) → OnWorker CanTake (otherwise s).0)
    → (s : S) → OnWorker CanTake (worker_or otherwise o s).0
worker_or-CanTake otherwise none h g s = g s
worker_or-CanTake otherwise (some w) h g s = h

module _ {S : Type 0} (workers : WorkerRepository S) (d : Settings) where
  remote-IsCandidate : (s : S) → OnWorker (IsCandidate d) (get_remote_worker workers d s).0
  unfolding get_remote_worker
  remote-IsCandidate s = listed-IsCandidate d (workers.list s).0

  remote-CanTake : (s : S) → OnWorker CanTake (get_remote_worker workers d s).0
  remote-CanTake s = OnWorker-CanTake d _ (remote-IsCandidate s)

  control_plane-CanTake : (s : S) → OnOption CanTake (control_plane workers d s).0
  unfolding control_plane
  control_plane-CanTake s = elim (Bool-cases (is_empty d.control_plane_worker)) [
    | inl e ↦ rw e tt
    | inr e ↦ rw e (if_takes-CanTake (workers.get d.control_plane_worker s).0)
  ]

  remote_or_control_plane-CanTake :
      (r : Result Worker)
      → OnWorker CanTake r
      → (s : S) → OnWorker CanTake (remote_or_control_plane workers d r s).0
  remote_or_control_plane-CanTake (ok w) h s = h
  remote_or_control_plane-CanTake (err e) h s =
      worker_or-CanTake (pure (err no_available_workers)) _ (control_plane-CanTake s) (λ s. tt)
        (control_plane workers d s).1

  remote_then_local-CanTake : (s : S) → OnWorker CanTake (remote_then_local workers d s).0
  unfolding remote_then_local
  remote_then_local-CanTake s =
      remote_or_control_plane-CanTake (get_remote_worker workers d s).0 (remote-CanTake s)
        (get_remote_worker workers d s).1

  near-CanTake :
      (otherwise : Program S (Result Worker))
      → ((s : S) → OnWorker CanTake (otherwise s).0)
      → (s : S) → OnWorker CanTake ((control_plane workers d >>= worker_or otherwise) s).0
  near-CanTake otherwise g s =
      worker_or-CanTake otherwise _ (control_plane-CanTake s) g (control_plane workers d s).1

  smart-CanTake :
      (job : DeploymentJob) (s : S) → OnWorker CanTake (smart_placement workers d job s).0
  unfolding smart_placement
  smart-CanTake job s = elim (Bool-cases (le_ℤ job.cpu_cores small_cores)) [
    | inl e ↦ rw e (near-CanTake (remote_then_local workers d) remote_then_local-CanTake s)
    | inr e ↦ rw e (remote_then_local-CanTake s)
  ]

  local_first-CanTake : (s : S) → OnWorker CanTake (local_first_placement workers d s).0
  unfolding local_first_placement
  local_first-CanTake s = near-CanTake (get_remote_worker workers d) remote-CanTake s

  remote_only-CanTake : (s : S) → OnWorker CanTake (remote_only_placement workers d s).0
  unfolding remote_only_placement
  remote_only-CanTake s = remote-CanTake s

  -- Whatever the strategy and whatever the repository of workers answers, the worker that is chosen
  -- for a job, if one is, is not offline and has a free slot.
  pub select_worker-CanTake :
      (job : DeploymentJob) (s : S) → OnWorker CanTake (select_worker workers d job s).0
  unfolding select_worker
  select_worker-CanTake job s = elim (Bool-cases (text_eq d.placement_strategy (codes "smart"))) [
    | inl e ↦ rw e (smart-CanTake job s)
    | inr e ↦ rw e (elim (Bool-cases (text_eq d.placement_strategy (codes "local-first"))) [
      | inl f ↦ rw f (local_first-CanTake s)
      | inr f ↦ rw f (elim (Bool-cases (text_eq d.placement_strategy (codes "remote-only"))) [
        | inl g ↦ rw g (remote_only-CanTake s)
        | inr g ↦ rw g (smart-CanTake job s)
      ])
    ])
  ]
