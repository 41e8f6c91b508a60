-- ===== src/Service/Placement/Chosen.antt =====
-- Programs that keep a state, and the worker that the choice in
-- control-plane/internal/service/distributor.go returns where the listing of workers keeps it.
use mesh_vpn.Store.Errors.{◌>>=◌, Program, Result, err, no_available_workers, ok, pure}
use mesh_vpn.Domain.{DeploymentJob, Worker}
use mesh_vpn.Text.{Text, codes, is_empty, text_eq}
use mesh_vpn.Store.Repositories.{WorkerRepository}
use mesh_vpn.Base.{All, Bool-cases, List, Option, inl, inr, none, some, keep-All}
use mesh_vpn.Base.Int.{le_ℤ}
use mesh_vpn.Base.Sorting.{sort_by-All}
use mesh_vpn.Service.Placement.{
  Settings, can_take, control_plane, get_remote_worker, if_takes, is_candidate, is_preferred,
  local_first_placement, pick_remote, remote_only_placement, remote_then_local, select_worker,
  small_cores, smart_placement, worker_or, remote_or_control_plane,
}
use mesh_vpn.Service.Placement.Eligible.{OnWorker, first-OnWorker}

-- From any state that satisfies `I`, the program leaves such a state and a result that satisfies `Q`.
abbrev pub Returns : {S A : Type 0} → (S → Type 0) → (A → Type 0) → Program S A → Type 0
Returns {S} I Q m = (s : S) → I s → I (m s).1 × Q (m s).0

pub Returns-bind :
    {S A B : Type 0} (I : S → Type 0) (Q : A → Type 0) (R : B → Type 0) (m : Program S A)
    (f : A → Program S B)
    → Returns I Q m
    → ((a : A) → Q a → Returns I R (f a))
    → Returns I R (m >>= f)
Returns-bind I Q R m f h g s i = let (kept, q) = h s i in g (m s).0 q (m s).1 kept

-- What holds of the workers that a listing returns.
abbrev pub OnWorkers : (Worker → Type 0) → Result (List Worker) → Type 0
OnWorkers P (err e) = Unit
OnWorkers P (ok ws) = All P ws

abbrev OnFound : (Worker → Type 0) → Option Worker → Type 0
OnFound P none = Unit
OnFound P (some w) = P w

pick_remote-OnWorker :
    (P : Worker → Type 0) (d : Settings) (ws : List Worker)
    → All P ws
    → OnWorker P (pick_remote d ws)
unfolding pick_remote
pick_remote-OnWorker P d ws h =
    first-OnWorker P _ (sort_by-All is_preferred P _ (keep-All (is_candidate d) P ws h))

if_takes-OnFound : (P : Worker → Type 0) (r : Result Worker) → OnWorker P r → OnFound P (if_takes r)
if_takes-OnFound P (err e) h = tt
if_takes-OnFound P (ok w) h = elim (Bool-cases (can_take w)) [ inl e ↦ rw e h | inr e ↦ rw e tt ]

module _ {S : Type 0} (workers : WorkerRepository S) (d : Settings) (I : S → Type 0)
    (P : Worker → Type 0) (list_known : Returns I (OnWorkers P) workers.list)
    (get_known : (id : Text) → Returns I (OnWorker P) (workers.get id)) where
  listed-Returns :
      (r : Result (List Worker))
      → OnWorkers P r
      → Returns I (OnWorker P) (pure (elim r [ err e ↦ err e | ok ws ↦ pick_remote d ws ]))
  listed-Returns (err e) h s i = (i, tt)
  listed-Returns (ok ws) h s i = (i, pick_remote-OnWorker P d ws h)

  remote-Returns : Returns I (OnWorker P) (get_remote_worker workers d)
  unfolding get_remote_worker
  remote-Returns =
      Returns-bind I (OnWorkers P) (OnWorker P) workers.list
        (λ r. pure (elim r [ err e ↦ err e | ok ws ↦ pick_remote d ws ])) list_known listed-Returns

  control_plane-Returns : Returns I (OnFound P) (control_plane workers d)
  unfolding control_plane
  control_plane-Returns s i = elim (Bool-cases (is_empty d.control_plane_worker)) [
    | inl e ↦ rw e (i, tt)
    | inr e ↦
        let (kept, q) = get_known d.control_plane_worker s i in
        rw e (kept, if_takes-OnFound P (workers.get d.control_plane_worker s).0 q)
  ]

  worker_or-cases :
      (otherwise : Program S (Result Worker))
      → Returns I (OnWorker P) otherwise
      → (o : Option Worker) → OnFound P o
      → Returns I (OnWorker P) (worker_or otherwise o)
  worker_or-cases otherwise h none q = h
  worker_or-cases otherwise h (some w) q = λ s i. (i, q)

  worker_or-Returns :
      (otherwise : Program S (Result Worker))
      → Returns I (OnWorker P) otherwise
      → Returns I (OnWorker P) (control_plane workers d >>= worker_or otherwise)
  worker_or-Returns otherwise h =
      Returns-bind I (OnFound P) (OnWorker P) (control_plane workers d) (worker_or otherwise)
        control_plane-Returns (worker_or-cases otherwise h)

  remote_or-cases :
      (r : Result Worker)
      → OnWorker P r
      → Returns I (OnWorker P) (remote_or_control_plane workers d r)
  remote_or-cases (ok w) q = λ s i. (i, q)
  remote_or-cases (err e) q = worker_or-Returns (pure (err no_available_workers)) (λ s i. (i, tt))

  remote_then_local-Returns : Returns I (OnWorker P) (remote_then_local workers d)
  unfolding remote_then_local
  remote_then_local-Returns =
      Returns-bind I (OnWorker P) (OnWorker P) (get_remote_worker workers d)
        (remote_or_control_plane workers d) remote-Returns remote_or-cases

  smart-Returns : (job : DeploymentJob) → Returns I (OnWorker P) (smart_placement workers d job)
  unfolding smart_placement
  smart-Returns job = elim (Bool-cases (le_ℤ job.cpu_cores small_cores)) [
    | inl e ↦ rw e (worker_or-Returns (remote_then_local workers d) remote_then_local-Returns)
    | inr e ↦ rw e remote_then_local-Returns
  ]

  -- The choice keeps what the listing keeps, and returns a worker that the listing knows.
  pub select_worker-Returns :
      (job : DeploymentJob) → Returns I (OnWorker P) (select_worker workers d job)
  unfolding select_worker local_first_placement remote_only_placement
  select_worker-Returns job = elim (Bool-cases (text_eq d.placement_strategy (codes "smart"))) [
    | inl e ↦ rw e (smart-Returns job)
    | inr e ↦ rw e (elim (Bool-cases (text_eq d.placement_strategy (codes "local-first"))) [
      | inl f ↦ rw f (worker_or-Returns (get_remote_worker workers d) remote-Returns)
      | inr f ↦ rw f (elim (Bool-cases (text_eq d.placement_strategy (codes "remote-only"))) [
        | inl g ↦ rw g remote-Returns
        | inr g ↦ rw g (smart-Returns job)
      ])
    ])
  ]
