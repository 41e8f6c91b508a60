-- ===== src/Service/Autoscaling/Bounds.antt =====
-- What the normalised request guarantees.
use mesh_vpn.Base.Int.{pos, ◌≤ℤ◌}
use mesh_vpn.Service.Requests.{DeployRequest, valid}
use mesh_vpn.Service.Autoscaling.{
  check_cpu, check_cpu_target, check_replicas, default_cpu_target, default_max_replicas,
  default_min_replicas, or_default, fill_cpu_cores, fill_cpu_request, mode_horizontal, mode_none,
  normalize, scaling_mode_of,
}
use mesh_vpn.Base.{◌≡◌, ◌⊎◌, arith, inl, inr, ◌∙◌}
use mesh_vpn.Text.Laws.{text_eq_iff}

-- The bounds that the autoscaler relies on.
pub record IsScalable (req : DeployRequest) : Type 0 where
  pub some_replicas : pos 1 ≤ℤ req.min_replicas
  pub ordered : req.min_replicas ≤ℤ req.max_replicas
  pub target_low : pos 1 ≤ℤ req.cpu_target
  pub target_high : req.cpu_target ≤ℤ pos 100
  pub requests_cpu : pos 1 ≤ℤ req.cpu_request
  pub limit_fits : (req.cpu_limit ≤ℤ pos 0) ⊎ (req.cpu_request ≤ℤ req.cpu_limit)

check_cpu-valid :
    (req req' : DeployRequest)
    → check_cpu req ≡ valid req'
    → (req' ≡ req)
      × (pos 1 ≤ℤ req.cpu_request)
      × ((req.cpu_limit ≤ℤ pos 0) ⊎ (req.cpu_request ≤ℤ req.cpu_limit))
unfolding check_cpu
check_cpu-valid req req' h = ground arith

-- The request with its target filled in.
abbrev pub with_target : DeployRequest → DeployRequest
with_target req = record req { cpu_target = or_default req.cpu_target default_cpu_target }

check_cpu_target-valid :
    (req req' : DeployRequest)
    → check_cpu_target req ≡ valid req'
    → (check_cpu (with_target req) ≡ valid req')
      × (pos 1 ≤ℤ (with_target req).cpu_target)
      × ((with_target req).cpu_target ≤ℤ pos 100)
unfolding check_cpu_target
check_cpu_target-valid req req' h = ground arith

abbrev pub with_replicas : DeployRequest → DeployRequest
with_replicas req = record req {
  min_replicas = or_default req.min_replicas default_min_replicas;
  max_replicas = or_default req.max_replicas default_max_replicas;
}

check_replicas-valid :
    (req req' : DeployRequest)
    → check_replicas req ≡ valid req'
    → (check_cpu_target (with_replicas req) ≡ valid req')
      × (pos 1 ≤ℤ (with_replicas req).min_replicas)
      × ((with_replicas req).min_replicas ≤ℤ (with_replicas req).max_replicas)
unfolding check_replicas
check_replicas-valid req req' h = ground arith

-- What the checks let through is the request with its defaults, within the bounds.
pub check_replicas-IsScalable :
    (req req' : DeployRequest)
    → check_replicas req ≡ valid req'
    → (req' ≡ with_target (with_replicas req)) × IsScalable req'
check_replicas-IsScalable req req' h =
    let r = check_replicas-valid req req' h in
    let t = check_cpu_target-valid (with_replicas req) req' r.0 in
    let c = check_cpu-valid (with_target (with_replicas req)) req' t.0 in
    (
      c.0,
      rw c.0 (record {
        some_replicas = r.1;
        ordered = r.2;
        target_low = t.1;
        target_high = t.2;
        requests_cpu = c.1;
        limit_fits = c.2;
      }),
    )

-- What `Normalize` has no say in.
pub record SameOrder (req req' : DeployRequest) : Type 0 where
  pub repo : req'.repo ≡ req.repo
  pub port : req'.port ≡ req.port
  pub subdomain : req'.subdomain ≡ req.subdomain
  pub package_name : req'.package_name ≡ req.package_name
  pub cpu_limit : req'.cpu_limit ≡ req.cpu_limit
  pub node_selector : req'.node_selector ≡ req.node_selector
  pub env : req'.env ≡ req.env
  pub build_args : req'.build_args ≡ req.build_args
  pub memory_mb : req'.memory_mb ≡ req.memory_mb
  pub requested_by : req'.requested_by ≡ req.requested_by
  pub user_id : req'.user_id ≡ req.user_id

abbrev pub filled : DeployRequest → DeployRequest
filled req =
    fill_cpu_cores
      (fill_cpu_request (record req { scaling_mode = scaling_mode_of req.scaling_mode }))

filled-SameOrder : (req : DeployRequest) → SameOrder req (filled req)
unfolding fill_cpu_cores fill_cpu_request
filled-SameOrder req = ground arith

abbrev pub scaled : DeployRequest → DeployRequest
scaled req = with_target (with_replicas (filled req))

scaled-SameOrder : (req : DeployRequest) → SameOrder req (scaled req)
scaled-SameOrder req = ground (arith, filled-SameOrder req)

pub filled-mode :
    (req : DeployRequest) → (filled req).scaling_mode ≡ scaling_mode_of req.scaling_mode
unfolding fill_cpu_cores fill_cpu_request
filled-mode req = ground arith

pub normalize-cases :
    (req req' : DeployRequest)
    → normalize req ≡ valid req'
    → ((scaling_mode_of req.scaling_mode ≡ mode_none) × (req' ≡ filled req))
      ⊎ ((scaling_mode_of req.scaling_mode ≡ mode_horizontal)
          × (check_replicas (filled req) ≡ valid req'))
unfolding normalize
normalize-cases req req' h = ground (
  arith,
  text_eq_iff (scaling_mode_of req.scaling_mode) mode_none,
  text_eq_iff (scaling_mode_of req.scaling_mode) mode_horizontal,
)

-- What an accepted request satisfies, beside the one that was made.
abbrev pub IsAccepted : DeployRequest → DeployRequest → Type 0
IsAccepted req req' =
    ((req'.scaling_mode ≡ mode_none) ⊎ ((req'.scaling_mode ≡ mode_horizontal) × IsScalable req'))
    × SameOrder req req'

-- An accepted request has the mode `none`, or the mode `horizontal` with at least one replica, no more
-- at least than at most, a CPU target of 1 to 100 per cent, a positive CPU request and a CPU limit that
-- is unset or no lower; and but for the mode, the replicas, the target and the two measures of CPU,
-- it is the request that was made.
pub normalize-IsScalable :
    (req req' : DeployRequest) → normalize req ≡ valid req' → IsAccepted req req'
normalize-IsScalable req req' h = elim (normalize-cases req req' h) [
  | inl (m, e) ↦ (inl (rw e (filled-mode req ∙ m)), rw e (filled-SameOrder req))
  | inr (m, c) ↦
      let (e, scalable) = check_replicas-IsScalable (filled req) req' c in
      (inr (rw e (filled-mode req ∙ m), scalable), rw e (scaled-SameOrder req))
]
