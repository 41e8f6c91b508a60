-- ===== src/Service/Autoscaling/Idempotence.antt =====
-- Normalising twice: control-plane/internal/service/autoscaling_policy.go.
use mesh_vpn.Text.{text_eq}
use mesh_vpn.Base.Int.{pos, ◌≤ℤ◌}
use mesh_vpn.Service.Requests.{DeployRequest, valid}
use mesh_vpn.Service.Autoscaling.{
  check_cpu, check_cpu_target, check_replicas, fill_cpu_cores, fill_cpu_request, mode_horizontal,
  mode_none, normalize, scaling_mode_of,
}
use mesh_vpn.Service.Autoscaling.Bounds.{
  IsScalable, check_replicas-IsScalable, filled, filled-mode, normalize-cases, scaled,
}
use mesh_vpn.Text.Laws.{text_eq_iff}
use mesh_vpn.Base.{ap, arith, false, inl, inr, refl, subst, sym, ◌∙◌, ◌≡◌}

mode_none_again : scaling_mode_of mode_none ≡ mode_none
unfolding scaling_mode_of
mode_none_again = refl

mode_horizontal_again : scaling_mode_of mode_horizontal ≡ mode_horizontal
unfolding scaling_mode_of
mode_horizontal_again = refl

-- Neither of the two measures of CPU is missing beside the other.
record IsFilled (req : DeployRequest) : Type 0 where
  request_known : (pos 1 ≤ℤ req.cpu_cores) → pos 1 ≤ℤ req.cpu_request
  cores_known : (pos 1 ≤ℤ req.cpu_request) → pos 1 ≤ℤ req.cpu_cores

filled-IsFilled : (req : DeployRequest) → IsFilled (filled req)
unfolding fill_cpu_cores fill_cpu_request
filled-IsFilled req = record { request_known = λ h. ground arith; cores_known = λ h. ground arith }

scaled-IsFilled : (req : DeployRequest) → IsFilled (scaled req)
scaled-IsFilled req = record {
  request_known = (filled-IsFilled req).request_known;
  cores_known = (filled-IsFilled req).cores_known;
}

filled_again :
    (req : DeployRequest)
    → scaling_mode_of req.scaling_mode ≡ req.scaling_mode
    → IsFilled req
    → filled req ≡ req
unfolding fill_cpu_cores fill_cpu_request
filled_again req m v = ground (arith, v.request_known, v.cores_known)

check_cpu_again : (req : DeployRequest) → IsScalable req → check_cpu req ≡ valid req
unfolding check_cpu
check_cpu_again req v = ground (arith, v.requests_cpu, v.limit_fits)

check_cpu_target_again :
    (req : DeployRequest) → IsScalable req → check_cpu_target req ≡ check_cpu req
unfolding check_cpu_target
check_cpu_target_again req v = ground (arith, v.target_low, v.target_high)

check_replicas_again :
    (req : DeployRequest) → IsScalable req → check_replicas req ≡ check_cpu_target req
unfolding check_replicas
check_replicas_again req v = ground (arith, v.some_replicas, v.ordered)

-- A request within the bounds passes the checks of the horizontal mode as it is.
pub check_replicas_accepts : (req : DeployRequest) → IsScalable req → check_replicas req ≡ valid req
check_replicas_accepts req v =
    check_replicas_again req v ∙ check_cpu_target_again req v ∙ check_cpu_again req v

normalize_none_again :
    (req : DeployRequest) → req.scaling_mode ≡ mode_none → IsFilled req → normalize req ≡ valid req
unfolding normalize
normalize_none_again req m v =
    let again : scaling_mode_of req.scaling_mode ≡ mode_none =
      ap scaling_mode_of m ∙ mode_none_again in
    ground (
      arith,
      again,
      filled_again req (again ∙ sym m) v,
      text_eq_iff (scaling_mode_of req.scaling_mode) mode_none,
    )

horizontal-ne-none : text_eq mode_horizontal mode_none ≡ false
unfolding text_eq
horizontal-ne-none = refl

normalize_horizontal_again :
    (req : DeployRequest)
    → req.scaling_mode ≡ mode_horizontal
    → IsFilled req
    → IsScalable req
    → normalize req ≡ valid req
unfolding normalize
normalize_horizontal_again req m v s =
    let again : scaling_mode_of req.scaling_mode ≡ mode_horizontal =
      ap scaling_mode_of m ∙ mode_horizontal_again in
    ground (
      arith,
      again,
      filled_again req (again ∙ sym m) v,
      horizontal-ne-none,
      text_eq_iff (scaling_mode_of req.scaling_mode) mode_horizontal,
      check_replicas_again req s,
      check_cpu_target_again req s,
      check_cpu_again req s,
    )

-- A request that has been normalised is accepted again, and as it is.
pub normalize_idem :
    (req req' : DeployRequest) → normalize req ≡ valid req' → normalize req' ≡ valid req'
normalize_idem req req' h = elim (normalize-cases req req' h) [
  | inl (m, e) ↦
      rw e (normalize_none_again (filled req) (filled-mode req ∙ m) (filled-IsFilled req))
  | inr (m, c) ↦
      let (e, scalable) = check_replicas-IsScalable (filled req) req' c in
      rw e (
        normalize_horizontal_again (scaled req) (filled-mode req ∙ m) (scaled-IsFilled req)
          (subst IsScalable e scalable))
]
