-- ===== src/Service/Autoscaling.antt =====
-- control-plane/internal/service/autoscaling_policy.go: `CPUFirstAutoscalingPolicy.Normalize`.
pub mod Bounds
pub mod Idempotence
use mesh_vpn.Text.{Text, is_empty, text_eq, to_lower, trim_space, codes}
use mesh_vpn.Base.{if◌then◌else◌, ◌&&◌, ◌||◌}
use mesh_vpn.Base.Int.{le_ℤ, lt_ℤ, pos, ℤ}
use mesh_vpn.Service.Requests.{
  Checked, DeployRequest, bad_cpu_target, invalid, invalid_scaling_mode, limit_below_request,
  max_below_min, missing_cpu_request, valid,
}

abbrev pub mode_none : Text
mode_none = codes "none"

abbrev pub mode_horizontal : Text
mode_horizontal = codes "horizontal"

abbrev pub default_min_replicas : ℤ
default_min_replicas = pos 2

abbrev pub default_max_replicas : ℤ
default_max_replicas = pos 10

abbrev pub default_cpu_target : ℤ
default_cpu_target = pos 65

-- The given mode in lower case, `none` where it is empty.
unfoldable pub scaling_mode_of : Text → Text
unfolding is_empty to_lower trim_space
scaling_mode_of given =
    let mode = to_lower (trim_space given) in if is_empty mode then mode_none else mode

-- Each of the CPU request and the number of cores is filled in from the other. In thousandths of a
-- core they are the same number.
unfoldable pub fill_cpu_request : DeployRequest → DeployRequest
fill_cpu_request req =
    if le_ℤ req.cpu_request (pos 0) && lt_ℤ (pos 0) req.cpu_cores
    then record req { cpu_request = req.cpu_cores }
    else req

unfoldable pub fill_cpu_cores : DeployRequest → DeployRequest
fill_cpu_cores req =
    if le_ℤ req.cpu_cores (pos 0) && lt_ℤ (pos 0) req.cpu_request
    then record req { cpu_cores = req.cpu_request }
    else req

-- A number that is not positive gives way to a default.
abbrev pub or_default : ℤ → ℤ → ℤ
or_default n default = if le_ℤ n (pos 0) then default else n

-- The defaults and the checks of the horizontal mode.
unfoldable pub check_cpu : DeployRequest → Checked DeployRequest
check_cpu req =
    if le_ℤ req.cpu_request (pos 0)
    then invalid missing_cpu_request
    else if lt_ℤ (pos 0) req.cpu_limit && lt_ℤ req.cpu_limit req.cpu_request
    then invalid limit_below_request
    else valid req

unfoldable pub check_cpu_target : DeployRequest → Checked DeployRequest
check_cpu_target req =
    let target = or_default req.cpu_target default_cpu_target in
    if lt_ℤ target (pos 1) || lt_ℤ (pos 100) target
    then invalid bad_cpu_target
    else check_cpu (record req { cpu_target = target })

unfoldable pub check_replicas : DeployRequest → Checked DeployRequest
check_replicas req =
    let low = or_default req.min_replicas default_min_replicas in
    let high = or_default req.max_replicas default_max_replicas in
    if lt_ℤ high low
    then invalid max_below_min
    else check_cpu_target (record req { min_replicas = low; max_replicas = high })

unfoldable pub normalize : DeployRequest → Checked DeployRequest
normalize req =
    let mode = scaling_mode_of req.scaling_mode in
    let filled = fill_cpu_cores (fill_cpu_request (record req { scaling_mode = mode })) in
    if text_eq mode mode_none
    then valid filled
    else if text_eq mode mode_horizontal
    then check_replicas filled
    else invalid (invalid_scaling_mode req.scaling_mode)
