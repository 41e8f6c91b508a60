-- ===== src/Runtime/Hpa.antt =====
-- `ApplyCPUAutoscaling` of control-plane/internal/runtime/kubernetes_driver.go: the autoscaler of a
-- workload.
pub mod Checked
use mesh_vpn.Agent.Host.{failed, done}
use mesh_vpn.Agent.Manifest.{line, lines}
use mesh_vpn.Text.{Text, codes, drop_prefix, is_empty, trim_space}
use mesh_vpn.Base.{Option, [], if◌then◌else◌, none, some, ◌++◌, ◌==◌, ◌||◌, ◌∷◌}
use mesh_vpn.Base.Int.{le_ℤ, lt_ℤ, pos, ℤ}
use mesh_vpn.Runtime.Host.{Environment}
use mesh_vpn.Text.Numbers.{atoi, show_ℤ}
use mesh_vpn.Agent.Host.{Attempt}

abbrev parsed_or : ℤ → Option ℤ → ℤ
parsed_or default none = default
parsed_or default (some n) = n

-- `raw` is the variable of the environment.
unfoldable pub parse_int_env : Text → ℤ → ℤ
unfolding trim_space atoi
parse_int_env raw default =
    if is_empty (trim_space raw) then default else parsed_or default (atoi (trim_space raw))

unfoldable pub parse_percent_env : Text → ℤ → ℤ
unfolding parse_int_env
parse_percent_env raw default =
    let value = parse_int_env raw default in
    if lt_ℤ value (pos 1) || lt_ℤ (pos 100) value then default else value

abbrev pub not_negative_or : ℤ → ℤ → ℤ
not_negative_or default n = if lt_ℤ n (pos 0) then default else n

-- The sizes of an autoscaler, and the windows in which it settles.
pub record Scaling : Type 0 where
  pub min_replicas : ℤ
  pub max_replicas : ℤ
  pub target_utilization : ℤ
  pub memory_target : ℤ
  pub scale_up : ℤ
  pub scale_down : ℤ

-- `strings.ReplaceAll(s, "\t", "  ")`
unfoldable pub spaces_for_tabs : Text → Text
spaces_for_tabs [] = []
spaces_for_tabs (c ∷ s) =
    let rest = spaces_for_tabs s in if c == b'\t' then b' ' ∷ b' ' ∷ rest else c ∷ rest

unfoldable pub hpa_template : Text → Scaling → Text
unfolding show_ℤ drop_prefix
hpa_template workload scaling = lines (
    codes "apiVersion: autoscaling/v2"
    ∷ codes "kind: HorizontalPodAutoscaler"
    ∷ codes "metadata:"
    ∷ line "  name: " (codes "hpa-" ++ drop_prefix (codes "app-") workload)
    ∷ codes "spec:"
    ∷ codes "  scaleTargetRef:"
    ∷ codes "    apiVersion: apps/v1"
    ∷ codes "    kind: Deployment"
    ∷ line "    name: " workload
    ∷ line "  minReplicas: " (show_ℤ scaling.min_replicas)
    ∷ line "  maxReplicas: " (show_ℤ scaling.max_replicas)
    ∷ codes "  metrics:"
    ∷ codes "  - type: Resource"
    ∷ codes "    resource:"
    ∷ codes "      name: cpu"
    ∷ codes "      target:"
    ∷ codes "        type: Utilization"
    ∷ line "        averageUtilization: " (show_ℤ scaling.target_utilization)
    ∷ codes "\t- type: Resource"
    ∷ codes "\t\tresource:"
    ∷ codes "\t\t\tname: memory"
    ∷ codes "\t\t\ttarget:"
    ∷ codes "\t\t\t\ttype: Utilization"
    ∷ line "\t\t\t\taverageUtilization: " (show_ℤ scaling.memory_target)
    ∷ codes "  behavior:"
    ∷ codes "\t\tscaleUp:"
    ∷ line "\t\t\tstabilizationWindowSeconds: " (show_ℤ scaling.scale_up)
    ∷ codes "\t\t\tselectPolicy: Max"
    ∷ codes "\t\t\tpolicies:"
    ∷ codes "\t\t\t- type: Percent"
    ∷ codes "\t\t\t\tvalue: 100"
    ∷ codes "\t\t\t\tperiodSeconds: 15"
    ∷ codes "\t\t\t- type: Pods"
    ∷ codes "\t\t\t\tvalue: 4"
    ∷ codes "\t\t\t\tperiodSeconds: 15"
    ∷ codes "    scaleDown:"
    ∷ line "\t\t\tstabilizationWindowSeconds: " (show_ℤ scaling.scale_down)
    ∷ codes "\t\t\tselectPolicy: Max"
    ∷ codes "\t\t\tpolicies:"
    ∷ codes "\t\t\t- type: Percent"
    ∷ codes "\t\t\t\tvalue: 50"
    ∷ codes "\t\t\t\tperiodSeconds: 30"
    ∷ codes "\t\t\t- type: Pods"
    ∷ codes "\t\t\t\tvalue: 2"
    ∷ codes "\t\t\t\tperiodSeconds: 30"
    ∷ [])

-- The manifest that is applied. A tab is a character that kubectl rejects as indentation.
unfoldable pub hpa_manifest : Text → Scaling → Text
unfolding hpa_template spaces_for_tabs
hpa_manifest workload scaling = spaces_for_tabs (hpa_template workload scaling)

abbrev pub scaling_of : Environment → ℤ → ℤ → ℤ → Scaling
scaling_of env min max utilization = record {
  min_replicas = min;
  max_replicas = max;
  target_utilization = utilization;
  memory_target = parse_percent_env env.hpa_memory_target_utilization (pos 75);
  scale_up = not_negative_or (pos 0) (parse_int_env env.hpa_scale_up_stabilization (pos 0));
  scale_down = not_negative_or (pos 60) (parse_int_env env.hpa_scale_down_stabilization (pos 60));
}

abbrev pub memory_checked : Scaling → Attempt Scaling
memory_checked scaling =
    if le_ℤ scaling.memory_target (pos 0) || lt_ℤ (pos 100) scaling.memory_target
    then failed (codes "invalid memory target utilization for HPA")
    else done scaling

-- The checks before kubectl is called, and the numbers of the manifest.
unfoldable pub checked_scaling : Environment → Text → ℤ → ℤ → ℤ → Attempt Scaling
unfolding trim_space parse_percent_env parse_int_env
checked_scaling env workload min max utilization =
    if is_empty (trim_space workload)
    then failed (codes "workload is required")
    else if le_ℤ min (pos 0) || le_ℤ max (pos 0) || lt_ℤ max min
    then failed (codes "invalid replica bounds for HPA")
    else if le_ℤ utilization (pos 0) || lt_ℤ (pos 100) utilization
    then failed (codes "invalid cpu target utilization for HPA")
    else memory_checked (scaling_of env min max utilization)
