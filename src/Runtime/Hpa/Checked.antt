-- ===== src/Runtime/Hpa/Checked.antt =====
-- Which autoscalers pass the checks, and what is in their manifests.
use mesh_vpn.Agent.Host.{done}
use mesh_vpn.Text.{Text, is_empty, trim_space}
use mesh_vpn.Base.{All, Bool-cases, [], arith, false, inl, inr, ◌==◌, ◌∷◌, ◌≡◌, ◌≢◌}
use mesh_vpn.Base.Int.{pos, ℤ, ◌≤ℤ◌}
use mesh_vpn.Runtime.Host.{Environment}
use mesh_vpn.Runtime.Hpa.{
  Scaling, checked_scaling, memory_checked, parse_percent_env, scaling_of, spaces_for_tabs,
}

-- A workload with a name, bounds in order from one, and a target that is a percentage.
pub record IsScalable (workload : Text) (min max utilization : ℤ) : Type 0 where
  pub named : is_empty (trim_space workload) ≡ false
  pub some_replicas : pos 1 ≤ℤ min
  pub in_order : min ≤ℤ max
  pub above_zero : pos 1 ≤ℤ utilization
  pub at_most_all : utilization ≤ℤ pos 100

parse_percent_env-InRange :
    (raw : Text)
    → (pos 1 ≤ℤ parse_percent_env raw (pos 75)) × (parse_percent_env raw (pos 75) ≤ℤ pos 100)
unfolding parse_percent_env
parse_percent_env-InRange raw = ground arith

pub spaces_for_tabs-All : (s : Text) → All (λ c. c ≢ b'\t') (spaces_for_tabs s)
unfolding spaces_for_tabs
spaces_for_tabs-All [] = tt
spaces_for_tabs-All (c ∷ s) = elim (Bool-cases (c == b'\t')) [
  | inl e ↦ rw e ((λ h. omega arith), ((λ h. omega arith), spaces_for_tabs-All s))
  | inr e ↦ rw e ((λ h. ground arith), spaces_for_tabs-All s)
]

module _ (env : Environment) (workload : Text) (min max utilization : ℤ) where
  -- The check of the memory target never fails.
  memory_checked_lem :
      memory_checked (scaling_of env min max utilization)
      ≡ done (scaling_of env min max utilization)
  memory_checked_lem =
      let (low, high) = parse_percent_env-InRange env.hpa_memory_target_utilization in ground arith

  pub checked_scaling-IsScalable :
      IsScalable workload min max utilization
      → checked_scaling env workload min max utilization ≡ done (scaling_of env min max utilization)
  unfolding checked_scaling
  checked_scaling-IsScalable checks = ground (
    arith, checks.named, checks.some_replicas, checks.in_order, checks.above_zero,
    checks.at_most_all, memory_checked_lem,
  )

  pub checked_scaling-done :
      (scaling : Scaling)
      → checked_scaling env workload min max utilization ≡ done scaling
      → IsScalable workload min max utilization
  unfolding checked_scaling
  checked_scaling-done scaling h = record {
    named = ground arith;
    some_replicas = ground arith;
    in_order = ground arith;
    above_zero = ground arith;
    at_most_all = ground arith;
  }
