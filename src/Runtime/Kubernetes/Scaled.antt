-- ===== src/Runtime/Kubernetes/Scaled.antt =====
-- What `ApplyCPUAutoscaling` of control-plane/internal/runtime/kubernetes_driver.go does on every branch.
use mesh_vpn.Agent.Host.{Attempt, Outcome, done, failed, Command}
use mesh_vpn.Text.{Text}
use mesh_vpn.Base.{All, [], arith, inl, inr, none, refl, ◌++◌, ◌∷◌, ◌≡◌, ◌≢◌, ◌⊎◌, subst, sym, ◌∙◌}
use mesh_vpn.Base.Int.{ℤ}
use mesh_vpn.Runtime.Hpa.Checked.{
  IsScalable, checked_scaling-IsScalable, checked_scaling-done, spaces_for_tabs-All,
}
use mesh_vpn.Runtime.Host.{
  Build, Environment, Host, command_for, outcome_of, ran, run_command_stream,
}
use mesh_vpn.Runtime.Hpa.{Scaling, checked_scaling, hpa_manifest, hpa_template, scaling_of}
use mesh_vpn.Runtime.Kubernetes.{KubernetesDriver, apply_args, apply_cpu_autoscaling, apply_scaling}

-- One call of kubectl, with a manifest without tabs.
pub record IsApplied (cmd : Command) (b : Build) (b' : Build) : Type 0 where
  pub outcome : Outcome
  pub ran_once : b'.history ≡ b.history ++ ran cmd outcome ∷ []
  pub untabbed : All (λ c. c ≢ b'\t') cmd.stdin

module _ (host : Host) (env : Environment) (driver : KubernetesDriver) where
  abbrev pub hpa_command : Text → Scaling → Command
  hpa_command workload scaling =
      command_for host env (hpa_manifest workload scaling) driver.kubectl
        (apply_args host env driver)

  -- Where the checks pass kubectl is called once, and otherwise nothing is done.
  abbrev pub IsGuarded : Text → ℤ → ℤ → ℤ → Build → Outcome → Build → Type 0
  IsGuarded workload min max utilization b out b' =
      (IsScalable workload min max utilization
        × IsApplied (hpa_command workload (scaling_of env min max utilization)) b b')
      ⊎ (¬ IsScalable workload min max utilization × (b' ≡ b) × (out.error ≢ none))

  apply_scaling-IsApplied :
      (workload : Text) (scaling : Scaling) (b : Build)
      → IsApplied
          (hpa_command workload scaling)
          b
          (apply_scaling host env driver workload (done scaling) b).1
  unfolding run_command_stream hpa_manifest
  apply_scaling-IsApplied workload scaling b = record {
    outcome = outcome_of host env (hpa_command workload scaling) b.history;
    ran_once = refl;
    untabbed = spaces_for_tabs-All (hpa_template workload scaling);
  }

  -- An autoscaler is applied, by one call of kubectl with a manifest that has no tab, exactly where the
  -- workload has a name, 1 <= min <= max and 1 <= utilization <= 100; whatever the environment says
  -- of the other numbers. Else nothing is run and an error is returned.
  pub apply_cpu_autoscaling-IsGuarded :
      (workload : Text) (min max utilization : ℤ) (b : Build)
      → let (out, b') = apply_cpu_autoscaling host env driver workload min max utilization b in
        IsGuarded workload min max utilization b out b'
  unfolding apply_cpu_autoscaling
  apply_cpu_autoscaling-IsGuarded workload min max utilization b =
      by_check (checked_scaling env workload min max utilization) refl
    where
      by_check :
          (r : Attempt Scaling)
          → checked_scaling env workload min max utilization ≡ r
          → let (out, b') = apply_scaling host env driver workload r b in
            IsGuarded workload min max utilization b out b'
      by_check (failed e) h = inr (
        λ checks.
            absurd
              (ground (arith, checked_scaling-IsScalable env workload min max utilization checks)),
        refl,
        λ eq. ground arith,
      )
      by_check (done scaling) h =
          let checks = checked_scaling-done env workload min max utilization scaling h in
          inl (
            checks,
            subst
                (λ r.
                  IsApplied (hpa_command workload (scaling_of env min max utilization)) b
                    (apply_scaling host env driver workload r b).1)
                (sym (checked_scaling-IsScalable env workload min max utilization checks) ∙ h)
                (apply_scaling-IsApplied workload (scaling_of env min max utilization) b),
          )
