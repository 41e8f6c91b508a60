-- ===== src/Http/DeployHandler/Request.antt =====
-- What the request that `Deploy` of control-plane/internal/httpapi/handlers.go makes meets in `Normalize`.
use mesh_vpn.Base.Int.{◌≤ℤ◌, *ℤ_parts, lt_ℤ, pos, ℤ}
use mesh_vpn.Text.{
  Text, is_empty, is_space, lower, text_eq, to_lower, trim_both, trim_left, trim_space,
}
use mesh_vpn.Base.{
  arith, false, if◌then◌else◌, refl, some, true, ◌≡◌, Bool-cases, inl, inr, sym, ◌∙◌, ap, subst,
}
use mesh_vpn.Service.Requests.{
  DeployRequest, invalid, max_below_min, valid, Checked, invalid_scaling_mode,
}
use mesh_vpn.Service.Autoscaling.{
  check_replicas, fill_cpu_cores, fill_cpu_request, mode_horizontal, mode_none, normalize,
  scaling_mode_of, default_max_replicas, default_min_replicas, or_default,
}
use mesh_vpn.Domain.Packages.{PackageSpec, get_package_spec}
use mesh_vpn.Http.DeployHandler.{
  Caller, DeployPayload, deploy_request, cpu_target_of, max_replicas_of, min_replicas_of,
}
use mesh_vpn.Service.Autoscaling.Idempotence.{check_replicas_accepts}
use mesh_vpn.Service.Autoscaling.Bounds.{IsScalable}

mode_horizontal_kept : scaling_mode_of mode_horizontal ≡ mode_horizontal
unfolding scaling_mode_of to_lower lower trim_space trim_both trim_left is_space is_empty
mode_horizontal_kept = refl

mode_horizontal_other : text_eq mode_horizontal mode_none ≡ false
unfolding text_eq
mode_horizontal_other = refl

mode_horizontal_same : text_eq mode_horizontal mode_horizontal ≡ true
unfolding text_eq
mode_horizontal_same = refl

-- What every package offers.
spec-bounds :
    (package_name : Text) (spec : PackageSpec)
    → get_package_spec package_name ≡ some spec
    → (pos 1 ≤ℤ spec.cpu_cores) × (pos 1 ≤ℤ spec.max_replicas)
unfolding get_package_spec
spec-bounds package_name spec h = ground arith

le_of_not_lt : (a b : ℤ) → lt_ℤ a b ≡ false → b ≤ℤ a
le_of_not_lt a b h = ground arith

or_default-positive : (n default : ℤ) → pos 1 ≤ℤ n → or_default n default ≡ n
or_default-positive n default h = ground arith

min_replicas_of-positive : (n : ℤ) → pos 1 ≤ℤ min_replicas_of n
min_replicas_of-positive n = ground arith

max_replicas_of-positive :
    (spec : PackageSpec) (n : ℤ) → pos 1 ≤ℤ spec.max_replicas → pos 1 ≤ℤ max_replicas_of spec n
max_replicas_of-positive spec n h = ground arith

cpu_target_of-bounds : (n : ℤ) → (pos 1 ≤ℤ cpu_target_of n) × (cpu_target_of n ≤ℤ pos 100)
cpu_target_of-bounds n = ground arith

module _ (payload : DeployPayload) (caller : Caller) (package_name : Text)
    (spec : PackageSpec) where
  abbrev made : DeployRequest
  made = deploy_request payload caller package_name spec

  made-filled : pos 1 ≤ℤ spec.cpu_cores → fill_cpu_cores (fill_cpu_request made) ≡ made
  unfolding fill_cpu_cores fill_cpu_request deploy_request
  made-filled h = ground arith

  made-IsScalable :
      pos 1 ≤ℤ spec.cpu_cores
      → pos 1 ≤ℤ spec.max_replicas
      → lt_ℤ made.max_replicas made.min_replicas ≡ false
      → IsScalable made
  unfolding deploy_request
  made-IsScalable h g e = record {
    some_replicas = min_replicas_of-positive payload.min_replicas;
    ordered = le_of_not_lt made.max_replicas made.min_replicas e;
    target_low = (cpu_target_of-bounds payload.cpu_target_utilization).0;
    target_high = (cpu_target_of-bounds payload.cpu_target_utilization).1;
    requests_cpu = h;
    limit_fits = inr (omega (arith, *ℤ_parts 2 spec.cpu_cores));
  }

  made-refused :
      pos 1 ≤ℤ spec.max_replicas
      → lt_ℤ made.max_replicas made.min_replicas ≡ true
      → check_replicas made ≡ invalid max_below_min
  unfolding check_replicas deploy_request
  made-refused g e =
      rw
        (
          or_default-positive _ default_min_replicas
              (min_replicas_of-positive payload.min_replicas),
          or_default-positive _ default_max_replicas
              (max_replicas_of-positive spec payload.max_replicas g),
          e,
        )
        refl

  made-checked :
      pos 1 ≤ℤ spec.cpu_cores
      → pos 1 ≤ℤ spec.max_replicas
      → check_replicas made
        ≡ (if lt_ℤ made.max_replicas made.min_replicas then invalid max_below_min else valid made)
  made-checked h g = elim (Bool-cases (lt_ℤ made.max_replicas made.min_replicas)) [
    | inl e ↦ made-refused g e ∙ sym (rw e refl)
    | inr e ↦ check_replicas_accepts made (made-IsScalable h g e) ∙ sym (rw e refl)
  ]

  -- `Normalize` accepts the request that the handler makes for a package as it is, unless the caller
  -- asked for more replicas at least than the most that the request allows; it has no other error.
  pub deploy_request-normalize :
      get_package_spec package_name ≡ some spec
      → normalize made
        ≡ (if lt_ℤ made.max_replicas made.min_replicas then invalid max_below_min else valid made)
  unfolding normalize deploy_request
  deploy_request-normalize h =
      let (cores, replicas) = spec-bounds package_name spec h in
      subst (λ mode. by_mode mode ≡ answer) (sym mode_horizontal_kept)
        (rw (mode_horizontal_other, mode_horizontal_same)
          (ap check_replicas (made-filled cores) ∙ made-checked cores replicas))
    where
      answer : Checked DeployRequest
      answer =
          if lt_ℤ made.max_replicas made.min_replicas then invalid max_below_min else valid made

      by_mode : Text → Checked DeployRequest
      by_mode mode =
          if text_eq mode mode_none
          then valid (fill_cpu_cores (fill_cpu_request (record made { scaling_mode = mode })))
          else if text_eq mode mode_horizontal
          then check_replicas
              (fill_cpu_cores (fill_cpu_request (record made { scaling_mode = mode })))
          else invalid (invalid_scaling_mode mode_horizontal)
