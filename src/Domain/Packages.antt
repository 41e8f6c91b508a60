-- ===== src/Domain/Packages.antt =====
-- control-plane/internal/domain/package.go: the three package sizes.
use mesh_vpn.Base.{Bool, true, false, Option, none, some, if◌then◌else◌}
use mesh_vpn.Base.Int.{ℤ, pos}
use mesh_vpn.Text.{Text, codes, text_eq}

pub record PackageSpec : Type 0 where
  pub cpu_cores : ℤ
  pub memory_mb : ℤ
  pub max_replicas : ℤ

abbrev small_spec : PackageSpec
small_spec = record { cpu_cores = pos 500; memory_mb = pos 512; max_replicas = pos 3 }

abbrev medium_spec : PackageSpec
medium_spec = record { cpu_cores = pos 1000; memory_mb = pos 1024; max_replicas = pos 5 }

abbrev large_spec : PackageSpec
large_spec = record { cpu_cores = pos 2000; memory_mb = pos 2048; max_replicas = pos 10 }

-- A lookup in `PackageSpecs`.
unfoldable pub get_package_spec : Text → Option PackageSpec
get_package_spec pkg =
    if text_eq pkg (codes "small")
    then some small_spec
    else if text_eq pkg (codes "medium")
    then some medium_spec
    else if text_eq pkg (codes "large")
    then some large_spec
    else none

unfoldable pub is_valid_package : Text → Bool
unfolding get_package_spec
is_valid_package pkg = elim (get_package_spec pkg) [ none ↦ false | some spec ↦ true ]
