-- ===== src/Http/Listing.antt =====
-- `ListDeployments`, `getMemoryTargetUtilization` and `buildDeploymentURL` of
-- control-plane/internal/httpapi/handlers.go.
use mesh_vpn.Store.Errors.{Program}
use mesh_vpn.Domain.{DeploymentRecord}
use mesh_vpn.Text.{Text, is_empty, trim_space}
use mesh_vpn.Store.Repositories.{DeploymentRepository}
use mesh_vpn.Base.{List, Option, if◌then◌else◌, none, some, ◌||◌}
use mesh_vpn.Base.Int.{lt_ℤ, pos, ℤ}
use mesh_vpn.Text.Numbers.{atoi}

module _ {S : Type 0} (repo : DeploymentRepository S) where
  -- The deployments of the user; without one, those of the subject of the sign-in; without a sign-in,
  -- all.
  unfoldable pub list_deployments : Option Text → Text → Program S (List DeploymentRecord)
  unfolding trim_space
  list_deployments (some user) auth_sub = repo.list_by_user_id user
  list_deployments none auth_sub =
      if is_empty (trim_space auth_sub)
      then repo.list
      else repo.list_by_user_id (trim_space auth_sub)

abbrev percent_or_default : Option ℤ → ℤ
percent_or_default none = pos 75
percent_or_default (some n) = if lt_ℤ n (pos 1) || lt_ℤ (pos 100) n then pos 75 else n

-- `raw` is the variable HPA_MEMORY_TARGET_UTILIZATION.
unfoldable pub get_memory_target_utilization : Text → ℤ
unfolding trim_space atoi
get_memory_target_utilization raw =
    if is_empty (trim_space raw) then pos 75 else percent_or_default (atoi (trim_space raw))
