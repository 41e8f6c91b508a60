-- ===== src/Service/Deployments/Reads.antt =====
-- The reads of control-plane/internal/service/deployments.go leave the state as it is.
use mesh_vpn.Domain.{DeploymentRecord}
use mesh_vpn.Text.{Text, is_empty, trim_space}
use mesh_vpn.Store.Repositories.{DeploymentRepository, JobRepository}
use mesh_vpn.Store.Errors.{Result, err, ok}
use mesh_vpn.Store.Repositories.Laws.{DeploymentLaws}
use mesh_vpn.Base.{Bool-cases, ap, inl, inr, refl, ◌∙◌, ◌≡◌}
use mesh_vpn.Service.Deployments.{by_subdomain, resolve_deployment_id, resolve_found}

module _ {S : Type 0} (repo : DeploymentRepository S) (jobs : JobRepository S)
    (laws : DeploymentLaws repo jobs) where
  by_subdomain-keeps : (resolved : Text) (s : S) → (by_subdomain repo resolved s).1 ≡ s
  unfolding by_subdomain
  by_subdomain-keeps resolved s = laws.list_state s

  resolve_found-keeps :
      (resolved : Text) (r : Result DeploymentRecord) (s : S)
      → (resolve_found repo resolved r s).1 ≡ s
  unfolding resolve_found
  resolve_found-keeps resolved (err e) s = by_subdomain-keeps resolved s
  resolve_found-keeps resolved (ok rec) s =
      elim (Bool-cases (is_empty (trim_space rec.deployment_id))) [
        | inl e ↦ rw e (by_subdomain-keeps resolved s)
        | inr e ↦ rw e refl
      ]

  pub resolve_deployment_id-keeps :
      (identifier : Text) (s : S) → (resolve_deployment_id repo identifier s).1 ≡ s
  unfolding resolve_deployment_id
  resolve_deployment_id-keeps identifier s = elim (Bool-cases (is_empty (trim_space identifier))) [
    | inl e ↦ rw e refl
    | inr e ↦ rw e (
        resolve_found-keeps (trim_space identifier) _ _
        ∙ ap (λ p. p.1) (laws.get_view (trim_space identifier) s))
  ]
