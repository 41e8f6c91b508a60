-- ===== src/Service/Subdomains/Fresh.antt =====
-- Which names `GenerateSubdomain` of control-plane/internal/service/deployments.go returns.
use mesh_vpn.Domain.{DeploymentRecord}
use mesh_vpn.Text.{Text, codes, is_empty, trim_space}
use mesh_vpn.Store.Repositories.{DeploymentRepository}
use mesh_vpn.Base.{
  All, Bool-cases, List, [], arith, false, inl, inr, refl, true, ◌++◌, ◌∷◌, ◌≡◌, ◌⊎◌,
}
use mesh_vpn.Service.Subdomains.{
  extract_repo_name, generate_subdomain, if_unique, is_subdomain_unique, is_unique_in,
  sanitize_subdomain,
}
use mesh_vpn.Service.Requests.{Checked, invalid, subdomain_in_use, valid}
use mesh_vpn.Text.Laws.{text_eq_iff}

-- No deployment but failed ones has the name.
abbrev pub IsFree : Text → List DeploymentRecord → Type 0
IsFree subdomain = All (λ rec. rec.subdomain ≡ subdomain → rec.status ≡ codes "failed")

is_unique_in-IsFree :
    (subdomain : Text) (recs : List DeploymentRecord)
    → is_unique_in subdomain recs ≡ true
    → IsFree subdomain recs
unfolding is_unique_in
is_unique_in-IsFree subdomain [] h = tt
is_unique_in-IsFree subdomain (rec ∷ recs) h = (
  λ e. ground (arith, text_eq_iff rec.subdomain subdomain, text_eq_iff rec.status (codes "failed")),
  is_unique_in-IsFree subdomain recs (ground arith),
)

-- What a name returned for the records `recs` is.
abbrev pub IsGenerated : Text → Text → Text → List DeploymentRecord → Checked Text → Type 0
IsGenerated short_id repo_url given recs (invalid e) = Unit
IsGenerated short_id repo_url given recs (valid name) =
    IsFree name recs
    ⊎ ((is_empty (trim_space given) ≡ true)
        × (is_unique_in (extract_repo_name repo_url) recs ≡ false)
        × (name ≡ extract_repo_name repo_url ++ b'-' ∷ short_id))

module _ {S : Type 0} (repo : DeploymentRepository S) where
  if_unique-cases :
      (subdomain : Text) (taken : Checked Text) (s : S)
      → let recs = (repo.list s).0 in
        (((if_unique repo subdomain taken s).0 ≡ valid subdomain) × IsFree subdomain recs)
        ⊎ (((if_unique repo subdomain taken s).0 ≡ taken) × (is_unique_in subdomain recs ≡ false))
  unfolding if_unique is_subdomain_unique
  if_unique-cases subdomain taken s = elim (Bool-cases (is_unique_in subdomain (repo.list s).0)) [
    | inl e ↦ inl (rw e refl, is_unique_in-IsFree subdomain _ e)
    | inr e ↦ inr (rw e refl, e)
  ]

  -- A name that is returned is free among the deployments that the repository lists, failed ones
  -- aside; or none was given, the name of the repository is taken, and the name is that one with the
  -- short id behind it.
  pub generate_subdomain-IsGenerated :
      (short_id repo_url given : Text) (s : S)
      → IsGenerated short_id repo_url given
          (repo.list s).0
          (generate_subdomain repo short_id repo_url given s).0
  unfolding generate_subdomain
  generate_subdomain-IsGenerated short_id repo_url given s =
      elim (Bool-cases (is_empty (trim_space given))) [
        | inl e ↦ elim (Bool-cases (is_empty (extract_repo_name repo_url))) [
          | inl f ↦ rw (e, f) tt
          | inr f ↦
              elim (if_unique-cases (extract_repo_name repo_url)
                (valid (extract_repo_name repo_url ++ b'-' ∷ short_id)) s) [
                  | inl (g, free) ↦ rw (e, f, g) (inl free)
                  | inr (g, taken) ↦ rw (e, f, g) (inr (e, taken, refl))
                ]
        ]
        | inr e ↦ elim (Bool-cases (is_empty (sanitize_subdomain (trim_space given)))) [
          | inl f ↦ rw (e, f) tt
          | inr f ↦
              elim (if_unique-cases (sanitize_subdomain (trim_space given))
                (invalid (subdomain_in_use (sanitize_subdomain (trim_space given)))) s) [
                  | inl (g, free) ↦ rw (e, f, g) (inl free)
                  | inr (g, taken) ↦ rw (e, f, g) tt
                ]
        ]
      ]
