-- ===== src/Service/Deployments.antt =====
-- `DeploymentService` of control-plane/internal/service/deployments.go, over the repositories that it is
-- given.
pub mod Submission
pub mod Reads
use mesh_vpn.Store.Errors.{◌>>=◌, ◌>>◌, Exec, Program, Result, err, ok, pure}
use mesh_vpn.Domain.{DeploymentJob, DeploymentRecord}
use mesh_vpn.Text.{Text, contains_char, is_empty, text_eq, to_lower, trim_space}
use mesh_vpn.Store.Repositories.{DeploymentRepository, JobRepository}
use mesh_vpn.Base.{Bool, List, [], if◌then◌else◌, leb, map, ℕ, ◌&&◌, ◌+◌, ◌==◌, ◌∷◌}
use mesh_vpn.Service.Subdomains.{generate_subdomain}
use mesh_vpn.Service.Requests.{Checked, DeployRequest, enqueue_failed, invalid, valid}
use mesh_vpn.Service.Building.{Ids, build, check_request}

-- `unicode.SimpleFold` on ASCII, and the two other letters that fold to it.
unfoldable pub fold : ℕ → ℕ
fold c =
    if leb b'A' c && leb c b'Z'
    then c + 32
    else if c == 0x212A
    then b'k'
    else if c == 0x17F
    then b's'
    else c

-- `strings.EqualFold`
unfoldable pub equal_fold : Text → Text → Bool
unfolding text_eq fold
equal_fold s t = text_eq (map fold s) (map fold t)

-- `strings.Split(s, sep)[0]`
unfoldable pub first_part : ℕ → Text → Text
first_part sep [] = []
first_part sep (c ∷ s) = let rest = first_part sep s in if c == sep then [] else c ∷ rest

-- The loop of `ResolveDeploymentID`.
unfoldable pub id_of_subdomain : Text → Text → List DeploymentRecord → Text
id_of_subdomain resolved candidate [] = resolved
id_of_subdomain resolved candidate (rec ∷ recs) =
    let rest = id_of_subdomain resolved candidate recs in
    if equal_fold rec.subdomain candidate then rec.deployment_id else rest

module _ {S : Type 0} (repo : DeploymentRepository S) (jobs : JobRepository S) where
  submit : DeploymentRecord → DeploymentJob → Program S (Checked DeploymentRecord)
  submit rec job = do
    repo.start rec
    outcome ← jobs.enqueue job
    pure (elim outcome [ err e ↦ invalid (enqueue_failed e) | ok _ ↦ valid rec ])

  submit_if : Checked (DeploymentRecord × DeploymentJob) → Program S (Checked DeploymentRecord)
  unfolding submit
  submit_if (invalid e) = pure (invalid e)
  submit_if (valid (rec, job)) = submit rec job

  enqueue_checked : Ids → ℕ → Checked DeployRequest → Program S (Checked DeploymentRecord)
  unfolding submit_if generate_subdomain
  enqueue_checked ids now (invalid e) = pure (invalid e)
  enqueue_checked ids now (valid req) = do
    named ← generate_subdomain repo ids.short_id (trim_space req.repo) req.subdomain
    submit_if (build ids now req named)

  unfoldable pub enqueue_deploy : Ids → ℕ → DeployRequest → Program S (Checked DeploymentRecord)
  unfolding enqueue_checked
  enqueue_deploy ids now given = enqueue_checked ids now (check_request given)

module _ {S : Type 0} (repo : DeploymentRepository S) where
  unfoldable pub get_deployment : Text → Exec S DeploymentRecord
  get_deployment id = repo.get (trim_space id)

  -- The search by subdomain, where no record was found by id.
  by_subdomain : Text → Program S Text
  by_subdomain resolved = do
    let lowered = to_lower resolved
    recs ← repo.list
    pure (
        id_of_subdomain resolved
          (if contains_char b'.' lowered then first_part b'.' lowered else lowered) recs)

  resolve_found : Text → Result DeploymentRecord → Program S Text
  unfolding by_subdomain
  resolve_found resolved (err e) = by_subdomain resolved
  resolve_found resolved (ok rec) =
      if is_empty (trim_space rec.deployment_id)
      then by_subdomain resolved
      else pure rec.deployment_id

  unfoldable pub resolve_deployment_id : Text → Program S Text
  unfolding resolve_found
  resolve_deployment_id identifier =
      let resolved = trim_space identifier in
      if is_empty resolved
      then pure []
      else do found ← repo.get resolved; resolve_found resolved found
