-- ===== src/Runtime/Cloning.antt =====
-- The clone of a repository, the check for its Dockerfile and the build of its image, in
-- control-plane/internal/runtime/deployer.go and docker_driver.go.
use mesh_vpn.Agent.BuildPaths.{join}
use mesh_vpn.Agent.Host.{Outcome, Attempt, wrapped, ◌>>=◌, ◌>>◌, done, failed}
use mesh_vpn.Domain.{StringMap}
use mesh_vpn.Text.{Text, codes, text_lt}
use mesh_vpn.Store.Errors.{Program}
use mesh_vpn.Base.{Bool, List, Option, [], if◌then◌else◌, none, some, ◌++◌, ◌∷◌}
use mesh_vpn.Base.Sorting.{sort_by}
use mesh_vpn.Runtime.Host.{
  Build, DeployArgs, Environment, Host, Step, always, emit_build_section, failing, made, or_section,
  removed, run_command, run_command_stream, succeeding, with_prefix,
}

-- The entries of a map in the order of `sortedMapKeys`.
unfoldable pub sorted_entries : StringMap → StringMap
unfolding sort_by text_lt
sorted_entries m = sort_by (λ x y. text_lt x.0 y.0) m

abbrev flagged : Text → StringMap → List Text
flagged flag [] = []
flagged flag ((key, value) ∷ m) = flag ∷ (key ++ b'=' ∷ value) ∷ flagged flag m

-- Each variable behind a flag.
unfoldable pub assignments : Text → StringMap → List Text
unfolding sorted_entries
assignments flag m = flagged flag (sorted_entries m)

-- What `cloneRepo` returns.
pub record Clone : Type 0 where
  pub path : Text
  pub output : Text
  pub error : Option Text

abbrev pub cloned : Text → Outcome → Clone
cloned path out = elim out.error [
  | none ↦ record { path = path; output = out.output; error = none }
  | some e ↦ record { path = []; output = out.output; error = some (codes "clone repo: " ++ e) }
]

module _ (host : Host) (env : Environment) where
  abbrev pub make_directory : Text → Step (Unit {0})
  make_directory path b =
      failing (host.cannot_make b.history path) (record b { history = b.history ++ made path ∷ [] })

  abbrev pub remove_directory : Text → Step (Unit {0})
  remove_directory path b =
      failing (host.cannot_remove b.history path)
        (record b { history = b.history ++ removed path ∷ [] })

  abbrev pub apps_root : Step Text
  apps_root b = (host.apps_directory, b)

  unfoldable pub app_path : Text → Step Text
  app_path id = do
    root ← wrapped (codes "resolve apps directory: ") apps_root
    wrapped (codes "create apps directory: ") (make_directory root)
    wrapped (codes "reset app directory: ") (remove_directory (join root id))
    succeeding (join root id)

  abbrev pub clone_into : Text → Attempt Text → Program Build Clone
  clone_into repo (failed e) b = (record { path = []; output = []; error = some e }, b)
  clone_into repo (done path) b =
      let (out, b') =
        run_command host env (codes "git")
          (codes "clone" ∷ codes "--depth" ∷ codes "1" ∷ repo ∷ path ∷ []) b in
      (cloned path out, b')

  unfoldable pub clone_repo : Text → Text → Program Build Clone
  unfolding app_path run_command_stream
  clone_repo repo id b = let (r, b') = app_path id b in clone_into repo r b'

  unfoldable pub ensure_dockerfile : Text → Step (Unit {0})
  ensure_dockerfile path b =
      if host.exists b.history (join path (codes "Dockerfile")) then (done tt, b) else (
        failed (codes "repo must contain a Dockerfile at " ++ join path (codes "Dockerfile")),
        b,
      )

  -- The first steps of both drivers, up to the check for a Dockerfile.
  unfoldable pub clone_and_check : Bool → DeployArgs → Step Text
  unfolding emit_build_section clone_repo ensure_dockerfile
  clone_and_check streams args = do
    emit_build_section streams (codes "clone") (codes "repo=" ++ args.repo)
    clone ← always (clone_repo args.repo args.id)
    emit_build_section streams (codes "clone output") clone.output
    failing clone.error
    or_section streams (codes "dockerfile check") (ensure_dockerfile clone.path)
    succeeding clone.path

  -- `buildImageWithStream`
  unfoldable pub build_image : Bool → Text → Text → StringMap → Program Build Outcome
  unfolding run_command_stream assignments
  build_image streams image path build_args = with_prefix (codes "build image: ") (
      run_command_stream host env streams [] (codes "docker") (
        codes "build"
        ∷ codes "-t"
        ∷ image
        ∷ (assignments (codes "--build-arg") build_args ++ path ∷ [])))
