-- ===== src/Agent/BuildPaths.antt =====
-- `resolveBuildPaths` of worker-agent/internal/executor/executor.go: the Dockerfile of a repository. A
-- path of the model is joined by a slash, which is what `filepath.Join` makes of parts that hold no
-- dots and no double slashes. `WalkDir` itself returns no error here, since the callback returns none.
pub mod Chosen
use mesh_vpn.Text.{Text, codes, text_eq, text_lt, trim_left}
use mesh_vpn.Base.{
  Bool, List, Option, [], if◌then◌else◌, none, some, ◌++◌, ◌||◌, ◌∷◌, drop, not, ◌==◌,
}
use mesh_vpn.Base.Sorting.{sort_by}
use mathlib.Core.List.{reverse}
use mesh_vpn.Agent.Host.{done, failed, Attempt, Entries, Entry, cons, file, folder, nil}

abbrev dockerfile : Text
dockerfile = codes "Dockerfile"

abbrev pub join : Text → Text → Text
join dir name = dir ++ b'/' ∷ name

-- The directories that the walk skips.
unfoldable pub is_skipped : Text → Bool
unfolding text_eq
is_skipped name =
    text_eq name (codes ".git")
    || text_eq name (codes "node_modules")
    || text_eq name (codes ".next")
    || text_eq name (codes "dist")
    || text_eq name (codes "build")
    || text_eq name (codes "vendor")
    || text_eq name (codes ".venv")
    || text_eq name (codes "venv")

abbrev pub name_of : Entry → Text
name_of (file name) = name
name_of (folder name entries) = name

unfoldable mutual
  unfolding is_skipped text_eq

  -- The candidates at and below an entry that stands at a path.
  pub candidates : Text → Entry → List Text
  candidates path (file name) = if text_eq name dockerfile then path ∷ [] else []
  candidates path (folder name entries) =
      let below = candidates_in path entries in if is_skipped name then [] else below

  pub candidates_in : Text → Entries → List Text
  candidates_in dir nil = []
  candidates_in dir (cons e es) = candidates (join dir (name_of e)) e ++ candidates_in dir es

-- The Dockerfile and the directory that it is built in.
pub record BuildPaths : Type 0 where
  pub dockerfile_path : Text
  pub context : Text

-- `strings.Join`
abbrev pub joined : Text → List Text → Text
joined sep [] = []
joined sep (t ∷ []) = t
joined sep (t ∷ u ∷ ts) = t ++ sep ++ joined sep (u ∷ ts)

-- `filepath.Dir` of a path that holds a slash
unfoldable pub dir_of : Text → Text
unfolding trim_left
dir_of path = reverse (drop 1 (trim_left (λ c. not (c == b'/')) (reverse path)))

unfoldable pub choose : Text → List Text → Attempt BuildPaths
unfolding sort_by text_lt dir_of
choose root [] = failed (
    codes "docker build failed: no Dockerfile found in repository (expected "
    ++ join root dockerfile
    ++ codes ")")
choose root (path ∷ []) = done (record { dockerfile_path = path; context = dir_of path })
choose root (c ∷ d ∷ cs) = failed (
    codes "docker build failed: multiple Dockerfiles found: "
    ++ joined (codes ", ") (sort_by text_lt (c ∷ d ∷ cs)))

abbrev pub found_below : Text → Option Entry → List Text
found_below root none = []
found_below root (some e) = candidates root e

-- `at_root` says whether the root has a Dockerfile.
unfoldable pub resolve_build_paths : Text → Bool → Option Entry → Attempt BuildPaths
unfolding candidates candidates_in choose
resolve_build_paths root at_root tree =
    if at_root
    then done (record { dockerfile_path = join root dockerfile; context = root })
    else choose root (found_below root tree)
