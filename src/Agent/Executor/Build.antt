-- ===== src/Agent/Executor/Build.antt =====
-- What the clone, the build and the push of worker-agent/internal/executor/executor.go leave in the
-- history.
use mesh_vpn.Agent.Host.{
  done, Attempt, Command, Event, History, Machine, Outcome, Task, ran, remove, removed, run, slept,
}
use mesh_vpn.Text.{Text, codes}
use mesh_vpn.Agent.BuildPaths.{BuildPaths}
use mesh_vpn.Agent.Executor.{
  RuntimeConfig, applied, build_command, build_image, clone_command, clone_repo, image_of, paths_of,
  push_command, push_image, repo_dir, tool_result,
}
use mesh_vpn.Agent.Executor.Cluster.{Succeeds}
use mesh_vpn.Agent.Host.Laws.{Extends, Extends-none, Extends-trans, bind_cases, wrapped_bind_cases}
use mesh_vpn.Base.{[], append_assoc, arith, inl, inr, refl, ◌++◌, ◌∙◌, ◌∷◌, ◌≡◌, ◌⊎◌}

-- An event of the build: a call of git or docker, or the clean-up.
abbrev pub IsTool : Event → Type 0
IsTool (ran cmd out) = (cmd.program ≡ codes "git") ⊎ (cmd.program ≡ codes "docker")
IsTool (slept n) = ⊥
IsTool (removed path) = Unit

-- A step of the build has run one command, with success where the step succeeds.
pub record Step (cmd : Command) (h : History) (r : Attempt (Unit {0})) (h' : History) : Type 0 where
  pub out : Outcome
  pub made : h' ≡ h ++ ran cmd out ∷ []
  pub good : r ≡ done tt → Succeeds out

pub Step-Extends :
    {cmd : Command} {h h' : History} {r : Attempt (Unit {0})}
    → (cmd.program ≡ codes "git") ⊎ (cmd.program ≡ codes "docker")
    → Step cmd h r h'
    → Extends IsTool h h'
Step-Extends {cmd} p s = record { new = ran cmd s.out ∷ []; made = s.made; all = (p, tt) }

module _ (machine : Machine) (runtime : RuntimeConfig) (id repo : Text) where
  abbrev pub image_name : Text
  image_name = image_of machine runtime id

  -- The history when the build looks for its Dockerfile.
  abbrev pub cloned : History → Outcome → History
  cloned h out = h ++ (removed (repo_dir id) ∷ ran (clone_command repo id) out ∷ [])

  abbrev clone_run : Task (Unit {0})
  clone_run =
      applied (tool_result (codes "git clone failed: ")) (run machine (clone_command repo id))

  clone-Step : (h : History) → let (r, h') = clone_run h in Step (clone_command repo id) h r h'
  clone-Step h = record {
    out = machine.answer h (clone_command repo id);
    made = refl;
    good = λ e. ground arith;
  }

  pub clone-Extends : (h : History) → Extends IsTool h (clone_repo machine runtime repo id h).1
  unfolding clone_repo
  clone-Extends h =
      wrapped_bind_cases (λ r h'. Extends IsTool h h') (codes "cleanup old repo dir failed: ")
        (remove machine (repo_dir id)) (λ _. clone_run) h
        (λ _ _. Extends-trans IsTool cleaned (Step-Extends (inl refl) (clone-Step _)))
        (λ _ _. cleaned)
    where
      cleaned : Extends IsTool h (h ++ removed (repo_dir id) ∷ [])
      cleaned = record { new = removed (repo_dir id) ∷ []; made = refl; all = (tt, tt) }

  pub clone-cloned :
      (h : History)
      → let (r, h') = clone_repo machine runtime repo id h in
        r ≡ done tt → (out : Outcome) × (h' ≡ cloned h out) × Succeeds out
  unfolding clone_repo
  clone-cloned h =
      wrapped_bind_cases
        (λ r h'. r ≡ done tt → (out : Outcome) × (h' ≡ cloned h out) × Succeeds out)
        (codes "cleanup old repo dir failed: ") (remove machine (repo_dir id)) (λ _. clone_run) h
        (λ _ _ e.
          let step = clone-Step (h ++ removed (repo_dir id) ∷ []) in
          (step.out, step.made ∙ append_assoc h _ _, step.good e))
        (λ _ _ e. cc)

  pub push-Step :
      (h : History)
      → let (r, h') = push_image machine runtime image_name h in
        Step (push_command image_name) h r h'
  unfolding push_image
  push-Step h = record {
    out = machine.answer h (push_command image_name);
    made = refl;
    good = λ e. ground arith;
  }

  -- The build of the Dockerfile that was chosen.
  pub record Built (h h' : History) : Type 0 where
    pub paths : BuildPaths
    pub out : Outcome
    pub chosen : (paths_of machine runtime id h).0 ≡ done paths
    pub made : h' ≡ h ++ ran (build_command image_name paths) out ∷ []
    pub good : Succeeds out

  -- A part of the build that leaves a record of its success, and runs only tools.
  pub record Part (Success : History → History → Type 0) (h : History) (r : Attempt (Unit {0}))
      (h' : History) : Type 0 where
    pub success : r ≡ done tt → Success h h'
    pub tools : Extends IsTool h h'

  pub build-Part :
      (h : History) → let (r, h') = build_image machine runtime id image_name h in Part Built h r h'
  unfolding build_image
  build-Part h =
      bind_cases (Part Built h) (paths_of machine runtime id) build_at h
        (λ paths e. record {
          success = λ good. record {
            paths = paths;
            out = machine.answer h (build_command image_name paths);
            chosen = e;
            made = refl;
            good = ground arith;
          };
          tools = record {
            new =
                ran (build_command image_name paths)
                  (machine.answer h (build_command image_name paths))
                ∷ [];
            made = refl;
            all = (inr refl, tt);
          };
        })
        (λ t e. record { success = λ p. cc; tools = Extends-none IsTool h })
    where
      build_at : BuildPaths → Task (Unit {0})
      build_at paths =
          applied (tool_result (codes "docker build failed: "))
            (run machine (build_command image_name paths))
