-- ===== src/Agent/Executor/Pipeline.antt =====
-- In which order `executeKubernetes` of worker-agent/internal/executor/executor.go runs its commands.
use mesh_vpn.Agent.Host.{
  ◌>>◌, done, failed, Attempt, Command, History, Machine, Outcome, Task, ran, wrapped,
}
use mesh_vpn.Text.{Text, codes}
use mesh_vpn.Base.{All, [], ap, append_assoc, inl, inr, refl, sym, ◌++◌, ◌∙◌, ◌∷◌, ◌≡◌, ◌≢◌, ◌⊎◌}
use mesh_vpn.Base.Int.{ℤ}
use mesh_vpn.Agent.BuildPaths.{BuildPaths}
use mesh_vpn.Agent.Executor.{
  JobFields, RuntimeConfig, apply_command, build_command, build_image, clone_repo,
  create_deployment, deployment_resource_name, execute_kubernetes, manifest_of, paths_of,
  push_command, push_image, rollout_command,
}
use mesh_vpn.Agent.Executor.Build.{
  Built, IsTool, Step-Extends, build-Part, clone-Extends, clone-cloned, cloned, image_name,
  push-Step,
}
use mesh_vpn.Agent.Executor.Cluster.{
  IsRolledOut, OnCluster, Succeeds, create_deployment-ClusterSteps,
}
use mesh_vpn.Agent.Host.Laws.{Extends, Extends-trans, wrapped_bind_cases, wrapped_cases}

module _ (machine : Machine) (runtime : RuntimeConfig) (id repo : Text) where
  abbrev image : Text
  image = image_name machine runtime id repo

  -- Clone, build and push ran in this order and succeeded, and the rest is the work on the cluster.
  pub record Delivers (apply rollout : Command) (h : History) (r : Attempt (Unit {0}))
      (h' : History) : Type 0 where
    pub paths : BuildPaths
    pub clone_out : Outcome
    pub build_out : Outcome
    pub push_out : Outcome
    pub rest : History
    pub made :
        h'
        ≡ cloned machine runtime id repo h clone_out
          ++ (ran (build_command image paths) build_out ∷ ran (push_command image) push_out ∷ rest)
    pub chosen :
        (paths_of machine runtime id (cloned machine runtime id repo h clone_out)).0 ≡ done paths
    pub clone_done : Succeeds clone_out
    pub build_done : Succeeds build_out
    pub push_done : Succeeds push_out
    pub on_cluster : All (OnCluster machine runtime) rest
    pub rolled_out : r ≡ done tt → IsRolledOut apply rollout rest

  -- The job failed before anything was done on the cluster.
  abbrev pub Stops : History → Attempt (Unit {0}) → History → Type 0
  Stops h r h' = (r ≢ done tt) × Extends IsTool h h'

  module _ (subdomain : Text) (port : ℤ) (job : JobFields) where
    abbrev apply : Command
    apply = apply_command machine runtime (manifest_of machine runtime id image subdomain port job)

    abbrev rollout : Command
    rollout = rollout_command machine runtime (deployment_resource_name id)

    abbrev pub Outcomes : History → Attempt (Unit {0}) → History → Type 0
    Outcomes h r h' = Stops h r h' ⊎ Delivers apply rollout h r h'

    abbrev deploy : Task (Unit {0})
    deploy =
        wrapped (codes "create deployment: ")
          (create_deployment machine runtime id image subdomain port job)

    -- The part on the cluster, behind a push that succeeded.
    pushed-Delivers :
        (h h1 h2 h3 : History) (clone_out push_out : Outcome) (r : Attempt (Unit {0}))
        → h1 ≡ cloned machine runtime id repo h clone_out
        → Succeeds clone_out
        → Built machine runtime id repo h1 h2
        → h3 ≡ h2 ++ ran (push_command image) push_out ∷ []
        → Succeeds push_out
        → (r ≡ done tt
            → (create_deployment machine runtime id image subdomain port job h3).0 ≡ done tt)
        → Delivers apply rollout h r
            (create_deployment machine runtime id image subdomain port job h3).1
    pushed-Delivers h h1 h2 h3 clone_out push_out r e1 g1 b e3 g3 only_if =
        let d = create_deployment-ClusterSteps machine runtime id image subdomain port job h3 in
        record {
          paths = b.paths;
          clone_out = clone_out;
          build_out = b.out;
          push_out = push_out;
          rest = d.new;
          made = d.made ∙ simp (e3, b.made, e1, append_assoc);
          chosen = ap (λ x. (paths_of machine runtime id x).0) (sym e1) ∙ b.chosen;
          clone_done = g1;
          build_done = b.good;
          push_done = g3;
          on_cluster = d.all;
          rolled_out = λ e. d.rolled_out (only_if e);
        }

    abbrev push_then_deploy : Task (Unit {0})
    push_then_deploy = wrapped (codes "push image: ") (push_image machine runtime image) >> deploy

    abbrev build_then_deploy : Task (Unit {0})
    build_then_deploy =
        wrapped (codes "build image: ") (build_image machine runtime id image) >> push_then_deploy

    pushing-Outcomes :
        (h h1 h2 : History) (clone_out : Outcome)
        → h1 ≡ cloned machine runtime id repo h clone_out
        → Succeeds clone_out
        → Extends IsTool h h2
        → Built machine runtime id repo h1 h2
        → let (r, h') = push_then_deploy h2 in Outcomes h r h'
    pushing-Outcomes h h1 h2 clone_out e1 g1 x b =
        let step = push-Step machine runtime id repo h2 in
        let h3 = (push_image machine runtime image h2).1 in
        wrapped_bind_cases (Outcomes h) (codes "push image: ") (push_image machine runtime image)
          (λ _. deploy) h2
          (λ _ e.
            wrapped_cases (Outcomes h) (codes "create deployment: ")
              (create_deployment machine runtime id image subdomain port job) h3
              (λ _ c. inr (
                pushed-Delivers h h1 h2 h3 clone_out step.out _ e1 g1 b step.made (step.good e)
                  (λ _. c)))
              (λ t _. inr (
                pushed-Delivers h h1 h2 h3 clone_out step.out (failed _) e1 g1 b step.made
                  (step.good e) (λ p. cc))))
          (λ t e. inl (λ p. cc, Extends-trans IsTool x (Step-Extends (inr refl) step)))

    building-Outcomes :
        (h h1 : History) (clone_out : Outcome)
        → h1 ≡ cloned machine runtime id repo h clone_out
        → Succeeds clone_out
        → Extends IsTool h h1
        → let (r, h') = build_then_deploy h1 in Outcomes h r h'
    building-Outcomes h h1 clone_out e1 g1 x =
        let part = build-Part machine runtime id repo h1 in
        let tools = Extends-trans IsTool x part.tools in
        wrapped_bind_cases (Outcomes h) (codes "build image: ")
          (build_image machine runtime id image) (λ _. push_then_deploy) h1
          (λ _ e. pushing-Outcomes h h1 _ clone_out e1 g1 tools (part.success e))
          (λ t e. inl (λ p. cc, tools))

    -- A job is cloned, built and pushed before anything is done on the cluster. It fails, and git,
    -- docker and the clean-up are all that was run; or clone, build and push ran in this order, each
    -- once and with success, the build on the Dockerfile chosen from what was cloned, and whatever
    -- followed are kubectl calls and waits. Success is reported only where the manifest of this image
    -- was then applied and its rollout completed, last of all.
    pub execute_kubernetes-Outcomes :
        (h : History)
        → let (r, h') = execute_kubernetes machine runtime id repo subdomain port job h in
          Outcomes h r h'
    unfolding execute_kubernetes
    execute_kubernetes-Outcomes h =
        wrapped_bind_cases (Outcomes h) (codes "clone repo: ") (clone_repo machine runtime repo id)
          (λ _. build_then_deploy) h
          (λ _ e.
            let (out, made, good) = clone-cloned machine runtime id repo h e in
            building-Outcomes h _ out made good (clone-Extends machine runtime id repo h))
          (λ t e. inl (λ p. cc, clone-Extends machine runtime id repo h))
