-- ===== src/Agent/Executor/Cluster.antt =====
-- What the kubectl calls of `createDeployment`, of worker-agent/internal/executor/executor.go, leave in
-- the history.
use mesh_vpn.Agent.Host.{
  Command, Event, History, Machine, Outcome, ran, removed, slept, Attempt, done, failed, Task, ◌>>◌,
}
use mesh_vpn.Text.{Text, codes, is_empty}
use mesh_vpn.Base.{
  All, All-append, Bool-cases, List, Option, [], inl, inr, none, refl, some, ℕ, ◌++◌, ◌+◌, ◌∷◌, ◌≡◌,
  append_assoc, arith, ◌∙◌,
}
use mesh_vpn.Agent.Executor.{
  RuntimeConfig, create_namespace, created_unless, ensure_namespace, kubectl, kubectl_program,
  namespace_or_none, JobFields, apply_command, deployment_resource_name, manifest_of,
  rollout_command, wait_for_deployment_rollout, applied, output_result, trimmed_result,
  create_deployment,
}
use mesh_vpn.Agent.Kubectl.{run_kubectl_with_retry}
use mesh_vpn.Agent.Host.Laws.{Extends, Extends-none, Extends-trans, wrapped_cases, bind_cases}
use mesh_vpn.Agent.Kubectl.Retries.{retries, run_kubectl_with_retry-EndsFrom}
use mesh_vpn.Base.Int.{ℤ}

-- An event on the way to the cluster: a call of kubectl, or the wait for the next one.
abbrev pub IsKubectl : Text → Event → Type 0
IsKubectl program (ran cmd out) = cmd.program ≡ program
IsKubectl program (slept n) = Unit
IsKubectl program (removed path) = ⊥

abbrev pub Succeeds : Outcome → Type 0
Succeeds out = out.error ≡ none

-- The manifest was applied with success, and the rollout then completed, last of all.
pub record IsRolledOut (apply rollout : Command) (events : History) : Type 0 where
  pub before : History
  pub between : History
  pub applied_out : Outcome
  pub rollout_out : Outcome
  pub made : events ≡ before ++ (ran apply applied_out ∷ between ++ ran rollout rollout_out ∷ [])
  pub applied_done : Succeeds applied_out
  pub rollout_done : Succeeds rollout_out

output_result-Succeeds :
    (text : Text) (out : Outcome) → output_result text out ≡ done tt → Succeeds out
output_result-Succeeds text out h = ground arith

trimmed_result-Succeeds :
    (text : Text) (out : Outcome) → trimmed_result text out ≡ done tt → Succeeds out
trimmed_result-Succeeds text out h = ground arith

module _ (machine : Machine) (runtime : RuntimeConfig) where
  abbrev pub OnCluster : Event → Type 0
  OnCluster = IsKubectl (kubectl_program machine runtime)

  retries-All :
      (args : List Text) (stdin : Text) (attempt : ℕ) (outs : List Outcome)
      → All OnCluster (retries (kubectl machine runtime args stdin) attempt outs)
  retries-All args stdin attempt [] = tt
  retries-All args stdin attempt (out ∷ outs) =
      (refl, (tt, retries-All args stdin (attempt + 1) outs))

  -- A kubectl call extends the history by kubectl calls, the last of which has its outcome.
  record Calls (cmd : Command) (h : History) (out : Outcome) (h' : History) : Type 0 where
    earlier : History
    made : h' ≡ h ++ (earlier ++ ran cmd out ∷ [])
    all : All OnCluster earlier

  kubectl-Calls :
      (args : List Text) (stdin : Text) (h : History)
      → let cmd = kubectl machine runtime args stdin in
        let (out, h') = run_kubectl_with_retry machine cmd h in Calls cmd h out h'
  kubectl-Calls args stdin h =
      let e = run_kubectl_with_retry-EndsFrom machine (kubectl machine runtime args stdin) h in
      record {
        earlier = retries (kubectl machine runtime args stdin) 1 e.earlier;
        made = e.made;
        all = retries-All args stdin 1 e.earlier;
      }

  Calls-Extends :
      (args : List Text) (stdin : Text) {h h' : History} {out : Outcome}
      → Calls (kubectl machine runtime args stdin) h out h'
      → Extends OnCluster h h'
  Calls-Extends args stdin {out = out} c = record {
    new = c.earlier ++ ran (kubectl machine runtime args stdin) out ∷ [];
    made = c.made;
    all = All-append OnCluster c.earlier _ c.all (refl, tt);
  }

  kubectl-Extends :
      (args : List Text) (stdin : Text) (h : History)
      → Extends OnCluster h
          (run_kubectl_with_retry machine (kubectl machine runtime args stdin) h).1
  kubectl-Extends args stdin h = Calls-Extends args stdin (kubectl-Calls args stdin h)

  created_unless-Extends :
      (out : Outcome) (h : History) → Extends OnCluster h (created_unless machine runtime out h).1
  unfolding create_namespace
  created_unless-Extends out h = by_error out.error refl
    where
      by_error :
          (e : Option Text)
          → out.error ≡ e
          → Extends OnCluster h (created_unless machine runtime out h).1
      by_error none e = rw (e, created_unless) (Extends-none OnCluster h)
      by_error (some t) e = rw (e, created_unless) (kubectl-Extends _ _ h)

  namespace-Extends : (h : History) → Extends OnCluster h (namespace_or_none machine runtime h).1
  unfolding ensure_namespace
  namespace-Extends h = elim (Bool-cases (is_empty runtime.namespace)) [
    | inl e ↦ rw e (Extends-none OnCluster h)
    | inr e ↦ rw e (
        wrapped_cases (λ r h'. Extends OnCluster h h') (codes "ensure namespace: ")
          (ensure_namespace machine runtime) h (λ _ _. ensured) (λ _ _. ensured))
  ]
    where
      get_namespace : List Text
      get_namespace = codes "get" ∷ codes "namespace" ∷ runtime.namespace ∷ []

      ensured : Extends OnCluster h (ensure_namespace machine runtime h).1
      ensured =
          let (out, h') =
            run_kubectl_with_retry machine (kubectl machine runtime get_namespace []) h in
          Extends-trans OnCluster (kubectl-Extends get_namespace [] h)
            (created_unless-Extends out h')

  -- The history has grown by calls of kubectl, and after a success by a complete rollout.
  pub record Deploys (apply rollout : Command) (h : History) (r : Attempt (Unit {0})) (h' : History)
      : Type 0 where
    pub new : History
    pub made : h' ≡ h ++ new
    pub all : All OnCluster new
    pub rolled_out : r ≡ done tt → IsRolledOut apply rollout new

  Deploys-failed :
      {apply rollout : Command} {h h' : History} (e : Text)
      → Extends OnCluster h h'
      → Deploys apply rollout h (failed e) h'
  Deploys-failed e x = record { new = x.new; made = x.made; all = x.all; rolled_out = λ p. cc }

  module _ (id image subdomain : Text) (port : ℤ) (job : JobFields) where
    abbrev manifest : Text
    manifest = manifest_of machine runtime id image subdomain port job

    abbrev resource : Text
    resource = deployment_resource_name id

    abbrev apply : Command
    apply = apply_command machine runtime manifest

    abbrev rollout : Command
    rollout = rollout_command machine runtime resource

    abbrev pub ClusterSteps : History → Attempt (Unit {0}) → History → Type 0
    ClusterSteps = Deploys apply rollout

    -- A rollout that was waited for, behind an apply that succeeded.
    rolled-ClusterSteps :
        (r : Attempt (Unit {0})) (h h1 h2 h3 : History) (out rolled : Outcome)
        → Extends OnCluster h h1
        → Calls apply h1 out h2
        → Calls rollout h2 rolled h3
        → Succeeds out
        → (r ≡ done tt → Succeeds rolled)
        → ClusterSteps h r h3
    rolled-ClusterSteps r h h1 h2 h3 out rolled x c d good done_if = record {
      new = x.new ++ ((c.earlier ++ ran apply out ∷ []) ++ (d.earlier ++ ran rollout rolled ∷ []));
      made = d.made ∙ simp (c.made, x.made, append_assoc);
      all = All-append OnCluster x.new _ x.all (
          All-append OnCluster (c.earlier ++ ran apply out ∷ []) _
            (All-append OnCluster c.earlier _ c.all (refl, tt))
            (All-append OnCluster d.earlier _ d.all (refl, tt)));
      rolled_out = λ p. record {
        before = x.new ++ c.earlier;
        between = d.earlier;
        applied_out = out;
        rollout_out = rolled;
        made = simp append_assoc;
        applied_done = good;
        rollout_done = done_if p;
      };
    }

    -- Apply and rollout, from where the namespace is there.
    apply_steps : Task (Unit {0})
    apply_steps =
        applied (output_result (codes "kubectl apply failed: "))
          (run_kubectl_with_retry machine apply)
        >> wait_for_deployment_rollout machine runtime resource

    apply_steps-ClusterSteps :
        (h h1 : History)
        → Extends OnCluster h h1
        → let (r, h3) = apply_steps h1 in ClusterSteps h r h3
    unfolding apply_steps wait_for_deployment_rollout
    apply_steps-ClusterSteps h h1 x =
        let (out, h2) = run_kubectl_with_retry machine apply h1 in
        let c : Calls apply h1 out h2 = kubectl-Calls _ manifest h1 in
        let (rolled, h3) = run_kubectl_with_retry machine rollout h2 in
        bind_cases (ClusterSteps h)
          (applied (output_result (codes "kubectl apply failed: "))
            (run_kubectl_with_retry machine apply))
          (λ _. wait_for_deployment_rollout machine runtime resource) h1
          (λ _ e.
            rolled-ClusterSteps _ h h1 h2 h3 out rolled x c (kubectl-Calls _ [] h2)
              (output_result-Succeeds (codes "kubectl apply failed: ") out e)
              (trimmed_result-Succeeds (codes "kubectl rollout status failed: ") rolled))
          (λ t e. Deploys-failed t (Extends-trans OnCluster x (Calls-Extends _ manifest c)))

    pub create_deployment-ClusterSteps :
        (h : History)
        → let (r, h') = create_deployment machine runtime id image subdomain port job h in
          ClusterSteps h r h'
    unfolding create_deployment apply_steps
    create_deployment-ClusterSteps h =
        bind_cases (ClusterSteps h) (namespace_or_none machine runtime) (λ _. apply_steps) h
          (λ _ _. apply_steps-ClusterSteps h _ (namespace-Extends h))
          (λ t _. Deploys-failed t (namespace-Extends h))
