-- ===== src/Agent/Executor.antt =====
-- The executor of worker-agent/internal/executor/executor.go: a claimed job is cloned, built, pushed and
-- applied to the cluster. `RuntimeConfig` is that of worker-agent/internal/config/config.go.
pub mod Cluster
pub mod Build
pub mod Pipeline
use mesh_vpn.Agent.Host.{
  ◌>>=◌, ◌>>◌, done, failed, Attempt, Command, History, Machine, Outcome, Task, remove, run,
  wrapped,
}
use mesh_vpn.Text.{Text, codes, contains_text, is_empty, text_eq, trim_space}
use mesh_vpn.Store.Errors.{Program}
use mesh_vpn.Base.{List, Option, String, [], if◌then◌else◌, none, some, ◌++◌, ◌∷◌}
use mesh_vpn.Base.Int.{ℤ, pos}
use mesh_vpn.Agent.BuildPaths.{BuildPaths, join, resolve_build_paths}
use mesh_vpn.Agent.Kubectl.{kubectl_command, run_kubectl_with_retry}
use mesh_vpn.Agent.Manifest.{generate_manifest}

pub record RuntimeConfig : Type 0 where
  pub type : Text
  pub kubeconfig : Text
  pub namespace : Text
  pub kubectl_bin : Text
  pub image_prefix : Text
  pub app_base_domain : Text

-- What the executor and the agent read of a job's JSON: `none` where the key is missing or holds a
-- value of another type. CPU cores are held in thousandths.
pub record JobFields : Type 0 where
  pub job_id : Option Text
  pub deployment_id : Option Text
  pub repo : Option Text
  pub subdomain : Option Text
  pub port : Option ℤ
  pub cpu_cores : Option ℤ
  pub memory_mb : Option ℤ

-- A job without a number as its port ends the process: the assertion has no `, ok`.
pub data Execution : Type 0 where
  returned : Attempt (Unit {0}) → Execution
  panicked : Execution

-- The value of a type assertion with `, _`
abbrev pub text_or_empty : Option Text → Text
text_or_empty none = []
text_or_empty (some t) = t

abbrev int_or : ℤ → Option ℤ → ℤ
int_or d none = d
int_or d (some n) = n

abbrev pub repo_dir : Text → Text
repo_dir id = codes "/tmp/" ++ id

abbrev pub deployment_resource_name : Text → Text
deployment_resource_name id = codes "app-" ++ id

abbrev pub tool : String → List Text → Command
tool name args = record { program = codes name; args = args; stdin = []; kubeconfig = none }

abbrev pub clone_command : Text → Text → Command
clone_command repo id = tool "git" (codes "clone" ∷ repo ∷ repo_dir id ∷ [])

abbrev pub build_command : Text → BuildPaths → Command
build_command image paths =
    tool "docker"
      (codes "build" ∷ codes "-t" ∷ image ∷ codes "-f" ∷ paths.dockerfile_path ∷ paths.context ∷ [])

abbrev pub push_command : Text → Command
push_command image = tool "docker" (codes "push" ∷ image ∷ [])

-- The error of a tool that failed: what it wrote, or the error itself where it wrote nothing.
abbrev tool_result : Text → Outcome → Attempt (Unit {0})
tool_result text out = elim out.error [
  | none ↦ done tt
  | some e ↦ failed (text ++ (if is_empty out.output then e else out.output))
]

abbrev output_result : Text → Outcome → Attempt (Unit {0})
output_result text out = elim out.error [ none ↦ done tt | some e ↦ failed (text ++ out.output) ]

abbrev pub applied : (Outcome → Attempt (Unit {0})) → Program History Outcome → Task (Unit {0})
applied result m h = let (out, h') = m h in (result out, h')

-- `waitForDeploymentRollout` and `ensureNamespace` show the output without the spaces around it.
abbrev trimmed_result : Text → Outcome → Attempt (Unit {0})
trimmed_result text out = elim out.error [
  | none ↦ done tt
  | some e ↦
      failed (text ++ (if is_empty (trim_space out.output) then e else trim_space out.output))
]

abbrev created_result : Text → Outcome → Attempt (Unit {0})
created_result text out =
    if contains_text (codes "AlreadyExists") (trim_space out.output)
    then done tt
    else trimmed_result text out

abbrev quoted : Text → Text
quoted t = b'"' ∷ t ++ b'"' ∷ []

module _ (machine : Machine) (runtime : RuntimeConfig) where
  unfoldable pub clone_repo : Text → Text → Task (Unit {0})
  clone_repo repo id =
      wrapped (codes "cleanup old repo dir failed: ") (remove machine (repo_dir id))
      >> applied (tool_result (codes "git clone failed: ")) (run machine (clone_command repo id))

  -- What is on the disk when the build begins.
  abbrev pub paths_of : Text → Task BuildPaths
  paths_of id h = (
    resolve_build_paths (repo_dir id) (machine.exists h (join (repo_dir id) (codes "Dockerfile")))
        (machine.tree h (repo_dir id)),
    h,
  )

  unfoldable pub build_image : Text → Text → Task (Unit {0})
  unfolding resolve_build_paths
  build_image id image = do
    paths ← paths_of id
    applied (tool_result (codes "docker build failed: ")) (run machine (build_command image paths))

  unfoldable pub push_image : Text → Task (Unit {0})
  push_image image =
      applied (output_result (codes "docker push failed: ")) (run machine (push_command image))

  abbrev pub kubectl_program : Text
  kubectl_program = if is_empty runtime.kubectl_bin then codes "kubectl" else runtime.kubectl_bin

  abbrev pub in_namespace : List Text → List Text
  in_namespace args =
      if is_empty runtime.namespace then args else args ++ codes "-n" ∷ runtime.namespace ∷ []

  abbrev pub kubectl : List Text → Text → Command
  kubectl args stdin = kubectl_command runtime.kubeconfig kubectl_program args stdin

  abbrev pub apply_command : Text → Command
  apply_command manifest =
      kubectl (in_namespace (codes "apply" ∷ codes "-f" ∷ codes "-" ∷ [])) manifest

  abbrev pub rollout_command : Text → Command
  rollout_command resource =
      kubectl
        (in_namespace (
          codes "rollout"
          ∷ codes "status"
          ∷ (codes "deployment/" ++ resource)
          ∷ codes "--timeout=180s"
          ∷ []))
        []

  create_namespace : Task (Unit {0})
  unfolding contains_text trim_space run_kubectl_with_retry
  create_namespace =
      applied
        (created_result
          (codes "create namespace " ++ quoted runtime.namespace ++ codes " failed: "))
        (run_kubectl_with_retry machine
          (kubectl (codes "create" ∷ codes "namespace" ∷ runtime.namespace ∷ []) []))

  abbrev created_unless : Outcome → Task (Unit {0})
  created_unless out h = elim out.error [ none ↦ (done tt, h) | some e ↦ create_namespace h ]

  ensure_namespace : Task (Unit {0})
  unfolding run_kubectl_with_retry create_namespace
  ensure_namespace h =
      let (out, h') =
        run_kubectl_with_retry machine
          (kubectl (codes "get" ∷ codes "namespace" ∷ runtime.namespace ∷ []) []) h in
      created_unless out h'

  abbrev namespace_or_none : Task (Unit {0})
  namespace_or_none h =
      if is_empty runtime.namespace
      then (done tt, h)
      else wrapped (codes "ensure namespace: ") ensure_namespace h

  wait_for_deployment_rollout : Text → Task (Unit {0})
  unfolding run_kubectl_with_retry trim_space
  wait_for_deployment_rollout resource =
      applied (trimmed_result (codes "kubectl rollout status failed: "))
        (run_kubectl_with_retry machine (rollout_command resource))

  -- Half a core and 512 megabytes where the job says nothing.
  abbrev pub manifest_of : Text → Text → Text → ℤ → JobFields → Text
  manifest_of id image subdomain port job =
      generate_manifest runtime.app_base_domain (deployment_resource_name id) image subdomain port
        (int_or (pos 500) job.cpu_cores) (int_or (pos 512) job.memory_mb)

  unfoldable pub create_deployment : Text → Text → Text → ℤ → JobFields → Task (Unit {0})
  unfolding ensure_namespace run_kubectl_with_retry wait_for_deployment_rollout generate_manifest
  create_deployment id image subdomain port job = do
    namespace_or_none
    applied (output_result (codes "kubectl apply failed: "))
        (run_kubectl_with_retry machine (apply_command (manifest_of id image subdomain port job)))
    wait_for_deployment_rollout (deployment_resource_name id)

  abbrev pub image_of : Text → Text
  image_of id = runtime.image_prefix ++ codes "/" ++ id ++ codes ":latest"

  unfoldable pub execute_kubernetes : Text → Text → Text → ℤ → JobFields → Task (Unit {0})
  unfolding clone_repo build_image push_image create_deployment
  execute_kubernetes id repo subdomain port job = do
    wrapped (codes "clone repo: ") (clone_repo repo id)
    wrapped (codes "build image: ") (build_image id (image_of id))
    wrapped (codes "push image: ") (push_image (image_of id))
    wrapped (codes "create deployment: ") (create_deployment id (image_of id) subdomain port job)

  abbrev pub with_port : JobFields → Option ℤ → Program History Execution
  with_port job none h = (panicked, h)
  with_port job (some port) h =
      if text_eq runtime.type (codes "kubernetes")
      then (let (r, h') =
            execute_kubernetes (text_or_empty job.deployment_id) (text_or_empty job.repo)
              (text_or_empty job.subdomain) port job h in
          (returned r, h'))
      else (returned (failed (codes "unsupported runtime: " ++ runtime.type)), h)

  unfoldable pub execute : JobFields → Program History Execution
  unfolding execute_kubernetes text_eq
  execute job = with_port job job.port
