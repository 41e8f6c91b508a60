-- ===== src/Runtime/Kubernetes.antt =====
-- The driver of control-plane/internal/runtime/kubernetes_driver.go.
pub mod Scaled
use mathlib.Core.List.{reverse}
use mesh_vpn.Agent.Host.{◌>>=◌, ◌>>◌, done, failed, wrapped, Attempt, Outcome}
use mesh_vpn.Domain.{StringMap}
use mesh_vpn.Text.{Text, codes, contains_char, is_empty, to_lower, trim_left, trim_space}
use mesh_vpn.Store.Errors.{Program}
use mesh_vpn.Runtime.Host.{
  Build, DeployArgs, DeploymentResult, Environment, Host, Step, always, emit_build_section, failing,
  failing_with, or_section, run_command, run_command_stream, run_or_fail, succeeding, with_prefix,
  tail_or_default, unless_failed,
}
use mesh_vpn.Runtime.Cloning.{build_image, clone_and_check}
use mesh_vpn.Base.{Bool, List, [], false, if◌then◌else◌, some, ◌++◌, ◌==◌, ◌∷◌}
use mesh_vpn.Base.Int.{ℤ}
use mesh_vpn.Runtime.Names.{base_domain, deployment_host, deployment_url, sanitize_subdomain}
use mesh_vpn.Runtime.Workload.{render_workload_manifest}
use mesh_vpn.Runtime.Hpa.{Scaling, checked_scaling, hpa_manifest}
use mesh_vpn.Text.Numbers.{show_ℤ}
use mesh_vpn.Agent.Executor.{applied, kubectl}

pub record KubernetesDriver : Type 0 where
  pub namespace : Text
  pub kubectl : Text

abbrev or_text : Text → Text → Text
or_text default t = if is_empty t then default else t

unfoldable pub new_kubernetes_driver : Environment → Text → KubernetesDriver
unfolding trim_space
new_kubernetes_driver env namespace = record {
  namespace = or_text (codes "default") namespace;
  kubectl = or_text (codes "kubectl") (trim_space env.kubectl_bin);
}

-- `strings.TrimRight(s, "/")`
unfoldable pub trim_slashes : Text → Text
unfolding trim_left
trim_slashes s = reverse (trim_left (λ c. c == b'/') (reverse s))

abbrev spaceless : Text → Attempt Text
spaceless prefix =
    if contains_char b' ' prefix
    then failed (codes "invalid K8S_IMAGE_PREFIX: must not contain spaces")
    else done prefix

-- The repository of images, or the error that it is missing or has a space.
unfoldable pub image_prefix : Text → Attempt Text
unfolding trim_space to_lower trim_slashes contains_char
image_prefix raw =
    if is_empty (trim_space raw)
    then failed (codes "K8S_IMAGE_PREFIX is required for kubernetes backend")
    else spaceless (to_lower (trim_slashes (trim_space raw)))

abbrev pub image_in : Text → Text → Text
image_in prefix id = prefix ++ codes "/laptopcloud-" ++ id ++ codes ":" ++ id

module _ (host : Host) (env : Environment) (driver : KubernetesDriver) where
  abbrev in_namespace : List Text → List Text
  in_namespace args = codes "-n" ∷ driver.namespace ∷ args

  abbrev pub prefix_or_fail : Step Text
  prefix_or_fail b = (image_prefix env.k8s_image_prefix, b)

  -- `buildAndPushImageWithStream`
  unfoldable pub build_and_push_image : Bool → Text → Text → StringMap → Step Text
  unfolding image_prefix build_image run_command_stream
  build_and_push_image streams id path build_args = do
    prefix ← prefix_or_fail
    built ← always (build_image host env streams (image_in prefix id) path build_args)
    failing built.error
    wrapped (codes "push image: ")
        (run_or_fail host env streams [] (codes "docker") (codes "push" ∷ image_in prefix id ∷ []))
    succeeding (image_in prefix id)

  abbrev pub namespace_args : Text → List Text
  namespace_args action = action ∷ codes "namespace" ∷ driver.namespace ∷ []

  unfoldable pub ensure_namespace : Step (Unit {0})
  unfolding run_command_stream
  ensure_namespace b =
      unless_failed (run_command host env driver.kubectl (namespace_args (codes "get")) b) (
        wrapped (codes "ensure namespace " ++ driver.namespace ++ codes ": ")
          (run_or_fail host env false [] driver.kubectl (namespace_args (codes "create"))))

  abbrev pub apply_args : List Text
  apply_args = in_namespace (codes "apply" ∷ codes "-f" ∷ codes "-" ∷ [])

  abbrev pub rollout_args : Text → List Text
  rollout_args deployment = in_namespace (
      codes "rollout"
      ∷ codes "status"
      ∷ (codes "deployment/" ++ deployment)
      ∷ codes "--timeout=600s"
      ∷ [])

  abbrev pub manifest_of : DeployArgs → Text → Text
  manifest_of args image =
      render_workload_manifest host.quote env.traefik_ingress_middleware args.id
        (deployment_host env.app_base_domain (sanitize_subdomain args.subdomain)) image args

  abbrev pub kubernetes_result : DeployArgs → Text → Text → Step DeploymentResult
  kubernetes_result args path image b =
      let subdomain = sanitize_subdomain args.subdomain in
      (
        done (record {
          deployment_id = args.id;
          repo = args.repo;
          repo_path = path;
          image = image;
          container = codes "app-" ++ args.id;
          subdomain = subdomain;
          url = deployment_url env.app_base_domain subdomain;
          port = args.port;
          build_logs = b.logs;
        }),
        b,
      )

  unfoldable pub deploy_repo : Bool → DeployArgs → Step DeploymentResult
  unfolding clone_and_check build_and_push_image emit_build_section ensure_namespace
      render_workload_manifest run_command_stream sanitize_subdomain deployment_url base_domain
  deploy_repo streams args = do
    path ← clone_and_check host env streams args
    image ←
        or_section streams (codes "image build/push")
          (build_and_push_image streams args.id path args.build_args)
    emit_build_section streams (codes "image") image
    or_section streams (codes "namespace") ensure_namespace
    applied ←
        always
          (run_command_stream host env streams (manifest_of args image) driver.kubectl apply_args)
    emit_build_section streams (codes "kubectl apply") applied.output
    failing_with (codes "apply k8s manifests: ") applied.error
    settled ← always (
        run_command_stream host env streams [] driver.kubectl
          (rollout_args (codes "app-" ++ args.id)))
    emit_build_section streams (codes "rollout") settled.output
    failing_with (codes "wait deployment rollout: ") settled.error
    kubernetes_result args path image

  unfoldable pub container_logs : Text → ℤ → Program Build Outcome
  unfolding run_command_stream show_ℤ
  container_logs container tail = with_prefix (codes "get deployment logs: ") (
      run_command host env driver.kubectl (
        in_namespace (
          codes "logs"
          ∷ (codes "deployment/" ++ container)
          ∷ codes "--tail"
          ∷ show_ℤ (tail_or_default tail)
          ∷ codes "--all-containers=true"
          ∷ [])))

  abbrev pub apply_scaling : Text → Attempt Scaling → Program Build Outcome
  apply_scaling workload (failed e) b = (record { output = []; error = some e }, b)
  apply_scaling workload (done scaling) b =
      with_prefix (codes "apply hpa: ")
        (run_command_stream host env false (hpa_manifest workload scaling) driver.kubectl
          apply_args)
        b

  unfoldable pub apply_cpu_autoscaling : Text → ℤ → ℤ → ℤ → Program Build Outcome
  unfolding checked_scaling hpa_manifest run_command_stream
  apply_cpu_autoscaling workload min max utilization =
      apply_scaling workload (checked_scaling env workload min max utilization)
