-- ===== src/Runtime/Runner/Streaming.antt =====
-- The update function of a deployment only listens: both drivers.
use mesh_vpn.Runtime.Docker
use mesh_vpn.Runtime.Kubernetes
use mesh_vpn.Runtime.Host.Hushed.{
  Hushed, always-Hushed, build_image-Hushed, clone_and_check-Hushed, emit-Hushed, failing-Hushed,
  or_section-Hushed, run_command_stream-Hushed, run_or_fail-Hushed, unless-Hushed,
  with_prefix-Hushed, wrapped-Hushed, failing_with-Hushed, hush, mute, succeeding-Hushed, ◌>>~◌,
}
use mesh_vpn.Text.{Text, codes}
use mesh_vpn.Runtime.Host.{DeployArgs, Environment, Host, Build}
use mesh_vpn.Base.{Bool, [], false, refl, ◌++◌, true, ◌∷◌, ◌≡◌}
use mesh_vpn.Runtime.Names.{container_name, image_name, sanitize_subdomain}
use mesh_vpn.Domain.{StringMap}
use mesh_vpn.Runtime.Kubernetes.{KubernetesDriver}
use mesh_vpn.Runtime.Runner.{Driver, docker_driver, kubernetes_driver, run_deploy}

module _ (host : Host) (env : Environment) where
  run_container-Hushed :
      (streams : Bool) (container image subdomain : Text) (args : DeployArgs)
      → Hushed
          (Docker.run_container host env streams container image subdomain args)
          (Docker.run_container host env false container image subdomain args)
  unfolding Docker.run_container
  run_container-Hushed streams container image subdomain args =
      with_prefix-Hushed (run_command_stream-Hushed host env streams [] (codes "docker") _)
        (codes "run container: ")

  ensure_proxy_network-Hushed :
      Hushed (Docker.ensure_proxy_network host env) (Docker.ensure_proxy_network host env)
  unfolding Docker.ensure_proxy_network
  ensure_proxy_network-Hushed =
      unless-Hushed (run_command_stream-Hushed host env false [] (codes "docker") _) (
        wrapped-Hushed (run_or_fail-Hushed host env false [] (codes "docker") _)
          (codes "create proxy network: "))

  docker_result-Hushed :
      (args : DeployArgs) (path : Text)
      → Hushed (Docker.docker_result host env args path) (Docker.docker_result host env args path)
  docker_result-Hushed args path = record { run_at = λ b. refl }

  docker-Hushed :
      (streams : Bool) (args : DeployArgs)
      → Hushed (Docker.deploy_repo host env streams args) (Docker.deploy_repo host env false args)
  unfolding Docker.deploy_repo
  docker-Hushed streams args =
      let image = image_name args.id in
      let container = container_name args.id in
      let subdomain = sanitize_subdomain args.subdomain in
      clone_and_check-Hushed host env streams args >>~ λ path.
      or_section-Hushed ensure_proxy_network-Hushed streams (codes "proxy network") >>~ λ _.
      emit-Hushed streams (codes "build") (codes "image=" ++ image) >>~ λ _.
      always-Hushed (build_image-Hushed host env streams image path args.build_args) >>~ λ built.
      emit-Hushed streams (codes "build output") built.output >>~ λ _.
      failing-Hushed built.error >>~ λ _.
      emit-Hushed streams (codes "run") (codes "container=" ++ container) >>~ λ _.
      always-Hushed (run_container-Hushed streams container image subdomain args) >>~ λ started.
      emit-Hushed streams (codes "run output") started.output >>~ λ _.
      failing-Hushed started.error >>~ λ _. docker_result-Hushed args path

  module _ (driver : KubernetesDriver) where
    prefix_or_fail-Hushed :
        Hushed
          (Kubernetes.prefix_or_fail host env driver)
          (Kubernetes.prefix_or_fail host env driver)
    prefix_or_fail-Hushed = record { run_at = λ b. refl }

    build_and_push_image-Hushed :
        (streams : Bool) (id path : Text) (build_args : StringMap)
        → Hushed
            (Kubernetes.build_and_push_image host env driver streams id path build_args)
            (Kubernetes.build_and_push_image host env driver false id path build_args)
    unfolding Kubernetes.build_and_push_image
    build_and_push_image-Hushed streams id path build_args = prefix_or_fail-Hushed >>~ λ prefix.
        always-Hushed
          (build_image-Hushed host env streams (Kubernetes.image_in prefix id) path build_args)
        >>~ λ built. failing-Hushed built.error >>~ λ _.
            wrapped-Hushed
              (run_or_fail-Hushed host env streams [] (codes "docker")
                (codes "push" ∷ Kubernetes.image_in prefix id ∷ []))
              (codes "push image: ")
            >>~ λ _. succeeding-Hushed (Kubernetes.image_in prefix id)

    ensure_namespace-Hushed :
        Hushed
          (Kubernetes.ensure_namespace host env driver)
          (Kubernetes.ensure_namespace host env driver)
    unfolding Kubernetes.ensure_namespace
    ensure_namespace-Hushed =
        unless-Hushed (run_command_stream-Hushed host env false [] driver.kubectl _) (
          wrapped-Hushed (run_or_fail-Hushed host env false [] driver.kubectl _)
            (codes "ensure namespace " ++ driver.namespace ++ codes ": "))

    kubernetes_result-Hushed :
        (args : DeployArgs) (path image : Text)
        → Hushed
            (Kubernetes.kubernetes_result host env driver args path image)
            (Kubernetes.kubernetes_result host env driver args path image)
    kubernetes_result-Hushed args path image = record { run_at = λ b. refl }

    kubernetes-Hushed :
        (streams : Bool) (args : DeployArgs)
        → Hushed
            (Kubernetes.deploy_repo host env driver streams args)
            (Kubernetes.deploy_repo host env driver false args)
    unfolding Kubernetes.deploy_repo
    kubernetes-Hushed streams args = clone_and_check-Hushed host env streams args >>~ λ path.
        or_section-Hushed (build_and_push_image-Hushed streams args.id path args.build_args) streams
          (codes "image build/push")
        >>~ λ image. emit-Hushed streams (codes "image") image >>~ λ _.
            or_section-Hushed ensure_namespace-Hushed streams (codes "namespace") >>~ λ _.
            always-Hushed (
              run_command_stream-Hushed host env streams
                (Kubernetes.manifest_of host env driver args image) driver.kubectl
                (Kubernetes.apply_args host env driver))
            >>~ λ applied. emit-Hushed streams (codes "kubectl apply") applied.output >>~ λ _.
                failing_with-Hushed (codes "apply k8s manifests: ") applied.error >>~ λ _.
                always-Hushed (
                  run_command_stream-Hushed host env streams [] driver.kubectl
                    (Kubernetes.rollout_args host env driver (codes "app-" ++ args.id)))
                >>~ λ settled. emit-Hushed streams (codes "rollout") settled.output >>~ λ _.
                    failing_with-Hushed (codes "wait deployment rollout: ") settled.error >>~ λ _.
                    kubernetes_result-Hushed args path image

  run_deploy-Hushed :
      (driver : Driver) (streams : Bool) (args : DeployArgs)
      → Hushed (run_deploy host env driver streams args) (run_deploy host env driver false args)
  unfolding run_deploy
  run_deploy-Hushed docker_driver streams args = docker-Hushed streams args
  run_deploy-Hushed (kubernetes_driver driver) streams args = kubernetes-Hushed driver streams args

  -- A deployment with an update function has the same result, runs the same commands and returns the
  -- same log as one without, and one without sends no updates, with either driver.
  pub run_deploy-hush :
      (driver : Driver) (args : DeployArgs) (b : Build)
      → (hush (run_deploy host env driver true args b)
          ≡ run_deploy host env driver false args (mute b))
        × (hush (run_deploy host env driver false args b)
            ≡ run_deploy host env driver false args (mute b))
  run_deploy-hush driver args b = (
    (run_deploy-Hushed driver true args).run_at b,
    (run_deploy-Hushed driver false args).run_at b,
  )
