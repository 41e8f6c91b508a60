-- ===== src/Runtime/Docker.antt =====
-- The driver of control-plane/internal/runtime/docker_driver.go.
use mesh_vpn.Agent.Host.{Outcome, wrapped, ◌>>=◌, ◌>>◌, done, wrapped}
use mesh_vpn.Text.{Text, codes}
use mesh_vpn.Store.Errors.{Program}
use mesh_vpn.Store.JobTable.{started}
use mesh_vpn.Runtime.Host.{
  Build, DeployArgs, DeploymentResult, Environment, Host, Step, always, emit_build_section, failing,
  or_section, run_command, run_command_stream, run_or_fail, with_prefix, tail_or_default,
  unless_failed,
}
use mesh_vpn.Runtime.Cloning.{assignments, build_image, clone_and_check}
use mesh_vpn.Base.{Bool, List, [], false, if◌then◌else◌, none, ◌++◌, ◌∷◌}
use mesh_vpn.Base.Int.{lt_ℤ, pos, ℤ}
use mesh_vpn.Runtime.Names.{
  base_domain, container_name, deployment_host, deployment_url, image_name, sanitize_subdomain,
}
use mesh_vpn.Text.Numbers.{show_ℤ}

abbrev proxy_network_name : Text
proxy_network_name = codes "laptopcloud-proxy"

abbrev label : Text → List Text
label value = codes "--label" ∷ value ∷ []

abbrev router_labels : Text → Text → Text → ℤ → List Text
router_labels router service host port =
    label (codes "traefik.enable=true")
    ++ label (codes "traefik.docker.network=" ++ proxy_network_name)
    ++ label (codes "traefik.http.routers." ++ router ++ codes ".rule=Host(`" ++ host ++ codes "`)")
    ++ label (codes "traefik.http.routers." ++ router ++ codes ".entrypoints=web")
    ++ label (codes "traefik.http.routers." ++ router ++ codes ".service=" ++ service)
    ++ label (
        codes "traefik.http.services."
        ++ service
        ++ codes ".loadbalancer.server.port="
        ++ show_ℤ port)

module _ (host : Host) (env : Environment) where
  abbrev cpu_limit : ℤ → List Text
  cpu_limit cores = if lt_ℤ (pos 0) cores then codes "--cpus" ∷ host.two_decimals cores ∷ [] else []

  abbrev memory_limit : ℤ → List Text
  memory_limit mb = if lt_ℤ (pos 0) mb then codes "--memory" ∷ (show_ℤ mb ++ codes "m") ∷ [] else []

  unfoldable pub run_args : Text → Text → Text → DeployArgs → List Text
  unfolding assignments show_ℤ base_domain
  run_args container image subdomain args =
      (codes "run"
        ∷ codes "-d"
        ∷ codes "--name"
        ∷ container
        ∷ codes "--restart"
        ∷ codes "unless-stopped"
        ∷ codes "--network"
        ∷ proxy_network_name
        ∷ [])
      ++ router_labels (codes "router-" ++ container) (codes "service-" ++ container)
          (deployment_host env.app_base_domain subdomain) args.port
      ++ assignments (codes "-e") args.runtime_env
      ++ cpu_limit args.cpu_cores
      ++ memory_limit args.memory_mb
      ++ image ∷ []

  -- `runContainerWithStream`
  unfoldable pub run_container : Bool → Text → Text → Text → DeployArgs → Program Build Outcome
  unfolding run_args run_command_stream
  run_container streams container image subdomain args = with_prefix (codes "run container: ") (
      run_command_stream host env streams [] (codes "docker")
        (run_args container image subdomain args))

  abbrev network_args : Text → List Text
  network_args action = codes "network" ∷ action ∷ proxy_network_name ∷ []

  unfoldable pub ensure_proxy_network : Step (Unit {0})
  unfolding run_command_stream
  ensure_proxy_network b =
      unless_failed (run_command host env (codes "docker") (network_args (codes "inspect")) b) (
        wrapped (codes "create proxy network: ")
          (run_or_fail host env false [] (codes "docker") (network_args (codes "create"))))

  abbrev pub docker_result : DeployArgs → Text → Step DeploymentResult
  docker_result args path b =
      let subdomain = sanitize_subdomain args.subdomain in
      (
        done (record {
          deployment_id = args.id;
          repo = args.repo;
          repo_path = path;
          image = image_name args.id;
          container = container_name args.id;
          subdomain = subdomain;
          url = deployment_url env.app_base_domain subdomain;
          port = args.port;
          build_logs = b.logs;
        }),
        b,
      )

  unfoldable pub deploy_repo : Bool → DeployArgs → Step DeploymentResult
  unfolding clone_and_check ensure_proxy_network emit_build_section build_image run_container
      sanitize_subdomain deployment_url
  deploy_repo streams args =
      let image = image_name args.id in
      let container = container_name args.id in
      do
        path ← clone_and_check host env streams args
        or_section streams (codes "proxy network") ensure_proxy_network
        emit_build_section streams (codes "build") (codes "image=" ++ image)
        built ← always (build_image host env streams image path args.build_args)
        emit_build_section streams (codes "build output") built.output
        failing built.error
        emit_build_section streams (codes "run") (codes "container=" ++ container)
        started ←
            always (run_container streams container image (sanitize_subdomain args.subdomain) args)
        emit_build_section streams (codes "run output") started.output
        failing started.error
        docker_result args path

  unfoldable pub container_logs : Text → ℤ → Program Build Outcome
  unfolding run_command_stream show_ℤ
  container_logs container tail = with_prefix (codes "get container logs: ") (
      run_command host env (codes "docker")
        (codes "logs" ∷ codes "--tail" ∷ show_ℤ (tail_or_default tail) ∷ container ∷ []))

unfoldable pub apply_cpu_autoscaling : Program Build Outcome
apply_cpu_autoscaling b =
    (record { output = codes "docker backend does not use HPA"; error = none }, b)
