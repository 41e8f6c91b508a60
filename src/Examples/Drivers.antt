-- ===== src/Examples/Drivers.antt =====
-- The theorems on the drivers of the control plane at concrete data.
use mesh_vpn.Agent.Host.{Outcome, Attempt, Command, done, failed}
use mesh_vpn.Runtime.Host.{Build, DeployArgs, Environment, History, Host, DeploymentResult}
use mesh_vpn.Runtime.Names
use mesh_vpn.Service.Subdomains
use mesh_vpn.Runtime.Kubernetes.{apply_cpu_autoscaling, KubernetesDriver, new_kubernetes_driver}
use mesh_vpn.Text.{Text, codes, text_eq, is_empty, trim_char}
use mesh_vpn.Base.{
  Bool, List, Option, [], arith, false, if◌then◌else◌, none, refl, some, true, ◌∷◌, ◌≡◌, keep,
}
use mesh_vpn.Base.Int.{pos}
use mesh_vpn.Runtime.Runner.{kubernetes_driver, run_deploy}
use mesh_vpn.Runtime.Kubernetes.Scaled.{IsGuarded, apply_cpu_autoscaling-IsGuarded}
use mesh_vpn.Runtime.Runner.Streaming.{run_deploy-hush}
use mesh_vpn.Runtime.Host.Hushed.{hush, mute}
use mesh_vpn.Runtime.Names.Kept.{sanitize_subdomain-kept}

-- A host on which every command prints a line in two writes. `kubectl get` fails.
fails_on_get : History → Command → Option Text
unfolding text_eq
fails_on_get h cmd = if first_is_get cmd.args then some (codes "exit status 1") else none
  where
    first_is_get : List Text → Bool
    first_is_get [] = false
    first_is_get (a ∷ args) = text_eq a (codes "get")

abbrev a_host : Host
a_host = record {
  writes = λ h cmd. codes "step " ∷ cmd.program ∷ [];
  error_of = fails_on_get;
  cannot_make = λ h path. none;
  cannot_remove = λ h path. none;
  exists = λ h path. true;
  apps_directory = done (codes "/srv/apps");
  quote = λ s. s;
  two_decimals = λ n. codes "0.50";
}

abbrev an_environment : Environment
an_environment = record {
  k8s_config_path = codes "/etc/kube";
  kubectl_bin = [];
  app_base_domain = codes "apps.example.org";
  k8s_image_prefix = codes "ghcr.io/Team/";
  traefik_ingress_middleware = [];
  hpa_memory_target_utilization = codes "400";
  hpa_scale_down_stabilization = codes "-5";
  hpa_scale_up_stabilization = codes "ten";
}

abbrev deploy_args : DeployArgs
deploy_args = record {
  repo = codes "https://github.com/u/app";
  id = codes "d1";
  subdomain = codes "My_App";
  port = pos 3000;
  runtime_env = (codes "B", codes "2") ∷ (codes "A", codes "1") ∷ [];
  build_args = [];
  cpu_cores = pos 500;
  memory_mb = pos 512;
}

abbrev a_build : Build
a_build = record { history = []; logs = []; updates = [] }

abbrev a_cluster : KubernetesDriver
a_cluster = new_kubernetes_driver an_environment []

run_deploy-hush_example :
    (hush (run_deploy a_host an_environment (kubernetes_driver a_cluster) true deploy_args a_build)
      ≡ run_deploy a_host an_environment
          (kubernetes_driver a_cluster)
          false
          deploy_args
          (mute a_build))
    × (hush
          (run_deploy a_host an_environment (kubernetes_driver a_cluster) false deploy_args a_build)
        ≡ run_deploy a_host an_environment
            (kubernetes_driver a_cluster)
            false
            deploy_args
            (mute a_build))
run_deploy-hush_example =
    run_deploy-hush a_host an_environment (kubernetes_driver a_cluster) deploy_args a_build

abbrev autoscaled : Outcome × Build
autoscaled =
    apply_cpu_autoscaling a_host an_environment a_cluster (codes "app-d1") (pos 1) (pos 3) (pos 70)
      a_build

apply_cpu_autoscaling-IsGuarded_example :
    IsGuarded a_host an_environment a_cluster
      (codes "app-d1")
      (pos 1)
      (pos 3)
      (pos 70)
      a_build
      autoscaled.0
      autoscaled.1
apply_cpu_autoscaling-IsGuarded_example =
    apply_cpu_autoscaling-IsGuarded a_host an_environment a_cluster (codes "app-d1") (pos 1) (pos 3)
      (pos 70) a_build

sanitize_subdomain-kept_example :
    Names.sanitize_subdomain (Subdomains.sanitize_subdomain (codes " My_App "))
    ≡ Subdomains.sanitize_subdomain (codes " My_App ")
unfolding Subdomains.clean_name Subdomains.drop_dash trim_char keep Subdomains.spell
    Subdomains.is_label_char
sanitize_subdomain-kept_example =
    sanitize_subdomain-kept (codes " My_App ") (omega arith) (omega arith)

-- The deployment ends well, under the name that was asked for.
deployed_url : Attempt DeploymentResult → Text
deployed_url (done result) = result.url
deployed_url (failed e) = e

deploy_run :
    deployed_url
      (run_deploy a_host an_environment (kubernetes_driver a_cluster) true deploy_args a_build).0
    ≡ codes "https://my-app.apps.example.org"
unfolding run_deploy deployed_url fails_on_get is_empty
deploy_run = refl
