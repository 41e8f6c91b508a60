-- ===== src/Runtime/Runner.antt =====
-- `Runner` of control-plane/internal/runtime/deployer.go, and the choice of its driver in
-- driver_factory.go.
pub mod Streaming
use mesh_vpn.Agent.Host.{Outcome}
use mesh_vpn.Runtime.Docker
use mesh_vpn.Runtime.Kubernetes
use mesh_vpn.Text.{Text, codes, text_eq, to_lower, trim_space}
use mesh_vpn.Store.Errors.{Program}
use mesh_vpn.Base.{Bool, if◌then◌else◌, ◌||◌}
use mesh_vpn.Base.Int.{ℤ}
use mesh_vpn.Runtime.Host.{Build, DeployArgs, DeploymentResult, Environment, Host, Step}
use mesh_vpn.Runtime.Kubernetes.{KubernetesDriver, new_kubernetes_driver}

pub data Driver : Type 0 where
  docker_driver : Driver
  kubernetes_driver : KubernetesDriver → Driver

unfoldable pub new_driver_from_backend : Environment → Text → Text → Driver
unfolding trim_space to_lower text_eq new_kubernetes_driver
new_driver_from_backend env backend namespace =
    let name = to_lower (trim_space backend) in
    if text_eq name (codes "k8s") || text_eq name (codes "kubernetes") || text_eq name (codes "k3s")
    then kubernetes_driver (new_kubernetes_driver env namespace)
    else docker_driver

module _ (host : Host) (env : Environment) where
  -- `DeployRepo` where `streams` is false, `DeployRepoWithUpdates` where it is true.
  unfoldable pub run_deploy : Driver → Bool → DeployArgs → Step DeploymentResult
  unfolding Docker.deploy_repo Kubernetes.deploy_repo
  run_deploy docker_driver streams args = Docker.deploy_repo host env streams args
  run_deploy (kubernetes_driver driver) streams args =
      Kubernetes.deploy_repo host env driver streams args

  unfoldable pub run_container_logs : Driver → Text → ℤ → Program Build Outcome
  unfolding Docker.container_logs Kubernetes.container_logs
  run_container_logs docker_driver container tail = Docker.container_logs host env container tail
  run_container_logs (kubernetes_driver driver) container tail =
      Kubernetes.container_logs host env driver container tail

  unfoldable pub run_cpu_autoscaling : Driver → Text → ℤ → ℤ → ℤ → Program Build Outcome
  unfolding Docker.apply_cpu_autoscaling Kubernetes.apply_cpu_autoscaling
  run_cpu_autoscaling docker_driver workload min max utilization = Docker.apply_cpu_autoscaling
  run_cpu_autoscaling (kubernetes_driver driver) workload min max utilization =
      Kubernetes.apply_cpu_autoscaling host env driver workload min max utilization
