-- ===== src/Runtime.antt =====
-- control-plane/internal/runtime: the drivers that deploy a repository for the control plane, with
-- docker (docker_driver.go) or on a Kubernetes cluster (kubernetes_driver.go), and what both use of
-- deployer.go.
pub mod Host
pub mod Cloning
pub mod Names
pub mod Docker
pub mod Workload
pub mod Hpa
pub mod Kubernetes
pub mod Runner
