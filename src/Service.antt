-- ===== src/Service.antt =====
-- The modules of control-plane/internal/service.
pub mod Requests
pub mod Autoscaling
pub mod Subdomains
pub mod Building
pub mod Deployments
pub mod Placement
pub mod Requeue
pub mod Reconcile
pub mod Distributor
pub mod LiveLogs
pub mod DeploymentWorker
