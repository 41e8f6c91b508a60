-- ===== src/Store.antt =====
-- control-plane/internal/store: the repositories.
pub mod Errors
pub mod Jobs
pub mod Workers
pub mod Users
pub mod JobTable
pub mod DeploymentTable
pub mod Repositories
pub mod Memory
pub mod Database
