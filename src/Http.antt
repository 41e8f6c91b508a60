-- ===== src/Http.antt =====
-- The modules of control-plane/internal/httpapi.
pub mod Replies
pub mod WorkerHandler
pub mod Listing
pub mod Telemetry
pub mod Auth
pub mod LogHandlers
pub mod DeployHandler
