-- ===== src/Agent.antt =====
-- The worker agent (worker-agent/internal): the machine that it runs on, the executor that builds and
-- deploys a job, and the agent that claims jobs and reports on them.
pub mod Host
pub mod BuildPaths
pub mod Kubectl
pub mod Manifest
pub mod Executor
pub mod Jobs
