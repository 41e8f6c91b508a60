-- ===== src/Fleet.antt =====
-- The two sides of the workers' API joined: the agent of worker-agent/internal/agent/agent.go, the routes
-- of control-plane/internal/httpapi/router.go and the handlers of workers.go behind them.
pub mod Routes
pub mod Joined
pub mod Queue
pub mod Served
pub mod Agreement
pub mod Claims
pub mod Steps
pub mod Settled
pub mod Outcome
pub mod Stored
pub mod Progress
