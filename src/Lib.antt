-- ===== src/Lib.antt =====
-- MeshVPN: a control plane that takes requests for deployments, queues a job for each, places the jobs
-- on worker nodes and moves deployments off workers that fail; a worker agent that builds and starts
-- the deployments of its node; and two tools, a router that sends the traffic of a deployment to its
-- worker and a forwarder that reports that traffic to the control plane.
--
-- How the parts work together. A request reaches Http.DeployHandler (control-
-- plane/internal/httpapi/handlers.go) and passes Service.Building and Service.Deployments
-- (EnqueueDeploy of control-plane/internal/service/deployments.go): it is normalised
-- (Service.Autoscaling, for autoscaling_policy.go), given a name (Service.Subdomains), stored as a
-- record and enqueued as a job. A distributor (distributor.go) asks on every tick for a queued job
-- without a worker, chooses a worker (Service.Placement), assigns the job (Service.Distributor), and
-- looks after workers that fall silent and deployments whose worker is offline or outdone
-- (Service.Requeue, Service.Reconcile). A worker of the control plane runs a job itself
-- (Service.DeploymentWorker and Service.LiveLogs, for worker.go), with the drivers of Runtime
-- (control-plane/internal/runtime: Runtime.Docker, Runtime.Kubernetes, and what they share in
-- Runtime.Host, Runtime.Cloning and Runtime.Names); a remote one claims jobs and reports on them
-- through Http.WorkerHandler (httpapi/workers.go). On its side is Agent: Agent.Jobs (worker-
-- agent/internal/agent/agent.go) claims, runs and reports a job, and Agent.Executor (executor.go, with
-- Agent.BuildPaths, Agent.Kubectl and Agent.Manifest) clones, builds, pushes and applies it. Fleet
-- joins the two sides: Fleet.Routes (the routes of /api/workers in httpapi/router.go, and what the
-- handlers bind) and Fleet.Joined, where an agent's client asks these routes, while the rest of the
-- control plane acts between two requests. Http.Auth (control-plane/internal/auth/middleware.go) lets
-- in the requests of users, and keeps them in the table of Store.Users (store/postgres_users.go);
-- Http.LogHandlers (handlers.go) serves the logs of a deployment to its owner, Http.Listing
-- (handlers.go) the list of deployments, and Http.Telemetry (handlers_telemetry.go) records the
-- requests that a forwarder reports. Router (tools/mesh-router/main.go) looks up the address of the
-- worker that a name runs on, and caches it. Forwarder (tools/traffic-forwarder/main.go) takes the
-- name of a deployment from a line of the access log of Traefik (Forwarder.Traefik,
-- Forwarder.LogLines, Forwarder.Hosts), and sends events in batches (Forwarder.Sender).
--
-- The stores stand behind the interfaces of Store.Repositories, over any state `S`: a method is a
-- function from a state to its result and the state that it leaves, on error paths too. Without a
-- database they are the in-memory ones: Store.Jobs (the queue of control-plane/internal/store/jobs.go)
-- and Store.Memory (repository.go). With one they are the Postgres ones: Store.JobTable (jobs.go),
-- Store.Workers (workers.go) and Store.DeploymentTable (postgres_deployments.go), each a table as a
-- list of rows with one function for a statement; Store.Database puts these under transactions and a
-- driver that fails as a list of faults says. Store.Repositories.Laws states what the services rely
-- on, and Store.Memory.Lawful proves it of the in-memory stores.
--
-- Domain has the records of control-plane/internal/domain. Base and Text have what the parts share:
-- lists, integers, a stable sort, and texts as lists of code points with the functions of Go's
-- packages strings and strconv. Examples applies the theorems to concrete data.
--
-- What is chosen. Go's int is the unbounded `ℤ`: the numbers that the model holds in it come from
-- 32-bit columns and sums of a few of them, so 64-bit sums do not wrap. CPU cores, a float64, are held
-- in thousandths. Time is an argument, in Store.DeploymentTable in nanoseconds. Ids of the UUID
-- library are arguments, and for Service.DeploymentWorker what the runner of a deployment logs and
-- returns. Loops are structural recursion on the list that they walk over, so that no fuel is needed.
-- Upper and lower case are those of ASCII and of the letters that fold to it. Ties of an ORDER BY keep
-- the order of the rows. What the agent runs and asks (git, docker, kubectl, files, HTTP) is answered
-- by a machine, a function of the tasks done so far (Agent.Host), so that a theorem holds of every
-- answer; and so are the commands of the drivers (Runtime.Host). The retries of kubectl are a
-- recursion on the three rounds that are left. The counters of the forwarder are 64-bit and wrap. Logs
-- are texts, and what a stream reads is an argument. In Fleet each exchange is delivered, or its
-- request or its answer is lost; Fleet.Queue says what is asked of the repositories, and Fleet.Stored
-- gives it for the Postgres ones; encoding/json is a codec with laws. The JWT library, the decoder of
-- JSON, ParseDuration, time.Parse and ParseIP are arguments.
--
-- What is not modelled: log lines and metrics; analytics, which are counts of samples; the handlers
-- that only read a request and write JSON; the configuration and the wiring of the programs; the
-- migrations, the scripts and the generated documentation; the proxy behind the router's look-up; SQL
-- text and JSON text, which stand for the rows and the records.
pub mod Agent
pub mod Base
pub mod Text
pub mod Domain
pub mod Store
pub mod Runtime
pub mod Service
pub mod Http
pub mod Router
pub mod Forwarder
pub mod Fleet
pub mod Examples
