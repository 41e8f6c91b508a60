-- ===== src/Examples/Agents.antt =====
-- The theorems on the worker agent at concrete data.
use mesh_vpn.Agent.Jobs.{Config, start, given_job}
use mesh_vpn.Agent.Host.{
  Outcome, History, done, Command, Entry, Machine, cons, file, folder, nil, ran, slept,
}
use mesh_vpn.Text.{codes, contains_text, text_eq, to_lower, trim_space}
use mesh_vpn.Base.{List, [], false, if◌then◌else◌, length, ltb, none, refl, some, ◌&&◌, ◌∷◌, ◌≡◌}
use mesh_vpn.Base.Int.{pos}
use mesh_vpn.Agent.BuildPaths.{resolve_build_paths}
use mesh_vpn.Agent.Jobs.{Client, Tick, heartbeat_tick, job_step, new_agent, response}
use mesh_vpn.Agent.Executor.{JobFields, RuntimeConfig, execute_kubernetes}
use mesh_vpn.Agent.Kubectl.{kubectl_command, run_kubectl_with_retry}
use mesh_vpn.Agent.BuildPaths.Chosen.{Chooses, resolve_build_paths-Chooses}
use mesh_vpn.Agent.Jobs.Reported.{IsTracked, start-IsTracked}
use mesh_vpn.Agent.Executor.Pipeline.{Outcomes, execute_kubernetes-Outcomes}
use mesh_vpn.Agent.Kubectl.Retries.{EndsFrom, run_kubectl_with_retry-EndsFrom}

-- A machine on which kubectl fails at first, with an error that is worth a retry.
abbrev pub good : Outcome
good = record { output = codes "ok"; error = none }

abbrev pub timed_out : Outcome
timed_out = record { output = codes "i/o timeout"; error = some (codes "exit status 1") }

pub answer_once : History → Command → Outcome
unfolding text_eq
answer_once h cmd =
    if text_eq cmd.program (codes "kubectl") && ltb (length h) 5 then timed_out else good

-- A repository with a Dockerfile in one directory, and another among its dependencies.
abbrev pub a_tree : Entry
a_tree = folder (codes "d1") (
    cons (file (codes "README.md")) (
      cons (folder (codes "node_modules") (cons (file (codes "Dockerfile")) nil))
        (cons (folder (codes "web") (cons (file (codes "Dockerfile")) nil)) nil)))

abbrev pub a_machine : Machine
a_machine = record {
  answer = answer_once;
  cannot_remove = λ h path. none;
  exists = λ h path. false;
  tree = λ h path. some a_tree;
}

abbrev pub a_runtime : RuntimeConfig
a_runtime = record {
  type = codes "kubernetes";
  kubeconfig = [];
  namespace = [];
  kubectl_bin = [];
  image_prefix = codes "ghcr.io/team";
  app_base_domain = [];
}

abbrev job_fields : JobFields
job_fields = record {
  job_id = some (codes "j1");
  deployment_id = some (codes "d1");
  repo = some (codes "https://github.com/u/app");
  subdomain = some (codes "app");
  port = some (pos 3000);
  cpu_cores = none;
  memory_mb = none;
}

abbrev get_pods : Command
get_pods = kubectl_command [] (codes "kubectl") (codes "get" ∷ codes "pods" ∷ []) []

run_kubectl_with_retry-EndsFrom_example :
    let (out, h') = run_kubectl_with_retry a_machine get_pods [] in EndsFrom get_pods 1 [] out h'
run_kubectl_with_retry-EndsFrom_example = run_kubectl_with_retry-EndsFrom a_machine get_pods []

-- Two attempts, each of which failed and was waited for, and a third that was the last.
retry_runs :
    (run_kubectl_with_retry a_machine get_pods []).1
    ≡ ran get_pods timed_out
      ∷ slept 1
      ∷ ran get_pods timed_out
      ∷ slept 2
      ∷ ran get_pods timed_out
      ∷ []
unfolding run_kubectl_with_retry answer_once contains_text to_lower trim_space
retry_runs = refl

resolve_build_paths-Chooses_example :
    Chooses
      (codes "/tmp/d1")
      false
      (some a_tree)
      (resolve_build_paths (codes "/tmp/d1") false (some a_tree))
resolve_build_paths-Chooses_example =
    resolve_build_paths-Chooses (codes "/tmp/d1") false (some a_tree)

resolve_runs :
    resolve_build_paths (codes "/tmp/d1") false (some a_tree)
    ≡ done
        (record { dockerfile_path = codes "/tmp/d1/web/Dockerfile"; context = codes "/tmp/d1/web" })
unfolding resolve_build_paths
resolve_runs = refl

execute_kubernetes-Outcomes_example :
    let (r, h') =
      execute_kubernetes a_machine a_runtime
        (codes "d1")
        (codes "https://github.com/u/app")
        (codes "app")
        (pos 3000)
        job_fields
        [] in
    Outcomes a_machine a_runtime
      (codes "d1")
      (codes "https://github.com/u/app")
      (codes "app")
      (pos 3000)
      job_fields
      []
      r
      h'
execute_kubernetes-Outcomes_example =
    execute_kubernetes-Outcomes a_machine a_runtime (codes "d1") (codes "https://github.com/u/app")
      (codes "app") (pos 3000) job_fields []

abbrev pub a_config : Config
a_config = record {
  worker_id = codes "w1";
  worker_name = codes "laptop";
  tailscale_ip = codes "100.64.0.1";
  max_concurrent_jobs = pos 1;
  memory_gb = pos 8;
  cpu_cores = pos 4;
  supported_packages = [];
  url = codes "http://cp";
  runtime = a_runtime;
}

-- Every claim is given the job.
abbrev a_client : Client
a_client = record {
  answer = λ xs req. response 200 (codes "{}");
  decode_claim = λ body. given_job job_fields;
}

abbrev some_ticks : List Tick
some_ticks = job_step ∷ heartbeat_tick ∷ job_step ∷ heartbeat_tick ∷ job_step ∷ job_step ∷ []

start-IsTracked_example :
    IsTracked a_config a_client
      (start a_config a_client a_machine (codes "host") some_ticks new_agent)
start-IsTracked_example = start-IsTracked a_config a_client a_machine (codes "host") some_ticks
