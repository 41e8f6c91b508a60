-- ===== src/Agent/Kubectl.antt =====
-- `runKubectlWithRetry` and what it calls, of worker-agent/internal/executor/executor.go.
pub mod Retries
use mesh_vpn.Text.{Text, codes, contains_text, is_empty, to_lower, trim_space}
use mesh_vpn.Store.Errors.{◌>>=◌, ◌>>◌, Program, pure}
use mesh_vpn.Base.{
  Bool, List, Option, [], false, if◌then◌else◌, none, not, some, suc, zero, ℕ, ◌&&◌, ◌++◌, ◌+◌,
  ◌==◌, ◌||◌, ◌∷◌,
}
use mesh_vpn.Agent.Host.{Command, Machine, sleep, History, Outcome, run}

abbrev transient_markers : List Text
transient_markers =
    codes "unable to connect to the server"
    ∷ codes "connection reset by peer"
    ∷ codes "context deadline exceeded"
    ∷ codes "i/o timeout"
    ∷ codes "tls handshake timeout"
    ∷ codes "eof"
    ∷ codes "connection refused"
    ∷ []

contains_any : Text → List Text → Bool
unfolding contains_text
contains_any s [] = false
contains_any s (marker ∷ markers) = contains_text marker s || contains_any s markers

unfoldable pub is_transient_kubectl_error : Text → Text → Bool
unfolding contains_any to_lower trim_space
is_transient_kubectl_error output e =
    contains_any (to_lower (trim_space (e ++ codes " " ++ output))) transient_markers

-- The command of an attempt: `kubectlEnv` adds the path of a configuration that is set.
abbrev pub kubectl_env : Text → Option Text
kubectl_env kubeconfig = if is_empty kubeconfig then none else some kubeconfig

abbrev pub kubectl_command : Text → Text → List Text → Text → Command
kubectl_command kubeconfig bin args stdin = record {
  program = bin;
  args = args;
  stdin = stdin;
  kubeconfig = kubectl_env kubeconfig;
}

-- Whether an attempt failed with an error that is worth another attempt.
unfoldable pub is_transient_failure : Outcome → Bool
unfolding is_transient_kubectl_error
is_transient_failure out = elim out.error [
  | none ↦ false
  | some e ↦ is_transient_kubectl_error out.output e
]

module _ (machine : Machine) (cmd : Command) where
  abbrev pub after_attempt : ℕ → Program History Outcome → Outcome → Program History Outcome
  after_attempt attempt again out =
      if is_transient_failure out && not (attempt == 3)
      then sleep machine attempt >> again
      else pure out

  -- The loop from an attempt on, with the rounds that are left and the last outcome.
  unfoldable pub attempts_from : ℕ → ℕ → Outcome → Program History Outcome
  attempts_from zero attempt last = pure last
  attempts_from (suc rounds) attempt last = do
    out ← run machine cmd
    after_attempt attempt (attempts_from rounds (attempt + 1) out) out

  unfoldable pub run_kubectl_with_retry : Program History Outcome
  unfolding attempts_from is_transient_failure
  run_kubectl_with_retry = attempts_from 3 1 (record { output = []; error = none })
