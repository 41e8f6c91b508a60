-- ===== src/Runtime/Host.antt =====
-- Commands of control-plane/internal/runtime/deployer.go, and the build log that the drivers write. What
-- a command prints, in which writes, and whether it fails is a function of all that was done before.
pub mod Hushed
use mesh_vpn.Agent.BuildPaths.{join, joined}
use mathlib.Core.List.{reverse}
use mesh_vpn.Agent.Host.{Outcome, Command, Attempt, wrapped, ◌>>=◌, ◌>>◌, done, failed}
use mesh_vpn.Domain.{StringMap}
use mesh_vpn.Text.{
  Text, codes, has_prefix, is_empty, last_part, text_eq, text_lt, trim_left, trim_space,
}
use mesh_vpn.Store.Errors.{Program}
use mesh_vpn.Base.{
  Bool, List, Option, [], false, if◌then◌else◌, keep, none, not, some, ◌&&◌, ◌++◌, ◌==◌, ◌∷◌,
}
use mesh_vpn.Base.Int.{ℤ, le_ℤ, pos}
use mesh_vpn.Base.Sorting.{sort_by}

-- The variables of the environment that the drivers read.
pub record Environment : Type 0 where
  pub k8s_config_path : Text
  pub kubectl_bin : Text
  pub app_base_domain : Text
  pub k8s_image_prefix : Text
  pub traefik_ingress_middleware : Text
  pub hpa_memory_target_utilization : Text
  pub hpa_scale_down_stabilization : Text
  pub hpa_scale_up_stabilization : Text

pub data Event : Type 0 where
  ran : Command → Outcome → Event
  made removed : Text → Event

abbrev pub History : Type 0
History = List Event

-- `quote` and `two_decimals` are `%q`, and `%.2f` of a number that is held in thousandths.
pub record Host : Type 0 where
  pub writes : History → Command → List Text
  pub error_of : History → Command → Option Text
  pub cannot_make : History → Text → Option Text
  pub cannot_remove : History → Text → Option Text
  pub exists : History → Text → Bool
  pub apps_directory : Attempt Text
  pub quote : Text → Text
  pub two_decimals : ℤ → Text

-- `logs` is the builder of the log that is returned, `updates` what `onUpdate` was called with.
pub record Build : Type 0 where
  pub history : History
  pub logs : Text
  pub updates : List Text

abbrev pub Step : Type 0 → Type 0
Step A = Program Build (Attempt A)

-- The arguments of `DeployRepo`. CPU cores are held in thousandths.
pub record DeployArgs : Type 0 where
  pub repo : Text
  pub id : Text
  pub subdomain : Text
  pub port : ℤ
  pub runtime_env : StringMap
  pub build_args : StringMap
  pub cpu_cores : ℤ
  pub memory_mb : ℤ

pub record DeploymentResult : Type 0 where
  pub deployment_id : Text
  pub repo : Text
  pub repo_path : Text
  pub image : Text
  pub container : Text
  pub subdomain : Text
  pub url : Text
  pub port : ℤ
  pub build_logs : Text

-- `AppendSection` on an empty builder. The source escapes its backslashes: a line ends with a backslash
-- and an n.
abbrev pub line_end : Text
line_end = b'\\' ∷ b'n' ∷ []

abbrev ended : Text → Text
ended content =
    if has_prefix (reverse line_end) (reverse content) then content else content ++ line_end

unfoldable pub append_section : Text → Text → Text
unfolding trim_space has_prefix
append_section title content =
    codes "=== "
    ++ title
    ++ codes " ==="
    ++ line_end
    ++ (if is_empty (trim_space content)
        then codes "(no output)" ++ line_end ++ line_end
        else ended content ++ line_end)

-- `streams` says whether there is an `onUpdate`.
abbrev pub told : Bool → List Text → Build → Build
told streams chunks b = if streams then record b { updates = b.updates ++ chunks } else b

unfoldable pub emit_build_section : Bool → Text → Text → Step (Unit {0})
unfolding append_section
emit_build_section streams title content b =
    let chunk = append_section title content in
    (done tt, told streams (chunk ∷ []) (record b { logs = b.logs ++ chunk }))

-- The error of a step is a section of the log as well.
abbrev pub or_section : {A : Type 0} → Bool → Text → Step A → Step A
or_section streams title m b =
    let (r, b') = m b in
    elim r [
      | done a ↦ (done a, b')
      | failed e ↦ (failed e, (emit_build_section streams title e b').1)
    ]

abbrev pub failing : Option Text → Step (Unit {0})
failing none b = (done tt, b)
failing (some e) b = (failed e, b)

abbrev pub failing_with : Text → Option Text → Step (Unit {0})
failing_with text none b = (done tt, b)
failing_with text (some e) b = (failed (text ++ e), b)

-- What a function returns that has an output beside its error.
abbrev pub returning : Outcome → Step (Unit {0})
returning out = failing out.error

-- `filepath.Base(name) == "kubectl"`
unfoldable pub is_kubectl : Text → Bool
unfolding text_eq last_part trim_left
is_kubectl name =
    text_eq (last_part b'/' (reverse (trim_left (λ c. c == b'/') (reverse name)))) (codes "kubectl")

-- The output of a command stays beside a longer error.
abbrev prefixed : Text → Outcome → Outcome
prefixed text out = elim out.error [ none ↦ out | some e ↦ record out { error = some (text ++ e) } ]

abbrev pub with_prefix : Text → Program Build Outcome → Program Build Outcome
with_prefix text m b = let (out, b') = m b in (prefixed text out, b')

abbrev pub always : {A : Type 0} → Program Build A → Step A
always m b = let (a, b') = m b in (done a, b')

abbrev pub succeeding : {A : Type 0} → A → Step A
succeeding a b = (done a, b)

-- A second command where the first one failed.
abbrev pub unless_failed : Outcome × Build → Step (Unit {0}) → Attempt (Unit {0}) × Build
unless_failed (out, b) k = elim out.error [ none ↦ (done tt, b) | some e ↦ k b ]

-- How many lines of a container's logs are asked for.
abbrev pub tail_or_default : ℤ → ℤ
tail_or_default tail = if le_ℤ tail (pos 0) then pos 200 else tail

module _ (host : Host) (env : Environment) where
  abbrev kubeconfig_of : Text → Option Text
  kubeconfig_of name =
      let path = trim_space env.k8s_config_path in
      if is_kubectl name && not (is_empty path) then some path else none

  abbrev command_error : Text → List Text → Option Text → Option Text
  command_error name args none = none
  command_error name args (some e) =
      some (name ++ codes " " ++ joined (codes " ") args ++ codes ": " ++ e)

  abbrev pub command_for : Text → Text → List Text → Command
  command_for input name args = record {
    program = name;
    args = args;
    stdin = input;
    kubeconfig = kubeconfig_of name;
  }

  abbrev pub outcome_of : Command → History → Outcome
  outcome_of cmd h = record {
    output = joined [] (host.writes h cmd);
    error = command_error cmd.program cmd.args (host.error_of h cmd);
  }

  -- `runCommandStream` and, with an input, `runCommandWithInputStream`
  unfoldable pub run_command_stream : Bool → Text → Text → List Text → Program Build Outcome
  unfolding keep is_kubectl trim_space
  run_command_stream streams input name args b =
      let cmd = command_for input name args in
      let out = outcome_of cmd b.history in
      (
        out,
        told streams (keep (λ s. not (is_empty s)) (host.writes b.history cmd))
            (record b { history = b.history ++ ran cmd out ∷ [] }),
      )

  abbrev pub run_command : Text → List Text → Program Build Outcome
  run_command name args = run_command_stream false [] name args

  -- A command of which only the error counts.
  abbrev pub run_or_fail : Bool → Text → Text → List Text → Step (Unit {0})
  run_or_fail streams input name args b =
      let (out, b') = run_command_stream streams input name args b in returning out b'
