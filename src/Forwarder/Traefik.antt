-- ===== src/Forwarder/Traefik.antt =====
-- The proxy's log in tools/traffic-forwarder/main.go: `resolveTraefikTarget`, `resolveTraefikContainer`
-- and `streamTraefikLogs`. What kubectl does for its arguments is a parameter.
use mesh_vpn.Store.Errors.{Program}
use mesh_vpn.Text.{Text, codes, is_empty, is_space, text_eq, trim_space}
use mesh_vpn.Base.{Bool, List, Option, [], first, if◌then◌else◌, none, not, some, ◌&&◌, ◌++◌, ◌∷◌}
use mesh_vpn.Forwarder.Sender.{TelemetrySender, word}
use mesh_vpn.Forwarder.LogLines.{TraefikAccessLog, process_lines}
use mesh_vpn.Agent.Manifest.{line, lines}

-- What kubectl prints, or the text of its error.
pub data Printed : Type 0 where
  printed : Text → Printed
  kubectl_error : Text → Printed

abbrev Kubectl : Type 0
Kubectl = List Text → Printed

-- The name of a container, or an error text.
pub data Container : Type 0 where
  container_named : Text → Container
  no_container : Text → Container

-- A pod with a container of it, or an error text.
pub data Target : Type 0 where
  target : Text → Text → Target
  no_target : Text → Target

-- `strings.Fields`
fields_from : Text → Text → List Text
unfolding is_space
fields_from word [] = if is_empty word then [] else word ∷ []
fields_from word (c ∷ s) =
    let rest = fields_from (if is_space c then [] else word ++ c ∷ []) s in
    if is_space c && not (is_empty word) then word ∷ rest else rest

unfoldable pub fields : Text → List Text
unfolding fields_from
fields s = fields_from [] s

abbrev pub container_names : Text → Text → List Text
container_names namespace pod =
    codes "get"
    ∷ codes "pod"
    ∷ codes "-n"
    ∷ namespace
    ∷ pod
    ∷ codes "-o"
    ∷ codes "jsonpath={.spec.containers[*].name}"
    ∷ []

abbrev pub running_pod : Text → Text → List Text
running_pod namespace selector =
    codes "get"
    ∷ codes "pods"
    ∷ codes "-n"
    ∷ namespace
    ∷ codes "-l"
    ∷ selector
    ∷ codes "--field-selector=status.phase=Running"
    ∷ codes "-o"
    ∷ codes "jsonpath={.items[0].metadata.name}"
    ∷ []

-- The container named traefik, or else the first.
abbrev choose_container : Text → List Text → Container
choose_container pod [] = no_container (codes "no containers found in pod " ++ pod)
choose_container pod (name ∷ names) =
    elim (first (λ n. text_eq n (codes "traefik")) (name ∷ names)) [
      | none ↦ container_named name
      | some found ↦ container_named found
    ]

module _ (kubectl : Kubectl) (namespace : Text) where
  unfoldable pub resolve_traefik_container : Text → Container
  unfolding fields text_eq first trim_space
  resolve_traefik_container pod = elim (kubectl (container_names namespace pod)) [
    | kubectl_error e ↦ no_container (codes "get containers for pod " ++ pod ++ codes ": " ++ e)
    | printed output ↦ choose_container pod (fields (trim_space output))
  ]

  -- The pod of a selector that runs and has a container.
  abbrev target_of : Text → Option Target
  target_of pod = if is_empty pod then none else (elim (resolve_traefik_container pod) [
    | no_container e ↦ none
    | container_named name ↦ some (target pod name)
  ])

  abbrev candidate : Text → Option Target
  candidate selector = elim (kubectl (running_pod namespace selector)) [
    | kubectl_error e ↦ none
    | printed output ↦ target_of (trim_space output)
  ]

  abbrev selectors : List Text
  selectors = codes "app.kubernetes.io/name=traefik" ∷ codes "app=traefik" ∷ []

  -- The first selector that gives a target.
  first_target : List Text → Target
  unfolding resolve_traefik_container trim_space
  first_target [] =
      no_target (codes "could not find running Traefik pod in namespace " ++ namespace)
  first_target (selector ∷ rest) =
      let later = first_target rest in elim (candidate selector) [ none ↦ later | some t ↦ t ]

  -- A pod that is configured is taken as it is.
  unfoldable pub resolve_traefik_target : Text → Target
  unfolding first_target resolve_traefik_container trim_space
  resolve_traefik_target configured =
      if is_empty (trim_space configured)
      then first_target selectors
      else (elim (resolve_traefik_container configured) [
        | no_container e ↦ no_target e
        | container_named name ↦ target configured name
      ])

-- What a run of `kubectl logs` did: it did not start; or its lines, its other lines, the error of the
-- scanner and that of the process.
pub data LogRun : Type 0 where
  not_started : Text → LogRun
  ran_logs : List Text → List Text → Option Text → Option Text → LogRun

-- The lines of stderr that are not blank, joined by bars.
stderr_joined : Text → List Text → Text
unfolding trim_space
stderr_joined joined [] = joined
stderr_joined joined (line ∷ lines) =
    stderr_joined
      (if is_empty (trim_space line)
        then joined
        else if is_empty joined
        then trim_space line
        else joined ++ codes " | " ++ trim_space line)
      lines

abbrev ended_with : Option Text → Text → Option Text
ended_with none [] = none
ended_with none (c ∷ s) = some (codes "kubectl logs ended: " ++ c ∷ s)
ended_with (some e) [] = some (codes "kubectl logs failed: " ++ e)
ended_with (some e) (c ∷ s) =
    some (codes "kubectl logs failed: " ++ e ++ codes " (" ++ (c ∷ s) ++ codes ")")

-- The error of the stream, and the sender behind its lines.
unfoldable pub stream_traefik_logs :
    (Text → Bool)
    → (Text → Option TraefikAccessLog)
    → Text
    → LogRun
    → Program TelemetrySender (Option Text)
unfolding process_lines stderr_joined
stream_traefik_logs is_ip decode domain (not_started e) s = (some e, s)
stream_traefik_logs is_ip decode domain (ran_logs lines others (some e) wait) s =
    (some (codes "stdout scanner error: " ++ e), process_lines is_ip domain decode lines s)
stream_traefik_logs is_ip decode domain (ran_logs lines others none wait) s =
    (ended_with wait (stderr_joined [] others), process_lines is_ip domain decode lines s)
