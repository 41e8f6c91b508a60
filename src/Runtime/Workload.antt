-- ===== src/Runtime/Workload.antt =====
-- `renderWorkloadManifest` of control-plane/internal/runtime/kubernetes_driver.go. CPU cores are held in
-- thousandths, so that `int(cpuCores * 1000)` is the number itself; `quote` is `%q`.
use mesh_vpn.Agent.Manifest.{line, lines}
use mesh_vpn.Domain.{StringMap}
use mesh_vpn.Text.{Text, codes, drop_prefix, is_empty, trim_space}
use mesh_vpn.Base.{List, [], if◌then◌else◌, ◌++◌, ◌∷◌}
use mesh_vpn.Base.Int.{le_ℤ, lt_ℤ, pos, ℤ, ◌*ℤ◌}
use mesh_vpn.Runtime.Host.{DeployArgs}
use mesh_vpn.Runtime.Cloning.{sorted_entries}
use mesh_vpn.Text.Numbers.{show_ℤ}

abbrev pub cpu_milli : ℤ → ℤ
cpu_milli cores = if le_ℤ cores (pos 0) then pos 50 else cores

abbrev pub memory_or_baseline : ℤ → ℤ
memory_or_baseline mb = if le_ℤ mb (pos 0) then pos 64 else mb

-- Twice the request, and never less than it.
unfoldable pub limit_of : ℤ → ℤ
unfolding ◌*ℤ◌
limit_of request = if lt_ℤ (2 *ℤ request) request then request else 2 *ℤ request

module _ (quote : Text → Text) where
  abbrev env_lines : StringMap → List Text
  env_lines [] = []
  env_lines ((key, value) ∷ m) =
      line "        - name: " key ∷ line "          value: " (quote value) ∷ env_lines m

  unfoldable pub env_section : StringMap → List Text
  unfolding sorted_entries
  env_section [] = []
  env_section (entry ∷ m) = codes "        env:" ∷ env_lines (sorted_entries (entry ∷ m))

  abbrev deployment_lines : Text → Text → ℤ → StringMap → List Text
  deployment_lines deployment image port runtime_env =
      (codes "apiVersion: apps/v1"
        ∷ codes "kind: Deployment"
        ∷ codes "metadata:"
        ∷ line "  name: " deployment
        ∷ codes "spec:"
        ∷ codes "  replicas: 1"
        ∷ codes "  selector:"
        ∷ codes "    matchLabels:"
        ∷ line "      app: " deployment
        ∷ codes "  template:"
        ∷ codes "    metadata:"
        ∷ codes "      labels:"
        ∷ line "        app: " deployment
        ∷ codes "    spec:"
        ∷ codes "      containers:"
        ∷ codes "      - name: app"
        ∷ line "        image: " image
        ∷ codes "        imagePullPolicy: Always"
        ∷ codes "        ports:"
        ∷ line "        - containerPort: " (show_ℤ port)
        ∷ [])
      ++ env_section runtime_env

abbrev resource_lines : ℤ → ℤ → List Text
resource_lines cpu memory =
    codes "        resources:"
    ∷ codes "          requests:"
    ∷ line "            cpu: " (show_ℤ cpu ++ codes "m")
    ∷ line "            memory: " (show_ℤ memory ++ codes "Mi")
    ∷ codes "          limits:"
    ∷ line "            cpu: " (show_ℤ (limit_of cpu) ++ codes "m")
    ∷ line "            memory: " (show_ℤ (limit_of memory) ++ codes "Mi")
    ∷ []

abbrev service_lines : Text → Text → ℤ → List Text
service_lines service deployment port =
    codes "---"
    ∷ codes "apiVersion: v1"
    ∷ codes "kind: Service"
    ∷ codes "metadata:"
    ∷ line "  name: " service
    ∷ codes "spec:"
    ∷ codes "  selector:"
    ∷ line "    app: " deployment
    ∷ codes "  ports:"
    ∷ codes "  - name: http"
    ∷ codes "    port: 80"
    ∷ line "    targetPort: " (show_ℤ port)
    ∷ []

abbrev middleware_lines : Text → List Text
middleware_lines middleware =
    if is_empty middleware
    then []
    else line "    traefik.ingress.kubernetes.io/router.middlewares: " middleware ∷ []

abbrev ingress_lines : Text → Text → Text → Text → Text → List Text
ingress_lines ingress deployment service host middleware =
    (codes "---"
      ∷ codes "apiVersion: networking.k8s.io/v1"
      ∷ codes "kind: Ingress"
      ∷ codes "metadata:"
      ∷ line "  name: " ingress
      ∷ codes "  annotations:"
      ∷ codes "    traefik.ingress.kubernetes.io/router.entrypoints: web"
      ∷ [])
    ++ middleware_lines middleware
    ++ codes "  labels:"
      ∷ line "    app: " deployment
      ∷ line "    deployment-id: \"" (drop_prefix (codes "app-") deployment ++ codes "\"")
      ∷ codes "spec:"
      ∷ codes "  ingressClassName: traefik"
      ∷ codes "  rules:"
      ∷ line "  - host: " host
      ∷ codes "    http:"
      ∷ codes "      paths:"
      ∷ codes "      - path: /"
      ∷ codes "        pathType: Prefix"
      ∷ codes "        backend:"
      ∷ codes "          service:"
      ∷ line "            name: " service
      ∷ codes "            port:"
      ∷ codes "              number: 80"
      ∷ []

-- The resources of a deployment, as `deployRepo` names them.
unfoldable pub render_workload_manifest :
    (Text → Text) → Text → Text → Text → Text → DeployArgs → Text
unfolding env_section limit_of show_ℤ trim_space drop_prefix
render_workload_manifest quote raw_middleware id host image args =
    let deployment = codes "app-" ++ id in
    let service = codes "svc-" ++ id in
    lines (
      deployment_lines quote deployment image args.port args.runtime_env
      ++ resource_lines (cpu_milli args.cpu_cores) (memory_or_baseline args.memory_mb)
      ++ service_lines service deployment args.port
      ++ ingress_lines (codes "ing-" ++ id) deployment service host (trim_space raw_middleware))
