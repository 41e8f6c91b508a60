-- ===== src/Agent/Manifest.antt =====
-- `generateManifest` of worker-agent/internal/executor/executor.go. CPU cores are held in thousandths.
use mesh_vpn.Text.{Text, codes, is_empty, to_lower, trim_char, trim_space}
use mesh_vpn.Base.{List, String, [], if◌then◌else◌, ◌++◌, ◌∷◌}
use mesh_vpn.Base.Int.{ℤ, ◌*ℤ◌}
use mesh_vpn.Text.Numbers.{show_ℤ}

-- A template's lines, each with its end.
abbrev pub lines : List Text → Text
lines [] = []
lines (l ∷ ls) = l ++ b'\n' ∷ lines ls

abbrev pub line : String → Text → Text
line before value = codes before ++ value

unfoldable pub base_domain_of : Text → Text
unfolding trim_char to_lower trim_space
base_domain_of app_base_domain =
    let base = trim_char b'.' (to_lower (trim_space app_base_domain)) in
    if is_empty base then codes "keshavstack.tech" else base

unfoldable pub generate_manifest : Text → Text → Text → Text → ℤ → ℤ → ℤ → Text
unfolding base_domain_of show_ℤ ◌*ℤ◌
generate_manifest app_base_domain resource image subdomain port cpu memory = lines (
    []
    ∷ codes "apiVersion: apps/v1"
    ∷ codes "kind: Deployment"
    ∷ codes "metadata:"
    ∷ line "  name: " resource
    ∷ codes "spec:"
    ∷ codes "  replicas: 1"
    ∷ codes "  selector:"
    ∷ codes "    matchLabels:"
    ∷ line "      app: " resource
    ∷ codes "  template:"
    ∷ codes "    metadata:"
    ∷ codes "      labels:"
    ∷ line "        app: " resource
    ∷ codes "    spec:"
    ∷ codes "      containers:"
    ∷ codes "      - name: app"
    ∷ line "        image: " image
    ∷ codes "        ports:"
    ∷ line "        - containerPort: " (show_ℤ port)
    ∷ codes "        resources:"
    ∷ codes "          requests:"
    ∷ line "            cpu: \"" (show_ℤ cpu ++ codes "m\"")
    ∷ line "            memory: \"" (show_ℤ memory ++ codes "Mi\"")
    ∷ codes "          limits:"
    ∷ line "            cpu: \"" (show_ℤ (2 *ℤ cpu) ++ codes "m\"")
    ∷ line "            memory: \"" (show_ℤ (2 *ℤ memory) ++ codes "Mi\"")
    ∷ codes "---"
    ∷ codes "apiVersion: v1"
    ∷ codes "kind: Service"
    ∷ codes "metadata:"
    ∷ line "  name: " resource
    ∷ codes "spec:"
    ∷ codes "  selector:"
    ∷ line "    app: " resource
    ∷ codes "  ports:"
    ∷ codes "  - port: 80"
    ∷ line "    targetPort: " (show_ℤ port)
    ∷ codes "---"
    ∷ codes "apiVersion: networking.k8s.io/v1"
    ∷ codes "kind: Ingress"
    ∷ codes "metadata:"
    ∷ line "  name: " resource
    ∷ codes "  annotations:"
    ∷ codes "    traefik.ingress.kubernetes.io/router.entrypoints: web"
    ∷ codes "spec:"
    ∷ codes "  rules:"
    ∷ line "  - host: " (subdomain ++ codes "." ++ base_domain_of app_base_domain)
    ∷ codes "    http:"
    ∷ codes "      paths:"
    ∷ codes "      - path: /"
    ∷ codes "        pathType: Prefix"
    ∷ codes "        backend:"
    ∷ codes "          service:"
    ∷ line "            name: " resource
    ∷ codes "            port:"
    ∷ codes "              number: 80"
    ∷ [])
