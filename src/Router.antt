-- ===== src/Router.antt =====
-- The router at the edge, tools/mesh-router/main.go: its cache of routes and `getWorkerIP`. The proxy
-- that then takes the request to the worker is the standard library's.
pub mod Staleness
use mesh_vpn.Domain.{DeploymentRecord, Worker}
use mesh_vpn.Text.{Text, codes, contains_char, is_empty, text_eq}
use mesh_vpn.Store.Workers.Lookup.{find}
use mesh_vpn.Base.{Bool, List, Option, [], first, if◌then◌else◌, ltb, none, some, ℕ, ◌&&◌, ◌+◌, ◌∷◌}
use mesh_vpn.Service.Reconcile.{running_status}
use mesh_vpn.Service.Deployments.{first_part}

pub record CacheEntry : Type 0 where
  pub tailscale_ip : Text
  pub expires_at : ℕ

abbrev pub RouterCache : Type 0
RouterCache = List (Text × CacheEntry)

-- `c.items[subdomain]`
unfoldable pub entry_of : Text → RouterCache → Option CacheEntry
entry_of subdomain [] = none
entry_of subdomain ((key, entry) ∷ items) =
    let rest = entry_of subdomain items in if text_eq key subdomain then some entry else rest

-- An entry is used until it has expired.
abbrev pub if_fresh : ℕ → Option CacheEntry → Option Text
if_fresh now none = none
if_fresh now (some entry) = if ltb entry.expires_at now then none else some entry.tailscale_ip

unfoldable pub cache_get : ℕ → Text → RouterCache → Option Text
unfolding entry_of
cache_get now subdomain items = if_fresh now (entry_of subdomain items)

unfoldable pub put : Text → CacheEntry → RouterCache → RouterCache
put subdomain entry [] = (subdomain, entry) ∷ []
put subdomain entry ((key, old) ∷ items) =
    let rest = put subdomain entry items in
    if text_eq key subdomain then (key, entry) ∷ items else (key, old) ∷ rest

unfoldable pub cache_set : ℕ → ℕ → Text → Text → RouterCache → RouterCache
unfolding put
cache_set ttl now subdomain ip items =
    put subdomain (record { tailscale_ip = ip; expires_at = now + ttl }) items

-- A request, with what the database holds or how its query fails.
pub record Request : Type 0 where
  pub at : ℕ
  pub subdomain : Text
  pub deployments : List DeploymentRecord
  pub workers : List Worker
  pub fault : Option Text

-- `d.subdomain = $1 AND d.status = 'running'`
abbrev pub is_routed : Text → DeploymentRecord → Bool
is_routed subdomain rec = text_eq rec.subdomain subdomain && text_eq rec.status running_status

-- The address of the owner; that of the control plane where the owner is NULL or unknown, or has none.
abbrev pub address_of : Option Worker → Text
address_of none = codes "127.0.0.1"
address_of (some w) = if is_empty w.tailscale_ip then codes "127.0.0.1" else w.tailscale_ip

abbrev pub joined_worker : Text → List Worker → Option Worker
joined_worker owner workers = if is_empty owner then none else find owner workers

-- What the query finds.
unfoldable pub query : Request → Option Text
unfolding first
query q = elim q.fault [
  | some e ↦ none
  | none ↦ elim (first (is_routed q.subdomain) q.deployments) [
    | none ↦ none
    | some rec ↦ some (address_of (joined_worker rec.owner_worker_id q.workers))
  ]
]

-- What follows a miss.
abbrev pub fill : ℕ → Request → Option Text → RouterCache → Option Text × RouterCache
fill ttl q none items = (none, items)
fill ttl q (some ip) items = (some ip, cache_set ttl q.at q.subdomain ip items)

abbrev pub or_fill : ℕ → Request → Option Text → RouterCache → Option Text × RouterCache
or_fill ttl q none items = fill ttl q (query q) items
or_fill ttl q (some ip) items = (some ip, items)

-- `getWorkerIP`; `none` is its error.
unfoldable pub get_worker_ip : ℕ → Request → RouterCache → Option Text × RouterCache
unfolding cache_get cache_set query
get_worker_ip ttl q items = or_fill ttl q (cache_get q.at q.subdomain items) items

-- The cache after a history of requests, the last of which comes first.
unfoldable pub cache_after : ℕ → List Request → RouterCache
unfolding get_worker_ip
cache_after ttl [] = []
cache_after ttl (q ∷ past) = (get_worker_ip ttl q (cache_after ttl past)).1

abbrev pub router_ttl : ℕ
router_ttl = 15000000000

-- The subdomain of a host, `strings.Split(host, ".")[0]`, where there are at least two parts.
unfoldable pub subdomain_of : Text → Option Text
unfolding contains_char first_part
subdomain_of host = if contains_char b'.' host then some (first_part b'.' host) else none

-- What `meshProxyHandler` does with a request: 400 Bad Request, 404 Not Found, or the worker to which
-- it proxies on port 80.
pub data Route : Type 0 where
  bad_host not_found : Route
  proxied : Text → Route

abbrev route_to : Option Text × RouterCache → Route × RouterCache
route_to (none, items) = (not_found, items)
route_to (some ip, items) = (proxied ip, items)

unfoldable pub mesh_proxy_handler : ℕ → Text → (Text → Request) → RouterCache → Route × RouterCache
unfolding subdomain_of get_worker_ip
mesh_proxy_handler ttl host request items = elim (subdomain_of host) [
  | none ↦ (bad_host, items)
  | some subdomain ↦ route_to (get_worker_ip ttl (request subdomain) items)
]
