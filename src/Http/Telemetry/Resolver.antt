-- ===== src/Http/Telemetry/Resolver.antt =====
-- `resolveTelemetryDeploymentID` of control-plane/internal/httpapi/handlers_telemetry.go, with its cache.
-- One instant serves for a whole call.
use mesh_vpn.Domain.{DeploymentRecord}
use mesh_vpn.Text.{Text, is_empty, text_eq, trim_space}
use mesh_vpn.Store.Repositories.{DeploymentRepository}
use mesh_vpn.Store.Errors.{Program, Result, err, ok}
use mesh_vpn.Base.{
  List, Option, [], if◌then◌else◌, keep, leb, length, ltb, none, not, some, ℕ, ◌*◌, ◌+◌, ◌∷◌,
}
use mesh_vpn.Service.Deployments.{get_deployment, resolve_deployment_id}

-- An entry without an id says that the identifier is unknown.
pub record CacheEntry : Type 0 where
  pub deployment_id : Text
  pub expires_at : ℕ

abbrev pub ResolveCache : Type 0
ResolveCache = List (Text × CacheEntry)

abbrev second : ℕ
second = 1000000000

abbrev pub resolve_cache_ttl : ℕ
resolve_cache_ttl = 120 * second

abbrev pub resolve_negative_ttl : ℕ
resolve_negative_ttl = 20 * second

abbrev pub max_cache_entries : ℕ
max_cache_entries = 10000

unfoldable pub entry_of : Text → ResolveCache → Option CacheEntry
entry_of identifier [] = none
entry_of identifier ((key, entry) ∷ cache) =
    let rest = entry_of identifier cache in if text_eq key identifier then some entry else rest

unfoldable pub without_entry : Text → ResolveCache → ResolveCache
unfolding keep text_eq
without_entry identifier cache = keep (λ e. not (text_eq e.0 identifier)) cache

unfoldable pub get_cached_deployment_id : ℕ → Text → Program ResolveCache (Option Text)
unfolding entry_of without_entry
get_cached_deployment_id now identifier cache = elim (entry_of identifier cache) [
  | none ↦ (none, cache)
  | some entry ↦
      if ltb entry.expires_at now
      then (none, without_entry identifier cache)
      else (some entry.deployment_id, cache)
]

-- A full cache is emptied first.
unfoldable pub set_cached_deployment_id : ℕ → Text → Text → ℕ → ResolveCache → ResolveCache
unfolding without_entry
set_cached_deployment_id now identifier id ttl cache =
    let room = if leb max_cache_entries (length cache) then [] else cache in
    (identifier, record { deployment_id = id; expires_at = now + ttl })
    ∷ without_entry identifier room

-- The store of the deployments and of the requests, and the handler's cache.
pub record TelemetryState (S : Type 0) : Type 0 where
  pub store : S
  pub cache : ResolveCache

module _ {S : Type 0} (deployments : Option (DeploymentRepository S)) (now : ℕ) where
  abbrev pub cached_as : Text → Text → ℕ → TelemetryState S → TelemetryState S
  cached_as identifier id ttl st = record st {
    cache = set_cached_deployment_id now identifier id ttl st.cache;
  }

  abbrev pub unknown : Text → Program (TelemetryState S) (Option Text)
  unknown identifier st = (none, cached_as identifier [] resolve_negative_ttl st)

  abbrev pub after_get :
      Text → Text → Result DeploymentRecord → Program (TelemetryState S) (Option Text)
  after_get identifier id (err e) st = unknown identifier st
  after_get identifier id (ok rec) st =
      (some id, cached_as id id resolve_cache_ttl (cached_as identifier id resolve_cache_ttl st))

  abbrev pub after_resolve :
      DeploymentRepository S → Text → Text → Program (TelemetryState S) (Option Text)
  after_resolve repo identifier id st =
      if is_empty id
      then unknown identifier st
      else (let (r, s) = get_deployment repo id st.store in
          after_get identifier id r (record st { store = s }))

  -- The answer where the cache has none.
  unfoldable pub look_up :
      Option (DeploymentRepository S) → Text → Program (TelemetryState S) (Option Text)
  unfolding set_cached_deployment_id resolve_deployment_id get_deployment trim_space
  look_up none identifier st =
      (some identifier, cached_as identifier identifier resolve_cache_ttl st)
  look_up (some repo) identifier st =
      let (id, s) = resolve_deployment_id repo identifier st.store in
      after_resolve repo identifier (trim_space id) (record st { store = s })

  abbrev pub after_cache : Text → Option Text → Program (TelemetryState S) (Option Text)
  after_cache identifier none st = look_up deployments identifier st
  after_cache identifier (some id) st = (if is_empty id then none else some id, st)

  unfoldable pub resolve_telemetry_deployment_id : Text → Program (TelemetryState S) (Option Text)
  unfolding trim_space get_cached_deployment_id look_up
  resolve_telemetry_deployment_id identifier st =
      let id = trim_space identifier in
      if is_empty id
      then (none, st)
      else (let (hit, cache) = get_cached_deployment_id now id st.cache in
          after_cache id hit (record st { cache = cache }))
