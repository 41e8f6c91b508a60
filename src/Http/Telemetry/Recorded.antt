-- ===== src/Http/Telemetry/Recorded.antt =====
-- The requests that a batch records, in control-plane/internal/httpapi/handlers_telemetry.go.
use mesh_vpn.Domain.{StringMap}
use mesh_vpn.Text.{Text, text_eq, is_empty, trim_space}
use mesh_vpn.Store.Repositories.{DeploymentRepository, JobRepository}
use mesh_vpn.Http.Telemetry.Known.{IsBacked, IsKnown, Resolved, resolve-Resolved}
use mesh_vpn.Store.Repositories.Laws.{DeploymentLaws}
use mesh_vpn.Base.{
  All, All-append, Bool-cases, Option, [], arith, inl, inr, none, refl, some, subst, true, ℕ, ◌∷◌,
  ◌≡◌, List, not, sym, ◌||◌,
}
use mesh_vpn.Forwarder.LogLines.{is_http_status}
use mesh_vpn.Http.Telemetry.{
  BatchLoop, DeploymentRequest, DeploymentRequestPayload, add_request, after_lookup,
  known_or_look_up, value_of, drop_one, is_among, take_request, take_requests,
}
use mesh_vpn.Http.Telemetry.Resolver.{ResolveCache, TelemetryState}

module _ {S : Type 0} (repo : DeploymentRepository S) (jobs : JobRepository S)
    (laws : DeploymentLaws repo jobs) (now : ℕ) (parse_time : Text → Option ℕ) where
  -- A request of a deployment that the store has, with a status of HTTP.
  abbrev pub IsRecordable : S → DeploymentRequest → Type 0
  IsRecordable s req = IsKnown repo req.deployment_id s × (is_http_status req.status_code ≡ true)

  -- What the loop holds, over a state that was only read.
  pub record IsTaken (s : S) (loop : BatchLoop) (st : TelemetryState S) : Type 0 where
    pub kept : st.store ≡ s
    pub backed : IsBacked repo jobs laws now s st.cache
    pub known : All (λ e. IsKnown repo e.1 s) loop.resolved
    pub recordable : All (IsRecordable s) loop.requests

  value_of-Known :
      (identifier id : Text) (s : S) (m : StringMap)
      → All (λ e. IsKnown repo e.1 s) m
      → value_of identifier m ≡ some id
      → IsKnown repo id s
  unfolding value_of
  value_of-Known identifier id s [] h e = absurd (ground arith)
  value_of-Known identifier id s ((key, value) ∷ m) h e =
      elim (Bool-cases (text_eq key identifier)) [
        | inl same ↦
            (let found : value ≡ id = ground (arith, e, same) in
              subst (λ t. IsKnown repo t s) found h.0)
        | inr other ↦ value_of-Known identifier id s m h.1 (ground (arith, e, other))
      ]

  add-IsTaken :
      (payload : DeploymentRequestPayload) (id : Text) (s : S) (loop : BatchLoop)
      → (st : TelemetryState S) → is_http_status payload.status_code ≡ true
      → IsKnown repo id s
      → IsTaken s loop st
      → IsTaken s (add_request (some repo) now parse_time payload id loop) st
  add-IsTaken payload id s loop st status known taken = record {
    kept = taken.kept;
    backed = taken.backed;
    known = taken.known;
    recordable = All-append (IsRecordable s) loop.requests _ taken.recordable ((known, status), tt);
  }

  known_or_look_up-IsTaken :
      (payload : DeploymentRequestPayload) (identifier : Text) (hit : Option Text) (s : S)
      → (loop : BatchLoop) (cache : ResolveCache) → is_http_status payload.status_code ≡ true
      → ((id : Text) → hit ≡ some id → IsKnown repo id s)
      → IsTaken s loop (record { store = s; cache = cache })
      → let (loop', st) =
          known_or_look_up
            (some repo)
            now
            parse_time
            payload
            identifier
            hit
            loop
            (record { store = s; cache = cache }) in
        IsTaken s loop' st
  known_or_look_up-IsTaken payload identifier (some id) s loop cache status known taken =
      add-IsTaken payload id s loop _ status (known id refl) taken
  known_or_look_up-IsTaken payload identifier none s loop cache status known taken =
      by_answer _ (resolve-Resolved repo jobs laws now identifier s cache taken.backed)
    where
      by_answer :
          (p : Option Text × TelemetryState S)
          → Resolved repo jobs laws now s p.0 p.1
          → IsTaken s (after_lookup (some repo) now parse_time payload identifier p.0 loop) p.1
      by_answer (none, st) r = record {
        kept = r.kept;
        backed = r.backed;
        known = taken.known;
        recordable = taken.recordable;
      }
      by_answer (some id, st) r =
          add-IsTaken payload id s (record loop { resolved = (identifier, id) ∷ loop.resolved }) st
            status (r.known id refl)
            (record {
              kept = r.kept;
              backed = r.backed;
              known = (r.known id refl, taken.known);
              recordable = taken.recordable;
            })

  take_request-IsTaken :
      (payload : DeploymentRequestPayload) (s : S) (loop : BatchLoop) (cache : ResolveCache)
      → IsTaken s loop (record { store = s; cache = cache })
      → let (loop', st) =
          take_request
            (some repo)
            now
            parse_time
            payload
            loop
            (record { store = s; cache = cache }) in
        IsTaken s loop' st
  unfolding take_request
  take_request-IsTaken payload s loop cache taken =
      let identifier = trim_space payload.deployment_id in
      elim (Bool-cases (is_empty identifier || not (is_http_status payload.status_code))) [
        | inl e ↦ rw e dropped_one
        | inr taken_on ↦ rw taken_on (elim (Bool-cases (is_among identifier loop.unresolved)) [
          | inl e ↦ rw e dropped_one
          | inr e ↦ rw e (
              known_or_look_up-IsTaken payload identifier (value_of identifier loop.resolved) s loop
                cache (ground (arith, taken_on))
                (λ id eq. value_of-Known identifier id s loop.resolved taken.known eq) taken)
        ])
      ]
    where
      dropped_one : IsTaken s (drop_one loop) (record { store = s; cache = cache })
      dropped_one = record {
        kept = refl;
        backed = taken.backed;
        known = taken.known;
        recordable = taken.recordable;
      }

  -- Over a cache that is backed by the store, all requests that the loop hands to the repository are of
  -- deployments that the store has, each under its id, with a status from 100 to 599; the store is
  -- only read before that, and the cache stays backed by it.
  pub take_requests-IsTaken :
      (payloads : List DeploymentRequestPayload) (s : S) (loop : BatchLoop) (cache : ResolveCache)
      → IsTaken s loop (record { store = s; cache = cache })
      → let (loop', st) =
          take_requests
            (some repo)
            now
            parse_time
            payloads
            loop
            (record { store = s; cache = cache }) in
        IsTaken s loop' st
  unfolding take_requests
  take_requests-IsTaken [] s loop cache taken = taken
  take_requests-IsTaken (payload ∷ payloads) s loop cache taken =
      rest _ (take_request-IsTaken payload s loop cache taken)
        (λ loop' cache'. take_requests-IsTaken payloads s loop' cache')
    where
      rest :
          (p : BatchLoop × TelemetryState S)
          → IsTaken s p.0 p.1
          → ((loop' : BatchLoop) (cache' : ResolveCache)
              → IsTaken s loop' (record { store = s; cache = cache' })
              → let (end, st) =
                  take_requests
                    (some repo)
                    now
                    parse_time
                    payloads
                    loop'
                    (record { store = s; cache = cache' }) in
                IsTaken s end st)
          → let (end, st) = take_requests (some repo) now parse_time payloads p.0 p.1 in
            IsTaken s end st
      rest (loop', st) first_taken go =
          subst
            (λ t.
              let (end, left) =
                take_requests (some repo) now parse_time payloads loop'
                  (record { store = t; cache = st.cache }) in
              IsTaken s end left)
            (sym first_taken.kept)
            (go loop' st.cache (record {
              kept = refl;
              backed = first_taken.backed;
              known = first_taken.known;
              recordable = first_taken.recordable;
            }))
