-- ===== src/Http/Telemetry/Accounts.antt =====
-- What becomes of the requests of a batch, in control-plane/internal/httpapi/handlers_telemetry.go.
use mesh_vpn.Text.{Text, is_empty, trim_space}
use mesh_vpn.Store.Repositories.{DeploymentRepository}
use mesh_vpn.Base.{
  List, Option, [], arith, length, length-append, none, some, ℕ, ◌+◌, ◌∷◌, ◌≡◌, Bool, false,
  if◌then◌else◌, not, refl, true, ◌||◌,
}
use mesh_vpn.Http.Telemetry.{
  BatchLoop, DeploymentRequest, DeploymentRequestPayload, RequestRepository, add_request,
  after_lookup, counted, known_or_look_up, record_each, take_request, take_requests, all_counted,
  empty_loop, is_among, record_all, record_deployment_request_batch, record_with, value_of,
}
use mesh_vpn.Http.Telemetry.Resolver.{TelemetryState, resolve_telemetry_deployment_id}
use mesh_vpn.Store.Errors.{Program}
use mesh_vpn.Forwarder.LogLines.{is_http_status}

-- How many requests of a batch a loop has dealt with.
abbrev dealt_with : BatchLoop → ℕ
dealt_with loop = length loop.requests + loop.dropped

module _ {S : Type 0} (deployments : Option (DeploymentRepository S)) (now : ℕ)
    (parse_time : Text → Option ℕ) where
  add_request-dealt_with :
      (payload : DeploymentRequestPayload) (id : Text) (loop : BatchLoop)
      → dealt_with (add_request deployments now parse_time payload id loop) ≡ dealt_with loop + 1
  add_request-dealt_with payload id loop = omega (arith, length-append loop.requests _)

  known_or_look_up-dealt_with :
      (payload : DeploymentRequestPayload) (identifier : Text) (known : Option Text)
      → (loop : BatchLoop) (st : TelemetryState S)
      → dealt_with (known_or_look_up deployments now parse_time payload identifier known loop st).0
        ≡ dealt_with loop + 1
  known_or_look_up-dealt_with payload identifier (some id) loop st =
      add_request-dealt_with payload id loop
  known_or_look_up-dealt_with payload identifier none loop st =
      by_answer (resolve_telemetry_deployment_id deployments now identifier st).0
    where
      by_answer :
          (r : Option Text)
          → dealt_with (after_lookup deployments now parse_time payload identifier r loop)
            ≡ dealt_with loop + 1
      by_answer none = omega arith
      by_answer (some id) =
          add_request-dealt_with payload id
            (record loop { resolved = (identifier, id) ∷ loop.resolved })

  if-dealt_with :
      (b : Bool) (n : ℕ) (p q : BatchLoop × TelemetryState S)
      → dealt_with p.0 ≡ n
      → dealt_with q.0 ≡ n
      → dealt_with (if b then p else q).0 ≡ n
  if-dealt_with true n p q hp hq = hp
  if-dealt_with false n p q hp hq = hq

  take_request-dealt_with :
      (payload : DeploymentRequestPayload) (loop : BatchLoop) (st : TelemetryState S)
      → dealt_with (take_request deployments now parse_time payload loop st).0 ≡ dealt_with loop + 1
  unfolding take_request
  take_request-dealt_with payload loop st =
      let identifier = trim_space payload.deployment_id in
      if-dealt_with (is_empty identifier || not (is_http_status payload.status_code)) _ _ _
        (omega arith)
        (if-dealt_with (is_among identifier loop.unresolved) _ _ _ (omega arith) (
          known_or_look_up-dealt_with payload identifier (value_of identifier loop.resolved) loop
            st))

  take_requests-dealt_with :
      (payloads : List DeploymentRequestPayload) (loop : BatchLoop) (st : TelemetryState S)
      → dealt_with (take_requests deployments now parse_time payloads loop st).0
        ≡ dealt_with loop + length payloads
  unfolding take_requests
  take_requests-dealt_with [] loop st = omega arith
  take_requests-dealt_with (payload ∷ payloads) loop st = omega (
    arith,
    take_request-dealt_with payload loop st,
    take_requests-dealt_with payloads _ (take_request deployments now parse_time payload loop st).1,
  )

  module _ (analytics : Option (RequestRepository S)) where
    counted-sum :
        (r : Option Text) (counts : ℕ × ℕ)
        → let c = counted deployments now parse_time analytics r counts in
          c.0 + c.1 ≡ counts.0 + counts.1 + 1
    counted-sum none counts = omega arith
    counted-sum (some e) counts = omega arith

    record_each-sum :
        (repo : RequestRepository S) (reqs : List DeploymentRequest) (counts : ℕ × ℕ) (s : S)
        → let (c, s') = record_each deployments now parse_time analytics repo reqs counts s in
          c.0 + c.1 ≡ counts.0 + counts.1 + length reqs
    unfolding record_each
    record_each-sum repo [] counts s = omega arith
    record_each-sum repo (req ∷ reqs) counts s =
        let (r, s') = repo.record_request req s in
        omega (
          arith,
          counted-sum r counts,
          record_each-sum repo reqs (counted deployments now parse_time analytics r counts) s',
        )

    all_counted-sum :
        (reqs : List DeploymentRequest) (r : Option Text)
        → let c = all_counted deployments now parse_time analytics reqs r in c.0 + c.1 ≡ length reqs
    all_counted-sum reqs none = omega arith
    all_counted-sum reqs (some e) = omega arith

    record_with-sum :
        (repo : RequestRepository S)
        → (batch : Option (List DeploymentRequest → Program S (Option Text)))
        → (reqs : List DeploymentRequest) (s : S)
        → let (c, s') = record_with deployments now parse_time analytics repo batch reqs s in
          c.0 + c.1 ≡ length reqs
    record_with-sum repo none reqs s = omega (arith, record_each-sum repo reqs (0, 0) s)
    record_with-sum repo (some batch) reqs s = all_counted-sum reqs (batch reqs s).0

  record_all-sum :
      (analytics : Option (RequestRepository S)) (reqs : List DeploymentRequest) (s : S)
      → let (c, s') = record_all deployments now parse_time analytics reqs s in
        c.0 + c.1 ≡ length reqs
  unfolding record_all
  record_all-sum none reqs s = omega arith
  record_all-sum (some repo) reqs s =
      record_with-sum (some repo) repo repo.record_request_batch reqs s

  -- Whatever the repositories answer, each request of a batch is counted once in the reply: as recorded,
  -- failed or dropped.
  pub record_deployment_request_batch-IsCounted :
      (analytics : Option (RequestRepository S)) (payloads : List DeploymentRequestPayload)
      → (st : TelemetryState S)
      → let (reply, end) =
          record_deployment_request_batch deployments now parse_time analytics payloads st in
        (reply.recorded + reply.failed + reply.dropped ≡ reply.total)
        × (reply.total ≡ length payloads)
  unfolding record_deployment_request_batch
  record_deployment_request_batch-IsCounted analytics payloads st =
      let taken = take_requests deployments now parse_time payloads empty_loop st in
      (
        omega (
          arith,
          take_requests-dealt_with payloads empty_loop st,
          record_all-sum analytics taken.0.requests taken.1.store,
        ),
        refl,
      )
