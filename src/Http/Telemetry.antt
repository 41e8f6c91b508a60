-- ===== src/Http/Telemetry.antt =====
-- The handlers of control-plane/internal/httpapi/handlers_telemetry.go: what they record of the requests
-- that a forwarder reports. `time.Parse` is a parameter, and one instant serves for a whole call.
pub mod Resolver
pub mod Accounts
pub mod Known
pub mod Recorded
use mesh_vpn.Store.Errors
use mesh_vpn.Domain.{DeploymentRecord, StringMap}
use mesh_vpn.Text.{Text, is_empty, text_eq, trim_space, codes}
use mesh_vpn.Store.Repositories.{DeploymentRepository}
use mesh_vpn.Store.Errors.{Program, Result, err, ok}
use mesh_vpn.Base.{
  List, Option, [], if◌then◌else◌, keep, leb, length, ltb, none, not, some, ℕ, ◌*◌, ◌+◌, ◌∷◌, Bool,
  false, ◌++◌, ◌||◌,
}
use mesh_vpn.Base.Int.{ℤ}
use mesh_vpn.Service.Deployments.{get_deployment, resolve_deployment_id}
use mesh_vpn.Forwarder.LogLines.{is_http_status}
use mesh_vpn.Store.Memory.{store}
use mesh_vpn.Http.Telemetry.Resolver.{TelemetryState, resolve_telemetry_deployment_id}

-- A latency, a float64 of milliseconds, is held in nanoseconds.
pub record DeploymentRequestPayload : Type 0 where
  pub deployment_id : Text
  pub status_code : ℤ
  pub latency : ℤ
  pub bytes_sent : ℤ
  pub bytes_received : ℤ
  pub path : Text
  pub method : Text
  pub timestamp : Text

-- A row of a request, but for the number that the database gives it.
pub record DeploymentRequest : Type 0 where
  pub deployment_id : Text
  pub timestamp : ℕ
  pub status_code : ℤ
  pub latency : ℤ
  pub bytes_sent : ℤ
  pub bytes_received : ℤ
  pub path : Text

-- `RecordRequest`, and `RecordRequestBatch` where the repository has it. An error is its text.
pub record RequestRepository (S : Type 0) : Type 0 where
  pub record_request : DeploymentRequest → Program S (Option Text)
  pub record_request_batch : Option (List DeploymentRequest → Program S (Option Text))

-- The answer to one request.
pub data SingleReply : Type 0 where
  refused : Text → SingleReply
  dropped : Text → SingleReply
  recorded : SingleReply

-- What the loop over a batch has found out.
pub record BatchLoop : Type 0 where
  pub resolved : StringMap
  pub unresolved : List Text
  pub requests : List DeploymentRequest
  pub dropped : ℕ

pub record BatchReply : Type 0 where
  pub recorded : ℕ
  pub failed : ℕ
  pub dropped : ℕ
  pub total : ℕ

abbrev pub empty_loop : BatchLoop
empty_loop = record { resolved = []; unresolved = []; requests = []; dropped = 0 }

abbrev pub drop_one : BatchLoop → BatchLoop
drop_one loop = record loop { dropped = loop.dropped + 1 }

unfoldable pub value_of : Text → StringMap → Option Text
value_of key [] = none
value_of key ((k, v) ∷ m) = let rest = value_of key m in if text_eq k key then some v else rest

unfoldable pub is_among : Text → List Text → Bool
is_among t [] = false
is_among t (u ∷ us) = text_eq u t || is_among t us

module _ {S : Type 0} (deployments : Option (DeploymentRepository S)) (now : ℕ)
    (parse_time : Text → Option ℕ) where
  abbrev time_or_now : Option ℕ → ℕ
  time_or_now none = now
  time_or_now (some t) = t

  abbrev pub timestamp_of : Text → ℕ
  timestamp_of raw = if is_empty raw then now else time_or_now (parse_time raw)

  abbrev pub request_of : DeploymentRequestPayload → Text → DeploymentRequest
  request_of payload id = record {
    deployment_id = id;
    timestamp = timestamp_of payload.timestamp;
    status_code = payload.status_code;
    latency = payload.latency;
    bytes_sent = payload.bytes_sent;
    bytes_received = payload.bytes_received;
    path = payload.path;
  }

  abbrev pub add_request : DeploymentRequestPayload → Text → BatchLoop → BatchLoop
  add_request payload id loop = record loop {
    requests = loop.requests ++ request_of payload id ∷ [];
  }

  abbrev pub after_lookup : DeploymentRequestPayload → Text → Option Text → BatchLoop → BatchLoop
  after_lookup payload identifier none loop =
      drop_one (record loop { unresolved = identifier ∷ loop.unresolved })
  after_lookup payload identifier (some id) loop =
      add_request payload id (record loop { resolved = (identifier, id) ∷ loop.resolved })

  abbrev pub known_or_look_up :
      DeploymentRequestPayload
      → Text
      → Option Text
      → BatchLoop
      → Program (TelemetryState S) BatchLoop
  known_or_look_up payload identifier (some id) loop st = (add_request payload id loop, st)
  known_or_look_up payload identifier none loop st =
      let (r, st') = resolve_telemetry_deployment_id deployments now identifier st in
      (after_lookup payload identifier r loop, st')

  -- One turn of the loop.
  unfoldable pub take_request :
      DeploymentRequestPayload → BatchLoop → Program (TelemetryState S) BatchLoop
  unfolding trim_space is_among value_of resolve_telemetry_deployment_id
  take_request payload loop st =
      let identifier = trim_space payload.deployment_id in
      if is_empty identifier || not (is_http_status payload.status_code)
      then (drop_one loop, st)
      else if is_among identifier loop.unresolved
      then (drop_one loop, st)
      else known_or_look_up payload identifier (value_of identifier loop.resolved) loop st

  unfoldable pub take_requests :
      List DeploymentRequestPayload → BatchLoop → Program (TelemetryState S) BatchLoop
  unfolding take_request
  take_requests [] loop st = (loop, st)
  take_requests (payload ∷ payloads) loop st =
      let (loop', st') = take_request payload loop st in take_requests payloads loop' st'

  module _ (analytics : Option (RequestRepository S)) where
    abbrev pub counted : Option Text → ℕ × ℕ → ℕ × ℕ
    counted none (kept, lost) = (kept + 1, lost)
    counted (some e) (kept, lost) = (kept, lost + 1)

    -- One call of `RecordRequest` for each, and how many of them succeed and fail.
    unfoldable pub record_each :
        RequestRepository S → List DeploymentRequest → ℕ × ℕ → Program S (ℕ × ℕ)
    record_each repo [] counts s = (counts, s)
    record_each repo (req ∷ reqs) counts s =
        let (r, s') = repo.record_request req s in record_each repo reqs (counted r counts) s'

    abbrev pub all_counted : List DeploymentRequest → Option Text → ℕ × ℕ
    all_counted reqs none = (length reqs, 0)
    all_counted reqs (some e) = (0, length reqs)

    abbrev pub record_with :
        RequestRepository S
        → Option (List DeploymentRequest → Program S (Option Text))
        → List DeploymentRequest
        → Program S (ℕ × ℕ)
    record_with repo none reqs s = record_each repo reqs (0, 0) s
    record_with repo (some batch) reqs s = let (r, s') = batch reqs s in (all_counted reqs r, s')

    unfoldable pub record_all : List DeploymentRequest → Program S (ℕ × ℕ)
    unfolding record_each
    record_all reqs s = elim analytics [
      | none ↦ ((length reqs, 0), s)
      | some repo ↦ record_with repo repo.record_request_batch reqs s
    ]

    unfoldable pub record_deployment_request_batch :
        List DeploymentRequestPayload → Program (TelemetryState S) BatchReply
    unfolding take_requests record_all
    record_deployment_request_batch payloads st =
        let (loop, st') = take_requests payloads empty_loop st in
        let (counts, s) = record_all loop.requests st'.store in
        (
          record {
            recorded = counts.0;
            failed = counts.1;
            dropped = loop.dropped;
            total = length payloads;
          },
          record st' { store = s },
        )

    abbrev record_one : DeploymentRequest → Program S (Unit {0})
    record_one req s = elim analytics [
      | none ↦ (tt, s)
      | some repo ↦ (tt, (repo.record_request req s).1)
    ]

    abbrev after_single :
        DeploymentRequestPayload → Option Text → Program (TelemetryState S) SingleReply
    after_single payload none st = (dropped (codes "unknown_deployment"), st)
    after_single payload (some id) st =
        (recorded, record st { store = (record_one (request_of payload id) st.store).1 })

    -- An error of the repository is not told.
    unfoldable pub record_deployment_request :
        DeploymentRequestPayload → Program (TelemetryState S) SingleReply
    unfolding resolve_telemetry_deployment_id
    record_deployment_request payload st =
        if is_empty payload.deployment_id
        then (refused (codes "deployment_id is required"), st)
        else if not (is_http_status payload.status_code)
        then (dropped (codes "invalid_status_code"), st)
        else (let (r, st') =
              resolve_telemetry_deployment_id deployments now payload.deployment_id st in
            after_single payload r st')
