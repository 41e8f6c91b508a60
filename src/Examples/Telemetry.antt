-- ===== src/Examples/Telemetry.antt =====
-- The theorems on the handlers of telemetry at concrete data.
use mesh_vpn.Store.Memory
use mesh_vpn.Service.Deployments.{id_of_subdomain, equal_fold}
use mesh_vpn.Text.{is_empty, contains_char, to_lower}
use mesh_vpn.Store.Memory.{Memory, store}
use mesh_vpn.Examples.Data.{one_deployment, a_deployment}
use mesh_vpn.Domain.{DeploymentRecord}
use mesh_vpn.Text.{Text, codes}
use mesh_vpn.Store.Memory.Lawful.{memory_laws}
use mesh_vpn.Base.{List, Option, [], length, none, refl, some, ℕ, ◌+◌, ◌∷◌, ◌≡◌}
use mesh_vpn.Base.Int.{pos, ℤ}
use mesh_vpn.Http.Telemetry.{
  BatchLoop, BatchReply, DeploymentRequestPayload, RequestRepository, empty_loop,
  record_deployment_request_batch, take_requests,
}
use mesh_vpn.Http.Telemetry.Recorded.{IsTaken, take_requests-IsTaken}
use mesh_vpn.Http.Telemetry.Resolver.{TelemetryState}
use mesh_vpn.Http.Telemetry.Accounts.{record_deployment_request_batch-IsCounted}

abbrev stored_app : DeploymentRecord
stored_app = a_deployment (codes "d1") [] (codes "running")

abbrev with_app : Memory
with_app = one_deployment (record stored_app { subdomain = codes "app" })

abbrev hit_on : Text → ℤ → DeploymentRequestPayload
hit_on name status = record {
  deployment_id = name;
  status_code = status;
  latency = pos 5000000;
  bytes_sent = pos 10;
  bytes_received = pos 20;
  path = codes "/";
  method = codes "GET";
  timestamp = [];
}

-- Three of the four are dropped: two of an unknown name, and one without a status.
abbrev hits : List DeploymentRequestPayload
hits =
    hit_on (codes "app") (pos 200)
    ∷ hit_on (codes "other") (pos 200)
    ∷ hit_on (codes "other") (pos 404)
    ∷ hit_on (codes "app") (pos 0)
    ∷ []

abbrev recorder : RequestRepository Memory
recorder = record { record_request = λ req s. (none, s); record_request_batch = none }

abbrev no_time : Text → Option ℕ
no_time raw = none

abbrev before : TelemetryState Memory
before = record { store = with_app; cache = [] }

abbrev counted_reply : BatchReply
counted_reply =
    (record_deployment_request_batch (some Memory.deployment_repository) 90 no_time (some recorder)
      hits before).0

record_deployment_request_batch-IsCounted_example :
    (counted_reply.recorded + counted_reply.failed + counted_reply.dropped ≡ counted_reply.total)
    × (counted_reply.total ≡ length hits)
record_deployment_request_batch-IsCounted_example =
    record_deployment_request_batch-IsCounted (some Memory.deployment_repository) 90 no_time
      (some recorder) hits before

counted_reply_run : counted_reply.recorded ≡ 1
unfolding record_deployment_request_batch is_empty Memory.get id_of_subdomain Memory.list equal_fold
    contains_char to_lower
counted_reply_run = refl

abbrev taken : BatchLoop × TelemetryState Memory
taken = take_requests (some Memory.deployment_repository) 90 no_time hits empty_loop before

take_requests-IsTaken_example :
    IsTaken Memory.deployment_repository Memory.job_repository memory_laws 90 no_time with_app
      taken.0 taken.1
take_requests-IsTaken_example =
    take_requests-IsTaken Memory.deployment_repository Memory.job_repository memory_laws 90 no_time
      hits with_app empty_loop [] (record { kept = refl; backed = tt; known = tt; recordable = tt })
