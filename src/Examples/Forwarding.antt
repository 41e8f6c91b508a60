-- ===== src/Examples/Forwarding.antt =====
-- The theorems on the traffic forwarder at concrete data.
use mesh_vpn.Text.{Text, codes, is_empty}
use mesh_vpn.Base.Int.{pos, ℤ}
use mesh_vpn.Forwarder.Sender.{
  tick, answered, Environment, Move, TelemetryPayload, new_telemetry_sender, offer, run_moves,
  receive_next,
}
use mesh_vpn.Forwarder.Hosts.{base_of, extract_subdomain, normalize_host}
use mesh_vpn.Forwarder.Sender.Accounting.{IsAccounted, run_moves-IsAccounted}
use mesh_vpn.Forwarder.Hosts.Names.{IsNameIn, extract_subdomain-IsNameIn}
use mesh_vpn.Base.{Bool, List, Option, [], false, none, refl, ◌↔◌, ◌∷◌, ◌≡◌}

abbrev a_payload : TelemetryPayload
a_payload = record {
  deployment_id = codes "app";
  status_code = pos 200;
  latency = pos 1500;
  bytes_sent = pos 10;
  bytes_received = pos 0;
  path = codes "/";
  timestamp = [];
}

-- Batches of two, and a queue of three.
abbrev small_environment : Environment
small_environment = record {
  batch_size = codes "2";
  queue_size = codes "3";
  flush_interval = [];
  http_timeout = [];
}

abbrev no_duration : Text → Option ℤ
no_duration text = none

abbrev some_moves : List Move
some_moves =
    offer a_payload
    ∷ offer a_payload
    ∷ offer a_payload
    ∷ offer a_payload
    ∷ receive_next (answered 500, answered 200)
    ∷ receive_next (answered 500, answered 200)
    ∷ receive_next (answered 200, answered 200)
    ∷ tick (answered 500, answered 500)
    ∷ []

run_moves-IsAccounted_example :
    IsAccounted 4 (
      run_moves some_moves
        (new_telemetry_sender no_duration small_environment (codes "http://cp/")))
run_moves-IsAccounted_example =
    run_moves-IsAccounted no_duration small_environment (codes "http://cp/") some_moves

-- One is dropped, two are sent at the second try, and one fails.
moves_run :
    let s =
      run_moves some_moves
        (new_telemetry_sender no_duration small_environment (codes "http://cp/")) in
    (s.dropped ≡ 1) × (s.sent ≡ 2) × (s.failed ≡ 1) × (s.queue ≡ [])
unfolding run_moves new_telemetry_sender is_empty
moves_run = (refl, refl, refl, refl)

abbrev no_ip : Text → Bool
no_ip host = false

extract_subdomain-IsNameIn_example :
    (extract_subdomain no_ip (codes "app.x.org") (codes ".X.org") ≡ codes "app")
    ↔ IsNameIn (codes "app.x.org") (base_of (codes ".X.org")) (codes "app")
extract_subdomain-IsNameIn_example =
    extract_subdomain-IsNameIn no_ip (codes ".X.org") (codes "app") (unfold is_empty in refl)
      (unfold base_of is_empty in refl) (codes "app.x.org") refl

name_runs :
    extract_subdomain no_ip (normalize_host (codes "App.x.org:443") []) (codes ".X.org")
    ≡ codes "app"
unfolding extract_subdomain normalize_host is_empty
name_runs = refl
