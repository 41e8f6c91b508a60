-- ===== src/Forwarder/LogLines.antt =====
-- `processLogLine` of tools/traffic-forwarder/main.go. What `encoding/json` makes of a line is a parameter.
use mesh_vpn.Text.{Text, is_empty, trim_space}
use mesh_vpn.Forwarder.Sender.{TelemetryPayload, TelemetrySender, enqueue}
use mesh_vpn.Base.{Bool, List, Option, [], if◌then◌else◌, none, not, some, ◌&&◌, ◌∷◌}
use mesh_vpn.Base.Int.{le_ℤ, pos, ℤ}
use mesh_vpn.Forwarder.Hosts.{extract_subdomain, normalize_host}
use mesh_vpn.Agent.Manifest.{line, lines}

pub record TraefikAccessLog : Type 0 where
  pub request_host : Text
  pub request_addr : Text
  pub request_path : Text
  pub origin_status : ℤ
  pub downstream_status : ℤ
  pub duration : ℤ
  pub origin_content_size : ℤ
  pub request_content_size : ℤ
  pub time : Text

-- The status of the origin, or where it has none that of the answer.
abbrev pub status_code_of : TraefikAccessLog → ℤ
status_code_of entry =
    if le_ℤ entry.origin_status (pos 0) then entry.downstream_status else entry.origin_status

abbrev pub is_http_status : ℤ → Bool
is_http_status n = le_ℤ (pos 100) n && le_ℤ n (pos 599)

abbrev pub payload_of : TraefikAccessLog → Text → TelemetryPayload
payload_of entry name = record {
  deployment_id = name;
  status_code = status_code_of entry;
  latency = entry.duration;
  bytes_sent = entry.origin_content_size;
  bytes_received = entry.request_content_size;
  path = entry.request_path;
  timestamp = entry.time;
}

module _ (is_ip : Text → Bool) (app_base_domain : Text) where
  -- The name of the deployment that an entry is about, or the empty text.
  unfoldable pub name_in : TraefikAccessLog → Text
  unfolding normalize_host extract_subdomain
  name_in entry =
      extract_subdomain is_ip (normalize_host entry.request_host entry.request_addr) app_base_domain

  unfoldable pub process_entry : TraefikAccessLog → TelemetrySender → TelemetrySender
  unfolding name_in enqueue
  process_entry entry s =
      if is_http_status (status_code_of entry) && not (is_empty (name_in entry))
      then enqueue (payload_of entry (name_in entry)) s
      else s

  -- A line that is no JSON is skipped.
  unfoldable pub process_log_line :
      (Text → Option TraefikAccessLog) → Text → TelemetrySender → TelemetrySender
  unfolding process_entry
  process_log_line decode line s = elim (decode line) [
    | none ↦ s
    | some entry ↦ process_entry entry s
  ]

  -- The lines of the scanner, without the blank ones.
  unfoldable pub process_lines :
      (Text → Option TraefikAccessLog) → List Text → TelemetrySender → TelemetrySender
  unfolding process_log_line trim_space
  process_lines decode [] s = s
  process_lines decode (line ∷ lines) s =
      let s' =
        if is_empty (trim_space line) then s else process_log_line decode (trim_space line) s in
      process_lines decode lines s'
