-- ===== src/Forwarder.antt =====
-- The traffic forwarder (tools/traffic-forwarder/main.go): it reads the access log of the proxy, and sends
-- what concerns a deployment to the control plane, in batches.
pub mod Hosts
pub mod Sender
pub mod LogLines
pub mod Traefik
