-- ===== src/Http/Replies.antt =====
-- What the handlers of control-plane/internal/httpapi answer: a status and a body.
use mesh_vpn.Domain.{DeploymentJob, Worker}
use mesh_vpn.Text.{Text}
use mesh_vpn.Base.{List, Option, ℕ}

pub data Body : Type 0 where
  error_body status_body : Text → Body
  worker_body : Worker → Body
  job_body : Option DeploymentJob → Body
  workers_body : List Worker → Body

pub record Reply : Type 0 where
  pub code : ℕ
  pub body : Body

abbrev pub bad_request : Text → Reply
bad_request text = record { code = 400; body = error_body text }

abbrev pub server_error : Text → Reply
server_error text = record { code = 500; body = error_body text }

abbrev pub success : Body → Reply
success body = record { code = 200; body = body }
