-- ===== src/Examples/Requests.antt =====
-- The theorems on the sign-in and on the handlers of logs at concrete data.
use mesh_vpn.Store.Users
use mesh_vpn.Store.Users.{User, UserTable}
use mesh_vpn.Store.Errors.{err, ok, deployment_not_found, Result}
use mesh_vpn.Domain.{DeploymentRecord}
use mesh_vpn.Text.{Text, codes, is_empty, text_eq, to_lower, trim_space}
use mesh_vpn.Base.{
  List, Option, [], first, if◌then◌else◌, none, refl, some, true, ◌∷◌, ◌≡◌, ap, false≢true, sym,
}
use mesh_vpn.Base.Int.{pos, ℤ}
use mesh_vpn.Http.Auth.{
  AuthRequest, Claims, Identity, Jwt, Middleware, hmac, load_user, require_supabase_auth, signed_in,
}
use mesh_vpn.Http.LogHandlers.{
  access_denied, cursor_of, get_app_logs, get_build_logs, is_terminal_build_status, may_view,
  stream_build_logs, tail_of, build_logs_of,
}
use mesh_vpn.Http.LogHandlers.Streamed.{
  completions, events_of, last_read, reaches_end, shown, stream_build_logs-shown,
}
use mesh_vpn.Http.LogHandlers.Access.{foreign_answer, foreign_logs}
use mesh_vpn.Http.Auth.FirstLogin.{as_new, load_user-stored}
use mesh_vpn.Http.Auth.Authentic.{Passes, require_supabase_auth-Passes}
use mesh_vpn.Http.Auth.Keys.{Codec, Network, unreachable}
use mesh_vpn.Examples.Data.{a_deployment}

abbrev building : Text → DeploymentRecord
building logs = record (a_deployment (codes "d1") [] (codes "deploying")) {
  build_logs = logs;
  user_id = codes "u1";
  container = codes "app-d1";
}

abbrev built : Text → DeploymentRecord
built logs = record (building logs) { status = codes "running" }

abbrev ticks_read : List (Result DeploymentRecord)
ticks_read = ok (building (codes "ab")) ∷ ok (built (codes "abcd")) ∷ err deployment_not_found ∷ []

stream_build_logs-shown_example :
    let es =
      events_of (stream_build_logs (some (codes "u1")) (ok (building (codes "a"))) ticks_read) in
    (shown es ≡ last_read [] (ok (building (codes "a")) ∷ ticks_read))
    × (completions es ≡ (if reaches_end (ok (building (codes "a")) ∷ ticks_read) then 1 else 0))
stream_build_logs-shown_example =
    stream_build_logs-shown (some (codes "u1")) (building (codes "a")) ticks_read
      (unfold may_view text_eq is_empty in refl) ((codes "b", refl), ((codes "cd", refl), tt))

stream_runs :
    shown (events_of (stream_build_logs none (ok (building (codes "a"))) ticks_read)) ≡ codes "abcd"
unfolding stream_build_logs shown to_lower trim_space is_terminal_build_status
stream_runs = refl

abbrev broken_logs : Text → ℤ → Text × Option Text
broken_logs container tail = (codes "secret", some (codes "exit status 1"))

foreign_logs_example :
    (get_build_logs (some (codes "u2")) (ok (building (codes "a"))) ≡ access_denied)
    × (stream_build_logs (some (codes "u2")) (ok (building (codes "a"))) ticks_read ≡ access_denied)
    × (get_app_logs broken_logs (some (codes "u2")) [] [] (ok (building (codes "a")))
        ≡ foreign_answer (building (codes "a")) (broken_logs (codes "app-d1") (pos 200)))
    × (get_build_logs none (ok (building (codes "a")))
        ≡ build_logs_of (codes "d1") (codes "deploying") (codes "a"))
    × (get_app_logs broken_logs none [] [] (ok (building (codes "a")))
        ≡ get_app_logs broken_logs (some (codes "u1")) [] [] (ok (building (codes "a"))))
unfolding tail_of cursor_of is_empty text_eq trim_space
foreign_logs_example =
    foreign_logs broken_logs (codes "u2") [] [] (pos 200) none (building (codes "a")) ticks_read
      refl (λ e. false≢true (sym (ap (λ t. text_eq (codes "u1") t) e))) refl refl refl

abbrev given_claims : Claims
given_claims = record {
  sub = codes "u1";
  email = codes "u1@x.org";
  provider = [];
  app_provider = codes "GitHub";
  app_providers = [];
  meta_provider = none;
  expires_at = some 100;
}

abbrev a_jwt : Jwt
a_jwt = record { method = λ token. some hmac; check = λ now token key. some given_claims }

abbrev a_codec : Codec
a_codec = record {
  decode_base64 = λ text. none;
  decode_raw_url = λ text. none;
  parse_pem = λ text. none;
  bytes = λ text. text;
}

abbrev a_middleware : Middleware
a_middleware = record {
  supabase_url = [];
  supabase_anon_key = [];
  jwt_secret = codes "secret";
  require_auth = true;
}

abbrev an_auth_request : AuthRequest
an_auth_request = record {
  method = codes "GET";
  path = codes "/deployments/d1/build-logs/stream";
  authorization = [];
  token = codes "t0";
}

abbrev no_network : Network
no_network now url key = unreachable

require_supabase_auth-Passes_example :
    Passes 50 a_middleware a_jwt a_codec no_network an_auth_request none
      (require_supabase_auth
        (some Users.user_repository)
        50
        a_middleware
        a_jwt
        a_codec
        no_network
        an_auth_request
        (record { rows = []; faults = [] }, none)).0
require_supabase_auth-Passes_example =
    require_supabase_auth-Passes 50 a_middleware a_jwt a_codec no_network
      (some Users.user_repository) an_auth_request (record { rows = []; faults = [] }) none

abbrev a_subscriber : User
a_subscriber = record {
  user_id = codes "u1";
  email = codes "u1@x.org";
  provider = codes "github";
  is_subscriber = true;
  subscription_tier = codes "pro";
  created_at = 5;
  updated_at = 5;
}

abbrev who_signs_in : Identity
who_signs_in = record { sub = codes "u1"; email = codes "u1@x.org"; provider = codes "github" }

load_user-stored_example :
    let load = load_user (some Users.user_repository) 50 who_signs_in in
    let rows = a_subscriber ∷ [] in
    let calm = load (record { rows = rows; faults = [] }) in
    let failing = load (record { rows = rows; faults = some (codes "timeout") ∷ none ∷ [] }) in
    (calm.0 ≡ signed_in who_signs_in (some a_subscriber))
    × (calm.1.rows ≡ rows)
    × (failing.0 ≡ signed_in who_signs_in (some (as_new who_signs_in 0 0)))
    × (first (Users.has_user_id (codes "u1")) failing.1.rows
        ≡ some (as_new who_signs_in a_subscriber.created_at 50))
load_user-stored_example =
    load_user-stored 50 who_signs_in a_subscriber (a_subscriber ∷ []) (codes "timeout") []
      (unfold first text_eq in refl) (unfold is_empty in refl)
