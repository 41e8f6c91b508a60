-- ===== src/Http/LogHandlers.antt =====
-- The handlers of logs of control-plane/internal/httpapi/handlers.go, and `GetAppLogs` of
-- control-plane/internal/service/deployments.go. A text of logs is the list of its bytes here, since
-- offsets count bytes. A stream reads its deployment once a second until the client is gone: what it
-- reads is an argument.
pub mod Streamed
pub mod Access
pub mod AppStream
use mesh_vpn.Store.Errors.{err, ok, Error, Result, database, deployment_not_found}
use mesh_vpn.Domain.{DeploymentRecord}
use mesh_vpn.Text.{Text, codes, contains_text, is_empty, text_eq, to_lower, trim_space}
use mesh_vpn.Base.{
  Bool, List, Option, [], drop, false, if◌then◌else◌, length, ltb, none, some, true, ◌++◌, ◌||◌,
  ◌∷◌, ℕ,
}
use mesh_vpn.Base.Int.{le_ℤ, lt_ℤ, pos, ℤ}
use mesh_vpn.Text.Numbers.{atoi}

-- The user of the sign-in, if there is one, may see a deployment that is his or nobody's.
unfoldable pub may_view : Option Text → DeploymentRecord → Bool
unfolding text_eq
may_view none rec = true
may_view (some user) rec = is_empty rec.user_id || text_eq rec.user_id user

pub record AppLogs : Type 0 where
  pub deployment_id : Text
  pub container : Text
  pub tail : ℤ
  pub cursor : ℕ
  pub next_cursor : ℕ
  pub delta : Bool
  pub application_logs : Text

-- An event of a stream: a piece of build logs with the offset behind it, the end of the build, or a
-- piece of the logs of an application with the new cursor, which may start anew.
pub data StreamEvent : Type 0 where
  build_chunk : Text → Text → ℕ → StreamEvent
  build_complete : Text → ℕ → StreamEvent
  app_chunk : Text → Text → ℕ → Bool → StreamEvent
  stream_error : Text → StreamEvent

pub data LogsReply : Type 0 where
  refused : ℕ → Text → LogsReply
  build_logs_of : Text → Text → Text → LogsReply
  app_logs_of : AppLogs → LogsReply
  -- the body behind an error of the container: its text, the container and the logs
  logs_failed : Text → Text → Text → LogsReply
  events : List StreamEvent → LogsReply

abbrev pub access_denied : LogsReply
access_denied = refused 403 (codes "access denied")

-- `getErr.Error()` of the errors that `Get` returns
abbrev get_error_text : Error → Text
get_error_text deployment_not_found = codes "deployment not found"
get_error_text (database text) = text
get_error_text _ = []

unfoldable pub get_build_logs : Option Text → Result DeploymentRecord → LogsReply
unfolding may_view
get_build_logs user (err e) = refused 404 (get_error_text e)
get_build_logs user (ok rec) =
    if may_view user rec
    then build_logs_of rec.deployment_id rec.status rec.build_logs
    else access_denied

unfoldable pub is_terminal_build_status : Text → Bool
unfolding to_lower trim_space text_eq
is_terminal_build_status status =
    text_eq (to_lower (trim_space status)) (codes "running")
    || text_eq (to_lower (trim_space status)) (codes "failed")

-- The chunk of `sendDelta`, and the offset behind it.
abbrev pub delta_of : ℕ → DeploymentRecord → List StreamEvent
delta_of offset rec =
    if ltb offset (length rec.build_logs)
    then build_chunk rec.status (drop offset rec.build_logs) (length rec.build_logs) ∷ []
    else []

abbrev pub offset_behind : ℕ → DeploymentRecord → ℕ
offset_behind offset rec =
    if ltb offset (length rec.build_logs) then length rec.build_logs else offset

-- What is sent from an offset on, for what the ticks read.
unfoldable pub stream_from : ℕ → List (Result DeploymentRecord) → List StreamEvent
unfolding is_terminal_build_status
stream_from offset [] = []
stream_from offset (err e ∷ reads) = stream_error (codes "deployment not found") ∷ []
stream_from offset (ok rec ∷ reads) =
    let rest = stream_from (offset_behind offset rec) reads in
    delta_of offset rec
    ++ (if is_terminal_build_status rec.status
        then build_complete rec.status (offset_behind offset rec) ∷ []
        else rest)

unfoldable pub stream_build_logs :
    Option Text → Result DeploymentRecord → List (Result DeploymentRecord) → LogsReply
unfolding may_view stream_from
stream_build_logs user (err e) reads = refused 404 (get_error_text e)
stream_build_logs user (ok rec) reads =
    if may_view user rec then events (stream_from 0 (ok rec ∷ reads)) else access_denied

-- What `service.GetAppLogs` returns: an error text, or the record and the logs of its container with
-- the error text of the runner.
pub data AppLogsRead : Type 0 where
  unread : Text → AppLogsRead
  read : DeploymentRecord → Text → Option Text → AppLogsRead

-- `container_logs` is the runner's method.
unfoldable pub read_app_logs :
    (Text → ℤ → Text × Option Text) → ℤ → Result DeploymentRecord → AppLogsRead
unfolding trim_space
read_app_logs container_logs tail (err e) = unread (get_error_text e)
read_app_logs container_logs tail (ok rec) =
    if is_empty (trim_space rec.container)
    then unread (codes "deployment has no running container")
    else (let (logs, e) = container_logs rec.container tail in read rec logs e)

-- The query `tail`: none where it is refused.
abbrev limited : ℤ → Option ℤ
limited n = if le_ℤ n (pos 0) then none else if lt_ℤ (pos 5000) n then some (pos 5000) else some n

abbrev limited_or_none : Option ℤ → Option ℤ
limited_or_none none = none
limited_or_none (some n) = limited n

unfoldable pub tail_of : Text → Option ℤ
unfolding trim_space atoi
tail_of raw =
    if is_empty (trim_space raw) then some (pos 200) else limited_or_none (atoi (trim_space raw))

-- The query `cursor`: none where it is refused, and none inside where it is not given.
abbrev not_negative : Option ℤ → Option (Option ℕ)
not_negative (some (pos n)) = some (some n)
not_negative _ = none

unfoldable pub cursor_of : Text → Option (Option ℕ)
unfolding trim_space atoi
cursor_of raw =
    if is_empty (trim_space raw) then some none else not_negative (atoi (trim_space raw))

-- The status for an error text of `service.GetAppLogs`, or none for an error of the server.
unfoldable pub client_error : Text → Option ℕ
unfolding contains_text
client_error text =
    if contains_text (codes "not found") text
    then some 404
    else if contains_text (codes "no running container") text
        || contains_text (codes "no running") text
    then some 400
    else none

abbrev pub refused_or : Option ℕ → Text → LogsReply → LogsReply
refused_or none text reply = reply
refused_or (some status) text reply = refused status text

abbrev cut_logs : DeploymentRecord → ℤ → Text → Option ℕ → AppLogs
cut_logs rec tail logs cursor =
    let whole : AppLogs = record {
      deployment_id = rec.deployment_id;
      container = rec.container;
      tail = tail;
      cursor = 0;
      next_cursor = length logs;
      delta = false;
      application_logs = logs;
    } in
    elim cursor [
      | none ↦ whole
      | some at ↦
          let from = if ltb (length logs) at then 0 else at in
          record whole { cursor = from; delta = true; application_logs = drop from logs }
    ]

-- The error comes before the question who may see the deployment.
abbrev pub reply_app_logs : Option Text → ℤ → Option ℕ → AppLogsRead → LogsReply
reply_app_logs user tail cursor (unread e) = refused_or (client_error e) e (logs_failed e [] [])
reply_app_logs user tail cursor (read rec logs (some e)) =
    refused_or (client_error e) e (logs_failed e rec.container logs)
reply_app_logs user tail cursor (read rec logs none) =
    if may_view user rec then app_logs_of (cut_logs rec tail logs cursor) else access_denied

module _ (container_logs : Text → ℤ → Text × Option Text) (user : Option Text) where
  abbrev with_cursor : ℤ → Result DeploymentRecord → Option (Option ℕ) → LogsReply
  with_cursor tail found none = refused 400 (codes "cursor must be a non-negative integer")
  with_cursor tail found (some cursor) =
      reply_app_logs user tail cursor (read_app_logs container_logs tail found)

  abbrev with_tail : Text → Result DeploymentRecord → Option ℤ → LogsReply
  with_tail cursor found none = refused 400 (codes "tail must be a positive integer")
  with_tail cursor found (some tail) = with_cursor tail found (cursor_of cursor)

  -- `found` is what `Get` answers for the id of the path.
  unfoldable pub get_app_logs : Text → Text → Result DeploymentRecord → LogsReply
  unfolding may_view client_error read_app_logs cursor_of tail_of
  get_app_logs tail cursor found = with_tail cursor found (tail_of tail)
