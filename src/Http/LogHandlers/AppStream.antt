-- ===== src/Http/LogHandlers/AppStream.antt =====
-- `StreamAppLogs` of control-plane/internal/httpapi/handlers.go. Every two seconds it reads the logs of
-- the container again, as their last lines; what it reads is an argument.
use mesh_vpn.Domain.{DeploymentRecord}
use mesh_vpn.Text.{Text, codes, replace_all}
use mesh_vpn.Store.Errors.{Result}
use mesh_vpn.Base.{
  List, Option, [], drop, false, if◌then◌else◌, length, ltb, none, some, true, ℕ, ◌++◌, ◌∷◌,
}
use mesh_vpn.Base.Int.{ℤ}
use mesh_vpn.Http.LogHandlers.{
  AppLogsRead, LogsReply, StreamEvent, access_denied, app_chunk, client_error, events, may_view,
  read, read_app_logs, refused, refused_or, stream_error, tail_of, unread,
}

-- A quote in the text of an error becomes an apostrophe.
abbrev shown_error : Text → StreamEvent
shown_error text = stream_error (replace_all b'"' 0x27 text)

-- The events of a read from a cursor on, and the cursor behind them.
abbrev app_events : ℕ → DeploymentRecord → Text → List StreamEvent
app_events cursor rec logs =
    if ltb (length logs) cursor
    then app_chunk rec.container logs (length logs) true ∷ []
    else if ltb cursor (length logs)
    then app_chunk rec.container (drop cursor logs) (length logs) false ∷ []
    else []

unfoldable pub app_stream_from : ℕ → List AppLogsRead → List StreamEvent
unfolding replace_all
app_stream_from cursor [] = []
app_stream_from cursor (unread e ∷ reads) = shown_error e ∷ app_stream_from cursor reads
app_stream_from cursor (read rec logs (some e) ∷ reads) =
    shown_error e ∷ app_stream_from cursor reads
app_stream_from cursor (read rec logs none ∷ reads) =
    app_events cursor rec logs ++ app_stream_from (length logs) reads

-- The first piece, with all logs that there are.
abbrev first_events : DeploymentRecord → Text → List StreamEvent
first_events rec logs =
    if ltb 0 (length logs) then app_chunk rec.container logs (length logs) false ∷ [] else []

abbrev refused_as : Text → LogsReply
refused_as text = refused_or (client_error text) text (refused 500 text)

abbrev stream_read : Option Text → AppLogsRead → List AppLogsRead → LogsReply
stream_read user (unread e) reads = refused_as e
stream_read user (read rec logs (some e)) reads = refused_as e
stream_read user (read rec logs none) reads =
    if may_view user rec
    then events (first_events rec logs ++ app_stream_from (length logs) reads)
    else access_denied

unfoldable pub stream_app_logs :
    (Text → ℤ → Text × Option Text)
    → Option Text
    → Text
    → Result DeploymentRecord
    → List AppLogsRead
    → LogsReply
unfolding tail_of read_app_logs client_error may_view app_stream_from
stream_app_logs container_logs user tail_query found reads = elim (tail_of tail_query) [
  | none ↦ refused 400 (codes "tail must be a positive integer")
  | some tail ↦ stream_read user (read_app_logs container_logs tail found) reads
]
