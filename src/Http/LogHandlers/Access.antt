-- ===== src/Http/LogHandlers/Access.antt =====
-- Who may read logs by the handlers of control-plane/internal/httpapi/handlers.go.
use mesh_vpn.Store.Errors.{ok, Result}
use mesh_vpn.Domain.{DeploymentRecord}
use mesh_vpn.Text.{Text, is_empty, trim_space}
use mesh_vpn.Base.Int.{ℤ}
use mesh_vpn.Http.LogHandlers.{
  LogsReply, access_denied, client_error, cursor_of, get_app_logs, get_build_logs, logs_failed,
  may_view, read, read_app_logs, refused_or, reply_app_logs, stream_build_logs, tail_of,
  build_logs_of,
}
use mesh_vpn.Text.Laws.{text_eq_iff, text_eq_refl}
use mesh_vpn.Base.{List, Option, arith, false, none, refl, some, ℕ, ◌≡◌, ◌≢◌}

may_view-foreign :
    (user : Text) (rec : DeploymentRecord)
    → is_empty rec.user_id ≡ false
    → rec.user_id ≢ user
    → may_view (some user) rec ≡ false
unfolding may_view
may_view-foreign user rec owned foreign = ground (arith, text_eq_iff rec.user_id user)

-- What `GetAppLogs` answers to someone else for what the container gave.
abbrev pub foreign_answer : DeploymentRecord → Text × Option Text → LogsReply
foreign_answer rec (logs, none) = access_denied
foreign_answer rec (logs, some e) = refused_or (client_error e) e (logs_failed e rec.container logs)

-- The logs of a deployment with an owner are refused to every other user whom the sign-in set in the
-- context, the build logs whole and as a stream, and those of a container that is there and gives them
-- without an error. But where the container gives an error that is not one of the client's, the answer
-- holds the name of the container and what logs it gave, whoever asks. And where the sign-in set no
-- user, as it does without a table of users, the build logs are given to whoever asks, and those of the
-- container as to the owner.
pub foreign_logs :
    (container_logs : Text → ℤ → Text × Option Text) (user tail_query cursor_query : Text)
    (tail : ℤ) (cursor : Option ℕ) (rec : DeploymentRecord) (reads : List (Result DeploymentRecord))
    → is_empty rec.user_id ≡ false
    → rec.user_id ≢ user
    → tail_of tail_query ≡ some tail
    → cursor_of cursor_query ≡ some cursor
    → is_empty (trim_space rec.container) ≡ false
    → (get_build_logs (some user) (ok rec) ≡ access_denied)
      × (stream_build_logs (some user) (ok rec) reads ≡ access_denied)
      × (get_app_logs container_logs (some user) tail_query cursor_query (ok rec)
          ≡ foreign_answer rec (container_logs rec.container tail))
      × (get_build_logs none (ok rec) ≡ build_logs_of rec.deployment_id rec.status rec.build_logs)
      × (get_app_logs container_logs none tail_query cursor_query (ok rec)
          ≡ get_app_logs container_logs (some rec.user_id) tail_query cursor_query (ok rec))
unfolding get_build_logs stream_build_logs get_app_logs read_app_logs may_view
foreign_logs container_logs user tail_query cursor_query tail cursor rec reads owned foreign t c
      there =
    (
      rw denied refl,
      rw denied refl,
      rw (t, c, there) (answered (container_logs rec.container tail)),
      refl,
      rw (t, c, there) (as_owner (container_logs rec.container tail)),
    )
  where
    denied : may_view (some user) rec ≡ false
    denied = may_view-foreign user rec owned foreign

    answered :
        (given : Text × Option Text)
        → reply_app_logs (some user) tail cursor (read rec given.0 given.1)
          ≡ foreign_answer rec given
    answered (logs, none) = rw denied refl
    answered (logs, some e) = refl

    as_owner :
        (given : Text × Option Text)
        → reply_app_logs none tail cursor (read rec given.0 given.1)
          ≡ reply_app_logs (some rec.user_id) tail cursor (read rec given.0 given.1)
    as_owner (logs, none) = rw (text_eq_refl rec.user_id, owned) refl
    as_owner (logs, some e) = refl
