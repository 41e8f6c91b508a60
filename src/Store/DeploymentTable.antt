-- ===== src/Store/DeploymentTable.antt =====
-- The table `deployments` and the statements of control-plane/internal/store/postgres_deployments.go.
-- A row is held as the record that it reads as. Times are in nanoseconds here. The nullable text columns are written through
-- `NULLIF`, so that a column is NULL exactly where the text is empty, and all but one are read back
-- through `sql.NullString`: NULL as the empty text. The column `requested_by` is scanned into a Go
-- string, which fails on NULL. The migrations make `scaling_mode` NOT NULL, `deployment_id` the primary
-- key, and `user_id` a reference to the table of users.
pub mod Writes
use mesh_vpn.Domain.{DeploymentRecord, StringMap}
use mesh_vpn.Base.Int.{le_ℤ, negsuc, pos, ℤ}
use mesh_vpn.Text.{Text, contains_char, codes, is_empty, text_eq}
use mesh_vpn.Store.Errors.{Exec, database, deployment_not_found, err, ok}
use mesh_vpn.Base.{
  Option, true, ℕ, ◌*◌, ◌/◌, Bool, List, [], false, first, if◌then◌else◌, keep, ltb, none, not,
  set_first, some, ◌&&◌, ◌++◌, ◌||◌, ◌∷◌,
}
use mesh_vpn.Base.Sorting.{sort_by}

abbrev pub DeploymentTable : Type 0
DeploymentTable = List DeploymentRecord

abbrev pub has_deployment_id : Text → DeploymentRecord → Bool
has_deployment_id id rec = text_eq rec.deployment_id id

-- Whether `rows.Scan` succeeds.
abbrev pub is_readable : DeploymentRecord → Bool
is_readable rec = not (is_empty rec.requested_by)

unfoldable pub is_user : Text → List Text → Bool
is_user id [] = false
is_user id (u ∷ users) = text_eq u id || is_user id users

-- A column of type INTEGER, and one of type TEXT or JSONB, which takes no NUL.
abbrev pub fits_integer : ℤ → Bool
fits_integer n = le_ℤ (negsuc 2147483647) n && le_ℤ n (pos 2147483647)

abbrev pub fits_text : Text → Bool
fits_text text = not (contains_char 0 text)

abbrev pub fit_texts : List Text → Bool
fit_texts [] = true
fit_texts (text ∷ texts) = fits_text text && fit_texts texts

abbrev pub fits_map : StringMap → Bool
fits_map [] = true
fits_map ((key, value) ∷ entries) = fits_text key && fits_text value && fits_map entries

abbrev pub has_integers : DeploymentRecord → Bool
has_integers rec =
    fits_integer rec.port
    && fits_integer rec.min_replicas
    && fits_integer rec.max_replicas
    && fits_integer rec.cpu_target
    && fits_integer rec.cpu_request
    && fits_integer rec.cpu_limit
    && fits_integer rec.memory_mb

abbrev pub has_texts : DeploymentRecord → Bool
has_texts rec =
    fit_texts (
      rec.deployment_id ∷ rec.owner_worker_id ∷ rec.requested_by ∷ rec.user_id ∷ rec.package_name
      ∷ rec.repo ∷ rec.subdomain ∷ rec.scaling_mode ∷ rec.container ∷ rec.image ∷ rec.url
      ∷ rec.status ∷ rec.error ∷ rec.build_logs ∷ [])
    && fits_map rec.node_selector
    && fits_map rec.env
    && fits_map rec.build_args

-- The types and the constraints of the table on a row that is written.
unfoldable pub is_accepted : List Text → DeploymentRecord → Bool
unfolding is_user contains_char
is_accepted users rec =
    has_integers rec
    && has_texts rec
    && not (is_empty rec.scaling_mode)
    && (is_empty rec.user_id || is_user rec.user_id users)

-- A column of type TIMESTAMPTZ: the driver gives it a time in nanoseconds, and it keeps microseconds.
abbrev pub stored_time : ℕ → ℕ
stored_time at = at / 1000 * 1000

abbrev pub stored_end : Option ℕ → Option ℕ
stored_end none = none
stored_end (some at) = some (stored_time at)

abbrev pub stored : DeploymentRecord → DeploymentRecord
stored rec = record rec {
  started_at = stored_time rec.started_at;
  finished_at = stored_end rec.finished_at;
}

-- `INSERT ... ON CONFLICT (deployment_id) DO UPDATE SET ...`
unfoldable pub upsert : List Text → DeploymentRecord → Exec DeploymentTable (Unit {0})
unfolding is_accepted first set_first
upsert users rec rows =
    if is_accepted users rec
    then (
      ok tt,
      elim (first (has_deployment_id rec.deployment_id) rows) [
        | none ↦ rows ++ stored rec ∷ []
        | some old ↦ set_first (has_deployment_id rec.deployment_id) (λ _. stored rec) rows
      ],
    )
    else (err (database (codes "constraint violation")), rows)

unfoldable pub get : Text → Exec DeploymentTable DeploymentRecord
unfolding first
get id rows = elim (first (has_deployment_id id) rows) [
  | none ↦ (err deployment_not_found, rows)
  | some rec ↦ (
    if is_readable rec then ok rec else err (database (codes "query deployment: scan NULL")),
    rows,
  )
]

-- `ORDER BY started_at DESC`
abbrev pub later : DeploymentRecord → DeploymentRecord → Bool
later r s = ltb s.started_at r.started_at

-- Rows that do not scan are skipped.
unfoldable pub list : DeploymentTable → List DeploymentRecord
unfolding keep sort_by
list rows = keep is_readable (sort_by later rows)

unfoldable pub list_by_user_id : Text → DeploymentTable → List DeploymentRecord
unfolding keep sort_by
list_by_user_id user rows =
    keep is_readable (sort_by later (keep (λ rec. text_eq rec.user_id user) rows))
