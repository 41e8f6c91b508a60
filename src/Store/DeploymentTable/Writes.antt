-- ===== src/Store/DeploymentTable/Writes.antt =====
-- What is read of the table of deployments after a write to it.
use mesh_vpn.Domain.{DeploymentRecord}
use mesh_vpn.Text.{Text, codes, text_eq}
use mesh_vpn.Store.DeploymentTable.{
  DeploymentTable, get, has_deployment_id, is_accepted, is_readable, stored, stored_end, upsert,
}
use mesh_vpn.Store.Errors.{Result, database, deployment_not_found, err, ok}
use mesh_vpn.Base.{
  ◌/◌, ◌*◌, Bool-cases, List, Option, Option-cases, [], ap, arith, first, if◌then◌else◌, inl, inr,
  none, refl, set_first, some, sym, ◌&&◌, ◌++◌, ◌∙◌, ◌∷◌, ◌≡◌,
}
use mesh_vpn.Text.Laws.{text_eq_iff}

-- What `Get` answers for the row of an id, if there is one.
abbrev pub answer_of : Option DeploymentRecord → Result DeploymentRecord
answer_of none = err deployment_not_found
answer_of (some rec) =
    if is_readable rec then ok rec else err (database (codes "query deployment: scan NULL"))

get-answer_of :
    (id : Text) (rows : DeploymentTable)
    → (get id rows).0 ≡ answer_of (first (has_deployment_id id) rows)
unfolding get
get-answer_of id rows = elim (Option-cases (first (has_deployment_id id) rows)) [
  | inl e ↦ rw (e, get) refl
  | inr (rec, e) ↦ rw (e, get) refl
]

first-insert :
    (id : Text) (rec : DeploymentRecord) (rows : DeploymentTable)
    → first (has_deployment_id rec.deployment_id) rows ≡ none
    → first (has_deployment_id id) (rows ++ rec ∷ [])
      ≡ (if text_eq rec.deployment_id id then some rec else first (has_deployment_id id) rows)
unfolding first
first-insert id rec [] h = refl
first-insert id rec (row ∷ rows) h = ground (
  arith,
  text_eq_iff row.deployment_id id,
  text_eq_iff rec.deployment_id id,
  text_eq_iff row.deployment_id rec.deployment_id,
  first-insert id rec rows,
)

first-replace :
    (id : Text) (rec old : DeploymentRecord) (rows : DeploymentTable)
    → first (has_deployment_id rec.deployment_id) rows ≡ some old
    → first (has_deployment_id id) (set_first (has_deployment_id rec.deployment_id) (λ _. rec) rows)
      ≡ (if text_eq rec.deployment_id id then some rec else first (has_deployment_id id) rows)
unfolding first set_first
first-replace id rec old [] h = ground arith
first-replace id rec old (row ∷ rows) h = ground (
  arith,
  text_eq_iff row.deployment_id id,
  text_eq_iff rec.deployment_id id,
  text_eq_iff row.deployment_id rec.deployment_id,
  first-replace id rec old rows,
)

first-upsert :
    (users : List Text) (id : Text) (rec : DeploymentRecord) (rows : DeploymentTable)
    → first (has_deployment_id id) (upsert users rec rows).1 ≡ (
        if is_accepted users rec && text_eq rec.deployment_id id
        then some (stored rec)
        else first (has_deployment_id id) rows)
unfolding upsert
first-upsert users id rec rows = elim (Bool-cases (is_accepted users rec)) [
  | inr e ↦ rw e refl
  | inl e ↦ elim (Option-cases (first (has_deployment_id rec.deployment_id) rows)) [
    | inl f ↦ rw (e, f) (first-insert id (stored rec) rows f)
    | inr (old, f) ↦ rw (e, f) (first-replace id (stored rec) old rows f)
  ]
]

-- A write that the types and the constraints of the table accept, and no other, is what its id reads as
-- from then on, and no other id reads differently. What is read of a record that was written is that
-- record with its times, which are in nanoseconds, cut to microseconds; but an error where nobody had
-- requested it.
pub get-upsert :
    (users : List Text) (id : Text) (rec : DeploymentRecord) (rows : DeploymentTable)
    → (get id (upsert users rec rows).1).0 ≡ (
        if is_accepted users rec && text_eq rec.deployment_id id
        then answer_of (
            some (record rec {
              started_at = rec.started_at / 1000 * 1000;
              finished_at = stored_end rec.finished_at;
            }))
        else (get id rows).0)
get-upsert users id rec rows =
    get-answer_of id _
    ∙ ap answer_of (first-upsert users id rec rows)
    ∙ elim (Bool-cases (is_accepted users rec && text_eq rec.deployment_id id)) [
      | inl e ↦ rw e refl
      | inr e ↦ rw e (sym (get-answer_of id rows))
    ]
