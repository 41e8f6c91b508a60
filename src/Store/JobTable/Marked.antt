-- ===== src/Store/JobTable/Marked.antt =====
-- What an UPDATE of the row of an id does to the jobs of the table.
use mesh_vpn.Store.JobTable.Listed.{as_job, queue_of}
use mesh_vpn.Store.Jobs.{JobState, Jobs, has_id, write_job}
use mesh_vpn.Store.JobTable.{JobRow, JobTable, always, has_job_id, update_job}
use mesh_vpn.Store.Errors.{Error, Result, err, ok, job_not_found}
use mesh_vpn.Text.{Text, text_eq}
use mesh_vpn.Base.{behind_search, set_first-update_first}
use mesh_vpn.Base.{
  Bool, Bool-cases, Option, Option-cases, [], ap, arith, first, inl, inr, none, refl, set_first,
  some, sym, update_first, ◌∙◌, ◌∷◌, ◌≡◌, ◌&&◌,
}

set_first-none :
    (p : JobRow → Bool) (f : JobRow → JobRow) (rows : JobTable)
    → first p rows ≡ none
    → set_first p f rows ≡ rows
unfolding first set_first
set_first-none p f [] h = refl
set_first-none p f (row ∷ rows) h = elim (Bool-cases (p row)) [
  | inl hit ↦ absurd (ground (arith, hit, h))
  | inr miss ↦
      rw miss (ap (λ (l : JobTable). row ∷ l) (set_first-none p f rows (ground (arith, miss, h))))
]

-- A write to the row of an id is one to the job of the id.
module _ (id : Text) (f : JobRow → JobRow) (write : JobState → JobState)
    (alike : (row : JobRow) → as_job (f row) ≡ write (as_job row)) (e : Error) where
  set_first-write :
      (rows : JobTable)
      → queue_of (set_first (λ row. has_job_id id row && always row) f rows)
        ≡ set_first (has_id id) write (queue_of rows)
  unfolding set_first
  set_first-write [] = refl
  set_first-write (row ∷ rows) = elim (Bool-cases (text_eq row.job_id id)) [
    | inl hit ↦ rw hit (ap (λ (j : JobState). j ∷ queue_of rows) (alike row))
    | inr miss ↦ rw miss (ap (λ (r : Jobs). as_job row ∷ r) (set_first-write rows))
  ]

  update_job-set_first :
      (rows : JobTable)
      → (update_job id always f e rows).1
        ≡ set_first (λ row. has_job_id id row && always row) f rows
  unfolding update_job
  update_job-set_first rows =
      elim (Option-cases (first (λ row. has_job_id id row && always row) rows)) [
        | inl none_found ↦ rw (none_found, update_job) (sym (set_first-none _ f rows none_found))
        | inr (row, found) ↦ rw (found, update_job) refl
      ]

  write_job-set_first : (r : Jobs) → (write_job id write r).1 ≡ set_first (has_id id) write r
  unfolding write_job
  write_job-set_first r =
      by_search (update_first (has_id id) write r)
      ∙ sym (set_first-update_first (has_id id) write r)
    where
      by_search :
          (found : Option (JobState × Jobs))
          → (let out : Result (Unit {0}) × Jobs = elim found [
            | none ↦ (err (job_not_found id), r)
            | some (j, r') ↦ (ok tt, r')
          ] in
              out.1)
            ≡ behind_search r found
      by_search none = refl
      by_search (some (j, r')) = refl

  pub update_job-write :
      (rows : JobTable)
      → queue_of (update_job id always f e rows).1 ≡ (write_job id write (queue_of rows)).1
  update_job-write rows =
      ap queue_of (update_job-set_first rows)
      ∙ set_first-write rows
      ∙ sym (write_job-set_first (queue_of rows))
