-- ===== src/Store/JobTable/Listed.antt =====
-- The rows of the table as the jobs of a queue: what a claim and a report do to it.
use mesh_vpn.Domain.{DeploymentJob}
use mesh_vpn.Store.Jobs.{JobState, Jobs, running, done, failed, has_id, write_job}
use mesh_vpn.Store.Jobs
use mesh_vpn.Store.JobTable
use mesh_vpn.Store.JobTable.{
  JobRow, JobTable, always, claim, has_job_id, is_assigned, job_of, older, started, update_job,
}
use mesh_vpn.Store.JobTable.Oldest.{List-cases}
use mesh_vpn.Store.Jobs.Held.{
  IsClaimed, IsKeyed, bit, held, how_many, how_many_at, is_held, named, nothing_claimed,
  one_claimed, one_of,
}
use mesh_vpn.Store.Jobs.Held.Waiting.{waiting_for}
use mesh_vpn.Store.Errors.{err, no_queued_jobs, ok}
use mesh_vpn.Text.{Text, is_empty, text_eq}
use mesh_vpn.Text.Laws.{text_eq_iff, text_eq_refl}
use mesh_vpn.Base.Sorting.{sort_by, sort_by-All, sort_by-perm}
use mesh_vpn.Base.{
  All, All-map, Bool, Bool-cases, Option, [], ap, arith, false, inl, inr, keep, keep-All,
  keep_passes, length, none, refl, set_first, some, subst, sym, true, ℕ, ◌++◌, ◌+◌, ◌∙◌, ◌∷◌, ◌≡◌,
  ◌≤◌, ◌⊎◌,
}
use mathlib.Core.List.{Perm}
use mathlib.Core.List.Perm
use mesh_vpn.Fleet.Joined.{before}

-- A text column, NULL read as the empty text.
abbrev pub or_nothing : Option Text → Text
or_nothing none = []
or_nothing (some t) = t

abbrev pub as_job : JobRow → JobState
as_job row = record {
  job = record (job_of row) { assigned_worker_id = or_nothing row.assigned_worker_id };
  status = row.status;
  last_error = or_nothing row.last_error;
  finished_at = row.finished_at;
}

abbrev pub queue_of : JobTable → Jobs
queue_of [] = []
queue_of (row ∷ rows) = as_job row ∷ queue_of rows

queue_of-append : (xs ys : JobTable) → queue_of (xs ++ ys) ≡ queue_of xs ++ queue_of ys
queue_of-append [] ys = refl
queue_of-append (row ∷ xs) ys = ap (λ (r : Jobs). as_job row ∷ r) (queue_of-append xs ys)

how_many_around :
    (p : JobState → Bool) (before behind : JobTable) (row : JobRow)
    → how_many p (queue_of (before ++ row ∷ behind))
      ≡ how_many p (queue_of before) + bit (p (as_job row)) + how_many p (queue_of behind)
how_many_around p before behind row =
    ap (how_many p) (queue_of-append before (row ∷ behind))
    ∙ how_many_at p (queue_of before) (queue_of behind) (as_job row)

-- A row that stands first of its id.
record IsAt (rows : JobTable) (row : JobRow) : Type 0 where
  front : JobTable
  back : JobTable
  split : rows ≡ front ++ row ∷ back
  writes : (f : JobRow → JobRow) → set_first (has_job_id row.job_id) f rows ≡ front ++ f row ∷ back

how_many-split :
    (p : JobState → Bool) (rows : JobTable) (row : JobRow) (at : IsAt rows row)
    → how_many p (queue_of rows)
      ≡ how_many p (queue_of at.front) + bit (p (as_job row)) + how_many p (queue_of at.back)
how_many-split p rows row at =
    ap (λ r. how_many p (queue_of r)) at.split ∙ how_many_around p at.front at.back row

-- One row rewritten.
rewritten_row :
    (p : JobState → Bool) (f : JobRow → JobRow) (rows : JobTable) (row : JobRow)
    → IsAt rows row
    → how_many p (queue_of (set_first (has_job_id row.job_id) f rows)) + bit (p (as_job row))
      ≡ how_many p (queue_of rows) + bit (p (as_job (f row)))
rewritten_row p f rows row at = omega (
  arith,
  how_many-split p rows row at,
  ap (λ r. how_many p (queue_of r)) (at.writes f) ∙ how_many_around p at.front at.back (f row),
)

behind_row :
    (r : JobRow) (rows : JobTable)
    → ((id : Text) → named id (queue_of (r ∷ rows)) ≤ 1)
    → (row : JobRow) → IsAt rows row
    → IsAt (r ∷ rows) row
unfolding set_first
behind_row r rows distinct row at = elim (Bool-cases (text_eq r.job_id row.job_id)) [
  | inl e ↦ absurd (
      omega (
        arith,
        distinct row.job_id,
        ap bit e,
        how_many-split (has_id row.job_id) rows row at,
        ap bit (text_eq_refl row.job_id),
      ))
  | inr e ↦ record {
    front = r ∷ at.front;
    back = at.back;
    split = ap (λ (l : JobTable). r ∷ l) at.split;
    writes = λ f. rw e (ap (λ (l : JobTable). r ∷ l) (at.writes f));
  }
]

All-IsAt : (rows : JobTable) → ((id : Text) → named id (queue_of rows) ≤ 1) → All (IsAt rows) rows
unfolding set_first
All-IsAt [] distinct = tt
All-IsAt (r ∷ rows) distinct = (
  record { front = []; back = rows; split = refl; writes = λ f. rw (text_eq_refl r.job_id) refl },
  All-map (IsAt rows) (IsAt (r ∷ rows)) (behind_row r rows distinct) rows
      (All-IsAt rows (λ id. omega (arith, distinct id))),
)

-- A worker whose id is not empty.
module _ (worker : Text) (not_empty : is_empty worker ≡ false) where
  assigned-alike : (id : Option Text) → text_eq (or_nothing id) worker ≡ is_assigned worker id
  unfolding text_eq is_empty
  assigned-alike none = by_text worker not_empty
    where
      by_text : (w : Text) → is_empty w ≡ false → text_eq [] w ≡ false
      by_text [] h = absurd (cc)
      by_text (c ∷ w) h = refl
  assigned-alike (some id) = refl

  waiting-length :
      (rows : JobTable)
      → waiting_for worker (queue_of rows) ≡ length (keep (JobTable.is_for worker) rows)
  unfolding keep
  waiting-length [] = refl
  waiting-length (row ∷ rows) =
      ground (arith, assigned-alike row.assigned_worker_id, waiting-length rows)

  is_held-started :
      (id : Text) (now : ℕ) (row : JobRow)
      → JobTable.is_for worker row ≡ true
      → bit (is_held worker id (as_job (started now row)))
        ≡ bit (is_held worker id (as_job row)) + one_of id row.job_id
  unfolding is_held
  is_held-started id now row h = ground (arith, assigned-alike row.assigned_worker_id)

  is_for-started :
      (now : ℕ) (row : JobRow)
      → JobTable.is_for worker row ≡ true
      → bit (Jobs.is_for worker (as_job (started now row))) + 1
        ≡ bit (Jobs.is_for worker (as_job row))
  is_for-started now row h = ground (arith, assigned-alike row.assigned_worker_id)

  -- A claim changes nothing where no row waits, and takes one row elsewhere.
  pub claim-Takes :
      (now : ℕ) (rows : JobTable)
      → IsKeyed (queue_of rows)
      → let (out, rows') = claim (JobTable.is_for worker) now rows in
        IsClaimed worker (queue_of rows) out (queue_of rows')
        × (((out ≡ err no_queued_jobs) × (rows' ≡ rows) × (waiting_for worker (queue_of rows) ≡ 0))
            ⊎ ((job : DeploymentJob) × (out ≡ ok job)
                × (waiting_for worker (queue_of rows') + 1 ≡ waiting_for worker (queue_of rows))))
  unfolding claim
  claim-Takes now rows keyed =
      let test = JobTable.is_for worker in
      let placed =
        sort_by-All older (IsAt rows) _
          (keep-All test (IsAt rows) rows (All-IsAt rows keyed.distinct)) in
      let passing = sort_by-All older (λ r. test r ≡ true) _ (keep_passes test rows) in
      elim (List-cases (sort_by older (keep test rows))) [
        | inl e ↦
            let empty = sym (
              Perm.nil-eq
                (subst (λ l. Perm l (keep test rows)) e (sort_by-perm older (keep test rows)))) in
            rw (e, claim)
              (
                nothing_claimed,
                inl (refl, refl, waiting-length rows ∙ ap (length {A = JobRow}) empty),
              )
        | inr (row, others, e) ↦
            let at = (subst (All (IsAt rows)) e placed).0 in
            let passes = (subst (All (λ r. test r ≡ true)) e passing).0 in
            rw (e, claim)
              (
                one_claimed (job_of row) _
                    (λ id. omega (
                      arith,
                      rewritten_row (is_held worker id) (started now) rows row at,
                      is_held-started id now row passes,
                    ))
                    (λ id. omega (arith, rewritten_row (has_id id) (started now) rows row at)),
                inr (
                  job_of row,
                  refl,
                  omega (
                    arith,
                    rewritten_row (Jobs.is_for worker) (started now) rows row at,
                    is_for-started now row passes,
                  ),
                ),
              )
      ]

  -- What another worker holds.
  is_held-other :
      (other id : Text) (now : ℕ) (row : JobRow)
      → text_eq worker other ≡ false
      → JobTable.is_for worker row ≡ true
      → bit (is_held other id (as_job (started now row))) ≡ bit (is_held other id (as_job row))
  unfolding is_held
  is_held-other other id now row differs h =
      let alike = assigned-alike row.assigned_worker_id in
      let to_worker : text_eq (or_nothing row.assigned_worker_id) worker ≡ true = ground arith in
      let not_held : text_eq (or_nothing row.assigned_worker_id) other ≡ false =
        rw ((text_eq_iff (or_nothing row.assigned_worker_id) worker).0 to_worker) differs in
      ground arith

  pub claim-Other :
      (other : Text)
      → text_eq worker other ≡ false
      → (now : ℕ) (rows : JobTable) → IsKeyed (queue_of rows)
      → let rows' = (claim (JobTable.is_for worker) now rows).1 in
        ((id : Text) → held other id (queue_of rows') ≡ held other id (queue_of rows))
        × ((id : Text) → named id (queue_of rows') ≡ named id (queue_of rows))
  unfolding claim
  claim-Other other differs now rows keyed =
      let test = JobTable.is_for worker in
      let placed =
        sort_by-All older (IsAt rows) _
          (keep-All test (IsAt rows) rows (All-IsAt rows keyed.distinct)) in
      let passing = sort_by-All older (λ r. test r ≡ true) _ (keep_passes test rows) in
      elim (List-cases (sort_by older (keep test rows))) [
        | inl e ↦ rw (e, claim) ((λ id. refl), (λ id. refl))
        | inr (row, others, e) ↦
            let at = (subst (All (IsAt rows)) e placed).0 in
            let passes = (subst (All (λ r. test r ≡ true)) e passing).0 in
            rw (e, claim)
              (
                (λ id. omega (
                  arith,
                  rewritten_row (is_held other id) (started now) rows row at,
                  is_held-other other id now row differs passes,
                )),
                (λ id. omega (arith, rewritten_row (has_id id) (started now) rows row at)),
              )
      ]
