-- ===== src/Store/JobTable/Oldest.antt =====
-- Which row a claim on the table of control-plane/internal/store/jobs.go takes.
use mathlib.Core.List.{Perm}
use mathlib.Core.List.Perm
use mesh_vpn.Domain.{DeploymentJob}
use mesh_vpn.Store.JobTable.{
  JobRow, JobTable, claim, has_job_id, job_of, older, get_next_unassigned_job, is_unassigned,
  assign_to_worker, assigned_to, is_waiting, update_job,
}
use mesh_vpn.Store.Errors.{Exec, err, no_queued_jobs, ok}
use mesh_vpn.Base.{
  ◌≤◌, ◌+◌, some, Bool, List, [], arith, false, inl, inr, keep, refl, set_first, subst, true, ℕ,
  ◌∷◌, ◌≡◌, ◌⊎◌, sym, All, Option-cases, first, none, ◌&&◌, ◌≢◌, All-map, keep-All, keep_passes,
}
use mesh_vpn.Base.Sorting.{
  IsOrdered, LeadsAll, sort_by, sort_by-IsOrdered, sort_by-perm, sort_by-All,
}
use mesh_vpn.Store.Jobs.{running}
use mesh_vpn.Text.{Text, text_eq}
use mesh_vpn.Text.Laws.{text_eq_refl}

older-asymmetric : (r s : JobRow) → older r s ≡ true → older s r ≡ false
older-asymmetric r s h = ground arith

older-not_before_trans :
    (r s t : JobRow) → older s r ≡ false → older t s ≡ false → older t r ≡ false
older-not_before_trans r s t h g = ground arith

-- What a claim may answer: no row passes the test, and nothing changes; or it answers with the job of a
-- row that passes, such that none of the others that pass was queued earlier, and the row of that id is
-- running from now on, in one attempt more, and no other row is changed.
abbrev pub TakesOldest : (JobRow → Bool) → ℕ → JobTable → Exec JobTable DeploymentJob → Type 0
TakesOldest test now rows m =
    ((keep test rows ≡ []) × (m rows ≡ (err no_queued_jobs, rows)))
    ⊎ ((row : JobRow) × (others : List JobRow) × Perm (row ∷ others) (keep test rows)
        × All (λ (other : JobRow). row.queued_at ≤ other.queued_at) others
        × (m rows ≡ (
          ok (record row.payload { job_id = row.job_id }),
          set_first (λ (r : JobRow). text_eq r.job_id row.job_id)
              (λ (r : JobRow). record r {
                status = running;
                started_at = some now;
                attempts = r.attempts + 1;
              })
              rows,
        )))

pub List-cases {ℓ} :
    {A : Type ℓ} (xs : List A) → (xs ≡ []) ⊎ ((x : A) × (ys : List A) × (xs ≡ x ∷ ys))
List-cases [] = inl refl
List-cases (x ∷ xs) = inr (x, xs, refl)

-- A claim that finds no row to take changes nothing; or it answers with the job of one that was queued no
-- later than the others that it may take, and that row, and no other, is running from then on.
pub claim-TakesOldest :
    (test : JobRow → Bool) (now : ℕ) (rows : JobTable) → TakesOldest test now rows (claim test now)
unfolding claim
claim-TakesOldest test now rows =
    let perm = sort_by-perm older (keep test rows) in
    let ordered =
      sort_by-IsOrdered older older-asymmetric older-not_before_trans (keep test rows) in
    elim (List-cases (sort_by older (keep test rows))) [
      | inl e ↦
          inl (sym (Perm.nil-eq (subst (λ l. Perm l (keep test rows)) e perm)), rw (e, claim) refl)
      | inr (row, others, e) ↦ inr (
        row,
        others,
        subst (λ l. Perm l (keep test rows)) e perm,
        All-map (λ (o : JobRow). older o row ≡ false) (λ (o : JobRow). row.queued_at ≤ o.queued_at)
            (λ o h. ground arith) others
            (subst (IsOrdered older older-asymmetric older-not_before_trans) e ordered).0,
        rw (e, claim) refl,
      )
    ]

-- The row is not queued, or an assignment of its id finds a row.
abbrev pub IsOpen : JobTable → JobRow → Type 0
IsOpen rows row =
    is_waiting row ≡ true → first (λ r. has_job_id row.job_id r && is_waiting r) rows ≢ none

All-IsOpen : (rows : JobTable) → All (IsOpen rows) rows
unfolding first
All-IsOpen [] = tt
All-IsOpen (row ∷ rows) = (
  λ w e. ground (arith, text_eq_refl row.job_id),
  All-map (IsOpen rows) (IsOpen (row ∷ rows)) (λ r g w e. g w (ground arith)) rows
      (All-IsOpen rows),
)

-- The row that a search for a job without a worker returns.
pub record Next (rows : JobTable) : Type 0 where
  pub row : JobRow
  pub unassigned : is_unassigned row ≡ true
  pub assignable : IsOpen rows row
  pub others : List JobRow
  pub free : Perm (row ∷ others) (keep is_unassigned rows)
  pub oldest : LeadsAll older row others

abbrev Passes : (JobRow → Bool) → JobRow → Type 0
Passes test row = test row ≡ true

-- The search fails, or finds the oldest queued row that has no worker; it changes nothing.
pub get_next_unassigned_job-Next :
    (rows : JobTable)
    → (get_next_unassigned_job rows ≡ (err no_queued_jobs, rows))
      ⊎ ((next : Next rows) × (get_next_unassigned_job rows ≡ (ok (job_of next.row), rows)))
unfolding get_next_unassigned_job
get_next_unassigned_job-Next rows =
    let perm = sort_by-perm older (keep is_unassigned rows) in
    let ordered =
      sort_by-IsOrdered older older-asymmetric older-not_before_trans (keep is_unassigned rows) in
    let opened =
      sort_by-All older (IsOpen rows) _
        (keep-All is_unassigned (IsOpen rows) rows (All-IsOpen rows)) in
    let passing = sort_by-All older (Passes is_unassigned) _ (keep_passes is_unassigned rows) in
    elim (List-cases (sort_by older (keep is_unassigned rows))) [
      | inl e ↦ inl (rw (e, get_next_unassigned_job) refl)
      | inr (row, others, e) ↦ inr (
        record {
          row = row;
          unassigned = (subst (All (Passes is_unassigned)) e passing).0;
          assignable = (subst (All (IsOpen rows)) e opened).0;
          others = others;
          free = subst (λ l. Perm l (keep is_unassigned rows)) e perm;
          oldest = (subst (IsOrdered older older-asymmetric older-not_before_trans) e ordered).0;
        },
        rw (e, get_next_unassigned_job) refl,
      )
    ]

-- The row that was found can be assigned.
pub assign_to_worker-Next :
    (now : ℕ) (worker : Text) (rows : JobTable) (next : Next rows)
    → assign_to_worker now next.row.job_id worker rows ≡ (
      ok tt,
      set_first (λ r. has_job_id next.row.job_id r && is_waiting r) (assigned_to now worker) rows,
    )
unfolding assign_to_worker update_job
assign_to_worker-Next now worker rows next =
    elim (Option-cases (first (λ r. has_job_id next.row.job_id r && is_waiting r) rows)) [
      | inl e ↦ absurd (next.assignable (let u = next.unassigned in ground arith) e)
      | inr (r, e) ↦ rw (e, assign_to_worker, update_job) refl
    ]
