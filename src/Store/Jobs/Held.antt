-- ===== src/Store/Jobs/Held.antt =====
-- The jobs that a worker holds: claimed for it, and not yet marked as done or failed.
pub mod Others
pub mod Waiting
use mesh_vpn.Domain.{DeploymentJob}
use mesh_vpn.Text.{Text, text_eq, is_empty}
use mesh_vpn.Store.Jobs.{
  is_queued, finish, fail, JobState, JobStatus, Jobs, has_id, running, claim_for_worker, is_for,
  start, write_job,
}
use mesh_vpn.Store.Errors.{Result, database, err, no_queued_jobs, ok}
use mesh_vpn.Base.{
  Bool, [], arith, false, if◌then◌else◌, true, ℕ, ◌&&◌, ◌++◌, ◌+◌, ◌∷◌, ◌≡◌, ◌≤◌, SplitAt, ap, inl,
  inr, update_first-cases, keep, length, refl, subst, ◌∙◌,
}
use mesh_vpn.Store.Jobs.Fifo.{claim-cases}
use mesh_vpn.Text.Laws.{text_eq_iff}

abbrev is_running : JobStatus → Bool
is_running running = true
is_running _ = false

unfoldable pub is_held : Text → Text → JobState → Bool
is_held worker id j = is_running j.status && text_eq j.job.assigned_worker_id worker && has_id id j

abbrev pub bit : Bool → ℕ
bit b = if b then 1 else 0

abbrev pub how_many : (JobState → Bool) → Jobs → ℕ
how_many test [] = 0
how_many test (j ∷ r) = bit (test j) + how_many test r

-- How many running jobs of a worker have an id, and how many jobs at all.
abbrev pub held : Text → Text → Jobs → ℕ
held worker id r = how_many (is_held worker id) r

abbrev pub named : Text → Jobs → ℕ
named id r = how_many (has_id id) r

-- No two jobs have one id, and none has the empty one.
pub record IsKeyed (r : Jobs) : Type 0 where
  pub distinct : (id : Text) → named id r ≤ 1
  pub not_empty : named [] r ≡ 0

how_many-append :
    (test : JobState → Bool) (r s : Jobs)
    → how_many test (r ++ s) ≡ how_many test r + how_many test s
how_many-append test [] s = omega arith
how_many-append test (j ∷ r) s = omega (arith, how_many-append test r s)

-- A list split at one job.
pub how_many_at :
    (test : JobState → Bool) (before behind : Jobs) (j : JobState)
    → how_many test (before ++ j ∷ behind)
      ≡ how_many test before + bit (test j) + how_many test behind
how_many_at test before behind j = omega (arith, how_many-append test before (j ∷ behind))

pub held-named : (worker id : Text) (r : Jobs) → held worker id r ≤ named id r
unfolding is_held
held-named worker id [] = omega arith
held-named worker id (j ∷ r) = ground (arith, held-named worker id r)

-- 1 for the id itself.
abbrev pub one_of : Text → Text → ℕ
one_of id job_id = bit (text_eq job_id id)

-- A claim that fails or finds nothing changes nothing; one that finds a job makes the worker hold that job,
-- and no other.
pub data IsClaimed (worker : Text) (r : Jobs) : Result DeploymentJob → Jobs → Type 0 where
  claim_fails : (e : Text) → IsClaimed worker r (err (database e)) r
  nothing_claimed : IsClaimed worker r (err no_queued_jobs) r
  one_claimed :
      (job : DeploymentJob) (r' : Jobs)
      → ((id : Text) → held worker id r' ≡ held worker id r + one_of id job.job_id)
      → ((id : Text) → named id r' ≡ named id r)
      → IsClaimed worker r (ok job) r'

module _ (test : JobState → Bool) (r : Jobs) (s : SplitAt test r) (j : JobState) where
  -- One job of a list rewritten.
  pub rewritten :
      (p : JobState → Bool)
      → how_many p (s.before ++ j ∷ s.behind) + bit (p s.found) ≡ how_many p r + bit (p j)
  rewritten p = omega (
    arith,
    how_many_at p s.before s.behind j,
    how_many_at p s.before s.behind s.found,
    ap (how_many p) s.split,
  )

is_held-start :
    (worker id : Text) (now : ℕ) (j : JobState)
    → is_for worker j ≡ true
    → bit (is_held worker id (start now j)) ≡ bit (is_held worker id j) + one_of id j.job.job_id
unfolding is_held
is_held-start worker id now j h = ground arith

pub claim_for_worker-IsClaimed :
    (worker : Text) (now : ℕ) (r : Jobs)
    → IsClaimed worker r (claim_for_worker now worker r).0 (claim_for_worker now worker r).1
unfolding claim_for_worker
claim_for_worker-IsClaimed worker now r = elim (claim-cases (is_for worker) now r) [
  | inl (e, u) ↦ rw u nothing_claimed
  | inr (s, u) ↦ rw u (
      one_claimed (start now s.found).job _
        (λ id. omega (
          arith,
          rewritten (is_for worker) r s (start now s.found) (is_held worker id),
          is_held-start worker id now s.found s.passes,
        ))
        (λ id. omega (arith, rewritten (is_for worker) r s (start now s.found) (has_id id))))
]

-- A write that keeps the job and ends its run.
pub record Ends (write : JobState → JobState) : Type 0 where
  pub same_job : (j : JobState) → (write j).job ≡ j.job
  pub stops : (j : JobState) → is_running (write j).status ≡ false
  pub leaves : (j : JobState) → is_queued (write j).status ≡ false

pub how_many-keep : (test : JobState → Bool) (r : Jobs) → how_many test r ≡ length (keep test r)
unfolding keep
how_many-keep test [] = refl
how_many-keep test (j ∷ r) = ground (arith, how_many-keep test r)

is_held-alike :
    (worker id id' : Text) (j : JobState)
    → bit (is_held worker id j) ≡ 1
    → bit (is_held worker id' j) ≡ one_of id' id
unfolding is_held
is_held-alike worker id id' j h =
    let passes : has_id id j ≡ true = ground arith in
    let same : j.job.job_id ≡ id = (text_eq_iff j.job.job_id id).0 passes in
    subst (λ t. bit (is_held worker id' j) ≡ one_of id' t) same (ground arith)

stopped :
    (worker id : Text) (j : JobState) → is_running j.status ≡ false → bit (is_held worker id j) ≡ 0
unfolding is_held
stopped worker id j h = ground arith

-- The first job of an id is the one that a worker holds, where no other has the id.
pub found_held :
    (worker id : Text) (r : Jobs) (s : SplitAt (has_id id) r)
    → named id r ≤ 1
    → held worker id r ≡ 1
    → bit (is_held worker id s.found) ≡ 1
found_held worker id r s once one = omega (
  arith,
  how_many_at (is_held worker id) s.before s.behind s.found,
  how_many_at (has_id id) s.before s.behind s.found,
  ap (how_many (is_held worker id)) s.split,
  ap (how_many (has_id id)) s.split,
  ap bit s.passes,
  held-named worker id s.before,
  held-named worker id s.behind,
)

-- A job that a worker holds, marked as done or failed, is held no more; and no other job is changed.
pub write_job-held :
    (worker id : Text) (write : JobState → JobState) (r : Jobs)
    → Ends write
    → named id r ≤ 1
    → held worker id r ≡ 1
    → let r' = (write_job id write r).1 in
      ((id' : Text) → held worker id' r' + one_of id' id ≡ held worker id' r)
      × ((id' : Text) → named id' r' ≡ named id' r)
unfolding write_job
write_job-held worker id write r ends once one = elim (update_first-cases (has_id id) write r) [
  | inl (e, u) ↦ absurd (
      omega
        (arith, how_many-keep (has_id id) r, ap (length {A = JobState}) e, held-named worker id r))
  | inr (s, u) ↦
      rw (u, write_job)
        (
          (λ id'. omega (
            arith,
            rewritten (has_id id) r s (write s.found) (is_held worker id'),
            is_held-alike worker id id' s.found (found_held worker id r s once one),
            stopped worker id' (write s.found) (ends.stops s.found),
          )),
          (λ id'. omega (
            arith,
            rewritten (has_id id) r s (write s.found) (has_id id'),
            ap (λ (job : DeploymentJob). bit (text_eq job.job_id id')) (ends.same_job s.found),
          )),
        )
]

pub finish-Ends : (now : ℕ) → Ends (finish now)
finish-Ends now = record { same_job = λ j. refl; stops = λ j. refl; leaves = λ j. refl }

pub fail-Ends : (now : ℕ) (text : Text) → Ends (fail now text)
fail-Ends now text = record { same_job = λ j. refl; stops = λ j. refl; leaves = λ j. refl }

pub alike-IsKeyed :
    (r r' : Jobs) → ((id : Text) → named id r' ≡ named id r) → IsKeyed r → IsKeyed r'
alike-IsKeyed r r' same keyed = record {
  distinct = λ id. omega (arith, same id, keyed.distinct id);
  not_empty = same [] ∙ keyed.not_empty;
}

-- A job that is held has an id.
pub held-not_empty :
    (worker id : Text) (r : Jobs) → IsKeyed r → held worker id r ≡ 1 → is_empty id ≡ false
unfolding is_empty
held-not_empty worker [] r keyed one =
    absurd (omega (arith, held-named worker [] r, keyed.not_empty))
held-not_empty worker (c ∷ id) r keyed one = refl
