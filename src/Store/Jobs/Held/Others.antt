-- ===== src/Store/Jobs/Held/Others.antt =====
-- The jobs of one worker while the calls of another one come in.
use mesh_vpn.Store.Jobs.{JobState, Jobs, claim_for_worker, has_id, is_for, start}
use mesh_vpn.Store.Jobs.Held.{how_many, bit, held, is_held, named, rewritten}
use mesh_vpn.Store.Jobs.Fifo.{claim-cases}
use mesh_vpn.Text.{Text, text_eq}
use mesh_vpn.Text.Laws.{text_eq_iff}
use mesh_vpn.Base.{arith, false, inl, inr, refl, true, ℕ, ◌+◌, ◌≡◌, ◌≤◌, [], ◌∷◌, Bool-cases}

-- Another worker's job is not held, before its start and behind it.
is_held-other :
    (worker other id : Text) (now : ℕ) (j : JobState)
    → text_eq other worker ≡ false
    → is_for other j ≡ true
    → bit (is_held worker id (start now j)) ≡ bit (is_held worker id j)
unfolding is_held
is_held-other worker other id now j differs h =
    let to_other : text_eq j.job.assigned_worker_id other ≡ true = ground arith in
    let same : j.job.assigned_worker_id ≡ other =
      (text_eq_iff j.job.assigned_worker_id other).0 to_other in
    let not_held : text_eq j.job.assigned_worker_id worker ≡ false = rw same differs in ground arith

not_for_other :
    (worker other : Text) (now : ℕ) (j : JobState)
    → text_eq other worker ≡ false
    → is_for other j ≡ true
    → bit (is_for worker (start now j)) ≡ bit (is_for worker j)
not_for_other worker other now j differs h =
    let to_other : text_eq j.job.assigned_worker_id other ≡ true = ground arith in
    let not_held : text_eq j.job.assigned_worker_id worker ≡ false =
      rw ((text_eq_iff j.job.assigned_worker_id other).0 to_other) differs in
    ground arith

-- What a worker holds, and what waits for it, stays where another worker claims.
pub claim_for_worker-other :
    (worker other : Text) (now : ℕ) (r : Jobs)
    → text_eq other worker ≡ false
    → let r' = (claim_for_worker now other r).1 in
      ((id : Text) → held worker id r' ≡ held worker id r)
      × ((id : Text) → named id r' ≡ named id r)
      × (how_many (is_for worker) r' ≡ how_many (is_for worker) r)
unfolding claim_for_worker
claim_for_worker-other worker other now r differs = elim (claim-cases (is_for other) now r) [
  | inl (e, u) ↦ rw u ((λ id. refl), (λ id. refl), refl)
  | inr (s, u) ↦ rw u (
    (λ id. omega (
      arith,
      rewritten (is_for other) r s (start now s.found) (is_held worker id),
      is_held-other worker other id now s.found differs s.passes,
    )),
    (λ id. omega (arith, rewritten (is_for other) r s (start now s.found) (has_id id))),
    omega (
      arith,
      rewritten (is_for other) r s (start now s.found) (is_for worker),
      not_for_other worker other now s.found differs s.passes,
    ),
  )
]

not_both :
    (worker other id : Text) (j : JobState)
    → text_eq other worker ≡ false
    → bit (is_held worker id j) + bit (is_held other id j) ≤ bit (has_id id j)
unfolding is_held
not_both worker other id j differs = elim (Bool-cases (text_eq j.job.assigned_worker_id other)) [
  | inl e ↦
      let not_held : text_eq j.job.assigned_worker_id worker ≡ false =
        rw ((text_eq_iff j.job.assigned_worker_id other).0 e) differs in
      ground arith
  | inr e ↦ ground arith
]

-- No job is held by two workers.
pub held-other :
    (worker other id : Text) (r : Jobs)
    → text_eq other worker ≡ false
    → held worker id r + held other id r ≤ named id r
held-other worker other id [] differs = omega arith
held-other worker other id (j ∷ r) differs =
    omega (arith, not_both worker other id j differs, held-other worker other id r differs)
