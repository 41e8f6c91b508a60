-- ===== src/Store/Errors.antt =====
-- The errors that the repositories return, and programs that read and write a state. A repository's
-- method returns its result beside the state that it leaves, on its error paths too.
use mesh_vpn.Text.{Text}

pub data Error : Type 0 where
  no_queued_jobs no_available_workers deployment_not_found : Error
  job_not_found job_not_assignable worker_not_found : Text → Error
  -- `sql.ErrNoRows`, and what else the database or its driver reports
  no_rows : Error
  database : Text → Error

pub data Result {ℓ} (A : Type ℓ) : Type ℓ where
  ok : A → Result A
  err : Error → Result A

abbrev pub Program : Type 0 → Type 0 → Type 0
Program S A = S → A × S

abbrev pub Exec : Type 0 → Type 0 → Type 0
Exec S A = Program S (Result A)

abbrev pub pure : {S A : Type 0} → A → Program S A
pure a s = (a, s)

infixl 5 ◌>>=◌ ◌>>◌
abbrev pub ◌>>=◌ : {S A B : Type 0} → Program S A → (A → Program S B) → Program S B
◌>>=◌ m f s = let (a, s') = m s in f a s'

abbrev pub ◌>>◌ : {S A B : Type 0} → Program S A → Program S B → Program S B
m >> n = m >>= λ _. n
