-- ===== src/Agent/Host.antt =====
-- The machine that the executor of worker-agent/internal/executor/executor.go runs on. What a command
-- or a look at the disk answers is a function of all that was done before, so that any machine is
-- one. A program returns its result beside the history that it has made.
pub mod Laws
use mesh_vpn.Text.{Text}
use mesh_vpn.Store.Errors.{Program}
use mesh_vpn.Base.{Bool, List, Option, [], none, some, ℕ, ◌++◌, ◌∷◌}

-- `exec.Cmd`. `kubeconfig` is what `Env` adds to the environment.
pub record Command : Type 0 where
  pub program : Text
  pub args : List Text
  pub stdin : Text
  pub kubeconfig : Option Text

-- What `CombinedOutput` returns, with the text of its error.
pub record Outcome : Type 0 where
  pub output : Text
  pub error : Option Text

pub data Event : Type 0 where
  ran : Command → Outcome → Event
  removed : Text → Event
  slept : ℕ → Event

abbrev pub History : Type 0
History = List Event

-- A file, or a directory with its entries in the order of `ReadDir`.
mutual
  pub data Entry : Type 0 where
    file : Text → Entry
    folder : Text → Entries → Entry

  pub data Entries : Type 0 where
    nil : Entries
    cons : Entry → Entries → Entries

-- `tree` has no entry where the root cannot be read.
pub record Machine : Type 0 where
  pub answer : History → Command → Outcome
  pub cannot_remove : History → Text → Option Text
  pub exists : History → Text → Bool
  pub tree : History → Text → Option Entry

-- A result or the text of an error.
pub data Attempt (A : Type 0) : Type 0 where
  done : A → Attempt A
  failed : Text → Attempt A

abbrev pub Task : Type 0 → Type 0
Task A = Program History (Attempt A)

infixl 5 ◌>>=◌ ◌>>◌
abbrev pub ◌>>=◌ :
    {S A B : Type 0} → Program S (Attempt A) → (A → Program S (Attempt B)) → Program S (Attempt B)
◌>>=◌ m f h = let (r, h') = m h in elim r [ done a ↦ f a h' | failed e ↦ (failed e, h') ]

abbrev pub ◌>>◌ :
    {S A B : Type 0} → Program S (Attempt A) → Program S (Attempt B) → Program S (Attempt B)
m >> k = m >>= λ _. k

-- `fmt.Errorf(text + "%w", err)` on an error.
abbrev pub wrapped : {S A : Type 0} → Text → Program S (Attempt A) → Program S (Attempt A)
wrapped text m h =
    let (r, h') = m h in elim r [ done a ↦ (done a, h') | failed e ↦ (failed (text ++ e), h') ]

module _ (machine : Machine) where
  abbrev pub run : Command → Program History Outcome
  run cmd h = (machine.answer h cmd, h ++ ran cmd (machine.answer h cmd) ∷ [])

  abbrev pub sleep : ℕ → Program History (Unit {0})
  sleep seconds h = (tt, h ++ slept seconds ∷ [])

  abbrev outcome_of : Option Text → Attempt (Unit {0})
  outcome_of none = done tt
  outcome_of (some e) = failed e

  -- `os.RemoveAll`
  abbrev pub remove : Text → Task (Unit {0})
  remove path h = (outcome_of (machine.cannot_remove h path), h ++ removed path ∷ [])
