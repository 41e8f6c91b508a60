-- ===== src/Base/Options.antt =====
-- What becomes of a value that may be there.
use mathlib.Core.Path.{◌≡◌}
use mathlib.Core.Option.{Option, none, some}

-- A value that is there becomes one that is related to it, and none appears.
abbrev pub IsRewritten : {A : Type 0} → (A → A → Type 0) → Option A → Option A → Type 0
IsRewritten P none after = after ≡ none
IsRewritten {A = A} P (some a) after = (b : A) × (after ≡ some b) × P a b
