-- ===== src/Agent/Kubectl/Retries.antt =====
-- How `runKubectlWithRetry` of worker-agent/internal/executor/executor.go ends.
use mesh_vpn.Base.{
  All, Bool-cases, List, [], append_assoc, arith, false, inl, inr, length, not, refl, suc, true,
  zero, ℕ, ◌&&◌, ◌++◌, ◌+◌, ◌<◌, ◌==◌, ◌∙◌, ◌∷◌, ◌≡◌, ◌≤◌, ◌⊎◌, none,
}
use mesh_vpn.Agent.Host.{Command, Machine, ran, slept, History, Outcome}
use mesh_vpn.Agent.Kubectl.{attempts_from, is_transient_failure, run_kubectl_with_retry}

-- What failed attempts leave in the history, from an attempt on: each is followed by a wait of as many
-- seconds as its number.
abbrev pub retries : Command → ℕ → List Outcome → History
retries cmd attempt [] = []
retries cmd attempt (out ∷ outs) = ran cmd out ∷ slept attempt ∷ retries cmd (attempt + 1) outs

-- The attempts before the last one failed with transient errors, and the last one did not, or was the
-- third; each was made once, behind the wait for it.
pub record EndsFrom (cmd : Command) (attempt : ℕ) (h : History) (out : Outcome) (h' : History)
    : Type 0 where
  pub earlier : List Outcome
  pub made : h' ≡ h ++ (retries cmd attempt earlier ++ ran cmd out ∷ [])
  pub transient : All (λ o. is_transient_failure o ≡ true) earlier
  pub bounded : attempt + length earlier ≤ 3
  pub ended : (is_transient_failure out ≡ false) ⊎ (attempt + length earlier ≡ 3)

EndsFrom-retry :
    (cmd : Command) (attempt : ℕ) (first_out out : Outcome) (h h' : History)
    → is_transient_failure first_out ≡ true
    → EndsFrom cmd (attempt + 1) ((h ++ ran cmd first_out ∷ []) ++ slept attempt ∷ []) out h'
    → EndsFrom cmd attempt h out h'
EndsFrom-retry cmd attempt first_out out h h' t e = record {
  earlier = first_out ∷ e.earlier;
  made = e.made ∙ simp append_assoc;
  transient = (t, e.transient);
  bounded = omega (arith, e.bounded);
  ended = ground (arith, e.ended);
}

module _ (machine : Machine) (cmd : Command) where
  attempts_from-EndsFrom :
      (rounds attempt : ℕ) (last : Outcome) (h : History)
      → rounds + attempt ≡ 4
      → 0 < rounds
      → let (out, h') = attempts_from machine cmd rounds attempt last h in
        EndsFrom cmd attempt h out h'
  unfolding attempts_from
  attempts_from-EndsFrom zero attempt last h e p = absurd (omega arith)
  attempts_from-EndsFrom (suc rounds) attempt last h e p =
      let out : Outcome = machine.answer h cmd in
      elim (Bool-cases (is_transient_failure out && not (attempt == 3))) [
        | inl more ↦ rw more (
            EndsFrom-retry cmd attempt out _ h _ (ground arith) (
              attempts_from-EndsFrom rounds (attempt + 1) out
                ((h ++ ran cmd out ∷ []) ++ slept attempt ∷ []) (omega arith) (ground arith)))
        | inr ends ↦ rw ends (record {
          earlier = [];
          made = refl;
          transient = tt;
          bounded = ground arith;
          ended = ground arith;
        })
      ]

  -- A kubectl command is tried three times at most, from the first attempt on: after each attempt that
  -- failed with a transient error it waits as many seconds as the number of that attempt, and what it
  -- returns is the outcome of the last attempt, which did not fail with a transient error or was the
  -- third.
  pub run_kubectl_with_retry-EndsFrom :
      (h : History)
      → let (out, h') = run_kubectl_with_retry machine cmd h in EndsFrom cmd 1 h out h'
  unfolding run_kubectl_with_retry
  run_kubectl_with_retry-EndsFrom h =
      attempts_from-EndsFrom 3 1 (record { output = []; error = none }) h refl (omega arith)
