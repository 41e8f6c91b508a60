-- ===== src/Service/Placement/Best.antt =====
-- What `bestAvailableWorker` of control-plane/internal/service/distributor.go returns.
use mathlib.Core.List.{Memᴰ}
use mesh_vpn.Base.Int.{◌≤ℤ◌, ◌<ℤ◌, lt_ℤ, ℤ, negsuc, pos}
use mesh_vpn.Domain.{Worker}
use mesh_vpn.Base.{
  All, Bool-cases, List, Option, Option-cases, [], ap, arith, inl, inr, none, refl, some, ◌∷◌, ◌≡◌,
  ◌⊎◌, if◌then◌else◌, subst, sym, ◌∙◌,
}
use mesh_vpn.Service.Placement.{best_from, placement_score, best_available_worker}

abbrev NoMore : ℤ → Option ℤ → Type 0
NoMore b none = Unit
NoMore b (some score) = score ≤ℤ b

-- The worker cannot take a deployment, or its score is at most `b`.
abbrev pub AtMost : ℤ → Worker → Type 0
AtMost b w = NoMore b (placement_score w)

-- The worker stands in the list with that score.
abbrev pub Scores : List Worker → ℤ → Worker → Type 0
Scores ws score w = Memᴰ w ws × (placement_score w ≡ some score)

-- What the loop reaches from a state, over the workers `ws`.
record Reached (from : ℤ × Option Worker) (ws : List Worker) (to : ℤ × Option Worker) : Type 0 where
  no_less : from.0 ≤ℤ to.0
  bound : All (AtMost to.0) ws
  origin : (to ≡ from) ⊎ ((w : Worker) × (to.1 ≡ some w) × Scores ws to.0 w)

NoMore-trans : (b c : ℤ) (o : Option ℤ) → b ≤ℤ c → NoMore b o → NoMore c o
NoMore-trans b c none h n = tt
NoMore-trans b c (some score) h n = omega arith

Reached-skip :
    (from to : ℤ × Option Worker) (w : Worker) (ws : List Worker)
    → AtMost from.0 w
    → Reached from ws to
    → Reached from (w ∷ ws) to
Reached-skip from to w ws h r = record {
  no_less = r.no_less;
  bound = (NoMore-trans from.0 to.0 (placement_score w) r.no_less h, r.bound);
  origin = elim r.origin [ inl e ↦ inl e | inr (v, e, (m, s)) ↦ inr (v, e, (Memᴰ.tail m, s)) ];
}

Reached-take :
    (from to : ℤ × Option Worker) (w : Worker) (score : ℤ) (ws : List Worker)
    → from.0 <ℤ score
    → placement_score w ≡ some score
    → Reached (score, some w) ws to
    → Reached from (w ∷ ws) to
Reached-take from to w score ws h s r = record {
  no_less = let n = r.no_less in omega arith;
  bound = (subst (NoMore to.0) (sym s) r.no_less, r.bound);
  origin = elim r.origin [
    | inl e ↦ inr (w, ap (λ t. t.1) e, (Memᴰ.head refl, s ∙ ap (λ t. some t.0) (sym e)))
    | inr (v, e, (m, t)) ↦ inr (v, e, (Memᴰ.tail m, t))
  ];
}

best_from-Reached :
    (from : ℤ × Option Worker) (ws : List Worker) → Reached from ws (best_from from ws)
unfolding best_from
best_from-Reached from [] = record { no_less = omega arith; bound = tt; origin = inl refl }
best_from-Reached from (w ∷ ws) = elim (Option-cases (placement_score w)) [
  | inl e ↦ rw e (Reached-skip from _ w ws (rw e tt) (best_from-Reached from ws))
  | inr (score, e) ↦ elim (Bool-cases (lt_ℤ from.0 score)) [
    | inl f ↦
        rw (e, f)
          (Reached-take from _ w score ws (ground arith) e (best_from-Reached (score, some w) ws))
    | inr f ↦
        rw (e, f)
          (Reached-skip from _ w ws (subst (NoMore from.0) (sym e) (ground arith))
            (best_from-Reached from ws))
  ]
]

-- What the search over `ws` may answer.
abbrev pub IsBest : List Worker → Option (Worker × ℤ) → Type 0
IsBest ws none = All (AtMost (negsuc 0)) ws
IsBest ws (some (w, score)) = (pos 0 ≤ℤ score) × Scores ws score w × All (AtMost score) ws

All-AtMost : (b c : ℤ) (ws : List Worker) → b ≤ℤ c → All (AtMost b) ws → All (AtMost c) ws
All-AtMost b c [] h hs = tt
All-AtMost b c (w ∷ ws) h hs =
    (NoMore-trans b c (placement_score w) h hs.0, All-AtMost b c ws h hs.1)

answer-IsBest :
    (ws : List Worker) (to : ℤ × Option Worker)
    → Reached (negsuc 0, none) ws to
    → IsBest ws
        (if lt_ℤ to.0 (pos 0) then none else elim to.1 [ none ↦ none | some w ↦ some (w, to.0) ])
answer-IsBest ws (score, best) r = elim (Bool-cases (lt_ℤ score (pos 0))) [
  | inl f ↦ rw f (All-AtMost score (negsuc 0) ws (ground arith) r.bound)
  | inr f ↦ elim r.origin [
    | inl e ↦ (let g = ap (λ t. lt_ℤ t.0 (pos 0)) e in ground arith)
    | inr (w, e, scores) ↦ rw (f, e) (ground arith, scores, r.bound)
  ]
]

-- `bestAvailableWorker` returns a worker of the list with its own placement score, which is not
-- negative and which no worker of the list that can take a deployment exceeds; where it returns none,
-- every worker of the list that can take a deployment has a negative score.
pub best_available_worker-IsBest : (ws : List Worker) → IsBest ws (best_available_worker ws)
unfolding best_available_worker
best_available_worker-IsBest ws = answer-IsBest ws _ (best_from-Reached (negsuc 0, none) ws)
