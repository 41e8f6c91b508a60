-- ===== src/Base/Lists/Splits.antt =====
-- What the loops over lists do, as a split of the list at the element that they stop at.
use mathlib.Core.Path.{◌≡◌, ◌∙◌, ap, refl, sym}
use mathlib.Core.Bool.{Bool, true}
use mathlib.Core.Logic.{◌⊎◌, inl, inr}
use mathlib.Core.Option.{Option, none, some}
use mathlib.Core.List.{List, [], ◌∷◌, ◌++◌}
use native.Mathlib.Omega.{arith}
use mesh_vpn.Base.Tests.{Bool-cases}
use mesh_vpn.Base.Lists.{after, keep, first, update_first, set_first, All}

module _ {ℓ} {A : Type ℓ} where
  pub keep-append : (p : A → Bool) (xs ys : List A) → keep p (xs ++ ys) ≡ keep p xs ++ keep p ys
  unfolding keep
  keep-append p [] ys = refl
  keep-append p (x ∷ xs) ys = ground (arith, keep-append p xs ys)

  -- No element passes, or `x` is the first that does.
  pub record SplitAt (p : A → Bool) (xs : List A) : Type ℓ where
    pub before : List A
    pub found : A
    pub behind : List A
    pub split : xs ≡ before ++ found ∷ behind
    pub none_before : keep p before ≡ []
    pub passes : p found ≡ true

module _ {ℓ} {A : Type ℓ} (p : A → Bool) where
  pub update_first-cases :
      (f : A → A) (xs : List A)
      → ((keep p xs ≡ []) × (update_first p f xs ≡ none))
        ⊎ ((s : SplitAt p xs) × (update_first p f xs
              ≡ some (f s.found, s.before ++ f s.found ∷ s.behind)))
  unfolding keep update_first
  update_first-cases f [] = inl (refl, refl)
  update_first-cases f (x ∷ xs) = elim (Bool-cases (p x)) [
    | inl hit ↦ inr (
      record {
        before = [];
        found = x;
        behind = xs;
        split = refl;
        none_before = refl;
        passes = hit;
      },
      rw hit,
    )
    | inr miss ↦ elim (update_first-cases f xs) [
      | inl (e, u) ↦ inl (rw miss e, rw (miss, u))
      | inr (s, u) ↦ inr (
        record {
          before = x ∷ s.before;
          found = s.found;
          behind = s.behind;
          split = cc (s.split);
          none_before = rw miss s.none_before;
          passes = s.passes;
        },
        rw (miss, u),
      )
    ]
  ]

  pub first-cases :
      (xs : List A)
      → ((keep p xs ≡ []) × (first p xs ≡ none))
        ⊎ ((s : SplitAt p xs) × (first p xs ≡ some s.found))
  unfolding keep first
  first-cases [] = inl (refl, refl)
  first-cases (x ∷ xs) = elim (Bool-cases (p x)) [
    | inl hit ↦ inr (
      record {
        before = [];
        found = x;
        behind = xs;
        split = refl;
        none_before = refl;
        passes = hit;
      },
      rw hit,
    )
    | inr miss ↦ elim (first-cases xs) [
      | inl (e, u) ↦ inl (rw miss e, rw (miss, u))
      | inr (s, u) ↦ inr (
        record {
          before = x ∷ s.before;
          found = s.found;
          behind = s.behind;
          split = cc (s.split);
          none_before = rw miss s.none_before;
          passes = s.passes;
        },
        rw (miss, u),
      )
    ]
  ]

  pub keep-at : (xs : List A) (s : SplitAt p xs) → keep p xs ≡ s.found ∷ keep p s.behind
  unfolding keep
  keep-at xs s = rw (s.split, keep-append p s.before (s.found ∷ s.behind), s.none_before, s.passes)

-- The list behind a search that may have found none.
abbrev pub behind_search {ℓ} : {A : Type ℓ} → List A → Option (A × List A) → List A
behind_search xs none = xs
behind_search xs (some (y, ys)) = ys

behind_search-after {ℓ} :
    {A : Type ℓ} (x : A) (xs : List A) (found : Option (A × List A))
    → behind_search (x ∷ xs) (after x found) ≡ x ∷ behind_search xs found
behind_search-after x xs none = refl
behind_search-after x xs (some (y, ys)) = refl

-- The two ways to write to the first element that passes a test.
pub set_first-update_first {ℓ} :
    {A : Type ℓ} (p : A → Bool) (f : A → A) (xs : List A)
    → set_first p f xs ≡ behind_search xs (update_first p f xs)
unfolding set_first update_first
set_first-update_first p f [] = refl
set_first-update_first {A = A} p f (x ∷ xs) = elim (Bool-cases (p x)) [
  | inl e ↦ rw e refl
  | inr e ↦ rw e (
      ap (λ (l : List A). x ∷ l) (set_first-update_first p f xs)
      ∙ sym (behind_search-after x xs (update_first p f xs)))
]

module _ {ℓ κ} {A : Type ℓ} (P : A → Type κ) (p : A → Bool) (f : A → A) where
  pub set_first-All :
      (xs : List A) → ((x : A) → P x → P (f x)) → All P xs → All P (set_first p f xs)
  unfolding set_first
  set_first-All [] keeps h = tt
  set_first-All (x ∷ xs) keeps h = elim (Bool-cases (p x)) [
    | inl e ↦ rw e (keeps x h.0, h.1)
    | inr e ↦ rw e (h.0, set_first-All xs keeps h.1)
  ]

module _ {ℓ} {A : Type ℓ} (p : A → Bool) where
  -- All kept elements pass, and all keep what they had.
  pub keep_passes : (xs : List A) → All (λ x. p x ≡ true) (keep p xs)
  unfolding keep
  keep_passes [] = tt
  keep_passes (x ∷ xs) = elim (Bool-cases (p x)) [
    | inl e ↦ rw e (e, keep_passes xs)
    | inr e ↦ rw e (keep_passes xs)
  ]

  pub keep-All {κ} : (P : A → Type κ) (xs : List A) → All P xs → All P (keep p xs)
  unfolding keep
  keep-All P [] h = tt
  keep-All P (x ∷ xs) h = elim (Bool-cases (p x)) [
    | inl e ↦ rw e (h.0, keep-All P xs h.1)
    | inr e ↦ rw e (keep-All P xs h.1)
  ]

pub All-map {ℓ κ κ'} :
    {A : Type ℓ} (P : A → Type κ) (Q : A → Type κ')
    → ((x : A) → P x → Q x)
    → (xs : List A) → All P xs
    → All Q xs
All-map P Q f [] h = tt
All-map P Q f (x ∷ xs) h = (f x h.0, All-map P Q f xs h.1)
