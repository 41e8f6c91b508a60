-- ===== src/Base/Sorting.antt =====
-- Stable insertion sort: what `sort.SliceStable` and `ORDER BY` return.
use mathlib.Core.Path.{◌≡◌}
use mathlib.Core.Bool.{Bool, true, false}
use mathlib.Core.Logic.{inl, inr}
use mathlib.Core.List.{List, [], ◌∷◌, Perm}
use mathlib.Core.List.Perm
use mesh_vpn.Base.Tests.{if◌then◌else◌, Bool-cases}
use mesh_vpn.Base.Lists.{All}
use native.Mathlib.Omega.{arith}

-- `before x y`: `x` must stand before `y`.
module _ {ℓ} {A : Type ℓ} (before : A → A → Bool) where
  -- An element goes behind all that it need not stand before.
  unfoldable pub insert_sorted : A → List A → List A
  insert_sorted x [] = x ∷ []
  insert_sorted x (y ∷ ys) =
      let rest = insert_sorted x ys in if before y x then y ∷ rest else x ∷ y ∷ ys

  -- The last element is inserted first, so that equal elements keep their order.
  unfoldable pub sort_by : List A → List A
  unfolding insert_sorted
  sort_by [] = []
  sort_by (x ∷ xs) = insert_sorted x (sort_by xs)

  insert_sorted-perm : (x : A) (ys : List A) → Perm (insert_sorted x ys) (x ∷ ys)
  unfolding insert_sorted
  insert_sorted-perm x [] = Perm.rfl
  insert_sorted-perm x (y ∷ ys) = elim (Bool-cases (before y x)) [
    | inl e ↦ rw e (Perm.trans (Perm.cons y (insert_sorted-perm x ys)) (Perm.swap x y ys))
    | inr e ↦ rw e Perm.rfl
  ]

  pub sort_by-perm : (xs : List A) → Perm (sort_by xs) xs
  unfolding sort_by
  sort_by-perm [] = Perm.rfl
  sort_by-perm (x ∷ xs) =
      Perm.trans (insert_sorted-perm x (sort_by xs)) (Perm.cons x (sort_by-perm xs))

  pub insert_sorted-All {κ} :
      (P : A → Type κ) (x : A) (ys : List A) → P x → All P ys → All P (insert_sorted x ys)
  unfolding insert_sorted
  insert_sorted-All P x [] h hs = (h, tt)
  insert_sorted-All P x (y ∷ ys) h hs = elim (Bool-cases (before y x)) [
    | inl e ↦ rw e (hs.0, insert_sorted-All P x ys h hs.1)
    | inr e ↦ rw e (h, hs)
  ]

  -- What holds of all elements holds of them in any order.
  pub sort_by-All {κ} : (P : A → Type κ) (xs : List A) → All P xs → All P (sort_by xs)
  unfolding sort_by
  sort_by-All P [] hs = tt
  sort_by-All P (x ∷ xs) hs = insert_sorted-All P x (sort_by xs) hs.0 (sort_by-All P xs hs.1)

  -- No element of the list must stand before `x`.
  abbrev pub LeadsAll : A → List A → Type 0
  LeadsAll x = All (λ y. before y x ≡ false)

  module _ (asymmetric : (x y : A) → before x y ≡ true → before y x ≡ false)
      (not_before_trans : (x y z : A)
        → before y x ≡ false
        → before z y ≡ false
        → before z x ≡ false) where
    insert_sorted-LeadsAll :
        (z x : A) (ys : List A)
        → before x z ≡ false
        → LeadsAll z ys
        → LeadsAll z (insert_sorted x ys)
    unfolding insert_sorted
    insert_sorted-LeadsAll z x [] h all = (h, tt)
    insert_sorted-LeadsAll z x (y ∷ ys) h all =
        ground (arith, insert_sorted-LeadsAll z x ys h all.1)

    LeadsAll-trans : (x y : A) (ys : List A) → before y x ≡ false → LeadsAll y ys → LeadsAll x ys
    LeadsAll-trans x y [] h all = tt
    LeadsAll-trans x y (z ∷ ys) h all =
        (not_before_trans x y z h all.0, LeadsAll-trans x y ys h all.1)

    -- Each element leads all that stand behind it.
    abbrev pub IsOrdered : List A → Type 0
    IsOrdered [] = Unit
    IsOrdered (x ∷ xs) = LeadsAll x xs × IsOrdered xs

    insert_sorted-IsOrdered : (x : A) (ys : List A) → IsOrdered ys → IsOrdered (insert_sorted x ys)
    unfolding insert_sorted
    insert_sorted-IsOrdered x [] h = (tt, tt)
    insert_sorted-IsOrdered x (y ∷ ys) h = elim (Bool-cases (before y x)) [
      | inl e ↦
          rw e
            (insert_sorted-LeadsAll y x ys (asymmetric y x e) h.0, insert_sorted-IsOrdered x ys h.1)
      | inr e ↦ rw e ((e, LeadsAll-trans x y ys e h.0), h)
    ]

    pub sort_by-IsOrdered : (xs : List A) → IsOrdered (sort_by xs)
    unfolding sort_by
    sort_by-IsOrdered [] = tt
    sort_by-IsOrdered (x ∷ xs) = insert_sorted-IsOrdered x (sort_by xs) (sort_by-IsOrdered xs)
