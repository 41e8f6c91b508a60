-- ===== src/Service/Subdomains/Labels.antt =====
-- The sanitised name is a DNS label, but for one case.
use mathlib.Core.List.{reverse, reverse-reverse, reverse-append}
use mesh_vpn.Text.{Text, trim_both, trim_char, trim_left}
use mesh_vpn.Base.{
  All, Bool, Bool-cases, [], ap, arith, inl, inr, keep, refl, subst, sym, true, ℕ, ◌++◌, ◌==◌, ◌∙◌,
  ◌∷◌, ◌≡◌, ◌≢◌, length, suc, take, zero, ◌≤◌, All-take, length-take, ltb, length-append, ◌<◌,
  keep_passes,
}
use mesh_vpn.Service.Subdomains.{
  is_label_char, clean_name, drop_dash, max_label, sanitize_subdomain, spell,
}

-- The first element, if there is one, is not `c`.
abbrev pub NoLead : ℕ → Text → Type 0
NoLead c [] = Unit
NoLead c (d ∷ s) = d ≢ c

-- The same of the last element.
abbrev pub NoTrail : ℕ → Text → Type 0
NoTrail c s = NoLead c (reverse s)

-- All code points of a text are characters of a label.
abbrev pub AreLabelChars : Text → Type 0
AreLabelChars = All (λ c. is_label_char c ≡ true)

-- What `trim_left` drops.
trim_left-suffix : (p : ℕ → Bool) (s : Text) → (dropped : Text) × (s ≡ dropped ++ trim_left p s)
unfolding trim_left
trim_left-suffix p [] = ([], refl)
trim_left-suffix p (c ∷ s) = elim (Bool-cases (p c)) [
  | inl e ↦
      let (dropped, split) = trim_left-suffix p s in (c ∷ dropped, rw e (ap (λ t. c ∷ t) split))
  | inr e ↦ ([], rw e)
]

trim_left-NoLead : (cut : ℕ) (s : Text) → NoLead cut (trim_left (λ c. c == cut) s)
unfolding trim_left
trim_left-NoLead cut [] = tt
trim_left-NoLead cut (c ∷ s) = elim (Bool-cases (c == cut)) [
  | inl e ↦ rw e (trim_left-NoLead cut s)
  | inr e ↦ rw e (λ h. ground arith)
]

All-suffix : (P : ℕ → Type 0) (s t : Text) → All P (s ++ t) → All P t
All-suffix P [] t h = h
All-suffix P (c ∷ s) t h = All-suffix P s t h.1

All-prefix : (P : ℕ → Type 0) (s t : Text) → All P (s ++ t) → All P s
All-prefix P [] t h = tt
All-prefix P (c ∷ s) t h = (h.0, All-prefix P s t h.1)

NoLead-prefix : (c : ℕ) (s t : Text) → NoLead c (s ++ t) → NoLead c s
NoLead-prefix c [] t h = tt
NoLead-prefix c (d ∷ s) t h = h

-- `trim_both` keeps a middle piece: after the left trim, it cuts off a tail.
trim_both-prefix :
    (p : ℕ → Bool) (s : Text) → (tail : Text) × (trim_left p s ≡ trim_both p s ++ tail)
unfolding trim_both
trim_both-prefix p s =
    let left = trim_left p s in
    let (dropped, split) = trim_left-suffix p (reverse left) in
    (
      reverse dropped,
      sym (reverse-reverse left)
          ∙ ap reverse split
          ∙ reverse-append dropped (trim_left p (reverse left)),
    )

pub trim_char-NoLead : (cut : ℕ) (s : Text) → NoLead cut (trim_char cut s)
unfolding trim_char
trim_char-NoLead cut s =
    let (tail, split) = trim_both-prefix (λ c. c == cut) s in
    NoLead-prefix cut _ tail (subst (NoLead cut) split (trim_left-NoLead cut s))

pub trim_char-NoTrail : (cut : ℕ) (s : Text) → NoTrail cut (trim_char cut s)
unfolding trim_char
trim_char-NoTrail cut s = rw reverse-reverse (trim_left-NoLead cut _)

pub trim_char-All : (P : ℕ → Type 0) (cut : ℕ) (s : Text) → All P s → All P (trim_char cut s)
unfolding trim_char
trim_char-All P cut s h =
    let (dropped, split) = trim_left-suffix (λ c. c == cut) s in
    let (tail, rest) = trim_both-prefix (λ c. c == cut) s in
    All-prefix P _ tail (subst (All P) rest (All-suffix P dropped _ (subst (All P) split h)))

NoLead-drop_dash : (s : Text) → NoLead b'-' s → drop_dash s ≡ s
unfolding drop_dash
NoLead-drop_dash [] h = refl
NoLead-drop_dash (c ∷ s) h = ground arith

-- The name before the cut has only characters of a label, and no dash at either end.
pub clean_name_lem :
    (name : Text)
    → AreLabelChars (clean_name name)
      × NoLead b'-' (clean_name name)
      × NoTrail b'-' (clean_name name)
unfolding clean_name
clean_name_lem name =
    let kept = keep is_label_char (spell name) in
    rw (NoLead-drop_dash (trim_char b'-' kept) (trim_char-NoLead b'-' kept)) (
      trim_char-All (λ c. is_label_char c ≡ true) b'-' kept
          (keep_passes is_label_char (spell name)),
      trim_char-NoLead b'-' kept,
      trim_char-NoTrail b'-' kept,
    )

NoLead-take : (c : ℕ) (n : ℕ) (s : Text) → NoLead c s → NoLead c (take n s)
NoLead-take c zero s h = tt
NoLead-take c (suc n) [] h = tt
NoLead-take c (suc n) (d ∷ s) h = h

-- Whatever the name, the result has only lower-case letters, digits and dashes, is no longer than a
-- DNS label may be, and does not begin with a dash; and where nothing is cut off it does not end
-- with one either.
pub sanitize_subdomain-IsLabel :
    (name : Text)
    → AreLabelChars (sanitize_subdomain name)
      × (length (sanitize_subdomain name) ≤ max_label)
      × NoLead b'-' (sanitize_subdomain name)
      × (length (clean_name name) ≤ max_label → NoTrail b'-' (sanitize_subdomain name))
unfolding sanitize_subdomain
sanitize_subdomain-IsLabel name =
    let (chars, lead, trail) = clean_name_lem name in
    elim (Bool-cases (ltb max_label (length (clean_name name)))) [
      | inl long ↦
          rw (long, sanitize_subdomain)
            (
              All-take (λ c. is_label_char c ≡ true) max_label (clean_name name) chars,
              omega (arith, length-take max_label (clean_name name)),
              NoLead-take b'-' max_label (clean_name name) lead,
              λ fits. absurd (ground arith),
            )
      | inr short ↦ rw (short, sanitize_subdomain) (chars, ground arith, lead, λ fits. trail)
    ]

take-append :
    (front back : Text) (c : ℕ) → take (suc (length front)) (front ++ c ∷ back) ≡ front ++ c ∷ []
take-append [] back c = refl
take-append (d ∷ front) back c = ap (λ s. d ∷ s) (take-append front back c)

-- A name that has a dash just before the cut, and more behind it, becomes one that ends with a dash:
-- no DNS label. The trim comes before the cut, and is not repeated.
pub sanitize_subdomain_trailing_dash :
    (name front back : Text)
    → clean_name name ≡ front ++ b'-' ∷ back
    → length front ≡ 62
    → 0 < length back
    → ¬ NoTrail b'-' (sanitize_subdomain name)
unfolding sanitize_subdomain
sanitize_subdomain_trailing_dash name front back e n more trail =
    subst (NoLead b'-') (reverse-append front (b'-' ∷ [])) (subst (NoTrail b'-') cut trail) refl
  where
    long : ltb max_label (length (clean_name name)) ≡ true
    long = ground (arith, ap (length {A = ℕ}) e, length-append front (b'-' ∷ back))

    at_cut : ℕ → Type 0
    at_cut k = take (suc k) (front ++ b'-' ∷ back) ≡ front ++ b'-' ∷ []

    cut : sanitize_subdomain name ≡ front ++ b'-' ∷ []
    cut = rw (long, sanitize_subdomain) (rw e (subst at_cut n (take-append front back b'-')))
