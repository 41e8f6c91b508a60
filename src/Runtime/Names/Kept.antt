-- ===== src/Runtime/Names/Kept.antt =====
-- A name that is a DNS label passes the drivers unchanged.
use mathlib.Core.List.{reverse, reverse-reverse, reverse-append}
use mesh_vpn.Service.Subdomains
use mesh_vpn.Service.Subdomains.Labels.{AreLabelChars, NoLead, NoTrail, clean_name_lem}
use mesh_vpn.Text.{
  Text, is_empty, is_space, lower, to_lower, trim_both, trim_char, trim_left, trim_space,
}
use mesh_vpn.Base.{
  All, All-append, Bool, [], ap, arith, false, length, ltb, refl, subst, sym, ℕ, ◌<◌, ◌==◌, ◌∷◌,
  ◌≡◌, ◌≤◌, true,
}
use mesh_vpn.Runtime.Names.{dash_runs, sanitize_subdomain, or_app}
use mesh_vpn.Service.Subdomains.{clean_name, is_label_char, max_label}

-- The first code point, if there is one, does not pass the test.
abbrev LeadFails : (ℕ → Bool) → Text → Type 0
LeadFails p [] = Unit
LeadFails p (c ∷ s) = p c ≡ false

trim_left_id : (p : ℕ → Bool) (s : Text) → LeadFails p s → trim_left p s ≡ s
unfolding trim_left
trim_left_id p [] h = refl
trim_left_id p (c ∷ s) h = rw h refl

trim_both_id :
    (p : ℕ → Bool) (s : Text) → LeadFails p s → LeadFails p (reverse s) → trim_both p s ≡ s
unfolding trim_both
trim_both_id p s front back =
    rw (trim_left_id p s front, trim_left_id p (reverse s) back) (reverse-reverse s)

All-reverse : (P : ℕ → Type 0) (s : Text) → All P s → All P (reverse s)
All-reverse P [] h = tt
All-reverse P (c ∷ s) h =
    subst (All P) (sym (reverse-append (c ∷ []) s))
      (All-append P (reverse s) (c ∷ []) (All-reverse P s h.1) (h.0, tt))

NoLead-LeadFails : (cut : ℕ) (s : Text) → NoLead cut s → LeadFails (λ c. c == cut) s
NoLead-LeadFails cut [] h = tt
NoLead-LeadFails cut (c ∷ s) h = ground arith

no_space : (s : Text) → AreLabelChars s → LeadFails is_space s
unfolding is_space is_label_char
no_space [] h = tt
no_space (c ∷ s) h = ground (arith, h.0)

lower-label : (c : ℕ) → is_label_char c ≡ true → lower c ≡ c
unfolding lower is_label_char
lower-label c h = ground arith

lower_id : (s : Text) → AreLabelChars s → to_lower s ≡ s
unfolding to_lower
lower_id [] h = refl
lower_id (c ∷ s) h = rw (lower-label c h.0) (ap (λ t. c ∷ t) (lower_id s h.1))

dash_runs_id : (in_run : Bool) (s : Text) → AreLabelChars s → dash_runs in_run s ≡ s
unfolding dash_runs
dash_runs_id in_run [] h = refl
dash_runs_id in_run (c ∷ s) h = rw h.0 (ap (λ t. c ∷ t) (dash_runs_id false s h.1))

or_app_id : (s : Text) → 0 < length s → or_app s ≡ s
unfolding is_empty
or_app_id [] h = absurd (omega arith)
or_app_id (c ∷ s) h = refl

is_label_kept :
    (s : Text)
    → AreLabelChars s
    → NoLead b'-' s
    → NoTrail b'-' s
    → 0 < length s
    → sanitize_subdomain s ≡ s
unfolding sanitize_subdomain trim_space trim_char is_empty
is_label_kept s chars front back some_chars =
    rw
      (
        trim_both_id is_space s (no_space s chars) (no_space (reverse s) (All-reverse _ s chars)),
        lower_id s chars,
        dash_runs_id false s chars,
        trim_both_id (λ c. c == b'-') s (NoLead-LeadFails b'-' s front)
            (NoLead-LeadFails b'-' (reverse s) back),
      )
      (or_app_id s some_chars)

-- A name that the service has made of what a user asks for is the name that a driver deploys under:
-- it is not changed once more, where it is not empty and was not cut to the length of a label.
pub sanitize_subdomain-kept :
    (name : Text)
    → 0 < length (clean_name name)
    → length (clean_name name) ≤ max_label
    → sanitize_subdomain (Subdomains.sanitize_subdomain name) ≡ Subdomains.sanitize_subdomain name
unfolding Subdomains.sanitize_subdomain
sanitize_subdomain-kept name some_chars fits =
    let (chars, front, back) = clean_name_lem name in
    let short : ltb max_label (length (clean_name name)) ≡ false = ground arith in
    rw (short, Subdomains.sanitize_subdomain)
      (is_label_kept (clean_name name) chars front back some_chars)
