-- ===== src/Forwarder/Hosts/Names.antt =====
-- Which name `extractSubdomain` of tools/traffic-forwarder/main.go reads in a host.
use mesh_vpn.Text.{Text, contains_char, is_empty, trim_suffix}
use mesh_vpn.Base.{
  Bool, Bool-cases, [], false, inl, inr, refl, ℕ, ◌++◌, ◌||◌, ◌↔◌, ◌∷◌, ◌≡◌, ap, arith,
  if◌then◌else◌, subst, sym, ◌∙◌,
}
use mesh_vpn.Forwarder.Hosts.{base_of, extract_subdomain, is_reserved, name_or_empty, has_suffix}
use mesh_vpn.Text.Suffixes.{has_suffix-append, trim_suffix-append, trim_suffix_lem}

-- A name of a deployment, in front of the base domain.
abbrev pub IsNameIn : Text → Text → Text → Type 0
IsNameIn host base name =
    (host ≡ name ++ b'.' ∷ base) × (contains_char b'.' name ≡ false) × (is_reserved name ≡ false)

append-nonempty : (s t : Text) (c : ℕ) → is_empty (s ++ c ∷ t) ≡ false
unfolding is_empty
append-nonempty [] t c = refl
append-nonempty (d ∷ s) t c = refl

base_of-nonempty : (domain : Text) → is_empty (base_of domain) ≡ false → is_empty domain ≡ false
unfolding base_of is_empty
base_of-nonempty [] h = h
base_of-nonempty (c ∷ domain) h = refl

or_false : (a b : Bool) → (a || b) ≡ false → (a ≡ false) × (b ≡ false)
or_false a b h = ground arith

module _ (is_ip : Text → Bool) (domain name : Text) (named : is_empty name ≡ false)
    (based : is_empty (base_of domain) ≡ false) where
  abbrev ending : Text
  ending = b'.' ∷ base_of domain

  not_named : [] ≡ name → ⊥
  unfolding is_empty
  not_named e = cc (subst (λ t. is_empty t ≡ false) (sym e) named)

  name_or_empty-eq :
      (found : Text)
      → name_or_empty found ≡ name
      → (found ≡ name) × (contains_char b'.' name ≡ false) × (is_reserved name ≡ false)
  name_or_empty-eq found h = elim (Bool-cases (contains_char b'.' found || is_reserved found)) [
    | inl e ↦ absurd (not_named (rw e at h))
    | inr e ↦
        let same : found ≡ name = rw e at h in
        let clear : (contains_char b'.' name || is_reserved name) ≡ false =
          subst (λ t. (contains_char b'.' t || is_reserved t) ≡ false) same e in
        let both = or_false _ _ clear in (same, both.0, both.1)
  ]

  -- What is left of the tests on a host that is not empty.
  extract_subdomain-tests :
      (host : Text)
      → is_ip host ≡ false
      → extract_subdomain is_ip host domain ≡ (
          if is_empty host
          then []
          else if has_suffix ending host
          then name_or_empty (trim_suffix ending host)
          else [])
  unfolding extract_subdomain
  extract_subdomain-tests host not_ip = elim (Bool-cases (is_empty host)) [
    | inl e ↦ rw e refl
    | inr e ↦ rw (e, base_of-nonempty domain based, not_ip, based) refl
  ]

  read_name :
      (host : Text)
      → (if is_empty host
          then []
          else if has_suffix ending host
          then name_or_empty (trim_suffix ending host)
          else [])
        ≡ name
      → IsNameIn host (base_of domain) name
  read_name host h = elim (Bool-cases (is_empty host)) [
    | inl e ↦ absurd (not_named (rw e at h))
    | inr e ↦ elim (Bool-cases (has_suffix ending host)) [
      | inr f ↦ absurd (not_named (rw (e, f) at h))
      | inl f ↦
          let found = name_or_empty-eq (trim_suffix ending host) (rw (e, f) at h) in
          (
            trim_suffix-append ending host f ∙ ap (λ (t : Text). t ++ ending) found.0,
            found.1,
            found.2,
          )
    ]
  ]

  -- For a host that is no address, and a base domain that is not empty: a name that is not empty is read
  -- exactly in the host that is the name, a dot and the base domain, where the name has no dot and is
  -- not reserved.
  pub extract_subdomain-IsNameIn :
      (host : Text)
      → is_ip host ≡ false
      → (extract_subdomain is_ip host domain ≡ name) ↔ IsNameIn host (base_of domain) name
  extract_subdomain-IsNameIn host not_ip = (
    λ h. read_name host (sym (extract_subdomain-tests host not_ip) ∙ h),
    λ n.
        extract_subdomain-tests host not_ip
        ∙ rw
            (
              n.0,
              append-nonempty name (base_of domain) b'.',
              has_suffix-append name ending,
              trim_suffix_lem name ending,
              n.1,
              n.2,
            )
            refl,
  )
