-- ===== src/Http/Auth/Admitted.antt =====
-- What `RequireSupabaseAuth` of control-plane/internal/auth/middleware.go does with the claims of a valid
-- token.
use mesh_vpn.Store.Errors.{err, ok, Result}
use mesh_vpn.Store.Users.{User, UserRepository}
use mesh_vpn.Base.{Bool-cases, Option, false, inl, inr, none, refl, some, true, ℕ, ◌≡◌}
use mesh_vpn.Http.Auth.{
  Claims, Decision, Identity, aborted, admit, after_get, after_upsert, first_login, identity_of,
  is_allowed, is_expired, load_from, load_user, provider_of, signed_in, unchecked,
}

-- The identity is that of the claims, which have not expired, with a provider that is allowed.
abbrev pub IsAdmitted : ℕ → Claims → Decision → Type 0
IsAdmitted now given unchecked = ⊥
IsAdmitted now given (signed_in who user) =
    (is_expired now given.expires_at ≡ false)
    × (who ≡ identity_of given)
    × (is_allowed (provider_of given) ≡ true)
IsAdmitted now given (aborted status text) = Unit

-- A decision about an identity, which ends the request or signs in that identity.
abbrev Concerns : Identity → Decision → Type 0
Concerns who unchecked = ⊥
Concerns who (signed_in who' user) = who' ≡ who
Concerns who (aborted status text) = Unit

concerned :
    (now : ℕ) (given : Claims) (d : Decision)
    → is_expired now given.expires_at ≡ false
    → is_allowed (provider_of given) ≡ true
    → Concerns (identity_of given) d
    → IsAdmitted now given d
concerned now given unchecked e a c = c
concerned now given (signed_in who user) e a c = (e, c, a)
concerned now given (aborted status text) e a c = tt

module _ {S : Type 0} (now : ℕ) where
  after_get-Concerns :
      (repo : UserRepository S) (users : Option (UserRepository S)) (who : Identity)
      (r : Result User) (s : S)
      → Concerns who (after_get users now repo who r s).0
  after_get-Concerns repo users who (ok user) s = refl
  after_get-Concerns repo users who (err e) s = upserted (repo.upsert now (first_login who) s).0
    where
      upserted : (r : Result (Unit {0})) → Concerns who (after_upsert users now who r)
      upserted (ok _) = refl
      upserted (err e) = tt

  load_user-Concerns :
      (users : Option (UserRepository S)) (who : Identity) (s : S)
      → Concerns who (load_user users now who s).0
  unfolding load_user load_from
  load_user-Concerns none who s = refl
  load_user-Concerns (some repo) who s = after_get-Concerns repo (some repo) who _ _

  pub admit-IsAdmitted :
      (users : Option (UserRepository S)) (given : Claims) (s : S)
      → IsAdmitted now given (admit users now given s).0
  unfolding admit
  admit-IsAdmitted users given s = elim (Bool-cases (is_expired now given.expires_at)) [
    | inl e ↦ rw e tt
    | inr e ↦ elim (Bool-cases (is_allowed (provider_of given))) [
      | inr a ↦ rw (e, a) tt
      | inl a ↦
          rw (e, a) (concerned now given _ e a (load_user-Concerns users (identity_of given) s))
    ]
  ]
