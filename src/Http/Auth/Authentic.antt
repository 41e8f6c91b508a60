-- ===== src/Http/Auth/Authentic.antt =====
-- Which requests `RequireSupabaseAuth` of control-plane/internal/auth/middleware.go lets through.
use mesh_vpn.Text.{Text, codes, is_empty, trim_space}
use mesh_vpn.Store.Users.{UserRepository}
use mesh_vpn.Base.{
  Bool, Bool-cases, Option, Option-cases, ap, arith, false, if◌then◌else◌, inl, inr, ltb, none,
  refl, some, true, ℕ, ◌-◌, ◌<◌, ◌∙◌, ◌≡◌, ◌⊎◌,
}
use mesh_vpn.Http.Auth.{
  AuthRequest, Claims, Decision, Identity, Jwt, Method, Middleware, aborted, admit_parsed,
  authorization_of, bearer_token, checked_by, ecdsa, hmac, identity_of, is_allowed, is_expired,
  key_for, other_method, parse_with_claims, require_supabase_auth, signed_in, unauthorized,
  unchecked, with_token,
}
use mesh_vpn.Http.Auth.Admitted.{IsAdmitted, admit-IsAdmitted}
use mesh_vpn.Http.Auth.Keys.{
  Codec, Key, KeyCache, Network, api_key, fetch_supabase_public_key, jwks_url, key_answered,
  key_lifetime, secret_key, stored_at,
}

module _ (now : ℕ) (cfg : Middleware) (jwt : Jwt) (codec : Codec) (network : Network) where
  -- A key that was answered for the configured project, at an earlier time within the lifetime of a key
  -- and kept since, or now.
  abbrev pub IsProjectKey : KeyCache → Key → Type 0
  IsProjectKey cache key =
      ((stored : ℕ) × (cache ≡ some (key, stored)) × (now - stored < key_lifetime))
      ⊎ (key_answered codec
            (network now (jwks_url codec cfg.supabase_url) (api_key codec cfg.supabase_anon_key))
          ≡ some key)

  -- The keys that tokens may be signed with, by the method that a token names.
  abbrev pub IsTrusted : KeyCache → Method → Key → Type 0
  IsTrusted cache hmac key = key ≡ secret_key codec cfg.jwt_secret
  IsTrusted cache ecdsa key =
      ((is_empty cfg.supabase_url ≡ true) × (codec.parse_pem cfg.jwt_secret ≡ some key))
      ⊎ ((is_empty cfg.supabase_url ≡ false) × IsProjectKey cache key)
  IsTrusted cache other_method key = ⊥

  -- The token that the request presents is valid under a trusted key, and speaks for the identity.
  pub record IsAuthentic (req : AuthRequest) (cache : KeyCache) (who : Identity) : Type 0 where
    pub token : Text
    pub method : Method
    pub key : Key
    pub given : Claims
    pub presented : bearer_token (authorization_of req) ≡ some token
    pub named : jwt.method token ≡ some method
    pub trusted : IsTrusted cache method key
    pub valid : jwt.check now token key ≡ some given
    pub unexpired : is_expired now given.expires_at ≡ false
    pub speaks : who ≡ identity_of given
    pub allowed : is_allowed who.provider ≡ true

  -- What is true of a request by its decision.
  abbrev pub Passes : AuthRequest → KeyCache → Decision → Type 0
  Passes req cache unchecked = cfg.require_auth ≡ false
  Passes req cache (signed_in who user) = IsAuthentic req cache who
  Passes req cache (aborted status text) = Unit

  stored_at-answer :
      (cache : KeyCache) (answer : Option Key) (key : Key)
      → (stored_at codec now cache answer).0 ≡ some key
      → answer ≡ some key
  stored_at-answer cache none key h = h
  stored_at-answer cache (some k) key h = h

  fetch-IsProjectKey :
      (cache : KeyCache) (key : Key)
      → (fetch_supabase_public_key codec network now cfg.supabase_url cfg.supabase_anon_key cache).0
        ≡ some key
      → IsProjectKey cache key
  unfolding fetch_supabase_public_key
  fetch-IsProjectKey none key h = inr (stored_at-answer none _ key h)
  fetch-IsProjectKey (some (k, stored)) key h =
      elim (Bool-cases (ltb (now - stored) key_lifetime)) [
        | inl e ↦ inl (stored, cc (rw (e, fetch_supabase_public_key) at h), ground arith)
        | inr e ↦
            inr (stored_at-answer (some (k, stored)) _ key (rw (e, fetch_supabase_public_key) at h))
      ]

  key_for-IsTrusted :
      {S : Type 0} (users : Option (UserRepository S)) (method : Method) (cache : KeyCache)
      (key : Key)
      → (key_for users now cfg jwt codec network method cache).0 ≡ some key
      → IsTrusted cache method key
  unfolding key_for
  key_for-IsTrusted users hmac cache key h = ground arith
  key_for-IsTrusted users ecdsa cache key h = elim (Bool-cases (is_empty cfg.supabase_url)) [
    | inl e ↦ inl (e, rw e at h)
    | inr e ↦ inr (e, fetch-IsProjectKey cache key (rw e at h))
  ]
  key_for-IsTrusted users other_method cache key h = cc

  module _ {S : Type 0} (users : Option (UserRepository S)) where
    -- The method and the key behind the claims of a token.
    record IsSigned (token : Text) (cache : KeyCache) (given : Claims) : Type 0 where
      method : Method
      key : Key
      named : jwt.method token ≡ some method
      trusted : IsTrusted cache method key
      valid : jwt.check now token key ≡ some given

    parse_with_claims-IsSigned :
        (token : Text) (cache : KeyCache) (given : Claims)
        → (parse_with_claims users now cfg jwt codec network token cache).0 ≡ some given
        → IsSigned token cache given
    unfolding parse_with_claims
    parse_with_claims-IsSigned token cache given h = elim (Option-cases (jwt.method token)) [
      | inl e ↦ absurd (none_not_some (rw (e, parse_with_claims) at h))
      | inr (method, e) ↦
          signed method e (key_of_method method) refl (rw (e, parse_with_claims) at h)
    ]
      where
        key_of_method : Method → Option Key
        key_of_method method = (key_for users now cfg jwt codec network method cache).0

        none_not_some : ◌≡◌ {A = Option Claims} none (some given) → ⊥
        none_not_some e = cc

        signed :
            (method : Method)
            → jwt.method token ≡ some method
            → (o : Option Key) → key_of_method method ≡ o
            → checked_by users now cfg jwt codec network token (key_of_method method) ≡ some given
            → IsSigned token cache given
        signed method e none k c = absurd (none_not_some (rw k at c))
        signed method e (some key) k c = record {
          method = method;
          key = key;
          named = e;
          trusted = key_for-IsTrusted users method cache key k;
          valid = rw k at c;
        }

    authentic :
        (req : AuthRequest) (cache : KeyCache) (token : Text) (given : Claims) (d : Decision)
        → bearer_token (authorization_of req) ≡ some token
        → IsSigned token cache given
        → IsAdmitted now given d
        → Passes req cache d
    authentic req cache token given unchecked p sg a = absurd a
    authentic req cache token given (signed_in who user) p sg (unexpired, speaks, allowed) =
        record {
          token = token;
          method = sg.method;
          key = sg.key;
          given = given;
          presented = p;
          named = sg.named;
          trusted = sg.trusted;
          valid = sg.valid;
          unexpired = unexpired;
          speaks = speaks;
          allowed = ap (λ w. is_allowed w.provider) speaks ∙ allowed;
        }
    authentic req cache token given (aborted status text) p sg a = tt

    -- A request passes without a sign-in only where the configuration asks for none. It passes with one
    -- only if the token that it presents is valid under a key that is trusted for its method, has not
    -- expired, and speaks for the identity of the sign-in, by a provider that is allowed. Trusted are
    -- the configured secret, and the configured public key, or where a project is configured the key
    -- that it answers now, or that was cached less than an hour ago.
    pub require_supabase_auth-Passes :
        (req : AuthRequest) (s : S) (cache : KeyCache)
        → Passes req cache (require_supabase_auth users now cfg jwt codec network req (s, cache)).0
    unfolding require_supabase_auth
    require_supabase_auth-Passes req s cache = by_required cfg.require_auth refl
      where
        by_claims :
            (token : Text) (o : Option Claims)
            → bearer_token (authorization_of req) ≡ some token
            → (parse_with_claims users now cfg jwt codec network token cache).0 ≡ o
            → Passes req cache (admit_parsed users now cfg jwt codec network o s).0
        by_claims token none p h = tt
        by_claims token (some given) p h =
            authentic req cache token given _ p (parse_with_claims-IsSigned token cache given h)
              (admit-IsAdmitted now users given s)

        by_token :
            (o : Option Text)
            → bearer_token (authorization_of req) ≡ o
            → Passes req cache (with_token users now cfg jwt codec network o (s, cache)).0
        by_token none p = tt
        by_token (some token) p = elim (Bool-cases (is_empty (trim_space cfg.jwt_secret))) [
          | inl m ↦ rw m tt
          | inr m ↦ rw m (by_claims token _ p refl)
        ]

        by_header :
            (missing : Bool)
            → Passes req cache
                (if missing
                  then (unauthorized (codes "missing authorization header"), (s, cache))
                  else with_token users now cfg jwt codec network
                      (bearer_token (authorization_of req))
                      (s, cache)).0
        by_header true = tt
        by_header false = by_token (bearer_token (authorization_of req)) refl

        by_required :
            (required : Bool)
            → cfg.require_auth ≡ required
            → Passes req cache
                (if required
                  then (if is_empty (authorization_of req)
                      then (unauthorized (codes "missing authorization header"), (s, cache))
                      else with_token users now cfg jwt codec network
                          (bearer_token (authorization_of req))
                          (s, cache))
                  else (unchecked, (s, cache))).0
        by_required true e = by_header (is_empty (authorization_of req))
        by_required false e = e
