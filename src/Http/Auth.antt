-- ===== src/Http/Auth.antt =====
-- `RequireSupabaseAuth` of control-plane/internal/auth/middleware.go. The JWT library is a parameter: the
-- method that a token names, and what it makes of a token with a key. So is what the network answers to
-- the request for the public key, and what base64, PEM and elliptic curves make of a text.
pub mod Keys
pub mod Admitted
pub mod Authentic
pub mod FirstLogin
use mathlib.Core.List.{reverse}
use mesh_vpn.Store.Errors.{err, ok, Program, Result}
use mesh_vpn.Text.{Text, codes, has_prefix, is_empty, text_eq, to_lower, trim_space}
use mesh_vpn.Store.Users.{User, UserRepository}
use mesh_vpn.Base.{
  Bool, List, Option, [], false, if◌then◌else◌, ltb, none, some, ℕ, ◌&&◌, ◌++◌, ◌==◌, ◌||◌, ◌∷◌,
}
use mesh_vpn.Service.Deployments.{equal_fold}
use mesh_vpn.Http.Auth.Keys.{Codec, Key, KeyCache, Network, fetch_supabase_public_key, secret_key}

pub record Claims : Type 0 where
  pub sub : Text
  pub email : Text
  pub provider : Text
  pub app_provider : Text
  pub app_providers : List Text
  -- `UserMeta["provider"]`, where it is a string
  pub meta_provider : Option Text
  pub expires_at : Option ℕ

pub data Method : Type 0 where
  hmac ecdsa other_method : Method

-- `method` is none for a token that cannot be parsed. `check` has the claims of a token that is valid
-- under a key at a time.
pub record Jwt : Type 0 where
  pub method : Text → Option Method
  pub check : ℕ → Text → Key → Option Claims

pub record Middleware : Type 0 where
  pub supabase_url : Text
  pub supabase_anon_key : Text
  pub jwt_secret : Text
  pub require_auth : Bool

-- What the middleware reads of a request.
pub record AuthRequest : Type 0 where
  pub method : Text
  pub path : Text
  pub authorization : Text
  pub token : Text

pub record Identity : Type 0 where
  pub sub : Text
  pub email : Text
  pub provider : Text

-- The handler runs without a sign-in, or with one and the user that was loaded; or the request ends.
pub data Decision : Type 0 where
  unchecked : Decision
  signed_in : Identity → Option User → Decision
  aborted : ℕ → Text → Decision

abbrev pub unauthorized : Text → Decision
unauthorized text = aborted 401 text

-- `strings.HasSuffix`
abbrev has_suffix : Text → Text → Bool
has_suffix suffix s = has_prefix (reverse suffix) (reverse s)

unfoldable pub is_stream_path : Text → Bool
unfolding has_prefix
is_stream_path path =
    has_suffix (codes "/analytics/stream") path
    || has_suffix (codes "/build-logs/stream") path
    || has_suffix (codes "/app-logs/stream") path

abbrev bearer_or_empty : Text → Text
bearer_or_empty token = if is_empty token then [] else codes "Bearer " ++ token

-- The header, or for a GET of a stream without one the query.
unfoldable pub authorization_of : AuthRequest → Text
unfolding trim_space is_stream_path text_eq
authorization_of req =
    if is_empty (trim_space req.authorization)
    then if text_eq req.method (codes "GET") && is_stream_path req.path
      then bearer_or_empty (trim_space req.token)
      else []
    else trim_space req.authorization

-- `strings.SplitN(s, " ", 2)`: what stands before and behind the first space, if there is one.
abbrev in_front : ℕ → Option (Text × Text) → Option (Text × Text)
in_front c none = none
in_front c (some (before, behind)) = some (c ∷ before, behind)

unfoldable pub cut_at_space : Text → Option (Text × Text)
cut_at_space [] = none
cut_at_space (c ∷ s) =
    let rest = cut_at_space s in if c == 0x20 then some ([], s) else in_front c rest

-- The token of an authorization whose scheme is Bearer.
abbrev token_behind : Option (Text × Text) → Option Text
token_behind none = none
token_behind (some (scheme, rest)) =
    if equal_fold scheme (codes "Bearer") then some (trim_space rest) else none

unfoldable pub bearer_token : Text → Option Text
unfolding cut_at_space equal_fold trim_space
bearer_token authz = token_behind (cut_at_space authz)

abbrev pub canonical : Text → Text
canonical t = to_lower (trim_space t)

abbrev pub or_else : Text → Text → Text
or_else t u = if is_empty t then u else t

abbrev first_or_empty : List Text → Text
first_or_empty [] = []
first_or_empty (t ∷ ts) = t

abbrev text_or_empty : Option Text → Text
text_or_empty none = []
text_or_empty (some t) = t

-- The places at which a provider may stand, in order; email where none has one.
unfoldable pub provider_of : Claims → Text
unfolding to_lower trim_space
provider_of given = or_else (canonical given.provider) (
    or_else (canonical given.app_provider) (
      or_else (canonical (first_or_empty given.app_providers))
        (or_else (canonical (text_or_empty given.meta_provider)) (codes "email"))))

abbrev pub is_allowed : Text → Bool
is_allowed provider = text_eq provider (codes "github") || text_eq provider (codes "email")

-- `ExpiresAt.Time.Before(now)`
abbrev pub is_expired : ℕ → Option ℕ → Bool
is_expired now none = false
is_expired now (some t) = ltb t now

abbrev pub identity_of : Claims → Identity
identity_of given = record { sub = given.sub; email = given.email; provider = provider_of given }

abbrev pub first_login : Identity → User
first_login who = record {
  user_id = who.sub;
  email = who.email;
  provider = who.provider;
  is_subscriber = false;
  subscription_tier = [];
  created_at = 0;
  updated_at = 0;
}

module _ {S : Type 0} (users : Option (UserRepository S)) (now : ℕ) where
  abbrev after_upsert : Identity → Result (Unit {0}) → Decision
  after_upsert who (err e) = aborted 500 (codes "failed to initialize user")
  after_upsert who (ok _) = signed_in who (some (first_login who))

  -- Whatever error `GetByID` returns, the user is taken for a new one.
  abbrev after_get : UserRepository S → Identity → Result User → Program S Decision
  after_get repo who (ok user) s = (signed_in who (some user), s)
  after_get repo who (err e) s =
      let (r, s') = repo.upsert now (first_login who) s in (after_upsert who r, s')

  unfoldable pub load_from : Identity → Option (UserRepository S) → Program S Decision
  load_from who none s = (signed_in who none, s)
  load_from who (some repo) s = let (r, s') = repo.get_by_id who.sub s in after_get repo who r s'

  unfoldable pub load_user : Identity → Program S Decision
  unfolding load_from
  load_user who = load_from who users

  -- From the claims of a valid token on.
  unfoldable pub admit : Claims → Program S Decision
  unfolding provider_of text_eq load_user
  admit given s =
      if is_expired now given.expires_at
      then (unauthorized (codes "token expired"), s)
      else if is_allowed (provider_of given)
      then load_user (identity_of given) s
      else (aborted 403 (codes "unsupported authentication provider"), s)

  -- The state has the users and the cache of the public key.
  abbrev pub AuthState : Type 0
  AuthState = S × KeyCache

  module _ (cfg : Middleware) (jwt : Jwt) (codec : Codec) (network : Network) where
    -- The key for a method, as the function that is handed to the library finds it.
    unfoldable pub key_for : Method → Program KeyCache (Option Key)
    unfolding fetch_supabase_public_key secret_key
    key_for hmac cache = (some (secret_key codec cfg.jwt_secret), cache)
    key_for ecdsa cache =
        if is_empty cfg.supabase_url
        then (codec.parse_pem cfg.jwt_secret, cache)
        else fetch_supabase_public_key codec network now cfg.supabase_url cfg.supabase_anon_key
            cache
    key_for other_method cache = (none, cache)

    abbrev checked_by : Text → Option Key → Option Claims
    checked_by token none = none
    checked_by token (some key) = jwt.check now token key

    -- `jwt.ParseWithClaims`
    unfoldable pub parse_with_claims : Text → Program KeyCache (Option Claims)
    unfolding key_for
    parse_with_claims token cache = elim (jwt.method token) [
      | none ↦ (none, cache)
      | some method ↦ let (key, cache') = key_for method cache in (checked_by token key, cache')
    ]

    abbrev admit_parsed : Option Claims → Program S Decision
    admit_parsed none s = (unauthorized (codes "invalid token"), s)
    admit_parsed (some given) s = admit given s

    abbrev with_token : Option Text → Program AuthState Decision
    with_token none st = (unauthorized (codes "invalid authorization header"), st)
    with_token (some token) (s, cache) =
        if is_empty (trim_space cfg.jwt_secret)
        then (aborted 500 (codes "auth misconfigured"), (s, cache))
        else (let (given, cache') = parse_with_claims token cache in
            let (decision, s') = admit_parsed given s in (decision, (s', cache')))

    unfoldable pub require_supabase_auth : AuthRequest → Program AuthState Decision
    unfolding authorization_of bearer_token trim_space parse_with_claims admit
    require_supabase_auth req st =
        if cfg.require_auth
        then if is_empty (authorization_of req)
          then (unauthorized (codes "missing authorization header"), st)
          else with_token (bearer_token (authorization_of req)) st
        else (unchecked, st)
