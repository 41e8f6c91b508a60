-- ===== src/Http/Auth/Keys.antt =====
-- The public key of control-plane/internal/auth/middleware.go and its cache: `fetchSupabasePublicKey`. What
-- the network answers at a time is a parameter, and what base64, PEM and curves make of a text.
use mesh_vpn.Store.Errors.{Program}
use mesh_vpn.Text.{Text, codes, is_empty, text_eq, trim_suffix}
use mesh_vpn.Base.{List, Option, if◌then◌else◌, ltb, none, some, ℕ, ◌&&◌, ◌++◌, ◌-◌, ◌==◌, ◌∷◌}

-- A key is a secret as bytes, or a point of the curve P-256 by its coordinates as bytes.
pub data Key : Type 0 where
  secret : List ℕ → Key
  public : List ℕ → List ℕ → Key

-- The fields of a key that are read.
pub record JwksKey : Type 0 where
  pub kty : Text
  pub crv : Text
  pub x : Text
  pub y : Text

-- The answer of the endpoint: none, or a status with the keys, if its body parses.
pub data JwksAnswer : Type 0 where
  unreachable : JwksAnswer
  answered : ℕ → Option (List JwksKey) → JwksAnswer

-- The answer to a request at a time, for its URL and the value of its header `apikey`, if it has one.
abbrev pub Network : Type 0
Network = ℕ → Text → Option Text → JwksAnswer

pub record Codec : Type 0 where
  pub decode_base64 : Text → Option (List ℕ)
  pub decode_raw_url : Text → Option (List ℕ)
  pub parse_pem : Text → Option Key
  -- the bytes of a string
  pub bytes : Text → List ℕ

-- The key and the time at which it was stored.
abbrev pub KeyCache : Type 0
KeyCache = Option (Key × ℕ)

-- One hour, in seconds
abbrev pub key_lifetime : ℕ
key_lifetime = 3600

abbrev pub fresh_key : ℕ → KeyCache → Option Key
fresh_key now none = none
fresh_key now (some (key, stored)) = if ltb (now - stored) key_lifetime then some key else none

-- The secret is base64, or where it is not its own bytes.
unfoldable pub secret_key : Codec → Text → Key
secret_key codec text = elim (codec.decode_base64 text) [
  | none ↦ secret (codec.bytes text)
  | some bytes ↦ secret bytes
]

module _ (codec : Codec) where
  abbrev of_coordinates : Option (List ℕ) → Option (List ℕ) → Option Key
  of_coordinates (some x) (some y) = some (public x y)
  of_coordinates _ _ = none

  unfoldable pub key_of : JwksKey → Option Key
  unfolding text_eq
  key_of key =
      if text_eq key.kty (codes "EC") && text_eq key.crv (codes "P-256")
      then of_coordinates (codec.decode_raw_url key.x) (codec.decode_raw_url key.y)
      else none

  -- The first key is used, and no other.
  abbrev key_in : Option (List JwksKey) → Option Key
  key_in (some (key ∷ keys)) = key_of key
  key_in _ = none

  unfoldable pub key_answered : JwksAnswer → Option Key
  unfolding key_of
  key_answered unreachable = none
  key_answered (answered status keys) = if status == 200 then key_in keys else none

  abbrev pub stored_at : ℕ → KeyCache → Option Key → Option Key × KeyCache
  stored_at now cache none = (none, cache)
  stored_at now cache (some key) = (some key, some (key, now))

  abbrev pub jwks_url : Text → Text
  jwks_url url = trim_suffix (codes "/") url ++ codes "/auth/v1/.well-known/jwks.json"

  abbrev pub api_key : Text → Option Text
  api_key anon_key = if is_empty anon_key then none else some anon_key

  unfoldable pub fetch_supabase_public_key :
      Network → ℕ → Text → Text → Program KeyCache (Option Key)
  unfolding key_answered trim_suffix
  fetch_supabase_public_key network now url anon_key cache = elim (fresh_key now cache) [
    | some key ↦ (some key, cache)
    | none ↦ stored_at now cache (key_answered (network now (jwks_url url) (api_key anon_key)))
  ]
