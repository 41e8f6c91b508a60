-- ===== src/Forwarder/Hosts.antt =====
-- From a host to the name of a deployment: `normalizeHost`, `stripPort` and `extractSubdomain` of
-- tools/traffic-forwarder/main.go, with `net.SplitHostPort` as they call it. Whether `net.ParseIP` takes a
-- text for an address is a parameter.
pub mod Names
use mathlib.Core.List.{reverse}
use mesh_vpn.Text.{
  Text, codes, contains_char, drop_prefix, has_prefix, is_empty, text_eq, to_lower, trim_space,
  trim_suffix,
}
use mesh_vpn.Base.{Bool, Option, [], if◌then◌else◌, none, not, some, ℕ, ◌&&◌, ◌==◌, ◌||◌, ◌∷◌}

-- What stands before and behind the first code point of a kind.
abbrev in_front : ℕ → Option (Text × Text) → Option (Text × Text)
in_front c none = none
in_front c (some (before, behind)) = some (c ∷ before, behind)

unfoldable pub cut_first : ℕ → Text → Option (Text × Text)
cut_first sep [] = none
cut_first sep (c ∷ s) =
    let rest = cut_first sep s in if c == sep then some ([], s) else in_front c rest

-- The same for the last one.
abbrev turned : Option (Text × Text) → Option (Text × Text)
turned none = none
turned (some (behind, before)) = some (reverse before, reverse behind)

unfoldable pub cut_last : ℕ → Text → Option (Text × Text)
unfolding cut_first
cut_last sep s = turned (cut_first sep (reverse s))

abbrev has_bracket : Text → Bool
has_bracket s = contains_char b'[' s || contains_char b']' s

-- A host without brackets, before the last colon.
abbrev plain_host : Option (Text × Text) → Option Text
plain_host none = none
plain_host (some (host, port)) =
    if contains_char b':' host || has_bracket host || has_bracket port then none else some host

-- Behind an opening bracket: up to the first closing one, with one colon behind it.
abbrev port_behind : Text → Text → Option Text
port_behind host [] = none
port_behind host (c ∷ port) =
    if c == b':'
      && not (contains_char b':' port)
      && not (contains_char b'[' host)
      && not (has_bracket port)
    then some host
    else none

abbrev bracketed_host : Option (Text × Text) → Option Text
bracketed_host none = none
bracketed_host (some (host, rest)) = port_behind host rest

-- The host of `net.SplitHostPort`, where it returns no error.
unfoldable pub split_host_port : Text → Option Text
unfolding cut_last cut_first contains_char
split_host_port [] = none
split_host_port (c ∷ s) =
    if c == b'[' then bracketed_host (cut_first b']' s) else plain_host (cut_last b':' (c ∷ s))

-- `host[1:end]`, where the bracket is closed behind at least one byte.
abbrev unbracketed : Text → Option (Text × Text) → Option Text
unbracketed s none = none
unbracketed s (some ([], rest)) = none
unbracketed s (some (c ∷ host, rest)) = some (c ∷ host)

abbrev in_brackets : Text → Option Text
in_brackets [] = none
in_brackets (c ∷ s) = if c == b'[' then unbracketed s (cut_first b']' s) else none

-- What stands before the only colon, unless it is nothing.
abbrev before_colon : Option (Text × Text) → Option Text
before_colon none = none
before_colon (some ([], rest)) = none
before_colon (some (c ∷ host, rest)) = if contains_char b':' rest then none else some (c ∷ host)

abbrev or_host : Option Text → Text → Text
or_host none host = host
or_host (some found) host = found

unfoldable pub strip_port : Text → Text
unfolding split_host_port cut_first contains_char
strip_port host =
    or_host (split_host_port host)
      (or_host (in_brackets host) (or_host (before_colon (cut_first b':' host)) host))

unfoldable pub normalize_host : Text → Text → Text
unfolding trim_space text_eq strip_port to_lower
normalize_host request_host request_addr =
    let host = trim_space request_host in
    to_lower (
      trim_space (
        strip_port
          (if is_empty host || text_eq host (codes "-") then trim_space request_addr else host)))

abbrev pub is_reserved : Text → Bool
is_reserved name =
    text_eq name (codes "www")
    || text_eq name (codes "api")
    || text_eq name (codes "control-plane")
    || text_eq name (codes "self")

abbrev name_or_empty : Text → Text
name_or_empty name = if contains_char b'.' name || is_reserved name then [] else name

abbrev pub has_suffix : Text → Text → Bool
has_suffix suffix s = has_prefix (reverse suffix) (reverse s)

-- The base domain, without a dot in front.
unfoldable pub base_of : Text → Text
unfolding drop_prefix to_lower trim_space
base_of app_base_domain = drop_prefix (codes ".") (to_lower (trim_space app_base_domain))

-- The empty text stands for a host of no deployment.
unfoldable pub extract_subdomain : (Text → Bool) → Text → Text → Text
unfolding base_of has_prefix trim_suffix contains_char text_eq
extract_subdomain is_ip host app_base_domain =
    if is_empty host || is_empty app_base_domain || is_ip host || is_empty (base_of app_base_domain)
    then []
    else if has_suffix (b'.' ∷ base_of app_base_domain) host
    then name_or_empty (trim_suffix (b'.' ∷ base_of app_base_domain) host)
    else []
