-- ===== src/Service/Subdomains.antt =====
-- Names of deployments and of variables in control-plane/internal/service/deployments.go. The short id
-- that a conflict adds comes from the library of UUIDs, and is an argument.
pub mod Labels
pub mod Fresh
use mesh_vpn.Domain.{DeploymentRecord, StringMap}
use mesh_vpn.Text.{
  Text, codes, contains_char, is_empty, last_part, replace_all, text_eq, to_lower, trim_char,
  trim_space, trim_suffix,
}
use mesh_vpn.Store.Repositories.{DeploymentRepository}
use mesh_vpn.Store.Errors.{◌>>=◌, Program, pure}
use mesh_vpn.Base.{
  Bool, List, [], false, if◌then◌else◌, keep, leb, length, ltb, not, take, true, ℕ, ◌&&◌, ◌++◌,
  ◌==◌, ◌||◌, ◌∷◌,
}
use mesh_vpn.Service.Requests.{
  Checked, invalid, invalid_env_name, invalid_subdomain, no_repo_subdomain, subdomain_in_use, valid,
}

unfoldable pub is_label_char : ℕ → Bool
is_label_char c = leb b'a' c && leb c b'z' || leb b'0' c && leb c b'9' || c == b'-'

-- `if len(subdomain) > 0 && subdomain[0] == '-' { subdomain = subdomain[1:] }`
unfoldable pub drop_dash : Text → Text
drop_dash [] = []
drop_dash (c ∷ s) = if c == b'-' then s else c ∷ s

abbrev pub max_label : ℕ
max_label = 63

-- In lower case, with dashes for underscores and spaces.
unfoldable pub spell : Text → Text
unfolding to_lower trim_space replace_all
spell name = replace_all b' ' b'-' (replace_all b'_' b'-' (to_lower (trim_space name)))

-- The name before it is cut to the length of a label.
unfoldable pub clean_name : Text → Text
clean_name name = drop_dash (trim_char b'-' (keep is_label_char (spell name)))

unfoldable pub sanitize_subdomain : Text → Text
sanitize_subdomain name =
    let subdomain = clean_name name in
    if ltb max_label (length subdomain) then take max_label subdomain else subdomain

unfoldable pub extract_repo_name : Text → Text
unfolding trim_space trim_suffix last_part contains_char
extract_repo_name repo_url =
    let name = last_part b'/' (trim_suffix (codes ".git") (trim_space repo_url)) in
    sanitize_subdomain (if contains_char b':' name then last_part b':' name else name)

-- The test of `isSubdomainUnique` on one record.
abbrev pub holds_name : Text → DeploymentRecord → Bool
holds_name subdomain rec =
    text_eq rec.subdomain subdomain && not (text_eq rec.status (codes "failed"))

unfoldable pub is_unique_in : Text → List DeploymentRecord → Bool
is_unique_in subdomain [] = true
is_unique_in subdomain (rec ∷ recs) =
    if holds_name subdomain rec then false else is_unique_in subdomain recs

module _ {S : Type 0} (repo : DeploymentRepository S) where
  -- `isSubdomainUnique`
  unfoldable pub is_subdomain_unique : Text → Program S Bool
  unfolding is_unique_in
  is_subdomain_unique subdomain = do recs ← repo.list; pure (is_unique_in subdomain recs)

  -- The name if it is unique, and else `taken`.
  unfoldable pub if_unique : Text → Checked Text → Program S (Checked Text)
  unfolding is_subdomain_unique
  if_unique subdomain taken = do
    unique ← is_subdomain_unique subdomain
    pure (if unique then valid subdomain else taken)

  unfoldable pub generate_subdomain : Text → Text → Text → Program S (Checked Text)
  unfolding sanitize_subdomain extract_repo_name if_unique
  generate_subdomain short_id repo_url user_provided =
      let wanted = trim_space user_provided in
      if not (is_empty wanted)
      then (let subdomain = sanitize_subdomain wanted in
          if is_empty subdomain
          then pure (invalid (invalid_subdomain wanted))
          else if_unique subdomain (invalid (subdomain_in_use subdomain)))
      else (let subdomain = extract_repo_name repo_url in
          if is_empty subdomain
          then pure (invalid no_repo_subdomain)
          else if_unique subdomain (valid (subdomain ++ b'-' ∷ short_id)))

-- `[A-Za-z_]` and `[A-Za-z0-9_]`, the classes of `envKeyPattern`
unfoldable pub is_key_start : ℕ → Bool
is_key_start c = leb b'A' c && leb c b'Z' || leb b'a' c && leb c b'z' || c == b'_'

unfoldable pub is_key_char : ℕ → Bool
unfolding is_key_start
is_key_char c = is_key_start c || leb b'0' c && leb c b'9'

unfoldable pub all_key_chars : Text → Bool
unfolding is_key_char
all_key_chars [] = true
all_key_chars (c ∷ s) = is_key_char c && all_key_chars s

-- `envKeyPattern.MatchString`
unfoldable pub is_env_key : Text → Bool
unfolding all_key_chars is_key_start
is_env_key [] = false
is_env_key (c ∷ s) = is_key_start c && all_key_chars s

-- `sanitized[key] = value`
unfoldable pub put_entry : Text → Text → StringMap → StringMap
put_entry key value [] = (key, value) ∷ []
put_entry key value ((k, v) ∷ m) =
    let rest = put_entry key value m in if text_eq k key then (key, value) ∷ m else (k, v) ∷ rest

sanitize_from : StringMap → StringMap → Checked StringMap
unfolding put_entry is_env_key trim_space
sanitize_from sanitized [] = valid sanitized
sanitize_from sanitized ((key, value) ∷ values) =
    let rest = sanitize_from (put_entry (trim_space key) value sanitized) values in
    if is_env_key (trim_space key) then rest else invalid (invalid_env_name key)

-- Go visits the entries of a map in any order; the model in that of the list.
unfoldable pub sanitize_env_map : StringMap → Checked StringMap
unfolding sanitize_from
sanitize_env_map values = sanitize_from [] values
