-- ===== src/Runtime/Names.antt =====
-- The names that control-plane/internal/runtime/deployer.go gives to images, containers and hosts.
pub mod Kept
use mesh_vpn.Service.Subdomains.{is_label_char}
use mesh_vpn.Text.{Text, codes, is_empty, text_eq, to_lower, trim_char, trim_space}
use mesh_vpn.Base.{Bool, [], false, if◌then◌else◌, true, ◌++◌, ◌∷◌}

abbrev default_base_domain : Text
default_base_domain = codes "localhost"

abbrev or_default : Text → Text
or_default domain = if is_empty domain then default_base_domain else domain

-- `raw` is the variable of the environment.
unfoldable pub base_domain : Text → Text
unfolding trim_space trim_char to_lower
base_domain raw = or_default (trim_char b'.' (to_lower (trim_space raw)))

-- `invalidSubdomainChars.ReplaceAllString(s, "-")`: one dash for each run of other characters.
unfoldable pub dash_runs : Bool → Text → Text
unfolding is_label_char
dash_runs in_run [] = []
dash_runs in_run (c ∷ s) =
    let outside = dash_runs false s in
    let inside = dash_runs true s in
    if is_label_char c then c ∷ outside else if in_run then inside else b'-' ∷ inside

abbrev pub or_app : Text → Text
or_app name = if is_empty name then codes "app" else name

unfoldable pub sanitize_subdomain : Text → Text
unfolding trim_space trim_char to_lower dash_runs
sanitize_subdomain subdomain =
    or_app (trim_char b'-' (dash_runs false (to_lower (trim_space subdomain))))

abbrev pub deployment_host : Text → Text → Text
deployment_host raw subdomain = subdomain ++ codes "." ++ base_domain raw

unfoldable pub deployment_url : Text → Text → Text
unfolding base_domain text_eq
deployment_url raw subdomain =
    if text_eq (base_domain raw) default_base_domain
    then codes "http://" ++ deployment_host raw subdomain
    else codes "https://" ++ deployment_host raw subdomain

abbrev pub image_name : Text → Text
image_name id = codes "laptopcloud-" ++ id

abbrev pub container_name : Text → Text
container_name id = codes "laptopcloud-" ++ id
