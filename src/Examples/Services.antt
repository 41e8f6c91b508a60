-- ===== src/Examples/Services.antt =====
-- The theorems on the services at concrete data.
use mesh_vpn.Store.Memory
use mesh_vpn.Text.{
  Text, codes, is_empty, is_space, lower, text_eq, to_lower, trim_both, trim_left, trim_space,
  replace_all, trim_char,
}
use mesh_vpn.Store.Memory.{Memory}
use mesh_vpn.Base.Int.{pos}
use mesh_vpn.Service.Requests.{DeployRequest, valid}
use mesh_vpn.Service.Placement.{select_worker}
use mesh_vpn.Service.Autoscaling.{
  check_cpu, check_cpu_target, check_replicas, fill_cpu_cores, fill_cpu_request, normalize,
  scaling_mode_of,
}
use mesh_vpn.Service.Deployments.Submission.{Outcome, enqueue_deploy-Outcome, submits}
use mesh_vpn.Service.Autoscaling.Bounds.{IsAccepted, normalize-IsScalable}
use mesh_vpn.Service.Placement.Eligible.{CanTake, OnWorker, select_worker-CanTake}
use mesh_vpn.Examples.Data.{
  a_job, a_request, fixed_workers, one_deployment, some_ids, some_settings, stranded, two_workers,
}
use mesh_vpn.Base.{[], arith, refl, ◌∷◌, ◌≡◌, keep, length, ◌++◌, ◌≤◌}
use mesh_vpn.Service.Subdomains.{
  clean_name, drop_dash, is_label_char, max_label, sanitize_subdomain, spell, generate_subdomain,
}
use mesh_vpn.Service.Subdomains.Labels.{
  AreLabelChars, NoLead, NoTrail, sanitize_subdomain-IsLabel, sanitize_subdomain_trailing_dash,
}
use mesh_vpn.Service.Subdomains.Fresh.{IsGenerated, generate_subdomain-IsGenerated}

abbrev empty_memory : Memory
empty_memory = record { deployments = record { records = []; order = [] }; jobs = [] }

enqueue_deploy-Outcome_example :
    Outcome some_ids empty_memory (submits some_ids 5 (a_request (codes "none")) empty_memory)
enqueue_deploy-Outcome_example =
    enqueue_deploy-Outcome some_ids 5 (a_request (codes "none")) empty_memory

-- What the horizontal mode makes of the request.
abbrev scaled_request : DeployRequest
scaled_request = record (a_request (codes "horizontal")) {
  min_replicas = pos 2;
  cpu_target = pos 65;
  cpu_request = pos 500;
}

scales : normalize (a_request (codes " Horizontal ")) ≡ valid scaled_request
unfolding normalize scaling_mode_of fill_cpu_request fill_cpu_cores check_replicas check_cpu_target
    check_cpu to_lower lower trim_space trim_both trim_left is_space is_empty text_eq
scales = refl

normalize-IsScalable_example : IsAccepted (a_request (codes " Horizontal ")) scaled_request
normalize-IsScalable_example =
    normalize-IsScalable (a_request (codes " Horizontal ")) scaled_request scales

select_worker-CanTake_example :
    OnWorker CanTake
      (select_worker (fixed_workers two_workers) some_settings (a_job (codes "j1") []) tt).0
select_worker-CanTake_example =
    select_worker-CanTake (fixed_workers two_workers) some_settings (a_job (codes "j1") []) tt

sanitize_subdomain-IsLabel_example :
    AreLabelChars (sanitize_subdomain (codes " My_App v2! "))
    × (length (sanitize_subdomain (codes " My_App v2! ")) ≤ max_label)
    × NoLead b'-' (sanitize_subdomain (codes " My_App v2! "))
    × (length (clean_name (codes " My_App v2! ")) ≤ max_label
        → NoTrail b'-' (sanitize_subdomain (codes " My_App v2! ")))
sanitize_subdomain-IsLabel_example = sanitize_subdomain-IsLabel (codes " My_App v2! ")

-- 62 letters, a dash and another letter.
abbrev sixty_two : Text
sixty_two = codes "abcdefghijklmnopqrstuvwxyzabcdefghijklmnopqrstuvwxyzabcdefghij"

abbrev long_name : Text
long_name = sixty_two ++ codes "-x"

cleans : clean_name long_name ≡ sixty_two ++ b'-' ∷ codes "x"
unfolding clean_name spell keep is_label_char trim_char trim_both trim_left drop_dash to_lower lower
    trim_space is_space replace_all
cleans = refl

long_name_ends_in_dash : ¬ NoTrail b'-' (sanitize_subdomain long_name)
long_name_ends_in_dash =
    sanitize_subdomain_trailing_dash long_name sixty_two (codes "x") cleans refl (omega arith)

-- The name of the repository is taken.
generate_subdomain-IsGenerated_example :
    IsGenerated
      (codes "abc123")
      (codes "git@github.com:user/My_App.git")
      []
      (stranded ∷ [])
      (generate_subdomain Memory.deployment_repository
        (codes "abc123")
        (codes "git@github.com:user/My_App.git")
        []
        (one_deployment stranded)).0
unfolding Memory.list text_eq
generate_subdomain-IsGenerated_example =
    generate_subdomain-IsGenerated Memory.deployment_repository (codes "abc123")
      (codes "git@github.com:user/My_App.git") [] (one_deployment stranded)
