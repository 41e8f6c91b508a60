-- ===== src/Http/WorkerHandler/Reported.antt =====
-- A deployment that a worker's report in control-plane/internal/httpapi/workers.go is about, before and
-- after the report.
use mesh_vpn.Domain.{DeploymentRecord}
use mesh_vpn.Text.{codes, trim_space, Text, is_empty, text_eq}
use mesh_vpn.Store.Repositories.Laws.{map_record}
use mesh_vpn.Base.{
  IsRewritten, append_assoc, ◌++◌, ◌⊎◌, [], true, false, Bool, Bool-cases, if◌then◌else◌, inl, inr,
  not, refl, some, ◌&&◌, ◌==◌, ◌≡◌, none, Option, ℕ,
}
use mesh_vpn.Http.WorkerHandler.{
  completed_record, reported_failed, or_container, or_url, build_worker_deployment_url,
}
use mesh_vpn.Http.Replies.{Reply}

abbrev pub KeepsDeployment : (DeploymentRecord → DeploymentRecord) → Type 0
KeepsDeployment write = (rec : DeploymentRecord) → (write rec).deployment_id ≡ rec.deployment_id

-- A reply of success.
abbrev pub is_success : Reply → Bool
is_success reply = reply.code == 200

-- What a report makes of a deployment: who owns it and how its run ended, with the container and the URL
-- that it had, or those of its id and its subdomain; and everything else is as it was.
pub record IsReported (env worker dep status error section : Text) (finished : Option ℕ)
    (rec rec' : DeploymentRecord) : Type 0 where
  pub has_status : rec'.status ≡ status
  pub has_owner : rec'.owner_worker_id ≡ worker
  pub has_error : rec'.error ≡ error
  pub has_end : rec'.finished_at ≡ finished
  pub has_logs : rec'.build_logs ≡ rec.build_logs ++ section
  pub has_container :
      (rec'.container ≡ rec.container)
      ⊎ ((is_empty (trim_space rec.container) ≡ true) × (rec'.container ≡ codes "app-" ++ dep))
  pub has_url :
      (rec'.url ≡ rec.url)
      ⊎ ((is_empty (trim_space rec.url) ≡ true)
          × (rec'.url ≡ build_worker_deployment_url env rec.subdomain))
  pub as_before : rec' ≡ record rec {
    status = rec'.status;
    owner_worker_id = rec'.owner_worker_id;
    error = rec'.error;
    finished_at = rec'.finished_at;
    build_logs = rec'.build_logs;
    container = rec'.container;
    url = rec'.url;
  }

-- A record that is there is rewritten where it should be, and everything else stays.
abbrev pub IsRewrittenIf :
    Bool
    → (DeploymentRecord → DeploymentRecord → Type 0)
    → Option DeploymentRecord
    → Option DeploymentRecord
    → Type 0
IsRewrittenIf true P seen after = IsRewritten P seen after
IsRewrittenIf false P seen after = after ≡ seen

pub map_record-IsRewrittenIf :
    (b : Bool) (P : DeploymentRecord → DeploymentRecord → Type 0)
    (write : DeploymentRecord → DeploymentRecord) (seen after : Option DeploymentRecord)
    → ((rec : DeploymentRecord) → P rec (write rec))
    → after ≡ (if b then map_record write seen else seen)
    → IsRewrittenIf b P seen after
map_record-IsRewrittenIf false P write seen after h e = e
map_record-IsRewrittenIf true P write none after h e = e
map_record-IsRewrittenIf true P write (some rec) after h e = (write rec, e, h rec)

or_container-cases :
    (container dep : Text)
    → (or_container container dep ≡ container)
      ⊎ ((is_empty (trim_space container) ≡ true)
          × (or_container container dep ≡ codes "app-" ++ dep))
or_container-cases container dep = elim (Bool-cases (is_empty (trim_space container))) [
  | inl e ↦ inr (e, rw e refl)
  | inr e ↦ inl (rw e refl)
]

or_url-cases :
    (env : Text) (rec : DeploymentRecord)
    → (or_url env rec ≡ rec.url)
      ⊎ ((is_empty (trim_space rec.url) ≡ true)
          × (or_url env rec ≡ build_worker_deployment_url env rec.subdomain))
or_url-cases env rec = elim (Bool-cases (is_empty (trim_space rec.url))) [
  | inl e ↦ inr (e, rw e refl)
  | inr e ↦ inl (rw e refl)
]

abbrev pub IsCompleted : Text → Text → Text → DeploymentRecord → DeploymentRecord → Type 0
IsCompleted env worker dep =
    IsReported env worker dep (codes "running") []
      (codes "\n=== worker ===\nremote worker reported job complete\n") none

abbrev pub IsFailed : Text → ℕ → Text → Text → Text → DeploymentRecord → DeploymentRecord → Type 0
IsFailed env now worker dep e =
    IsReported env worker dep (codes "failed") e
      (codes "\n=== worker error ===\n" ++ e ++ codes "\n") (some now)

pub completed_record-IsCompleted :
    (env worker dep : Text) (rec : DeploymentRecord)
    → IsCompleted env worker dep rec (completed_record env worker dep rec)
unfolding completed_record
completed_record-IsCompleted env worker dep rec = record {
  has_status = refl;
  has_owner = refl;
  has_error = refl;
  has_end = refl;
  has_logs = refl;
  has_container = or_container-cases rec.container dep;
  has_url = or_url-cases env rec;
  as_before = refl;
}

pub reported_failed-IsFailed :
    (env : Text) (now : ℕ) (worker dep e : Text) (rec : DeploymentRecord)
    → IsFailed env now worker dep e rec (reported_failed env now worker dep e rec)
unfolding reported_failed
reported_failed-IsFailed env now worker dep e rec = record {
  has_status = refl;
  has_owner = refl;
  has_error = refl;
  has_end = refl;
  has_logs = simp append_assoc;
  has_container = or_container-cases rec.container dep;
  has_url = or_url-cases env rec;
  as_before = refl;
}

-- A reply of success that is about a deployment.
abbrev pub is_about : Text → Text → Reply → Bool
is_about id dep reply = is_success reply && (not (is_empty dep) && text_eq dep id)

-- A write behind a reply of success, and none behind another.
abbrev pub after_reply :
    Text
    → Text
    → (DeploymentRecord → DeploymentRecord)
    → Option DeploymentRecord
    → Reply
    → Option DeploymentRecord
after_reply id dep write seen reply =
    if is_success reply && (not (is_empty dep) && text_eq dep id)
    then map_record write seen
    else seen
