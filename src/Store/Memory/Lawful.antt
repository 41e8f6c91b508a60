-- ===== src/Store/Memory/Lawful.antt =====
-- The in-memory stores satisfy what the services rely on.
use mesh_vpn.Store.Memory
use mesh_vpn.Store.Jobs
use mesh_vpn.Domain.{DeploymentRecord}
use mesh_vpn.Text.{Text}
use mesh_vpn.Store.Memory.{collect, lookup, Memory}
use mesh_vpn.Store.Memory.Listing.{is_listed, AreDistinct, IsConsistent, lookup-store}
use mesh_vpn.Store.Repositories.Laws.{find_record, DeploymentLaws, HasDistinctIds, found_or_not}
use mesh_vpn.Base.{
  List, Option-cases, [], arith, if◌then◌else◌, inl, inr, none, refl, some, true, ◌∷◌, ◌≡◌, ◌∙◌,
}
use mesh_vpn.Text.Laws.{text_eq_iff}
use mesh_vpn.Store.Jobs.{Jobs}

-- Every record stands under its own id.
abbrev pub IsKeyed : List (Text × DeploymentRecord) → Type 0
IsKeyed [] = Unit
IsKeyed ((key, rec) ∷ records) = (rec.deployment_id ≡ key) × IsKeyed records

pub lookup-IsKeyed :
    (id : Text) (rec : DeploymentRecord) (records : List (Text × DeploymentRecord))
    → IsKeyed records
    → lookup id records ≡ some rec
    → rec.deployment_id ≡ id
unfolding lookup
lookup-IsKeyed id rec [] k h = ground arith
lookup-IsKeyed id rec ((key, old) ∷ records) k h =
    ground (arith, text_eq_iff key id, lookup-IsKeyed id rec records k.1)

-- The listing of some ids finds what is stored under them.
pub find_record-collect :
    (id : Text) (records : List (Text × DeploymentRecord)) (ids : List Text)
    → IsKeyed records
    → find_record id (collect (λ r. true) records ids)
      ≡ (if is_listed id ids then lookup id records else none)
unfolding find_record collect
find_record-collect id records [] k = refl
find_record-collect id records (x ∷ xs) k = elim (Option-cases (lookup x records)) [
  | inl e ↦ ground (arith, e, text_eq_iff x id, find_record-collect id records xs k)
  | inr (rec, e) ↦ ground (
    arith,
    e,
    text_eq_iff x id,
    text_eq_iff rec.deployment_id id,
    lookup-IsKeyed x rec records k e,
    find_record-collect id records xs k,
  )
]

pub collect-HasDistinctIds :
    (records : List (Text × DeploymentRecord)) (ids : List Text)
    → IsKeyed records
    → AreDistinct ids
    → HasDistinctIds (collect (λ r. true) records ids)
unfolding collect
collect-HasDistinctIds records [] k d = tt
collect-HasDistinctIds records (x ∷ xs) k d = elim (Option-cases (lookup x records)) [
  | inl e ↦ rw (e, collect) (collect-HasDistinctIds records xs k d.1)
  | inr (rec, e) ↦
      rw (e, collect)
        (
          ground (
            arith,
            lookup-IsKeyed x rec records k e,
            find_record-collect rec.deployment_id records xs k,
            d.0,
          ),
          collect-HasDistinctIds records xs k d.1,
        )
]

pub find_record-list :
    (id : Text) (s : Memory)
    → IsConsistent s.deployments
    → IsKeyed s.deployments.records
    → find_record id (collect (λ r. true) s.deployments.records s.deployments.order)
      ≡ lookup id s.deployments.records
find_record-list id s v k =
    find_record-collect id s.deployments.records s.deployments.order k ∙ ground (arith, v.listed id)

pub get-found_or_not :
    (id : Text) (s : Memory)
    → Memory.deployment_repository.get id s ≡ (found_or_not (lookup id s.deployments.records), s)
unfolding Memory.get
get-found_or_not id s = elim (Option-cases (lookup id s.deployments.records)) [
  | inl e ↦ rw (e, Memory.get) refl
  | inr (rec, e) ↦ rw (e, Memory.get) refl
]

-- The in-memory stores keep these laws.
unfoldable pub memory_laws : DeploymentLaws Memory.deployment_repository Memory.job_repository
unfolding Memory.update Memory.list Jobs.enqueue
memory_laws = record {
  IsValid = λ s. IsConsistent s.deployments × IsKeyed s.deployments.records;
  view = λ id s. lookup id s.deployments.records;
  view_update = λ id rec s. lookup-store id rec.deployment_id rec s.deployments.records;
  view_keyed = λ id rec s v e. lookup-IsKeyed id rec s.deployments.records v.1 e;
  get_view = λ id s. get-found_or_not id s;
  view_enqueue = λ id job s. refl;
  view_mark_done = λ id now job_id s. refl;
  view_mark_failed = λ id now job_id text s. refl;
  list_state = λ s. refl;
  list_view = λ id s v. find_record-list id s v.0 v.1;
  list_distinct =
      λ s v. collect-HasDistinctIds s.deployments.records s.deployments.order v.1 v.0.distinct;
}
