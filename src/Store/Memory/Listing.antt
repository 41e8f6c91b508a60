-- ===== src/Store/Memory/Listing.antt =====
-- What the in-memory store of deployments shows of the records that were written to it.
use mesh_vpn.Domain.{DeploymentRecord}
use mesh_vpn.Text.{Text, text_eq}
use mesh_vpn.Store.Memory.{Deployments, get, lookup, start, store, update, collect, list}
use mesh_vpn.Store.Errors.{ok}
use mesh_vpn.Base.{
  Bool, List, Option, Option-cases, [], ap, arith, false, if◌then◌else◌, inl, inr, none, refl, some,
  true, ◌||◌, ◌∙◌, ◌∷◌, ◌≡◌,
}
use mesh_vpn.Text.Laws.{text_eq_iff, text_eq_refl}

-- `records[id]` after `records[key] = rec`.
pub lookup-store :
    (id key : Text) (rec : DeploymentRecord) (records : List (Text × DeploymentRecord))
    → lookup id (store key rec records) ≡ (if text_eq key id then some rec else lookup id records)
unfolding lookup store
lookup-store id key rec [] = refl
lookup-store id key rec ((k, old) ∷ records) = ground (
  arith,
  text_eq_iff k key,
  text_eq_iff k id,
  text_eq_iff key id,
  lookup-store id key rec records,
)

-- A record that was written, by `Start` or by `Update`, is read back under its id, and no other id
-- reads differently.
pub get-write :
    (id : Text) (rec : DeploymentRecord) (s : Deployments)
    → ((get id (start rec s).1).0 ≡ (if text_eq rec.deployment_id id then ok rec else (get id s).0))
      × ((get id (update rec s).1).0
          ≡ (if text_eq rec.deployment_id id then ok rec else (get id s).0))
unfolding get start update
get-write id rec s = ground (arith, lookup-store id rec.deployment_id rec s.records)

-- The ids that have a record and the order agree: every id in the order has a record, every record
-- is in the order, and no id stands there twice.
abbrev pub is_listed : Text → List Text → Bool
is_listed id [] = false
is_listed id (x ∷ xs) = text_eq x id || is_listed id xs

abbrev pub AreDistinct : List Text → Type 0
AreDistinct [] = Unit
AreDistinct (x ∷ xs) = (is_listed x xs ≡ false) × AreDistinct xs

abbrev pub is_present : {A : Type 0} → Option A → Bool
is_present none = false
is_present (some a) = true

pub record IsConsistent (s : Deployments) : Type 0 where
  pub listed : (id : Text) → is_listed id s.order ≡ is_present (lookup id s.records)
  pub distinct : AreDistinct s.order

pub empty-IsConsistent : IsConsistent (record { records = []; order = [] })
unfolding lookup
empty-IsConsistent = record { listed = λ id. refl; distinct = tt }

-- `Start` keeps the order and the records of a consistent store in step.
pub start-IsConsistent :
    (rec : DeploymentRecord) (s : Deployments) → IsConsistent s → IsConsistent (start rec s).1
unfolding start
start-IsConsistent rec s v = elim (Option-cases (lookup rec.deployment_id s.records)) [
  | inl e ↦
      rw (e, start)
        (record {
          listed =
              λ id. ground (arith, v.listed id, lookup-store id rec.deployment_id rec s.records);
          distinct = (v.listed rec.deployment_id ∙ ap is_present e, v.distinct);
        })
  | inr (old, e) ↦
      rw (e, start)
        (record {
          listed = λ id. ground (
            arith,
            e,
            v.listed id,
            text_eq_iff rec.deployment_id id,
            lookup-store id rec.deployment_id rec s.records,
          );
          distinct = v.distinct;
        })
]

-- So does `Update` of a record that was started.
pub update-IsConsistent :
    (rec old : DeploymentRecord) (s : Deployments)
    → lookup rec.deployment_id s.records ≡ some old
    → IsConsistent s
    → IsConsistent (update rec s).1
unfolding update
update-IsConsistent rec old s e v = record {
  listed = λ id. ground (
    arith,
    e,
    v.listed id,
    text_eq_iff rec.deployment_id id,
    lookup-store id rec.deployment_id rec s.records,
  );
  distinct = v.distinct;
}

collect-store :
    (test : DeploymentRecord → Bool) (key : Text) (rec : DeploymentRecord)
    (records : List (Text × DeploymentRecord)) (ids : List Text)
    → is_listed key ids ≡ false
    → collect test (store key rec records) ids ≡ collect test records ids
unfolding collect
collect-store test key rec records [] h = refl
collect-store test key rec records (id ∷ ids) h = ground (
  arith,
  text_eq_iff key id,
  text_eq_iff id key,
  lookup-store id key rec records,
  collect-store test key rec records ids,
)

-- In a consistent store, a record with a new id is listed first, before all that were listed.
pub list-start :
    (rec : DeploymentRecord) (s : Deployments)
    → IsConsistent s
    → lookup rec.deployment_id s.records ≡ none
    → (list (start rec s).1).0 ≡ rec ∷ (list s).0
unfolding list start
list-start rec s v e =
    rw (e, start)
      (ground (
        arith,
        lookup-store rec.deployment_id rec.deployment_id rec s.records,
        text_eq_refl rec.deployment_id,
        collect-store (λ (r : DeploymentRecord). true) rec.deployment_id rec s.records s.order
            (v.listed rec.deployment_id ∙ ap is_present e),
      ))
