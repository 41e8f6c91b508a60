-- ===== src/Store/Workers/Lookup.antt =====
-- What a read of a worker sees after a write to the table.
use mesh_vpn.Domain.{Worker}
use mesh_vpn.Text.{Text, text_eq}
use mesh_vpn.Store.Workers.{Workers, has_worker_id, update_worker}
use mesh_vpn.Base.{
  Option, Option-cases, [], arith, first, if◌then◌else◌, inl, inr, none, refl, set_first, some, ◌∙◌,
  ◌∷◌, ◌≡◌, ap, sym, ◌⊎◌, All, ◌≢◌, All-map,
}
use mesh_vpn.Text.Laws.{text_eq_iff, text_eq_refl}
use mesh_vpn.Store.Errors.{err, ok, worker_not_found}

abbrev pub find : Text → Workers → Option Worker
find id = first (has_worker_id id)

abbrev pub map_some : (Worker → Worker) → Option Worker → Option Worker
map_some f none = none
map_some f (some w) = some (f w)

-- A write that keeps the key.
abbrev pub KeepsId : (Worker → Worker) → Type 0
KeepsId write = (w : Worker) → (write w).worker_id ≡ w.worker_id

find-set_first :
    (id key : Text) (write : Worker → Worker) (ws : Workers)
    → KeepsId write
    → find id (set_first (has_worker_id key) write ws)
      ≡ (if text_eq key id then map_some write (find id ws) else find id ws)
unfolding first set_first
find-set_first id key write [] keeps = ground arith
find-set_first id key write (w ∷ ws) keeps = ground (
  arith,
  keeps w,
  text_eq_iff w.worker_id key,
  text_eq_iff w.worker_id id,
  text_eq_iff (write w).worker_id id,
  text_eq_iff key id,
  find-set_first id key write ws keeps,
)

set_first_absent :
    (key : Text) (write : Worker → Worker) (ws : Workers)
    → find key ws ≡ none
    → set_first (has_worker_id key) write ws ≡ ws
unfolding first set_first
set_first_absent key write [] h = refl
set_first_absent key write (w ∷ ws) h = ground (arith, set_first_absent key write ws)

-- A write that keeps the id of a worker is seen under its key, and nowhere else.
pub find-update_worker :
    (id key : Text) (write : Worker → Worker) (ws : Workers)
    → KeepsId write
    → find id (update_worker key write ws).1
      ≡ (if text_eq key id then map_some write (find id ws) else find id ws)
unfolding update_worker
find-update_worker id key write ws keeps = elim (Option-cases (find key ws)) [
  | inl e ↦
      rw (e, update_worker)
        (ap (find id) (sym (set_first_absent key write ws e))
          ∙ find-set_first id key write ws keeps)
  | inr (w, e) ↦ rw (e, update_worker) (find-set_first id key write ws keeps)
]

-- The write fails exactly where no worker has the id, and then changes nothing.
pub update_worker-cases :
    (key : Text) (write : Worker → Worker) (ws : Workers)
    → ((find key ws ≡ none) × (update_worker key write ws ≡ (err (worker_not_found key), ws)))
      ⊎ ((w : Worker) × (find key ws ≡ some w) × ((update_worker key write ws).0 ≡ ok tt))
unfolding update_worker
update_worker-cases key write ws = elim (Option-cases (find key ws)) [
  | inl e ↦ inl (e, rw (e, update_worker))
  | inr (w, e) ↦ inr (w, e, rw (e, update_worker))
]

-- A worker whose id the table has.
abbrev pub IsKnown : Workers → Worker → Type 0
IsKnown ws w = find w.worker_id ws ≢ none

-- The table has the ids of its workers.
pub All-IsKnown : (ws : Workers) → All (IsKnown ws) ws
unfolding first
All-IsKnown [] = tt
All-IsKnown (w ∷ ws) = (
  λ e. ground (arith, text_eq_refl w.worker_id),
  All-map (IsKnown ws) (IsKnown (w ∷ ws)) (λ v g e. g (ground arith)) ws (All-IsKnown ws),
)

-- What is found under an id has it.
pub find-worker_id :
    (id : Text) (w : Worker) (ws : Workers) → find id ws ≡ some w → w.worker_id ≡ id
unfolding first
find-worker_id id w [] h = ground arith
find-worker_id id w (v ∷ ws) h = ground (arith, text_eq_iff v.worker_id id, find-worker_id id w ws)

-- A write to a worker that is known succeeds.
pub update_worker-IsKnown :
    (w : Worker) (write : Worker → Worker) (ws : Workers)
    → IsKnown ws w
    → update_worker w.worker_id write ws ≡ (ok tt, set_first (has_worker_id w.worker_id) write ws)
unfolding update_worker
update_worker-IsKnown w write ws h = elim (Option-cases (find w.worker_id ws)) [
  | inl e ↦ absurd (h e)
  | inr (v, e) ↦ rw (e, update_worker) refl
]
