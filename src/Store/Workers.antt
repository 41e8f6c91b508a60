-- ===== src/Store/Workers.antt =====
-- The table `workers` and the statements of control-plane/internal/store/workers.go on it. `now` is the
-- time of the statement. `worker_id` is the primary key; the integer columns are NULL in no row.
pub mod Lookup
pub mod Slots
use mesh_vpn.Domain.{Worker, busy, idle, offline}
use mesh_vpn.Text.{Text, text_eq}
use mesh_vpn.Store.Errors.{Exec, err, no_available_workers, no_rows, ok, worker_not_found}
use mesh_vpn.Base.{
  Bool, List, [], first, if◌then◌else◌, keep, ltb, none, some, ℕ, ◌&&◌, ◌++◌, ◌||◌, ◌∷◌, set_first,
}
use mesh_vpn.Base.Int.{eq_ℤ, le_ℤ, lt_ℤ, pos, pos_part, ℤ, ◌+ℤ◌, ◌-ℤ◌}
use mesh_vpn.Base.Sorting.{sort_by}

abbrev pub Workers : Type 0
Workers = List Worker

-- `WHERE worker_id = $1`
abbrev pub has_worker_id : Text → Worker → Bool
has_worker_id id w = text_eq w.worker_id id

-- `UPDATE workers SET ... WHERE worker_id = $1`, and the error for no affected row
unfoldable pub update_worker : Text → (Worker → Worker) → Exec Workers (Unit {0})
unfolding first set_first
update_worker id write ws = elim (first (has_worker_id id) ws) [
  | none ↦ (err (worker_not_found id), ws)
  | some w ↦ (ok tt, set_first (has_worker_id id) write ws)
]

-- The columns that `ON CONFLICT (worker_id) DO UPDATE` sets.
abbrev pub overwrite : ℕ → Worker → Worker → Worker
overwrite now new old = record new {
  worker_id = old.worker_id;
  last_heartbeat = some now;
  created_at = old.created_at;
  updated_at = now;
}

unfoldable pub register : ℕ → Worker → Exec Workers (Unit {0})
unfolding first set_first
register now w ws = elim (first (has_worker_id w.worker_id) ws) [
  | none ↦
      (ok tt, ws ++ record w { last_heartbeat = some now; created_at = now; updated_at = now } ∷ [])
  | some old ↦ (ok tt, set_first (has_worker_id w.worker_id) (overwrite now w) ws)
]

abbrev pub set_columns : ℕ → Worker → Worker → Worker
set_columns now new old = record new {
  worker_id = old.worker_id;
  last_heartbeat = old.last_heartbeat;
  created_at = old.created_at;
  updated_at = now;
}

-- No error where no row has the id.
unfoldable pub update : ℕ → Worker → Exec Workers (Unit {0})
unfolding update_worker
update now w ws = (ok tt, (update_worker w.worker_id (set_columns now w) ws).1)

unfoldable pub get : Text → Exec Workers Worker
unfolding first
get id ws = elim (first (has_worker_id id) ws) [ none ↦ (err no_rows, ws) | some w ↦ (ok w, ws) ]

-- `ORDER BY created_at DESC`
abbrev pub newer : Worker → Worker → Bool
newer v w = ltb w.created_at v.created_at

unfoldable pub list : Exec Workers (List Worker)
unfolding sort_by
list ws = (ok (sort_by newer ws), ws)

-- `ORDER BY current_jobs ASC, created_at ASC`
abbrev pub less_loaded : Worker → Worker → Bool
less_loaded v w =
    lt_ℤ v.current_jobs w.current_jobs
    || eq_ℤ v.current_jobs w.current_jobs && ltb v.created_at w.created_at

unfoldable pub list_by_status : Text → Exec Workers (List Worker)
unfolding sort_by keep
list_by_status status ws = (ok (sort_by less_loaded (keep (λ w. text_eq w.status status) ws)), ws)

unfoldable pub update_heartbeat : ℕ → Text → Exec Workers (Unit {0})
unfolding update_worker
update_heartbeat now id =
    update_worker id (λ w. record w { last_heartbeat = some now; updated_at = now })

abbrev pub increment : ℕ → Worker → Worker
increment now w = record w {
  current_jobs = w.current_jobs +ℤ pos 1;
  status = if le_ℤ w.max_concurrent_jobs (w.current_jobs +ℤ pos 1) then busy else w.status;
  updated_at = now;
}

unfoldable pub increment_job_count : ℕ → Text → Exec Workers (Unit {0})
unfolding update_worker
increment_job_count now id = update_worker id (increment now)

-- `GREATEST(n, 0)`
abbrev pub at_least_zero : ℤ → ℤ
at_least_zero n = pos (pos_part n)

abbrev pub decrement : ℕ → Worker → Worker
decrement now w = record w {
  current_jobs = at_least_zero (w.current_jobs -ℤ pos 1);
  status =
      if lt_ℤ (w.current_jobs -ℤ pos 1) w.max_concurrent_jobs && text_eq w.status busy
      then idle
      else w.status;
  updated_at = now;
}

unfoldable pub decrement_job_count : ℕ → Text → Exec Workers (Unit {0})
unfolding update_worker
decrement_job_count now id = update_worker id (decrement now)

abbrev pub set_offline : ℕ → Worker → Worker
set_offline now w = record w { status = offline; updated_at = now }

unfoldable pub mark_offline : ℕ → Text → Exec Workers (Unit {0})
unfolding update_worker
mark_offline now id = update_worker id (set_offline now)

abbrev pub is_available : Worker → Bool
is_available w = text_eq w.status idle && lt_ℤ w.current_jobs w.max_concurrent_jobs

unfoldable pub get_available_worker : Exec Workers Worker
unfolding sort_by keep
get_available_worker ws = elim (sort_by less_loaded (keep is_available ws)) [
  | [] ↦ (err no_available_workers, ws)
  | w ∷ others ↦ (ok w, ws)
]
