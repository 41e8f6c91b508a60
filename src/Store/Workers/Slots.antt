-- ===== src/Store/Workers/Slots.antt =====
-- The job counts and the states of workers.
use mesh_vpn.Domain.{Worker, busy, idle}
use mesh_vpn.Text.{Text}
use mesh_vpn.Store.Workers.{
  decrement, increment, Workers, decrement_job_count, has_worker_id, update, set_columns,
  increment_job_count, mark_offline, overwrite, register, set_offline, update_heartbeat,
  update_worker,
}
use mesh_vpn.Base.Int.{pos, ◌<ℤ◌, ◌≤ℤ◌, +ℤ_parts, -ℤ_parts}
use mesh_vpn.Base.{
  arith, ℕ, ◌≡◌, All, All-append, List, Option-cases, [], first, inl, inr, set_first-All, some, ◌∷◌,
}
use mesh_vpn.Text.Laws.{text_eq_iff}

-- A worker with a positive limit holds no negative number of jobs, and has room for one more when it
-- is listed as idle.
pub record IsSound (w : Worker) : Type 0 where
  pub can_work : pos 0 <ℤ w.max_concurrent_jobs
  pub holds : pos 0 ≤ℤ w.current_jobs
  pub idle_has_room : w.status ≡ idle → w.current_jobs <ℤ w.max_concurrent_jobs

-- The calls that write to the table.
pub data Change : Type 0 where
  registers updates : Worker → Change
  beats increments decrements goes_offline : Text → Change

pub change : ℕ → Change → Workers → Workers
change now (registers w) ws = (register now w ws).1
change now (updates w) ws = (update now w ws).1
change now (beats id) ws = (update_heartbeat now id ws).1
change now (increments id) ws = (increment_job_count now id ws).1
change now (decrements id) ws = (decrement_job_count now id ws).1
change now (goes_offline id) ws = (mark_offline now id ws).1

pub changes : Workers → List (ℕ × Change) → Workers
changes ws [] = ws
changes ws ((now, c) ∷ cs) = changes (change now c ws) cs

-- What a worker is registered with, and what it is set to, is sound.
abbrev pub IsSoundChange : Change → Type 0
IsSoundChange (registers w) = IsSound w
IsSoundChange (updates w) = IsSound w
IsSoundChange _ = Unit

abbrev pub AreSoundChanges : List (ℕ × Change) → Type 0
AreSoundChanges = All (λ (now, c). IsSoundChange c)

increment-IsSound : (now : ℕ) (w : Worker) → IsSound w → IsSound (increment now w)
increment-IsSound now w v = record {
  can_work = v.can_work;
  holds = omega (arith, v.holds, +ℤ_parts w.current_jobs (pos 1));
  idle_has_room = λ e. ground (arith, +ℤ_parts w.current_jobs (pos 1));
}

decrement-IsSound : (now : ℕ) (w : Worker) → IsSound w → IsSound (decrement now w)
decrement-IsSound now w v = record {
  can_work = v.can_work;
  holds = omega arith;
  idle_has_room = λ e.
      ground (
        arith,
        -ℤ_parts w.current_jobs (pos 1),
        v.holds,
        v.idle_has_room,
        text_eq_iff w.status busy,
      );
}

offline-IsSound : (now : ℕ) (w : Worker) → IsSound w → IsSound (set_offline now w)
offline-IsSound now w v = record {
  can_work = v.can_work;
  holds = v.holds;
  idle_has_room = λ e. ground arith;
}

beat-IsSound :
    (now : ℕ) (w : Worker)
    → IsSound w
    → IsSound (record w { last_heartbeat = some now; updated_at = now })
beat-IsSound now w v = record {
  can_work = v.can_work;
  holds = v.holds;
  idle_has_room = v.idle_has_room;
}

set_columns-IsSound : (now : ℕ) (w old : Worker) → IsSound w → IsSound (set_columns now w old)
set_columns-IsSound now w old v = record {
  can_work = v.can_work;
  holds = v.holds;
  idle_has_room = v.idle_has_room;
}

update_worker-IsSound :
    (id : Text) (write : Worker → Worker) (ws : Workers)
    → ((w : Worker) → IsSound w → IsSound (write w))
    → All IsSound ws
    → All IsSound (update_worker id write ws).1
unfolding update_worker
update_worker-IsSound id write ws keeps h = elim (Option-cases (first (has_worker_id id) ws)) [
  | inl e ↦ rw (e, update_worker) h
  | inr (w, e) ↦ rw (e, update_worker) (set_first-All IsSound (has_worker_id id) write ws keeps h)
]

register-IsSound :
    (now : ℕ) (w : Worker) (ws : Workers)
    → IsSound w
    → All IsSound ws
    → All IsSound (register now w ws).1
unfolding register
register-IsSound now w ws v h = elim (Option-cases (first (has_worker_id w.worker_id) ws)) [
  | inl e ↦ rw (e, register) (All-append IsSound ws _ h (sound_new, tt))
  | inr (old, e) ↦
      rw (e, register)
        (set_first-All IsSound (has_worker_id w.worker_id) (overwrite now w) ws
          (λ old _. sound_over old) h)
]
  where
    sound_new : IsSound (record w { last_heartbeat = some now; created_at = now; updated_at = now })
    sound_new = record { can_work = v.can_work; holds = v.holds; idle_has_room = v.idle_has_room }

    sound_over : (old : Worker) → IsSound (overwrite now w old)
    sound_over old = record {
      can_work = v.can_work;
      holds = v.holds;
      idle_has_room = v.idle_has_room;
    }

change-IsSound :
    (now : ℕ) (c : Change) (ws : Workers)
    → IsSoundChange c
    → All IsSound ws
    → All IsSound (change now c ws)
unfolding change update update_heartbeat increment_job_count decrement_job_count mark_offline
change-IsSound now (registers w) ws v h = register-IsSound now w ws v h
change-IsSound now (updates w) ws v h =
    update_worker-IsSound w.worker_id (set_columns now w) ws
      (λ old _. set_columns-IsSound now w old v) h
change-IsSound now (beats id) ws v h = update_worker-IsSound id _ ws (beat-IsSound now) h
change-IsSound now (increments id) ws v h = update_worker-IsSound id _ ws (increment-IsSound now) h
change-IsSound now (decrements id) ws v h = update_worker-IsSound id _ ws (decrement-IsSound now) h
change-IsSound now (goes_offline id) ws v h = update_worker-IsSound id _ ws (offline-IsSound now) h

-- From a table of sound workers, and after any writes to it in any order, of which those that register a
-- worker and those that set its columns give a sound one: every worker has a positive limit and no
-- negative number of jobs, and one that is listed as idle has room for another job. The handler of
-- heartbeats sets the status and the count that it is sent, and does not check that they are sound.
pub changes-IsSound :
    (ws : Workers) (cs : List (ℕ × Change))
    → AreSoundChanges cs
    → All IsSound ws
    → All IsSound (changes ws cs)
unfolding changes
changes-IsSound ws [] v h = h
changes-IsSound ws ((now, c) ∷ cs) v h =
    changes-IsSound (change now c ws) cs v.1 (change-IsSound now c ws v.0 h)
