-- ===== src/Service/LiveLogs/Captured.antt =====
-- What `processNext` of control-plane/internal/service/worker.go has captured and stored of the logs of
-- a run.
use mesh_vpn.Domain.{DeploymentRecord}
use mesh_vpn.Text.{Text, is_empty}
use mesh_vpn.Store.Repositories.{DeploymentRepository, JobRepository}
use mesh_vpn.Store.Repositories.Laws.{DeploymentLaws}
use mesh_vpn.Base.{
  Bool, Bool-cases, List, [], ap, append-nil, append_assoc, false, inl, inr, refl, sym, ℕ, ◌++◌,
  ◌+◌, ◌<◌, ◌∙◌, ◌∷◌, ◌≡◌, arith, some, if◌then◌else◌,
}
use mesh_vpn.Service.LiveLogs.{
  LiveLogs, append_live_log, append_live_logs, byte_length, persist_live_logs, should_persist,
  live_record,
}
use mesh_vpn.Text.Laws.{text_eq_refl}

-- The chunks, one behind the other.
unfoldable pub joined : List (ℕ × Text) → Text
joined [] = []
joined ((now, chunk) ∷ chunks) = chunk ++ joined chunks

module _ {S : Type 0} (repo : DeploymentRepository S) (worker : Text) (rec : DeploymentRecord) where
  persist-logs :
      (force : Bool) (now : ℕ) (live : LiveLogs) (s : S)
      → (persist_live_logs repo worker rec force now live s).0.build_logs ≡ live.build_logs
  unfolding persist_live_logs
  persist-logs force now live s = elim (Bool-cases (should_persist force now live)) [
    | inl e ↦ rw e refl
    | inr e ↦ rw e refl
  ]

  append-logs :
      (live : LiveLogs) (now : ℕ) (chunk : Text) (s : S)
      → (append_live_log repo worker rec live (now, chunk) s).0.build_logs
        ≡ live.build_logs ++ chunk
  unfolding append_live_log is_empty
  append-logs live now [] s = sym (append-nil live.build_logs)
  append-logs live now (c ∷ chunk) s = persist-logs false now _ s

  -- No chunk is lost: the captured logs are those from before and all chunks in their order, however
  -- they were persisted in between.
  pub append_live_logs-joined :
      (chunks : List (ℕ × Text)) (live : LiveLogs) (s : S)
      → (append_live_logs repo worker rec chunks live s).0.build_logs
        ≡ live.build_logs ++ joined chunks
  unfolding append_live_logs joined
  append_live_logs-joined [] live s = sym (append-nil live.build_logs)
  append_live_logs-joined ((now, chunk) ∷ chunks) live s =
      append_live_logs-joined chunks _ _
      ∙ ap (λ logs. logs ++ joined chunks) (append-logs live now chunk s)
      ∙ append_assoc live.build_logs chunk (joined chunks)

module _ {S : Type 0} (repo : DeploymentRepository S) (jobs : JobRepository S)
    (laws : DeploymentLaws repo jobs) (worker : Text) (rec : DeploymentRecord) where
  -- The stored record has all but less than 2048 bytes of the logs.
  pub record IsCaptured (live : LiveLogs) (s : S) : Type 0 where
    pub held : DeploymentRecord
    pub seen : laws.view rec.deployment_id s ≡ some held
    pub length_known : byte_length held.build_logs ≡ live.persisted_length
    pub no_lag : byte_length live.build_logs < live.persisted_length + 2048

  persist-IsCaptured :
      (now : ℕ) (live : LiveLogs) (logs : Text) (s : S)
      → IsCaptured live s
      → let after =
          persist_live_logs repo worker rec false now (record live { build_logs = logs }) s in
        IsCaptured after.0 after.1
  unfolding persist_live_logs
  persist-IsCaptured now live logs s v =
      elim (Bool-cases (should_persist false now (record live { build_logs = logs }))) [
        | inl e ↦ rw e (record {
          held = live_record worker rec logs;
          seen =
              laws.view_update rec.deployment_id (live_record worker rec logs) s
              ∙ ap
                  (λ b.
                    if b then some (live_record worker rec logs) else laws.view rec.deployment_id s)
                  (text_eq_refl rec.deployment_id);
          length_known = refl;
          no_lag = omega arith;
        })
        | inr e ↦ rw e (record {
          held = v.held;
          seen = v.seen;
          length_known = v.length_known;
          no_lag = unfold should_persist in ground arith;
        })
      ]

  append-IsCaptured :
      (live : LiveLogs) (now : ℕ) (chunk : Text) (s : S)
      → IsCaptured live s
      → let after = append_live_log repo worker rec live (now, chunk) s in
        IsCaptured after.0 after.1
  unfolding append_live_log is_empty
  append-IsCaptured live now [] s v = v
  append-IsCaptured live now (c ∷ chunk) s v =
      persist-IsCaptured now live (live.build_logs ++ c ∷ chunk) s v

  -- Over stores that keep the laws: after any updates of a run, from a state in which the stored record
  -- lags behind the captured logs by less than 2048 bytes, it still does so.
  pub append_live_logs-IsCaptured :
      (chunks : List (ℕ × Text)) (live : LiveLogs) (s : S)
      → IsCaptured live s
      → let after = append_live_logs repo worker rec chunks live s in IsCaptured after.0 after.1
  unfolding append_live_logs
  append_live_logs-IsCaptured [] live s v = v
  append_live_logs-IsCaptured ((now, chunk) ∷ chunks) live s v =
      append_live_logs-IsCaptured chunks _ _ (append-IsCaptured live now chunk s v)
