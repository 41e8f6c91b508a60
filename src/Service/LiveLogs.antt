-- ===== src/Service/LiveLogs.antt =====
-- The build logs that `processNext` of control-plane/internal/service/worker.go stores while a
-- deployment runs.
pub mod Captured
use mesh_vpn.Store.Errors.{◌>>=◌, ◌>>◌, Program, pure}
use mesh_vpn.Domain.{DeploymentRecord}
use mesh_vpn.Text.{Text, codes, is_empty}
use mesh_vpn.Store.Repositories.{DeploymentRepository}
use mesh_vpn.Base.{Bool, List, [], false, if◌then◌else◌, leb, ltb, ℕ, ◌++◌, ◌+◌, ◌||◌, ◌∷◌}

-- The bytes of a code point in UTF-8.
abbrev pub byte_width : ℕ → ℕ
byte_width c = if ltb c 0x80 then 1 else if ltb c 0x800 then 2 else if ltb c 0x10000 then 3 else 4

-- `len(s)`
unfoldable pub byte_length : Text → ℕ
byte_length [] = 0
byte_length (c ∷ s) = byte_width c + byte_length s

-- `liveBuildLogs`, `lastPersistedLen` and `lastPersistAt`
pub record LiveLogs : Type 0 where
  pub build_logs : Text
  pub persisted_length : ℕ
  pub persisted_at : ℕ

abbrev pub second : ℕ
second = 1000000000

unfoldable pub should_persist : Bool → ℕ → LiveLogs → Bool
unfolding byte_length
should_persist force now live =
    force
    || leb (live.persisted_length + 2048) (byte_length live.build_logs)
    || leb (live.persisted_at + second) now

-- The record that is stored while the deployment runs.
unfoldable pub live_record : Text → DeploymentRecord → Text → DeploymentRecord
live_record worker rec logs = record rec {
  status = codes "deploying";
  owner_worker_id = worker;
  build_logs = logs;
}

module _ {S : Type 0} (repo : DeploymentRepository S) (worker : Text) (rec : DeploymentRecord) where
  unfoldable pub persist_live_logs : Bool → ℕ → LiveLogs → Program S LiveLogs
  unfolding should_persist live_record
  persist_live_logs force now live =
      if should_persist force now live
      then repo.update (live_record worker rec live.build_logs)
        >> pure (record live { persisted_length = byte_length live.build_logs; persisted_at = now })
      else pure live

  unfoldable pub append_live_log : LiveLogs → ℕ × Text → Program S LiveLogs
  unfolding persist_live_logs
  append_live_log live (now, chunk) =
      if is_empty chunk
      then pure live
      else persist_live_logs false now (record live { build_logs = live.build_logs ++ chunk })

  -- The calls of `appendLiveLog` that a run makes, with their times.
  unfoldable pub append_live_logs : List (ℕ × Text) → LiveLogs → Program S LiveLogs
  unfolding append_live_log
  append_live_logs [] live = pure live
  append_live_logs (chunk ∷ chunks) live = append_live_log live chunk >>= append_live_logs chunks
