-- ===== src/Store/Jobs/Calls.antt =====
-- Histories of the job queue: the calls that other parts of the program make, one after another.
use mesh_vpn.Base.{ℕ, ◌+◌, List, [], ◌∷◌, ◌++◌, if◌then◌else◌}
use mesh_vpn.Text.{Text, text_eq}
use mesh_vpn.Domain.{DeploymentJob}
use mesh_vpn.Store.Errors.{Result, ok, err}
use mesh_vpn.Store.Jobs.{
  Jobs, enqueue, claim_next, claim_for_worker, mark_done, mark_failed, assign_to_worker,
  release_from_worker, get_next_unassigned_job,
}

pub data Call : Type 0 where
  enqueues : DeploymentJob → Call
  claims asks : Call
  claims_for marks_done releases : Text → Call
  marks_failed assigns : Text → Text → Call

-- The state that a call leaves.
unfoldable pub step : ℕ → Call → Jobs → Jobs
step now (enqueues job) r = (enqueue job r).1
step now claims r = (claim_next now r).1
step now asks r = (get_next_unassigned_job r).1
step now (claims_for worker) r = (claim_for_worker now worker r).1
step now (marks_done id) r = (mark_done now id r).1
step now (releases id) r = (release_from_worker id r).1
step now (marks_failed id text) r = (mark_failed now id text r).1
step now (assigns id worker) r = (assign_to_worker now id worker r).1

abbrev pub claimed_id : Result DeploymentJob → List Text
claimed_id (ok job) = job.job_id ∷ []
claimed_id (err e) = []

-- The id of the job that a call hands to a worker, if it hands one out.
unfoldable pub handed_out : ℕ → Call → Jobs → List Text
handed_out now claims r = claimed_id (claim_next now r).0
handed_out now (claims_for worker) r = claimed_id (claim_for_worker now worker r).0
handed_out now _ r = []

abbrev pub enqueued_by : Call → List Text
enqueued_by (enqueues job) = job.job_id ∷ []
enqueued_by _ = []

abbrev pub History : Type 0
History = List (ℕ × Call)

unfoldable pub run : Jobs → History → Jobs
run r [] = r
run r ((now, c) ∷ cs) = run (step now c r) cs

-- The ids handed out, and the ids enqueued, in a history.
unfoldable pub all_handed_out : Jobs → History → List Text
all_handed_out r [] = []
all_handed_out r ((now, c) ∷ cs) = handed_out now c r ++ all_handed_out (step now c r) cs

unfoldable pub all_enqueued : History → List Text
all_enqueued [] = []
all_enqueued ((now, c) ∷ cs) = enqueued_by c ++ all_enqueued cs

-- How often an id stands in a list.
unfoldable pub times : Text → List Text → ℕ
times id [] = 0
times id (x ∷ xs) = (if text_eq x id then 1 else 0) + times id xs
