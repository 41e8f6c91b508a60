-- ===== src/Service/Reconcile/FailedOver.antt =====
-- Which deployments the failover of control-plane/internal/service/distributor.go requeues, and how their
-- records read then.
use mesh_vpn.Domain.{DeploymentRecord, Worker}
use mesh_vpn.Text.{Text, codes, is_empty, text_eq, trim_space}
use mesh_vpn.Text.Laws.{text_eq_iff}
use mesh_vpn.Store.Repositories.{DeploymentRepository, JobRepository, WorkerRepository}
use mesh_vpn.Store.Repositories.Laws.{DeploymentLaws, map_record}
use mesh_vpn.Store.Errors.{ok}
use mesh_vpn.Service.Requeue.{Distribution, requeued_record}
use mesh_vpn.Service.Reconcile.{failover_reason, is_offline_in, is_stranded}
use mesh_vpn.Service.Reconcile.Failover.{failed_over, failover, reconcile_offline_deployments-view}
use mesh_vpn.Base.{
  Bool-cases, IsRewritten, List, Option, [], append_assoc, arith, false, inl, inr, none, refl, some,
  subst, sym, true, ℕ, ◌++◌, ◌∷◌, ◌≡◌, ◌⊎◌, ◌∙◌, ◌&&◌, false≢true,
}

-- A worker of that id is offline.
abbrev pub IsOfflineIn : List Worker → Text → Type 0
IsOfflineIn [] id = ⊥
IsOfflineIn (w ∷ ws) id = ((w.status ≡ codes "offline") × (w.worker_id ≡ id)) ⊎ IsOfflineIn ws id

-- A running deployment on a worker that is offline.
pub record IsStranded (ws : List Worker) (rec : DeploymentRecord) : Type 0 where
  pub runs : rec.status ≡ codes "running"
  pub is_owned : is_empty (trim_space rec.owner_worker_id) ≡ false
  pub owner_offline : IsOfflineIn ws (trim_space rec.owner_worker_id)

-- The record behind a failover.
pub data IsFailedOver (ws : List Worker) (rec : DeploymentRecord) : DeploymentRecord → Type 0 where
  is_requeued :
      IsStranded ws rec
      → IsFailedOver ws rec (record rec {
        status = codes "queued";
        owner_worker_id = [];
        error = codes "owner worker went offline, deployment re-queued for failover";
        build_logs =
            rec.build_logs
            ++ codes
                "\n=== rebalance/failover ===\nowner worker went offline, deployment re-queued for failover\n";
        finished_at = none;
      })
  stays : ¬ IsStranded ws rec → IsFailedOver ws rec rec

is_offline_in-IsOfflineIn :
    (ws : List Worker) (id : Text) → is_offline_in ws id ≡ true → IsOfflineIn ws id
unfolding is_offline_in
is_offline_in-IsOfflineIn [] id h = cc
is_offline_in-IsOfflineIn (w ∷ ws) id h =
    elim (Bool-cases (text_eq w.status (codes "offline") && text_eq w.worker_id id)) [
      | inl e ↦ inl (
        (text_eq_iff w.status (codes "offline")).0 (ground arith),
        (text_eq_iff w.worker_id id).0 (ground arith),
      )
      | inr e ↦ inr (is_offline_in-IsOfflineIn ws id (ground arith))
    ]

IsOfflineIn-is_offline_in :
    (ws : List Worker) (id : Text) → IsOfflineIn ws id → is_offline_in ws id ≡ true
unfolding is_offline_in
IsOfflineIn-is_offline_in [] id h = elim h [ ]
IsOfflineIn-is_offline_in (w ∷ ws) id (inl (e, f)) =
    rw ((text_eq_iff w.status (codes "offline")).1 e, (text_eq_iff w.worker_id id).1 f) refl
IsOfflineIn-is_offline_in (w ∷ ws) id (inr h) = ground (arith, IsOfflineIn-is_offline_in ws id h)

failed_over-IsFailedOver :
    (ws : List Worker) (rec : DeploymentRecord) → IsFailedOver ws rec (failed_over ws rec)
unfolding is_stranded requeued_record
failed_over-IsFailedOver ws rec = elim (Bool-cases (is_stranded ws rec)) [
  | inl e ↦ rw e (
      subst
        (λ (logs : Text). IsFailedOver ws rec (record rec {
          status = codes "queued";
          owner_worker_id = [];
          error = failover_reason;
          build_logs = logs;
          finished_at = none;
        }))
        (simp append_assoc)
        (is_requeued (record {
          runs = (text_eq_iff rec.status (codes "running")).0 (ground arith);
          is_owned = ground arith;
          owner_offline =
              is_offline_in-IsOfflineIn ws (trim_space rec.owner_worker_id) (ground arith);
        })))
  | inr e ↦ rw e (
      stays (λ v. false≢true (
        sym e
        ∙ ground (
          arith,
          (text_eq_iff rec.status (codes "running")).1 v.runs,
          v.is_owned,
          IsOfflineIn-is_offline_in ws (trim_space rec.owner_worker_id) v.owner_offline,
        ))))
]

module _ {S : Type 0} (uuid : ℕ → Text) (jobs : JobRepository S)
    (deployments : DeploymentRepository S) (laws : DeploymentLaws deployments jobs)
    (workers : WorkerRepository S) where
  map_record-IsRewritten :
      (ws : List Worker) (seen after : Option DeploymentRecord)
      → after ≡ map_record (failed_over ws) seen
      → IsRewritten (IsFailedOver ws) seen after
  map_record-IsRewritten ws none after e = e
  map_record-IsRewritten ws (some rec) after e =
      (failed_over ws rec, e, failed_over-IsFailedOver ws rec)

  -- Over stores that keep the laws, in a valid state, and where the list of workers can be read: the
  -- failover requeues the record of each running deployment whose owner, trimmed, is an offline worker,
  -- which is then queued without an owner and says why, whether or not its job could be enqueued; and it
  -- changes no other record, and nothing else of these.
  pub reconcile_offline_deployments-IsFailedOver :
      (ws : List Worker) (now : ℕ) (id : Text) (s : Distribution S)
      → workers.list s.repositories ≡ (ok ws, s.repositories)
      → laws.IsValid s.repositories
      → IsRewritten
          (IsFailedOver ws)
          (laws.view id s.repositories)
          (laws.view id (failover uuid jobs deployments laws workers now s).repositories)
  reconcile_offline_deployments-IsFailedOver ws now id s e v =
      map_record-IsRewritten ws (laws.view id s.repositories) _
        (reconcile_offline_deployments-view uuid jobs deployments laws workers ws now id s e v)
