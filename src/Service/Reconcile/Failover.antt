-- ===== src/Service/Reconcile/Failover.antt =====
-- What the failover of control-plane/internal/service/distributor.go makes of the deployments.
use mesh_vpn.Store.Repositories.Laws.{map_record, DeploymentLaws, HasDistinctIds, find_record}
use mesh_vpn.Domain.{DeploymentRecord, Worker}
use mesh_vpn.Text.{Text, text_eq, trim_space}
use mesh_vpn.Store.Repositories.{DeploymentRepository, JobRepository, WorkerRepository}
use mesh_vpn.Store.Errors.{Result, err, ok}
use mesh_vpn.Store.Repositories.Laws.{map_record, DeploymentLaws}
use mesh_vpn.Base.{
  List, Option, ap, arith, false, if◌then◌else◌, none, refl, some, ℕ, ◌∙◌, ◌≡◌, Bool-cases, [], inl,
  inr, ◌&&◌, ◌∷◌, subst, sym,
}
use mesh_vpn.Service.Requeue.{Distribution, after_enqueue, requeue_deployment, requeued_record}
use mesh_vpn.Service.Reconcile.{
  any_offline, failover_reason, is_stranded, for_each, is_offline_in, requeue_if,
  reconcile_offline_deployments, requeue_all, requeue_stranded,
}
use mesh_vpn.Text.Laws.{text_eq_iff}

-- The record of a deployment after a turn of the loop.
abbrev pub failed_over : List Worker → DeploymentRecord → DeploymentRecord
failed_over ws rec = if is_stranded ws rec then requeued_record failover_reason rec else rec

is_stranded-requeued :
    (ws : List Worker) (rec : DeploymentRecord)
    → is_stranded ws (requeued_record failover_reason rec) ≡ false
unfolding is_stranded requeued_record text_eq
is_stranded-requeued ws rec = refl

is_offline_in_none :
    (ws : List Worker) (id : Text) → any_offline ws ≡ false → is_offline_in ws id ≡ false
unfolding is_offline_in any_offline
is_offline_in_none [] id h = refl
is_offline_in_none (w ∷ ws) id h = ground (arith, is_offline_in_none ws id)

is_stranded_none :
    (ws : List Worker) (rec : DeploymentRecord)
    → any_offline ws ≡ false
    → is_stranded ws rec ≡ false
unfolding is_stranded any_offline
is_stranded_none ws rec h = ground (arith, is_offline_in_none ws (trim_space rec.owner_worker_id) h)

module _ {S : Type 0} (uuid : ℕ → Text) (jobs : JobRepository S)
    (deployments : DeploymentRepository S) (laws : DeploymentLaws deployments jobs) where
  abbrev after_requeue : ℕ → DeploymentRecord → Text → Distribution S → Result Text × Distribution S
  after_requeue = requeue_deployment uuid jobs deployments

  after_enqueue-repositories :
      (id : Text) (now : ℕ) (dep : DeploymentRecord) (r : Result (Unit {0})) (s : Distribution S)
      → (after_enqueue uuid jobs deployments id now dep r s).1.repositories ≡ s.repositories
  unfolding after_enqueue
  after_enqueue-repositories id now dep (ok _) s = refl
  after_enqueue-repositories id now dep (err e) s = refl

  pub requeue-view :
      (now : ℕ) (dep : DeploymentRecord) (reason id : Text) (s : Distribution S)
      → laws.view id (after_requeue now dep reason s).1.repositories ≡ (
          if text_eq dep.deployment_id id
          then some (requeued_record reason dep)
          else laws.view id s.repositories)
  unfolding requeue_deployment requeued_record
  requeue-view now dep reason id s =
      ap (laws.view id) (after_enqueue-repositories _ now dep _ _)
      ∙ laws.view_enqueue id _ _
      ∙ laws.view_update id (requeued_record reason dep) s.repositories

  turn-view :
      (ws : List Worker) (now : ℕ) (dep : DeploymentRecord) (id : Text) (s : Distribution S)
      → laws.view id
          (requeue_if uuid jobs deployments
            (λ shifts. is_stranded ws)
            failover_reason
            now
            dep
            s).1.repositories
        ≡ (if is_stranded ws dep && text_eq dep.deployment_id id
            then some (requeued_record failover_reason dep)
            else laws.view id s.repositories)
  unfolding requeue_if
  turn-view ws now dep id s = elim (Bool-cases (is_stranded ws dep)) [
    | inl e ↦ rw e (requeue-view now dep failover_reason id s)
    | inr e ↦ rw e refl
  ]

  abbrev seen :
      List Worker → Text → List DeploymentRecord → Distribution S → Option DeploymentRecord
  seen ws id recs s = elim (find_record id recs) [
    | none ↦ laws.view id s.repositories
    | some rec ↦
        if is_stranded ws rec
        then some (requeued_record failover_reason rec)
        else laws.view id s.repositories
  ]

  loop-view :
      (ws : List Worker) (now : ℕ) (id : Text) (recs : List DeploymentRecord) (s : Distribution S)
      → HasDistinctIds recs
      → laws.view id
          (for_each
            (requeue_if uuid jobs deployments (λ shifts. is_stranded ws) failover_reason now)
            recs
            s).1.repositories
        ≡ seen ws id recs s
  unfolding for_each find_record
  loop-view ws now id [] s h = refl
  loop-view ws now id (rec ∷ recs) s h =
      loop-view ws now id recs _ h.1 ∙ elim (Bool-cases (text_eq rec.deployment_id id)) [
        | inl e ↦
            let absent =
              subst (λ k. find_record k recs ≡ none) ((text_eq_iff rec.deployment_id id).0 e) h.0 in
            ground (arith, absent, turn-view ws now rec id s)
        | inr e ↦ ground (arith, turn-view ws now rec id s)
      ]

  listed-view :
      (ws : List Worker) (now : ℕ) (id : Text) (s : Distribution S)
      → laws.IsValid s.repositories
      → laws.view id
          (requeue_all uuid jobs deployments
            (λ shifts. is_stranded ws)
            failover_reason
            now
            s).1.repositories
        ≡ map_record (failed_over ws) (laws.view id s.repositories)
  unfolding requeue_all
  listed-view ws now id s v =
      loop-view ws now id _ _ (laws.list_distinct s.repositories v)
      ∙ ground (
        arith,
        laws.list_view id s.repositories v,
        ap (laws.view id) (laws.list_state s.repositories),
      )

  map_record-kept :
      (ws : List Worker) (o : Option DeploymentRecord)
      → any_offline ws ≡ false
      → o ≡ map_record (failed_over ws) o
  map_record-kept ws none h = refl
  map_record-kept ws (some rec) h = rw (is_stranded_none ws rec h) refl

  stranded-view :
      (ws : List Worker) (now : ℕ) (id : Text) (s : Distribution S)
      → laws.IsValid s.repositories
      → laws.view id (requeue_stranded uuid jobs deployments now (ok ws) s).1.repositories
        ≡ map_record (failed_over ws) (laws.view id s.repositories)
  stranded-view ws now id s v = elim (Bool-cases (any_offline ws)) [
    | inl f ↦ rw f (listed-view ws now id s v)
    | inr f ↦ rw f (map_record-kept ws _ f)
  ]

  failed_over-settled :
      (ws : List Worker) (rec : DeploymentRecord) → is_stranded ws (failed_over ws rec) ≡ false
  failed_over-settled ws rec = elim (Bool-cases (is_stranded ws rec)) [
    | inl e ↦ rw e (is_stranded-requeued ws rec)
    | inr e ↦ rw e e
  ]

  map_record-settled :
      (ws : List Worker) (o : Option DeploymentRecord) (rec : DeploymentRecord)
      → map_record (failed_over ws) o ≡ some rec
      → is_stranded ws rec ≡ false
  map_record-settled ws none rec h = ground arith
  map_record-settled ws (some old) rec h =
      subst (λ r. is_stranded ws r ≡ false) (let p = h in ground arith) (failed_over-settled ws old)

  module _ (workers : WorkerRepository S) where
    abbrev pub failover : ℕ → Distribution S → Distribution S
    failover now s = (reconcile_offline_deployments uuid jobs deployments workers now s).1

    pub reconcile_offline_deployments-view :
        (ws : List Worker) (now : ℕ) (id : Text) (s : Distribution S)
        → workers.list s.repositories ≡ (ok ws, s.repositories)
        → laws.IsValid s.repositories
        → laws.view id (failover now s).repositories
          ≡ map_record (failed_over ws) (laws.view id s.repositories)
    unfolding reconcile_offline_deployments
    reconcile_offline_deployments-view ws now id s e v =
        ap
          (λ r.
            laws.view id
              (requeue_stranded uuid jobs deployments now r.0
                (record s { repositories = r.1 })).1.repositories)
          e
        ∙ stranded-view ws now id s v

    -- Over stores that keep the laws, in a valid state, and where the list of workers can be read: after
    -- a failover no running deployment is owned by a worker of that list that was offline.
    pub reconcile_offline_deployments-settled :
        (ws : List Worker) (now : ℕ) (id : Text) (rec : DeploymentRecord) (s : Distribution S)
        → workers.list s.repositories ≡ (ok ws, s.repositories)
        → laws.IsValid s.repositories
        → laws.view id (failover now s).repositories ≡ some rec
        → is_stranded ws rec ≡ false
    reconcile_offline_deployments-settled ws now id rec s e v h =
        map_record-settled ws _ rec (sym (reconcile_offline_deployments-view ws now id s e v) ∙ h)
