-- ===== src/Service/Reconcile/Cooldown.antt =====
-- How `reconcileRebalance` of control-plane/internal/service/distributor.go spares what was moved lately.
use mesh_vpn.Store.Errors.{Result, err, ok}
use mesh_vpn.Domain.{DeploymentRecord, Worker}
use mesh_vpn.Text.{Text, text_eq}
use mesh_vpn.Store.Repositories.{DeploymentRepository, JobRepository}
use mesh_vpn.Store.Repositories.{WorkerRepository}
use mesh_vpn.Store.Repositories.Laws.{DeploymentLaws}
use mesh_vpn.Service.Reconcile.Failover.{requeue-view}
use mesh_vpn.Base.{
  Bool-cases, inl, inr, List, [], ap, arith, false, if◌then◌else◌, refl, some, subst, sym, true, ℕ,
  ◌+◌, ◌<◌, ◌∙◌, ◌∷◌, ◌≡◌,
}
use mesh_vpn.Service.Requeue.{
  Distribution, after_enqueue, last_shift_of, record_shift, requeue_deployment,
}
use mesh_vpn.Service.Reconcile.{
  cools_down, for_each, is_misplaced, rebalance_reason, reconcile_rebalance, requeue_all,
  requeue_if, requeue_misplaced,
}
use mesh_vpn.Service.Placement.{Settings}
use mesh_vpn.Text.Laws.{text_eq_iff, text_eq_refl}
use mesh_vpn.Store.DeploymentTable.{later}

last_shift_of-record_shift :
    (id key : Text) (now : ℕ) (shifts : List (Text × ℕ))
    → last_shift_of id (record_shift key now shifts)
      ≡ (if text_eq key id then some now else last_shift_of id shifts)
unfolding last_shift_of record_shift
last_shift_of-record_shift id key now [] = refl
last_shift_of-record_shift id key now ((k, at) ∷ shifts) = ground (
  arith,
  text_eq_iff k key,
  text_eq_iff k id,
  text_eq_iff key id,
  last_shift_of-record_shift id key now shifts,
)

is_misplaced-cools_down :
    (d : Settings) (later : ℕ) (ws : List Worker) (shifts : List (Text × ℕ))
    (dep : DeploymentRecord)
    → cools_down d later (last_shift_of dep.deployment_id shifts) ≡ true
    → is_misplaced d later ws shifts dep ≡ false
unfolding is_misplaced
is_misplaced-cools_down d later ws shifts dep h = ground arith

module _ {S : Type 0} (uuid : ℕ → Text) (jobs : JobRepository S)
    (deployments : DeploymentRepository S) where
  after_enqueue-last_shift :
      (id k : Text) (now : ℕ) (dep : DeploymentRecord) (r : Result (Unit {0})) (s : Distribution S)
      → (after_enqueue uuid jobs deployments k now dep r s).0 ≡ ok id
      → last_shift_of dep.deployment_id
          (after_enqueue uuid jobs deployments k now dep r s).1.last_shift
        ≡ some now
  unfolding after_enqueue
  after_enqueue-last_shift id k now dep (err e) s h = ground arith
  after_enqueue-last_shift id k now dep (ok _) s h =
      last_shift_of-record_shift dep.deployment_id dep.deployment_id now s.last_shift
      ∙ ap (λ b. if b then some now else last_shift_of dep.deployment_id s.last_shift)
          (text_eq_refl dep.deployment_id)

  -- An id was moved at a time.
  abbrev Moved : Text → ℕ → Distribution S → Type 0
  Moved id at s = last_shift_of id s.last_shift ≡ some at

  pub requeue_deployment-Moved :
      (now : ℕ) (dep : DeploymentRecord) (reason id : Text) (s : Distribution S)
      → (requeue_deployment uuid jobs deployments now dep reason s).0 ≡ ok id
      → Moved dep.deployment_id now (requeue_deployment uuid jobs deployments now dep reason s).1
  unfolding requeue_deployment
  requeue_deployment-Moved now dep reason id s h = after_enqueue-last_shift id _ now dep _ _ h

  after_enqueue-Moved :
      (id k : Text) (at now : ℕ) (dep : DeploymentRecord) (r : Result (Unit {0}))
      (s : Distribution S)
      → text_eq dep.deployment_id id ≡ false
      → Moved id at s
      → Moved id at (after_enqueue uuid jobs deployments k now dep r s).1
  unfolding after_enqueue
  after_enqueue-Moved id k at now dep (err e) s other h = h
  after_enqueue-Moved id k at now dep (ok _) s other h =
      last_shift_of-record_shift id dep.deployment_id now s.last_shift ∙ rw other h

  module _ (laws : DeploymentLaws deployments jobs) (d : Settings) (id : Text) (at later : ℕ)
      (ws : List Worker) (soon : later < at + d.rebalance_cooldown) where
    -- A turn that moves another deployment leaves this one where it is, and when it was moved.
    other_turn :
        (dep : DeploymentRecord) (s : Distribution S)
        → text_eq dep.deployment_id id ≡ false
        → Moved id at s
        → Moved id at
            (requeue_if uuid jobs deployments
              (is_misplaced d later ws)
              rebalance_reason
              later
              dep
              s).1
          × (laws.view id
                (requeue_if uuid jobs deployments
                  (is_misplaced d later ws)
                  rebalance_reason
                  later
                  dep
                  s).1.repositories
              ≡ laws.view id s.repositories)
    unfolding requeue_if requeue_deployment
    other_turn dep s other h = elim (Bool-cases (is_misplaced d later ws s.last_shift dep)) [
      | inl e ↦ rw e (
        after_enqueue-Moved id _ at later dep _ _ other h,
        requeue-view uuid jobs deployments laws later dep rebalance_reason id s ∙ rw other refl,
      )
      | inr e ↦ rw e (h, refl)
    ]

    own_turn :
        (dep : DeploymentRecord) (s : Distribution S)
        → text_eq dep.deployment_id id ≡ true
        → Moved id at s
        → (requeue_if uuid jobs deployments
            (is_misplaced d later ws)
            rebalance_reason
            later
            dep
            s).1
          ≡ s
    unfolding requeue_if
    own_turn dep s own h =
        rw
          (is_misplaced-cools_down d later ws s.last_shift dep (
            subst (λ k. cools_down d later (last_shift_of k s.last_shift) ≡ true)
              (sym ((text_eq_iff dep.deployment_id id).0 own))
              (ap (cools_down d later) h ∙ ground arith)))
          refl

    loop_rests :
        (deps : List DeploymentRecord) (s : Distribution S)
        → Moved id at s
        → laws.view id
            (for_each
              (requeue_if uuid jobs deployments (is_misplaced d later ws) rebalance_reason later)
              deps
              s).1.repositories
          ≡ laws.view id s.repositories
    unfolding for_each
    loop_rests [] s h = refl
    loop_rests (dep ∷ deps) s h = elim (Bool-cases (text_eq dep.deployment_id id)) [
      | inl own ↦
          ap
            (λ s'.
              laws.view id
                (for_each
                  (requeue_if uuid jobs deployments (is_misplaced d later ws) rebalance_reason
                    later)
                  deps s').1.repositories)
            (own_turn dep s own h)
          ∙ loop_rests deps s h
      | inr other ↦
          let (h', same) = other_turn dep s other h in
          loop_rests deps
            (requeue_if uuid jobs deployments (is_misplaced d later ws) rebalance_reason later dep
              s).1
            h'
          ∙ same
    ]

  module _ (laws : DeploymentLaws deployments jobs) (workers : WorkerRepository S)
      (list_aside : (id : Text) (s : S) → laws.view id (workers.list s).1 ≡ laws.view id s) where
    rebalance_rests :
        (d : Settings) (id : Text) (at later : ℕ) (s : Distribution S)
        → later < at + d.rebalance_cooldown
        → Moved id at s
        → laws.view id (reconcile_rebalance uuid jobs deployments workers d later s).1.repositories
          ≡ laws.view id s.repositories
    unfolding reconcile_rebalance requeue_all
    rebalance_rests d id at later s soon h =
        by_answer (workers.list s.repositories).0 ∙ list_aside id s.repositories
      where
        listed : Distribution S
        listed = record s { repositories = (workers.list s.repositories).1 }

        by_answer :
            (r : Result (List Worker))
            → laws.view id (requeue_misplaced uuid jobs deployments d later r listed).1.repositories
              ≡ laws.view id (workers.list s.repositories).1
        by_answer (err e) = refl
        by_answer (ok ws) =
            loop_rests laws d id at later ws soon (deployments.list listed.repositories).0
              (record listed { repositories = (deployments.list listed.repositories).1 }) h
            ∙ ap (laws.view id) (laws.list_state (workers.list s.repositories).1)

    -- Over stores that keep the laws, and where listing the workers leaves the deployments as they are: a
    -- deployment that was requeued, by a failover or by a rebalance, is not moved by a rebalance until the
    -- cooldown is over, whatever the workers and the deployments have become since: its record is the same
    -- behind the rebalance as before.
    pub requeue_deployment-rests :
        (d : Settings) (now later : ℕ) (dep : DeploymentRecord) (reason id : Text)
        (s : Distribution S) (since : S)
        → (requeue_deployment uuid jobs deployments now dep reason s).0 ≡ ok id
        → later < now + d.rebalance_cooldown
        → laws.view dep.deployment_id
            (reconcile_rebalance uuid jobs deployments workers d later
              (record (requeue_deployment uuid jobs deployments now dep reason s).1 {
                repositories = since;
              })).1.repositories
          ≡ laws.view dep.deployment_id since
    requeue_deployment-rests d now later dep reason id s since h soon =
        rebalance_rests d dep.deployment_id now later
          (record (requeue_deployment uuid jobs deployments now dep reason s).1 {
            repositories = since;
          })
          soon (requeue_deployment-Moved now dep reason id s h)
