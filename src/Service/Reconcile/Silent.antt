-- ===== src/Service/Reconcile/Silent.antt =====
-- Which workers `reconcileWorkerHealth` of control-plane/internal/service/distributor.go takes for silent,
-- and how their rows read then.
use mesh_vpn.Domain.{Worker}
use mesh_vpn.Text.{Text, codes, text_eq}
use mesh_vpn.Text.Laws.{text_eq_iff}
use mesh_vpn.Store.Workers.{Workers, set_offline}
use mesh_vpn.Store.Workers.Lookup.{find, map_some}
use mesh_vpn.Store.Database.{Database, worker_repository}
use mesh_vpn.Service.Placement.{Settings}
use mesh_vpn.Service.Reconcile.{is_stale, reconcile_worker_health}
use mesh_vpn.Service.Reconcile.Health.{is_marked, reconcile_worker_health-workers}
use mesh_vpn.Base.{
  Bool-cases, Option-cases, IsRewritten, Option, [], arith, false, first, if◌then◌else◌, inl, inr,
  none, refl, some, subst, sym, true, ℕ, ◌+◌, ◌<◌, ◌∷◌, ◌≡◌, ◌≢◌, ◌∙◌, false≢true,
}

-- A worker that is not the control plane's and not offline, and whose last heartbeat is longer ago than the
-- timeout.
pub record IsSilent (d : Settings) (now : ℕ) (w : Worker) : Type 0 where
  pub remote : w.worker_id ≢ d.control_plane_worker
  pub online : w.status ≢ codes "offline"
  pub heard_at : ℕ
  pub last : w.last_heartbeat ≡ some heard_at
  pub overdue : heard_at + d.heartbeat_timeout < now

pub data IsJudged (d : Settings) (now : ℕ) (w : Worker) : Worker → Type 0 where
  goes_offline :
      IsSilent d now w → IsJudged d now w (record w { status = codes "offline"; updated_at = now })
  stays : ¬ IsSilent d now w → IsJudged d now w w

is_stale-IsSilent :
    (d : Settings) (now : ℕ) (w : Worker) → is_stale d now w ≡ true → IsSilent d now w
unfolding is_stale
is_stale-IsSilent d now w h = elim (Option-cases w.last_heartbeat) [
  | inl e ↦ absurd (ground arith)
  | inr (at, e) ↦
      let remote : text_eq w.worker_id d.control_plane_worker ≡ false = ground arith in
      let online : text_eq w.status (codes "offline") ≡ false = ground arith in
      record {
        remote =
            λ q. false≢true (sym remote ∙ (text_eq_iff w.worker_id d.control_plane_worker).1 q);
        online = λ q. false≢true (sym online ∙ (text_eq_iff w.status (codes "offline")).1 q);
        heard_at = at;
        last = e;
        overdue = ground arith;
      }
]

IsSilent-is_stale :
    (d : Settings) (now : ℕ) (w : Worker) → IsSilent d now w → is_stale d now w ≡ true
unfolding is_stale
IsSilent-is_stale d now w v = ground (
  arith,
  v.last,
  v.overdue,
  v.remote,
  v.online,
  text_eq_iff w.worker_id d.control_plane_worker,
  text_eq_iff w.status (codes "offline"),
)

-- The primary key of the table.
abbrev pub HasKey : Workers → Type 0
HasKey [] = Unit
HasKey (w ∷ ws) = (find w.worker_id ws ≡ none) × HasKey ws

is_marked-absent :
    (d : Settings) (now : ℕ) (id : Text) (ws : Workers)
    → find id ws ≡ none
    → is_marked d now ws id ≡ false
unfolding is_marked first
is_marked-absent d now id [] h = refl
is_marked-absent d now id (w ∷ ws) h = ground (arith, is_marked-absent d now id ws)

is_marked-find :
    (d : Settings) (now : ℕ) (id : Text) (w : Worker) (ws : Workers)
    → HasKey ws
    → find id ws ≡ some w
    → is_marked d now ws id ≡ is_stale d now w
unfolding is_marked first
is_marked-find d now id w [] key h = cc
is_marked-find d now id w (v ∷ ws) key h = elim (Bool-cases (text_eq v.worker_id id)) [
  | inl e ↦
      let absent = subst (λ k. find k ws ≡ none) ((text_eq_iff v.worker_id id).0 e) key.0 in
      ground (arith, is_marked-absent d now id ws absent)
  | inr e ↦ ground (arith, is_marked-find d now id w ws key.1)
]

judged :
    (d : Settings) (now : ℕ) (w : Worker)
    → IsJudged d now w (if is_stale d now w then set_offline now w else w)
judged d now w = elim (Bool-cases (is_stale d now w)) [
  | inl e ↦ rw e (goes_offline (is_stale-IsSilent d now w e))
  | inr e ↦ rw e (stays (λ v. false≢true (sym e ∙ IsSilent-is_stale d now w v)))
]

rewritten :
    (d : Settings) (now : ℕ) (id : Text) (ws : Workers) (seen after : Option Worker)
    → HasKey ws
    → find id ws ≡ seen
    → after ≡ (if is_marked d now ws id then map_some (set_offline now) seen else seen)
    → IsRewritten (IsJudged d now) seen after
rewritten d now id ws none after key f h = ground (arith, h)
rewritten d now id ws (some w) after key f h = (
  _,
  h
      ∙ rw (is_marked-find d now id w ws key f)
          (elim (Bool-cases (is_stale d now w)) [ inl e ↦ rw e refl | inr e ↦ rw e refl ]),
  judged d now w,
)

-- Where the driver does not fail, and ids are the table's key: a worker is marked offline, at that time,
-- exactly if it is not the control plane's, not offline, and its last heartbeat is longer ago than the
-- timeout; every other worker is as it was, nothing else of these is changed, and no worker is added or
-- lost.
pub reconcile_worker_health-IsJudged :
    (d : Settings) (now : ℕ) (id : Text) (db : Database)
    → db.faults ≡ []
    → HasKey db.workers
    → IsRewritten
        (IsJudged d now)
        (find id db.workers)
        (find id (reconcile_worker_health worker_repository d now db).1.workers)
reconcile_worker_health-IsJudged d now id db calm key =
    rewritten d now id db.workers (find id db.workers) _ key refl
      (reconcile_worker_health-workers d now id db calm)
