-- ===== src/Fleet/Agreement.antt =====
-- The jobs that the queue of the control plane has running for an agent, and the one that it has in hand.
use mesh_vpn.Agent.Host.{Attempt}
use mesh_vpn.Agent.Jobs.{
  no_response, Agent, Exchanges, Phase, Request, crashed, polling, reporting, working, report_of,
  send,
}
use mesh_vpn.Text.{Text}
use mesh_vpn.Store.Jobs.{Jobs}
use mesh_vpn.Store.Jobs.Held.{IsKeyed, held, one_of}
use mesh_vpn.Base.{
  Bool, Bool-cases, true, ◌≤◌, ◌+◌, inl, inr, ◌⊎◌, ap, arith, length, refl, some, subst, sym, ℕ,
  ◌∙◌, ◌≡◌, false,
}
use mesh_vpn.Base.Int.{ℤ}
use mesh_vpn.Fleet.Joined.{
  respond, Fate, request_lost, answer_lost, before, made, plane_after-append, client, plane_after,
  delivered, arrives, Joint,
}
use mesh_vpn.Fleet.Queue.{Meter, Keeps, IsStillCalm}

-- What the queue has running for the agent and what it has in hand: the same, or, where exchanges may be
-- lost, at least that.
abbrev pub Agrees : Bool → ℕ → ℕ → Type 0
Agrees true m n = m ≡ n
Agrees false m n = n ≤ m

pub Agrees-add : (exact : Bool) (k m n : ℕ) → Agrees exact m n → Agrees exact (m + k) (n + k)
Agrees-add true k m n h = omega (arith, h)
Agrees-add false k m n h = omega (arith, h)

pub Agrees-pos : (exact : Bool) (m n : ℕ) → Agrees exact m n → n ≤ m
Agrees-pos true m n h = omega (arith, h)
Agrees-pos false m n h = h

-- Where nothing is in hand any more.
pub Agrees-take : (exact : Bool) (m k m' : ℕ) → Agrees exact m k → m' + k ≡ m → Agrees exact m' 0
Agrees-take true m k m' h e = omega (arith, h, e)
Agrees-take false m k m' h e = omega arith

pub Agrees-zero : (exact : Bool) (m : ℕ) → exact ≡ false → Agrees exact m 0
Agrees-zero exact m e = subst (λ b. Agrees b m 0) (sym e) (omega arith)

module _ {S : Type 0} (joint : Joint S) (m : Meter S) where
  abbrev pub queue_after : Exchanges → Jobs
  queue_after xs = m.queue (plane_after joint xs)

  -- How many jobs with an id the agent has in hand: none, or the one.
  abbrev pub has_in_hand : Phase → Text → ℕ
  has_in_hand polling id = 0
  has_in_hand (working job_id job) id = one_of id job_id
  has_in_hand (reporting job_id req) id = one_of id job_id
  has_in_hand (crashed job_id) id = one_of id job_id

  -- A job comes with a port, a report is one on the job in hand, and the agent has not crashed.
  abbrev pub IsSafe : Phase → Type 0
  IsSafe polling = Unit
  IsSafe (working job_id job) = (port : ℤ) × (job.port ≡ some port)
  IsSafe (reporting job_id req) =
      (r : Attempt (Unit {0})) × (id : Text) × (req
        ≡ report_of joint.cfg (client joint) job_id id r)
  IsSafe (crashed job_id) = ⊥

  -- What the rest of the control plane may do: whatever keeps ids distinct and leaves alone what the agent's
  -- worker holds.
  abbrev pub IsForeign : (S → S) → Type 0
  IsForeign f =
      (s : S)
      → IsKeyed (m.queue s)
      → IsKeyed (m.queue (f s))
        × ((id : Text)
            → held joint.cfg.worker_id id (m.queue (f s)) ≡ held joint.cfg.worker_id id (m.queue s))

  -- No exchange is lost, and the rest of the control plane does not make the database fail.
  abbrev pub IsSmooth : Type 0
  IsSmooth =
      ((n : ℕ) → joint.fate n ≡ delivered) × ((n : ℕ) (s : S) → IsStillCalm m s (joint.others n s))

module _ {S : Type 0} (joint : Joint S) (m : Meter S) (exact : Bool) where
  pub record IsJoined (a : Agent) : Type 0 where
    pub keyed : IsKeyed (queue_after joint m a.exchanges)
    pub agrees :
        (id : Text)
        → Agrees exact
            (held joint.cfg.worker_id id (queue_after joint m a.exchanges))
            (has_in_hand joint m a.phase id)
    pub safe : IsSafe joint m a.phase
    pub calm : exact ≡ true → m.is_calm (plane_after joint a.exchanges) ≡ true

  -- The answer to a request is heard, and the state is the one that the handler left; or it is not heard,
  -- and the request was served or was not.
  abbrev pub Heard : Request → Agent → Type 0
  Heard req a =
      ((send joint.cfg (client joint) req a).0 ≡ respond joint (made joint req a).0)
      × (plane_after joint (send joint.cfg (client joint) req a).1.exchanges ≡ (made joint req a).1)

  abbrev pub Unheard : Request → Agent → Type 0
  Unheard req a =
      (exact ≡ false)
      × (e : Text) × ((send joint.cfg (client joint) req a).0 ≡ no_response e)
      × ((plane_after joint (send joint.cfg (client joint) req a).1.exchanges
            ≡ (made joint req a).1)
          ⊎ (plane_after joint (send joint.cfg (client joint) req a).1.exchanges ≡ before joint a))

  module _ (fates : exact ≡ true → IsSmooth joint m)
      (foreign : (n : ℕ) → IsForeign joint m (joint.others n)) where
    sent_state :
        (req : Request) (a : Agent) (f : Fate)
        → joint.fate (length a.exchanges) ≡ f
        → plane_after joint (send joint.cfg (client joint) req a).1.exchanges
          ≡ (arrives joint f (made joint req a) (before joint a)).1
    unfolding send
    sent_state req a f is_f =
        plane_after-append joint a.exchanges req _
        ∙ ap (λ f'. (arrives joint f' (made joint req a) (before joint a)).1) is_f

    sent_answer :
        (req : Request) (a : Agent) (f : Fate)
        → joint.fate (length a.exchanges) ≡ f
        → (send joint.cfg (client joint) req a).0
          ≡ (arrives joint f (made joint req a) (before joint a)).0
    unfolding plane_after send client
    sent_answer req a f is_f =
        ap (λ f'. (arrives joint f' (made joint req a) (before joint a)).0) is_f

    pub sent_cases : (req : Request) (a : Agent) → Heard req a ⊎ Unheard req a
    sent_cases req a = by_fate (joint.fate (length a.exchanges)) refl
      where
        loose :
            (f : Fate) → (delivered ≡ f → ⊥) → joint.fate (length a.exchanges) ≡ f → exact ≡ false
        loose f other is_f = elim (Bool-cases exact) [
          | inl e ↦ absurd (other (sym ((fates e).0 (length a.exchanges)) ∙ is_f))
          | inr e ↦ e
        ]

        by_fate : (f : Fate) → joint.fate (length a.exchanges) ≡ f → Heard req a ⊎ Unheard req a
        by_fate delivered is_f =
            inl (sent_answer req a delivered is_f, sent_state req a delivered is_f)
        by_fate (request_lost e) is_f = inr (
          loose (request_lost e) (λ h. cc) is_f,
          e,
          sent_answer req a _ is_f,
          inr (sent_state req a _ is_f),
        )
        by_fate (answer_lost e) is_f = inr (
          loose (answer_lost e) (λ h. cc) is_f,
          e,
          sent_answer req a _ is_f,
          inl (sent_state req a _ is_f),
        )

    pub before-IsKeyed : (a : Agent) → IsJoined a → IsKeyed (m.queue (before joint a))
    before-IsKeyed a joined = (foreign _ _ joined.keyed).0

    pub before-calm : (a : Agent) → IsJoined a → exact ≡ true → m.is_calm (before joint a) ≡ true
    before-calm a joined e = (fates e).1 (length a.exchanges) _ (joined.calm e)

    pub before-Agrees :
        (a : Agent) (p : Phase)
        → a.phase ≡ p
        → IsJoined a
        → (id : Text)
        → Agrees exact
            (held joint.cfg.worker_id id (m.queue (before joint a)))
            (has_in_hand joint m p id)
    before-Agrees a p e joined id =
        subst
          (λ p'.
            Agrees exact (held joint.cfg.worker_id id (m.queue (before joint a)))
              (has_in_hand joint m p' id))
          e
          (subst (λ k. Agrees exact k (has_in_hand joint m a.phase id))
            (sym ((foreign _ _ joined.keyed).1 id)) (joined.agrees id))

    -- An agent whose phase stays, with a queue in which the jobs stay the same.
    pub stays-IsJoined :
        (a a' : Agent)
        → IsJoined a
        → a'.phase ≡ a.phase
        → queue_after joint m a'.exchanges ≡ m.queue (before joint a)
        → (exact ≡ true → m.is_calm (plane_after joint a'.exchanges) ≡ true)
        → IsJoined a'
    stays-IsJoined a a' joined e now calm = record {
      keyed = subst IsKeyed (sym now) (before-IsKeyed a joined);
      agrees = λ id.
          subst
            (λ r. Agrees exact (held joint.cfg.worker_id id r) (has_in_hand joint m a'.phase id))
            (sym now) (before-Agrees a a'.phase (sym e) joined id);
      safe = subst (IsSafe joint m) (sym e) joined.safe;
      calm = calm;
    }

    -- A request that leaves the queue alone.
    pub send-IsJoined :
        (req : Request) (a : Agent)
        → Keeps m (before joint a) (made joint req a).1
        → IsJoined a
        → IsJoined (send joint.cfg (client joint) req a).1
    unfolding send
    send-IsJoined req a same joined =
        stays-IsJoined a _ joined refl kept.0 (λ e. kept.1 (before-calm a joined e))
      where
        kept :
            Keeps m
              (before joint a)
              (plane_after joint (send joint.cfg (client joint) req a).1.exchanges)
        kept = elim (sent_cases req a) [
          | inl (answer, now) ↦ subst (Keeps m (before joint a)) (sym now) same
          | inr (_, e, answer, inl now) ↦ subst (Keeps m (before joint a)) (sym now) same
          | inr (_, e, answer, inr now) ↦ subst (Keeps m (before joint a)) (sym now) (refl, λ h. h)
        ]
