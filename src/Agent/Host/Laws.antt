-- ===== src/Agent/Host/Laws.antt =====
-- What a task does, by the case of its first part, and how it extends the history.
use mesh_vpn.Agent.Host.{◌>>=◌, done, failed, Attempt, Event, History, Task, wrapped}
use mesh_vpn.Text.{Text}
use mesh_vpn.Base.{All, All-append, [], append-nil, append_assoc, refl, sym, ◌++◌, ◌∙◌, ◌≡◌}

module _ {A B : Type 0} (P : Attempt B → History → Type 0) where
  -- A property of `m >>= f` is one of `f`'s run where `m` succeeds, and of `m`'s error where not.
  pub bind_cases :
      (m : Task A) (f : A → Task B) (h : History)
      → ((a : A) → (m h).0 ≡ done a → P (f a (m h).1).0 (f a (m h).1).1)
      → ((e : Text) → (m h).0 ≡ failed e → P (failed e) (m h).1)
      → P ((m >>= f) h).0 ((m >>= f) h).1
  bind_cases m f h on_done on_failed = by_result (m h).0 refl
    where
      by_result : (r : Attempt A) → (m h).0 ≡ r → P ((m >>= f) h).0 ((m >>= f) h).1
      by_result (done a) e = rw (e, ◌>>=◌) (on_done a e)
      by_result (failed t) e = rw (e, ◌>>=◌) (on_failed t e)

module _ {A : Type 0} (P : Attempt A → History → Type 0) where
  pub wrapped_cases :
      (text : Text) (m : Task A) (h : History)
      → ((a : A) → (m h).0 ≡ done a → P (done a) (m h).1)
      → ((e : Text) → (m h).0 ≡ failed e → P (failed (text ++ e)) (m h).1)
      → P (wrapped text m h).0 (wrapped text m h).1
  wrapped_cases text m h on_done on_failed = by_result (m h).0 refl
    where
      by_result : (r : Attempt A) → (m h).0 ≡ r → P (wrapped text m h).0 (wrapped text m h).1
      by_result (done a) e = rw (e, wrapped) (on_done a e)
      by_result (failed t) e = rw (e, wrapped) (on_failed t e)

-- The history has grown by events that have a property.
pub record Extends (P : Event → Type 0) (h h' : History) : Type 0 where
  pub new : History
  pub made : h' ≡ h ++ new
  pub all : All P new

module _ (P : Event → Type 0) where
  pub Extends-none : (h : History) → Extends P h h
  Extends-none h = record { new = []; made = sym (append-nil h); all = tt }

  pub Extends-trans : {h h' h'' : History} → Extends P h h' → Extends P h' h'' → Extends P h h''
  Extends-trans x y = record {
    new = x.new ++ y.new;
    made = y.made ∙ simp (x.made, append_assoc);
    all = All-append P x.new y.new x.all y.all;
  }

module _ {A B : Type 0} (P : Attempt B → History → Type 0) where
  pub wrapped_bind_cases :
      (text : Text) (m : Task A) (f : A → Task B) (h : History)
      → ((a : A) → (m h).0 ≡ done a → P (f a (m h).1).0 (f a (m h).1).1)
      → ((e : Text) → (m h).0 ≡ failed e → P (failed (text ++ e)) (m h).1)
      → P ((wrapped text m >>= f) h).0 ((wrapped text m >>= f) h).1
  wrapped_bind_cases text m f h = by_pair (m h)
    where
      by_pair :
          (p : Attempt A × History)
          → ((a : A) → p.0 ≡ done a → P (f a p.1).0 (f a p.1).1)
          → ((e : Text) → p.0 ≡ failed e → P (failed (text ++ e)) p.1)
          → P ((wrapped text (λ _. p) >>= f) h).0 ((wrapped text (λ _. p) >>= f) h).1
      by_pair (done a, h') on_done on_failed = on_done a refl
      by_pair (failed t, h') on_done on_failed = on_failed t refl
