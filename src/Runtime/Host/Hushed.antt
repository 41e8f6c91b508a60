-- ===== src/Runtime/Host/Hushed.antt =====
-- Programs of the drivers that do the same whether or not a build's update function listens.
use mesh_vpn.Agent.Host.{◌>>=◌, done, failed, wrapped, Attempt, Outcome}
use mesh_vpn.Text.{Text, codes}
use mesh_vpn.Store.Errors.{Program}
use mesh_vpn.Runtime.Host.{
  Build, Environment, Host, Step, always, emit_build_section, failing, failing_with, or_section,
  returning, run_command_stream, run_or_fail, told, with_prefix, succeeding, DeployArgs,
  unless_failed,
}
use mesh_vpn.Runtime.Cloning.{
  app_path, clone_into, clone_repo, cloned, make_directory, remove_directory, apps_root,
  build_image, clone_and_check, ensure_dockerfile,
}
use mesh_vpn.Base.{
  Bool, List, Option, [], ap, false, none, refl, some, subst, true, ◌∙◌, ◌≡◌, if◌then◌else◌, ◌++◌,
}
use mesh_vpn.Agent.BuildPaths.{join}
use mesh_vpn.Domain.{StringMap}

-- A build without what its update function was sent.
abbrev pub mute : Build → Build
mute b = record b { updates = [] }

abbrev pub hush : {A : Type 0} → A × Build → A × Build
hush (a, b) = (a, mute b)

-- A program does the same as one that sends nothing.
pub record Hushed {A : Type 0} (m m' : Program Build A) : Type 0 where
  pub run_at : (b : Build) → hush (m b) ≡ m' (mute b)

infixl 5 ◌>>~◌
module _ {A B : Type 0} where
  -- `>>=` of such programs.
  pub ◌>>~◌ :
      {m m' : Step A} {f f' : A → Step B}
      → Hushed m m'
      → ((a : A) → Hushed (f a) (f' a))
      → Hushed (m >>= f) (m' >>= f')
  ◌>>~◌ {m = m} {m' = m'} {f = f} {f' = f'} hm hf = record {
    run_at = λ b. subst (Follows b (m b)) (hm.run_at b) (by_pair b (m b));
  }
    where
      Follows : Build → Attempt A × Build → Attempt A × Build → Type 0
      Follows b p q = hush (((λ _. p) >>= f) b) ≡ ((λ _. q) >>= f') (mute b)

      by_pair : (b : Build) (p : Attempt A × Build) → Follows b p (hush p)
      by_pair b (done a, b') = (hf a).run_at b'
      by_pair b (failed e, b') = refl

  -- A function of what a program returns and leaves.
  along-Hushed :
      {m m' : Program Build A}
      → (f f' : A × Build → B × Build) → Hushed m m'
      → ((p : A × Build) → hush (f p) ≡ f' (hush p))
      → Hushed (λ b. f (m b)) (λ b. f' (m' b))
  along-Hushed {m = m} f f' hm hf = record { run_at = λ b. hf (m b) ∙ ap f' (hm.run_at b) }

mute-told :
    (streams : Bool) (chunks : List Text) (b : Build) → mute (told streams chunks b) ≡ mute b
mute-told true chunks b = refl
mute-told false chunks b = refl

pub emit-Hushed :
    (streams : Bool) (title content : Text)
    → Hushed (emit_build_section streams title content) (emit_build_section false title content)
unfolding emit_build_section
emit-Hushed streams title content = record { run_at = λ b. rw (mute-told streams) refl }

failing_cases : (e : Option Text) (b : Build) → hush (failing e b) ≡ failing e (mute b)
failing_cases none b = refl
failing_cases (some e) b = refl

pub failing-Hushed : (e : Option Text) → Hushed (failing e) (failing e)
failing-Hushed e = record { run_at = failing_cases e }

pub failing_with-Hushed :
    (text : Text) (e : Option Text) → Hushed (failing_with text e) (failing_with text e)
failing_with-Hushed text none = record { run_at = λ b. refl }
failing_with-Hushed text (some e) = record { run_at = λ b. refl }

pub succeeding-Hushed : {A : Type 0} → (a : A) → Hushed (succeeding a) (succeeding a)
succeeding-Hushed a = record { run_at = λ b. refl }

module _ {A : Type 0} {m m' : Program Build A} (same : Hushed m m') where
  pub always-Hushed : Hushed (always m) (always m')
  always-Hushed = along-Hushed (λ p. (done p.0, p.1)) (λ p. (done p.0, p.1)) same (λ p. refl)

module _ {A : Type 0} {m m' : Step A} (same : Hushed m m') where
  pub or_section-Hushed :
      (streams : Bool) (title : Text)
      → Hushed (or_section streams title m) (or_section false title m')
  or_section-Hushed streams title =
      along-Hushed (λ p. or_section streams title (λ _. p) p.1)
        (λ p. or_section false title (λ _. p) p.1) same by_pair
    where
      by_pair :
          (p : Attempt A × Build)
          → hush (or_section streams title (λ _. p) p.1)
            ≡ or_section false title (λ _. hush p) (mute p.1)
      by_pair (done a, b) = refl
      by_pair (failed e, b) = ap (λ q. (failed e, q.1)) ((emit-Hushed streams title e).run_at b)

  pub wrapped-Hushed : (text : Text) → Hushed (wrapped text m) (wrapped text m')
  wrapped-Hushed text =
      along-Hushed (λ p. wrapped text (λ _. p) p.1) (λ p. wrapped text (λ _. p) p.1) same by_pair
    where
      by_pair :
          (p : Attempt A × Build)
          → hush (wrapped text (λ _. p) p.1) ≡ wrapped text (λ _. hush p) (mute p.1)
      by_pair (done a, b) = refl
      by_pair (failed e, b) = refl

module _ {m m' : Program Build Outcome} (same : Hushed m m') where
  pub with_prefix-Hushed : (text : Text) → Hushed (with_prefix text m) (with_prefix text m')
  with_prefix-Hushed text =
      along-Hushed (λ p. with_prefix text (λ _. p) p.1) (λ p. with_prefix text (λ _. p) p.1) same
        (λ p. refl)

  returning-Hushed : Hushed (λ b. returning (m b).0 (m b).1) (λ b. returning (m' b).0 (m' b).1)
  returning-Hushed =
      along-Hushed (λ p. returning p.0 p.1) (λ p. returning p.0 p.1) same
        (λ p. failing_cases p.0.error p.1)

-- What runs only where a command fails.
pub unless-Hushed :
    {m m' : Program Build Outcome}
    → {k k' : Step (Unit {0})} → Hushed m m'
    → Hushed k k'
    → Hushed (λ b. unless_failed (m b) k) (λ b. unless_failed (m' b) k')
unless-Hushed {k = k} {k' = k'} hm hk =
    along-Hushed (λ p. unless_failed p k) (λ p. unless_failed p k') hm
      (λ p. by_error p.0 p.0.error p.1)
  where
    by_error :
        (out : Outcome) (e : Option Text) (b : Build)
        → hush (unless_failed (record out { error = e }, b) k)
          ≡ unless_failed (record out { error = e }, mute b) k'
    by_error out none b = refl
    by_error out (some e) b = hk.run_at b

module _ (host : Host) (env : Environment) where
  pub run_command_stream-Hushed :
      (streams : Bool) (input name : Text) (args : List Text)
      → Hushed
          (run_command_stream host env streams input name args)
          (run_command_stream host env false input name args)
  unfolding run_command_stream
  run_command_stream-Hushed true input name args = record { run_at = λ b. refl }
  run_command_stream-Hushed false input name args = record { run_at = λ b. refl }

  pub run_or_fail-Hushed :
      (streams : Bool) (input name : Text) (args : List Text)
      → Hushed
          (run_or_fail host env streams input name args)
          (run_or_fail host env false input name args)
  run_or_fail-Hushed streams input name args =
      returning-Hushed (run_command_stream-Hushed streams input name args)

  make_directory-Hushed :
      (path : Text) → Hushed (make_directory host env path) (make_directory host env path)
  make_directory-Hushed path = record {
    run_at = λ b. failing_cases (host.cannot_make b.history path) _;
  }

  remove_directory-Hushed :
      (path : Text) → Hushed (remove_directory host env path) (remove_directory host env path)
  remove_directory-Hushed path = record {
    run_at = λ b. failing_cases (host.cannot_remove b.history path) _;
  }

  apps_root-Hushed : Hushed (apps_root host env) (apps_root host env)
  apps_root-Hushed = record { run_at = λ b. refl }

  app_path-Hushed : (id : Text) → Hushed (app_path host env id) (app_path host env id)
  unfolding app_path
  app_path-Hushed id =
      wrapped-Hushed apps_root-Hushed (codes "resolve apps directory: ") >>~ λ root.
      wrapped-Hushed (make_directory-Hushed root) (codes "create apps directory: ") >>~ λ _.
      wrapped-Hushed (remove_directory-Hushed (join root id)) (codes "reset app directory: ")
      >>~ λ _. succeeding-Hushed (join root id)

  clone_repo-Hushed :
      (repo id : Text) → Hushed (clone_repo host env repo id) (clone_repo host env repo id)
  unfolding clone_repo
  clone_repo-Hushed repo id =
      along-Hushed (λ p. clone_into host env repo p.0 p.1) (λ p. clone_into host env repo p.0 p.1)
        (app_path-Hushed id) by_pair
    where
      by_pair :
          (p : Attempt Text × Build)
          → hush (clone_into host env repo p.0 p.1) ≡ clone_into host env repo p.0 (mute p.1)
      by_pair (done path, b) =
          ap (λ p. (cloned path p.0, p.1))
            ((run_command_stream-Hushed false [] (codes "git") _).run_at b)
      by_pair (failed e, b) = refl

  dockerfile-Hushed :
      (path : Text) → Hushed (ensure_dockerfile host env path) (ensure_dockerfile host env path)
  unfolding ensure_dockerfile
  dockerfile-Hushed path = record { run_at = λ b. if_cases (host.exists b.history _) _ b }
    where
      if_cases :
          (found : Bool) (e : Text) (b : Build)
          → hush (if found then (done (tt {0}), b) else (failed e, b))
            ≡ (if found then (done tt, mute b) else (failed e, mute b))
      if_cases true e b = refl
      if_cases false e b = refl

  pub clone_and_check-Hushed :
      (streams : Bool) (args : DeployArgs)
      → Hushed (clone_and_check host env streams args) (clone_and_check host env false args)
  unfolding clone_and_check
  clone_and_check-Hushed streams args =
      emit-Hushed streams (codes "clone") (codes "repo=" ++ args.repo) >>~ λ _.
      always-Hushed (clone_repo-Hushed args.repo args.id) >>~ λ clone.
      emit-Hushed streams (codes "clone output") clone.output >>~ λ _.
      failing-Hushed clone.error >>~ λ _.
      or_section-Hushed (dockerfile-Hushed clone.path) streams (codes "dockerfile check") >>~ λ _.
      succeeding-Hushed clone.path

  pub build_image-Hushed :
      (streams : Bool) (image path : Text) (build_args : StringMap)
      → Hushed
          (build_image host env streams image path build_args)
          (build_image host env false image path build_args)
  unfolding build_image
  build_image-Hushed streams image path build_args =
      with_prefix-Hushed (run_command_stream-Hushed streams [] (codes "docker") _)
        (codes "build image: ")
