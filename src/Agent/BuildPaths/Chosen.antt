-- ===== src/Agent/BuildPaths/Chosen.antt =====
-- Which Dockerfile `resolveBuildPaths` of worker-agent/internal/executor/executor.go chooses.
use mesh_vpn.Text.{Text, text_eq}
use mesh_vpn.Text.Laws.{text_eq_iff}
use mesh_vpn.Agent.BuildPaths.{
  candidates, candidates_in, dockerfile, is_skipped, join, name_of, BuildPaths, choose, dir_of,
  found_below, resolve_build_paths,
}
use mesh_vpn.Agent.Host.{Entries, Entry, cons, file, folder, nil, Attempt, done, failed}
use mesh_vpn.Base.{
  List, [], arith, false, inl, inr, ◌++◌, ◌↔◌, ◌∷◌, ◌≡◌, ◌⊎◌, Bool, Option, length, none, refl,
  some, subst, sym, true, ◌≤◌,
}

-- A file named Dockerfile stands at a path below an entry, under no directory that is skipped.
unfoldable mutual
  unfolding is_skipped text_eq

  pub IsFound : Text → Text → Entry → Type 0
  IsFound q path (file name) = (name ≡ dockerfile) × (q ≡ path)
  IsFound q path (folder name entries) = (is_skipped name ≡ false) × IsFoundIn q path entries

  pub IsFoundIn : Text → Text → Entries → Type 0
  IsFoundIn q dir nil = ⊥
  IsFoundIn q dir (cons e es) = IsFound q (join dir (name_of e)) e ⊎ IsFoundIn q dir es

abbrev IsListed : Text → List Text → Type 0
IsListed q [] = ⊥
IsListed q (x ∷ xs) = (q ≡ x) ⊎ IsListed q xs

IsListed-append :
    (q : Text) (xs ys : List Text) → IsListed q (xs ++ ys) ↔ (IsListed q xs ⊎ IsListed q ys)
IsListed-append q [] ys = (inr, λ h. elim h [ inl x ↦ absurd x | inr y ↦ y ])
IsListed-append q (x ∷ xs) ys = (
  λ h. elim h [
    | inl e ↦ inl (inl e)
    | inr r ↦ elim ((IsListed-append q xs ys).0 r) [ inl a ↦ inl (inr a) | inr b ↦ inr b ]
  ],
  λ h. elim h [
    | inl a ↦ elim a [ inl e ↦ inl e | inr r ↦ inr ((IsListed-append q xs ys).1 (inl r)) ]
    | inr b ↦ inr ((IsListed-append q xs ys).1 (inr b))
  ],
)

mutual
  unfolding candidates candidates_in IsFound IsFoundIn

  candidates-IsFound :
      (q path : Text) (e : Entry) → IsListed q (candidates path e) ↔ IsFound q path e
  candidates-IsFound q path (file name) = ground (arith, text_eq_iff name dockerfile)
  candidates-IsFound q path (folder name entries) =
      ground (arith, candidates_in-IsFoundIn q path entries)

  candidates_in-IsFoundIn :
      (q dir : Text) (es : Entries) → IsListed q (candidates_in dir es) ↔ IsFoundIn q dir es
  candidates_in-IsFoundIn q dir nil = (λ h. h, λ h. h)
  candidates_in-IsFoundIn q dir (cons e es) =
      let found = candidates-IsFound q (join dir (name_of e)) e in
      let later = candidates_in-IsFoundIn q dir es in
      let both = IsListed-append q (candidates (join dir (name_of e)) e) (candidates_in dir es) in
      (
        λ h. elim (both.0 h) [ inl a ↦ inl (found.0 a) | inr b ↦ inr (later.0 b) ],
        λ h. both.1 (elim h [ inl a ↦ inl (found.1 a) | inr b ↦ inr (later.1 b) ]),
      )

-- A Dockerfile that is to be built, and no other, or the reason why there is none.
abbrev pub Chooses : Text → Bool → Option Entry → Attempt BuildPaths → Type 0
Chooses root at_root tree (done paths) =
    ((at_root ≡ true) × (paths.dockerfile_path ≡ join root dockerfile) × (paths.context ≡ root))
    ⊎ ((e : Entry) × (tree ≡ some e)
        × (at_root ≡ false)
        × IsFound paths.dockerfile_path root e
        × ((q : Text) → IsFound q root e → q ≡ paths.dockerfile_path)
        × (paths.context ≡ dir_of paths.dockerfile_path))
Chooses root at_root tree (failed text) =
    (at_root ≡ false)
    × (((e : Entry) → tree ≡ some e → (q : Text) → ¬ IsFound q root e)
        ⊎ (2 ≤ length (found_below root tree)))

choose-Chooses :
    (root : Text) (e : Entry) (found : List Text)
    → candidates root e ≡ found
    → Chooses root false (some e) (choose root found)
unfolding choose
choose-Chooses root e [] h = (refl, inl none_found)
  where
    none_found : (f : Entry) → some e ≡ some f → (q : Text) → ¬ IsFound q root f
    none_found f same q at =
        let at_e : IsFound q root e = subst (IsFound q root) (ground arith) at in
        subst (IsListed q) h ((candidates-IsFound q root e).1 at_e)
choose-Chooses root e (p ∷ []) h = inr (
  e,
  refl,
  refl,
  (candidates-IsFound p root e).0 (subst (IsListed p) (sym h) (inl refl)),
  (λ q at. elim (subst (IsListed q) h ((candidates-IsFound q root e).1 at)) [
    | inl same ↦ same
    | inr other ↦ absurd other
  ]),
  refl,
)
choose-Chooses root e (p ∷ q ∷ ps) h = (refl, inr (rw h (omega arith)))

-- The Dockerfile of the root is chosen, with the root as its context, where there is one. Where there
-- is none, a Dockerfile that is chosen is the only one found under no skipped directory, and its
-- context is its path without its name; and an error means that none is found there, or more than one.
pub resolve_build_paths-Chooses :
    (root : Text) (at_root : Bool) (tree : Option Entry)
    → Chooses root at_root tree (resolve_build_paths root at_root tree)
unfolding resolve_build_paths
resolve_build_paths-Chooses root true tree = inl (refl, refl, refl)
resolve_build_paths-Chooses root false none = (refl, inl (λ e h. cc))
resolve_build_paths-Chooses root false (some e) = choose-Chooses root e (candidates root e) refl
