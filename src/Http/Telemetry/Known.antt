-- ===== src/Http/Telemetry/Known.antt =====
-- A request is recorded only for a deployment that the store has.
use mesh_vpn.Text.{Text, text_eq, is_empty, trim_space}
use mesh_vpn.Http.Telemetry.Resolver.{
  CacheEntry, ResolveCache, entry_of, max_cache_entries, set_cached_deployment_id, without_entry,
  TelemetryState, after_get, resolve_cache_ttl, resolve_negative_ttl, unknown, after_cache,
  after_resolve, look_up, get_cached_deployment_id, resolve_telemetry_deployment_id,
}
use mesh_vpn.Base.{
  All, Bool-cases, [], arith, inl, inr, leb, length, some, subst, ℕ, ◌+◌, ◌∷◌, ◌≡◌, Option, false,
  keep-All, not, refl, ap, none, sym, if◌then◌else◌, ltb,
}
use mesh_vpn.Domain.{DeploymentRecord}
use mesh_vpn.Store.Repositories.{DeploymentRepository, JobRepository}
use mesh_vpn.Store.Errors.{Result, err, ok}
use mesh_vpn.Store.Repositories.Laws.{DeploymentLaws}
use mesh_vpn.Service.Deployments.{get_deployment, resolve_deployment_id}
use mesh_vpn.Service.Deployments.Reads.{resolve_deployment_id-keeps}

module _ (Q : CacheEntry → Type 0) where
  abbrev Entries : ResolveCache → Type 0
  Entries = All (λ e. Q e.1)

  entry_of-Entries :
      (identifier : Text) (entry : CacheEntry) (cache : ResolveCache)
      → Entries cache
      → entry_of identifier cache ≡ some entry
      → Q entry
  unfolding entry_of
  entry_of-Entries identifier entry [] h e = absurd (ground arith)
  entry_of-Entries identifier entry ((key, front) ∷ cache) h e =
      elim (Bool-cases (text_eq key identifier)) [
        | inl same ↦ (let found : front ≡ entry = ground (arith, e, same) in subst Q found h.0)
        | inr other ↦ entry_of-Entries identifier entry cache h.1 (ground (arith, e, other))
      ]

  without_entry-Entries :
      (identifier : Text) (cache : ResolveCache)
      → Entries cache
      → Entries (without_entry identifier cache)
  unfolding without_entry
  without_entry-Entries identifier cache h =
      keep-All (λ e. not (text_eq e.0 identifier)) (λ e. Q e.1) cache h

  set-Entries :
      (now : ℕ) (identifier id : Text) (ttl : ℕ) (cache : ResolveCache)
      → Q (record { deployment_id = id; expires_at = now + ttl })
      → Entries cache
      → Entries (set_cached_deployment_id now identifier id ttl cache)
  unfolding set_cached_deployment_id
  set-Entries now identifier id ttl cache new h = (
    new,
    without_entry-Entries identifier _ (elim (Bool-cases (leb max_cache_entries (length cache))) [
      | inl full ↦ rw full tt
      | inr room ↦ rw room h
    ]),
  )

-- The store has a record for an id.
abbrev pub IsKnown : {S : Type 0} → DeploymentRepository S → Text → S → Type 0
IsKnown repo id s = (rec : DeploymentRecord) × ((get_deployment repo id s).0 ≡ ok rec)

module _ {S : Type 0} (repo : DeploymentRepository S) (jobs : JobRepository S)
    (laws : DeploymentLaws repo jobs) (now : ℕ) where
  abbrev Backed : S → CacheEntry → Type 0
  Backed s entry = is_empty entry.deployment_id ≡ false → IsKnown repo entry.deployment_id s

  -- What the cache says that it has is in the store.
  abbrev pub IsBacked : S → ResolveCache → Type 0
  IsBacked s = Entries (Backed s)

  -- The store is as before, the cache is backed by it, and an answer is known to it.
  pub record Resolved (s : S) (r : Option Text) (st : TelemetryState S) : Type 0 where
    pub kept : st.store ≡ s
    pub backed : IsBacked s st.cache
    pub known : (id : Text) → r ≡ some id → IsKnown repo id s

  unknown-Resolved :
      (identifier : Text) (s : S) (cache : ResolveCache)
      → IsBacked s cache
      → let (r, st) = unknown (some repo) now identifier (record { store = s; cache = cache }) in
        Resolved s r st
  unfolding is_empty
  unknown-Resolved identifier s cache h = record {
    kept = refl;
    backed =
        set-Entries (Backed s) now identifier [] resolve_negative_ttl cache
          (λ e. absurd (ground arith)) h;
    known = λ id e. absurd (ground arith);
  }

  after_get-Resolved :
      (identifier id : Text) (r : Result DeploymentRecord) (s : S) (cache : ResolveCache)
      → (get_deployment repo id s).0 ≡ r
      → IsBacked s cache
      → let (answer, st) =
          after_get (some repo) now identifier id r (record { store = s; cache = cache }) in
        Resolved s answer st
  after_get-Resolved identifier id (err e) s cache eq h = unknown-Resolved identifier s cache h
  after_get-Resolved identifier id (ok rec) s cache eq h = record {
    kept = refl;
    backed =
        set-Entries (Backed s) now id id resolve_cache_ttl _ (λ _. (rec, eq))
          (set-Entries (Backed s) now identifier id resolve_cache_ttl cache (λ _. (rec, eq)) h);
    known =
        λ id' e. (rec, subst (λ t. (get_deployment repo t s).0 ≡ ok rec) (ground (arith, e)) eq);
  }

  after_resolve-Resolved :
      (identifier id : Text) (s : S) (cache : ResolveCache)
      → IsBacked s cache
      → let (answer, st) =
          after_resolve (some repo) now repo identifier id (record { store = s; cache = cache }) in
        Resolved s answer st
  unfolding get_deployment
  after_resolve-Resolved identifier id s cache h = elim (Bool-cases (is_empty id)) [
    | inl e ↦ rw e (unknown-Resolved identifier s cache h)
    | inr e ↦ rw e (
        subst
          (λ t.
            let (answer, st) =
              after_get (some repo) now identifier id (get_deployment repo id s).0
                (record { store = t; cache = cache }) in
            Resolved s answer st)
          (sym (ap (λ p. p.1) (laws.get_view (trim_space id) s)))
          (after_get-Resolved identifier id _ s cache refl h))
  ]

  look_up-Resolved :
      (identifier : Text) (s : S) (cache : ResolveCache)
      → IsBacked s cache
      → let (answer, st) =
          look_up (some repo) now (some repo) identifier (record { store = s; cache = cache }) in
        Resolved s answer st
  unfolding look_up
  look_up-Resolved identifier s cache h =
      subst
        (λ t.
          let (answer, st) =
            after_resolve (some repo) now repo identifier
              (trim_space (resolve_deployment_id repo identifier s).0)
              (record { store = t; cache = cache }) in
          Resolved s answer st)
        (sym (resolve_deployment_id-keeps repo jobs laws identifier s))
        (after_resolve-Resolved identifier _ s cache h)

  after_cache-Resolved :
      (identifier : Text) (hit : Option Text) (s : S) (cache : ResolveCache)
      → IsBacked s cache
      → ((id : Text) → hit ≡ some id → is_empty id ≡ false → IsKnown repo id s)
      → let (answer, st) =
          after_cache (some repo) now identifier hit (record { store = s; cache = cache }) in
        Resolved s answer st
  after_cache-Resolved identifier none s cache h known = look_up-Resolved identifier s cache h
  after_cache-Resolved identifier (some id) s cache h known = record {
    kept = refl;
    backed = h;
    known = λ id' e. known id' (ground (arith, e)) (ground (arith, e));
  }

  hit-Known :
      (identifier : Text) (s : S) (cache : ResolveCache)
      → IsBacked s cache
      → let (hit, left) = get_cached_deployment_id now identifier cache in
        IsBacked s left × ((id : Text) → hit ≡ some id → is_empty id ≡ false → IsKnown repo id s)
  unfolding get_cached_deployment_id
  hit-Known identifier s cache h = by_entry (entry_of identifier cache) refl
    where
      Answer : Option CacheEntry → Option Text × ResolveCache
      Answer none = (none, cache)
      Answer (some entry) =
          if ltb entry.expires_at now
          then (none, without_entry identifier cache)
          else (some entry.deployment_id, cache)

      by_entry :
          (found : Option CacheEntry)
          → entry_of identifier cache ≡ found
          → IsBacked s (Answer found).1
            × ((id : Text) → (Answer found).0 ≡ some id → is_empty id ≡ false → IsKnown repo id s)
      by_entry none e = (h, λ id eq. absurd (ground arith))
      by_entry (some entry) e = elim (Bool-cases (ltb entry.expires_at now)) [
        | inl old ↦
            rw old
              (without_entry-Entries (Backed s) identifier cache h, λ id eq. absurd (ground arith))
        | inr fresh ↦ rw fresh (
          h,
          λ id eq full.
              let same : entry.deployment_id ≡ id = ground (arith, eq) in
              subst (λ t. IsKnown repo t s) same
                (entry_of-Entries (Backed s) identifier entry cache h e
                  (subst (λ t. is_empty t ≡ false) (sym same) full)),
        )
      ]

  -- A name is resolved to a deployment that the store has, or to none; the store is only read, and the
  -- cache stays backed by it.
  pub resolve-Resolved :
      (identifier : Text) (s : S) (cache : ResolveCache)
      → IsBacked s cache
      → let (answer, st) =
          resolve_telemetry_deployment_id
            (some repo)
            now
            identifier
            (record { store = s; cache = cache }) in
        Resolved s answer st
  unfolding resolve_telemetry_deployment_id
  resolve-Resolved identifier s cache h = elim (Bool-cases (is_empty (trim_space identifier))) [
    | inl e ↦ rw e (record { kept = refl; backed = h; known = λ id eq. absurd (ground arith) })
    | inr e ↦
        let (left, known) = hit-Known (trim_space identifier) s cache h in
        rw e (after_cache-Resolved (trim_space identifier) _ s _ left known)
  ]
