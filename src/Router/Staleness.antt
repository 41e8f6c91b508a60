-- ===== src/Router/Staleness.antt =====
-- How old an answer of the router in tools/mesh-router/main.go can be.
use mathlib.Core.List.{Memᴰ}
use mesh_vpn.Text.{Text, text_eq}
use mesh_vpn.Router.{
  CacheEntry, Request, RouterCache, entry_of, put, query, cache_after, cache_get, cache_set, fill,
  get_worker_ip, if_fresh, or_fill,
}
use mesh_vpn.Base.{
  All, Bool-cases, List, [], arith, inl, inr, some, subst, sym, ℕ, ◌+◌, ◌∷◌, ◌≡◌, ◌≤◌, Option,
  Option-cases, none, refl, ◌∙◌, ap,
}
use mesh_vpn.Text.Laws.{text_eq_iff}

-- A request of the history asked for the same name, was given this address by the database, and lies
-- back no longer than the lifetime of an entry.
pub record IsRecent (ttl now : ℕ) (subdomain ip : Text) (history : List Request) : Type 0 where
  pub source : Request
  pub known : Memᴰ source history
  pub same_name : source.subdomain ≡ subdomain
  pub answered : query source ≡ some ip
  pub in_time : now ≤ source.at + ttl

-- Every entry was put there by a request of the history.
record IsBacked (ttl : ℕ) (history : List Request) (subdomain : Text) (entry : CacheEntry)
    : Type 0 where
  source : Request
  known : Memᴰ source history
  same_name : source.subdomain ≡ subdomain
  answered : query source ≡ some entry.tailscale_ip
  expiry : entry.expires_at ≡ source.at + ttl

abbrev AllBacked : ℕ → List Request → RouterCache → Type 0
AllBacked ttl history = All (λ (key, entry). IsBacked ttl history key entry)

IsBacked-later :
    (ttl : ℕ) (q : Request) (history : List Request) (key : Text) (entry : CacheEntry)
    → IsBacked ttl history key entry
    → IsBacked ttl (q ∷ history) key entry
IsBacked-later ttl q history key entry b = record {
  source = b.source;
  known = Memᴰ.tail b.known;
  same_name = b.same_name;
  answered = b.answered;
  expiry = b.expiry;
}

AllBacked-later :
    (ttl : ℕ) (q : Request) (history : List Request) (items : RouterCache)
    → AllBacked ttl history items
    → AllBacked ttl (q ∷ history) items
AllBacked-later ttl q history [] b = tt
AllBacked-later ttl q history ((key, entry) ∷ items) b =
    (IsBacked-later ttl q history key entry b.0, AllBacked-later ttl q history items b.1)

put-AllBacked :
    (ttl : ℕ) (history : List Request) (subdomain : Text) (entry : CacheEntry) (items : RouterCache)
    → IsBacked ttl history subdomain entry
    → AllBacked ttl history items
    → AllBacked ttl history (put subdomain entry items)
unfolding put
put-AllBacked ttl history subdomain entry [] e b = (e, tt)
put-AllBacked ttl history subdomain entry ((key, old) ∷ items) e b =
    elim (Bool-cases (text_eq key subdomain)) [
      | inl f ↦
          rw f (
            subst (λ k. IsBacked ttl history k entry) (sym ((text_eq_iff key subdomain).0 f)) e,
            b.1,
          )
      | inr f ↦ rw f (b.0, put-AllBacked ttl history subdomain entry items e b.1)
    ]

entry_of-IsBacked :
    (ttl : ℕ) (history : List Request) (subdomain : Text) (entry : CacheEntry) (items : RouterCache)
    → AllBacked ttl history items
    → entry_of subdomain items ≡ some entry
    → IsBacked ttl history subdomain entry
unfolding entry_of
entry_of-IsBacked ttl history subdomain entry [] b h = ground arith
entry_of-IsBacked ttl history subdomain entry ((key, old) ∷ items) b h =
    elim (Bool-cases (text_eq key subdomain)) [
      | inl f ↦
          subst (IsBacked ttl history subdomain) (let g = h in ground arith)
            (subst (λ k. IsBacked ttl history k old) ((text_eq_iff key subdomain).0 f) b.0)
      | inr f ↦ entry_of-IsBacked ttl history subdomain entry items b.1 (ground arith)
    ]

-- The entry that gives an address is there, and has not expired.
if_fresh-some :
    (now : ℕ) (ip : Text) (found : Option CacheEntry)
    → if_fresh now found ≡ some ip
    → (entry : CacheEntry) × (found ≡ some entry)
      × (entry.tailscale_ip ≡ ip)
      × (now ≤ entry.expires_at)
if_fresh-some now ip none h = ground arith
if_fresh-some now ip (some entry) h = (entry, refl, ground arith, ground arith)

fresh_entry :
    (ttl : ℕ) (q : Request) (history : List Request) (subdomain : Text) (ip : Text)
    → query q ≡ some ip
    → IsBacked ttl (q ∷ history) q.subdomain (record { tailscale_ip = ip; expires_at = q.at + ttl })
fresh_entry ttl q history subdomain ip e = record {
  source = q;
  known = Memᴰ.head refl;
  same_name = refl;
  answered = e;
  expiry = refl;
}

fill-AllBacked :
    (ttl : ℕ) (q : Request) (history : List Request) (items : RouterCache)
    → AllBacked ttl history items
    → AllBacked ttl (q ∷ history) (fill ttl q (query q) items).1
unfolding cache_set
fill-AllBacked ttl q history items b = elim (Option-cases (query q)) [
  | inl e ↦ rw e (AllBacked-later ttl q history items b)
  | inr (ip, e) ↦ rw e (
      put-AllBacked ttl (q ∷ history) q.subdomain
        (record { tailscale_ip = ip; expires_at = q.at + ttl }) items
        (fresh_entry ttl q history q.subdomain ip e) (AllBacked-later ttl q history items b))
]

or_fill-AllBacked :
    (ttl : ℕ) (q : Request) (history : List Request) (found : Option Text) (items : RouterCache)
    → AllBacked ttl history items
    → AllBacked ttl (q ∷ history) (or_fill ttl q found items).1
or_fill-AllBacked ttl q history none items b = fill-AllBacked ttl q history items b
or_fill-AllBacked ttl q history (some ip) items b = AllBacked-later ttl q history items b

cache_after-AllBacked :
    (ttl : ℕ) (history : List Request) → AllBacked ttl history (cache_after ttl history)
unfolding cache_after get_worker_ip
cache_after-AllBacked ttl [] = tt
cache_after-AllBacked ttl (q ∷ history) =
    or_fill-AllBacked ttl q history _ (cache_after ttl history) (cache_after-AllBacked ttl history)

fill-answer :
    (ttl : ℕ) (q : Request) (found : Option Text) (items : RouterCache)
    → (fill ttl q found items).0 ≡ found
fill-answer ttl q none items = refl
fill-answer ttl q (some ip) items = refl

-- Whatever requests came before, an address that the router gives for a name is one that the database
-- gave for that name at this request or at an earlier one, no longer ago than the lifetime of an
-- entry.
pub get_worker_ip-IsRecent :
    (ttl : ℕ) (history : List Request) (q : Request) (ip : Text)
    → (get_worker_ip ttl q (cache_after ttl history)).0 ≡ some ip
    → IsRecent ttl q.at q.subdomain ip (q ∷ history)
unfolding get_worker_ip cache_get
get_worker_ip-IsRecent ttl history q ip h =
    elim (Option-cases (cache_get q.at q.subdomain (cache_after ttl history))) [
      | inl e ↦ record {
        source = q;
        known = Memᴰ.head refl;
        same_name = refl;
        answered =
            sym (fill-answer ttl q (query q) _)
            ∙ subst (λ o. (or_fill ttl q o (cache_after ttl history)).0 ≡ some ip) e h;
        in_time = omega arith;
      }
      | inr (found, e) ↦
          let (entry, f, g, k) = if_fresh-some q.at found _ e in
          let b =
            entry_of-IsBacked ttl history q.subdomain entry _ (cache_after-AllBacked ttl history)
              f in
          record {
            source = b.source;
            known = Memᴰ.tail b.known;
            same_name = b.same_name;
            answered =
                b.answered
                ∙ ap some g
                ∙ subst (λ o. (or_fill ttl q o (cache_after ttl history)).0 ≡ some ip) e h;
            in_time = let x = b.expiry in omega arith;
          }
    ]
