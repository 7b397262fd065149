-- ===== src/DomainResolution/Registry.antt =====
-- The calls of Resolver that register domains and keep the cache
-- (src/domain_resolution/resolver.go).
use web5_mesh.Base.{
  ℕ, ◌+◌, not, ◌⊎◌, inl, inr, Option, none, some, List, [], ◌∷◌, if◌then◌else◌, length,
}
use web5_mesh.Base.Classes.{Text, Text_eq}
use web5_mesh.Base.Int.{ℤ, pos, ◌+ℤ◌, ltb_ℤ}
use web5_mesh.Base.Bytes.{codes}
use web5_mesh.DomainResolution.{
  Dht, DomainRecord, CacheEntry, ResolveError, invalid_domain, not_stored, Resolver, normalize,
  is_mesh, seconds, serialize_record, domain_to_key, delete_entry, resolve,
}

module _ (D : Dht) (sha256 : Text → Text) (print_int : ℤ → Text) (scan_int : Text → Option ℤ) where
  abbrev pub State : Type 0
  State = Resolver D sha256 print_int scan_int

  abbrev pub Failure : Type 0
  Failure = ResolveError (Dht.Error D)

  -- The record that Register stores.
  unfoldable pub new_record : (ℕ → ℤ) → Text → Text → ℤ → DomainRecord
  unfolding seconds
  new_record clock domain did ttl = record {
    domain = domain;
    did = did;
    public_key = [];
    ip = [];
    port = pos 0;
    ttl = ttl;
    registered_at = clock 0;
    expires_at = clock 1 +ℤ seconds ttl;
    signature = [];
  }

  -- StoreValue, with the error that the caller makes of its error.
  unfoldable pub store : State → Text → Text → State × Option Failure
  store r key value =
      let stored = D.store_value key value r.dht in
      (record r { dht = stored.0 }, elim stored.1 [ none ↦ none | some e ↦ some (not_stored e) ])

  unfoldable pub register : (ℕ → ℤ) → State → Text → Text → ℤ → State × Option Failure
  unfolding normalize is_mesh new_record serialize_record domain_to_key store
  register clock r domain did ttl =
      let name = normalize domain in
      let rec = new_record clock name did ttl in
      if not (is_mesh name)
      then (r, some (invalid_domain name))
      else store r (domain_to_key D sha256 print_int scan_int name)
          (serialize_record D sha256 print_int scan_int rec)

  -- Unregister stores the empty value, and forgets the domain if that succeeds. It does not ask
  -- whether the domain ends in .mesh.
  unfoldable pub unregister : State → Text → State × Option Failure
  unfolding normalize domain_to_key store delete_entry
  unregister r domain =
      let name = normalize domain in
      let stored = store r (domain_to_key D sha256 print_int scan_int name) [] in
      elim stored.1 [
        | some e ↦ (stored.0, some e)
        | none ↦ (delete_entry D sha256 print_int scan_int stored.0 name, none)
      ]

  unfoldable pub resolve_did : (ℕ → ℤ) → State → Text → State × (Failure ⊎ Text)
  unfolding resolve
  resolve_did clock r domain =
      let answer = resolve D sha256 print_int scan_int clock r domain in
      (answer.0, elim answer.1 [ inl e ↦ inl e | inr rec ↦ inr rec.did ])

  -- RefreshCache deletes the domain as it is spelled, before Resolve brings it into normal form.
  unfoldable pub refresh_cache : (ℕ → ℤ) → State → Text → State × Option Failure
  unfolding delete_entry resolve
  refresh_cache clock r domain =
      let answer =
        resolve D sha256 print_int scan_int clock
          (delete_entry D sha256 print_int scan_int r domain) domain in
      (answer.0, elim answer.1 [ inl e ↦ some e | inr rec ↦ none ])

  unfoldable pub clear_cache : State → State
  clear_cache r = record r { cache = [] }

  -- The counters of GetCacheStats, at one time for all entries: those there are, and those that have
  -- not expired.
  unfoldable pub count_active : ℤ → List (Text × CacheEntry) → ℕ
  count_active now [] = 0
  count_active now ((domain, e) ∷ cache) =
      let rest = count_active now cache in if ltb_ℤ now e.expires_at then rest + 1 else rest

  unfoldable pub get_cache_stats : ℤ → State → ℕ × ℕ
  unfolding count_active
  get_cache_stats now r = (length r.cache, count_active now r.cache)

abbrev pub well_known_domains : List (Text × Text)
well_known_domains =
    (codes "relay.argentina.mesh", codes "did:maia:mamanga1-relay-argentina")
    ∷ (codes "relay.us-east.mesh", codes "did:maia:mamanga1-relay-us-east")
    ∷ (codes "relay.europe.mesh", codes "did:maia:mamanga1-relay-europe")
    ∷ (codes "wallet.4sk.mesh", codes "did:maia:4sk-wallet")
    ∷ (codes "api.iap2p.mesh", codes "did:maia:iap2p-api")
    ∷ []
