-- ===== src/DomainResolution/Answers.antt =====
-- What Resolve answers after Register and Unregister (src/domain_resolution/resolver.go).
use web5_mesh.Base.{
  ℕ, ◌≡◌, refl, ap, ◌∙◌, Bool, true, false, not, inl, inr, Option, none, some, [], ◌∷◌, ◌++◌, arith,
  Bool-cases, Option-cases,
}
use web5_mesh.Base.Classes.{Text, Text_eq}
use web5_mesh.Base.Int.{ℤ, ltb_ℤ}
use web5_mesh.Base.Map.{lookup, Distinct, lookup-erase}
use web5_mesh.Storage.Persistence.Laws.{Sum-cases}
use web5_mesh.DomainResolution.{
  Dht, CacheEntry, empty_record, Resolver, normalize, is_mesh, serialize_record, parse_record,
  made_record, domain_to_key, delete_entry, get_from_cache, fetch, resolve_normal, resolve,
}
use web5_mesh.DomainResolution.Registry.{new_record, store, register, unregister}
use web5_mesh.DomainResolution.Records.{HasNoBar, parse_record-serialize_record}

module _ (D : Dht) (sha256 : Text → Text) (print_int : ℤ → Text) (scan_int : Text → Option ℤ) where
  abbrev Node : Type 0
  Node = Resolver D sha256 print_int scan_int

  abbrev key_of : Text → Text
  key_of = domain_to_key D sha256 print_int scan_int

  -- A state of the table in which a lookup still answers what the call of StoreValue that led from
  -- one state to the next has stored.
  abbrev pub Keeps : Dht.State D → Dht.State D → Dht.State D → Type 0
  Keeps before after now =
      (k v : Text) → D.store_value k v before ≡ (after, none) → D.lookup_value k now ≡ inr v

  store_contract :
      (r : Node) (key value : Text)
      → (store D sha256 print_int scan_int r key value).1 ≡ none
      → (D.store_value key value r.dht
          ≡ ((store D sha256 print_int scan_int r key value).0.dht, none))
        × ((store D sha256 print_int scan_int r key value).0.cache ≡ r.cache)
  unfolding store
  store_contract r key value h = elim (Option-cases (D.store_value key value r.dht).1) [
    | inl e ↦ (ap (λ o. ((D.store_value key value r.dht).0, o)) e, refl)
    | inr (x, e) ↦ absurd (cc (rw (e, store) at h))
  ]

  -- What Register leaves: the record handed to the table, and the cache as it was.
  register_contract :
      (clock : ℕ → ℤ) (r : Node) (domain did : Text) (ttl : ℤ)
      → (register D sha256 print_int scan_int clock r domain did ttl).1 ≡ none
      → let after = (register D sha256 print_int scan_int clock r domain did ttl).0 in
        (is_mesh (normalize domain) ≡ true)
        × (D.store_value
              (key_of (normalize domain))
              (serialize_record D sha256 print_int scan_int
                (new_record D sha256 print_int scan_int clock (normalize domain) did ttl))
              r.dht
            ≡ (after.dht, none))
        × (after.cache ≡ r.cache)
  unfolding register
  register_contract clock r domain did ttl h = elim (Bool-cases (is_mesh (normalize domain))) [
    | inl e ↦
        let rec = new_record D sha256 print_int scan_int clock (normalize domain) did ttl in
        let value = serialize_record D sha256 print_int scan_int rec in
        let ran : register D sha256 print_int scan_int clock r domain did ttl
            ≡ store D sha256 print_int scan_int r (key_of (normalize domain)) value =
          rw (e, register) refl in
        let (there, same) = store_contract r (key_of (normalize domain)) value (rw ran at h) in
        rw ran (e, there, same)
    | inr e ↦ absurd (cc (rw (e, register) at h))
  ]

  -- The domain has an entry in the cache that has not expired.
  abbrev pub is_fresh : ℤ → Option CacheEntry → Bool
  is_fresh now none = false
  is_fresh now (some e) = not (ltb_ℤ e.expires_at now)

  abbrev pub is_cached : ℤ → Node → Text → Bool
  is_cached now r name = is_fresh now (lookup name r.cache)

  pub get_from_cache_miss :
      (now : ℤ) (r : Node) (name : Text)
      → is_cached now r name ≡ false
      → (q : Node) × (get_from_cache D sha256 print_int scan_int now r name ≡ (q, none))
        × (q.dht ≡ r.dht)
        × (q.ttl ≡ r.ttl)
  unfolding get_from_cache
  get_from_cache_miss now r name h = elim (Option-cases (lookup name r.cache)) [
    | inl e ↦ (r, rw (e, get_from_cache) refl, refl, refl)
    | inr (c, e) ↦
        let gone : ltb_ℤ c.expires_at now ≡ true = ground (arith, rw e at h) in
        (
          record r { deletions = r.deletions ++ name ∷ [] },
          rw (e, get_from_cache, gone) refl,
          refl,
          refl,
        )
  ]

  fetch_answer :
      (clock : ℕ → ℤ) (r : Node) (name value : Text)
      → D.lookup_value (key_of name) r.dht ≡ inr value
      → (fetch D sha256 print_int scan_int clock r name).1
        ≡ parse_record D sha256 print_int scan_int (clock 1) (clock 2) name value
  unfolding fetch
  fetch_answer clock r name value l =
      elim (Sum-cases (parse_record D sha256 print_int scan_int (clock 1) (clock 2) name value)) [
        | inl (x, q) ↦ rw (l, fetch, q) refl
        | inr (x, q) ↦ rw (l, fetch, q) refl
      ]

  -- Resolve of a domain that is not cached, from what the table holds.
  resolve_miss :
      (clock : ℕ → ℤ) (r : Node) (domain value : Text)
      → is_mesh (normalize domain) ≡ true
      → is_cached (clock 0) r (normalize domain) ≡ false
      → D.lookup_value (key_of (normalize domain)) r.dht ≡ inr value
      → (resolve D sha256 print_int scan_int clock r domain).1
        ≡ parse_record D sha256 print_int scan_int (clock 1) (clock 2) (normalize domain) value
  unfolding resolve resolve_normal
  resolve_miss clock r domain value m c l =
      let (q, e, same, life) = get_from_cache_miss (clock 0) r (normalize domain) c in
      rw (m, resolve, resolve_normal, e)
        (rw e (fetch_answer clock q (normalize domain) value (rw same l)))

  -- After a successful Register, Resolve of any spelling of the domain at any later time answers a
  -- record with the DID and the TTL, if the table then answers the lookup with what Register has
  -- stored, the node has no fresh cache entry for the domain, the DID and the printed TTL have no bar,
  -- and reading undoes printing.
  pub resolve-register :
      (clock later : ℕ → ℤ) (r : Node) (now : Dht.State D) (domain spelling did : Text) (ttl : ℤ)
      → (register D sha256 print_int scan_int clock r domain did ttl).1 ≡ none
      → Keeps r.dht (register D sha256 print_int scan_int clock r domain did ttl).0.dht now
      → normalize spelling ≡ normalize domain
      → is_cached (later 0) r (normalize domain) ≡ false
      → HasNoBar did
      → HasNoBar (print_int ttl)
      → scan_int (print_int ttl) ≡ some ttl
      → (resolve D sha256 print_int scan_int later
          (record (register D sha256 print_int scan_int clock r domain did ttl).0 { dht = now })
          spelling).1
        ≡ inr
            (made_record D sha256 print_int scan_int (later 1) (later 2) (normalize domain) did ttl)
  unfolding new_record
  resolve-register clock later r now domain spelling did ttl h keeps s c bare bare_ttl e =
      let (mesh, there, same) = register_contract clock r domain did ttl h in
      let rec = new_record D sha256 print_int scan_int clock (normalize domain) did ttl in
      let value = serialize_record D sha256 print_int scan_int rec in
      let after : Node = record (register D sha256 print_int scan_int clock r domain did ttl).0 {
        dht = now;
      } in
      let miss : is_cached (later 0) after (normalize spelling) ≡ false =
        ap (λ m. is_fresh (later 0) (lookup (normalize spelling) m)) same ∙ rw s c in
      resolve_miss later after spelling value (rw s mesh) miss
        (ap (λ n. D.lookup_value (key_of n) now) s ∙ keeps (key_of (normalize domain)) value there)
      ∙ rw s (
          parse_record-serialize_record D sha256 print_int scan_int (later 1) (later 2)
            (normalize domain) rec bare bare_ttl e)

  -- After a successful Unregister, Resolve on the same node fails, at any later time and of any
  -- spelling of the domain, if the table then answers the lookup with what Unregister has stored,
  -- and no domain stood twice in the cache.
  pub resolve-unregister :
      (later : ℕ → ℤ) (r : Node) (now : Dht.State D) (domain spelling : Text)
      → (unregister D sha256 print_int scan_int r domain).1 ≡ none
      → Keeps r.dht (unregister D sha256 print_int scan_int r domain).0.dht now
      → normalize spelling ≡ normalize domain
      → is_mesh (normalize domain) ≡ true
      → Distinct r.cache
      → (resolve D sha256 print_int scan_int later
          (record (unregister D sha256 print_int scan_int r domain).0 { dht = now })
          spelling).1
        ≡ inl (empty_record (normalize domain))
  unfolding unregister delete_entry parse_record
  resolve-unregister later r now domain spelling h keeps s m d =
      let key = key_of (normalize domain) in
      let stored = store D sha256 print_int scan_int r key [] in
      elim (Option-cases stored.1) [
        | inl e ↦
            let (there, same) = store_contract r key [] e in
            let left : Node =
              delete_entry D sha256 print_int scan_int stored.0 (normalize domain) in
            let after : Node = record left { dht = now } in
            let ran : unregister D sha256 print_int scan_int r domain ≡ (left, none) =
              rw (e, unregister) refl in
            let gone : lookup (normalize domain) after.cache ≡ none =
              lookup-erase (normalize domain) stored.0.cache (rw same d) in
            let miss : is_cached (later 0) after (normalize spelling) ≡ false = rw (s, gone) refl in
            let kept : D.lookup_value key now ≡ inr [] = (rw ran at keeps) key [] there in
            rw ran (
              resolve_miss later after spelling [] (rw s m) miss
                (ap (λ n. D.lookup_value (key_of n) now) s ∙ kept)
              ∙ rw s refl)
        | inr (x, e) ↦ absurd (cc (rw (e, unregister) at h))
      ]
