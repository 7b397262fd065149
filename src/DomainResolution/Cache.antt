-- ===== src/DomainResolution/Cache.antt =====
-- The cache of Resolver under any order of calls and goroutine turns
-- (src/domain_resolution/resolver.go).
use web5_mesh.Base.{
  ℕ, ◌≡◌, ◌≢◌, ◌⊎◌, refl, sym, ap, ◌∙◌, inl, inr, Option, some, List, [], ◌∷◌, arith, ◌==◌,
  if◌then◌else◌, length, Bool-cases, Option-cases, List-cases,
}
use web5_mesh.Base.Classes.{Text, Text_eq, text_eq, text_eq_iff}
use web5_mesh.Base.Int.{ℤ, pos, ltb_ℤ, ◌+ℤ◌}
use web5_mesh.Base.Map.{
  lookup, Distinct, lookup-erase, lookup-erase_other, lookup-insert, insert-Distinct,
  erase-Distinct,
}
use web5_mesh.Storage.Persistence.Laws.{Sum-cases}
use web5_mesh.DomainResolution.{
  Dht, DomainRecord, CacheEntry, ResolveError, Resolver, new, normalize, is_mesh, seconds,
  parse_record, made_record, split_bars, domain_to_key, delete_entry, get_from_cache, pick,
  run_deletion, add_to_cache, fetch, resolve_normal, resolve,
}
use web5_mesh.DomainResolution.Registry.{store, register, unregister, refresh_cache, clear_cache}

inr_injective : {A C : Type 0} {a b : C} → ◌≡◌ {A = A ⊎ C} (inr a) (inr b) → a ≡ b
inr_injective h = cc

some_injective : {A : Type 0} {a b : A} → some a ≡ some b → a ≡ b
some_injective h = cc

module _ (D : Dht) (sha256 : Text → Text) (print_int : ℤ → Text) (scan_int : Text → Option ℤ) where
  abbrev Node : Type 0
  Node = Resolver D sha256 print_int scan_int

  -- No domain is cached twice, and every entry holds a record of its own domain.
  pub record IsConsistent (r : Node) : Type 0 where
    pub distinct : Distinct r.cache
    pub keyed :
        (name : Text) (e : CacheEntry) → lookup name r.cache ≡ some e → e.entry.domain ≡ name

  same_cache : (r s : Node) → s.cache ≡ r.cache → IsConsistent r → IsConsistent s
  same_cache r s e c = record {
    distinct = rw e c.distinct;
    keyed = λ name x h. c.keyed name x (rw e at h);
  }

  delete_entry-IsConsistent :
      (r : Node) (name : Text)
      → IsConsistent r
      → IsConsistent (delete_entry D sha256 print_int scan_int r name)
  unfolding delete_entry
  delete_entry-IsConsistent r name c = record {
    distinct = erase-Distinct name r.cache c.distinct;
    keyed = λ other x h. elim (Bool-cases (text_eq other name)) [
      | inl e ↦
          let same : other ≡ name = (text_eq_iff other name).0 e in
          let gone = lookup-erase name r.cache c.distinct in absurd (cc (rw same at h, gone))
      | inr e ↦
          let apart : other ≢ name = λ q. absurd (cc (e, (text_eq_iff other name).1 q)) in
          c.keyed other x (sym (lookup-erase_other name other r.cache apart) ∙ h)
    ];
  }

  add_to_cache-IsConsistent :
      (now : ℤ) (r : Node) (name : Text) (rec : DomainRecord)
      → rec.domain ≡ name
      → IsConsistent r
      → IsConsistent (add_to_cache D sha256 print_int scan_int now r name rec)
  unfolding add_to_cache
  add_to_cache-IsConsistent now r name rec own c =
      let life = if ltb_ℤ (pos 0) rec.ttl then seconds rec.ttl else r.ttl in
      let e : CacheEntry = record { entry = rec; expires_at = now +ℤ life } in
      record {
        distinct = insert-Distinct name e r.cache c.distinct;
        keyed = λ other x h. ground (
          arith,
          own,
          lookup-insert name other e r.cache,
          text_eq_iff name other,
          c.keyed other x,
          h,
        );
      }

  parse_record_own :
      (now later : ℤ) (name content : Text) (rec : DomainRecord)
      → parse_record D sha256 print_int scan_int now later name content ≡ inr rec
      → rec.domain ≡ name
  unfolding parse_record made_record
  parse_record_own now later name content rec h = elim (Bool-cases (length content == 0)) [
    | inl e ↦ absurd (cc (rw (e, parse_record) at h))
    | inr e ↦ elim (List-cases (split_bars content)) [
      | inl f ↦ absurd (cc (rw (e, parse_record, f) at h))
      | inr (did, parts, f) ↦ elim (List-cases parts) [
        | inl g ↦ absurd (cc (rw (e, parse_record, f, g) at h))
        | inr (number, rest, g) ↦
            sym (
              ap (λ (x : DomainRecord). x.domain) (inr_injective (rw (e, parse_record, f, g) at h)))
      ]
    ]
  ]

  -- What holds of a call of Resolve: it leaves a consistent cache, and answers a record of the domain.
  abbrev Sound : Text → Node × (ResolveError (Dht.Error D) ⊎ DomainRecord) → Type 0
  Sound name r = IsConsistent r.0 × ((rec : DomainRecord) → r.1 ≡ inr rec → rec.domain ≡ name)

  fetch-Sound :
      (clock : ℕ → ℤ) (r : Node) (name : Text)
      → IsConsistent r
      → Sound name (fetch D sha256 print_int scan_int clock r name)
  unfolding fetch
  fetch-Sound clock r name c =
      elim (Sum-cases (D.lookup_value (domain_to_key D sha256 print_int scan_int name) r.dht)) [
        | inl (x, l) ↦ rw (l, fetch) (c, λ rec h. absurd (cc h))
        | inr (value, l) ↦
            elim (Sum-cases
              (parse_record D sha256 print_int scan_int (clock 1) (clock 2) name value)) [
                | inl (x, q) ↦ rw (l, fetch, q) (c, λ rec h. absurd (cc h))
                | inr (rec, q) ↦
                    let own = parse_record_own (clock 1) (clock 2) name value rec q in
                    rw (l, fetch, q)
                      (
                        add_to_cache-IsConsistent (clock 3) r name rec own c,
                        λ other h.
                            ap (λ (x : DomainRecord). x.domain) (sym (inr_injective h)) ∙ own,
                      )
              ]
      ]

  get_from_cache-Sound :
      (now : ℤ) (r : Node) (name : Text)
      → IsConsistent r
      → let g = get_from_cache D sha256 print_int scan_int now r name in
        IsConsistent g.0 × ((rec : DomainRecord) → g.1 ≡ some rec → rec.domain ≡ name)
  unfolding get_from_cache
  get_from_cache-Sound now r name c = elim (Option-cases (lookup name r.cache)) [
    | inl e ↦ rw (e, get_from_cache) (c, λ rec h. absurd (cc h))
    | inr (x, e) ↦ elim (Bool-cases (ltb_ℤ x.expires_at now)) [
      | inl f ↦ rw (e, get_from_cache, f) (same_cache r _ refl c, λ rec h. absurd (cc h))
      | inr f ↦
          rw (e, get_from_cache, f)
            (
              c,
              λ rec h.
                  ap (λ (x : DomainRecord). x.domain) (sym (some_injective h)) ∙ c.keyed name x e,
            )
    ]
  ]

  resolve-Sound :
      (clock : ℕ → ℤ) (r : Node) (domain : Text)
      → IsConsistent r
      → Sound (normalize domain) (resolve D sha256 print_int scan_int clock r domain)
  unfolding resolve resolve_normal
  resolve-Sound clock r domain c =
      let name = normalize domain in
      let g = get_from_cache D sha256 print_int scan_int (clock 0) r name in
      let (well, own) = get_from_cache-Sound (clock 0) r name c in
      elim (Bool-cases (is_mesh name)) [
        | inl m ↦ elim (Option-cases g.1) [
          | inl e ↦ rw (m, resolve, resolve_normal, e) (fetch-Sound clock g.0 name well)
          | inr (rec, e) ↦
              rw (m, resolve, resolve_normal, e)
                (
                  well,
                  λ other h.
                      ap (λ (x : DomainRecord). x.domain) (sym (inr_injective h)) ∙ own rec e,
                )
        ]
        | inr m ↦ rw (m, resolve, resolve_normal) (c, λ rec h. absurd (cc h))
      ]

  -- The calls, and the turn of a deletion goroutine.
  pub data Call : Type 0 where
    resolves : (ℕ → ℤ) → Text → Call
    registers : (ℕ → ℤ) → Text → Text → ℤ → Call
    unregisters : Text → Call
    refreshes : (ℕ → ℤ) → Text → Call
    clears : Call
    deletes : ℕ → Call
    -- The table changes by itself: entries come, go and expire.
    shifts : Dht.State D → Call

  unfoldable pub step : Node → Call → Node
  unfolding resolve register unregister refresh_cache clear_cache run_deletion
  step r (resolves clock domain) = (resolve D sha256 print_int scan_int clock r domain).0
  step r (registers clock domain did ttl) =
      (register D sha256 print_int scan_int clock r domain did ttl).0
  step r (unregisters domain) = (unregister D sha256 print_int scan_int r domain).0
  step r (refreshes clock domain) = (refresh_cache D sha256 print_int scan_int clock r domain).0
  step r clears = clear_cache D sha256 print_int scan_int r
  step r (deletes place) = run_deletion D sha256 print_int scan_int place r
  step r (shifts dht) = record r { dht = dht }

  unfoldable pub run : Node → List Call → Node
  unfolding step
  run r [] = r
  run r (call ∷ calls) = run (step r call) calls

  register-IsConsistent :
      (clock : ℕ → ℤ) (r : Node) (domain did : Text) (ttl : ℤ)
      → IsConsistent r
      → IsConsistent (register D sha256 print_int scan_int clock r domain did ttl).0
  unfolding register store
  register-IsConsistent clock r domain did ttl c = elim (Bool-cases (is_mesh (normalize domain))) [
    | inl e ↦ rw (e, register) (same_cache r _ refl c)
    | inr e ↦ rw (e, register) c
  ]

  unregister-IsConsistent :
      (r : Node) (domain : Text)
      → IsConsistent r
      → IsConsistent (unregister D sha256 print_int scan_int r domain).0
  unfolding unregister store
  unregister-IsConsistent r domain c =
      let stored =
        store D sha256 print_int scan_int r
          (domain_to_key D sha256 print_int scan_int (normalize domain)) [] in
      let well : IsConsistent stored.0 = same_cache r _ refl c in
      elim (Option-cases stored.1) [
        | inl e ↦ rw (e, unregister) (delete_entry-IsConsistent stored.0 (normalize domain) well)
        | inr (x, e) ↦ rw (e, unregister) well
      ]

  run_deletion-IsConsistent :
      (place : ℕ) (r : Node)
      → IsConsistent r
      → IsConsistent (run_deletion D sha256 print_int scan_int place r)
  unfolding run_deletion
  run_deletion-IsConsistent place r c = elim (Option-cases (pick place r.deletions)) [
    | inl e ↦ rw (e, run_deletion) c
    | inr ((name, rest), e) ↦
        rw (e, run_deletion)
          (delete_entry-IsConsistent (record r { deletions = rest }) name (same_cache r _ refl c))
  ]

  step-IsConsistent : (r : Node) (call : Call) → IsConsistent r → IsConsistent (step r call)
  unfolding step refresh_cache clear_cache lookup
  step-IsConsistent r (resolves clock domain) c = (resolve-Sound clock r domain c).0
  step-IsConsistent r (registers clock domain did ttl) c =
      register-IsConsistent clock r domain did ttl c
  step-IsConsistent r (unregisters domain) c = unregister-IsConsistent r domain c
  step-IsConsistent r (refreshes clock domain) c =
      (resolve-Sound clock _ domain (delete_entry-IsConsistent r domain c)).0
  step-IsConsistent r clears c = record { distinct = tt; keyed = λ name e h. absurd (cc h) }
  step-IsConsistent r (deletes place) c = run_deletion-IsConsistent place r c
  step-IsConsistent r (shifts dht) c = same_cache r _ refl c

  run-IsConsistent : (r : Node) (calls : List Call) → IsConsistent r → IsConsistent (run r calls)
  unfolding run
  run-IsConsistent r [] c = c
  run-IsConsistent r (call ∷ calls) c =
      run-IsConsistent (step r call) calls (step-IsConsistent r call c)

  new-IsConsistent : (dht : Dht.State D) → IsConsistent (new D sha256 print_int scan_int dht)
  unfolding new lookup
  new-IsConsistent dht = record { distinct = tt; keyed = λ name e h. absurd (cc h) }

  -- From a new resolver, after any calls, changes of the table and deletion goroutines in any order,
  -- what Resolve answers for a domain is a record of this domain in normal form.
  pub run-new :
      (dht : Dht.State D) (calls : List Call) (clock : ℕ → ℤ) (domain : Text) (rec : DomainRecord)
      → (resolve D sha256 print_int scan_int clock
          (run (new D sha256 print_int scan_int dht) calls)
          domain).1
        ≡ inr rec
      → rec.domain ≡ normalize domain
  run-new dht calls clock domain rec h =
      let c = run-IsConsistent (new D sha256 print_int scan_int dht) calls (new-IsConsistent dht) in
      (resolve-Sound clock (run (new D sha256 print_int scan_int dht) calls) domain c).1 rec h
