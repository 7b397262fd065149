-- ===== src/DomainResolution/Staleness.antt =====
-- How long Resolve keeps an answer (src/domain_resolution/resolver.go).
use web5_mesh.Base.{
  ◌≢◌, Bool, ◌||◌, none, List, [], ◌∷◌, zero, suc, arith, any, All, Option-cases, ℕ, ◌≡◌, ◌⊎◌, refl,
  ap, ◌∙◌, true, false, inl, inr, Option, some, if◌then◌else◌, Bool-cases,
}
use web5_mesh.Base.Classes.{Text, Text_eq, text_eq, text_eq_iff}
use web5_mesh.Base.Int.{ℤ, pos, ltb_ℤ, ◌+ℤ◌}
use web5_mesh.Base.Map.{lookup, lookup-insert_self, lookup-erase_other}
use web5_mesh.Storage.Persistence.Laws.{Sum-cases}
use web5_mesh.DomainResolution.{
  Dht, DomainRecord, CacheEntry, Resolver, normalize, is_mesh, seconds, parse_record, domain_to_key,
  get_from_cache, pick, run_deletion, delete_entry, add_to_cache, fetch, resolve_normal, resolve,
}
use web5_mesh.DomainResolution.Registry.{store, register}
use web5_mesh.DomainResolution.Cache.{
  Call, resolves, registers, unregisters, refreshes, clears, deletes, shifts, step, run,
}

inr_injective : {A C : Type 0} {a b : C} → ◌≡◌ {A = A ⊎ C} (inr a) (inr b) → a ≡ b
inr_injective h = cc

any-pick {ℓ} :
    {A : Type ℓ} (p : A → Bool) (place : ℕ) (xs : List A) (y : A) (rest : List A)
    → pick place xs ≡ some (y, rest)
    → any p xs ≡ (p y || any p rest)
unfolding pick
any-pick p place [] y rest h = absurd (cc h)
any-pick p zero (x ∷ xs) y rest h = ground (arith, h)
any-pick p (suc place) (x ∷ xs) y rest h = elim (Option-cases (pick place xs)) [
  | inl e ↦ absurd (cc (rw (e, pick) at h))
  | inr ((z, zs), e) ↦
      let found = any-pick p place xs z zs e in ground (arith, found, rw (e, pick) at h)
]

module _ (D : Dht) (sha256 : Text → Text) (print_int : ℤ → Text) (scan_int : Text → Option ℤ) where
  abbrev Node : Type 0
  Node = Resolver D sha256 print_int scan_int

  -- How long addToCache keeps a record.
  abbrev pub lifetime : Node → DomainRecord → ℤ
  lifetime r rec = if ltb_ℤ (pos 0) rec.ttl then seconds rec.ttl else r.ttl

  abbrev entry_of : (ℕ → ℤ) → Node → DomainRecord → CacheEntry
  entry_of clock r rec = record { entry = rec; expires_at = clock 3 +ℤ lifetime r rec }

  fetch_caches :
      (clock : ℕ → ℤ) (r : Node) (name : Text) (rec : DomainRecord)
      → (fetch D sha256 print_int scan_int clock r name).1 ≡ inr rec
      → lookup name (fetch D sha256 print_int scan_int clock r name).0.cache
        ≡ some (entry_of clock r rec)
  unfolding fetch add_to_cache
  fetch_caches clock r name rec h =
      elim (Sum-cases (D.lookup_value (domain_to_key D sha256 print_int scan_int name) r.dht)) [
        | inl (x, l) ↦ absurd (cc (rw (l, fetch) at h))
        | inr (value, l) ↦
            elim (Sum-cases
              (parse_record D sha256 print_int scan_int (clock 1) (clock 2) name value)) [
                | inl (x, q) ↦ absurd (cc (rw (l, fetch, q) at h))
                | inr (other, q) ↦
                    let same : other ≡ rec = inr_injective (rw (l, fetch, q) at h) in
                    rw (l, fetch, q)
                      (lookup-insert_self name (entry_of clock r other) r.cache
                        ∙ ap (λ x. some (entry_of clock r x)) same)
              ]
      ]

  fetch_deletions :
      (clock : ℕ → ℤ) (r : Node) (name : Text)
      → (fetch D sha256 print_int scan_int clock r name).0.deletions ≡ r.deletions
  unfolding fetch add_to_cache
  fetch_deletions clock r name =
      elim (Sum-cases (D.lookup_value (domain_to_key D sha256 print_int scan_int name) r.dht)) [
        | inl (x, l) ↦ rw (l, fetch) refl
        | inr (value, l) ↦
            elim (Sum-cases
              (parse_record D sha256 print_int scan_int (clock 1) (clock 2) name value)) [
                | inl (x, q) ↦ rw (l, fetch, q) refl
                | inr (rec, q) ↦ rw (l, fetch, q) refl
              ]
      ]

  resolve_caches :
      (clock : ℕ → ℤ) (r : Node) (domain : Text) (rec : DomainRecord)
      → lookup (normalize domain) r.cache ≡ none
      → (resolve D sha256 print_int scan_int clock r domain).1 ≡ inr rec
      → let asked = (resolve D sha256 print_int scan_int clock r domain).0 in
        (is_mesh (normalize domain) ≡ true)
        × (lookup (normalize domain) asked.cache ≡ some (entry_of clock r rec))
        × (asked.deletions ≡ r.deletions)
  unfolding resolve resolve_normal get_from_cache
  resolve_caches clock r domain rec c h =
      let name = normalize domain in
      elim (Bool-cases (is_mesh name)) [
        | inl m ↦
            let ran : resolve D sha256 print_int scan_int clock r domain
                ≡ fetch D sha256 print_int scan_int clock r name =
              rw (m, resolve, resolve_normal, c, get_from_cache) (rw (c, get_from_cache) refl) in
            (
              m,
              rw ran (fetch_caches clock r name rec (rw ran at h)),
              rw ran (fetch_deletions clock r name),
            )
        | inr m ↦ absurd (cc (rw (m, resolve, resolve_normal) at h))
      ]

  resolve_hit :
      (later : ℕ → ℤ) (r : Node) (domain : Text) (e : CacheEntry)
      → is_mesh (normalize domain) ≡ true
      → lookup (normalize domain) r.cache ≡ some e
      → ltb_ℤ e.expires_at (later 0) ≡ false
      → resolve D sha256 print_int scan_int later r domain ≡ (r, inr e.entry)
  unfolding resolve resolve_normal get_from_cache
  resolve_hit later r domain e m l f =
      rw (m, resolve, resolve_normal, l, get_from_cache, f) (rw (l, get_from_cache, f) refl)

  -- Calls of Register, changes of the table, and deletion goroutines.
  abbrev pub IsQuiet : Call D sha256 print_int scan_int → Type 0
  IsQuiet (registers clock domain did ttl) = Unit
  IsQuiet (deletes place) = Unit
  IsQuiet (shifts dht) = Unit
  IsQuiet _ = ⊥

  -- The entry is cached, and no goroutine is about to delete it.
  record Stays (name : Text) (e : CacheEntry) (r : Node) : Type 0 where
    cached : lookup name r.cache ≡ some e
    spared : any (text_eq name) r.deletions ≡ false

  register-Stays :
      (clock : ℕ → ℤ) (r : Node) (domain did : Text) (ttl : ℤ) (name : Text) (e : CacheEntry)
      → Stays name e r
      → Stays name e (register D sha256 print_int scan_int clock r domain did ttl).0
  unfolding register store
  register-Stays clock r domain did ttl name e h = elim (Bool-cases (is_mesh (normalize domain))) [
    | inl m ↦ rw (m, register) (record { cached = h.cached; spared = h.spared })
    | inr m ↦ rw (m, register) h
  ]

  run_deletion-Stays :
      (place : ℕ) (r : Node) (name : Text) (e : CacheEntry)
      → Stays name e r
      → Stays name e (run_deletion D sha256 print_int scan_int place r)
  unfolding run_deletion delete_entry
  run_deletion-Stays place r name e h = elim (Option-cases (pick place r.deletions)) [
    | inl p ↦ rw (p, run_deletion) h
    | inr ((other, rest), p) ↦
        let split = any-pick (text_eq name) place r.deletions other rest p in
        let apart : text_eq name other ≡ false = ground (arith, h.spared, split) in
        let n : name ≢ other = λ q. absurd (cc (apart, (text_eq_iff name other).1 q)) in
        rw (p, run_deletion)
          (record {
            cached = lookup-erase_other other name r.cache n ∙ h.cached;
            spared = ground (arith, h.spared, split);
          })
  ]

  run-Stays :
      (calls : List (Call D sha256 print_int scan_int)) (r : Node) (name : Text) (e : CacheEntry)
      → All IsQuiet calls
      → Stays name e r
      → Stays name e (run D sha256 print_int scan_int r calls)
  unfolding run step
  run-Stays [] r name e q h = h
  run-Stays (registers clock domain did ttl ∷ calls) r name e q h =
      run-Stays calls _ name e q.1 (register-Stays clock r domain did ttl name e h)
  run-Stays (deletes place ∷ calls) r name e q h =
      run-Stays calls _ name e q.1 (run_deletion-Stays place r name e h)
  run-Stays (shifts dht ∷ calls) r name e q h =
      run-Stays calls _ name e q.1 (record { cached = h.cached; spared = h.spared })
  run-Stays (resolves clock domain ∷ calls) r name e q h = absurd q.0
  run-Stays (unregisters domain ∷ calls) r name e q h = absurd q.0
  run-Stays (refreshes clock domain ∷ calls) r name e q h = absurd q.0
  run-Stays (clears ∷ calls) r name e q h = absurd q.0

  -- The answer that Resolve fetches for a domain without a cache entry or a pending deletion is what
  -- it gives again for every spelling of the domain until the lifetime of the record is over, after
  -- any calls of Register, changes of the table and deletion goroutines in the meantime.
  pub resolve-again :
      (clock later : ℕ → ℤ) (r : Node) (calls : List (Call D sha256 print_int scan_int))
      (domain spelling : Text) (rec : DomainRecord)
      → lookup (normalize domain) r.cache ≡ none
      → any (text_eq (normalize domain)) r.deletions ≡ false
      → (resolve D sha256 print_int scan_int clock r domain).1 ≡ inr rec
      → All IsQuiet calls
      → normalize spelling ≡ normalize domain
      → ltb_ℤ (clock 3 +ℤ lifetime r rec) (later 0) ≡ false
      → let asked = (resolve D sha256 print_int scan_int clock r domain).0 in
        (resolve D sha256 print_int scan_int later
          (run D sha256 print_int scan_int asked calls)
          spelling).1
        ≡ inr rec
  resolve-again clock later r calls domain spelling rec c d h q s f =
      let (m, l, same) = resolve_caches clock r domain rec c h in
      let asked = (resolve D sha256 print_int scan_int clock r domain).0 in
      let stays =
        run-Stays calls asked (normalize domain) (entry_of clock r rec) q
          (record { cached = l; spared = rw same d }) in
      let now = run D sha256 print_int scan_int asked calls in
      rw (resolve_hit later now spelling (entry_of clock r rec) (rw s m) (rw s stays.cached) f) refl
