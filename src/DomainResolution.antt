-- ===== src/DomainResolution.antt =====
-- src/domain_resolution/resolver.go, Resolver: .mesh domains, their records in the distributed hash
-- table, and the cache of records. The table (package dht, which the repository does not have) is
-- the record Dht below. Times are in nanoseconds; a call takes the answers of its readings of the
-- clock. Domains are ASCII. The goroutine that an expired entry starts is a step of its own.
pub mod Registry
pub mod Records
pub mod Answers
pub mod Cache
pub mod Staleness
use web5_mesh.Base.{
  ℕ, zero, suc, ◌+◌, ◌-◌, ◌*◌, ◌/◌, ◌≡◌, ◌≢◌, ◌⊎◌, inl, inr, Bool, true, false, not, ◌&&◌, ◌||◌,
  Option, none, some, List, [], ◌∷◌, ◌++◌, ltb, leb, ◌==◌, if◌then◌else◌, length, drop, map,
}
use web5_mesh.Base.Classes.{Text, Text_eq, text_eq}
use web5_mesh.Base.Int.{ℤ, pos, negsuc, ◌+ℤ◌, neg, ltb_ℤ, to_i64, to_u64}
use web5_mesh.Base.Bytes.{codes}
use web5_mesh.Base.Map.{lookup, insert, erase}
use web5_mesh.P2p.Access.{hex}

-- A distributed hash table, of which nothing is assumed: a call may fail, whatever was stored. The
-- context of a call is part of the state.
pub record Dht : Type 1 where
  pub State : Type 0
  pub Error : Type 0
  pub store_value : Text → Text → State → State × Option Error
  pub lookup_value : Text → State → Error ⊎ Text

pub record DomainRecord : Type 0 where
  pub domain : Text
  pub did : Text
  pub public_key : Text
  pub ip : Text
  pub port : ℤ
  pub ttl : ℤ
  pub registered_at : ℤ
  pub expires_at : ℤ
  pub signature : Text

unfoldable pub is_expired : ℤ → DomainRecord → Bool
is_expired now r = ltb_ℤ r.expires_at now

pub record CacheEntry : Type 0 where
  pub entry : DomainRecord
  pub expires_at : ℤ

-- `time.Duration(n) * time.Second`, an int64.
unfoldable pub seconds : ℤ → ℤ
seconds (pos n) = to_i64 (n * 1_000_000_000)
seconds (negsuc n) = to_i64 (to_u64 (neg (pos (suc n * 1_000_000_000))))

-- `ttl / 2` of an int, which rounds to zero.
abbrev half : ℤ → ℤ
half (pos n) = pos (n / 2)
half (negsuc n) = neg (pos (suc n / 2))

-- strings.TrimSpace and strings.ToLower, on ASCII.
abbrev pub is_space : ℕ → Bool
is_space c = (leb 9 c && leb c 13) || c == 32

unfoldable pub trim_left : Text → Text
trim_left [] = []
trim_left (c ∷ s) = let rest = trim_left s in if is_space c then rest else c ∷ s

unfoldable pub trim_right : Text → Text
trim_right [] = []
trim_right (c ∷ s) = elim (trim_right s) [
  | [] ↦ if is_space c then [] else c ∷ []
  | ◌∷◌ d rest ↦ c ∷ d ∷ rest
]

abbrev pub lower : ℕ → ℕ
lower c = if leb 65 c && leb c 90 then c + 32 else c

unfoldable pub normalize : Text → Text
unfolding trim_left trim_right
normalize domain = map lower (trim_right (trim_left domain))

-- strings.HasSuffix(domain, ".mesh").
unfoldable pub is_mesh : Text → Bool
is_mesh domain = leb 5 (length domain) && text_eq (drop (length domain - 5) domain) (codes ".mesh")

-- strings.Split(s, "|").
unfoldable pub split_bars : Text → List Text
split_bars [] = [] ∷ []
split_bars (c ∷ s) = elim (split_bars s) [
  | [] ↦ []
  | ◌∷◌ part parts ↦ if c == 124 then [] ∷ part ∷ parts else (c ∷ part) ∷ parts
]

-- The entry at a place of a list, and the others.
unfoldable pub pick {ℓ} : {A : Type ℓ} → ℕ → List A → Option (A × List A)
pick place [] = none
pick zero (x ∷ xs) = some (x, xs)
pick (suc place) (x ∷ xs) = elim (pick place xs) [
  | none ↦ none
  | some (y, rest) ↦ some (y, x ∷ rest)
]

-- What a call fails with; E is the table's own error.
pub data ResolveError (E : Type 0) : Type 0 where
  invalid_domain : Text → ResolveError E
  not_found : E → ResolveError E
  empty_record : Text → ResolveError E
  invalid_format : ResolveError E
  not_stored : E → ResolveError E

-- sha256.Sum256; fmt.Sprintf("%d"); and fmt.Sscanf("%d"), `none` if it leaves its variable as it is.
module _ (D : Dht) (sha256 : Text → Text) (print_int : ℤ → Text) (scan_int : Text → Option ℤ) where
  pub record Resolver : Type 0 where
    pub dht : Dht.State D
    pub cache : List (Text × CacheEntry)
    pub ttl : ℤ
    -- The domains whose deletion goroutine has been started and has not run.
    pub deletions : List Text

  abbrev pub Failure : Type 0
  Failure = ResolveError (Dht.Error D)

  unfoldable pub new : Dht.State D → Resolver
  new dht = record { dht = dht; cache = []; ttl = pos (24 * 3600 * 1_000_000_000); deletions = [] }

  unfoldable pub domain_to_key : Text → Text
  unfolding hex
  domain_to_key domain = hex (sha256 (codes "mesh:" ++ domain))

  -- fmt.Sprintf("%s|%d"); 124 is the bar.
  unfoldable pub serialize_record : DomainRecord → Text
  serialize_record r = r.did ++ 124 ∷ print_int r.ttl

  abbrev pub scanned : Option ℤ → ℤ
  scanned none = pos 86400
  scanned (some ttl) = ttl

  -- A record as parseRecord makes it, with two readings of the clock.
  unfoldable pub made_record : ℤ → ℤ → Text → Text → ℤ → DomainRecord
  unfolding seconds
  made_record now later domain did ttl = record {
    domain = domain;
    did = did;
    public_key = [];
    ip = [];
    port = pos 0;
    ttl = ttl;
    registered_at = now +ℤ seconds (neg (half ttl));
    expires_at = later +ℤ seconds ttl;
    signature = [];
  }

  unfoldable pub parse_record : ℤ → ℤ → Text → Text → Failure ⊎ DomainRecord
  unfolding split_bars made_record
  parse_record now later domain content =
      if length content == 0 then inl (empty_record domain) else elim (split_bars content) [
        | [] ↦ inl invalid_format
        | ◌∷◌ did parts ↦ elim parts [
          | [] ↦ inl invalid_format
          | ◌∷◌ number rest ↦ inr (made_record now later domain did (scanned (scan_int number)))
        ]
      ]

  -- getFromCache: an expired entry is not handed out, and a goroutine is started that deletes it.
  unfoldable pub get_from_cache : ℤ → Resolver → Text → Resolver × Option DomainRecord
  get_from_cache now r domain = elim (lookup domain r.cache) [
    | none ↦ (r, none)
    | some e ↦
        if ltb_ℤ e.expires_at now
        then (record r { deletions = r.deletions ++ domain ∷ [] }, none)
        else (r, some e.entry)
  ]

  unfoldable pub delete_entry : Resolver → Text → Resolver
  delete_entry r domain = record r { cache = erase domain r.cache }

  -- The turn of one of the goroutines that have been started and have not run: they run in any
  -- order.
  unfoldable pub run_deletion : ℕ → Resolver → Resolver
  unfolding delete_entry pick
  run_deletion place r = elim (pick place r.deletions) [
    | none ↦ r
    | some (domain, rest) ↦ delete_entry (record r { deletions = rest }) domain
  ]

  unfoldable pub add_to_cache : ℤ → Resolver → Text → DomainRecord → Resolver
  unfolding seconds
  add_to_cache now r domain rec =
      let ttl = if ltb_ℤ (pos 0) rec.ttl then seconds rec.ttl else r.ttl in
      record r { cache = insert domain (record { entry = rec; expires_at = now +ℤ ttl }) r.cache }

  -- Resolve after a miss in the cache.
  unfoldable pub fetch : (ℕ → ℤ) → Resolver → Text → Resolver × (Failure ⊎ DomainRecord)
  unfolding parse_record add_to_cache domain_to_key
  fetch clock r domain = elim (D.lookup_value (domain_to_key domain) r.dht) [
    | inl e ↦ (r, inl (not_found e))
    | inr value ↦ elim (parse_record (clock 1) (clock 2) domain value) [
      | inl e ↦ (r, inl e)
      | inr rec ↦ (add_to_cache (clock 3) r domain rec, inr rec)
    ]
  ]

  -- Resolve on a domain in normal form; `clock n` is the n-th reading of the clock.
  unfoldable pub resolve_normal : (ℕ → ℤ) → Resolver → Text → Resolver × (Failure ⊎ DomainRecord)
  unfolding get_from_cache fetch is_mesh
  resolve_normal clock r domain =
      if not (is_mesh domain)
      then (r, inl (invalid_domain domain))
      else elim (get_from_cache (clock 0) r domain).1 [
        | some rec ↦ ((get_from_cache (clock 0) r domain).0, inr rec)
        | none ↦ fetch clock (get_from_cache (clock 0) r domain).0 domain
      ]

  unfoldable pub resolve : (ℕ → ℤ) → Resolver → Text → Resolver × (Failure ⊎ DomainRecord)
  unfolding resolve_normal normalize
  resolve clock r domain = resolve_normal clock r (normalize domain)
