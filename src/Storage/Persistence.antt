-- ===== src/Storage/Persistence.antt =====
-- src/storage/persistence.go, PersistenceStore: the embedded database behind a flag that says
-- whether it is closed. The database (badger) is the record Badger below: its transactions, and
-- what its documentation says of them. Each call runs one transaction; the read lock that all of
-- them hold only keeps Close out.
pub mod Laws
pub mod Prefix
pub mod Iteration
use web5_mesh.Base.{
  ℕ, ◌+◌, ◌*◌, ◌^◌, ◌%◌, ◌≡◌, ◌≢◌, ◌⊎◌, inl, inr, Bool, true, false, not, ◌&&◌, Option, none, some,
  List, [], ◌∷◌, ltb, ◌==◌, if◌then◌else◌, length, get_or, IsSorted, All,
}
use web5_mesh.Base.Classes.{Text, Text_eq}
use web5_mesh.Base.Int.{ℤ, pos, negsuc, ltb_ℤ, add_i64}
use web5_mesh.Base.Bytes.{before}
use web5_mesh.Base.Map.{lookup}
use web5_mesh.Pow.Hash.{put_uint64}

-- A database with its transactions. `commit` may fail, as may every step of a transaction; a
-- failed step changes nothing. `get` answers none for ErrKeyNotFound. `value_copy` is ValueCopy
-- with a nil destination, whose answer may be a nil slice. `seek` lists what an iterator that
-- starts at a key goes through.
pub record Badger : Type 1 where
  pub Db : Type 0
  pub Txn : Type 0
  pub Error : Type 0
  pub begin : Db → Txn
  pub commit : Txn → Error ⊎ Db
  pub set : Text → Text → Txn → Error ⊎ Txn
  pub set_entry : Text → Text → ℕ → Txn → Error ⊎ Txn
  pub remove : Text → Txn → Error ⊎ Txn
  pub get : Text → Txn → Error ⊎ Option Text
  pub value_copy : Text → Error ⊎ Option Text
  pub seek : Text → Txn → List (Text × Text)
  pub sizes : Db → ℤ × ℤ
  pub shut : Db → Option Error
  -- A committed transaction is what the next one reads, entries with a time to live before it ends.
  pub get-commit : (t : Txn) (d : Db) (k : Text) → commit t ≡ inr d → get k (begin d) ≡ get k t
  -- A transaction reads its own writes.
  pub get-set : (k v : Text) (t u : Txn) → set k v t ≡ inr u → get k u ≡ inr (some v)
  pub get-set_other : (j k v : Text) (t u : Txn) → j ≢ k → set k v t ≡ inr u → get j u ≡ get j t
  pub get-remove : (k : Text) (t u : Txn) → remove k t ≡ inr u → get k u ≡ inr none
  pub get-remove_other : (j k : Text) (t u : Txn) → j ≢ k → remove k t ≡ inr u → get j u ≡ get j t
  -- An iterator goes through the keys from its start on, in ascending order, each once.
  pub seek-from : (k : Text) (t : Txn) → All (λ b. before b.0 k ≡ false) (seek k t)
  pub seek-IsSorted : (k : Text) (t : Txn) → IsSorted (λ a b. before a.0 b.0 ≡ true) (seek k t)
  pub lookup-seek :
      (j k : Text) (t : Txn) (o : Option Text)
      → get j t ≡ inr o
      → lookup j (seek k t) ≡ (if before j k then none else o)

-- What a call fails with: its own errors, or the database's.
pub data StoreError (E : Type 0) : Type 0 where
  store_closed : StoreError E
  empty_key : StoreError E
  nil_options : StoreError E
  database : E → StoreError E

-- hasPrefix: the loop over the bytes of the prefix, after the test of the lengths.
unfoldable pub same_start : Text → Text → Bool
same_start key [] = true
same_start [] (p ∷ prefix) = false
same_start (c ∷ key) (p ∷ prefix) = if c == p then same_start key prefix else false

unfoldable pub has_prefix : Text → Text → Bool
unfolding same_start
has_prefix key prefix = if ltb (length key) (length prefix) then false else same_start key prefix

-- Uint64ToBytes.
unfoldable pub uint64_to_bytes : ℕ → Text
uint64_to_bytes v = put_uint64 v

-- BytesToUint64, with binary.BigEndian.Uint64 of the first eight bytes.
unfoldable pub bytes_to_uint64 : Text → ℕ
bytes_to_uint64 b =
    if ltb (length b) 8
    then 0
    else get_or b 7 0
      + get_or b 6 0 * 2 ^ 8
      + get_or b 5 0 * 2 ^ 16
      + get_or b 4 0 * 2 ^ 24
      + get_or b 3 0 * 2 ^ 32
      + get_or b 2 0 * 2 ^ 40
      + get_or b 1 0 * 2 ^ 48
      + get_or b 0 0 * 2 ^ 56

pub record StoreOptions : Type 0 where
  pub path : Text
  pub in_memory : Bool
  pub sync_writes : Bool
  pub value_log_file_size : ℤ
  pub mem_table_size : ℤ
  pub num_memtables : ℤ
  pub compression : Bool
  pub gc_interval_seconds : ℤ

unfoldable pub default_store_options : Text → StoreOptions
default_store_options path = record {
  path = path;
  in_memory = false;
  sync_writes = false;
  value_log_file_size = pos (1024 * 1024 * 1024);
  mem_table_size = pos (64 * 1024 * 1024);
  num_memtables = pos 2;
  compression = true;
  gc_interval_seconds = pos 300;
}

module _ (B : Badger) where
  abbrev Failure : Type 0
  Failure = StoreError (Badger.Error B)

  pub record PersistenceStore : Type 0 where
    pub db : Badger.Db B
    pub path : Text
    pub closed : Bool

  -- NewPersistenceStore, whose options may be nil: the store, and whether periodicGC is started.
  -- `open_db` is badger.Open with the options handed on; Compression is not.
  unfoldable pub new :
      (Text → Bool → Bool → ℤ → ℤ → ℤ → Badger.Error B ⊎ Badger.Db B)
      → Option StoreOptions
      → Failure ⊎ (PersistenceStore × Bool)
  new open_db none = inl nil_options
  new open_db (some o) =
      elim (open_db o.path o.in_memory o.sync_writes o.value_log_file_size o.mem_table_size
        o.num_memtables) [
          | inl e ↦ inl (database e)
          | inr db ↦ inr (
            record { db = db; path = o.path; closed = false },
            not o.in_memory && ltb_ℤ (pos 0) o.gc_interval_seconds,
          )
        ]

  -- `s.db.Update(f)`: the store after it, and its error.
  unfoldable pub update_db :
      PersistenceStore
      → (Badger.Txn B → Badger.Error B ⊎ Badger.Txn B)
      → PersistenceStore × Option Failure
  update_db s f = elim (f (B.begin s.db)) [
    | inl e ↦ (s, some (database e))
    | inr t ↦ elim (B.commit t) [
      | inl e ↦ (s, some (database e))
      | inr d ↦ (record s { db = d }, none)
    ]
  ]

  unfoldable pub put : PersistenceStore → Text → Text → PersistenceStore × Option Failure
  unfolding update_db
  put s key value =
      if s.closed
      then (s, some store_closed)
      else if length key == 0
      then (s, some empty_key)
      else update_db s (B.set key value)

  unfoldable pub put_with_ttl :
      PersistenceStore → Text → Text → ℕ → PersistenceStore × Option Failure
  unfolding update_db
  put_with_ttl s key value ttl_seconds =
      if s.closed
      then (s, some store_closed)
      else if length key == 0
      then (s, some empty_key)
      else update_db s (B.set_entry key value ttl_seconds)

  abbrev is_some : Option Text → Bool
  is_some none = false
  is_some (some v) = true

  -- The transaction of Get: the slice that `result` holds, nil if the key is not found.
  unfoldable pub view_value : PersistenceStore → Text → Failure ⊎ Option Text
  view_value s key = elim (B.get key (B.begin s.db)) [
    | inl e ↦ inl (database e)
    | inr none ↦ inr none
    | inr (some v) ↦ elim (B.value_copy v) [ inl e ↦ inl (database e) | inr r ↦ inr r ]
  ]

  -- Get: the slice and whether it exists, that is, whether the slice is not nil.
  unfoldable pub get : PersistenceStore → Text → Failure ⊎ (Option Text × Bool)
  unfolding view_value
  get s key =
      if s.closed
      then inl store_closed
      else elim (view_value s key) [ inl e ↦ inl e | inr r ↦ inr (r, is_some r) ]

  unfoldable pub delete : PersistenceStore → Text → PersistenceStore × Option Failure
  unfolding update_db
  delete s key = if s.closed then (s, some store_closed) else update_db s (B.remove key)

  unfoldable pub has : PersistenceStore → Text → Failure ⊎ Bool
  unfolding get
  has s key = elim (get s key) [ inl e ↦ inl e | inr r ↦ inr r.1 ]

  -- The loop of BatchWrite in its transaction, over the operations in the order of the range.
  unfoldable pub set_all : List (Text × Text) → Badger.Txn B → Badger.Error B ⊎ Badger.Txn B
  set_all [] t = inr t
  set_all ((key, value) ∷ operations) t = elim (B.set key value t) [
    | inl e ↦ inl e
    | inr u ↦ set_all operations u
  ]

  unfoldable pub batch_write :
      PersistenceStore → List (Text × Text) → PersistenceStore × Option Failure
  unfolding update_db set_all
  batch_write s operations =
      if s.closed then (s, some store_closed) else update_db s (set_all operations)

  -- The loop of Iterate over what is left of the iteration. The callback `fn` is a function on the
  -- state S that it keeps; its answer says whether to go on.
  unfoldable pub iterate_loop {ℓ} :
      {S : Type ℓ}
      → Text
      → (S → Text → Option Text → S × Bool)
      → List (Text × Text)
      → S
      → S × Option Failure
  unfolding has_prefix
  iterate_loop prefix fn [] s = (s, none)
  iterate_loop prefix fn ((key, value) ∷ rest) s =
      if ltb 0 (length prefix) && not (has_prefix key prefix)
      then (s, none)
      else elim (B.value_copy value) [
        | inl e ↦ (s, some (database e))
        | inr val ↦ elim (fn s key val).1 [
          | true ↦ iterate_loop prefix fn rest (fn s key val).0
          | false ↦ ((fn s key val).0, none)
        ]
      ]

  -- Iterate; Rewind is a Seek of the empty key.
  unfoldable pub iterate {ℓ} :
      {S : Type ℓ}
      → PersistenceStore
      → Text
      → (S → Text → Option Text → S × Bool)
      → S
      → S × Option Failure
  unfolding iterate_loop
  iterate st prefix fn s =
      if st.closed
      then (s, some store_closed)
      else iterate_loop prefix fn
          (if ltb 0 (length prefix)
            then B.seek prefix (B.begin st.db)
            else B.seek [] (B.begin st.db))
          s

  -- GetSize; the sum of two int64 values.
  unfoldable pub get_size : PersistenceStore → Failure ⊎ ℤ
  unfolding add_i64
  get_size s =
      if s.closed then inl store_closed else inr (add_i64 (B.sizes s.db).0 (B.sizes s.db).1)

  -- Close.
  unfoldable pub close : PersistenceStore → PersistenceStore × Option (Badger.Error B)
  close s = if s.closed then (s, none) else (record s { closed = true }, B.shut s.db)
