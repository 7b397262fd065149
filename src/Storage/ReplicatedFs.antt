-- ===== src/Storage/ReplicatedFs.antt =====
-- src/storage/replicated_fs.go, ReplicatedFS: what it keeps, how it starts, and the calls that
-- change no file. The calls on files are in the child Files. Each call holds the lock of the file
-- system from its start to its end, SyncWithPeer apart. No caller changes the metadata that it is
-- handed, or the bytes that it has written; a path index is a Go map, listed in the order of the
-- range.
pub mod Files
pub mod Chunks
pub mod Opening
pub mod Contents
pub mod Calls
pub mod Deletion
pub mod Listing
pub mod Burial
pub mod Restart
use web5_mesh.Base.{
  ℕ, ◌+◌, ◌*◌, ◌≡◌, ◌⊎◌, inl, inr, Bool, true, false, not, ◌&&◌, ◌||◌, Option, none, some, List, [],
  ◌∷◌, ltb, leb, ◌==◌, if◌then◌else◌, length, take, drop, ◌>>=◌,
}
use web5_mesh.Base.Classes.{Text, Text_eq, text_eq}
use web5_mesh.Base.Int.{ℤ, pos, negsuc, ltb_ℤ, pos_part}
use web5_mesh.Base.Bytes.{codes}
use web5_mesh.Base.Map.{lookup, insert}
use web5_mesh.Storage.Document
use web5_mesh.Storage.Document.{Document}
use web5_mesh.Storage.Store
use web5_mesh.Storage.Store.{CrdtStore}
use web5_mesh.Storage.Pointers.{pointer_of, merge_documents}
use web5_mesh.Storage.Persistence
use web5_mesh.Storage.Persistence.{Badger, StoreError, PersistenceStore}

pub record Chunk : Type 0 where
  pub id : Text
  pub content : Text
  pub size : ℕ
  pub hash : Text
  pub version : ℕ
  pub timestamp : ℕ

pub record FileMetadata : Type 0 where
  pub id : Text
  pub name : Text
  pub path : Text
  pub chunks : List Text
  pub size : ℕ
  pub version : ℕ
  pub created_at : ℕ
  pub modified_at : ℕ
  pub owner : Text
  pub permissions : List (Text × Bool)
  pub replication : ℕ
  pub is_deleted : Bool

-- The errors that the calls make; E is the database's own.
pub data FsError (E : Type 0) : Type 0 where
  store_required : FsError E
  crdt_store_required : FsError E
  load_failed : StoreError E → FsError E
  file_not_found : Text → FsError E
  file_deleted : Text → FsError E
  chunk_missing : Text → FsError E
  chunk_not_persisted : StoreError E → FsError E

-- How a call ends. `panicked` is the use of a nil pointer; `unfinished` is a loop that has not
-- ended within its fuel.
pub data Outcome (E : Type 0) (A : Type 0) : Type 0 where
  done : A → Outcome E A
  failed : FsError E → Outcome E A
  panicked : Outcome E A
  unfinished : Outcome E A

-- A Chunk and a FileMetadata of which only the ID is set.
unfoldable pub blank_chunk : Text → Chunk
blank_chunk id = record { id = id; content = []; size = 0; hash = []; version = 0; timestamp = 0 }

unfoldable pub blank_metadata : Text → FileMetadata
blank_metadata id = record {
  id = id;
  name = [];
  path = [];
  chunks = [];
  size = 0;
  version = 0;
  created_at = 0;
  modified_at = 0;
  owner = [];
  permissions = [];
  replication = 0;
  is_deleted = false;
}

module _ (B : Badger) where
  pub record ReplicatedFs : Type 0 where
    pub store : PersistenceStore B
    pub crdt_store : CrdtStore
    pub files : List (Text × FileMetadata)
    pub chunks : List (Text × Chunk)
    pub path_index : List (Text × Text)
    pub replication_factor : ℕ
    pub chunk_size : ℕ
    pub sync_in_progress : Bool
    pub last_sync_time : ℕ

  pub record FsOptions : Type 0 where
    pub store : Option (PersistenceStore B)
    pub crdt_store : Option CrdtStore
    pub replication_factor : ℤ
    pub chunk_size : ℤ

  unfoldable pub default_options : Option (PersistenceStore B) → Option CrdtStore → FsOptions
  default_options store crdt_store = record {
    store = store;
    crdt_store = crdt_store;
    replication_factor = pos 3;
    chunk_size = pos (1024 * 1024);
  }

  -- What NewReplicatedFS writes into the options it is given.
  unfoldable pub fix_options : FsOptions → FsOptions
  fix_options o = record o {
    replication_factor = if ltb_ℤ o.replication_factor (pos 3) then pos 3 else o.replication_factor;
    chunk_size = if ltb_ℤ (pos 0) o.chunk_size then o.chunk_size else pos (1024 * 1024);
  }

  -- The two callbacks of loadIndex.
  unfoldable pub load_file : ReplicatedFs → Text → Option Text → ReplicatedFs
  unfolding blank_metadata
  load_file fs key value =
      let file_id = drop 5 key in
      record fs {
        files = insert file_id (blank_metadata file_id) fs.files;
        path_index = insert file_id file_id fs.path_index;
      }

  unfoldable pub load_chunk : ReplicatedFs → Text → Option Text → ReplicatedFs
  unfolding blank_chunk
  load_chunk fs key value =
      let chunk_id = drop 6 key in
      record fs { chunks = insert chunk_id (blank_chunk chunk_id) fs.chunks }

  unfoldable pub load_index : ReplicatedFs → ReplicatedFs × Option (StoreError (Badger.Error B))
  unfolding load_file load_chunk
  load_index fs =
      let files =
        Persistence.iterate B fs.store (codes "file:") (λ s k v. (load_file s k v, true)) fs in
      let chunks =
        Persistence.iterate B fs.store (codes "chunk:") (λ s k v. (load_chunk s k v, true))
          files.0 in
      elim files.1 [ none ↦ chunks | some e ↦ (files.0, some e) ]

  -- NewReplicatedFS with options that are fixed, and stores that are not nil.
  unfoldable pub fresh : FsOptions → PersistenceStore B → CrdtStore → ReplicatedFs
  fresh o store crdt_store = record {
    store = store;
    crdt_store = crdt_store;
    files = [];
    chunks = [];
    path_index = [];
    replication_factor = pos_part o.replication_factor;
    chunk_size = pos_part o.chunk_size;
    sync_in_progress = false;
    last_sync_time = 0;
  }

  unfoldable pub loaded :
      ReplicatedFs × Option (StoreError (Badger.Error B)) → Outcome (Badger.Error B) ReplicatedFs
  loaded (fs, none) = done fs
  loaded (fs, some e) = failed (load_failed e)

  unfoldable pub new : FsOptions → Outcome (Badger.Error B) ReplicatedFs
  unfolding fix_options fresh load_index loaded
  new o = elim o.store [
    | none ↦ failed store_required
    | some store ↦ elim o.crdt_store [
      | none ↦ failed crdt_store_required
      | some crdt_store ↦ loaded (load_index (fresh (fix_options o) store crdt_store))
    ]
  ]

  -- The loop of ListFiles. `path[:len(prefix)] == prefix` is tested behind the lengths.
  unfoldable pub list_paths : Text → List (Text × FileMetadata) → List (Text × Text) → List Text
  list_paths prefix files [] = []
  list_paths prefix files ((path, file_id) ∷ index) =
      let rest = list_paths prefix files index in
      elim (lookup file_id files) [
        | none ↦ rest
        | some metadata ↦
            if not metadata.is_deleted
              && (text_eq prefix []
                  || (leb (length prefix) (length path)
                      && text_eq (take (length prefix) path) prefix))
            then path ∷ rest
            else rest
      ]

  unfoldable pub list_files : ReplicatedFs → Text → List Text
  unfolding list_paths
  list_files fs prefix = list_paths prefix fs.files fs.path_index

  -- One turn of the loop of SyncWithPeer, which looks the id up twice in the same store and merges
  -- what the first lookup found into what the second found; `none` if it never returns.
  unfoldable pub sync_document : (Text → Text) → Text → CrdtStore → Option CrdtStore
  unfolding Store.get Store.put Document.clone pointer_of merge_documents
  sync_document sha256 id s = elim (Store.get s id) [
    | none ↦ some s
    | some remote ↦ elim (Store.get s id) [
      | none ↦ some (Store.put s (Document.clone remote))
      | some local ↦
          merge_documents sha256 (pointer_of s id) (pointer_of s id) local remote
          >>= (λ r. some (record s { documents = insert id r.0 s.documents }))
    ]
  ]

  unfoldable pub sync_documents : (Text → Text) → List Text → CrdtStore → Option CrdtStore
  unfolding sync_document
  sync_documents sha256 [] s = some s
  sync_documents sha256 (id ∷ ids) s = sync_document sha256 id s >>= sync_documents sha256 ids

  -- SyncWithPeer, whose arguments are not used; `now` is the clock at its end. `none` if it never
  -- returns.
  unfoldable pub sync_with_peer : (Text → Text) → ℕ → ReplicatedFs → Option ReplicatedFs
  unfolding sync_documents Store.get_all_ids
  sync_with_peer sha256 now fs =
      sync_documents sha256 (Store.get_all_ids fs.crdt_store) fs.crdt_store
      >>= (λ s. some (record fs { crdt_store = s; sync_in_progress = false; last_sync_time = now }))

  -- The counters of GetReplicationStatus.
  pub record ReplicationStatus : Type 0 where
    pub total_files : ℕ
    pub total_chunks : ℕ
    pub replicated_chunks : ℕ

  unfoldable pub count_replicas : List (Text × FileMetadata) → ReplicationStatus → ReplicationStatus
  count_replicas [] t = t
  count_replicas ((id, m) ∷ files) t = count_replicas files (
      if m.is_deleted then t else record {
        total_files = t.total_files + 1;
        total_chunks = t.total_chunks + length m.chunks;
        replicated_chunks = t.replicated_chunks + length m.chunks;
      })

  unfoldable pub get_replication_status : ReplicatedFs → ReplicationStatus
  unfolding count_replicas
  get_replication_status fs =
      count_replicas fs.files (record { total_files = 0; total_chunks = 0; replicated_chunks = 0 })

  pub record FsStats : Type 0 where
    pub files : ℕ
    pub chunks : ℕ
    pub paths : ℕ
    pub crdt_docs : ℕ

  unfoldable pub get_stats : ReplicatedFs → FsStats
  unfolding Store.stats
  get_stats fs = record {
    files = length fs.files;
    chunks = length fs.chunks;
    paths = length fs.path_index;
    crdt_docs = (Store.stats fs.crdt_store).total_documents;
  }
