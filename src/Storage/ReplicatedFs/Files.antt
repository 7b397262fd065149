-- ===== src/Storage/ReplicatedFs/Files.antt =====
-- The calls of ReplicatedFS on files (src/storage/replicated_fs.go): WriteFile with its chunks,
-- ReadFile, DeleteFile and GetMetadata. `clock n` is what the n-th reading of the clock in a call
-- answers: 0 to 2 for the metadata, 3 to 5 for the document, 6 and on for the chunks.
use web5_mesh.Base.{
  ℕ, zero, suc, ◌+◌, true, false, Option, none, some, List, [], ◌∷◌, ◌++◌, if◌then◌else◌, length,
  take, drop, u64,
}
use web5_mesh.Base.Classes.{Text, Text_eq}
use web5_mesh.Base.Bytes.{codes}
use web5_mesh.Base.Map.{lookup, insert}
use web5_mesh.P2p.Access.{hex}
use web5_mesh.Storage.Document
use web5_mesh.Storage.Store
use web5_mesh.Storage.Persistence
use web5_mesh.Storage.Persistence.{Badger, StoreError}
use web5_mesh.Storage.ReplicatedFs.{
  Chunk, FileMetadata, file_not_found, file_deleted, chunk_missing, chunk_not_persisted, Outcome,
  done, failed, panicked, unfinished, ReplicatedFs,
}

-- The loop of ReadFile, with the data read so far.
unfoldable pub read_chunks : {E : Type 0} → List (Text × Chunk) → List Text → Text → Outcome E Text
read_chunks chunks [] content = done content
read_chunks chunks (id ∷ ids) content = elim (lookup id chunks) [
  | none ↦ failed (chunk_missing id)
  | some chunk ↦ read_chunks chunks ids (content ++ chunk.content)
]

-- The id of a chunk is the hash of its bytes; sha256 is the standard library's.
module _ (sha256 : Text → Text) where
  unfoldable pub chunk_id : Text → Text
  unfolding hex
  chunk_id content = hex (sha256 content)

  unfoldable pub make_chunk : Text → ℕ → ℕ → Chunk
  unfolding chunk_id
  make_chunk content version now = record {
    id = chunk_id content;
    content = content;
    size = length content;
    hash = chunk_id content;
    version = version;
    timestamp = now;
  }

module _ (B : Badger) where
  -- The file that a path names. `panicked` is the use of the nil metadata of a path whose file is
  -- not in the map.
  unfoldable pub find_file : ReplicatedFs B → Text → Outcome (Badger.Error B) (Text × FileMetadata)
  find_file fs path = elim (lookup path fs.path_index) [
    | none ↦ failed (file_not_found path)
    | some file_id ↦ elim (lookup file_id fs.files) [
      | none ↦ panicked
      | some metadata ↦ done (file_id, metadata)
    ]
  ]

  -- ReadFile and GetMetadata turn a deleted file down.
  unfoldable pub find_live : ReplicatedFs B → Text → Outcome (Badger.Error B) FileMetadata
  unfolding find_file
  find_live fs path = elim (find_file fs path) [
    | done (file_id, metadata) ↦
        if metadata.is_deleted then failed (file_deleted path) else done metadata
    | failed e ↦ failed e
    | panicked ↦ panicked
    | unfinished ↦ unfinished
  ]

  unfoldable pub read_file : ReplicatedFs B → Text → Outcome (Badger.Error B) Text
  unfolding find_live read_chunks
  read_file fs path = elim (find_live fs path) [
    | done metadata ↦ read_chunks fs.chunks metadata.chunks []
    | failed e ↦ failed e
    | panicked ↦ panicked
    | unfinished ↦ unfinished
  ]

  unfoldable pub get_metadata : ReplicatedFs B → Text → Outcome (Badger.Error B) FileMetadata
  unfolding find_live
  get_metadata fs path = find_live fs path

  unfoldable pub persist_chunk :
      ReplicatedFs B → Chunk → ReplicatedFs B × Option (StoreError (Badger.Error B))
  persist_chunk fs chunk =
      let r = Persistence.put B fs.store (codes "chunk:" ++ chunk.id) chunk.content in
      (record fs { store = r.0 }, r.1)

  -- persistMetadata computes a key and stores nothing.
  unfoldable pub persist_metadata : ReplicatedFs B → FileMetadata → ReplicatedFs B
  persist_metadata fs metadata = fs

  -- Delete of a document that has just been made, put into the document store.
  unfoldable pub put_tombstone : (ℕ → ℕ) → ReplicatedFs B → Text → Text → Text → ReplicatedFs B
  unfolding Store.put Document.new Document.delete
  put_tombstone clock fs file_id path owner =
      let doc = Document.new (clock 3) (clock 4) (clock 5) file_id path owner in
      record fs { crdt_store = Store.put fs.crdt_store (Document.delete (clock 6) doc owner) }

  unfoldable pub mark_deleted : ℕ → FileMetadata → FileMetadata
  mark_deleted now m = record m {
    is_deleted = true;
    modified_at = now;
    version = u64 (m.version + 1);
  }

  unfoldable pub delete_file :
      (ℕ → ℕ) → ReplicatedFs B → Text → Text → ReplicatedFs B × Outcome (Badger.Error B) Unit
  unfolding find_file put_tombstone persist_metadata mark_deleted
  delete_file clock fs path owner = elim (find_file fs path) [
    | done (file_id, m) ↦
        if m.is_deleted
        then (fs, done tt)
        else (let marked = mark_deleted (clock 0) m in
            let changed : ReplicatedFs B = record fs { files = insert file_id marked fs.files } in
            (persist_metadata (put_tombstone clock changed file_id path owner) marked, done tt))
    | failed e ↦ (fs, failed e)
    | panicked ↦ (fs, panicked)
    | unfinished ↦ (fs, unfinished)
  ]

  -- sha256 of the standard library, and time.Time's String.
  module _ (sha256 : Text → Text) (time_string : ℕ → Text) where
    -- The chunk loop of WriteFile on the data that is left, of which the loop's variable i is the
    -- start; `round` counts its rounds. A chunk that is not persisted ends the call.
    unfoldable pub write_chunks :
        ℕ
        → (ℕ → ℕ)
        → ℕ
        → ReplicatedFs B
        → ℕ
        → Text
        → List Text
        → ReplicatedFs B × Outcome (Badger.Error B) (List Text)
    unfolding make_chunk persist_chunk
    write_chunks fuel clock round fs version [] ids = (fs, done ids)
    write_chunks zero clock round fs version (c ∷ rest) ids = (fs, unfinished)
    write_chunks (suc fuel) clock round fs version (c ∷ rest) ids =
        let chunk = make_chunk sha256 (take fs.chunk_size (c ∷ rest)) version (clock (6 + round)) in
        let kept : ReplicatedFs B = record fs { chunks = insert chunk.id chunk fs.chunks } in
        elim (persist_chunk kept chunk).1 [
          | none ↦
              write_chunks fuel clock (suc round) (persist_chunk kept chunk).0 version
                (drop fs.chunk_size (c ∷ rest)) (ids ++ chunk.id ∷ [])
          | some e ↦ ((persist_chunk kept chunk).0, failed (chunk_not_persisted e))
        ]

    -- The metadata that WriteFile starts from: that of the path's file with the next version, ...
    unfoldable pub touch : ℕ → FileMetadata → Text → FileMetadata
    touch now m content = record m {
      version = u64 (m.version + 1);
      modified_at = now;
      size = length content;
    }

    -- ... or that of a new file.
    unfoldable pub new_file_id : ℕ → Text → Text → Text
    unfolding hex
    new_file_id now path owner = take 32 (hex (sha256 (path ++ owner ++ time_string now)))

    unfoldable pub new_metadata : (ℕ → ℕ) → ℕ → Text → Text → Text → Text → FileMetadata
    new_metadata clock replication file_id path owner content = record {
      id = file_id;
      name = path;
      path = path;
      chunks = [];
      size = length content;
      version = 1;
      created_at = clock 1;
      modified_at = clock 2;
      owner = owner;
      permissions = (owner, true) ∷ [];
      replication = replication;
      is_deleted = false;
    }

    unfoldable pub open_file :
        (ℕ → ℕ)
        → ReplicatedFs B
        → Text
        → Text
        → Text
        → Outcome (Badger.Error B) (ReplicatedFs B × Text × FileMetadata)
    unfolding touch new_file_id new_metadata
    open_file clock fs path content owner = elim (lookup path fs.path_index) [
      | none ↦
          let file_id = new_file_id (clock 0) path owner in
          let m = new_metadata clock fs.replication_factor file_id path owner content in
          let opened : ReplicatedFs B = record fs {
            files = insert file_id m fs.files;
            path_index = insert path file_id fs.path_index;
          } in
          done (opened, file_id, m)
      | some file_id ↦ elim (lookup file_id fs.files) [
        | none ↦ panicked
        | some old ↦
            let m = touch (clock 0) old content in
            let opened : ReplicatedFs B = record fs { files = insert file_id m fs.files } in
            done (opened, file_id, m)
      ]
    ]

    -- The end of WriteFile, after the chunks.
    unfoldable pub close_file :
        (ℕ → ℕ)
        → Text
        → FileMetadata
        → Text
        → Text
        → ReplicatedFs B × Outcome (Badger.Error B) (List Text)
        → ReplicatedFs B × Outcome (Badger.Error B) FileMetadata
    unfolding persist_metadata Store.put Document.new
    close_file clock file_id m content owner (fs, done ids) =
        let written : FileMetadata = record m { chunks = ids; size = length content } in
        let changed : ReplicatedFs B = record fs {
          files = insert file_id written fs.files;
          crdt_store =
              Store.put fs.crdt_store
                (Document.new (clock 3) (clock 4) (clock 5) file_id m.path owner);
        } in
        (persist_metadata changed written, done written)
    close_file clock file_id m content owner (fs, failed e) = (fs, failed e)
    close_file clock file_id m content owner (fs, panicked) = (fs, panicked)
    close_file clock file_id m content owner (fs, unfinished) = (fs, unfinished)

    -- Every round of the loop takes at least one byte off, so the length of the data is enough fuel.
    unfoldable pub write_file :
        (ℕ → ℕ)
        → ReplicatedFs B
        → Text
        → Text
        → Text
        → ReplicatedFs B × Outcome (Badger.Error B) FileMetadata
    unfolding open_file write_chunks close_file
    write_file clock fs path content owner = elim (open_file clock fs path content owner) [
      | done (opened, file_id, m) ↦
          close_file clock file_id m content owner
            (write_chunks (length content) clock 0 opened m.version content [])
      | failed e ↦ (fs, failed e)
      | panicked ↦ (fs, panicked)
      | unfinished ↦ (fs, unfinished)
    ]
