-- ===== src/Storage/ReplicatedFs/Deletion.antt =====
-- DeleteFile, and the writes that fail, of ReplicatedFS (src/storage/replicated_fs.go).
use web5_mesh.Base.{
  ℕ, suc, ◌≡◌, ◌≢◌, refl, ap, ◌∙◌, true, false, inl, inr, none, List, [], ◌∷◌, length, Bool-cases,
}
use web5_mesh.Base.Classes.{Text, Text_eq}
use web5_mesh.Base.Map.{lookup, insert, lookup-insert_self}
use web5_mesh.Storage.Persistence.{Badger, store_closed, put}
use web5_mesh.Storage.ReplicatedFs.{
  FileMetadata, FsError, file_deleted, chunk_not_persisted, Outcome, done, failed, panicked,
  unfinished, ReplicatedFs,
}
use web5_mesh.Storage.ReplicatedFs.Files.{
  read_file, delete_file, put_tombstone, persist_metadata, mark_deleted, write_file, write_chunks,
  persist_chunk, open_file, close_file, new_metadata, new_file_id, read_chunks,
}
use web5_mesh.Storage.ReplicatedFs.Chunks.{write_chunks_frame}
use web5_mesh.Storage.ReplicatedFs.Opening.{Names, find_file-Names, read_file-Names, was_deleted}

module _ (B : Badger) where
  delete_live :
      (clock : ℕ → ℕ) (fs : ReplicatedFs B) (path owner file_id : Text) (m : FileMetadata)
      → Names B fs path file_id m
      → m.is_deleted ≡ false
      → ((delete_file B clock fs path owner).1 ≡ done tt)
        × Names B (delete_file B clock fs path owner).0 path file_id (mark_deleted B (clock 0) m)
  unfolding delete_file put_tombstone persist_metadata
  delete_live clock fs path owner file_id m n h =
      rw (find_file-Names B fs path file_id m n, delete_file, h)
        (refl, record { indexed = n.indexed; present = lookup-insert_self file_id _ fs.files })

  delete_again :
      (clock : ℕ → ℕ) (fs : ReplicatedFs B) (path owner file_id : Text) (m : FileMetadata)
      → Names B fs path file_id m
      → m.is_deleted ≡ true
      → delete_file B clock fs path owner ≡ (fs, done tt)
  unfolding delete_file
  delete_again clock fs path owner file_id m n h =
      rw (find_file-Names B fs path file_id m n, delete_file, h) refl

  -- The path names a deleted file.
  record IsBuried (fs : ReplicatedFs B) (path : Text) : Type 0 where
    file_id : Text
    metadata : FileMetadata
    names : Names B fs path file_id metadata
    gone : metadata.is_deleted ≡ true

  delete_buries :
      (clock : ℕ → ℕ) (fs : ReplicatedFs B) (path owner file_id : Text) (m : FileMetadata)
      → Names B fs path file_id m
      → ((delete_file B clock fs path owner).1 ≡ done tt)
        × IsBuried (delete_file B clock fs path owner).0 path
  unfolding mark_deleted
  delete_buries clock fs path owner file_id m n = elim (Bool-cases m.is_deleted) [
    | inl h ↦
        rw (delete_again clock fs path owner file_id m n h)
          (refl, record { file_id = file_id; metadata = m; names = n; gone = h })
    | inr h ↦
        let (ok, names) = delete_live clock fs path owner file_id m n h in
        (
          ok,
          record {
            file_id = file_id;
            metadata = mark_deleted B (clock 0) m;
            names = names;
            gone = refl;
          },
        )
  ]

  buried_reads :
      (clock : ℕ → ℕ) (fs : ReplicatedFs B) (path owner : Text)
      → IsBuried fs path
      → (read_file B fs path ≡ failed (file_deleted path))
        × (was_deleted B fs path ≡ true)
        × (delete_file B clock fs path owner ≡ (fs, done tt))
  unfolding was_deleted
  buried_reads clock fs path owner b = (
    rw (read_file-Names B fs path b.file_id b.metadata b.names, b.gone) refl,
    rw (b.names.indexed, was_deleted, b.names.present) b.gone,
    delete_again clock fs path owner b.file_id b.metadata b.names b.gone,
  )

  -- DeleteFile of a path that names a file succeeds, whether the file is deleted or not; the path
  -- then reads as deleted, and deleting it again changes nothing.
  pub delete_file_contract :
      (clock later : ℕ → ℕ) (fs : ReplicatedFs B) (path owner file_id : Text) (m : FileMetadata)
      → Names B fs path file_id m
      → let after = (delete_file B clock fs path owner).0 in
        ((delete_file B clock fs path owner).1 ≡ done tt)
        × (read_file B after path ≡ failed (file_deleted path))
        × (was_deleted B after path ≡ true)
        × (delete_file B later after path owner ≡ (after, done tt))
  delete_file_contract clock later fs path owner file_id m n =
      let (ok, b) = delete_buries clock fs path owner file_id m n in
      let (reads, marked, again) =
        buried_reads later (delete_file B clock fs path owner).0 path owner b in
      (ok, reads, marked, again)

  module _ (sha256 : Text → Text) (time_string : ℕ → Text) where
    closed_chunks :
        (fuel : ℕ) (clock : ℕ → ℕ) (fs : ReplicatedFs B) (version c : ℕ) (rest : Text)
        → fs.store.closed ≡ true
        → (write_chunks B sha256 time_string (suc fuel) clock 0 fs version (c ∷ rest) []).1
          ≡ failed (chunk_not_persisted store_closed)
    unfolding write_chunks persist_chunk put
    closed_chunks fuel clock fs version c rest h = rw (h, write_chunks) refl

    close_file_failed :
        (clock : ℕ → ℕ) (file_id : Text) (m : FileMetadata) (content owner : Text)
        → (r : ReplicatedFs B × Outcome (Badger.Error B) (List Text)) (e : FsError (Badger.Error B))
        → r.1 ≡ failed e
        → close_file B sha256 time_string clock file_id m content owner r ≡ (r.0, failed e)
    unfolding close_file
    close_file_failed clock file_id m content owner (fs, done ids) e h = absurd (cc h)
    close_file_failed clock file_id m content owner (fs, failed e') e h = cc
    close_file_failed clock file_id m content owner (fs, panicked) e h = absurd (cc h)
    close_file_failed clock file_id m content owner (fs, unfinished) e h = absurd (cc h)

    -- A WriteFile to a new path whose first chunk cannot be stored, the store being closed, fails;
    -- but the path is in the index afterwards, and reads as an empty file.
    pub failed_write_reads_empty :
        (clock : ℕ → ℕ) (fs : ReplicatedFs B) (path content owner : Text)
        → fs.store.closed ≡ true
        → lookup path fs.path_index ≡ none
        → content ≢ []
        → let r = write_file B sha256 time_string clock fs path content owner in
          (r.1 ≡ failed (chunk_not_persisted store_closed)) × (read_file B r.0 path ≡ done [])
    unfolding write_file open_file close_file new_metadata read_chunks
    failed_write_reads_empty clock fs path [] owner h e n = absurd (n refl)
    failed_write_reads_empty clock fs path (c ∷ rest) owner h e n =
        let id = new_file_id B sha256 time_string (clock 0) path owner in
        let m =
          new_metadata B sha256 time_string clock fs.replication_factor id path owner (c ∷ rest) in
        let opened : ReplicatedFs B = record fs {
          files = insert id m fs.files;
          path_index = insert path id fs.path_index;
        } in
        let r =
          write_chunks B sha256 time_string (length (c ∷ rest)) clock 0 opened m.version (c ∷ rest)
            [] in
        let (files, index, size, crdt) =
          write_chunks_frame B sha256 time_string (length (c ∷ rest)) clock 0 opened m.version
            (c ∷ rest) [] in
        let stopped = closed_chunks (length rest) clock opened m.version c rest h in
        let ran : write_file B sha256 time_string clock fs path (c ∷ rest) owner
            ≡ (r.0, failed (chunk_not_persisted store_closed)) =
          rw (e, open_file, write_file)
            (close_file_failed clock id m (c ∷ rest) owner r _ stopped) in
        rw ran (
          refl,
          read_file-Names B r.0 path id m (record {
            indexed = ap (lookup path) index ∙ lookup-insert_self path id fs.path_index;
            present = ap (lookup id) files ∙ lookup-insert_self id m fs.files;
          }),
        )
