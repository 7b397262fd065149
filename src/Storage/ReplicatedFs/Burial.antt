-- ===== src/Storage/ReplicatedFs/Burial.antt =====
-- A deleted file under the later calls on the file system (src/storage/replicated_fs.go).
use web5_mesh.Base.{
  ℕ, ◌≡◌, ◌≢◌, refl, sym, ap, ◌∙◌, true, inl, inr, some, List, [], ◌∷◌, All, length, Bool-cases,
  Option-cases,
}
use web5_mesh.Base.Classes.{Text, Text_eq, text_eq, text_eq_iff}
use web5_mesh.Base.Map.{lookup, insert, lookup-insert_self, lookup-insert_other}
use web5_mesh.Storage.Persistence.{Badger}
use web5_mesh.Storage.ReplicatedFs.{
  FileMetadata, file_deleted, Outcome, done, failed, panicked, unfinished, ReplicatedFs,
}
use web5_mesh.Storage.ReplicatedFs.Files.{
  find_file, read_file, delete_file, put_tombstone, persist_metadata, mark_deleted, write_file,
  write_chunks, open_file, close_file, new_metadata, new_file_id, touch,
}
use web5_mesh.Storage.ReplicatedFs.Chunks.{write_chunks_frame}
use web5_mesh.Storage.ReplicatedFs.Calls.{Call, writes, deletes, run}
use web5_mesh.Storage.ReplicatedFs.Opening.{Names, find_file-Names, read_file-Names}

module _ (B : Badger) where
  -- The path names this file, which is deleted.
  record IsBuried (fs : ReplicatedFs B) (path file_id : Text) : Type 0 where
    metadata : FileMetadata
    names : Names B fs path file_id metadata
    gone : metadata.is_deleted ≡ true

  -- Metadata that may be entered under an id without digging the file up.
  abbrev Suits : Text → Text → FileMetadata → Type 0
  Suits file_id id m = text_eq id file_id ≡ true → m.is_deleted ≡ true

  enter-IsBuried :
      (fs after : ReplicatedFs B) (path file_id id : Text) (m : FileMetadata)
      → lookup path after.path_index ≡ lookup path fs.path_index
      → after.files ≡ insert id m fs.files
      → Suits file_id id m
      → IsBuried fs path file_id
      → IsBuried after path file_id
  enter-IsBuried fs after path file_id id m index files fit b =
      elim (Bool-cases (text_eq id file_id)) [
        | inl e ↦
            let same : id ≡ file_id = (text_eq_iff id file_id).0 e in
            record {
              metadata = m;
              names = record {
                indexed = index ∙ b.names.indexed;
                present =
                    ap (lookup file_id) files ∙ rw same (lookup-insert_self file_id m fs.files);
              };
              gone = fit e;
            }
        | inr e ↦
            let apart : file_id ≢ id = λ q. absurd (cc (e, (text_eq_iff id file_id).1 (sym q))) in
            record {
              metadata = b.metadata;
              names = record {
                indexed = index ∙ b.names.indexed;
                present =
                    ap (lookup file_id) files
                    ∙ lookup-insert_other id file_id m fs.files apart
                    ∙ b.names.present;
              };
              gone = b.gone;
            }
      ]

  -- What the map of files holds under the id is deleted.
  held-Suits :
      (fs : ReplicatedFs B) (path file_id id : Text) (old : FileMetadata)
      → IsBuried fs path file_id
      → lookup id fs.files ≡ some old
      → Suits file_id id old
  held-Suits fs path file_id id old b f e =
      let same : id ≡ file_id = (text_eq_iff id file_id).0 e in
      let there : lookup file_id fs.files ≡ some old = rw same at f in
      let equal : b.metadata ≡ old = cc (b.names.present, there) in
      ap (λ (m : FileMetadata). m.is_deleted) (sym equal) ∙ b.gone

  delete_file-IsBuried :
      (clock : ℕ → ℕ) (fs : ReplicatedFs B) (p owner path file_id : Text)
      → IsBuried fs path file_id
      → IsBuried (delete_file B clock fs p owner).0 path file_id
  unfolding delete_file find_file put_tombstone persist_metadata mark_deleted
  delete_file-IsBuried clock fs p owner path file_id b =
      elim (Option-cases (lookup p fs.path_index)) [
        | inl e ↦ rw (e, find_file, delete_file) b
        | inr (id, e) ↦ elim (Option-cases (lookup id fs.files)) [
          | inl f ↦ rw (e, find_file, f, delete_file) b
          | inr (m, f) ↦ elim (Bool-cases m.is_deleted) [
            | inl d ↦ rw (e, find_file, f, delete_file, d) b
            | inr d ↦
                rw (e, find_file, f, delete_file, d)
                  (enter-IsBuried fs _ path file_id id _ refl refl (λ same. refl) b)
          ]
        ]
      ]

  deleted-IsBuried :
      (clock : ℕ → ℕ) (fs : ReplicatedFs B) (path owner file_id : Text) (m : FileMetadata)
      → Names B fs path file_id m
      → IsBuried (delete_file B clock fs path owner).0 path file_id
  unfolding delete_file put_tombstone persist_metadata mark_deleted
  deleted-IsBuried clock fs path owner file_id m n = elim (Bool-cases m.is_deleted) [
    | inl d ↦
        rw (find_file-Names B fs path file_id m n, delete_file, d)
          (record { metadata = m; names = n; gone = d })
    | inr d ↦
        rw (find_file-Names B fs path file_id m n, delete_file, d)
          (record {
            metadata = mark_deleted B (clock 0) m;
            names = record { indexed = n.indexed; present = lookup-insert_self file_id _ fs.files };
            gone = refl;
          })
  ]

  module _ (sha256 : Text → Text) (time_string : ℕ → Text) where
    close_file-IsBuried :
        (clock : ℕ → ℕ) (id : Text) (m : FileMetadata) (content owner path file_id : Text)
        → Suits file_id id m
        → (r : ReplicatedFs B × Outcome (Badger.Error B) (List Text)) → IsBuried r.0 path file_id
        → IsBuried (close_file B sha256 time_string clock id m content owner r).0 path file_id
    unfolding close_file persist_metadata
    close_file-IsBuried clock id m content owner path file_id fit (fs, done ids) b =
        enter-IsBuried fs _ path file_id id _ refl refl fit b
    close_file-IsBuried clock id m content owner path file_id fit (fs, failed e) b = b
    close_file-IsBuried clock id m content owner path file_id fit (fs, panicked) b = b
    close_file-IsBuried clock id m content owner path file_id fit (fs, unfinished) b = b

    -- WriteFile after its path has been opened.
    filled-IsBuried :
        (clock : ℕ → ℕ) (opened : ReplicatedFs B) (id : Text) (m : FileMetadata)
        (content owner path file_id : Text)
        → Suits file_id id m
        → IsBuried opened path file_id
        → IsBuried
            (close_file B sha256 time_string clock id m content owner (
              write_chunks B sha256 time_string
                (length content)
                clock
                0
                opened
                m.version
                content
                [])).0
            path
            file_id
    filled-IsBuried clock opened id m content owner path file_id fit b =
        let (files, index, size, crdt) =
          write_chunks_frame B sha256 time_string (length content) clock 0 opened m.version content
            [] in
        close_file-IsBuried clock id m content owner path file_id fit _ (record {
          metadata = b.metadata;
          names = record {
            indexed = ap (lookup path) index ∙ b.names.indexed;
            present = ap (lookup file_id) files ∙ b.names.present;
          };
          gone = b.gone;
        })

    write_file-IsBuried :
        (clock : ℕ → ℕ) (fs : ReplicatedFs B) (p content owner path file_id : Text)
        → new_file_id B sha256 time_string (clock 0) p owner ≢ file_id
        → IsBuried fs path file_id
        → IsBuried (write_file B sha256 time_string clock fs p content owner).0 path file_id
    unfolding write_file open_file touch
    write_file-IsBuried clock fs p content owner path file_id n b =
        elim (Option-cases (lookup p fs.path_index)) [
          | inl e ↦
              let id = new_file_id B sha256 time_string (clock 0) p owner in
              let m =
                new_metadata B sha256 time_string clock fs.replication_factor id p owner content in
              let opened : ReplicatedFs B = record fs {
                files = insert id m fs.files;
                path_index = insert p id fs.path_index;
              } in
              let elsewhere : path ≢ p = λ q. absurd (cc (rw q at b.names.indexed, e)) in
              let fit : Suits file_id id m = λ same. absurd (n ((text_eq_iff id file_id).0 same)) in
              rw (e, open_file, write_file)
                (filled-IsBuried clock opened id m content owner path file_id fit (
                  enter-IsBuried fs opened path file_id id m
                    (lookup-insert_other p path id fs.path_index elsewhere) refl fit b))
          | inr (id, e) ↦ elim (Option-cases (lookup id fs.files)) [
            | inl f ↦ rw (e, open_file, f, write_file) b
            | inr (old, f) ↦
                let m = touch B sha256 time_string (clock 0) old content in
                let opened : ReplicatedFs B = record fs { files = insert id m fs.files } in
                let fit : Suits file_id id m = held-Suits fs path file_id id old b f in
                rw (e, open_file, f, write_file)
                  (filled-IsBuried clock opened id m content owner path file_id fit
                    (enter-IsBuried fs opened path file_id id m refl refl fit b))
          ]
        ]

    -- The calls draw no new file id that is this one.
    abbrev pub Avoids : Text → Call B sha256 time_string → Type 0
    Avoids file_id (writes clock path content owner) =
        new_file_id B sha256 time_string (clock 0) path owner ≢ file_id
    Avoids file_id (deletes clock path owner) = Unit

    run-IsBuried :
        (calls : List (Call B sha256 time_string)) (fs : ReplicatedFs B) (path file_id : Text)
        → All (Avoids file_id) calls
        → IsBuried fs path file_id
        → IsBuried (run B sha256 time_string fs calls) path file_id
    unfolding run
    run-IsBuried [] fs path file_id a b = b
    run-IsBuried (writes clock p content owner ∷ calls) fs path file_id a b =
        run-IsBuried calls _ path file_id a.1
          (write_file-IsBuried clock fs p content owner path file_id a.0 b)
    run-IsBuried (deletes clock p owner ∷ calls) fs path file_id a b =
        run-IsBuried calls _ path file_id a.1 (delete_file-IsBuried clock fs p owner path file_id b)

    -- Once DeleteFile has run on a path that names a file, ReadFile of the path answers that the file
    -- is deleted after any later WriteFile and DeleteFile, also of this path, whether they succeed or
    -- not, if no new file draws the id of this one.
    pub deleted_stays :
        (clock : ℕ → ℕ) (fs : ReplicatedFs B) (path owner file_id : Text) (m : FileMetadata)
        (calls : List (Call B sha256 time_string))
        → Names B fs path file_id m
        → All (Avoids file_id) calls
        → read_file B (run B sha256 time_string (delete_file B clock fs path owner).0 calls) path
          ≡ failed (file_deleted path)
    deleted_stays clock fs path owner file_id m calls n a =
        let b =
          run-IsBuried calls (delete_file B clock fs path owner).0 path file_id a
            (deleted-IsBuried clock fs path owner file_id m n) in
        rw (read_file-Names B _ path file_id b.metadata b.names, b.gone) refl
