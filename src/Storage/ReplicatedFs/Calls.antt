-- ===== src/Storage/ReplicatedFs/Calls.antt =====
-- Sequences of WriteFile and DeleteFile from the constructor on (src/storage/replicated_fs.go): no
-- call uses a nil pointer, and the chunk loop always ends.
use web5_mesh.Base.{
  ℕ, ◌≡◌, ◌≢◌, refl, sym, ◌∙◌, inl, inr, some, List, [], ◌∷◌, arith, if_intro, length, Option-cases,
  Bool-cases,
}
use web5_mesh.Base.Classes.{Text, Text_eq, text_eq, text_eq_iff}
use web5_mesh.Base.Map.{lookup, insert, lookup-insert}
use web5_mesh.Storage.Persistence.{Badger}
use web5_mesh.Storage.ReplicatedFs.{
  FileMetadata, Outcome, done, failed, panicked, unfinished, ReplicatedFs,
}
use web5_mesh.Storage.ReplicatedFs.Files.{
  read_chunks, find_file, find_live, read_file, close_file, write_file, delete_file, put_tombstone,
  persist_metadata,
}
use web5_mesh.Storage.ReplicatedFs.Chunks.{
  Ends, outcome_intro, write_chunks-Ends, write_chunks_frame,
}
use web5_mesh.Storage.ReplicatedFs.Opening.{IsWellFormed, IsOpened, open_file-IsOpened}

some_injective : {A : Type 0} {a b : A} → some a ≡ some b → a ≡ b
some_injective h = cc

module _ (B : Badger) where
  -- A file put into the map leaves every path with a file.
  insert-IsWellFormed :
      (fs after : ReplicatedFs B) (file_id : Text) (m : FileMetadata)
      → after.chunk_size ≡ fs.chunk_size
      → after.path_index ≡ fs.path_index
      → after.files ≡ insert file_id m fs.files
      → IsWellFormed B fs
      → IsWellFormed B after
  insert-IsWellFormed fs after file_id m s i f w = record {
    sized = rw s w.sized;
    indexed = λ path id h.
        let (old, there) = w.indexed path id (rw i at h) in
        let now = lookup-insert file_id id m fs.files in
        elim (Bool-cases (text_eq file_id id)) [
          | inl e ↦ (m, rw f (rw e at now))
          | inr e ↦ (old, rw f ((rw e at now) ∙ there))
        ];
  }

  frame-IsWellFormed :
      (fs after : ReplicatedFs B)
      → after.chunk_size ≡ fs.chunk_size
      → after.path_index ≡ fs.path_index
      → after.files ≡ fs.files
      → IsWellFormed B fs
      → IsWellFormed B after
  frame-IsWellFormed fs after s i f w = record {
    sized = rw s w.sized;
    indexed = λ path id h. rw f (w.indexed path id (rw i at h));
  }

  find_file-Ends :
      (fs : ReplicatedFs B) (path : Text) → IsWellFormed B fs → Ends (find_file B fs path)
  unfolding find_file
  find_file-Ends fs path w = elim (Option-cases (lookup path fs.path_index)) [
    | inl e ↦ rw (e, find_file) tt
    | inr (id, e) ↦ let (m, f) = w.indexed path id e in rw (e, find_file, f) tt
  ]

  read_chunks-Ends :
      (fs : ReplicatedFs B) (ids : List Text) (content : Text)
      → Ends (read_chunks {E = Badger.Error B} fs.chunks ids content)
  unfolding read_chunks
  read_chunks-Ends fs [] content = tt
  read_chunks-Ends fs (id ∷ ids) content = elim (Option-cases (lookup id fs.chunks)) [
    | inl e ↦ rw (e, read_chunks) tt
    | inr (c, e) ↦ rw (e, read_chunks) (read_chunks-Ends fs ids _)
  ]

  find_live-Ends :
      (fs : ReplicatedFs B) (path : Text) → IsWellFormed B fs → Ends (find_live B fs path)
  unfolding find_live
  find_live-Ends fs path w =
      outcome_intro Ends (find_file B fs path) _ _ _ _ (find_file-Ends fs path w)
        (λ r _. if_intro Ends r.1.is_deleted _ _ (λ _. tt) (λ _. tt)) (λ e. tt)

  pub read_file-Ends :
      (fs : ReplicatedFs B) (path : Text) → IsWellFormed B fs → Ends (read_file B fs path)
  unfolding read_file
  read_file-Ends fs path w =
      outcome_intro Ends (find_live B fs path) _ _ _ _ (find_live-Ends fs path w)
        (λ m _. read_chunks-Ends fs m.chunks []) (λ e. tt)

  pub delete_file-IsWellFormed :
      (clock : ℕ → ℕ) (fs : ReplicatedFs B) (path owner : Text)
      → IsWellFormed B fs
      → IsWellFormed B (delete_file B clock fs path owner).0
        × Ends (delete_file B clock fs path owner).1
  unfolding delete_file put_tombstone persist_metadata
  delete_file-IsWellFormed clock fs path owner w =
      outcome_intro
        (λ (r : ReplicatedFs B × Outcome (Badger.Error B) Unit). IsWellFormed B r.0 × Ends r.1)
        (find_file B fs path) _ _ _ _ (find_file-Ends fs path w)
        (λ (r : Text × FileMetadata) _.
          if_intro
            (λ (r : ReplicatedFs B × Outcome (Badger.Error B) Unit). IsWellFormed B r.0 × Ends r.1)
            r.1.is_deleted _ _ (λ _. (w, tt))
            (λ _. (insert-IsWellFormed fs _ r.0 _ refl refl refl w, tt)))
        (λ e. (w, tt))

  module _ (sha256 : Text → Text) (time_string : ℕ → Text) where
    opened-IsWellFormed :
        (fs opened : ReplicatedFs B) (path file_id : Text) (m : FileMetadata)
        → IsOpened B sha256 time_string fs opened path file_id m
        → IsWellFormed B fs
        → IsWellFormed B opened
    opened-IsWellFormed fs opened path file_id m o w = record {
      sized = rw o.sized w.sized;
      indexed = λ p id h. elim (Bool-cases (text_eq p path)) [
        | inl e ↦
            let same : p ≡ path = (text_eq_iff p path).0 e in
            let found : lookup path opened.path_index ≡ some id = rw same at h in
            let aim : file_id ≡ id = some_injective (sym o.names.indexed ∙ found) in
            (m, rw (← aim) o.names.present)
        | inr e ↦
            let apart : p ≢ path = λ q. absurd (cc (e, (text_eq_iff p path).1 q)) in
            let (old, there) = w.indexed p id (sym (o.others p apart) ∙ h) in
            elim (Bool-cases (text_eq id file_id)) [
              | inl f ↦ (m, rw ((text_eq_iff id file_id).0 f) o.names.present)
              | inr f ↦
                  let different : id ≢ file_id =
                    λ q. absurd (cc (f, (text_eq_iff id file_id).1 q)) in
                  (old, o.files id different ∙ there)
            ]
      ];
    }

    close_file-IsWellFormed :
        (clock : ℕ → ℕ) (file_id : Text) (m : FileMetadata) (content owner : Text)
        → (r : ReplicatedFs B × Outcome (Badger.Error B) (List Text)) → Ends r.1
        → IsWellFormed B r.0
        → IsWellFormed B (close_file B sha256 time_string clock file_id m content owner r).0
          × Ends (close_file B sha256 time_string clock file_id m content owner r).1
    unfolding close_file persist_metadata
    close_file-IsWellFormed clock file_id m content owner (fs, done ids) h w =
        (insert-IsWellFormed fs _ file_id _ refl refl refl w, tt)
    close_file-IsWellFormed clock file_id m content owner (fs, failed e) h w = (w, tt)
    close_file-IsWellFormed clock file_id m content owner (fs, panicked) h w = absurd h
    close_file-IsWellFormed clock file_id m content owner (fs, unfinished) h w = absurd h

    pub write_file-IsWellFormed :
        (clock : ℕ → ℕ) (fs : ReplicatedFs B) (path content owner : Text)
        → IsWellFormed B fs
        → IsWellFormed B (write_file B sha256 time_string clock fs path content owner).0
          × Ends (write_file B sha256 time_string clock fs path content owner).1
    unfolding write_file
    write_file-IsWellFormed clock fs path content owner w =
        let (opened, file_id, m, q, o, aim) =
          open_file-IsOpened B sha256 time_string clock fs path content owner w in
        let well = opened-IsWellFormed fs opened path file_id m o w in
        let (f, i, s, c) =
          write_chunks_frame B sha256 time_string (length content) clock 0 opened m.version content
            [] in
        rw (q, write_file)
          (close_file-IsWellFormed clock file_id m content owner _
            (write_chunks-Ends B sha256 time_string (length content) clock 0 opened m.version
              content [] well.sized (omega arith))
            (frame-IsWellFormed opened _ s i f well))

    -- The calls that change files.
    pub data Call : Type 0 where
      writes : (ℕ → ℕ) → Text → Text → Text → Call
      deletes : (ℕ → ℕ) → Text → Text → Call

    unfoldable pub run : ReplicatedFs B → List Call → ReplicatedFs B
    unfolding write_file delete_file
    run fs [] = fs
    run fs (writes clock path content owner ∷ calls) =
        run (write_file B sha256 time_string clock fs path content owner).0 calls
    run fs (deletes clock path owner ∷ calls) = run (delete_file B clock fs path owner).0 calls

    run-IsWellFormed :
        (fs : ReplicatedFs B) (calls : List Call)
        → IsWellFormed B fs
        → IsWellFormed B (run fs calls)
    unfolding run
    run-IsWellFormed fs [] w = w
    run-IsWellFormed fs (writes clock path content owner ∷ calls) w =
        run-IsWellFormed (write_file B sha256 time_string clock fs path content owner).0 calls
          (write_file-IsWellFormed clock fs path content owner w).0
    run-IsWellFormed fs (deletes clock path owner ∷ calls) w =
        run-IsWellFormed (delete_file B clock fs path owner).0 calls
          (delete_file-IsWellFormed clock fs path owner w).0

    -- After any sequence of WriteFile and DeleteFile on a well-formed file system, whether they
    -- succeed or not, the next WriteFile, ReadFile and DeleteFile end with a result or an error: none
    -- uses a nil pointer, and the chunk loop ends.
    pub run-Ends :
        (fs : ReplicatedFs B) (calls : List Call) (clock : ℕ → ℕ) (path content owner : Text)
        → IsWellFormed B fs
        → let now = run fs calls in
          Ends (write_file B sha256 time_string clock now path content owner).1
          × Ends (read_file B now path)
          × Ends (delete_file B clock now path owner).1
    run-Ends fs calls clock path content owner w =
        let well = run-IsWellFormed fs calls w in
        (
          (write_file-IsWellFormed clock (run fs calls) path content owner well).1,
          read_file-Ends (run fs calls) path well,
          (delete_file-IsWellFormed clock (run fs calls) path owner well).1,
        )
