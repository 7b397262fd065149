-- ===== src/Storage/ReplicatedFs/Contents.antt =====
-- WriteFile and ReadFile of ReplicatedFS (src/storage/replicated_fs.go): what is written is read.
use web5_mesh.Base.{
  ℕ, ◌≡◌, ◌≢◌, refl, sym, ap, ◌∙◌, List, [], ◌∷◌, map, arith, if◌then◌else◌, length, All,
}
use web5_mesh.Base.Classes.{Text, Text_eq}
use web5_mesh.Base.Map.{lookup, insert, lookup-insert_self, lookup-insert_other}
use web5_mesh.Storage.Persistence.{Badger}
use web5_mesh.Storage.ReplicatedFs.{
  FileMetadata, file_deleted, Outcome, done, failed, panicked, unfinished, ReplicatedFs,
}
use web5_mesh.Storage.ReplicatedFs.Files.{write_chunks, read_file, close_file, write_file}
use web5_mesh.Storage.ReplicatedFs.Opening.{
  IsWellFormed, Names, was_deleted, read_file-Names, IsOpened, open_file-IsOpened, target,
}
use web5_mesh.Storage.ReplicatedFs.Chunks.{
  pieces, concat-pieces, Holds, name_of, read_chunks-Holds, write_chunks_frame, write_chunks_keeps,
  write_chunks-Holds,
}

All-both {κ μ ν} :
    (P : Text → Type κ) (Q : Text → Type μ) (R : Text → Type ν) (l : List Text)
    → ((q : Text) → P q → Q q → R q)
    → All P l
    → All Q l
    → All R l
All-both P Q R [] f p q = tt
All-both P Q R (x ∷ l) f p q = (f x p.0 q.0, All-both P Q R l f p.1 q.1)

module _ (B : Badger) where
  module _ (sha256 : Text → Text) (time_string : ℕ → Text) where
    -- What WriteFile leaves when its chunks are written.
    pub record IsClosed (before after : ReplicatedFs B) (file_id content : Text) (m : FileMetadata)
        (ids : List Text) : Type 0 where
      pub files :
          after.files
          ≡ insert file_id (record m { chunks = ids; size = length content }) before.files
      pub chunks : after.chunks ≡ before.chunks
      pub index : after.path_index ≡ before.path_index

    close_file_done :
        (clock : ℕ → ℕ) (file_id : Text) (m w : FileMetadata) (content owner : Text)
        → (r : ReplicatedFs B × Outcome (Badger.Error B) (List Text))
        → (close_file B sha256 time_string clock file_id m content owner r).1 ≡ done w
        → (ids : List Text) × (r.1 ≡ done ids)
          × IsClosed r.0
              (close_file B sha256 time_string clock file_id m content owner r).0
              file_id
              content
              m
              ids
    unfolding close_file
    close_file_done clock file_id m w content owner (fs, done ids) h =
        (ids, refl, record { files = refl; chunks = refl; index = refl })
    close_file_done clock file_id m w content owner (fs, failed e) h = absurd (cc h)
    close_file_done clock file_id m w content owner (fs, panicked) h = absurd (cc h)
    close_file_done clock file_id m w content owner (fs, unfinished) h = absurd (cc h)

    -- The pieces that WriteFile cuts the data into.
    abbrev pub pieces_of : ReplicatedFs B → Text → List Text
    pieces_of fs content = pieces (length content) fs.chunk_size content

    module _ (Told : Text → Type 0)
        (tells : (a b : Text)
          → Told a
          → Told b
          → name_of B sha256 time_string a ≡ name_of B sha256 time_string b
          → a ≡ b) where
      -- A WriteFile that succeeds: its file has the pieces as its chunks, ...
      pub record IsWritten (fs after : ReplicatedFs B) (path file_id content : Text) : Type 0 where
        pub metadata : FileMetadata
        pub names : Names B after path file_id metadata
        pub live : metadata.is_deleted ≡ was_deleted B fs path
        pub chunks : metadata.chunks ≡ map (name_of B sha256 time_string) (pieces_of fs content)
        pub held : All (Holds B sha256 time_string after.chunks) (pieces_of fs content)
        -- ... and no other path or file is touched.
        pub kept :
            (q : Text)
            → Told q
            → Holds B sha256 time_string fs.chunks q
            → Holds B sha256 time_string after.chunks q
        pub others :
            (other : Text)
            → other ≢ path
            → lookup other after.path_index ≡ lookup other fs.path_index
        pub files : (id : Text) → id ≢ file_id → lookup id after.files ≡ lookup id fs.files

      assemble :
          (fs opened between after : ReplicatedFs B) (path content file_id : Text)
          (m : FileMetadata) (ids : List Text)
          → IsOpened B sha256 time_string fs opened path file_id m
          → between.files ≡ opened.files
          → between.path_index ≡ opened.path_index
          → IsClosed between after file_id content m ids
          → ids ≡ map (name_of B sha256 time_string) (pieces_of fs content)
          → All (Holds B sha256 time_string between.chunks) (pieces_of fs content)
          → ((q : Text)
              → Told q
              → Holds B sha256 time_string fs.chunks q
              → Holds B sha256 time_string between.chunks q)
          → IsWritten fs after path file_id content
      assemble fs opened between after path content file_id m ids o same_files same_index c named
            held kept =
          let written : FileMetadata = record m { chunks = ids; size = length content } in
          let index : after.path_index ≡ opened.path_index = c.index ∙ same_index in
          let all_files : after.files ≡ insert file_id written opened.files =
            c.files ∙ ap (insert file_id written) same_files in
          record {
            metadata = written;
            names = record {
              indexed = ap (lookup path) index ∙ o.names.indexed;
              present =
                  ap (lookup file_id) all_files ∙ lookup-insert_self file_id written opened.files;
            };
            live = o.live;
            chunks = named;
            held = rw c.chunks held;
            kept = λ q t h. rw c.chunks (kept q t h);
            others = λ other n. ap (lookup other) index ∙ o.others other n;
            files = λ id n.
                ap (lookup id) all_files
                ∙ lookup-insert_other file_id id written opened.files n
                ∙ o.files id n;
          }

      write_file-IsWritten :
          (clock : ℕ → ℕ) (fs : ReplicatedFs B) (path content owner : Text) (m : FileMetadata)
          → IsWellFormed B fs
          → All Told (pieces_of fs content)
          → (write_file B sha256 time_string clock fs path content owner).1 ≡ done m
          → IsWritten fs
              (write_file B sha256 time_string clock fs path content owner).0
              path
              (target B sha256 time_string clock fs path owner)
              content
      unfolding write_file
      write_file-IsWritten clock fs path content owner m w t h =
          let (opened, file_id, m', q, o, aim) =
            open_file-IsOpened B sha256 time_string clock fs path content owner w in
          let r =
            write_chunks B sha256 time_string (length content) clock 0 opened m'.version content
              [] in
          let run : write_file B sha256 time_string clock fs path content owner
              ≡ close_file B sha256 time_string clock file_id m' content owner r =
            rw (q, write_file) refl in
          let (ids, g, c) = close_file_done clock file_id m' m content owner r (rw run at h) in
          let (same_files, same_index, same_size, same_store) =
            write_chunks_frame B sha256 time_string (length content) clock 0 opened m'.version
              content [] in
          let (named, held) =
            write_chunks-Holds B sha256 time_string Told tells (length content) clock 0 opened
              m'.version content [] ids (rw (sym o.sized) at t) g in
          let kept : (x : Text)
              → Told x
              → Holds B sha256 time_string fs.chunks x
              → Holds B sha256 time_string r.0.chunks x =
            λ x told there.
              write_chunks_keeps B sha256 time_string Told tells (length content) clock 0 opened
                m'.version content [] x (rw (sym o.sized) at t) told (rw (sym o.chunks) at there) in
          rw (run, aim)
            (assemble fs opened r.0 _ path content file_id m' ids o same_files same_index c
              (rw o.sized at named) (rw o.sized at held) kept)

      -- WriteFile that succeeds on a well-formed file system, where the chunk ids tell the pieces
      -- of the data apart: ReadFile of the path answers the data, whole and in order, or that the
      -- file is deleted if it was deleted before.
      pub read_file-write_file :
          (clock : ℕ → ℕ) (fs : ReplicatedFs B) (path content owner : Text) (m : FileMetadata)
          → IsWellFormed B fs
          → All Told (pieces_of fs content)
          → (write_file B sha256 time_string clock fs path content owner).1 ≡ done m
          → read_file B (write_file B sha256 time_string clock fs path content owner).0 path
            ≡ (if was_deleted B fs path then failed (file_deleted path) else done content)
      read_file-write_file clock fs path content owner m w t h =
          let after = (write_file B sha256 time_string clock fs path content owner).0 in
          let i = write_file-IsWritten clock fs path content owner m w t h in
          let held =
            read_chunks-Holds B sha256 time_string {E = Badger.Error B} after.chunks
              (pieces_of fs content) [] i.held in
          let whole = concat-pieces (length content) fs.chunk_size content w.sized (omega arith) in
          read_file-Names B after path _ i.metadata i.names
          ∙ rw (i.live, i.chunks, held, whole) refl

      -- A file that WriteFile does not write, whose chunks the ids tell apart from the new ones, reads
      -- as before.
      pub read_file-write_file_other :
          (clock : ℕ → ℕ) (fs : ReplicatedFs B) (path content owner : Text) (m : FileMetadata)
          → (other file_id : Text) (om : FileMetadata) (qs : List Text) → IsWellFormed B fs
          → All Told (pieces_of fs content)
          → (write_file B sha256 time_string clock fs path content owner).1 ≡ done m
          → Names B fs other file_id om
          → other ≢ path
          → file_id ≢ target B sha256 time_string clock fs path owner
          → om.chunks ≡ map (name_of B sha256 time_string) qs
          → All Told qs
          → All (Holds B sha256 time_string fs.chunks) qs
          → read_file B (write_file B sha256 time_string clock fs path content owner).0 other
            ≡ read_file B fs other
      read_file-write_file_other clock fs path content owner m other file_id om qs w t h n apart
            distinct named told held =
          let after = (write_file B sha256 time_string clock fs path content owner).0 in
          let i = write_file-IsWritten clock fs path content owner m w t h in
          let there : Names B after other file_id om = record {
            indexed = i.others other apart ∙ n.indexed;
            present = i.files file_id distinct ∙ n.present;
          } in
          let before =
            read_chunks-Holds B sha256 time_string {E = Badger.Error B} fs.chunks qs [] held in
          let later =
            read_chunks-Holds B sha256 time_string {E = Badger.Error B} after.chunks qs []
              (All-both Told _ _ qs i.kept told held) in
          rw
            (
              read_file-Names B after other file_id om there,
              read_file-Names B fs other file_id om n,
              named,
              later,
              before,
            )
            refl
