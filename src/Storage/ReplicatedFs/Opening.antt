-- ===== src/Storage/ReplicatedFs/Opening.antt =====
-- The files that paths name, and how WriteFile opens one (src/storage/replicated_fs.go).
use web5_mesh.Base.{
  ℕ, ◌<◌, ◌≡◌, ◌≢◌, refl, Bool, false, inl, inr, Option, none, some, [], arith, if◌then◌else◌,
  Option-cases,
}
use web5_mesh.Base.Classes.{Text, Text_eq}
use web5_mesh.Base.Map.{lookup, insert, lookup-insert_self, lookup-insert_other}
use web5_mesh.Storage.Persistence.{Badger}
use web5_mesh.Storage.ReplicatedFs.{FileMetadata, file_deleted, done, failed, ReplicatedFs}
use web5_mesh.Storage.ReplicatedFs.Files.{
  read_chunks, find_file, find_live, read_file, open_file, touch, new_metadata, new_file_id,
}

module _ (B : Badger) where
  -- Every path of the index names a file that is there, and the chunks have a size.
  pub record IsWellFormed (fs : ReplicatedFs B) : Type 0 where
    pub sized : 0 < fs.chunk_size
    pub indexed :
        (path file_id : Text)
        → lookup path fs.path_index ≡ some file_id
        → (m : FileMetadata) × (lookup file_id fs.files ≡ some m)

  -- The path names this file.
  pub record Names (fs : ReplicatedFs B) (path file_id : Text) (m : FileMetadata) : Type 0 where
    pub indexed : lookup path fs.path_index ≡ some file_id
    pub present : lookup file_id fs.files ≡ some m

  pub find_file-Names :
      (fs : ReplicatedFs B) (path file_id : Text) (m : FileMetadata)
      → Names fs path file_id m
      → find_file B fs path ≡ done (file_id, m)
  unfolding find_file
  find_file-Names fs path file_id m n = rw (n.indexed, find_file, n.present) refl

  pub read_file-Names :
      (fs : ReplicatedFs B) (path file_id : Text) (m : FileMetadata)
      → Names fs path file_id m
      → read_file B fs path
        ≡ (if m.is_deleted then failed (file_deleted path) else read_chunks fs.chunks m.chunks [])
  unfolding read_file find_live
  read_file-Names fs path file_id m n =
      rw (find_file-Names fs path file_id m n, find_live, read_file) (ground arith)

  -- The path names a file that is deleted.
  abbrev pub is_marked : Option FileMetadata → Bool
  is_marked none = false
  is_marked (some m) = m.is_deleted

  unfoldable pub was_deleted : ReplicatedFs B → Text → Bool
  was_deleted fs path = elim (lookup path fs.path_index) [
    | none ↦ false
    | some file_id ↦ is_marked (lookup file_id fs.files)
  ]

  module _ (sha256 : Text → Text) (time_string : ℕ → Text) where
    -- The file that WriteFile writes: that of the path, or a new one.
    abbrev pub target : (ℕ → ℕ) → ReplicatedFs B → Text → Text → Text
    target clock fs path owner = elim (lookup path fs.path_index) [
      | none ↦ new_file_id B sha256 time_string (clock 0) path owner
      | some file_id ↦ file_id
    ]

    -- What WriteFile starts from: an open file that the path names, with no chunk of its own touched.
    pub record IsOpened (fs opened : ReplicatedFs B) (path file_id : Text) (m : FileMetadata)
        : Type 0 where
      pub names : Names opened path file_id m
      pub live : m.is_deleted ≡ was_deleted fs path
      pub sized : opened.chunk_size ≡ fs.chunk_size
      pub chunks : opened.chunks ≡ fs.chunks
      pub others :
          (other : Text)
          → other ≢ path
          → lookup other opened.path_index ≡ lookup other fs.path_index
      pub files : (id : Text) → id ≢ file_id → lookup id opened.files ≡ lookup id fs.files

    pub open_file-IsOpened :
        (clock : ℕ → ℕ) (fs : ReplicatedFs B) (path content owner : Text)
        → IsWellFormed fs
        → (opened : ReplicatedFs B) × (file_id : Text) × (m : FileMetadata) × (open_file B sha256
              time_string clock fs path content owner
            ≡ done (opened, file_id, m))
          × IsOpened fs opened path file_id m
          × (target clock fs path owner ≡ file_id)
    unfolding open_file touch new_metadata was_deleted
    open_file-IsOpened clock fs path content owner w =
        elim (Option-cases (lookup path fs.path_index)) [
          | inl e ↦
              let file_id = new_file_id B sha256 time_string (clock 0) path owner in
              let m =
                new_metadata B sha256 time_string clock fs.replication_factor file_id path owner
                  content in
              let opened : ReplicatedFs B = record fs {
                files = insert file_id m fs.files;
                path_index = insert path file_id fs.path_index;
              } in
              (
                opened,
                file_id,
                m,
                rw (e, open_file) refl,
                record {
                  names = record {
                    indexed = lookup-insert_self path file_id fs.path_index;
                    present = lookup-insert_self file_id m fs.files;
                  };
                  live = rw (e, was_deleted) refl;
                  sized = refl;
                  chunks = refl;
                  others = λ other n. lookup-insert_other path other file_id fs.path_index n;
                  files = λ id n. lookup-insert_other file_id id m fs.files n;
                },
                rw (e, target) refl,
              )
          | inr (file_id, e) ↦
              let (old, f) = w.indexed path file_id e in
              let m = touch B sha256 time_string (clock 0) old content in
              let opened : ReplicatedFs B = record fs { files = insert file_id m fs.files } in
              (
                opened,
                file_id,
                m,
                rw (e, open_file, f) refl,
                record {
                  names = record { indexed = e; present = lookup-insert_self file_id m fs.files };
                  live = rw (e, was_deleted, f) refl;
                  sized = refl;
                  chunks = refl;
                  others = λ other n. refl;
                  files = λ id n. lookup-insert_other file_id id m fs.files n;
                },
                rw (e, target) refl,
              )
        ]
