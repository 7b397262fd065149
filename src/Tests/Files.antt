-- ===== src/Tests/Files.antt =====
-- Runs of the store of src/storage/persistence.go and the file system of
-- src/storage/replicated_fs.go, on the database of the sibling Database.
use web5_mesh.Base.{
  List, ℕ, ◌≡◌, ◌≢◌, ◌⊎◌, inl, inr, refl, sym, ◌∙◌, true, false, [], ◌∷◌, arith, if◌then◌else◌, All,
  map,
}
use web5_mesh.Base.Classes.{Text, Text_eq, text_eq, text_eq_iff}
use web5_mesh.Base.Bytes.{codes}
use web5_mesh.Base.Map.{lookup, insert}
use web5_mesh.P2p.Access.{hex, hex_digit}
use web5_mesh.Storage.Persistence
use web5_mesh.Storage.Persistence.{Badger, PersistenceStore, StoreError, store_closed}
use web5_mesh.Storage.ReplicatedFs
use web5_mesh.Storage.ReplicatedFs.{
  FileMetadata, Outcome, done, failed, panicked, unfinished, ReplicatedFs, file_deleted,
  blank_metadata,
}
use web5_mesh.Storage.ReplicatedFs.Files
use web5_mesh.Storage.ReplicatedFs.Chunks
use web5_mesh.Storage.ReplicatedFs.Opening
use web5_mesh.Storage.ReplicatedFs.Contents
use web5_mesh.Storage.ReplicatedFs.Calls
use web5_mesh.Storage.ReplicatedFs.Deletion
use web5_mesh.Storage.ReplicatedFs.Burial
use web5_mesh.Tests.Samples.{checksum}
use web5_mesh.Tests.Database.{database, put_at}

abbrev clock : ℕ → ℕ
clock n = n

abbrev moment : ℕ → Text
moment n = n ∷ []

abbrev empty : PersistenceStore database
empty = record { db = record { entries = []; ascends = tt }; path = codes "data"; closed = false }

-- A new file system with chunks of two bytes.
abbrev fs : ReplicatedFs database
fs = record {
  store = empty;
  crdt_store = record { documents = [] };
  files = [];
  chunks = [];
  path_index = [];
  replication_factor = 3;
  chunk_size = 2;
  sync_in_progress = false;
  last_sync_time = 0;
}

fs-IsWellFormed : Opening.IsWellFormed database fs
unfolding lookup
fs-IsWellFormed = record { sized = omega arith; indexed = λ path id h. absurd (cc h) }

-- The pieces of "abc".
abbrev Told : Text → Type 0
Told p = (p ≡ codes "ab") ⊎ (p ≡ codes "c")

abbrev id_of : Text → Text
id_of = Chunks.name_of database checksum moment

apart : text_eq (id_of (codes "ab")) (id_of (codes "c")) ≡ false
unfolding Files.chunk_id hex hex_digit
apart = refl

differ : id_of (codes "ab") ≢ id_of (codes "c")
differ h = absurd (cc (apart, (text_eq_iff _ _).1 h))

tells : (a b : Text) → Told a → Told b → id_of a ≡ id_of b → a ≡ b
tells a b (inl p) (inl q) h = p ∙ sym q
tells a b (inl p) (inr q) h = absurd (differ (rw (p, q) at h))
tells a b (inr p) (inl q) h = absurd (differ (sym (rw (p, q) at h)))
tells a b (inr p) (inr q) h = p ∙ sym q

told : All Told (Contents.pieces_of database checksum moment fs (codes "abc"))
unfolding Chunks.pieces
told = (inl refl, (inr refl, tt))

abbrev metadata_of : Outcome Text FileMetadata → FileMetadata
metadata_of (done m) = m
metadata_of (failed e) = blank_metadata []
metadata_of panicked = blank_metadata []
metadata_of unfinished = blank_metadata []

abbrev written : ReplicatedFs database × Outcome Text FileMetadata
written =
    Files.write_file database checksum moment clock fs (codes "note") (codes "abc") (codes "alice")

written_done : written.1 ≡ done (metadata_of written.1)
unfolding Files.write_file Persistence.put Persistence.update_db put_at lookup insert Files.chunk_id
    hex hex_digit blank_metadata
written_done = refl

read_file-write_file_example : Files.read_file database written.0 (codes "note") ≡ (
    if Opening.was_deleted database fs (codes "note")
    then failed (file_deleted (codes "note"))
    else done (codes "abc"))
read_file-write_file_example =
    Contents.read_file-write_file database checksum moment Told tells clock fs (codes "note")
      (codes "abc") (codes "alice") (metadata_of written.1) fs-IsWellFormed told written_done

-- The file system with "note" in it, and another file written after it.
abbrev one_file : ReplicatedFs database
one_file = written.0

one_file-IsWellFormed : Opening.IsWellFormed database one_file
one_file-IsWellFormed =
    (Calls.write_file-IsWellFormed database checksum moment clock fs (codes "note") (codes "abc")
      (codes "alice") fs-IsWellFormed).0

abbrev note_id : Text
note_id = Files.new_file_id database checksum moment 0 (codes "note") (codes "alice")

note-Names : Opening.Names database one_file (codes "note") note_id (metadata_of written.1)
unfolding Files.write_file Persistence.put Persistence.update_db put_at lookup insert Files.chunk_id
    hex hex_digit blank_metadata
note-Names = record { indexed = refl; present = refl }

abbrev second : ReplicatedFs database × Outcome Text FileMetadata
second =
    Files.write_file database checksum moment clock one_file (codes "memo") (codes "c")
      (codes "bob")

second_done : second.1 ≡ done (metadata_of second.1)
unfolding Files.write_file Persistence.put Persistence.update_db put_at lookup insert Files.chunk_id
    hex hex_digit blank_metadata
second_done = refl

Told-second : All Told (Contents.pieces_of database checksum moment one_file (codes "c"))
unfolding Chunks.pieces Files.write_file Persistence.put Persistence.update_db lookup
Told-second = (inr refl, tt)

names_apart : codes "note" ≢ codes "memo"
names_apart h = let same : false ≡ true = (text_eq_iff (codes "note") (codes "memo")).1 h in cc

files_apart :
    note_id ≢ Opening.target database checksum moment clock one_file (codes "memo") (codes "bob")
unfolding Files.write_file Files.new_file_id hex hex_digit Persistence.put Persistence.update_db
    lookup insert
files_apart h =
    let same : false ≡ true =
      (text_eq_iff note_id
          (Opening.target database checksum moment clock one_file (codes "memo") (codes "bob"))).1
        h in
    cc

held : All (Chunks.Holds database checksum moment one_file.chunks) (codes "ab" ∷ codes "c" ∷ [])
unfolding Files.write_file Persistence.put Persistence.update_db put_at lookup insert Files.chunk_id
    hex hex_digit
held = ((_, refl, refl), ((_, refl, refl), tt))

note_chunks : (metadata_of written.1).chunks ≡ map id_of (codes "ab" ∷ codes "c" ∷ [])
unfolding Files.write_file Persistence.put Persistence.update_db put_at lookup insert Files.chunk_id
    hex hex_digit blank_metadata
note_chunks = refl

read_file-write_file_other_example :
    Files.read_file database second.0 (codes "note")
    ≡ Files.read_file database one_file (codes "note")
read_file-write_file_other_example =
    Contents.read_file-write_file_other database checksum moment Told tells clock one_file
      (codes "memo") (codes "c") (codes "bob") (metadata_of second.1) (codes "note") note_id
      (metadata_of written.1) (codes "ab" ∷ codes "c" ∷ []) one_file-IsWellFormed Told-second
      second_done note-Names names_apart files_apart note_chunks (inl refl, (inr refl, tt)) held

run-Ends_example :
    let now = Calls.run database checksum moment fs (
      Calls.writes clock (codes "note") (codes "abc") (codes "alice")
      ∷ Calls.deletes clock (codes "memo") (codes "bob")
      ∷ []) in
    Chunks.Ends
      (Files.write_file database checksum moment clock now
        (codes "note")
        (codes "c")
        (codes "bob")).1
    × Chunks.Ends (Files.read_file database now (codes "note"))
    × Chunks.Ends (Files.delete_file database clock now (codes "note") (codes "bob")).1
run-Ends_example =
    Calls.run-Ends database checksum moment fs
      (Calls.writes clock (codes "note") (codes "abc") (codes "alice")
        ∷ Calls.deletes clock (codes "memo") (codes "bob")
        ∷ [])
      clock (codes "note") (codes "c") (codes "bob") fs-IsWellFormed

abbrev removed : ReplicatedFs database
removed = (Files.delete_file database clock one_file (codes "note") (codes "alice")).0

-- A write of the deleted path, one of another, and a second deletion.
abbrev later_calls : List (Calls.Call database checksum moment)
later_calls =
    Calls.writes clock (codes "note") (codes "c") (codes "bob")
    ∷ Calls.writes clock (codes "memo") (codes "abc") (codes "bob")
    ∷ Calls.deletes clock (codes "note") (codes "bob")
    ∷ []

note_bob :
    Files.new_file_id database checksum moment (clock 0) (codes "note") (codes "bob") ≢ note_id
unfolding Files.new_file_id hex hex_digit
note_bob h =
    let wrong : false ≡ true =
      (text_eq_iff
          (Files.new_file_id database checksum moment (clock 0) (codes "note") (codes "bob"))
          note_id).1
        h in
    cc

memo_bob :
    Files.new_file_id database checksum moment (clock 0) (codes "memo") (codes "bob") ≢ note_id
unfolding Files.new_file_id hex hex_digit
memo_bob h =
    let wrong : false ≡ true =
      (text_eq_iff
          (Files.new_file_id database checksum moment (clock 0) (codes "memo") (codes "bob"))
          note_id).1
        h in
    cc

deleted_stays_example :
    Files.read_file database
      (Calls.run database checksum moment
        (Files.delete_file database clock one_file (codes "note") (codes "alice")).0
        later_calls)
      (codes "note")
    ≡ failed (file_deleted (codes "note"))
deleted_stays_example =
    Burial.deleted_stays database checksum moment clock one_file (codes "note") (codes "alice")
      note_id (metadata_of written.1) later_calls note-Names (note_bob, (memo_bob, (tt, tt)))

abbrev shut_fs : ReplicatedFs database
shut_fs = record fs { store = record empty { closed = true } }

failed_write_reads_empty_example :
    let r =
      Files.write_file database checksum moment clock shut_fs
        (codes "note")
        (codes "abc")
        (codes "bob") in
    (r.1 ≡ failed (ReplicatedFs.chunk_not_persisted store_closed))
    × (Files.read_file database r.0 (codes "note") ≡ done [])
unfolding lookup
failed_write_reads_empty_example =
    Deletion.failed_write_reads_empty database checksum moment clock shut_fs (codes "note")
      (codes "abc") (codes "bob") refl refl
      (λ h. let same : false ≡ true = (text_eq_iff (codes "abc") []).1 h in cc)
