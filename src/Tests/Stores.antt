-- ===== src/Tests/Stores.antt =====
-- Runs of the store of src/storage/persistence.go, and of the calls of
-- src/storage/replicated_fs.go that list, load and sync.
use web5_mesh.Base.{
  ◌*◌, ◌≡◌, refl, true, false, ◌&&◌, none, some, List, [], ◌∷◌, any, if◌then◌else◌, IsSorted,
}
use web5_mesh.Base.Classes.{Text, Text_eq, text_eq}
use web5_mesh.Base.Bytes.{codes, before}
use web5_mesh.Base.Map.{lookup, insert}
use web5_mesh.Storage.Document
use web5_mesh.Storage.Store
use web5_mesh.Storage.Persistence
use web5_mesh.Storage.Persistence.{Badger, PersistenceStore, StoreError, store_closed}
use web5_mesh.Storage.Persistence.Laws
use web5_mesh.Storage.Persistence.Iteration
use web5_mesh.Storage.ReplicatedFs
use web5_mesh.Storage.ReplicatedFs.{
  FileMetadata, Outcome, done, failed, ReplicatedFs, FsOptions, blank_metadata, blank_chunk,
}
use web5_mesh.Storage.ReplicatedFs.Listing
use web5_mesh.Tests.Samples.{checksum}
use web5_mesh.Tests.Database.{database, from}

abbrev entries : List (Text × Text)
entries = (codes "chunk:c", codes "xyz") ∷ (codes "file:f", codes "m") ∷ []

entries-IsSorted : IsSorted (λ a b. before a.0 b.0 ≡ true) entries
unfolding before
entries-IsSorted = ((refl, tt), (tt, tt))

-- A store with two entries.
abbrev store : PersistenceStore database
store = record {
  db = record { entries = entries; ascends = entries-IsSorted };
  path = codes "data";
  closed = false;
}

abbrev operations : List (Text × Text)
operations = (codes "a", codes "1") ∷ (codes "b", codes "2") ∷ []

batch_write_contract_example :
    Laws.contents database (Persistence.batch_write database store operations).0 (codes "b")
    ≡ Laws.written database operations (codes "b") (Laws.contents database store (codes "b"))
unfolding Persistence.batch_write Persistence.update_db Persistence.set_all lookup
batch_write_contract_example =
    Laws.batch_write_contract database store operations (codes "b") refl (refl, (refl, tt))

iterate_exact_example :
    let r =
      Persistence.iterate database store
        (codes "file:")
        (λ s k v. (Iteration.collect database s k v, true))
        [] in
    (r.1 ≡ none)
    × IsSorted (λ a b. before a.0 b.0 ≡ true) r.0
    × (lookup (codes "file:f") r.0 ≡ (
        if Persistence.has_prefix (codes "file:f") (codes "file:") then some (codes "m") else none))
unfolding lookup
iterate_exact_example =
    Iteration.iterate_exact database store (codes "file:") (codes "file:f") (some (codes "m")) refl
      (λ v. refl) refl

abbrev document : Document.Document
document = Document.new 1 1 1 (codes "f") (codes "note") (codes "alice")

abbrev metadata : FileMetadata
metadata = record (blank_metadata (codes "f")) { path = codes "note" }

abbrev fs : ReplicatedFs database
fs = record {
  store = store;
  crdt_store = record { documents = (codes "f", document) ∷ [] };
  files = (codes "f", metadata) ∷ [];
  chunks = [];
  path_index = (codes "note", codes "f") ∷ [];
  replication_factor = 3;
  chunk_size = 2;
  sync_in_progress = false;
  last_sync_time = 0;
}

list_files_exact_example :
    any (text_eq (codes "note")) (ReplicatedFs.list_files database fs (codes "no")) ≡ (
      Listing.is_readable database fs (codes "note")
      && Listing.starts_with (codes "no") (codes "note"))
unfolding lookup
list_files_exact_example =
    Listing.list_files_exact database fs (codes "no") (codes "note") (refl, tt)

sync_with_peer_returns_example :
    ReplicatedFs.sync_with_peer database checksum 9 fs ≡ elim (Store.get_all_ids fs.crdt_store) [
      | [] ↦ some (record fs { sync_in_progress = false; last_sync_time = 9 })
      | ◌∷◌ id ids ↦ none
    ]
unfolding lookup
sync_with_peer_returns_example = Listing.sync_with_peer_returns database checksum 9 fs (refl, tt)

-- What NewReplicatedFS makes of the store.
abbrev options : FsOptions database
options = ReplicatedFs.default_options database (some store) (some (record { documents = [] }))

abbrev restarted : ReplicatedFs database
restarted = record {
  store = store;
  crdt_store = record { documents = [] };
  files = (codes "f", blank_metadata (codes "f")) ∷ [];
  chunks = (codes "c", blank_chunk (codes "c")) ∷ [];
  path_index = (codes "f", codes "f") ∷ [];
  replication_factor = 3;
  chunk_size = 1024 * 1024;
  sync_in_progress = false;
  last_sync_time = 0;
}

restarts : ReplicatedFs.new database options ≡ done restarted
unfolding ReplicatedFs.new ReplicatedFs.default_options Persistence.iterate from insert before
restarts = refl
