-- ===== src/Storage/ReplicatedFs/Restart.antt =====
-- NewReplicatedFS with its loadIndex (src/storage/replicated_fs.go): what a file system knows when
-- it starts on a store that has been used before.
use web5_mesh.Base.{
  ◌<◌, ◌≤◌, ◌≡◌, true, inl, inr, Option, none, some, [], arith, option_intro, Option-cases, drop,
}
use web5_mesh.Base.Classes.{Text, Text_eq, text_eq_iff}
use web5_mesh.Base.Bytes.{codes}
use web5_mesh.Base.Map.{lookup, lookup-insert}
use web5_mesh.Storage.Store.{CrdtStore}
use web5_mesh.Storage.Persistence.{Badger, StoreError, PersistenceStore, iterate}
use web5_mesh.Storage.Persistence.Iteration.{iterate_keeps}
use web5_mesh.Storage.ReplicatedFs.{
  Outcome, done, ReplicatedFs, FsOptions, fix_options, load_file, load_chunk, load_index, fresh,
  loaded, new, blank_metadata,
}
use web5_mesh.Storage.ReplicatedFs.Files.{read_file, read_chunks}
use web5_mesh.Storage.ReplicatedFs.Opening.{IsWellFormed, read_file-Names}

done_injective : {E A : Type 0} {a b : A} → ◌≡◌ {A = Outcome E A} (done a) (done b) → a ≡ b
done_injective h = cc

module _ (B : Badger) where
  -- Every path of the index names a file of which nothing is known but the id.
  pub record IsBlank (fs : ReplicatedFs B) : Type 0 where
    pub sized : 0 < fs.chunk_size
    pub replicated : 3 ≤ fs.replication_factor
    pub indexed :
        (path file_id : Text)
        → lookup path fs.path_index ≡ some file_id
        → lookup file_id fs.files ≡ some (blank_metadata file_id)

  load_file-IsBlank :
      (fs : ReplicatedFs B) (key : Text) (value : Option Text)
      → IsBlank fs
      → IsBlank (load_file B fs key value)
  unfolding load_file
  load_file-IsBlank fs key value b = record {
    sized = b.sized;
    replicated = b.replicated;
    indexed = λ path id h. ground (
      arith,
      h,
      lookup-insert (drop 5 key) path (drop 5 key) fs.path_index,
      lookup-insert (drop 5 key) id (blank_metadata (drop 5 key)) fs.files,
      text_eq_iff (drop 5 key) id,
      b.indexed path id,
    );
  }

  load_chunk-IsBlank :
      (fs : ReplicatedFs B) (key : Text) (value : Option Text)
      → IsBlank fs
      → IsBlank (load_chunk B fs key value)
  unfolding load_chunk
  load_chunk-IsBlank fs key value b = record {
    sized = b.sized;
    replicated = b.replicated;
    indexed = b.indexed;
  }

  load_index-IsBlank : (fs : ReplicatedFs B) → IsBlank fs → IsBlank (load_index B fs).0
  unfolding load_index
  load_index-IsBlank fs b =
      let files = iterate B fs.store (codes "file:") (λ s k v. (load_file B s k v, true)) fs in
      let with_files : IsBlank files.0 =
        iterate_keeps B IsBlank fs.store (codes "file:") (λ s k v. (load_file B s k v, true))
          load_file-IsBlank fs b in
      option_intro (λ (r : ReplicatedFs B × Option (StoreError (Badger.Error B))). IsBlank r.0)
        files.1 _ _
        (λ _.
          iterate_keeps B IsBlank fs.store (codes "chunk:") (λ s k v. (load_chunk B s k v, true))
            load_chunk-IsBlank files.0 with_files)
        (λ e _. with_files)

  fresh-IsBlank :
      (o : FsOptions B) (store : PersistenceStore B) (crdt_store : CrdtStore)
      → IsBlank (fresh B (fix_options B o) store crdt_store)
  unfolding fresh fix_options lookup
  fresh-IsBlank o store crdt_store = record {
    sized = ground arith;
    replicated = ground arith;
    indexed = λ path id h. absurd (cc h);
  }

  loaded-IsBlank :
      (r : ReplicatedFs B × Option (StoreError (Badger.Error B))) (fs : ReplicatedFs B)
      → loaded B r ≡ done fs
      → IsBlank r.0
      → IsBlank fs
  unfolding loaded
  loaded-IsBlank (s, none) fs h b = rw (done_injective h) at b
  loaded-IsBlank (s, some e) fs h b = absurd (cc h)

  new-IsBlank : (o : FsOptions B) (fs : ReplicatedFs B) → new B o ≡ done fs → IsBlank fs
  unfolding new
  new-IsBlank o fs h = elim (Option-cases o.store) [
    | inl e ↦ absurd (cc (rw (e, new) at h))
    | inr (store, e) ↦ elim (Option-cases o.crdt_store) [
      | inl f ↦ absurd (cc (rw (e, f, new) at h))
      | inr (crdt_store, f) ↦
          loaded-IsBlank _ fs (rw (e, f, new) at h)
            (load_index-IsBlank _ (fresh-IsBlank o store crdt_store))
    ]
  ]

  blank-IsWellFormed : (fs : ReplicatedFs B) → IsBlank fs → IsWellFormed B fs
  blank-IsWellFormed fs b = record {
    sized = b.sized;
    indexed = λ path id h. (blank_metadata id, b.indexed path id h);
  }

  -- A file system that NewReplicatedFS makes is well formed and keeps at least three replicas,
  -- whatever the options and whatever is in the store.
  pub new-IsWellFormed :
      (o : FsOptions B) (fs : ReplicatedFs B)
      → new B o ≡ done fs
      → IsWellFormed B fs × (3 ≤ fs.replication_factor)
  new-IsWellFormed o fs h = let b = new-IsBlank o fs h in (blank-IsWellFormed fs b, b.replicated)

  -- A file system that NewReplicatedFS makes reads every file of its index as empty: what was
  -- written before a restart is lost.
  pub new_reads_empty :
      (o : FsOptions B) (fs : ReplicatedFs B) (path file_id : Text)
      → new B o ≡ done fs
      → lookup path fs.path_index ≡ some file_id
      → read_file B fs path ≡ done []
  unfolding blank_metadata read_chunks
  new_reads_empty o fs path file_id h found =
      let b = new-IsBlank o fs h in
      read_file-Names B fs path file_id (blank_metadata file_id)
        (record { indexed = found; present = b.indexed path file_id found })
