-- ===== src/Storage/ReplicatedFs/Listing.antt =====
-- ListFiles and SyncWithPeer of ReplicatedFS (src/storage/replicated_fs.go).
use web5_mesh.Base.{
  ℕ, ◌≡◌, refl, sym, ◌∙◌, Bool, true, false, not, ◌&&◌, ◌||◌, inl, inr, Option, none, some, List,
  [], ◌∷◌, arith, if◌then◌else◌, length, take, leb, Option-cases, List-cases, Bool-cases, any,
}
use web5_mesh.Base.Classes.{Text, Text_eq, text_eq, text_eq_iff}
use web5_mesh.Base.Map.{lookup, Distinct}
use web5_mesh.Storage.Store
use web5_mesh.Storage.Store.{CrdtStore}
use web5_mesh.Storage.Store.Laws.{is_live}
use web5_mesh.Storage.Store.Listing.{get_all_ids_exact}
use web5_mesh.Storage.Persistence.{Badger}
use web5_mesh.Storage.Pointers.{pointer_of, pointer_of-document, merge_documents_self}
use web5_mesh.Storage.ReplicatedFs.{
  FileMetadata, done, ReplicatedFs, list_paths, list_files, sync_document, sync_documents,
  sync_with_peer,
}
use web5_mesh.Storage.ReplicatedFs.Files.{get_metadata, find_live, find_file}

any_if {ℓ} :
    {A : Type ℓ} (q : A → Bool) (b : Bool) (x : A) (l : List A)
    → any q (if b then x ∷ l else l) ≡ ((q x && b) || any q l)
any_if q true x l = ground arith
any_if q false x l = ground arith

-- The file is there and not deleted.
unfoldable pub is_present : Option FileMetadata → Bool
is_present none = false
is_present (some m) = not m.is_deleted

-- The test of ListFiles on a path.
abbrev pub starts_with : Text → Text → Bool
starts_with prefix path =
    text_eq prefix []
    || (leb (length prefix) (length path) && text_eq (take (length prefix) path) prefix)

module _ (B : Badger) where
  -- What GetMetadata hands out, as a test.
  unfoldable pub is_readable : ReplicatedFs B → Text → Bool
  unfolding is_present
  is_readable fs path = elim (lookup path fs.path_index) [
    | none ↦ false
    | some file_id ↦ is_present (lookup file_id fs.files)
  ]

  any-list_paths_first :
      (prefix path p id : Text) (files : List (Text × FileMetadata)) (index : List (Text × Text))
      → any (text_eq path) (list_paths B prefix files ((p, id) ∷ index)) ≡ (
          (text_eq path p && (is_present (lookup id files) && starts_with prefix p))
          || any (text_eq path) (list_paths B prefix files index))
  unfolding list_paths is_present
  any-list_paths_first prefix path p id files index = elim (Option-cases (lookup id files)) [
    | inl e ↦ rw (e, list_paths, is_present) (ground arith)
    | inr (m, e) ↦
        rw (e, list_paths, is_present)
          (any_if (text_eq path) (not m.is_deleted && starts_with prefix p) p
            (list_paths B prefix files index))
  ]

  -- What ListFiles makes of a path, from the file that the index names.
  abbrev listed : Text → Text → List (Text × FileMetadata) → Option Text → Bool
  listed prefix path files none = false
  listed prefix path files (some file_id) =
      is_present (lookup file_id files) && starts_with prefix path

  any-list_paths :
      (prefix path : Text) (files : List (Text × FileMetadata)) (index : List (Text × Text))
      → Distinct index
      → any (text_eq path) (list_paths B prefix files index)
        ≡ listed prefix path files (lookup path index)
  unfolding list_paths lookup
  any-list_paths prefix path files [] d = refl
  any-list_paths prefix path files ((p, id) ∷ index) d = elim (Bool-cases (text_eq p path)) [
    | inl e ↦
        let same : p ≡ path = (text_eq_iff p path).0 e in
        let gone : lookup path index ≡ none = rw same at d.0 in
        let rest : any (text_eq path) (list_paths B prefix files index) ≡ false =
          any-list_paths prefix path files index d.1 ∙ rw gone refl in
        any-list_paths_first prefix path p id files index
        ∙ rw (e, rest, same, (text_eq_iff path path).1 refl) (ground arith)
    | inr e ↦
        let apart : text_eq path p ≡ false =
          ground (arith, text_eq_iff p path, text_eq_iff path p) in
        any-list_paths_first prefix path p id files index
        ∙ rw (e, apart) (any-list_paths prefix path files index d.1)
  ]

  -- ListFiles lists a path exactly if it names a file that is not deleted, and begins with the
  -- prefix, where no path is in the index twice.
  pub list_files_exact :
      (fs : ReplicatedFs B) (prefix path : Text)
      → Distinct fs.path_index
      → any (text_eq path) (list_files B fs prefix)
        ≡ (is_readable fs path && starts_with prefix path)
  unfolding list_files is_readable
  list_files_exact fs prefix path d =
      any-list_paths prefix path fs.files fs.path_index d
      ∙ (elim (Option-cases (lookup path fs.path_index)) [
        | inl e ↦ rw (e, is_readable) refl
        | inr (id, e) ↦ rw (e, is_readable) refl
      ])

  -- What GetMetadata and ReadFile do with a path that ListFiles has listed.
  pub get_metadata-is_readable :
      (fs : ReplicatedFs B) (path : Text)
      → is_readable fs path ≡ true
      → (m : FileMetadata) × (get_metadata B fs path ≡ done m) × (m.is_deleted ≡ false)
  unfolding is_readable is_present get_metadata find_live find_file
  get_metadata-is_readable fs path h = elim (Option-cases (lookup path fs.path_index)) [
    | inl e ↦ absurd (cc (rw (e, is_readable) at h))
    | inr (id, e) ↦ elim (Option-cases (lookup id fs.files)) [
      | inl f ↦ absurd (cc (rw (e, is_readable, f) at h))
      | inr (m, f) ↦
          let alive : m.is_deleted ≡ false = ground (arith, rw (e, is_readable, f) at h) in
          (m, rw (e, find_file, f, find_live, alive) refl, alive)
    ]
  ]

  sync_blocks :
      (sha256 : Text → Text) (id : Text) (ids : List Text) (s : CrdtStore)
      → is_live (Store.get s id) ≡ true
      → sync_documents B sha256 (id ∷ ids) s ≡ none
  unfolding sync_documents sync_document
  sync_blocks sha256 id ids s h = elim (Option-cases (Store.get s id)) [
    | inl e ↦ absurd (cc (rw e at h))
    | inr (doc, e) ↦
        let alive : doc.is_deleted ≡ false = ground (arith, rw e at h) in
        let blocked =
          merge_documents_self sha256 (pointer_of s id) doc (pointer_of-document s id) alive in
        rw (e, sync_documents, sync_document) (rw (e, blocked) refl)
  ]

  -- SyncWithPeer, on a store without double entries, returns exactly if the store has no live
  -- document, and then has changed nothing but the time of the last sync: on the first live document
  -- it waits for a lock that it holds itself.
  pub sync_with_peer_returns :
      (sha256 : Text → Text) (now : ℕ) (fs : ReplicatedFs B)
      → Distinct fs.crdt_store.documents
      → sync_with_peer B sha256 now fs ≡ elim (Store.get_all_ids fs.crdt_store) [
        | [] ↦ some (record fs { sync_in_progress = false; last_sync_time = now })
        | ◌∷◌ id ids ↦ none
      ]
  unfolding sync_with_peer sync_documents
  sync_with_peer_returns sha256 now fs d = elim (List-cases (Store.get_all_ids fs.crdt_store)) [
    | inl e ↦ rw (e, sync_with_peer, sync_documents) refl
    | inr (id, ids, e) ↦
        let listed : any (text_eq id) (Store.get_all_ids fs.crdt_store) ≡ true =
          rw e (ground (arith, text_eq_iff id id)) in
        let live = sym ((get_all_ids_exact fs.crdt_store d).0 id) ∙ listed in
        rw (e, sync_with_peer, sync_blocks sha256 id ids fs.crdt_store live) refl
  ]
