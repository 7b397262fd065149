-- ===== src/Storage/Store.antt =====
-- src/storage/crdt.go, CRDTStore. The store owns its documents: no document stands under two
-- keys, and no caller changes one behind the store's back.
pub mod Laws
pub mod Listing
use web5_mesh.Base.{
  ℕ, ◌+◌, ◌≡◌, ◌≤◌, refl, Bool, true, false, Option, none, some, List, [], ◌∷◌, arith, ltb, ◌==◌,
  if◌then◌else◌, u64, length, not, ◌||◌,
}
use web5_mesh.Base.Classes.{Text, Text_eq}
use web5_mesh.Base.Bytes.{before}
use web5_mesh.Base.Map.{lookup, insert}
use web5_mesh.Base.ExchangeSort
use web5_mesh.Storage.VectorClock
use web5_mesh.Storage.Document
use web5_mesh.Storage.Document.{Document}

pub record CrdtStore : Type 0 where
  pub documents : List (Text × Document)

unfoldable pub new : CrdtStore
new = record { documents = [] }

unfoldable pub put : CrdtStore → Document → CrdtStore
put s doc = record s { documents = insert doc.id doc s.documents }

unfoldable pub get : CrdtStore → Text → Option Document
get s id = lookup id s.documents

-- The document found by Delete, and the store with it changed.
unfoldable pub delete_found : ℕ → CrdtStore → Text → Text → Option Document → CrdtStore × Bool
unfolding Document.delete
delete_found now s id source_node none = (s, false)
delete_found now s id source_node (some doc) = if doc.is_deleted then (s, false) else (
  record s { documents = insert id (Document.delete now doc source_node) s.documents },
  true,
)

unfoldable pub delete : ℕ → CrdtStore → Text → Text → CrdtStore × Bool
unfolding delete_found
delete now s id source_node = delete_found now s id source_node (lookup id s.documents)

module _ (sha256 : Text → Text) where
  unfoldable pub merge_found : CrdtStore → Document → Option Document → CrdtStore × Bool
  unfolding Document.merge Document.clone
  merge_found s external none =
      (record s { documents = insert external.id (Document.clone external) s.documents }, true)
  merge_found s external (some local) =
      let (merged, changed) = Document.merge sha256 local external in
      (record s { documents = insert external.id merged s.documents }, changed)

  -- MergeDocument of a document that is not one of the store's own objects
  -- (Pointers.merge_document_at has the others).
  unfoldable pub merge_document : CrdtStore → Document → CrdtStore × Bool
  unfolding merge_found
  merge_document s external = merge_found s external (lookup external.id s.documents)

-- The loop of GetAllIDs.
unfoldable pub live_ids : List (Text × Document) → List Text
live_ids [] = []
live_ids ((id, doc) ∷ m) = if doc.is_deleted then live_ids m else id ∷ live_ids m

-- `sort.Strings(ids)` exchanges two ids if the second comes first; any sort of distinct texts
-- gives the same list.
unfoldable pub get_all_ids : CrdtStore → List Text
unfolding live_ids ExchangeSort.sort
get_all_ids s = ExchangeSort.sort (λ a b. before b a) (live_ids s.documents)

-- The counters of Stats.
pub record Stats : Type 0 where
  pub total_documents : ℕ
  pub active_documents : ℕ
  pub total_events : ℕ
  pub total_versions : ℕ

unfoldable pub count_documents : List (Text × Document) → Stats → Stats
unfolding VectorClock.size
count_documents [] t = t
count_documents ((id, doc) ∷ m) t = count_documents m (record t {
  active_documents = if doc.is_deleted then t.active_documents else t.active_documents + 1;
  total_events = t.total_events + VectorClock.size doc.value.vector_clock;
  total_versions = u64 (t.total_versions + doc.value.version);
})

unfoldable pub stats : CrdtStore → Stats
unfolding count_documents
stats s = count_documents s.documents (record {
  total_documents = length s.documents;
  active_documents = 0;
  total_events = 0;
  total_versions = 0;
})
