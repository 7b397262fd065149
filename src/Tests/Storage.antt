-- ===== src/Tests/Storage.antt =====
-- Small replicas of src/storage/crdt.go.
use mathlib.Core.List.Perm
use web5_mesh.Base.{
  ℕ, ◌≡◌, ◌≢◌, true, false, none, some, List, [], ◌∷◌, arith, refl, any, IsSorted, ◌||◌,
}
use web5_mesh.Base.Classes.{Text, Text_eq, text_eq, text_eq_iff}
use web5_mesh.Base.Bytes.{codes, before}
use web5_mesh.Base.Map.{Distinct, lookup}
use web5_mesh.Storage.VectorClock
use web5_mesh.Storage.VectorClock.{DottedVector, EventId, EventId_eq, get_event}
use web5_mesh.Storage.VectorClock.Merge.{SameRecords, merge_join}
use web5_mesh.Storage.Value
use web5_mesh.Storage.Value.{Value}
use web5_mesh.Storage.Value.Rank.{rank}
use web5_mesh.Storage.Value.Laws as ValueLaws
use web5_mesh.Storage.Document
use web5_mesh.Storage.Document.{Document}
use web5_mesh.Storage.Document.Laws as DocumentLaws
use web5_mesh.Storage.Store
use web5_mesh.Storage.Pointers
use web5_mesh.Storage.Store.{CrdtStore}
use web5_mesh.Storage.Store.Laws as StoreLaws
use web5_mesh.Storage.Store.Laws.{IsConsistent, is_live, buried, readable}
use web5_mesh.Storage.Store.Listing.{get_all_ids_exact}
use web5_mesh.Tests.Samples.{checksum}

abbrev alice : EventId
alice = record { node_id = codes "alice"; seq_num = 1 }

abbrev bob : EventId
bob = record { node_id = codes "bob"; seq_num = 1 }

abbrev clock_a : DottedVector
clock_a = record { causality = (alice, 2) ∷ []; version = 0 }

abbrev clock_b : DottedVector
clock_b = record { causality = (bob, 1) ∷ (alice, 1) ∷ []; version = 3 }

clock_b-Distinct : Distinct (DottedVector.causality clock_b)
unfolding lookup
clock_b-Distinct = (refl, (refl, tt))

merge_join_example :
    SameRecords (VectorClock.merge clock_a clock_b).0 (VectorClock.merge clock_b clock_a).0
    × SameRecords
        (VectorClock.merge (VectorClock.merge clock_a clock_b).0 clock_b).0
        (VectorClock.merge clock_a (VectorClock.merge clock_b clock_b).0).0
    × (VectorClock.merge clock_a (VectorClock.clone clock_a) ≡ (clock_a, false))
unfolding lookup
merge_join_example = merge_join clock_a clock_b clock_b (refl, tt) clock_b-Distinct clock_b-Distinct

abbrev value : Text → ℕ → ℕ → Value
value content version timestamp = record {
  content = content;
  version = version;
  timestamp = timestamp;
  operation = Value.created;
  vector_clock = clock_a;
  source_node = codes "alice";
  signature = none;
  metadata = [];
}

abbrev first : Value
first = value (codes "one") 1 10

abbrev second : Value
second = value (codes "two") 2 5

abbrev third : Value
third = value (codes "three") 2 7

merge_all-perm_example :
    rank checksum (ValueLaws.merge_all checksum first (second ∷ third ∷ []))
    ≡ rank checksum (ValueLaws.merge_all checksum first (third ∷ second ∷ []))
merge_all-perm_example =
    ValueLaws.merge_all-perm checksum first (second ∷ third ∷ []) (third ∷ second ∷ [])
      (Perm.swap third second [])

different : checksum (codes "two") ≡ checksum (codes "three") → codes "two" ≡ codes "three"
different h = cc

merge_converges_example :
    let ab = (Value.merge checksum second (some third)).0 in
    let ba = (Value.merge checksum third (some second)).0 in
    (ab.content ≡ ba.content) × (ab.version ≡ ba.version) × (ab.timestamp ≡ ba.timestamp)
merge_converges_example = ValueLaws.merge_converges checksum second third different

abbrev document : Text → Value → Document
document id v = record {
  id = id;
  value = v;
  history = [];
  is_deleted = false;
  created_at = 1;
  updated_at = 1;
}

abbrev note : Document
note = document (codes "note") second

abbrev note_too : Document
note_too = document (codes "note") third

note-IsWellFormed : Document.IsWellFormed note
unfolding lookup
note-IsWellFormed = record {
  bounded = omega arith;
  current = record { events = (refl, tt); entries = tt };
  earlier = tt;
}

abbrev calls : List DocumentLaws.Call
calls =
    DocumentLaws.updates 3 3 (codes "new") (codes "bob")
    ∷ DocumentLaws.merges note
    ∷ DocumentLaws.deletes 4 (codes "bob")
    ∷ []

run-delete_example :
    Document.get_data (DocumentLaws.run checksum (Document.delete 2 note_too (codes "alice")) calls)
    ≡ none
run-delete_example = DocumentLaws.run-delete checksum note_too 2 (codes "alice") calls

get_data-merge_example :
    (Document.get_data (Document.merge checksum note note_too).0
      ≡ Document.get_data (Document.merge checksum note_too note).0)
    × ((Document.merge checksum note note_too).0.is_deleted ≡ (false || false))
get_data-merge_example = DocumentLaws.get_data-merge checksum note note_too different

abbrev store : CrdtStore
store = record { documents = (codes "note", note) ∷ [] }

other_id : codes "list" ≢ codes "note"
other_id h = let same : false ≡ true = (text_eq_iff (codes "list") (codes "note")).1 h in cc

delete_contract_example :
    let r = Store.delete 5 store (codes "note") (codes "bob") in
    (r.1 ≡ is_live (Store.get store (codes "note")))
    × (Store.get r.0 (codes "note") ≡ buried 5 (codes "bob") (Store.get store (codes "note")))
    × (readable (Store.get r.0 (codes "note")) ≡ none)
    × ((Store.delete 6 r.0 (codes "note") (codes "bob")).1 ≡ false)
    × (Store.get r.0 (codes "list") ≡ Store.get store (codes "list"))
delete_contract_example =
    StoreLaws.delete_contract 5 6 store (codes "note") (codes "list") (codes "bob") other_id

-- A document of another node, behind other objects.
abbrev elsewhere : Pointers.Pointer
elsewhere = record { document = 70; value = 71; vector = 72 }

merge_document_at_cases_example :
    (Pointers.merge_document_at checksum store elsewhere note
      ≡ some (Store.merge_document checksum store note))
    × (Pointers.merge_document_at checksum store (Pointers.pointer_of store (codes "note")) note
        ≡ none)
unfolding Pointers.pointer_of Pointers.place_of lookup
merge_document_at_cases_example =
    Pointers.merge_document_at_cases checksum store elsewhere note note
      (record {
        document-value = refl;
        document-other_value = refl;
        value-other_value = refl;
        document-vector = refl;
        document-other_vector = refl;
        value-vector = refl;
        value-other_vector = refl;
        other_value-vector = refl;
        vectors = refl;
      })
      refl refl

get_all_ids_exact_example :
    ((id : Text) → any (text_eq id) (Store.get_all_ids store) ≡ is_live (Store.get store id))
    × IsSorted (λ a b. before b a ≡ false) (Store.get_all_ids store)
unfolding lookup
get_all_ids_exact_example = get_all_ids_exact store (refl, tt)
