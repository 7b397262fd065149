-- ===== src/Storage/Store/Listing.antt =====
-- GetAllIDs and Stats of CRDTStore (src/storage/crdt.go).
use web5_mesh.Base.{
  ◌+◌, ◌≡◌, ◌≤◌, ◌∙◌, refl, false, none, List, [], ◌∷◌, arith, if◌then◌else◌, u64, length, any,
  IsSorted, inl, inr, Bool-cases, length-perm,
}
use web5_mesh.Base.Classes.{Text, Text_eq, text_eq, text_eq_iff}
use web5_mesh.Base.Bytes.{before, before_asymm, before_trans, before_total}
use web5_mesh.Base.Map.{lookup, Distinct}
use web5_mesh.Base.ExchangeSort
use web5_mesh.Storage.VectorClock
use web5_mesh.Storage.Document.{Document}
use web5_mesh.Storage.Store.Laws.{is_live}
use web5_mesh.Storage.Store.{CrdtStore, Stats, get, live_ids, get_all_ids, count_documents, stats}

not_before_trans : (x y z : Text) → before x y ≡ false → before y z ≡ false → before x z ≡ false
not_before_trans x y z h k =
    ground (arith, before_trans x z y, before_trans y x z, before_total x y, before_total y z)

any-live_ids :
    (m : List (Text × Document)) (id : Text)
    → Distinct m
    → any (text_eq id) (live_ids m) ≡ is_live (lookup id m)
unfolding live_ids lookup
any-live_ids [] id d = refl
any-live_ids ((j, doc) ∷ m) id d = elim (Bool-cases (text_eq j id)) [
  | inl same ↦
      let here : j ≡ id = (text_eq_iff j id).0 same in
      let gone : lookup id m ≡ none = rw here at (d.0) in
      rw same (ground (arith, any-live_ids m id d.1, text_eq_iff id j))
  | inr other ↦ rw other (ground (arith, any-live_ids m id d.1, text_eq_iff j id, text_eq_iff id j))
]

-- In a store without double entries GetAllIDs lists an id exactly if its document is live, in
-- ascending order.
pub get_all_ids_exact :
    (s : CrdtStore)
    → Distinct s.documents
    → ((id : Text) → any (text_eq id) (get_all_ids s) ≡ is_live (get s id))
      × IsSorted (λ a b. before b a ≡ false) (get_all_ids s)
unfolding get_all_ids get
get_all_ids_exact s d = (
  λ id.
      ExchangeSort.sort-any (λ a b. before b a) (text_eq id) (live_ids s.documents)
      ∙ any-live_ids s.documents id d,
  ExchangeSort.sort-IsSorted (λ a b. before b a) (λ x y h. before_asymm y x h)
      (λ x y z h k. not_before_trans z y x k h) (live_ids s.documents),
)

length-live_ids-le : (m : List (Text × Document)) → length (live_ids m) ≤ length m
unfolding live_ids
length-live_ids-le [] = omega arith
length-live_ids-le ((id, doc) ∷ m) = ground (arith, length-live_ids-le m)

count_active :
    (m : List (Text × Document)) (t : Stats)
    → ((count_documents m t).active_documents ≡ t.active_documents + length (live_ids m))
      × ((count_documents m t).total_documents ≡ t.total_documents)
unfolding count_documents live_ids
count_active [] t = omega arith
count_active ((id, doc) ∷ m) t =
    let t' = record t {
      active_documents = if doc.is_deleted then t.active_documents else t.active_documents + 1;
      total_events = t.total_events + VectorClock.size doc.value.vector_clock;
      total_versions = u64 (t.total_versions + doc.value.version);
    } in
    ground (arith, count_active m t')

-- Stats counts as active what GetAllIDs lists, and never more than there are documents.
pub stats_active :
    (s : CrdtStore)
    → ((stats s).active_documents ≡ length (get_all_ids s))
      × ((stats s).active_documents ≤ (stats s).total_documents)
unfolding stats get_all_ids
stats_active s =
    let counted = count_active s.documents (record {
      total_documents = length s.documents;
      active_documents = 0;
      total_events = 0;
      total_versions = 0;
    }) in
    let sorted = length-perm (ExchangeSort.sort-perm (λ a b. before b a) (live_ids s.documents)) in
    omega (arith, counted, sorted, length-live_ids-le s.documents)
