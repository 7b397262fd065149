-- ===== src/Storage/Store/Laws.antt =====
-- Proofs about Put, Delete and MergeDocument of CRDTStore (src/storage/crdt.go).
use web5_mesh.Base.{
  if◌then◌else◌, ℕ, ◌≡◌, ◌≢◌, ◌∙◌, sym, ap, refl, Bool, true, false, Option, none, some, arith, not,
  Option-cases, inl, inr, Bool-cases,
}
use web5_mesh.Base.Classes.{Text, Text_eq, text_eq_iff}
use web5_mesh.Base.Map.{
  lookup, insert, lookup-insert, lookup-insert_self, insert-Distinct, Distinct,
}
use web5_mesh.Storage.Document
use web5_mesh.Storage.Document.{Document}
use web5_mesh.Storage.Store.{CrdtStore, put, get, delete_found, delete, merge_found, merge_document}

-- A document is found under its own id, and no id stands twice.
pub record IsConsistent (s : CrdtStore) : Type 0 where
  pub distinct : Distinct s.documents
  pub keyed : (id : Text) (doc : Document) → get s id ≡ some doc → doc.id ≡ id

insert-IsConsistent :
    (s : CrdtStore) (doc : Document) (id : Text)
    → doc.id ≡ id
    → IsConsistent s
    → IsConsistent (record s { documents = insert id doc s.documents })
unfolding get
insert-IsConsistent s doc id h c = record {
  distinct = insert-Distinct id doc s.documents c.distinct;
  keyed =
      λ j d e. ground (arith, lookup-insert id j doc s.documents, text_eq_iff id j, c.keyed j d);
}

-- The id exists and its document is not deleted.
abbrev pub is_live : Option Document → Bool
is_live none = false
is_live (some doc) = not doc.is_deleted

-- A live document is one that is not deleted.
is_live-doc :
    (o : Option Document)
    → is_live o ≡ true
    → (doc : Document) × (o ≡ some doc) × (doc.is_deleted ≡ false)
is_live-doc none h = cc
is_live-doc (some doc) h = (doc, refl, ground arith)

delete_refused :
    (now : ℕ) (s : CrdtStore) (id node : Text)
    → is_live (lookup id s.documents) ≡ false
    → delete now s id node ≡ (s, false)
unfolding delete delete_found
delete_refused now s id node h = elim (Option-cases (lookup id s.documents)) [
  | inl e ↦ rw (e, delete_found)
  | inr (doc, e) ↦ ground arith
]

delete_live :
    (now : ℕ) (s : CrdtStore) (id node : Text) (doc : Document)
    → lookup id s.documents ≡ some doc
    → doc.is_deleted ≡ false
    → delete now s id node
      ≡ (record s { documents = insert id (Document.delete now doc node) s.documents }, true)
unfolding delete delete_found
delete_live now s id node doc e l = rw (e, delete_found) (rw l)

delete-IsConsistent :
    (now : ℕ) (s : CrdtStore) (id node : Text)
    → IsConsistent s
    → IsConsistent (delete now s id node).0
delete-IsConsistent now s id node c = elim (Bool-cases (is_live (lookup id s.documents))) [
  | inl h ↦
      let (doc, e, l) = is_live-doc _ h in
      rw (delete_live now s id node doc e l) (
        insert-IsConsistent s (Document.delete now doc node) id
          (unfold Document.delete in c.keyed id doc (unfold get in e)) c)
  | inr h ↦ rw (delete_refused now s id node h) c
]

merge_document-IsConsistent :
    (sha256 : Text → Text) (s : CrdtStore) (doc : Document)
    → IsConsistent s
    → IsConsistent (merge_document sha256 s doc).0
unfolding merge_document
merge_document-IsConsistent sha256 s doc c = elim (Option-cases (lookup doc.id s.documents)) [
  | inl e ↦
      rw (e, merge_found)
        (insert-IsConsistent s (Document.clone doc) doc.id (unfold Document.clone in refl) c)
  | inr (local, e) ↦
      let same = c.keyed doc.id local (unfold get in e) in
      rw (e, merge_found)
        (insert-IsConsistent s (Document.merge sha256 local doc).0 doc.id
          (unfold Document.merge in ground arith) c)
]

-- Put, Delete and MergeDocument keep a consistent store consistent: every document stands under its
-- own id and no id twice.
pub store-IsConsistent :
    (sha256 : Text → Text) (s : CrdtStore)
    → IsConsistent s
    → ((doc : Document) → IsConsistent (put s doc))
      × ((now : ℕ) (id node : Text) → IsConsistent (delete now s id node).0)
      × ((doc : Document) → IsConsistent (merge_document sha256 s doc).0)
store-IsConsistent sha256 s c = (
  λ doc. unfold put in insert-IsConsistent s doc doc.id refl c,
  λ now id node. delete-IsConsistent now s id node c,
  λ doc. merge_document-IsConsistent sha256 s doc c,
)

-- What GetData answers for the document under an id, if there is one.
abbrev pub readable : Option Document → Option Text
readable none = none
readable (some doc) = Document.get_data doc

-- The document that Delete leaves under the id.
abbrev pub buried : ℕ → Text → Option Document → Option Document
buried now node none = none
buried now node (some doc) = some (if doc.is_deleted then doc else Document.delete now doc node)

dead-buried :
    (now : ℕ) (node : Text) (o : Option Document) → is_live o ≡ false → o ≡ buried now node o
dead-buried now node none h = refl
dead-buried now node (some doc) h = ground arith

live-buried :
    (now : ℕ) (node : Text) (doc : Document) (o : Option Document)
    → o ≡ some doc
    → doc.is_deleted ≡ false
    → some (Document.delete now doc node) ≡ buried now node o
live-buried now node doc none e l = cc
live-buried now node doc (some found) e l = ground arith

dead-readable : (o : Option Document) → is_live o ≡ false → readable o ≡ none
unfolding Document.get_data
dead-readable none h = refl
dead-readable (some doc) h = ground arith

-- Delete answers true exactly for a live document, leaves it as a tombstone with nothing to read,
-- answers false the second time, and touches no other document.
pub delete_contract :
    (now later : ℕ) (s : CrdtStore) (id other node : Text)
    → other ≢ id
    → let r = delete now s id node in
      (r.1 ≡ is_live (get s id))
      × (get r.0 id ≡ buried now node (get s id))
      × (readable (get r.0 id) ≡ none)
      × ((delete later r.0 id node).1 ≡ false)
      × (get r.0 other ≡ get s other)
unfolding get
delete_contract now later s id other node n = elim (Bool-cases (is_live (lookup id s.documents))) [
  | inl h ↦
      let (doc, e, l) = is_live-doc _ h in
      let gone = Document.delete now doc node in
      let found = lookup-insert_self id gone s.documents in
      rw (delete_live now s id node doc e l) (
        sym h,
        found ∙ live-buried now node doc _ e l,
        ap readable found ∙ unfold Document.get_data Document.delete in refl,
        ap (λ r. r.1)
            (delete_refused later (record s { documents = insert id gone s.documents }) id node
              (ap is_live found ∙ unfold Document.delete in refl)),
        ground (arith, lookup-insert id other gone s.documents, text_eq_iff id other),
      )
  | inr h ↦ rw (delete_refused now s id node h) (
    sym h,
    dead-buried now node (lookup id s.documents) h,
    dead-readable (lookup id s.documents) h,
    ap (λ r. r.1) (delete_refused later s id node h),
    refl,
  )
]

-- MergeDocument of a well-formed document adopts it as it is if its id is unknown, merges it into
-- the known one otherwise, reports which, and touches no other document.
pub merge_document_contract :
    (sha256 : Text → Text) (s : CrdtStore) (doc : Document) (other : Text)
    → Document.IsWellFormed doc
    → other ≢ doc.id
    → let r = merge_document sha256 s doc in
      (get r.0 doc.id ≡ elim (get s doc.id) [
        | none ↦ some doc
        | some local ↦ some (Document.merge sha256 local doc).0
      ])
      × (r.1
          ≡ elim (get s doc.id) [ none ↦ true | some local ↦ (Document.merge sha256 local doc).1 ])
      × (get r.0 other ≡ get s other)
unfolding merge_document get
merge_document_contract sha256 s doc other w n = elim (Option-cases (lookup doc.id s.documents)) [
  | inl e ↦
      rw (e, merge_found)
        (
          lookup-insert_self doc.id _ s.documents ∙ ap some (Document.clone_lem doc w),
          refl,
          ground (
            arith,
            lookup-insert doc.id other (Document.clone doc) s.documents,
            text_eq_iff doc.id other,
          ),
        )
  | inr (local, e) ↦
      rw (e, merge_found)
        (
          lookup-insert_self doc.id _ s.documents,
          refl,
          ground (
            arith,
            lookup-insert doc.id other (Document.merge sha256 local doc).0 s.documents,
            text_eq_iff doc.id other,
          ),
        )
]
