-- ===== src/Storage/Pointers.antt =====
-- The Merge methods of src/storage/crdt.go as calls through pointers, with the sync.RWMutex of each
-- object: a goroutine that asks for a mutex which it holds itself waits for ever, which is `none`.
-- The functions of VectorClock, Value, Document and Store are these calls on different objects.
use web5_mesh.Base.{
  ℕ, ◌+◌, ◌*◌, ◌≡◌, refl, Bool, true, false, ◌&&◌, ◌||◌, Option, none, some, List, [], ◌∷◌, arith,
  ltb, ◌==◌, if◌then◌else◌, any, ◌>>=◌, Bool-cases, Option-cases, inl, inr,
}
use web5_mesh.Base.Classes.{Text, Text_eq, text_eq}
use web5_mesh.Base.Bytes.{before}
use web5_mesh.Base.Map.{lookup, insert}
use web5_mesh.Storage.VectorClock
use web5_mesh.Storage.VectorClock.{DottedVector}
use web5_mesh.Storage.Value
use web5_mesh.Storage.Value.{Value}
use web5_mesh.Storage.Document
use web5_mesh.Storage.Document.{Document}
use web5_mesh.Storage.Store
use web5_mesh.Storage.Store.{CrdtStore}

-- The mutexes that the goroutine holds, by address, and whether for writing.
abbrev pub Held : Type 0
Held = List (ℕ × Bool)

-- Lock and RLock of the mutex at an address: a writer waits for every holder, a reader for a writer.
unfoldable pub lock : ℕ → Held → Option Held
lock address held =
    if any (λ (h : ℕ × Bool). h.0 == address) held then none else some ((address, true) ∷ held)

unfoldable pub read_lock : ℕ → Held → Option Held
read_lock address held =
    if any (λ (h : ℕ × Bool). (h.0 == address) && h.1) held
    then none
    else some ((address, false) ∷ held)

-- DottedVector.Merge: the other's mutex first.
unfoldable pub lock_vectors : ℕ → ℕ → Held → Option Held
unfolding lock read_lock
lock_vectors dv other held = do held ← read_lock other held; lock dv held

unfoldable pub merge_vectors :
    ℕ → ℕ → Held → DottedVector → DottedVector → Option (DottedVector × Bool)
unfolding lock_vectors VectorClock.merge
merge_vectors dv other held a b = lock_vectors dv other held >>= (λ h. some (VectorClock.merge a b))

-- The objects behind a document's pointer: the document, its value, and the value's vector.
pub record Pointer : Type 0 where
  pub document : ℕ
  pub value : ℕ
  pub vector : ℕ

-- Two documents that share no object.
pub record AreApart (p q : Pointer) : Type 0 where
  pub document-value : (p.document == p.value) ≡ false
  pub document-other_value : (p.document == q.value) ≡ false
  pub value-other_value : (p.value == q.value) ≡ false
  pub document-vector : (p.document == p.vector) ≡ false
  pub document-other_vector : (p.document == q.vector) ≡ false
  pub value-vector : (p.value == p.vector) ≡ false
  pub value-other_vector : (p.value == q.vector) ≡ false
  pub other_value-vector : (q.value == p.vector) ≡ false
  pub vectors : (q.vector == p.vector) ≡ false

module _ (sha256 : Text → Text) where
  -- The versions, timestamps and hashes decide for the other value.
  unfoldable pub is_decided : Value → Value → Bool
  is_decided c other =
      ltb c.version other.version
      || ((other.version == c.version)
          && (ltb c.timestamp other.timestamp
              || ((other.timestamp == c.timestamp)
                  && before (sha256 c.content) (sha256 other.content))))

  -- CRDTValue.Merge: its own mutex first; the vectors only if nothing decides before.
  unfoldable pub merge_values : Pointer → Pointer → Held → Value → Value → Option (Value × Bool)
  unfolding is_decided lock read_lock merge_vectors Value.merge
  merge_values p q held c other =
      lock p.value held >>= (λ held. read_lock q.value held) >>= (λ held.
        if is_decided c other
        then some (Value.merge sha256 c (some other))
        else (merge_vectors p.vector q.vector held c.vector_clock other.vector_clock
            >>= (λ r. some (record c { vector_clock = r.0 }, r.1))))

  -- CRDTDocument.Merge.
  unfoldable pub merge_documents :
      Pointer → Pointer → Document → Document → Option (Document × Bool)
  unfolding lock merge_values
  merge_documents p q d other = lock p.document [] >>= (λ held.
      if other.is_deleted
      then some (record d { is_deleted = true }, true)
      else (merge_values p q held d.value other.value
          >>= (λ r. some (record d { value = r.0 }, r.1))))

  merge_values-merge :
      (p q : Pointer) (c other : Value)
      → AreApart p q
      → merge_values p q ((p.document, true) ∷ []) c other
        ≡ some (Value.merge sha256 c (some other))
  unfolding merge_values merge_vectors lock_vectors lock read_lock is_decided Value.merge
      Value.merge_with Value.merge_clock
  merge_values-merge p q c other h = ground (
    arith, h.document-value, h.document-other_value, h.value-other_value, h.document-vector,
    h.document-other_vector, h.value-vector, h.value-other_vector, h.other_value-vector, h.vectors,
  )

  -- On documents that share no object Merge returns, with the result of Document.merge.
  pub merge_documents-merge :
      (p q : Pointer) (d other : Document)
      → AreApart p q
      → merge_documents p q d other ≡ some (Document.merge sha256 d other)
  unfolding merge_documents lock Document.merge
  merge_documents-merge p q d other h = elim (Bool-cases other.is_deleted) [
    | inl e ↦ rw (e, merge_documents) refl
    | inr e ↦ rw (e, merge_documents, merge_values-merge p q d.value other.value h) refl
  ]

  -- A document that is not deleted, merged into itself, waits for its own value.
  pub merge_documents_self :
      (p : Pointer) (d : Document)
      → (p.document == p.value) ≡ false
      → d.is_deleted ≡ false
      → merge_documents p p d d ≡ none
  unfolding merge_documents merge_values lock read_lock
  merge_documents_self p d n h =
      let own : (p.value == p.value) ≡ true = ground arith in
      rw (h, merge_documents, n, merge_values, lock, own, read_lock) refl

-- The objects behind the document that a store holds under an id, by its place in the map.
unfoldable pub place_of : Text → List (Text × Document) → ℕ
place_of id [] = 0
place_of id ((j, doc) ∷ m) = let rest = place_of id m in if text_eq j id then 0 else rest + 1

unfoldable pub pointer_of : CrdtStore → Text → Pointer
unfolding place_of
pointer_of s id =
    let place = place_of id s.documents in
    record { document = 3 * place; value = 3 * place + 1; vector = 3 * place + 2 }

pub pointer_of-document :
    (s : CrdtStore) (id : Text) → ((pointer_of s id).document == (pointer_of s id).value) ≡ false
unfolding pointer_of
pointer_of-document s id = ground arith

module _ (sha256 : Text → Text) where
  -- CRDTStore.MergeDocument of the document behind a pointer, which may be one of the store's own.
  unfoldable pub merge_document_at : CrdtStore → Pointer → Document → Option (CrdtStore × Bool)
  unfolding pointer_of merge_documents Document.clone
  merge_document_at s q external = elim (lookup external.id s.documents) [
    | none ↦
        some
          (record s { documents = insert external.id (Document.clone external) s.documents }, true)
    | some local ↦
        merge_documents sha256 (pointer_of s external.id) q local external
        >>= (λ r. some (record s { documents = insert external.id r.0 s.documents }, r.1))
  ]

  -- MergeDocument of a document that shares no object with the store's returns what
  -- Store.merge_document says; of a live document of the store's own it never returns.
  pub merge_document_at_cases :
      (s : CrdtStore) (q : Pointer) (external own : Document)
      → AreApart (pointer_of s external.id) q
      → lookup own.id s.documents ≡ some own
      → own.is_deleted ≡ false
      → (merge_document_at s q external ≡ some (Store.merge_document sha256 s external))
        × (merge_document_at s (pointer_of s own.id) own ≡ none)
  unfolding merge_document_at Store.merge_document Store.merge_found
  merge_document_at_cases s q external own h l live = (
    elim (Option-cases (lookup external.id s.documents)) [
      | inl e ↦ rw (e, merge_document_at, Store.merge_document) refl
      | inr (local, e) ↦
          rw
            (
              e,
              merge_document_at,
              merge_documents-merge sha256 (pointer_of s external.id) q local external h,
              Store.merge_document,
            )
            refl
    ],
    rw
        (
          l,
          merge_document_at,
          merge_documents_self sha256 (pointer_of s own.id) own (pointer_of-document s own.id) live,
        )
        refl,
  )
