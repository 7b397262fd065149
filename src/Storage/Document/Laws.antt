-- ===== src/Storage/Document/Laws.antt =====
-- Proofs about CRDTDocument (src/storage/crdt.go) and sequences of its calls.
use web5_mesh.Base.{
  ℕ, ◌≡◌, refl, true, ◌||◌, none, List, [], ◌∷◌, arith, length-append, All, All-append,
}
use web5_mesh.Base.Classes.{Text}
use web5_mesh.Storage.Value
use web5_mesh.Storage.Value.{Value}
use web5_mesh.Storage.Value.Laws as ValueLaws
use web5_mesh.Storage.Document.{Document, IsWellFormed, update, merge, get_data, delete}

-- The calls that change a document.
pub data Call : Type 0 where
  updates : ℕ → ℕ → Text → Text → Call
  merges : Document → Call
  deletes : ℕ → Text → Call

-- What a call brings in is well formed.
abbrev pub IsFit : Call → Type 0
IsFit (updates now updated_at content node) = Unit
IsFit (merges other) = IsWellFormed other
IsFit (deletes updated_at node) = Unit

module _ (sha256 : Text → Text) where
  pub step : Document → Call → Document
  step d (updates now updated_at content node) = update now updated_at d content node
  step d (merges other) = (merge sha256 d other).0
  step d (deletes updated_at node) = delete updated_at d node

  pub run : Document → List Call → Document
  run d [] = d
  run d (c ∷ cs) = run (step d c) cs

  step-IsWellFormed : (d : Document) (c : Call) → IsFit c → IsWellFormed d → IsWellFormed (step d c)
  unfolding step update merge delete
  step-IsWellFormed d (updates now updated_at content node) f w = ground (
    arith,
    length-append d.history (Value.clone d.value ∷ []),
    Value.clone_lem d.value w.current,
    ValueLaws.update-IsWellFormed now d.value content node w.current,
    All-append Value.IsWellFormed d.history (d.value ∷ []) w.earlier (w.current, tt),
  )
  step-IsWellFormed d (merges other) f w =
      ground (arith, ValueLaws.merge-IsWellFormed sha256 d.value other.value w.current f.current)
  step-IsWellFormed d (deletes updated_at node) f w = ground arith

  step-deleted : (d : Document) (c : Call) → d.is_deleted ≡ true → (step d c).is_deleted ≡ true
  unfolding step update merge delete
  step-deleted d (updates now updated_at content node) h = ground arith
  step-deleted d (merges other) h = ground arith
  step-deleted d (deletes updated_at node) h = refl

  -- Updates, deletions and merges of well-formed documents leave a well-formed document well
  -- formed, with at most ten earlier values.
  pub run-IsWellFormed :
      (d : Document) (cs : List Call) → All IsFit cs → IsWellFormed d → IsWellFormed (run d cs)
  unfolding run
  run-IsWellFormed d [] f w = w
  run-IsWellFormed d (c ∷ cs) f w = run-IsWellFormed (step d c) cs f.1 (step-IsWellFormed d c f.0 w)

  run-deleted : (d : Document) (cs : List Call) → d.is_deleted ≡ true → (run d cs).is_deleted ≡ true
  unfolding run
  run-deleted d [] h = h
  run-deleted d (c ∷ cs) h = run-deleted (step d c) cs (step-deleted d c h)

  -- After Delete no sequence of updates, merges and deletions makes the data of the document
  -- readable again.
  pub run-delete :
      (d : Document) (updated_at : ℕ) (node : Text) (cs : List Call)
      → get_data (run (delete updated_at d node) cs) ≡ none
  unfolding get_data
  run-delete d updated_at node cs =
      let gone : (delete updated_at d node).is_deleted ≡ true = unfold delete in refl in
      rw (run-deleted (delete updated_at d node) cs gone)

  -- Two replicas of a document that merge each other read the same data, if the hash tells their
  -- data apart, and the merge is deleted exactly if one of them was.
  pub get_data-merge :
      (a b : Document)
      → (sha256 a.value.content ≡ sha256 b.value.content → a.value.content ≡ b.value.content)
      → (get_data (merge sha256 a b).0 ≡ get_data (merge sha256 b a).0)
        × ((merge sha256 a b).0.is_deleted ≡ (a.is_deleted || b.is_deleted))
  unfolding get_data merge
  get_data-merge a b inj = ground (arith, ValueLaws.merge_converges sha256 a.value b.value inj)
