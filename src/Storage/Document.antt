-- ===== src/Storage/Document.antt =====
-- src/storage/crdt.go, CRDTDocument. A document's Value is never nil: the constructor sets it.
pub mod Laws
use web5_mesh.Base.{
  ℕ, ◌+◌, ◌≡◌, ◌≤◌, refl, Bool, true, false, Option, none, some, List, [], ◌∷◌, ◌++◌, map, arith,
  ltb, ◌==◌, if◌then◌else◌, u64, length, All, ap,
}
use web5_mesh.Base.Classes.{Text}
use web5_mesh.Storage.VectorClock
use web5_mesh.Storage.Value
use web5_mesh.Storage.Value.{Value, deleted}

pub record Document : Type 0 where
  pub id : Text
  pub value : Value
  pub history : List Value
  pub is_deleted : Bool
  pub created_at : ℕ
  pub updated_at : ℕ

-- NewCRDTDocument reads the clock three times: for the value, CreatedAt and UpdatedAt.
unfoldable pub new : ℕ → ℕ → ℕ → Text → Text → Text → Document
unfolding Value.new
new now created_at updated_at id content source_node = record {
  id = id;
  value = Value.new now content source_node;
  history = [];
  is_deleted = false;
  created_at = created_at;
  updated_at = updated_at;
}

-- Clone, of a document that is not nil.
unfoldable pub clone : Document → Document
unfolding Value.clone
clone d = record d { value = Value.clone d.value; history = map Value.clone d.history }

-- Update reads the clock once in the value and once for UpdatedAt.
unfoldable pub update : ℕ → ℕ → Document → Text → Text → Document
unfolding Value.update Value.clone
update now updated_at d content source_node = if d.is_deleted then d else record d {
  history = if ltb (length d.history) 10 then d.history ++ Value.clone d.value ∷ [] else d.history;
  value = Value.update now d.value content source_node;
  updated_at = updated_at;
}

module _ (sha256 : Text → Text) where
  -- Merge of another object (Pointers.merge_documents has the locks).
  unfoldable pub merge : Document → Document → Document × Bool
  unfolding Value.merge
  merge d other =
      if other.is_deleted
      then (record d { is_deleted = true }, true)
      else (let (value, changed) = Value.merge sha256 d.value (some other.value) in
          (record d { value = value }, changed))

-- GetData answers nil for a deleted document.
unfoldable pub get_data : Document → Option Text
get_data d = if d.is_deleted then none else some d.value.content

unfoldable pub get_version : Document → ℕ
get_version d = d.value.version

unfoldable pub get_vector_clock_size : Document → ℕ
unfolding VectorClock.size
get_vector_clock_size d = VectorClock.size d.value.vector_clock

unfoldable pub delete : ℕ → Document → Text → Document
delete updated_at d source_node =
    let value = d.value in
    record d {
      is_deleted = true;
      value = record value {
        operation = deleted;
        source_node = source_node;
        version = u64 (value.version + 1);
      };
      updated_at = updated_at;
    }

-- At most ten earlier values are kept, and every map is well formed.
pub record IsWellFormed (d : Document) : Type 0 where
  pub bounded : length d.history ≤ 10
  pub current : Value.IsWellFormed d.value
  pub earlier : All Value.IsWellFormed d.history

map-clone : (l : List Value) → All Value.IsWellFormed l → map Value.clone l ≡ l
map-clone [] w = refl
map-clone (v ∷ l) w = ground (arith, Value.clone_lem v w.0, map-clone l w.1)

pub clone_lem : (d : Document) → IsWellFormed d → clone d ≡ d
unfolding clone
clone_lem d w = ground (arith, Value.clone_lem d.value w.current, map-clone d.history w.earlier)
