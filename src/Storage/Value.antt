-- ===== src/Storage/Value.antt =====
-- src/storage/crdt.go, CRDTValue. `now` is what time.Now() answers, in nanoseconds; `sha256` is
-- the standard library's hash. Slices are copied on assignment, so no two values share memory.
pub mod Rank
pub mod Laws
use web5_mesh.Base.{
  ℕ, ◌+◌, ◌≡◌, refl, Bool, true, false, Option, none, some, List, [], ◌∷◌, arith, ltb, ◌==◌,
  if◌then◌else◌, u64, u32,
}
use web5_mesh.Base.Classes.{Text, text_eq_iff, Text_eq}
use web5_mesh.Base.Bytes.{before}
use web5_mesh.Base.Map.{insert_all, insert_all-nil, Distinct}
use web5_mesh.Storage.VectorClock
use web5_mesh.Storage.VectorClock.{EventId, EventId_eq, DottedVector}

-- The strings that the field Operation takes.
pub data Operation : Type 0 where
  created updated deleted : Operation

pub record Value : Type 0 where
  pub content : Text
  pub version : ℕ
  pub timestamp : ℕ
  pub operation : Operation
  pub vector_clock : DottedVector
  pub source_node : Text
  pub signature : Option Text
  pub metadata : List (Text × Text)

unfoldable pub new : ℕ → Text → Text → Value
unfolding VectorClock.new VectorClock.add_event
new now content source_node = record {
  content = content;
  version = 1;
  timestamp = now;
  operation = created;
  vector_clock =
      VectorClock.add_event VectorClock.new (record { node_id = source_node; seq_num = 1 }) 1;
  source_node = source_node;
  signature = none;
  metadata = [];
}

unfoldable pub clone : Value → Value
unfolding VectorClock.clone
clone c = record c {
  vector_clock = VectorClock.clone c.vector_clock;
  metadata = insert_all c.metadata [];
}

-- The event number is derived from the size of the clock, not from the node's own events.
unfoldable pub update : ℕ → Value → Text → Text → Value
unfolding VectorClock.add_event VectorClock.size
update now c content source_node =
    let version = u64 (c.version + 1) in
    let seq_num = u32 (VectorClock.size c.vector_clock + 1) in
    let event : EventId = record { node_id = source_node; seq_num = seq_num } in
    record c {
      content = content;
      timestamp = now;
      operation = updated;
      source_node = source_node;
      version = version;
      vector_clock = VectorClock.add_event c.vector_clock event version;
    }

-- Merge's first branch: the other value has the greater version.
unfoldable pub take_newer : Value → Value → Value
take_newer c other = record c {
  content = other.content;
  version = other.version;
  timestamp = other.timestamp;
  operation = other.operation;
  source_node = other.source_node;
  vector_clock = VectorClock.clone other.vector_clock;
  metadata = insert_all other.metadata c.metadata;
}

-- The last statement of Merge, for values that neither branch has decided.
unfoldable pub merge_clock : Value → Value → Value × Bool
merge_clock c other =
    let (clock, changed) = VectorClock.merge c.vector_clock other.vector_clock in
    (record c { vector_clock = clock }, changed)

module _ (sha256 : Text → Text) where
  unfoldable pub merge_with : Value → Value → Value × Bool
  unfolding take_newer merge_clock
  merge_with c other =
      if ltb c.version other.version
      then (take_newer c other, true)
      else if other.version == c.version
      then (if ltb c.timestamp other.timestamp
          then (
            record c {
              content = other.content;
              timestamp = other.timestamp;
              source_node = other.source_node;
            },
            true,
          )
          else if other.timestamp == c.timestamp
          then (if before (sha256 c.content) (sha256 other.content)
              then (record c { content = other.content; source_node = other.source_node }, true)
              else merge_clock c other)
          else merge_clock c other)
      else merge_clock c other

  -- Merge, whose argument may be nil and is another object (Pointers.merge_values has the locks).
  unfoldable pub merge : Value → Option Value → Value × Bool
  unfolding merge_with
  merge c none = (c, false)
  merge c (some other) = merge_with c other

-- The maps of a value have no key twice.
pub record IsWellFormed (c : Value) : Type 0 where
  pub events : Distinct c.vector_clock.causality
  pub entries : Distinct c.metadata

-- A clone equals the value.
pub clone_lem : (c : Value) → IsWellFormed c → clone c ≡ c
unfolding clone
clone_lem c w =
    rw (VectorClock.clone_lem c.vector_clock w.events, insert_all-nil c.metadata w.entries)
