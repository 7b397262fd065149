-- ===== src/Storage/VectorClock.antt =====
-- src/storage/crdt.go, EventID and DottedVector. The mutexes make each method atomic; a method is
-- a function on the vector.
pub mod Merge
use web5_mesh.Base.{
  ℕ, ◌+◌, ◌≡◌, ◌↔◌, refl, Bool, true, false, ◌&&◌, Option, none, some, List, [], ◌∷◌, arith, ltb,
  ◌==◌, if◌then◌else◌, length, u64,
}
use web5_mesh.Base.Classes.{Eq, Text, text_eq, text_eq_iff}
use web5_mesh.Base.Map.{lookup, insert, insert_all, Distinct, insert_all-nil, insert-Distinct}

pub record EventId : Type 0 where
  pub node_id : Text
  pub seq_num : ℕ

abbrev pub event_eq : EventId → EventId → Bool
event_eq a b = text_eq a.node_id b.node_id && a.seq_num == b.seq_num

pub event_eq_iff : (a b : EventId) → (event_eq a b ≡ true) ↔ (a ≡ b)
event_eq_iff a b = (
  λ h. ground (arith, text_eq_iff a.node_id b.node_id),
  λ h. ground (arith, text_eq_iff a.node_id b.node_id),
)

instance abbrev pub EventId_eq : Eq EventId
EventId_eq = record { beq = event_eq; beq_iff = event_eq_iff }

pub record DottedVector : Type 0 where
  pub causality : List (EventId × ℕ)
  pub version : ℕ

unfoldable pub new : DottedVector
new = record { causality = []; version = 0 }

unfoldable pub clone : DottedVector → DottedVector
unfolding new
clone dv = record new { version = dv.version; causality = insert_all dv.causality new.causality }

unfoldable pub add_event : DottedVector → EventId → ℕ → DottedVector
add_event dv event value = record dv {
  causality = insert event value dv.causality;
  version = u64 (dv.version + 1);
}

unfoldable pub get_event : DottedVector → EventId → Option ℕ
get_event dv event = lookup event dv.causality

-- The condition of the loop in Merge: `!exists || version > existing`.
unfoldable pub is_news : Option ℕ → ℕ → Bool
is_news none version = true
is_news (some existing) version = ltb existing version

-- The loop of Merge over the other vector's entries, with `changed`.
unfoldable pub merge_entries :
    List (EventId × ℕ) → List (EventId × ℕ) → Bool → List (EventId × ℕ) × Bool
merge_entries [] causality changed = (causality, changed)
merge_entries ((event, version) ∷ rest) causality changed =
    let news = is_news (lookup event causality) version in
    merge_entries rest (if news then insert event version causality else causality)
      (if news then true else changed)

-- Merge of another object (Pointers.merge_vectors has the locks).
unfoldable pub merge : DottedVector → DottedVector → DottedVector × Bool
unfolding merge_entries is_news
merge dv other =
    let (causality, changed) = merge_entries other.causality dv.causality false in
    (
      record {
        causality = causality;
        version = if changed then u64 (dv.version + 1) else dv.version;
      },
      changed,
    )

unfoldable pub is_empty : DottedVector → Bool
is_empty dv = length dv.causality == 0

unfoldable pub size : DottedVector → ℕ
size dv = length dv.causality

-- Clone copies every entry and the version.
pub clone_lem : (dv : DottedVector) → Distinct dv.causality → clone dv ≡ dv
unfolding clone new
clone_lem dv d = rw (insert_all-nil dv.causality d)

pub add_event-Distinct :
    (dv : DottedVector) (event : EventId) (value : ℕ)
    → Distinct dv.causality
    → Distinct (add_event dv event value).causality
unfolding add_event
add_event-Distinct dv event value d = insert-Distinct event value dv.causality d
