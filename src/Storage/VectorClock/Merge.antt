-- ===== src/Storage/VectorClock/Merge.antt =====
-- Proofs about DottedVector.Merge (src/storage/crdt.go).
use web5_mesh.Base.{
  ℕ, ◌+◌, ◌≡◌, ◌↔◌, inl, inr, sym, ◌∙◌, ap, refl, Bool, true, false, Option, none, some, List, [],
  ◌∷◌, arith, ltb, if◌then◌else◌, u64, Bool-cases,
}
use web5_mesh.Base.Map.{lookup, insert, Distinct, lookup-insert, insert-Distinct}
use web5_mesh.Storage.VectorClock.{
  EventId, event_eq, event_eq_iff, EventId_eq, DottedVector, get_event, is_news, merge_entries,
  merge, clone, clone_lem,
}

-- The later of two records of an event, where no record comes first.
abbrev pub later : Option ℕ → Option ℕ → Option ℕ
later none b = b
later (some a) none = some a
later (some a) (some b) = if ltb a b then some b else some a

pub later_comm : (a b : Option ℕ) → later a b ≡ later b a
later_comm none none = refl
later_comm none (some b) = refl
later_comm (some a) none = refl
later_comm (some a) (some b) = ground arith

pub later_assoc : (a b c : Option ℕ) → later (later a b) c ≡ later a (later b c)
later_assoc none b c = refl
later_assoc (some a) none c = refl
later_assoc (some a) (some b) none = ground arith
later_assoc (some a) (some b) (some c) = ground arith

pub later_idem : (a : Option ℕ) → later a a ≡ a
later_idem none = refl
later_idem (some a) = ground arith

later-none : (o : Option ℕ) → later o none ≡ o
later-none none = refl
later-none (some a) = refl

later_news : (o : Option ℕ) (v : ℕ) → later o (some v) ≡ (if is_news o v then some v else o)
unfolding is_news
later_news none v = refl
later_news (some a) v = ground arith

-- One step of the loop, read at an event.
lookup_step :
    (e event : EventId) (v : ℕ) (c : List (EventId × ℕ))
    → lookup e (if is_news (lookup event c) v then insert event v c else c)
      ≡ (if event_eq event e then later (lookup e c) (some v) else lookup e c)
lookup_step e event v c = elim (Bool-cases (event_eq event e)) [
  | inl same ↦
      let here : event ≡ e = (event_eq_iff event e).0 same in
      rw same (ground (arith, later_news (lookup e c) v, lookup-insert event e v c))
  | inr other ↦ ground (arith, lookup-insert event e v c)
]

lookup-merge_entries :
    (e : EventId) (rest c : List (EventId × ℕ)) (changed : Bool)
    → Distinct rest
    → lookup e (merge_entries rest c changed).0 ≡ later (lookup e c) (lookup e rest)
unfolding merge_entries lookup
lookup-merge_entries e [] c changed d = later_comm none (lookup e c)
lookup-merge_entries e ((event, v) ∷ rest) c changed d =
    let news = is_news (lookup event c) v in
    let c' = if news then insert event v c else c in
    lookup-merge_entries e rest c' (if news then true else changed) d.1
    ∙ elim (Bool-cases (event_eq event e)) [
      | inl same ↦
          let here : event ≡ e = (event_eq_iff event e).0 same in
          let absent : lookup e rest ≡ none = rw here at (d.0) in
          rw (same, absent) (ground (arith, lookup_step e event v c, later-none (lookup e c')))
      | inr other ↦ rw other (ground (arith, lookup_step e event v c))
    ]

merge_entries-Distinct :
    (rest c : List (EventId × ℕ)) (changed : Bool)
    → Distinct c
    → Distinct (merge_entries rest c changed).0
unfolding merge_entries
merge_entries-Distinct [] c changed d = d
merge_entries-Distinct ((event, v) ∷ rest) c changed d =
    merge_entries-Distinct rest _ _ (ground (arith, insert-Distinct event v c d))

-- With the flag still false at the end nothing was written.
unchanged :
    (rest c : List (EventId × ℕ)) (changed : Bool)
    → (merge_entries rest c changed).1 ≡ false
    → ((merge_entries rest c changed).0 ≡ c) × (changed ≡ false)
unfolding merge_entries
unchanged [] c changed h = (refl, h)
unchanged ((event, v) ∷ rest) c changed h = elim (Bool-cases (is_news (lookup event c) v)) [
  | inl news ↦ cc ((unchanged rest _ _ (rw (news, merge_entries) at h)).1)
  | inr old ↦ rw (old, merge_entries) (unchanged rest c changed (rw (old, merge_entries) at h))
]

-- The first vector's records are all at least as late.
abbrev pub Covers : List (EventId × ℕ) → List (EventId × ℕ) → Type 0
Covers c other = (e : EventId) → later (lookup e c) (lookup e other) ≡ lookup e c

not-is_news : (o : Option ℕ) (v : ℕ) → later o (some v) ≡ o → is_news o v ≡ false
unfolding is_news
not-is_news none v h = cc
not-is_news (some a) v h = ground arith

Covers-tail :
    (event : EventId) (v : ℕ) (rest c : List (EventId × ℕ))
    → lookup event rest ≡ none
    → Covers c ((event, v) ∷ rest)
    → Covers c rest
unfolding lookup
Covers-tail event v rest c absent h e = elim (Bool-cases (event_eq event e)) [
  | inl same ↦
      let here : event ≡ e = (event_eq_iff event e).0 same in
      let gone : lookup e rest ≡ none = rw here at absent in rw gone (later-none (lookup e c))
  | inr other ↦ rw other at (h e)
]

Covers-head :
    (event : EventId) (v : ℕ) (rest c : List (EventId × ℕ))
    → Covers c ((event, v) ∷ rest)
    → later (lookup event c) (some v) ≡ lookup event c
unfolding lookup
Covers-head event v rest c h =
    let self : event_eq event event ≡ true = (event_eq_iff event event).1 refl in
    rw self at (h event)

covered_flag :
    (rest c : List (EventId × ℕ)) (changed : Bool)
    → Distinct rest
    → Covers c rest
    → (merge_entries rest c changed).1 ≡ changed
unfolding merge_entries
covered_flag [] c changed d h = refl
covered_flag ((event, v) ∷ rest) c changed d h =
    let old : is_news (lookup event c) v ≡ false = not-is_news _ v (Covers-head event v rest c h) in
    rw (old, merge_entries) (covered_flag rest c changed d.1 (Covers-tail event v rest c d.0 h))

-- Merge leaves the keys distinct.
pub merge-Distinct :
    (dv other : DottedVector) → Distinct dv.causality → Distinct (merge dv other).0.causality
unfolding merge
merge-Distinct dv other d = merge_entries-Distinct other.causality dv.causality false d

-- After Merge the record of each event is the later of the two records, or the only one, for an
-- argument without double entries.
pub get_event-merge :
    (dv other : DottedVector) (e : EventId)
    → Distinct other.causality
    → get_event (merge dv other).0 e ≡ later (get_event dv e) (get_event other e)
unfolding get_event merge
get_event-merge dv other e d = lookup-merge_entries e other.causality dv.causality false d

reports_covered :
    (dv other : DottedVector)
    → Distinct other.causality
    → ((merge dv other).1 ≡ false)
      ↔ ((e : EventId) → later (get_event dv e) (get_event other e) ≡ get_event dv e)
unfolding merge get_event
reports_covered dv other d = (
  λ same e.
      sym (lookup-merge_entries e other.causality dv.causality false d)
      ∙ ap (λ c. lookup e c) (unchanged other.causality dv.causality false same).0,
  λ h. covered_flag other.causality dv.causality false d h,
)

unreported : (dv other : DottedVector) → (merge dv other).1 ≡ false → (merge dv other).0 ≡ dv
unfolding merge
unreported dv other same = ground (arith, unchanged other.causality dv.causality false same)

-- Merge reports no change exactly when every record of the other vector is here already, as late
-- or later, and exactly when the vector stays as it was. The version is incremented (mod 2^64) with
-- a reported change, and kept otherwise.
pub merge_reports :
    (dv other : DottedVector)
    → Distinct other.causality
    → (((merge dv other).1 ≡ false)
        ↔ ((e : EventId) → later (get_event dv e) (get_event other e) ≡ get_event dv e))
      × (((merge dv other).1 ≡ false) ↔ ((merge dv other).0 ≡ dv))
      × ((merge dv other).0.version
          ≡ (if (merge dv other).1 then u64 (dv.version + 1) else dv.version))
merge_reports dv other d = (
  reports_covered dv other d,
  (
    unreported dv other,
    λ same.
        (reports_covered dv other d).1
          (λ e. sym (get_event-merge dv other e d) ∙ ap (λ v. get_event v e) same),
  ),
  unfold merge in refl,
)

-- Two vectors hold the same record of every event.
abbrev pub SameRecords : DottedVector → DottedVector → Type 0
SameRecords a b = (e : EventId) → get_event a e ≡ get_event b e

-- For vectors without double entries, merging is commutative and associative on the records, and
-- merging a clone of a vector into it changes nothing.
pub merge_join :
    (a b c : DottedVector)
    → Distinct a.causality
    → Distinct b.causality
    → Distinct c.causality
    → SameRecords (merge a b).0 (merge b a).0
      × SameRecords (merge (merge a b).0 c).0 (merge a (merge b c).0).0
      × (merge a (clone a) ≡ (a, false))
merge_join a b c da db dc = (
  λ e.
      get_event-merge a b e db
      ∙ later_comm (get_event a e) (get_event b e)
      ∙ sym (get_event-merge b a e da),
  λ e. ground (
    arith,
    get_event-merge (merge a b).0 c e dc,
    get_event-merge a b e db,
    get_event-merge a (merge b c).0 e (merge-Distinct b c db),
    get_event-merge b c e dc,
    later_assoc (get_event a e) (get_event b e) (get_event c e),
  ),
  let same = (reports_covered a a da).1 (λ e. later_idem (get_event a e)) in
      rw (clone_lem a da) (ground (arith, unreported a a same, same)),
)
