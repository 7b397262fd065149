-- ===== src/Storage/Value/Laws.antt =====
-- Proofs about CRDTValue (src/storage/crdt.go): replicas that merge with one another.
use mathlib.Core.List.{Permᴰ}
use mathlib.Core.Logic.{∥∥₁_elim}
use web5_mesh.Base.{
  none, ℕ, ◌+◌, ◌^◌, ◌≤◌, ◌<◌, ◌≡◌, refl, sym, ◌∙◌, ap, false, List, [], ◌∷◌, foldl, map, Perm,
  arith, some,
}
use web5_mesh.Base.Classes.{Text, Text_eq}
use web5_mesh.Base.Map.{insert_all-Distinct}
use web5_mesh.Storage.VectorClock
use web5_mesh.Storage.VectorClock.{EventId_eq, add_event-Distinct}
use web5_mesh.Storage.VectorClock.Merge.{later, get_event-merge, merge-Distinct}
use web5_mesh.Storage.Value.{Value, IsWellFormed, new, update, merge}
use web5_mesh.Storage.Value.Rank.{
  Rank, loses, winner, winner_comm, winner_assoc, winner_upper, rank, rank-merge, content-merge,
  loses_asymm, loses_total,
}

foldl-winner :
    (a b : Rank) (l : List Rank) → foldl winner (winner a b) l ≡ winner a (foldl winner b l)
foldl-winner a b [] = refl
foldl-winner a b (c ∷ l) =
    ap (λ r. foldl winner r l) (winner_assoc a b c) ∙ foldl-winner a (winner b c) l

foldl-winner_swap :
    (a b c : Rank) (l : List Rank)
    → foldl winner (winner (winner a b) c) l ≡ foldl winner (winner (winner a c) b) l
foldl-winner_swap a b c l =
    ap (λ r. foldl winner r l)
      (winner_assoc a b c ∙ ap (winner a) (winner_comm b c) ∙ sym (winner_assoc a c b))

Rank-set : IsSet Rank
Rank-set = hlevel

module _ (sha256 : Text → Text) where
  -- A replica that merges the values of a list one after the other.
  pub merge_all : Value → List Value → Value
  merge_all c [] = c
  merge_all c (other ∷ others) = merge_all (merge sha256 c (some other)).0 others

  rank-merge_all :
      (c : Value) (others : List Value)
      → rank sha256 (merge_all c others) ≡ foldl winner (rank sha256 c) (map (rank sha256) others)
  unfolding merge_all
  rank-merge_all c [] = refl
  rank-merge_all c (other ∷ others) =
      rank-merge_all (merge sha256 c (some other)).0 others
      ∙ ap (λ r. foldl winner r (map (rank sha256) others)) (rank-merge sha256 c other)

  foldl-permᴰ :
      {xs ys : List Value} (a : Rank)
      → Permᴰ xs ys
      → foldl winner a (map (rank sha256) xs) ≡ foldl winner a (map (rank sha256) ys)
  foldl-permᴰ a Permᴰ.nil = refl
  foldl-permᴰ a (Permᴰ.cons {b = y} {l₁ = l} e p) =
      ap (λ x. foldl winner (winner a (rank sha256 x)) (map (rank sha256) l)) e
      ∙ foldl-permᴰ (winner a (rank sha256 y)) p
  foldl-permᴰ a (Permᴰ.swap {a = x} {b = y} {l = l} e f) =
      rw (← e, ← f) (foldl-winner_swap a (rank sha256 x) (rank sha256 y) (map (rank sha256) l))
  foldl-permᴰ a (Permᴰ.trans p q) = foldl-permᴰ a p ∙ foldl-permᴰ a q

  -- Merging the same values into a replica in another order gives the same version, timestamp and
  -- data hash.
  pub merge_all-perm :
      (c : Value) (xs ys : List Value)
      → Perm xs ys
      → rank sha256 (merge_all c xs) ≡ rank sha256 (merge_all c ys)
  merge_all-perm c xs ys p =
      rank-merge_all c xs
      ∙ ∥∥₁_elim p (Rank-set _ _) (foldl-permᴰ (rank sha256 c))
      ∙ sym (rank-merge_all c ys)

  content-converges :
      (a b : Value)
      → (sha256 a.content ≡ sha256 b.content → a.content ≡ b.content)
      → (merge sha256 a (some b)).0.content ≡ (merge sha256 b (some a)).0.content
  content-converges a b inj =
      let ra = rank sha256 a in
      let rb = rank sha256 b in
      rw (content-merge sha256 a b, content-merge sha256 b a)
        (ground (arith, loses_asymm ra rb, loses_asymm rb ra, loses_total ra rb))

  -- Two replicas that merge each other end with the same data, version and timestamp, if the hash
  -- tells their data apart.
  pub merge_converges :
      (a b : Value)
      → (sha256 a.content ≡ sha256 b.content → a.content ≡ b.content)
      → let ab = (merge sha256 a (some b)).0 in
        let ba = (merge sha256 b (some a)).0 in
        (ab.content ≡ ba.content) × (ab.version ≡ ba.version) × (ab.timestamp ≡ ba.timestamp)
  merge_converges a b inj =
      let same =
        rank-merge sha256 a b
        ∙ winner_comm (rank sha256 a) (rank sha256 b)
        ∙ sym (rank-merge sha256 b a) in
      (content-converges a b inj, ap (λ r. r.version) same, ap (λ r. r.timestamp) same)

  -- The result of Merge has at least the version of either value, and loses against neither.
  pub merge_upper_bound :
      (a b : Value)
      → let m = (merge sha256 a (some b)).0 in
        (loses (rank sha256 m) (rank sha256 a) ≡ false)
        × (loses (rank sha256 m) (rank sha256 b) ≡ false)
        × (a.version ≤ m.version)
        × (b.version ≤ m.version)
  merge_upper_bound a b =
      let (la, lb, va, vb) = winner_upper (rank sha256 a) (rank sha256 b) in
      let r = rank-merge sha256 a b in
      let v : (merge sha256 a (some b)).0.version
          ≡ (winner (rank sha256 a) (rank sha256 b)).version =
        ap (λ (q : Rank). q.version) r in
      (rw r la, rw r lb, rw v va, rw v vb)

  -- After an Update whose version does not wrap, the new value wins against the old one whichever
  -- merges the other, and has the next version.
  pub update_wins :
      (now : ℕ) (c : Value) (content source_node : Text)
      → c.version + 1 < 2 ^ 64
      → let u = update now c content source_node in
        (u.version ≡ c.version + 1)
        × ((merge sha256 c (some u)).0.content ≡ content)
        × ((merge sha256 u (some c)).0.content ≡ content)
  unfolding update loses
  update_wins now c content source_node h = (
    omega arith,
    ground (arith, content-merge sha256 c (update now c content source_node)),
    ground (arith, content-merge sha256 (update now c content source_node) c),
  )

  -- A value that does not lose keeps all its fields but the clock in a merge, and of each event
  -- the clock keeps the later record.
  pub merge_keeps_winner :
      (c other : Value) (e : VectorClock.EventId)
      → IsWellFormed other
      → loses (rank sha256 c) (rank sha256 other) ≡ false
      → let m = (merge sha256 c (some other)).0 in
        (m ≡ record c { vector_clock = m.vector_clock })
        × (VectorClock.get_event m.vector_clock e
            ≡ later
                (VectorClock.get_event c.vector_clock e)
                (VectorClock.get_event other.vector_clock e))
  unfolding merge loses
  merge_keeps_winner c other e w l =
      (ground arith, ground (arith, get_event-merge c.vector_clock other.vector_clock e w.events))

  -- A merge with a newer version takes over its clock instead of joining the two: an event that
  -- only the older replica had recorded is gone.
  pub merge_forgets_events :
      (c other : Value) (e : VectorClock.EventId)
      → IsWellFormed other
      → c.version < other.version
      → VectorClock.get_event other.vector_clock e ≡ none
      → VectorClock.get_event (merge sha256 c (some other)).0.vector_clock e ≡ none
  unfolding merge
  merge_forgets_events c other e w newer absent =
      ground (arith, VectorClock.clone_lem other.vector_clock w.events)

  -- Merge keeps the maps well formed.
  pub merge-IsWellFormed :
      (c other : Value)
      → IsWellFormed c
      → IsWellFormed other
      → IsWellFormed (merge sha256 c (some other)).0
  unfolding merge
  merge-IsWellFormed c other v w = ground (
    arith,
    VectorClock.clone_lem other.vector_clock w.events,
    insert_all-Distinct other.metadata c.metadata v.entries,
    merge-Distinct c.vector_clock other.vector_clock v.events,
  )

pub new-IsWellFormed : (now : ℕ) (content node : Text) → IsWellFormed (new now content node)
unfolding new
new-IsWellFormed now content node = record {
  events = add_event-Distinct VectorClock.new _ 1 tt;
  entries = tt;
}

pub update-IsWellFormed :
    (now : ℕ) (c : Value) (content node : Text)
    → IsWellFormed c
    → IsWellFormed (update now c content node)
unfolding update
update-IsWellFormed now c content node w = record {
  events = add_event-Distinct c.vector_clock _ _ w.events;
  entries = w.entries;
}
