-- ===== src/Reputation/System/Relays.antt =====
-- Proofs about GetTopRelays (src/reputation/score.go).
use web5_mesh.Base.{
  any, take, IsSorted, IsSorted-map, take_clipped, Perm, ℕ, ◌≡◌, ◌≤◌, ◌<◌, refl, ap, ◌∙◌, Bool,
  false, Option, ◌&&◌, none, some, List, [], ◌∷◌, map, arith, ltb, leb, if◌then◌else◌, All, inl,
  inr, Bool-cases,
}
use web5_mesh.Base.Int.{pos}
use web5_mesh.Base.Classes.{Text, Text_eq, text_eq, text_eq_iff}
use web5_mesh.Base.Map.{lookup}
use web5_mesh.Reputation.Node
use web5_mesh.Reputation.Node.{NodeReputation, zero_value}
use web5_mesh.Reputation.System.{
  Floats, System, new, fresh_node, banned_node, updated, decay_of, decay_write, decayed,
  get_top_relays, relays as relay_list,
}
use web5_mesh.Reputation.System.Steps.{Call, run, step}
use web5_mesh.Base.ExchangeSort
use web5_mesh.Base.Map.{Distinct}
use web5_mesh.Reputation.System.Invariant.{AllNodes, Holds, IsClosed, step-Holds}

-- The pair is a node of the map with relayed packets and at least 500 points.
abbrev pub IsRelay : List (Text × NodeReputation) → Text × ℕ → Type 0
IsRelay m r =
    (rep : NodeReputation) × (lookup r.0 m ≡ some rep)
    × (r.1 ≡ rep.score)
    × (0 < rep.relay_count)
    × (500 ≤ rep.score)

relays-IsRelay :
    (id : Text) (rep : NodeReputation) (m : List (Text × NodeReputation)) (rs : List (Text × ℕ))
    → lookup id m ≡ none
    → All (IsRelay m) rs
    → All (IsRelay ((id, rep) ∷ m)) rs
unfolding lookup
relays-IsRelay id rep m [] n h = tt
relays-IsRelay id rep m ((j, s) ∷ rs) n ((r, found, same, relayed, high), rest) =
    ((r, ground (arith, text_eq_iff id j), same, relayed, high), relays-IsRelay id rep m rs n rest)

relays_sound : (m : List (Text × NodeReputation)) → Distinct m → All (IsRelay m) (relay_list m)
unfolding relay_list lookup
relays_sound [] d = tt
relays_sound ((id, rep) ∷ m) d =
    let rest = relays-IsRelay id rep m (relay_list m) d.0 (relays_sound m d.1) in
    elim (Bool-cases (ltb 0 rep.relay_count && leb 500 rep.score)) [
      | inl e ↦
          rw e ((rep, ground (arith, text_eq_iff id id), refl, ground arith, ground arith), rest)
      | inr e ↦ rw e rest
    ]

-- The map has a node with relayed packets and at least 500 points here.
abbrev pub is_relay : Option NodeReputation → Bool
is_relay none = false
is_relay (some rep) = ltb 0 rep.relay_count && leb 500 rep.score

-- The relays of the map are the candidates.
relays_exact :
    (id : Text) (m : List (Text × NodeReputation))
    → Distinct m
    → any (λ (r : Text × ℕ). text_eq id r.0) (relay_list m) ≡ is_relay (lookup id m)
unfolding relay_list lookup
relays_exact id [] d = refl
relays_exact id ((j, rep) ∷ m) d =
    let rest = relays_exact id m d.1 in
    elim (Bool-cases (text_eq j id)) [
      | inl e ↦
          let same : j ≡ id = (text_eq_iff j id).0 e in
          let gone : lookup id m ≡ none = rw same at d.0 in
          let absent : any (λ (r : Text × ℕ). text_eq id r.0) (relay_list m) ≡ false =
            rest ∙ rw gone refl in
          rw e (ground (arith, text_eq_iff id j, text_eq_iff j id, absent))
      | inr e ↦ rw e (ground (arith, text_eq_iff id j, text_eq_iff j id, rest))
    ]

take_nothing :
    (limit : ℕ)
    → some (map (λ (r : Text × ℕ). r.0) (take (if ltb 0 limit then 0 else limit) [])) ≡ some []
take_nothing limit = ground arith

abbrev pub by_score : Text × ℕ → Text × ℕ → Bool
by_score a b = ltb a.1 b.1

module _ (fl : Floats) where
  open fl use {F}

  -- In a system without double entries, GetTopRelays with a limit that is not negative returns the
  -- ids at the head of a ranking, by descending score, of exactly the nodes with relayed packets
  -- and at least 500 points.
  pub get_top_relays_ranks :
      (rs : System F) (limit : ℕ)
      → Distinct rs.reputations
      → (ranking : List (Text × ℕ)) × (get_top_relays fl rs (pos limit)
          ≡ some (map (λ r. r.0) (take limit ranking)))
        × Perm ranking (relay_list rs.reputations)
        × ((id : Text)
            → any (λ (r : Text × ℕ). text_eq id r.0) ranking ≡ is_relay (lookup id rs.reputations))
        × All (IsRelay rs.reputations) ranking
        × IsSorted (λ a b. b.1 ≤ a.1) ranking
  unfolding get_top_relays
  get_top_relays_ranks rs limit d =
      let ranking = ExchangeSort.sort by_score (relay_list rs.reputations) in
      (
        ranking,
        ap (λ l. some (map (λ r. r.0) l)) (take_clipped limit ranking),
        ExchangeSort.sort-perm by_score (relay_list rs.reputations),
        λ id.
            ExchangeSort.sort-any by_score (λ (r : Text × ℕ). text_eq id r.0)
              (relay_list rs.reputations)
            ∙ relays_exact id rs.reputations d,
        ExchangeSort.sort-All by_score (IsRelay rs.reputations) _ (relays_sound rs.reputations d),
        IsSorted-map _ (λ a b. b.1 ≤ a.1) ranking (λ a b h. ground arith)
            (ExchangeSort.sort-IsSorted by_score (λ a b h. ground arith) (λ a b c h k. ground arith)
              (relay_list rs.reputations)),
      )

  HasNoRelays : NodeReputation → Type 0
  HasNoRelays rep = rep.relay_count ≡ 0

  HasNoRelays-IsClosed : IsClosed fl HasNoRelays
  unfolding HasNoRelays updated decay_of decay_write decayed fresh_node banned_node Node.blacklist
      Node.update_score
  HasNoRelays-IsClosed = record {
    fresh = λ now rs id did h. refl;
    banned_fresh = λ id reason. refl;
    banned = λ rep reason h. h;
    moved = λ now rep delta is_penalty h. ground arith;
    decay = λ now rs rep least h. ground arith;
  }

  run-HasNoRelays :
      (rs : System F) (cs : List Call) → Holds HasNoRelays rs → Holds HasNoRelays (run fl rs cs)
  unfolding run
  run-HasNoRelays rs [] h = h
  run-HasNoRelays rs (c ∷ cs) h =
      run-HasNoRelays (step fl rs c) cs (step-Holds fl HasNoRelays HasNoRelays-IsClosed rs c h)

  relay_list_empty : (m : List (Text × NodeReputation)) → AllNodes HasNoRelays m → relay_list m ≡ []
  unfolding relay_list HasNoRelays
  relay_list_empty [] h = refl
  relay_list_empty ((id, rep) ∷ m) h = ground (arith, relay_list_empty m h.1)

  -- RecordRelay of the system rewards a node but does not count the relay, and no other of its
  -- calls does: after any calls on a new system GetTopRelays has nothing to return.
  pub get_top_relays-run :
      (cs : List Call) (limit : ℕ) → get_top_relays fl (run fl (new fl) cs) (pos limit) ≡ some []
  unfolding get_top_relays ExchangeSort.sort
  get_top_relays-run cs limit =
      let h =
        run-HasNoRelays (new fl) cs
          (unfold new in record { base = refl; least = refl; nodes = tt }) in
      rw (relay_list_empty (run fl (new fl) cs).reputations h.nodes) (take_nothing limit)
