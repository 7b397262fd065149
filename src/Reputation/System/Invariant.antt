-- ===== src/Reputation/System/Invariant.antt =====
-- A rule for invariants of every node's record, and the range of the scores
-- (src/reputation/score.go).
use web5_mesh.Base.{
  ◌≤◌, ◌<◌, true, ℕ, ◌≡◌, Bool, false, some, List, [], ◌∷◌, map, arith, ltb, length, All,
  Option-cases, List-cases, inl, inr, Bool-cases,
}
use web5_mesh.Base.Int.{ℤ}
use web5_mesh.Base.Classes.{Text, Text_eq, text_eq}
use web5_mesh.Base.Map.{lookup, insert}
use web5_mesh.Reputation.Node
use web5_mesh.Reputation.Node.{NodeReputation, zero_value}
use web5_mesh.Reputation.Node.Laws.{InRange}
use web5_mesh.Reputation.System.{
  Floats, System, channel_capacity, update_stats, put, register_node, fresh_node, banned_node,
  updated, decay_write, decayed, apply_update, update_score, penalize, record_success,
  record_failure, record_relay, blacklist_node, apply_decay,
}
use web5_mesh.Reputation.System.Steps.{NodeCall, succeeds, Call, process_update, step, node_steps}

-- Every record of the map satisfies the predicate.
abbrev pub AllNodes : (NodeReputation → Type 0) → List (Text × NodeReputation) → Type 0
AllNodes P m = All (λ e. P e.1) m

module _ (P : NodeReputation → Type 0) where
  pub AllNodes-insert :
      (id : Text) (rep : NodeReputation) (m : List (Text × NodeReputation))
      → P rep
      → AllNodes P m
      → AllNodes P (insert id rep m)
  unfolding insert
  AllNodes-insert id rep [] p h = (p, tt)
  AllNodes-insert id rep ((j, r) ∷ m) p h = elim (Bool-cases (text_eq j id)) [
    | inl e ↦ rw e (p, h.1)
    | inr e ↦ rw e (h.0, AllNodes-insert id rep m p h.1)
  ]

  pub AllNodes-lookup :
      (id : Text) (m : List (Text × NodeReputation)) (rep : NodeReputation)
      → lookup id m ≡ some rep
      → AllNodes P m
      → P rep
  unfolding lookup
  AllNodes-lookup id [] rep e h = cc
  AllNodes-lookup id ((j, r) ∷ m) rep e h = elim (Bool-cases (text_eq j id)) [
    | inl t ↦ let same : r ≡ rep = ground arith in rw (← same) h.0
    | inr t ↦ AllNodes-lookup id m rep (ground arith) h.1
  ]

-- The constants that the constructor sets, and the predicate on every node.
pub record Holds {F : Type 0} (P : NodeReputation → Type 0) (rs : System F) : Type 0 where
  pub base : rs.base_score ≡ 100
  pub least : rs.min_score ≡ 1
  pub nodes : AllNodes P rs.reputations

module _ (fl : Floats) (P : NodeReputation → Type 0) where
  open fl use {F}

  -- Every way in which the system makes or changes a record keeps the predicate.
  pub record IsClosed : Type 0 where
    pub fresh :
        (now : ℕ) (rs : System F) (id did : Text)
        → rs.base_score ≡ 100
        → P (fresh_node fl now rs id did)
    pub banned_fresh : (id reason : Text) → P (banned_node id reason)
    pub banned : (rep : NodeReputation) (reason : Text) → P rep → P (Node.blacklist rep reason)
    pub moved :
        (now : ℕ) (rep : NodeReputation) (delta : ℤ) (is_penalty : Bool)
        → P rep
        → P (updated fl now rep delta is_penalty)
    pub decay :
        (now : ℕ) (rs : System F) (rep : NodeReputation)
        → rs.min_score ≡ 1
        → P rep
        → P (decayed fl now rs rep)

  put-Holds :
      (rs : System F) (id : Text) (rep : NodeReputation)
      → Holds P rs
      → P rep
      → Holds P (update_stats fl (put fl rs id rep))
  unfolding update_stats put
  put-Holds rs id rep h p = record {
    base = h.base;
    least = h.least;
    nodes = AllNodes-insert P id rep _ p h.nodes;
  }

  module _ (c : IsClosed) where
    apply_update-Holds :
        (now : ℕ) (rs : System F) (id : Text) (delta : ℤ) (is_penalty : Bool)
        → Holds P rs
        → Holds P (apply_update fl now rs id delta is_penalty)
    unfolding apply_update
    apply_update-Holds now rs id delta pen h = elim (Option-cases (lookup id rs.reputations)) [
      | inl e ↦
          rw (e, apply_update)
            (put-Holds rs id _ h (c.moved now _ delta pen (c.fresh now rs id [] h.base)))
      | inr (rep, e) ↦
          rw (e, apply_update)
            (put-Holds rs id _ h (c.moved now rep delta pen (AllNodes-lookup P id _ rep e h.nodes)))
    ]

    update_score-Holds :
        (now : ℕ) (rs : System F) (id : Text) (delta : ℤ) (reason : Text)
        → Holds P rs
        → Holds P (update_score fl now rs id delta reason)
    unfolding update_score
    update_score-Holds now rs id delta reason h =
        elim (Bool-cases (ltb (length rs.update_ch) channel_capacity)) [
          | inl e ↦ rw e (record { base = h.base; least = h.least; nodes = h.nodes })
          | inr e ↦ rw e (apply_update-Holds now rs id delta false h)
        ]

    register_node-Holds :
        (now : ℕ) (rs : System F) (id did : Text)
        → Holds P rs
        → Holds P (register_node fl now rs id did).0
    unfolding register_node
    register_node-Holds now rs id did h = elim (Option-cases (lookup id rs.reputations)) [
      | inl e ↦ rw (e, register_node) (put-Holds rs id _ h (c.fresh now rs id did h.base))
      | inr (rep, e) ↦ rw (e, register_node) h
    ]

    blacklist_node-Holds :
        (rs : System F) (id reason : Text) → Holds P rs → Holds P (blacklist_node fl rs id reason)
    unfolding blacklist_node
    blacklist_node-Holds rs id reason h = elim (Option-cases (lookup id rs.reputations)) [
      | inl e ↦ rw (e, blacklist_node) (put-Holds rs id _ h (c.banned_fresh id reason))
      | inr (rep, e) ↦
          rw (e, blacklist_node)
            (put-Holds rs id _ h (c.banned rep reason (AllNodes-lookup P id _ rep e h.nodes)))
    ]

    decay_all :
        (now : ℕ) (rs : System F) (m : List (Text × NodeReputation))
        → rs.min_score ≡ 1
        → AllNodes P m
        → AllNodes P (map (λ (id, rep). (id, decayed fl now rs rep)) m)
    decay_all now rs [] least h = tt
    decay_all now rs ((id, rep) ∷ m) least h =
        (c.decay now rs rep least h.0, decay_all now rs m least h.1)

    process-Holds : (now : ℕ) (rs : System F) → Holds P rs → Holds P (process_update fl now rs)
    unfolding process_update
    process-Holds now rs h = elim (List-cases rs.update_ch) [
      | inl e ↦ rw (e, process_update) h
      | inr (u, rest, e) ↦
          rw (e, process_update)
            (apply_update-Holds now (record rs { update_ch = rest }) u.node_id u.delta u.is_penalty
              (record { base = h.base; least = h.least; nodes = h.nodes }))
    ]

    pub step-Holds : (rs : System F) (s : Call) → Holds P rs → Holds P (step fl rs s)
    unfolding step penalize record_success record_failure record_relay apply_decay update_stats
        process_update
    step-Holds rs (Call.registers now id did) h = register_node-Holds now rs id did h
    step-Holds rs (Call.updates now id delta reason) h = update_score-Holds now rs id delta reason h
    step-Holds rs (Call.penalizes now id reason points) h = update_score-Holds now rs id _ reason h
    step-Holds rs (Call.succeeds now id) h = update_score-Holds now rs id _ _ h
    step-Holds rs (Call.failures now id) h = update_score-Holds now rs id _ _ h
    step-Holds rs (Call.relayed now id) h = update_score-Holds now rs id _ _ h
    step-Holds rs (Call.blacklists id reason) h = blacklist_node-Holds rs id reason h
    step-Holds rs (Call.processes now) h = process-Holds now rs h
    step-Holds rs (Call.decays now) h = record {
      base = h.base;
      least = h.least;
      nodes = decay_all now rs rs.reputations h.least h.nodes;
    }

-- The scores and constants of a system that is as its methods leave it.
abbrev pub InScale : NodeReputation → Type 0
InScale rep = InRange rep.score

module _ (fl : Floats) where
  open fl use {F}

  -- A turn of applyDecay that penalties interrupt, and that then takes off more than is left, leaves
  -- more than 1000 points.
  pub decay_write-node_steps :
      (rs : System F) (rep : NodeReputation) (cs : List NodeCall) (decay : ℕ)
      → decay ≤ 1000
      → (node_steps rep cs).score < decay
      → 1000 < (decay_write fl rs (decay, true) (node_steps rep cs)).score
  unfolding decay_write
  decay_write-node_steps rs rep cs decay h l = ground arith
