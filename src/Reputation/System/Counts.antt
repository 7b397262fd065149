-- ===== src/Reputation/System/Counts.antt =====
-- Proofs about the counters of updateStatsLocked (src/reputation/score.go).
use web5_mesh.Base.{
  ℕ, ◌+◌, ◌^◌, ◌≡◌, ◌<◌, Bool, false, List, [], ◌∷◌, map, arith, ltb, if◌then◌else◌, u64, length,
  Option-cases, List-cases, inl, inr, Bool-cases,
}
use web5_mesh.Base.Int.{ℤ}
use web5_mesh.Base.Classes.{Text, Text_eq}
use web5_mesh.Base.Map.{lookup}
use web5_mesh.Reputation.Node
use web5_mesh.Reputation.Node.{NodeReputation, zero_value}
use web5_mesh.Reputation.System.{
  Floats, Stats, System, channel_capacity, update_stats, put, register_node, fresh_node,
  banned_node, updated, decayed, apply_update, update_score, penalize, record_success,
  record_failure, record_relay, blacklist_node, apply_decay, count_nodes,
}
use web5_mesh.Reputation.System.Steps.{Call, process_update, step}

unfoldable pub count : (NodeReputation → Bool) → List (Text × NodeReputation) → ℕ
count p [] = 0
count p ((id, rep) ∷ m) = if p rep then count p m + 1 else count p m

-- The counters (uint64) are those of the map.
pub record IsCounted {F : Type 0} (rs : System F) : Type 0 where
  pub total : rs.stats.total_nodes ≡ u64 (length rs.reputations)
  pub active : rs.stats.active_nodes ≡ u64 (count (λ rep. rep.is_active) rs.reputations)
  pub banned : rs.stats.blacklisted_nodes ≡ u64 (count (λ rep. rep.is_blacklisted) rs.reputations)

module _ (fl : Floats) where
  open fl use {F}

  record Adds (m : List (Text × NodeReputation)) (a b : Stats F) : Type 0 where
    total : b.total_nodes ≡ u64 (a.total_nodes + length m)
    active : b.active_nodes ≡ u64 (a.active_nodes + count (λ rep. rep.is_active) m)
    banned : b.blacklisted_nodes ≡ u64 (a.blacklisted_nodes + count (λ rep. rep.is_blacklisted) m)

  IsWord : Stats F → Type 0
  IsWord a = (a.total_nodes < 2 ^ 64) × (a.active_nodes < 2 ^ 64) × (a.blacklisted_nodes < 2 ^ 64)

  count_nodes-Adds :
      (m : List (Text × NodeReputation)) (a : Stats F) (total : ℕ)
      → IsWord a
      → Adds m a (count_nodes fl m (a, total)).0
  unfolding count_nodes count IsWord
  count_nodes-Adds [] a total w = record {
    total = omega arith;
    active = omega arith;
    banned = omega arith;
  }
  count_nodes-Adds ((id, rep) ∷ m) a total w =
      let next = record a {
        total_nodes = u64 (a.total_nodes + 1);
        active_nodes = if rep.is_active then u64 (a.active_nodes + 1) else a.active_nodes;
        blacklisted_nodes =
            if rep.is_blacklisted then u64 (a.blacklisted_nodes + 1) else a.blacklisted_nodes;
      } in
      let word : IsWord next = (ground arith, ground arith, ground arith) in
      let ih = count_nodes-Adds m next (u64 (total + rep.score)) word in
      record {
        total = ground (arith, ih.total);
        active = ground (arith, ih.active);
        banned = ground (arith, ih.banned);
      }

  update_stats-IsCounted : (rs : System F) → IsCounted (update_stats fl rs)
  unfolding update_stats IsWord
  update_stats-IsCounted rs =
      let old = rs.stats in
      let zeroed = record old { total_nodes = 0; active_nodes = 0; blacklisted_nodes = 0 } in
      let a = count_nodes-Adds rs.reputations zeroed 0 (omega arith, omega arith, omega arith) in
      record {
        total = ground (arith, a.total);
        active = ground (arith, a.active);
        banned = ground (arith, a.banned);
      }

  apply_update-IsCounted :
      (now : ℕ) (rs : System F) (id : Text) (delta : ℤ) (is_penalty : Bool)
      → IsCounted (apply_update fl now rs id delta is_penalty)
  unfolding apply_update
  apply_update-IsCounted now rs id delta pen = elim (Option-cases (lookup id rs.reputations)) [
    | inl e ↦
        rw (e, apply_update)
          (update_stats-IsCounted
            (put fl rs id (updated fl now (fresh_node fl now rs id []) delta pen)))
    | inr (rep, e) ↦
        rw (e, apply_update) (update_stats-IsCounted (put fl rs id (updated fl now rep delta pen)))
  ]

  queued-IsCounted :
      (now : ℕ) (rs : System F) (id : Text) (delta : ℤ) (reason : Text)
      → IsCounted rs
      → IsCounted (update_score fl now rs id delta reason)
  unfolding update_score
  queued-IsCounted now rs id delta reason h =
      elim (Bool-cases (ltb (length rs.update_ch) channel_capacity)) [
        | inl e ↦ rw e (record { total = h.total; active = h.active; banned = h.banned })
        | inr e ↦ rw e (apply_update-IsCounted now rs id delta false)
      ]

  register-IsCounted :
      (now : ℕ) (rs : System F) (id did : Text)
      → IsCounted rs
      → IsCounted (register_node fl now rs id did).0
  unfolding register_node
  register-IsCounted now rs id did h = elim (Option-cases (lookup id rs.reputations)) [
    | inl e ↦
        rw (e, register_node) (update_stats-IsCounted (put fl rs id (fresh_node fl now rs id did)))
    | inr (rep, e) ↦ rw (e, register_node) h
  ]

  blacklist-IsCounted :
      (rs : System F) (id reason : Text) → IsCounted (blacklist_node fl rs id reason)
  unfolding blacklist_node
  blacklist-IsCounted rs id reason = elim (Option-cases (lookup id rs.reputations)) [
    | inl e ↦ rw (e, blacklist_node) (update_stats-IsCounted (put fl rs id (banned_node id reason)))
    | inr (rep, e) ↦
        rw (e, blacklist_node) (update_stats-IsCounted (put fl rs id (Node.blacklist rep reason)))
  ]

  process-IsCounted :
      (now : ℕ) (rs : System F) → IsCounted rs → IsCounted (process_update fl now rs)
  unfolding process_update
  process-IsCounted now rs h = elim (List-cases rs.update_ch) [
    | inl e ↦ rw (e, process_update) h
    | inr (u, rest, e) ↦
        rw (e, process_update)
          (apply_update-IsCounted now (record rs { update_ch = rest }) u.node_id u.delta
            u.is_penalty)
  ]

  -- Every call and goroutine turn leaves the counters of total, active and blacklisted nodes equal
  -- to those of the map (mod 2^64), if they were so before.
  pub step-IsCounted : (rs : System F) (c : Call) → IsCounted rs → IsCounted (step fl rs c)
  unfolding step penalize record_success record_failure record_relay apply_decay
  step-IsCounted rs (Call.registers now id did) h = register-IsCounted now rs id did h
  step-IsCounted rs (Call.updates now id delta reason) h = queued-IsCounted now rs id delta reason h
  step-IsCounted rs (Call.penalizes now id reason points) h = queued-IsCounted now rs id _ reason h
  step-IsCounted rs (Call.succeeds now id) h = queued-IsCounted now rs id _ _ h
  step-IsCounted rs (Call.failures now id) h = queued-IsCounted now rs id _ _ h
  step-IsCounted rs (Call.relayed now id) h = queued-IsCounted now rs id _ _ h
  step-IsCounted rs (Call.blacklists id reason) h = blacklist-IsCounted rs id reason
  step-IsCounted rs (Call.processes now) h = process-IsCounted now rs h
  step-IsCounted rs (Call.decays now) h =
      update_stats-IsCounted
        (record rs { reputations = map (λ (id, rep). (id, decayed fl now rs rep)) rs.reputations })
