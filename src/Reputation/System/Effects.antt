-- ===== src/Reputation/System/Effects.antt =====
-- Proofs about updates, penalties and decay of single nodes (src/reputation/score.go).
use web5_mesh.Base.{
  ℕ, ◌+◌, ◌-◌, ◌^◌, ◌≡◌, ◌≢◌, ◌≤◌, ◌<◌, refl, Bool, true, false, not, ◌&&◌, none, some, [], arith,
  ltb, if◌then◌else◌, Option-cases, inl, inr, max, min,
}
use web5_mesh.Base.Int.{ℤ, neg_i64, to_i64}
use web5_mesh.Base.Classes.{Text, Text_eq, text_eq, text_eq_iff}
use web5_mesh.Base.Map.{lookup, lookup-insert}
use web5_mesh.Reputation.Node
use web5_mesh.Reputation.Node.{NodeReputation, zero_value}
use web5_mesh.Reputation.Node.Laws.{
  InRange, update_score_moves, update_score_down, negated_points, wrapped_points,
}
use web5_mesh.Reputation.System.{
  Floats, System, update_stats, put, fresh_node, updated, decay_of, decay_write, decayed,
  apply_update, update_score, penalize, get_score,
}
use web5_mesh.Reputation.System.Steps.{process_update}

module _ (fl : Floats) where
  open fl use {F, of_u64, to_u64, times, over, is_positive, hours_since, hours_per_day}

  -- The record that applyUpdate starts from.
  pub known_or_fresh : ℕ → System F → Text → NodeReputation
  known_or_fresh now rs id = elim (lookup id rs.reputations) [
    | some rep ↦ rep
    | none ↦ fresh_node fl now rs id []
  ]

  pub lookup-put :
      (rs : System F) (id other : Text) (rep : NodeReputation)
      → lookup other (update_stats fl (put fl rs id rep)).reputations
        ≡ (if text_eq id other then some rep else lookup other rs.reputations)
  unfolding update_stats put
  lookup-put rs id other rep = lookup-insert id other rep rs.reputations

  lookup-apply_update :
      (now : ℕ) (rs : System F) (id other : Text) (delta : ℤ) (is_penalty : Bool)
      → lookup other (apply_update fl now rs id delta is_penalty).reputations ≡ (
          if text_eq id other
          then some (updated fl now (known_or_fresh now rs id) delta is_penalty)
          else lookup other rs.reputations)
  unfolding apply_update known_or_fresh
  lookup-apply_update now rs id other delta pen = elim (Option-cases (lookup id rs.reputations)) [
    | inl e ↦ rw (e, apply_update, known_or_fresh) (lookup-put rs id other _)
    | inr (rep, e) ↦ rw (e, apply_update, known_or_fresh) (lookup-put rs id other _)
  ]

  -- An applied update moves the score of the node as UpdateScore does, from the known record or a
  -- fresh one, makes it active exactly if more than 100 points are left and it is not blacklisted,
  -- and changes no other node.
  pub apply_update_effect :
      (now : ℕ) (rs : System F) (id other : Text) (delta : ℤ) (is_penalty : Bool)
      → other ≢ id
      → let after = (apply_update fl now rs id delta is_penalty).reputations in
        let before = known_or_fresh now rs id in
        ((rep : NodeReputation) × (lookup id after ≡ some rep)
          × (rep.score ≡ (Node.update_score before delta).score)
          × (rep.is_blacklisted ≡ before.is_blacklisted)
          × (rep.is_active ≡ (ltb 100 rep.score && not rep.is_blacklisted)))
        × (lookup other after ≡ lookup other rs.reputations)
  unfolding updated Node.update_score
  apply_update_effect now rs id other delta pen n = (
    (
      updated fl now (known_or_fresh now rs id) delta pen,
      ground (arith, lookup-apply_update now rs id id delta pen, text_eq_iff id id),
      ground arith,
      ground arith,
      refl,
    ),
    ground (arith, lookup-apply_update now rs id other delta pen, text_eq_iff id other),
  )

  penalize_processed :
      (now later : ℕ) (rs : System F) (id reason : Text) (points : ℕ)
      → rs.update_ch ≡ []
      → process_update fl later (penalize fl now rs id reason points)
        ≡ apply_update fl later (record rs { update_ch = [] }) id (neg_i64 (to_i64 points)) false
  unfolding penalize update_score process_update
  penalize_processed now later rs id reason points e = rw e

  known :
      (now : ℕ) (rs : System F) (id : Text) (rep : NodeReputation)
      → lookup id rs.reputations ≡ some rep
      → known_or_fresh now rs id ≡ rep
  unfolding known_or_fresh
  known now rs id rep e = rw (e, known_or_fresh)

  score-updated :
      (now : ℕ) (rs : System F) (id : Text) (delta : ℤ) (rep : NodeReputation)
      → lookup id rs.reputations ≡ some rep
      → get_score fl (apply_update fl now rs id delta false) id
        ≡ (Node.update_score rep delta).score
  unfolding get_score updated Node.get_score
  score-updated now rs id delta rep e = ground (
    arith,
    lookup-apply_update now rs id id delta false,
    text_eq_iff id id,
    known now rs id rep e,
  )

  score-penalized :
      (now later : ℕ) (rs : System F) (id reason : Text) (points : ℕ) (rep : NodeReputation)
      → lookup id rs.reputations ≡ some rep
      → rs.update_ch ≡ []
      → get_score fl (process_update fl later (penalize fl now rs id reason points)) id
        ≡ (Node.update_score rep (neg_i64 (to_i64 points))).score
  score-penalized now later rs id reason points rep e empty =
      rw (penalize_processed now later rs id reason points empty)
        (score-updated later (record rs { update_ch = [] }) id _ rep e)

  -- With a known node of at most 1000 points and an empty channel, Penalize and the turn of
  -- processUpdates that follows take fewer than 2^63 points off the score, down to 1.
  pub penalize_takes :
      (now later : ℕ) (rs : System F) (id reason : Text) (points : ℕ) (rep : NodeReputation)
      → lookup id rs.reputations ≡ some rep
      → rep.score ≤ 1000
      → rs.update_ch ≡ []
      → points < 2 ^ 63
      → get_score fl (process_update fl later (penalize fl now rs id reason points)) id
        ≡ max 1 (rep.score - points)
  penalize_takes now later rs id reason points rep e h empty small =
      rw (score-penalized now later rs id reason points rep e empty, negated_points points small)
        (ground (arith, update_score_moves rep 0 h, update_score_down rep (points - 1) h))

  -- With a known node of at most 1000 points and an empty channel, a penalty of more than 2^63 +
  -- 1000 and less than 2^64 points adds 2^64 minus the points to the score, up to 1000.
  pub penalize_wraps :
      (now later : ℕ) (rs : System F) (id reason : Text) (points : ℕ) (rep : NodeReputation)
      → lookup id rs.reputations ≡ some rep
      → rep.score ≤ 1000
      → rs.update_ch ≡ []
      → 2 ^ 63 + 1000 < points
      → points < 2 ^ 64
      → get_score fl (process_update fl later (penalize fl now rs id reason points)) id
        ≡ max 1 (min 1000 (rep.score + (2 ^ 64 - points)))
  penalize_wraps now later rs id reason points rep e h empty big k =
      rw
        (
          score-penalized now later rs id reason points rep e empty,
          wrapped_points points (omega arith) k,
        )
        (update_score_moves rep (2 ^ 64 - points) h (omega arith)).0

  -- Decay never raises a score that lies on the scale, never takes it below 1, and never touches
  -- the blacklist.
  pub decayed_bounds :
      (now : ℕ) (rs : System F) (rep : NodeReputation)
      → rs.min_score ≡ 1
      → InRange rep.score
      → let r = decayed fl now rs rep in
        InRange r.score × (r.score ≤ rep.score) × (r.is_blacklisted ≡ rep.is_blacklisted)
  unfolding decayed decay_of decay_write
  decayed_bounds now rs rep least h = (ground arith, ground arith, ground arith)

  -- A blacklisted node that still has more than 100 points after a decay is marked active again.
  pub decay_reactivates :
      (now : ℕ) (rs : System F) (rep : NodeReputation)
      → let days = over (hours_since now rep.last_seen) hours_per_day in
        let decay = to_u64 (times (times (of_u64 rep.score) rs.decay_rate) days) in
        is_positive days ≡ true
        → 0 < decay
        → decay + 100 < rep.score
        → rep.is_blacklisted ≡ true
        → let r = decayed fl now rs rep in
          (r.is_active ≡ true) × (r.is_blacklisted ≡ true) × (r.score ≡ rep.score - decay)
  unfolding decayed decay_of decay_write
  decay_reactivates now rs rep p d l b = (ground arith, ground arith, ground arith)
