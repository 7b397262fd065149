-- ===== src/Reputation/Node/Laws.antt =====
-- Bounds of a node's score (NodeReputation in src/reputation/score.go).
use web5_mesh.Base.{
  ℕ, ◌+◌, ◌-◌, ◌^◌, ◌≡◌, ◌≤◌, ◌<◌, refl, ◌∙◌, true, false, ◌&&◌, arith, leb, min, max,
}
use web5_mesh.Base.Int.{ℤ, pos, negsuc, sub_ℕ, add_i64, add_i64-eq, to_i64, to_u64, neg_i64, ◌+ℤ◌}
use web5_mesh.Base.Classes.{Text}
use web5_mesh.Reputation.Node.{NodeReputation, clamp_score, update_score, apply_penalty, blacklist}

-- The scale of the scores.
abbrev pub InRange : ℕ → Type 0
InRange score = (1 ≤ score) × (score ≤ 1000)

clamp_score-InRange : (s : ℤ) → InRange (to_u64 (clamp_score s))
unfolding clamp_score to_u64
clamp_score-InRange (pos n) = ground arith
clamp_score-InRange (negsuc n) = ground arith

clamp_score-pos : (n : ℕ) → to_u64 (clamp_score (pos n)) ≡ max 1 (min 1000 n)
unfolding clamp_score to_u64
clamp_score-pos n = ground arith

clamp_score-negsuc : (n : ℕ) → to_u64 (clamp_score (negsuc n)) ≡ 1
unfolding clamp_score to_u64
clamp_score-negsuc n = ground arith

-- Whatever the delta, also where the sum overflows int64, UpdateScore leaves a score on the
-- scale.
pub update_score-InRange : (nr : NodeReputation) (delta : ℤ) → InRange (update_score nr delta).score
unfolding update_score
update_score-InRange nr delta = clamp_score-InRange (add_i64 (to_i64 nr.score) delta)

score-to_i64 : (score : ℕ) → score ≤ 1000 → to_i64 score ≡ pos score
unfolding to_i64
score-to_i64 score h = ground arith

pos-+ℤ-pos : (s n : ℕ) → pos s +ℤ pos n ≡ pos (s + n)
unfolding ◌+ℤ◌
pos-+ℤ-pos s n = ground arith

pos-+ℤ-negsuc : (s n : ℕ) → pos s +ℤ negsuc n ≡ sub_ℕ s (n + 1)
unfolding ◌+ℤ◌
pos-+ℤ-negsuc s n = ground arith

add_reward :
    (score n : ℕ)
    → score ≤ 1000
    → n + 1000 < 2 ^ 63
    → add_i64 (to_i64 score) (pos n) ≡ pos (score + n)
add_reward score n h k =
    rw (score-to_i64 score h)
      (add_i64-eq (pos score) (pos n) (rw pos-+ℤ-pos (omega arith)) ∙ pos-+ℤ-pos score n)

add_fine :
    (score n : ℕ)
    → score ≤ 1000
    → n < 2 ^ 63
    → add_i64 (to_i64 score) (negsuc n) ≡ sub_ℕ score (n + 1)
add_fine score n h k =
    rw (score-to_i64 score h)
      (add_i64-eq (pos score) (negsuc n) (rw pos-+ℤ-negsuc (ground arith)) ∙ pos-+ℤ-negsuc score n)

pub update_score_down :
    (nr : NodeReputation) (n : ℕ)
    → nr.score ≤ 1000
    → n < 2 ^ 63
    → (update_score nr (negsuc n)).score ≡ max 1 (nr.score - (n + 1))
unfolding update_score
update_score_down nr n h k = rw (add_fine nr.score n h k) (
    ground (arith, clamp_score-pos (nr.score - (n + 1)), clamp_score-negsuc (n + 1 - nr.score - 1)))

-- On a score of at most 1000, where int64 holds the sum, UpdateScore adds a reward and takes off a
-- loss and stops at 1 and at 1000.
pub update_score_moves :
    (nr : NodeReputation) (n : ℕ)
    → nr.score ≤ 1000
    → n + 1000 < 2 ^ 63
    → ((update_score nr (pos n)).score ≡ max 1 (min 1000 (nr.score + n)))
      × ((update_score nr (negsuc n)).score ≡ max 1 (nr.score - (n + 1)))
unfolding update_score
update_score_moves nr n h k = (
  rw (add_reward nr.score n h k) (clamp_score-pos (nr.score + n)),
  update_score_down nr n h (omega arith),
)

-- ApplyPenalty and Blacklist keep the score on the scale and never raise it. A penalty that leaves
-- less than 100 points makes the node inactive, and a blacklisted node is inactive with 1 point.
pub penalties_lower :
    (now : ℕ) (nr : NodeReputation) (reason : Text) (points : ℕ)
    → InRange nr.score
    → let p = apply_penalty now nr reason points in
      let b = blacklist nr reason in
      (InRange p.score × (p.score ≤ nr.score) × (p.is_active ≡ (leb 100 p.score && nr.is_active)))
      × (InRange b.score × (b.score ≤ nr.score) × (b.is_active ≡ false) × (b.is_blacklisted ≡ true))
unfolding apply_penalty blacklist
penalties_lower now nr reason points h =
    ((ground arith, ground arith, ground arith), (ground arith, ground arith, refl, refl))

pub negated_points : (points : ℕ) → points < 2 ^ 63 → neg_i64 (to_i64 points) ≡ sub_ℕ 0 points
unfolding neg_i64 to_i64 to_u64
negated_points points h = ground arith

pub wrapped_points :
    (points : ℕ)
    → 2 ^ 63 < points
    → points < 2 ^ 64
    → neg_i64 (to_i64 points) ≡ pos (2 ^ 64 - points)
unfolding neg_i64 to_i64 to_u64
wrapped_points points h k = ground arith
