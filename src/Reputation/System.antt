-- ===== src/Reputation/System.antt =====
-- src/reputation/score.go, ReputationSystem. A method holds the system's lock from start to end,
-- so it is a function on the state; the goroutines processUpdates and decayLoop take their turns
-- as steps (System/Steps.antt). `now` is the clock, read once for each call.
pub mod Steps
pub mod Invariant
pub mod Relays
pub mod Effects
pub mod Blacklist
pub mod Counts
use web5_mesh.Base.{
  ◌^◌, ℕ, ◌+◌, ◌-◌, ◌≡◌, ◌≤◌, refl, Bool, true, false, not, ◌&&◌, Option, none, some, List, [], ◌∷◌,
  ◌++◌, map, arith, ltb, leb, ◌==◌, if◌then◌else◌, u64, length, take,
}
use web5_mesh.Base.Int.{ℤ, pos, negsuc, ltb_ℤ, to_i64, neg_i64}
use web5_mesh.Base.Classes.{Text, Text_eq}
use web5_mesh.Base.Bytes.{codes}
use web5_mesh.Base.Map.{lookup, insert}
use web5_mesh.Base.ExchangeSort
use web5_mesh.Reputation.Node
use web5_mesh.Reputation.Node.{NodeReputation, zero_value}

-- The float64 arithmetic that applyDecay and updateStatsLocked use, with no law assumed.
pub record Floats : Type 1 where
  pub F : Type 0
  pub of_u64 : ℕ → F
  pub to_u64 : F → ℕ
  pub times : F → F → F
  pub over : F → F → F
  pub is_positive : F → Bool
  -- `time.Since(last).Hours()`, of the clock and the earlier time.
  pub hours_since : ℕ → ℕ → F
  -- The constants 0.05 and 24.
  pub rate : F
  pub hours_per_day : F

pub record Stats (F : Type 0) : Type 0 where
  pub total_nodes : ℕ
  pub active_nodes : ℕ
  pub blacklisted_nodes : ℕ
  pub average_score : F

pub record Update : Type 0 where
  pub node_id : Text
  pub delta : ℤ
  pub reason : Text
  pub is_penalty : Bool

pub record System (F : Type 0) : Type 0 where
  pub reputations : List (Text × NodeReputation)
  pub base_score : ℕ
  pub max_score : ℕ
  pub min_score : ℕ
  pub decay_rate : F
  pub penalty_multiplier : ℕ
  -- The buffered channel, oldest update first.
  pub update_ch : List Update
  pub stats : Stats F

-- The record that BlacklistNode creates for a node that it does not know.
unfoldable pub banned_node : Text → Text → NodeReputation
banned_node node_id reason = record zero_value {
  node_id = node_id;
  score = 1;
  is_blacklisted = true;
  blacklist_reason = reason;
  is_active = false;
}

-- The capacity of the channel.
abbrev pub channel_capacity : ℕ
channel_capacity = 1000

-- The candidates of GetTopRelays, as pairs of id and score.
unfoldable pub relays : List (Text × NodeReputation) → List (Text × ℕ)
relays [] = []
relays ((id, rep) ∷ m) =
    if ltb 0 rep.relay_count && leb 500 rep.score then (id, rep.score) ∷ relays m else relays m

module _ (fl : Floats) where
  open fl use {F, of_u64, to_u64, times, over, is_positive, hours_since, rate, hours_per_day}

  unfoldable pub new : System F
  new = record {
    reputations = [];
    base_score = 100;
    max_score = 1000;
    min_score = 1;
    decay_rate = rate;
    penalty_multiplier = 2;
    update_ch = [];
    stats = record {
      total_nodes = 0;
      active_nodes = 0;
      blacklisted_nodes = 0;
      average_score = of_u64 0;
    };
  }

  -- The loop of updateStatsLocked: the counters, and the uint64 total of the scores.
  unfoldable pub count_nodes : List (Text × NodeReputation) → Stats F × ℕ → Stats F × ℕ
  count_nodes [] t = t
  count_nodes ((id, rep) ∷ m) (st, total) = count_nodes m (
    record st {
      total_nodes = u64 (st.total_nodes + 1);
      active_nodes = if rep.is_active then u64 (st.active_nodes + 1) else st.active_nodes;
      blacklisted_nodes =
          if rep.is_blacklisted then u64 (st.blacklisted_nodes + 1) else st.blacklisted_nodes;
    },
    u64 (total + rep.score),
  )

  unfoldable pub update_stats : System F → System F
  unfolding count_nodes
  update_stats rs =
      let old = rs.stats in
      let zeroed = record old { total_nodes = 0; active_nodes = 0; blacklisted_nodes = 0 } in
      let (st, total) = count_nodes rs.reputations (zeroed, 0) in
      record rs {
        stats =
            if ltb 0 st.total_nodes
            then record st { average_score = over (of_u64 total) (of_u64 st.total_nodes) }
            else st;
      }

  -- The record that RegisterNode and applyUpdate create.
  unfoldable pub fresh_node : ℕ → System F → Text → Text → NodeReputation
  fresh_node now rs node_id did = record zero_value {
    node_id = node_id;
    did = did;
    score = rs.base_score;
    base_score = rs.base_score;
    first_seen = now;
    last_seen = now;
    is_active = true;
  }

  -- `rs.reputations[nodeID] = rep`
  unfoldable pub put : System F → Text → NodeReputation → System F
  put rs node_id rep = record rs { reputations = insert node_id rep rs.reputations }

  unfoldable pub register_node : ℕ → System F → Text → Text → System F × NodeReputation
  unfolding fresh_node put update_stats
  register_node now rs node_id did = elim (lookup node_id rs.reputations) [
    | some rep ↦ (rs, rep)
    | none ↦ let rep = fresh_node now rs node_id did in (update_stats (put rs node_id rep), rep)
  ]

  unfoldable pub get_reputation : System F → Text → Option NodeReputation
  get_reputation rs node_id = lookup node_id rs.reputations

  unfoldable pub get_score : System F → Text → ℕ
  unfolding Node.get_score
  get_score rs node_id = elim (lookup node_id rs.reputations) [
    | some rep ↦ Node.get_score rep
    | none ↦ rs.base_score
  ]

  -- The body of applyUpdate on the node's record.
  unfoldable pub updated : ℕ → NodeReputation → ℤ → Bool → NodeReputation
  unfolding Node.update_score
  updated now rep delta is_penalty =
      let moved = Node.update_score rep delta in
      let counted =
        (if is_penalty
          then record moved { penalty_count = u64 (moved.penalty_count + 1); last_penalty = now }
          else if ltb_ℤ (pos 0) delta
          then record moved { success_count = u64 (moved.success_count + 1) }
          else if ltb_ℤ delta (pos 0)
          then record moved { failure_count = u64 (moved.failure_count + 1) }
          else moved) in
      record counted {
        last_seen = now;
        is_active = ltb 100 counted.score && not counted.is_blacklisted;
      }

  unfoldable pub apply_update : ℕ → System F → Text → ℤ → Bool → System F
  unfolding updated fresh_node put update_stats
  apply_update now rs node_id delta is_penalty = elim (lookup node_id rs.reputations) [
    | some rep ↦ update_stats (put rs node_id (updated now rep delta is_penalty))
    | none ↦
        update_stats (put rs node_id (updated now (fresh_node now rs node_id []) delta is_penalty))
  ]

  -- The `select` of UpdateScore: the update is queued, or applied at once if the channel is full.
  unfoldable pub update_score : ℕ → System F → Text → ℤ → Text → System F
  unfolding apply_update
  update_score now rs node_id delta reason =
      if ltb (length rs.update_ch) channel_capacity
      then record rs {
        update_ch =
            rs.update_ch
            ++ record { node_id = node_id; delta = delta; reason = reason; is_penalty = false }
              ∷ [];
      }
      else apply_update now rs node_id delta false

  unfoldable pub penalize : ℕ → System F → Text → Text → ℕ → System F
  unfolding update_score
  penalize now rs node_id reason points =
      update_score now rs node_id (neg_i64 (to_i64 points)) reason

  unfoldable pub record_success : ℕ → System F → Text → System F
  unfolding update_score
  record_success now rs node_id = update_score now rs node_id (pos 1) (codes "success")

  -- The delta is -5.
  unfoldable pub record_failure : ℕ → System F → Text → System F
  unfolding update_score
  record_failure now rs node_id = update_score now rs node_id (negsuc 4) (codes "failure")

  unfoldable pub record_relay : ℕ → System F → Text → System F
  unfolding update_score
  record_relay now rs node_id = update_score now rs node_id (pos 2) (codes "relay")

  unfoldable pub blacklist_node : System F → Text → Text → System F
  unfolding Node.blacklist banned_node put update_stats
  blacklist_node rs node_id reason = elim (lookup node_id rs.reputations) [
    | some rep ↦ update_stats (put rs node_id (Node.blacklist rep reason))
    | none ↦ update_stats (put rs node_id (banned_node node_id reason))
  ]

  unfoldable pub is_blacklisted : System F → Text → Bool
  is_blacklisted rs node_id = elim (lookup node_id rs.reputations) [
    | some rep ↦ rep.is_blacklisted
    | none ↦ false
  ]

  unfoldable pub is_relay_eligible : System F → Text → Bool
  unfolding get_score
  is_relay_eligible rs node_id = leb 500 (get_score rs node_id)

  -- What a turn of the loop of applyDecay reads of a node: the decay, and whether the score is
  -- greater; none if nothing is to be done.
  unfoldable pub decay_of : ℕ → System F → NodeReputation → Option (ℕ × Bool)
  decay_of now rs rep =
      let days_inactive = over (hours_since now rep.last_seen) hours_per_day in
      let decay = to_u64 (times (times (of_u64 rep.score) rs.decay_rate) days_inactive) in
      if is_positive days_inactive && ltb 0 decay then some (decay, ltb decay rep.score) else none

  -- What the turn then does to the node, which a method on its pointer may have changed since: the
  -- turn does not hold the node's mutex. The difference of two uint64 wraps.
  unfoldable pub decay_write : System F → ℕ × Bool → NodeReputation → NodeReputation
  decay_write rs (decay, more) rep =
      let difference =
        if ltb rep.score decay then 2 ^ 64 + rep.score - decay else rep.score - decay in
      let score = if more then difference else rs.min_score in
      record rep { score = score; is_active = ltb 100 score }

  -- A turn that no such method interrupts.
  unfoldable pub decayed : ℕ → System F → NodeReputation → NodeReputation
  unfolding decay_of decay_write
  decayed now rs rep = elim (decay_of now rs rep) [ none ↦ rep | some d ↦ decay_write rs d rep ]

  unfoldable pub apply_decay : ℕ → System F → System F
  unfolding decayed update_stats
  apply_decay now rs =
      update_stats
        (record rs { reputations = map (λ (id, rep). (id, decayed now rs rep)) rs.reputations })

  -- The state that Stats reports beside its constants: the map's size and the last counters.
  unfoldable pub report : System F → ℕ × Stats F
  report rs = (length rs.reputations, rs.stats)

  unfoldable pub get_all_scores : System F → List (Text × ℕ)
  unfolding Node.get_score
  get_all_scores rs = map (λ (id, rep). (id, Node.get_score rep)) rs.reputations

  -- A negative limit makes `make` panic, which is `none`.
  unfoldable pub get_top_relays : System F → ℤ → Option (List Text)
  unfolding relays ExchangeSort.sort
  get_top_relays rs (negsuc n) = none
  get_top_relays rs (pos limit) =
      let sorted = ExchangeSort.sort (λ (a, s) (b, t). ltb s t) (relays rs.reputations) in
      let stop = if ltb (length sorted) limit then length sorted else limit in
      some (map (λ (id, score). id) (take stop sorted))
