-- ===== src/Reputation/System/Steps.antt =====
-- The calls, goroutine turns and pointer accesses that change a ReputationSystem
-- (src/reputation/score.go), as steps in any order.
use web5_mesh.Base.{ℕ, ◌≡◌, Bool, true, List, [], ◌∷◌, none, some}
use web5_mesh.Base.Int.{ℤ}
use web5_mesh.Base.Classes.{Text, Text_eq}
use web5_mesh.Base.Map.{lookup}
use web5_mesh.Reputation.Node
use web5_mesh.Reputation.Node.{NodeReputation}
use web5_mesh.Reputation.System.{
  Floats, System, put, register_node, apply_update, update_score, penalize, record_success,
  record_failure, record_relay, blacklist_node, apply_decay, decay_of, decay_write, update_stats,
}

-- A method called on the pointer that RegisterNode and GetReputation hand out.
pub data NodeCall : Type 0 where
  moves : ℤ → NodeCall
  succeeds : ℕ → NodeCall
  fails : ℕ → NodeCall
  relays : NodeCall
  stores : NodeCall
  pays : ℕ → Text → ℕ → NodeCall
  is_banned : Text → NodeCall

unfoldable pub node_step : NodeReputation → NodeCall → NodeReputation
node_step nr (moves delta) = Node.update_score nr delta
node_step nr (succeeds now) = Node.record_success now nr
node_step nr (fails now) = Node.record_failure now nr
node_step nr relays = Node.record_relay nr
node_step nr stores = Node.record_storage nr
node_step nr (pays now reason points) = Node.apply_penalty now nr reason points
node_step nr (is_banned reason) = Node.blacklist nr reason

-- Methods called on a node's pointer, one after the other.
unfoldable pub node_steps : NodeReputation → List NodeCall → NodeReputation
unfolding node_step
node_steps rep [] = rep
node_steps rep (c ∷ cs) = node_steps (node_step rep c) cs

pub data Call : Type 0 where
  registers : ℕ → Text → Text → Call
  updates : ℕ → Text → ℤ → Text → Call
  penalizes : ℕ → Text → Text → ℕ → Call
  succeeds failures relayed : ℕ → Text → Call
  blacklists : Text → Text → Call
  -- processUpdates takes the oldest update from the channel.
  processes : ℕ → Call
  -- The ticker of decayLoop fires.
  decays : ℕ → Call

module _ (fl : Floats) where
  open fl use {F}

  -- The `case update := <-rs.updateCh` of processUpdates; without an update it waits.
  unfoldable pub process_update : ℕ → System F → System F
  unfolding apply_update
  process_update now rs = elim rs.update_ch [
    | [] ↦ rs
    | u ∷ rest ↦ apply_update fl now (record rs { update_ch = rest }) u.node_id u.delta u.is_penalty
  ]

  unfoldable pub step : System F → Call → System F
  step rs (registers now node_id did) = (register_node fl now rs node_id did).0
  step rs (updates now node_id delta reason) = update_score fl now rs node_id delta reason
  step rs (penalizes now node_id reason points) = penalize fl now rs node_id reason points
  step rs (Call.succeeds now node_id) = record_success fl now rs node_id
  step rs (failures now node_id) = record_failure fl now rs node_id
  step rs (relayed now node_id) = record_relay fl now rs node_id
  step rs (blacklists node_id reason) = blacklist_node fl rs node_id reason
  step rs (processes now) = process_update now rs
  step rs (decays now) = apply_decay fl now rs

  -- The system's own calls and turns, one after the other.
  unfoldable pub run : System F → List Call → System F
  run rs [] = rs
  run rs (c ∷ cs) = run (step rs c) cs

  -- A caller's change through a pointer, without the system's lock.
  unfoldable pub touch : System F → Text → NodeCall → System F
  touch rs node_id c = elim (lookup node_id rs.reputations) [
    | none ↦ rs
    | some rep ↦ put fl rs node_id (node_step rep c)
  ]

  -- A turn of applyDecay on one node, with the methods that run on its pointer between the turn's
  -- reading and its writing; the statistics are made at the end of applyDecay.
  unfoldable pub interrupt : ℕ → System F → Text → List NodeCall → System F
  unfolding decay_of decay_write node_steps put update_stats
  interrupt now rs node_id cs = elim (lookup node_id rs.reputations) [
    | none ↦ rs
    | some rep ↦ elim (decay_of fl now rs rep) [
      | none ↦ rs
      | some d ↦ update_stats fl (put fl rs node_id (decay_write fl rs d (node_steps rep cs)))
    ]
  ]

  -- What can happen: a call or turn of the system, or a method called on a node's pointer. If `racy`,
  -- such methods may also interrupt a turn of applyDecay.
  pub data Reach (racy : Bool) (rs : System F) : System F → Type 0 where
    start : Reach racy rs rs
    calls : {a : System F} (c : Call) → Reach racy rs a → Reach racy rs (step a c)
    touches :
        {a : System F} (node_id : Text) (c : NodeCall)
        → Reach racy rs a
        → Reach racy rs (touch a node_id c)
    interrupts :
        {a : System F} (now : ℕ) (node_id : Text) (cs : List NodeCall)
        → racy ≡ true
        → Reach racy rs a
        → Reach racy rs (interrupt now a node_id cs)
