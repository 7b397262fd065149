-- ===== src/Reputation/System/Blacklist.antt =====
-- Proofs about the blacklist of ReputationSystem (src/reputation/score.go).
use web5_mesh.Base.{
  ℕ, ◌≡◌, refl, Bool, true, false, none, some, List, [], ◌∷◌, map, arith, ltb, if◌then◌else◌,
  length, Option-cases, List-cases, inl, inr, Bool-cases,
}
use web5_mesh.Base.Int.{ℤ}
use web5_mesh.Base.Classes.{Text, Text_eq, text_eq, text_eq_iff}
use web5_mesh.Base.Map.{lookup, insert}
use web5_mesh.Reputation.Node
use web5_mesh.Reputation.Node.{NodeReputation, zero_value}
use web5_mesh.Reputation.System.{
  Floats, System, channel_capacity, update_stats, put, register_node, banned_node, updated,
  decay_of, decay_write, decayed, apply_update, update_score, penalize, record_success,
  record_failure, record_relay, blacklist_node, apply_decay, is_blacklisted,
}
use web5_mesh.Reputation.System.Steps.{
  NodeCall, moves, succeeds, fails, relays, stores, pays, is_banned, node_step, Call,
  process_update, step, touch, node_steps, interrupt, Reach,
}
use web5_mesh.Reputation.System.Effects.{lookup-put}

module _ (fl : Floats) where
  open fl use {F}

  is_blacklisted-put :
      (rs : System F) (id other : Text) (rep : NodeReputation)
      → is_blacklisted fl (update_stats fl (put fl rs id rep)) other
        ≡ (if text_eq id other then rep.is_blacklisted else is_blacklisted fl rs other)
  unfolding is_blacklisted
  is_blacklisted-put rs id other rep = ground (arith, lookup-put fl rs id other rep)

  -- A record put in for a node keeps the flag of every node that was blacklisted, if it keeps the
  -- node's own.
  banned-put :
      (rs : System F) (id other : Text) (rep : NodeReputation)
      → (text_eq id other ≡ true → rep.is_blacklisted ≡ true)
      → is_blacklisted fl rs other ≡ true
      → is_blacklisted fl (update_stats fl (put fl rs id rep)) other ≡ true
  banned-put rs id other rep keep h = elim (Bool-cases (text_eq id other)) [
    | inl e ↦ rw (is_blacklisted-put rs id other rep, e) (keep e)
    | inr e ↦ rw (is_blacklisted-put rs id other rep, e) h
  ]

  banned_known :
      (rs : System F) (id other : Text) (rep : NodeReputation)
      → lookup id rs.reputations ≡ some rep
      → is_blacklisted fl rs other ≡ true
      → text_eq id other ≡ true
      → rep.is_blacklisted ≡ true
  unfolding is_blacklisted
  banned_known rs id other rep e h t = ground (arith, text_eq_iff id other)

  not-banned_unknown :
      (rs : System F) (id other : Text)
      → lookup id rs.reputations ≡ none
      → is_blacklisted fl rs other ≡ true
      → text_eq id other ≡ true
      → ⊥
  unfolding is_blacklisted
  not-banned_unknown rs id other e h t = ground (arith, text_eq_iff id other)

  apply_update-banned :
      (now : ℕ) (rs : System F) (id other : Text) (delta : ℤ) (is_penalty : Bool)
      → is_blacklisted fl rs other ≡ true
      → is_blacklisted fl (apply_update fl now rs id delta is_penalty) other ≡ true
  unfolding apply_update
  apply_update-banned now rs id other delta pen h = elim (Option-cases (lookup id rs.reputations)) [
    | inl e ↦
        rw (e, apply_update)
          (banned-put rs id other _ (λ t. absurd (not-banned_unknown rs id other e h t)) h)
    | inr (rep, e) ↦
        rw (e, apply_update)
          (banned-put rs id other _
            (λ t.
              unfold updated Node.update_score in
              ground (arith, banned_known rs id other rep e h t))
            h)
  ]

  queued-banned :
      (now : ℕ) (rs : System F) (id other : Text) (delta : ℤ) (reason : Text)
      → is_blacklisted fl rs other ≡ true
      → is_blacklisted fl (update_score fl now rs id delta reason) other ≡ true
  unfolding update_score
  queued-banned now rs id other delta reason h =
      elim (Bool-cases (ltb (length rs.update_ch) channel_capacity)) [
        | inl e ↦ rw e (unfold is_blacklisted in h)
        | inr e ↦ rw e (apply_update-banned now rs id other delta false h)
      ]

  process-banned :
      (now : ℕ) (rs : System F) (other : Text)
      → is_blacklisted fl rs other ≡ true
      → is_blacklisted fl (process_update fl now rs) other ≡ true
  unfolding process_update
  process-banned now rs other h = elim (List-cases rs.update_ch) [
    | inl e ↦ rw (e, process_update) h
    | inr (u, rest, e) ↦
        rw (e, process_update)
          (apply_update-banned now (record rs { update_ch = rest }) u.node_id other u.delta
            u.is_penalty (unfold is_blacklisted in h))
  ]

  register-banned :
      (now : ℕ) (rs : System F) (id did other : Text)
      → is_blacklisted fl rs other ≡ true
      → is_blacklisted fl (register_node fl now rs id did).0 other ≡ true
  unfolding register_node
  register-banned now rs id did other h = elim (Option-cases (lookup id rs.reputations)) [
    | inl e ↦
        rw (e, register_node)
          (banned-put rs id other _ (λ t. absurd (not-banned_unknown rs id other e h t)) h)
    | inr (rep, e) ↦ rw (e, register_node) h
  ]

  blacklist-sets :
      (rs : System F) (id reason : Text)
      → is_blacklisted fl (blacklist_node fl rs id reason) id ≡ true
  unfolding blacklist_node Node.blacklist banned_node
  blacklist-sets rs id reason = elim (Option-cases (lookup id rs.reputations)) [
    | inl e ↦ rw (e, blacklist_node, is_blacklisted-put rs id id _, (text_eq_iff id id).1 refl)
    | inr (rep, e) ↦
        rw (e, blacklist_node, is_blacklisted-put rs id id _, (text_eq_iff id id).1 refl)
  ]

  blacklist-banned :
      (rs : System F) (id reason other : Text)
      → is_blacklisted fl rs other ≡ true
      → is_blacklisted fl (blacklist_node fl rs id reason) other ≡ true
  unfolding blacklist_node Node.blacklist banned_node
  blacklist-banned rs id reason other h = elim (Option-cases (lookup id rs.reputations)) [
    | inl e ↦ rw (e, blacklist_node) (banned-put rs id other _ (λ t. refl) h)
    | inr (rep, e) ↦ rw (e, blacklist_node) (banned-put rs id other _ (λ t. refl) h)
  ]

  lookup-decay :
      (now : ℕ) (rs : System F) (m : List (Text × NodeReputation)) (other : Text)
      (rep : NodeReputation)
      → lookup other m ≡ some rep
      → lookup other (map (λ (id, r). (id, decayed fl now rs r)) m) ≡ some (decayed fl now rs rep)
  unfolding lookup
  lookup-decay now rs [] other rep h = cc
  lookup-decay now rs ((id, r) ∷ m) other rep h = ground (arith, lookup-decay now rs m other rep)

  kept :
      (now : ℕ) (rs : System F) (rep : NodeReputation)
      → rep.is_blacklisted ≡ true
      → (decayed fl now rs rep).is_blacklisted ≡ true
  unfolding decayed decay_of decay_write
  kept now rs rep h = ground arith

  decay-banned :
      (now : ℕ) (rs : System F) (other : Text)
      → is_blacklisted fl rs other ≡ true
      → is_blacklisted fl (apply_decay fl now rs) other ≡ true
  unfolding apply_decay update_stats is_blacklisted
  decay-banned now rs other h = elim (Option-cases (lookup other rs.reputations)) [
    | inl e ↦ cc (rw (e, is_blacklisted) at h)
    | inr (rep, e) ↦
        rw (lookup-decay now rs rs.reputations other rep e, is_blacklisted)
          (kept now rs rep (rw (e, is_blacklisted) at h))
  ]

  step-banned :
      (rs : System F) (c : Call) (other : Text)
      → is_blacklisted fl rs other ≡ true
      → is_blacklisted fl (step fl rs c) other ≡ true
  unfolding step penalize record_success record_failure record_relay
  step-banned rs (Call.registers now id did) other h = register-banned now rs id did other h
  step-banned rs (Call.updates now id delta reason) other h =
      queued-banned now rs id other delta reason h
  step-banned rs (Call.penalizes now id reason points) other h =
      queued-banned now rs id other _ reason h
  step-banned rs (Call.succeeds now id) other h = queued-banned now rs id other _ _ h
  step-banned rs (Call.failures now id) other h = queued-banned now rs id other _ _ h
  step-banned rs (Call.relayed now id) other h = queued-banned now rs id other _ _ h
  step-banned rs (Call.blacklists id reason) other h = blacklist-banned rs id reason other h
  step-banned rs (Call.processes now) other h = process-banned now rs other h
  step-banned rs (Call.decays now) other h = decay-banned now rs other h

  node_step-banned :
      (rep : NodeReputation) (c : NodeCall)
      → rep.is_blacklisted ≡ true
      → (node_step rep c).is_blacklisted ≡ true
  unfolding node_step
  node_step-banned rep (moves delta) h = unfold Node.update_score in h
  node_step-banned rep (succeeds now) h = unfold Node.record_success in h
  node_step-banned rep (fails now) h = unfold Node.record_failure in h
  node_step-banned rep relays h = unfold Node.record_relay in h
  node_step-banned rep stores h = unfold Node.record_storage in h
  node_step-banned rep (pays now reason points) h = unfold Node.apply_penalty in h
  node_step-banned rep (is_banned reason) h = unfold Node.blacklist in refl

  touch-banned :
      (rs : System F) (id : Text) (c : NodeCall) (other : Text)
      → is_blacklisted fl rs other ≡ true
      → is_blacklisted fl (touch fl rs id c) other ≡ true
  unfolding touch put insert node_step is_blacklisted
  touch-banned rs id c other h = elim (Option-cases (lookup id rs.reputations)) [
    | inl e ↦ rw (e, touch) h
    | inr (rep, e) ↦
        rw (e, touch)
          (unfold update_stats in
            banned-put rs id other (node_step rep c)
              (λ t. node_step-banned rep c (banned_known rs id other rep e h t)) h)
  ]

  node_steps-banned :
      (rep : NodeReputation) (cs : List NodeCall)
      → rep.is_blacklisted ≡ true
      → (node_steps rep cs).is_blacklisted ≡ true
  unfolding node_steps
  node_steps-banned rep [] h = h
  node_steps-banned rep (c ∷ cs) h =
      node_steps-banned (node_step rep c) cs (node_step-banned rep c h)

  interrupt-banned :
      (now : ℕ) (rs : System F) (id : Text) (cs : List NodeCall) (other : Text)
      → is_blacklisted fl rs other ≡ true
      → is_blacklisted fl (interrupt fl now rs id cs) other ≡ true
  unfolding interrupt decay_write
  interrupt-banned now rs id cs other h = elim (Option-cases (lookup id rs.reputations)) [
    | inl e ↦ rw (e, interrupt) h
    | inr (rep, e) ↦ elim (Option-cases (decay_of fl now rs rep)) [
      | inl d ↦ rw (e, interrupt, d) h
      | inr (d, q) ↦
          rw (e, interrupt, q)
            (banned-put rs id other (decay_write fl rs d (node_steps rep cs))
              (λ t. node_steps-banned rep cs (banned_known rs id other rep e h t)) h)
    ]
  ]

  -- Once BlacklistNode has run, no later call, goroutine turn or pointer access takes the node off
  -- the blacklist, also if pointer accesses interrupt applyDecay.
  pub Reach-is_blacklisted :
      (racy : Bool) (rs : System F) (id reason : Text) {rs' : System F}
      → Reach fl racy (blacklist_node fl rs id reason) rs'
      → is_blacklisted fl rs' id ≡ true
  Reach-is_blacklisted racy rs id reason Reach.start = blacklist-sets rs id reason
  Reach-is_blacklisted racy rs id reason (Reach.calls c r) =
      step-banned _ c id (Reach-is_blacklisted racy rs id reason r)
  Reach-is_blacklisted racy rs id reason (Reach.touches other c r) =
      touch-banned _ other c id (Reach-is_blacklisted racy rs id reason r)
  Reach-is_blacklisted racy rs id reason (Reach.interrupts now other cs h r) =
      interrupt-banned now _ other cs id (Reach-is_blacklisted racy rs id reason r)
