-- ===== src/P2p/HolePunch.antt =====
-- Hole punching through the lighthouse node (src/p2p/holepunch.go).
use web5_mesh.Base.{
  ℕ, ◌≡◌, ◌≤◌, refl, ap, ◌∙◌, Bool, true, false, ◌&&◌, ◌||◌, Option, none, some, List, [], ◌∷◌,
  ◌++◌, arith, ltb, ◌==◌, if◌then◌else◌, if_intro, Bool-cases, inl, inr, length, length-take, take,
}
use web5_mesh.Base.Int.{ℤ}
use web5_mesh.Base.Classes.{Text, Text_eq, text_eq, text_eq_iff}
use web5_mesh.Base.Map.{lookup, insert, lookup-insert}
use web5_mesh.Base.Bytes.{codes}
use web5_mesh.P2p.Bucket.{UdpAddr}
use web5_mesh.P2p.Messages.{HasNoColon}

pub record PeerInfo : Type 0 where
  pub node_id : Text
  pub ip : Text
  pub port : ℤ
  pub last_seen : ℕ

-- The package's registeredPeers, and what WriteTo was called with.
pub record Outcome : Type 0 where
  pub registered_peers : List (Text × PeerInfo)
  pub written : List (Text × UdpAddr)

-- strings.Split(s, ":").
unfoldable pub split_colons : Text → List Text
split_colons [] = [] ∷ []
split_colons (c ∷ rest) = elim (split_colons rest) [
  | [] ↦ []
  | part ∷ parts ↦ if c == 58 then [] ∷ part ∷ parts else (c ∷ part) ∷ parts
]

-- strconv.Atoi without its error (0 if there is one), and strconv.Itoa.
module _ (atoi : Text → ℤ) (itoa : ℤ → Text) where
  -- The case "REGISTER". Its log line slices the first eight bytes of the id after the entry is
  -- made: `none` is its panic.
  unfoldable pub register : ℕ → List Text → List (Text × PeerInfo) → Option Outcome
  register now (word ∷ node_id ∷ ip ∷ port ∷ parts) peers =
      if ltb (length node_id) 8
      then none
      else some (record {
        registered_peers =
            insert node_id
              (record { node_id = node_id; ip = ip; port = atoi port; last_seen = now }) peers;
        written = [];
      })
  register now _ peers = some (record { registered_peers = peers; written = [] })

  -- The case "PUNCH_REQUEST", with the panics of its log lines.
  unfoldable pub request_punch : UdpAddr → List Text → List (Text × PeerInfo) → Option Outcome
  request_punch addr (word ∷ initiator_id ∷ target_id ∷ parts) peers =
      if ltb (length initiator_id) 8 || ltb (length target_id) 8
      then none
      else elim (lookup target_id peers) [
        | none ↦ some (record { registered_peers = peers; written = [] })
        | some target ↦ some (record {
          registered_peers = peers;
          written =
              (
                codes "PUNCH:"
                    ++ target_id
                    ++ codes ":"
                    ++ PeerInfo.ip target
                    ++ codes ":"
                    ++ itoa (PeerInfo.port target)
                    ++ codes ":"
                    ++ initiator_id,
                addr,
              )
              ∷ [];
        })
      ]
  request_punch addr _ peers = some (record { registered_peers = peers; written = [] })

  -- ProcessIncomingMessage at a time; `none` is a panic.
  unfoldable pub process_incoming_message :
      ℕ → Text → UdpAddr → List (Text × PeerInfo) → Option Outcome
  unfolding register request_punch split_colons
  process_incoming_message now msg addr peers =
      let nothing = some (record { registered_peers = peers; written = [] }) in
      if ltb (length msg) 4
      then nothing
      else if text_eq (take 4 msg) (codes "SYN")
      then some (record { registered_peers = peers; written = (codes "ACK", addr) ∷ [] })
      else if text_eq (take 3 msg) (codes "ACK")
      then nothing
      else if ltb 8 (length msg) && text_eq (take 8 msg) (codes "REGISTER")
      then register now (split_colons msg) peers
      else if ltb 12 (length msg) && text_eq (take 12 msg) (codes "PUNCH_REQUEST")
      then request_punch addr (split_colons msg) peers
      else nothing

  -- RegisterPublicIP: the message to the lighthouse.
  abbrev pub register_message : Text → Text → ℤ → Text
  register_message node_id public_ip public_port =
      codes "REGISTER:" ++ (node_id ++ (58 ∷ (public_ip ++ (58 ∷ itoa public_port))))

  and_right : (a b : Bool) → (a && b) ≡ true → b ≡ true
  and_right a b h = ground (arith, h)

  not_syn :
      (msg : Text) → ltb (length msg) 4 ≡ false → text_eq (take 4 msg) (codes "SYN") ≡ true → ⊥
  not_syn msg h e =
      let size = ap length ((text_eq_iff (take 4 msg) (codes "SYN")).0 e) in
      let long : 4 ≤ length msg = ground (arith, h) in omega (arith, size, long, length-take 4 msg)

  not_request :
      (msg : Text)
      → (ltb 12 (length msg) && text_eq (take 12 msg) (codes "PUNCH_REQUEST")) ≡ true
      → ⊥
  not_request msg both =
      let e : text_eq (take 12 msg) (codes "PUNCH_REQUEST") ≡ true =
        and_right (ltb 12 (length msg)) (text_eq (take 12 msg) (codes "PUNCH_REQUEST")) both in
      let size : length (take 12 msg) ≡ 13 =
        ap length ((text_eq_iff (take 12 msg) (codes "PUNCH_REQUEST")).0 e) in
      omega (arith, size, length-take 12 msg)

  register_silent :
      (now : ℕ) (parts : List Text) (peers : List (Text × PeerInfo)) (o : Outcome)
      → register now parts peers ≡ some o
      → Outcome.written o ≡ []
  unfolding register
  register_silent now [] peers o h = ground (arith, h)
  register_silent now (a ∷ []) peers o h = ground (arith, h)
  register_silent now (a ∷ b ∷ []) peers o h = ground (arith, h)
  register_silent now (a ∷ b ∷ c ∷ []) peers o h = ground (arith, h)
  register_silent now (a ∷ b ∷ c ∷ d ∷ parts) peers o h = ground (arith, h)

  abbrev Silent : Option Outcome → Type 0
  Silent r = (o : Outcome) → r ≡ some o → Outcome.written o ≡ []

  silent_cases :
      (P : Option Outcome → Type 0) (now : ℕ) (msg : Text) (addr : UdpAddr)
      (peers : List (Text × PeerInfo))
      → P (some (record { registered_peers = peers; written = [] }))
      → P (register now (split_colons msg) peers)
      → P (process_incoming_message now msg addr peers)
  unfolding process_incoming_message
  silent_cases P now msg addr peers nothing registers =
      let same = some (record { registered_peers = peers; written = [] }) in
      let is_request = ltb 12 (length msg) && text_eq (take 12 msg) (codes "PUNCH_REQUEST") in
      let request = if is_request then request_punch addr (split_colons msg) peers else same in
      let is_register = ltb 8 (length msg) && text_eq (take 8 msg) (codes "REGISTER") in
      let rest = if is_register then register now (split_colons msg) peers else request in
      if_intro P _ _ _ (λ _. nothing)
        (λ long.
          if_intro P _ _ _ (λ e. absurd (not_syn msg long e))
            (λ _.
              if_intro P (text_eq (take 3 msg) (codes "ACK")) same rest (λ _. nothing)
                (λ _.
                  if_intro P is_register _ request (λ _. registers)
                    (λ _.
                      if_intro P is_request (request_punch addr (split_colons msg) peers) same
                        (λ e. absurd (not_request msg e)) (λ _. nothing)))))

  -- No message is answered, neither a SYN by an ACK nor a PUNCH_REQUEST by a PUNCH: the words are
  -- compared with slices of other lengths.
  pub process_incoming_message_silent :
      (now : ℕ) (msg : Text) (addr : UdpAddr) (peers : List (Text × PeerInfo)) (o : Outcome)
      → process_incoming_message now msg addr peers ≡ some o
      → Outcome.written o ≡ []
  process_incoming_message_silent now msg addr peers o h =
      silent_cases Silent now msg addr peers (λ o h. ground (arith, h))
        (register_silent now (split_colons msg) peers) o h

  pub some_part : (s : Text) → (part : Text) × (parts : List Text) × (split_colons s ≡ part ∷ parts)
  unfolding split_colons
  some_part [] = ([], [], refl)
  some_part (c ∷ s) =
      let (part, parts, e) = some_part s in
      elim (Bool-cases (c == 58)) [
        | inl f ↦ ([], part ∷ parts, rw (e, f) refl)
        | inr f ↦ (c ∷ part, parts, rw (e, f) refl)
      ]

  pub split_colons-append :
      (s rest : Text) → HasNoColon s → split_colons (s ++ 58 ∷ rest) ≡ s ∷ split_colons rest
  unfolding split_colons
  split_colons-append [] rest h = let (part, parts, e) = some_part rest in rw (e, split_colons) refl
  split_colons-append (c ∷ s) rest h = rw (split_colons-append s rest h.1, h.0) refl

  pub split_colons-single : (s : Text) → HasNoColon s → split_colons s ≡ s ∷ []
  unfolding split_colons
  split_colons-single [] h = refl
  split_colons-single (c ∷ s) h = rw (split_colons-single s h.1, h.0) refl

  -- The message of RegisterPublicIP, with an id of at least eight bytes and no colon in any part,
  -- enters the IP and the port under the id and leaves every other id as it was, if Atoi undoes
  -- Itoa on the port.
  pub process_incoming_message_registers :
      (now : ℕ) (node_id ip : Text) (port : ℤ) (addr : UdpAddr) (peers : List (Text × PeerInfo))
      (other : Text)
      → 8 ≤ length node_id
      → HasNoColon node_id
      → HasNoColon ip
      → HasNoColon (itoa port)
      → atoi (itoa port) ≡ port
      → (o : Outcome) × (process_incoming_message now (register_message node_id ip port) addr peers
          ≡ some o)
        × (lookup other (Outcome.registered_peers o) ≡ (
            if text_eq node_id other
            then some (record { node_id = node_id; ip = ip; port = port; last_seen = now })
            else lookup other peers))
  unfolding process_incoming_message
  process_incoming_message_registers now node_id ip port addr peers other h a b c d =
      let msg = register_message node_id ip port in
      let parts : split_colons msg ≡ codes "REGISTER" ∷ node_id ∷ ip ∷ itoa port ∷ [] =
        split_colons-append (codes "REGISTER") (node_id ++ (58 ∷ (ip ++ (58 ∷ itoa port))))
          (refl, (refl, (refl, (refl, (refl, (refl, (refl, (refl, tt))))))))
        ∙ ap (◌∷◌ (codes "REGISTER")) (
            split_colons-append node_id (ip ++ (58 ∷ itoa port)) a
            ∙ ap (◌∷◌ node_id) (
                split_colons-append ip (itoa port) b
                ∙ ap (◌∷◌ ip) (split_colons-single (itoa port) c))) in
      let long : ltb (length node_id) 8 ≡ false = ground (arith, h) in
      (
        record {
          registered_peers =
              insert node_id (record { node_id = node_id; ip = ip; port = port; last_seen = now })
                peers;
          written = [];
        },
        rw (parts, process_incoming_message) (rw d (ground (arith, long))),
        lookup-insert node_id other _ peers,
      )
