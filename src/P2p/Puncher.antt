-- ===== src/P2p/Puncher.antt =====
-- What a HolePuncher sends (src/p2p/holepunch.go): its own registration, its requests, and the SYN
-- datagrams of a punch. The lighthouse's side is in HolePunch.antt. The pauses between the SYN
-- datagrams are left out, as are the errors of WriteTo, which the source drops.
use mathlib.Core.List.{append_assoc}
use web5_mesh.Base.{
  ◌≡◌, ◌≤◌, refl, ap, ◌∙◌, false, ◌||◌, Option, some, List, [], ◌∷◌, ◌++◌, arith, ltb,
  if◌then◌else◌, length, replicate,
}
use web5_mesh.Base.Int.{ℤ, pos}
use web5_mesh.Base.Classes.{Text, Text_eq, text_eq}
use web5_mesh.Base.Bytes.{codes}
use web5_mesh.Base.Map.{lookup}
use web5_mesh.P2p.Bucket.{UdpAddr}
use web5_mesh.P2p.Messages.{HasNoColon}
use web5_mesh.P2p.HolePunch.{
  PeerInfo, request_punch, split_colons, split_colons-append, split_colons-single,
}

-- The address of a punch; net.ParseIP answers nil, none, for a text that is no IP.
pub record Target : Type 0 where
  pub ip : Option Text
  pub port : ℤ

pub record HolePuncher : Type 0 where
  pub faro_addr : Option UdpAddr
  pub node_id : Text
  pub node_ip : Text
  pub node_port : ℤ

unfoldable pub new_hole_puncher : (Text → Option UdpAddr) → Text → HolePuncher
new_hole_puncher resolve faro_addr = record {
  faro_addr = resolve faro_addr;
  node_id = [];
  node_ip = [];
  node_port = pos 0;
}

unfoldable pub set_node_info : Text → Text → ℤ → HolePuncher → HolePuncher
set_node_info node_id ip port h = record h { node_id = node_id; node_ip = ip; node_port = port }

module _ (atoi : Text → ℤ) (itoa : ℤ → Text) (parse_ip : Text → Option Text) where
  unfoldable pub register_public_ip : HolePuncher → Text → ℤ → Text × Option UdpAddr
  register_public_ip h public_ip public_port =
      (codes "REGISTER:" ++ (h.node_id ++ 58 ∷ (public_ip ++ 58 ∷ itoa public_port)), h.faro_addr)

  -- RequestPunch.
  unfoldable pub ask_punch : HolePuncher → Text → Text × Option UdpAddr
  ask_punch h target_id = (codes "PUNCH_REQUEST:" ++ (h.node_id ++ 58 ∷ target_id), h.faro_addr)

  unfoldable pub punch : Text → ℤ → List (Text × Target)
  punch target_ip target_port =
      replicate 5 (codes "SYN", record { ip = parse_ip target_ip; port = target_port })

  unfoldable pub send_punch_request : HolePuncher → Text → Text → ℤ → Text × Option UdpAddr
  send_punch_request h target_id target_ip target_port = (
    codes "PUNCH:"
        ++ (h.node_id
            ++ 58
              ∷ (h.node_ip
                  ++ 58
                    ∷ (itoa h.node_port
                        ++ 58 ∷ (target_id ++ 58 ∷ (target_ip ++ 58 ∷ itoa target_port))))),
    h.faro_addr,
  )

  -- HandlePunch on the parts of a message.
  unfoldable pub punch_parts : List Text → List (Text × Target)
  punch_parts (word ∷ target_id ∷ target_ip ∷ target_port ∷ initiator ∷ rest) =
      if text_eq word (codes "PUNCH")
      then replicate 3 (codes "SYN", record { ip = parse_ip target_ip; port = atoi target_port })
      else []
  punch_parts _ = []

  unfoldable pub handle_punch : Text → List (Text × Target)
  unfolding punch_parts split_colons
  handle_punch msg = punch_parts (split_colons msg)

  abbrev Plain : Text → Type 0
  Plain = HasNoColon

  split_five :
      (a b c d e : Text)
      → Plain a
      → Plain b
      → Plain c
      → Plain d
      → Plain e
      → split_colons (a ++ 58 ∷ (b ++ 58 ∷ (c ++ 58 ∷ (d ++ 58 ∷ e)))) ≡ a ∷ b ∷ c ∷ d ∷ e ∷ []
  split_five a b c d e p q r s t =
      split_colons-append atoi itoa a (b ++ 58 ∷ (c ++ 58 ∷ (d ++ 58 ∷ e))) p
      ∙ ap (◌∷◌ a) (
          split_colons-append atoi itoa b (c ++ 58 ∷ (d ++ 58 ∷ e)) q
          ∙ ap (◌∷◌ b) (
              split_colons-append atoi itoa c (d ++ 58 ∷ e) r
              ∙ ap (◌∷◌ c) (
                  split_colons-append atoi itoa d e s
                  ∙ ap (◌∷◌ d) (split_colons-single atoi itoa e t))))

  instruction_flat :
      (a b c d : Text)
      → codes "PUNCH:" ++ a ++ codes ":" ++ b ++ codes ":" ++ c ++ codes ":" ++ d
        ≡ codes "PUNCH" ++ 58 ∷ (a ++ 58 ∷ (b ++ 58 ∷ (c ++ 58 ∷ d)))
  instruction_flat a b c d = simp append_assoc

  -- The instruction that the lighthouse writes for a request for a registered peer makes HandlePunch
  -- send three SYN datagrams to the peer's IP and port, if the ids have at least eight bytes and no
  -- part has a colon, and Atoi undoes Itoa on the port.
  pub handle_punch-request_punch :
      (addr : UdpAddr) (initiator target_id : Text) (target : PeerInfo)
      (peers : List (Text × PeerInfo))
      → 8 ≤ length initiator
      → 8 ≤ length target_id
      → lookup target_id peers ≡ some target
      → HasNoColon initiator
      → HasNoColon target_id
      → HasNoColon (PeerInfo.ip target)
      → HasNoColon (itoa (PeerInfo.port target))
      → atoi (itoa (PeerInfo.port target)) ≡ PeerInfo.port target
      → (instruction : Text) × (request_punch atoi itoa addr
            (codes "PUNCH_REQUEST" ∷ initiator ∷ target_id ∷ [])
            peers
          ≡ some (record { registered_peers = peers; written = (instruction, addr) ∷ [] }))
        × (handle_punch instruction
            ≡ replicate 3 (
              codes "SYN",
              record { ip = parse_ip (PeerInfo.ip target); port = PeerInfo.port target },
            ))
  unfolding request_punch handle_punch punch_parts
  handle_punch-request_punch addr initiator target_id target peers h k found a b c d e =
      let ip = PeerInfo.ip target in
      let port = itoa (PeerInfo.port target) in
      let long : (ltb (length initiator) 8 || ltb (length target_id) 8) ≡ false = ground arith in
      let parts =
        split_five (codes "PUNCH") target_id ip port initiator
          (refl, (refl, (refl, (refl, (refl, tt))))) b c d a in
      (
        codes "PUNCH" ++ 58 ∷ (target_id ++ 58 ∷ (ip ++ 58 ∷ (port ++ 58 ∷ initiator))),
        rw (long, request_punch, found, instruction_flat target_id ip port initiator) refl,
        rw (parts, handle_punch, e) refl,
      )
