-- ===== src/Core/Network.antt =====
-- initP2P of src/core/node.go: what a node starts on the network, and in which order it sends. The
-- outcomes of the socket, of the STUN exchange and of the writes are told by a Surroundings record.
use web5_mesh.Base.{
  ℕ, ◌≡◌, refl, ap, ◌∙◌, Bool, true, Option, none, some, List, [], ◌∷◌, ◌++◌, arith, if◌then◌else◌,
}
use web5_mesh.Base.Int.{ℤ, pos}
use web5_mesh.Base.Classes.{Text}
use web5_mesh.Base.Bytes.{codes}
use web5_mesh.Crypto.Identity.{Ed25519, Identity, new_identity, get_did_string, verify-sign}
use web5_mesh.P2p.Bootstrap
use web5_mesh.P2p.Bucket.{UdpAddr}
use web5_mesh.P2p.HolePunch.{
  PeerInfo, process_incoming_message, register, split_colons, split_colons-append, some_part,
}
use web5_mesh.P2p.Kademlia
use web5_mesh.P2p.Kademlia.{Kademlia}
use web5_mesh.P2p.Nat.{Exchange, discover_public_ip, new_nat_traversal}
use web5_mesh.P2p.Puncher.{new_hole_puncher, set_node_info, register_public_ip}

-- Whether the socket opens, the id that GenerateNodeIDFromPubKey finds, the exchange with the STUN
-- server, net.ResolveUDPAddr, and the writes to the seeds that fail.
pub record Surroundings : Type 0 where
  pub socket_opens : Bool
  pub local_id : Text
  pub exchange : Exchange
  pub resolve : Text → Option UdpAddr
  pub fails : ℕ → Bool

-- The lighthouse, which is also the only seed, and the STUN server.
abbrev pub lighthouse : Text
lighthouse = codes "192.168.1.110:4245"

abbrev pub stun_server : Text
stun_server = codes "stun.l.google.com:19302"

-- What initP2P leaves and sends: the routing table, the address that the handshake's goroutine
-- starts for, the registration with where it goes, and the datagrams to the seeds.
pub record Startup : Type 0 where
  pub kademlia : Option Kademlia
  pub handshake : Option UdpAddr
  pub registration : Option (Text × Option UdpAddr)
  pub seeded : List (Text × UdpAddr)

-- strconv, net.ParseIP and net.IP's String.
module _ (atoi : Text → ℤ) (itoa : ℤ → Text) (parse_ip : Text → Option Text)
    (ip_string : Text → Text) where
  -- The registration of a node with this DID, if its address is discovered.
  unfoldable pub registration_of : Surroundings → Text → Option (Text × Option UdpAddr)
  unfolding discover_public_ip new_nat_traversal new_hole_puncher set_node_info register_public_ip
  registration_of x did =
      let (nat, found) = discover_public_ip x.exchange (new_nat_traversal stun_server) in
      if found
      then (let ip = ip_string nat.public_ip in
          let port = pos nat.public_port in
          some (
            register_public_ip atoi itoa parse_ip
              (set_node_info did ip port (new_hole_puncher x.resolve lighthouse)) ip port))
      else none

  unfoldable pub init_p2p : Surroundings → Text → Startup
  unfolding registration_of Kademlia.new Kademlia.start Bootstrap.start
  init_p2p x did =
      if x.socket_opens
      then record {
        kademlia = some (Kademlia.start (Kademlia.new x.local_id));
        handshake = x.resolve lighthouse;
        registration = registration_of x did;
        seeded = Bootstrap.start x.resolve x.fails (lighthouse ∷ []);
      }
      else record { kademlia = none; handshake = none; registration = none; seeded = [] }

  -- A DID has colons, at which the lighthouse splits the message: it takes "did" for the id.
  split_registration :
      (hash rest : Text)
      → (part : Text) × (parts : List Text) × (split_colons
            (codes "REGISTER:" ++ ((codes "did:maia" ++ 58 ∷ hash) ++ 58 ∷ rest))
          ≡ codes "REGISTER" ∷ codes "did" ∷ codes "maia" ∷ part ∷ parts)
  split_registration hash rest =
      let (part, parts, e) = some_part atoi itoa (hash ++ 58 ∷ rest) in
      (
        part,
        parts,
        split_colons-append atoi itoa (codes "REGISTER")
              (codes "did:maia" ++ (58 ∷ (hash ++ 58 ∷ rest)))
              (refl, (refl, (refl, (refl, (refl, (refl, (refl, (refl, tt))))))))
            ∙ ap (◌∷◌ (codes "REGISTER")) (
                split_colons-append atoi itoa (codes "did")
                  (codes "maia" ++ (58 ∷ (hash ++ 58 ∷ rest))) (refl, (refl, (refl, tt)))
                ∙ ap (◌∷◌ (codes "did")) (
                    split_colons-append atoi itoa (codes "maia") (hash ++ 58 ∷ rest)
                      (refl, (refl, (refl, (refl, tt))))
                    ∙ ap (◌∷◌ (codes "maia")) e)),
      )

  registration_panics :
      (now : ℕ) (hash rest : Text) (addr : UdpAddr) (peers : List (Text × PeerInfo))
      → process_incoming_message atoi itoa now
          (codes "REGISTER:" ++ ((codes "did:maia" ++ 58 ∷ hash) ++ 58 ∷ rest))
          addr
          peers
        ≡ none
  unfolding process_incoming_message register
  registration_panics now hash rest addr peers =
      let (part, parts, e) = split_registration hash rest in
      rw (e, process_incoming_message) (ground arith)

  -- The registration that a node with a new identity sends, its public address being discovered,
  -- makes the lighthouse panic when it is processed, whoever is registered there.
  pub process_incoming_message-init_p2p :
      (E : Ed25519) (sha256 base58 : Text → Text) (created now : ℕ) (r : Ed25519.Entropy E)
      (name : Text) (id : Identity) (x : Surroundings) (addr : UdpAddr)
      (peers : List (Text × PeerInfo))
      → new_identity E sha256 base58 created r name ≡ some id
      → x.socket_opens ≡ true
      → (discover_public_ip x.exchange (new_nat_traversal stun_server)).1 ≡ true
      → (msg : Text) × ((init_p2p x (get_did_string E sha256 base58 id)).registration
          ≡ some (msg, x.resolve lighthouse))
        × (process_incoming_message atoi itoa now msg addr peers ≡ none)
  unfolding init_p2p registration_of register_public_ip set_node_info new_hole_puncher
  process_incoming_message-init_p2p E sha256 base58 created now r name id x addr peers h opens
        found =
      let nat = (discover_public_ip x.exchange (new_nat_traversal stun_server)).0 in
      let rest = ip_string nat.public_ip ++ 58 ∷ itoa (pos nat.public_port) in
      let (public_key, _, _, _, _, same) = verify-sign E sha256 base58 created r name [] id h in
      let hash = base58 (sha256 public_key) in
      (
        codes "REGISTER:" ++ ((codes "did:maia" ++ 58 ∷ hash) ++ 58 ∷ rest),
        rw (opens, init_p2p, found, same) refl,
        registration_panics now hash rest addr peers,
      )
