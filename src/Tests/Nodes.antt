-- ===== src/Tests/Nodes.antt =====
-- Runs of the handshake of src/p2p/noise.go, of punches (src/p2p/holepunch.go) and of nodes
-- (src/core/node.go).
use web5_mesh.Base.{
  ℕ, arith, zero, suc, ◌<◌, any, if◌then◌else◌, ◌*◌, ◌≡◌, ◌⊎◌, inr, refl, Bool, true, false, none,
  some, [], ◌∷◌, ◌++◌, length, replicate, take, drop,
}
use web5_mesh.Base.Classes.{Text, Text_eq, text_eq, text_eq_iff}
use web5_mesh.Base.Int.{ℤ, pos, negsuc}
use web5_mesh.Base.Bytes.{codes}
use web5_mesh.Base.Map.{lookup}
use web5_mesh.Config.{default_config, validate}
use web5_mesh.Crypto.Identity.{Ed25519, Identity, new_identity, get_did_string}
use web5_mesh.Pow.Gas.{new_pow_manager}
use web5_mesh.P2p.Access.{hex, hex_digit}
use web5_mesh.Pow.Bits.{IsBytes}
use web5_mesh.Base.Map.{insert}
use web5_mesh.P2p.Bucket.{UdpAddr}
use web5_mesh.P2p.HolePunch as Lighthouse
use web5_mesh.P2p.HolePunch.{PeerInfo}
use web5_mesh.P2p.Transport.{TransportUdp}
use web5_mesh.P2p.NoiseSession
use web5_mesh.P2p.NoiseSession.{NoiseLibrary, Io, Handshake}
use web5_mesh.P2p.NoiseSession.Agreement
use web5_mesh.Storage.Store
use web5_mesh.Storage.Persistence.{store_closed, iterate}
use web5_mesh.Storage.ReplicatedFs
use web5_mesh.Storage.ReplicatedFs.{done, failed, ReplicatedFs}
use web5_mesh.Storage.ReplicatedFs.Files
use web5_mesh.Core.Node
use web5_mesh.Core.Node.{SovereignNode}
use web5_mesh.Core.Lifecycle
use web5_mesh.Core.Network
use web5_mesh.P2p.Nat.{discover_public_ip, first_failure}
use web5_mesh.Tests.Samples.{checksum, tagged}
use web5_mesh.Tests.Database.{database, Sorted, from}

abbrev address : UdpAddr
address = record { ip = 10 ∷ 0 ∷ 0 ∷ 1 ∷ []; port = 4242; zone = [] }

abbrev ip_string : UdpAddr → Text
ip_string a = UdpAddr.ip a

-- A handshake whose state is the last message.
agrees :
    (i i' i'' r r' r'' first second : Text)
    → ◌≡◌ {A = Text ⊎ (Text × Text)} (inr (120 ∷ i, 120 ∷ i)) (inr (first, i'))
    → ◌≡◌ {A = Text ⊎ Text} (inr first) (inr r')
    → ◌≡◌ {A = Text ⊎ (Text × Text)} (inr (120 ∷ r', 120 ∷ r')) (inr (second, r''))
    → ◌≡◌ {A = Text ⊎ Text} (inr second) (inr i'')
    → i'' ≡ r''
agrees i i' i'' r r' r'' first second a b c d = cc

abbrev echo : NoiseLibrary
echo = record {
  HandshakeState = Text;
  Error = Text;
  new_handshake_state = λ initiator key remote. inr [];
  write_message = λ h. inr (120 ∷ h, 120 ∷ h);
  read_message = λ h m. inr m;
  channel_binding = λ h. h;
  binding_agrees = agrees;
}

abbrev plain : TransportUdp
plain = record { session_key = []; session_ready = false; is_relay = false }

abbrev session : NoiseSession.NoiseSession echo ip_string checksum checksum tagged
session = record {
  transport = plain;
  pow_manager = new_pow_manager;
  local_key = [];
  session_key = [];
  ready = false;
}

abbrev io : Io
io = record { nonce = none; send_fails = false; datagram = some (120 ∷ 120 ∷ [], address); now = 0 }

handshake_agrees_example :
    let i = NoiseSession.initiate_ik echo ip_string checksum checksum tagged io session none in
    let r =
      NoiseSession.respond_ik echo ip_string checksum checksum tagged io session (120 ∷ []) none in
    (i.session.session_key ≡ r.session.session_key)
    × (i.session.transport.session_key ≡ r.session.transport.session_key)
    × (i.session.transport.session_ready ≡ true)
    × (r.session.transport.session_ready ≡ true)
    × (i.session.ready ≡ true)
    × (r.session.ready ≡ true)
unfolding NoiseSession.initiate_ik NoiseSession.respond_ik
handshake_agrees_example =
    Agreement.handshake_agrees echo ip_string checksum checksum tagged io io session session none
      none (120 ∷ []) (120 ∷ 120 ∷ []) address refl refl refl refl refl refl refl

-- A handshake with its own key and another, and a message with the other key in its place.
abbrev own_key : Text
own_key = replicate 32 7

abbrev other_key : Text
other_key = replicate 32 9

abbrev fresh : Handshake echo ip_string checksum checksum tagged
fresh = record { has_identity = true; acl = (hex own_key, true) ∷ []; noise = session }

abbrev guarded : Handshake echo ip_string checksum checksum tagged
guarded = record fresh { acl = (hex own_key, true) ∷ (hex other_key, true) ∷ [] }

abbrev greeting : Text
greeting = replicate 37 9

bytes : (n b : ℕ) → b < 256 → IsBytes (replicate n b)
bytes zero b h = tt
bytes (suc n) b h = (h, bytes n b h)

respond_gate_example :
    let r =
      NoiseSession.respond_ik echo ip_string checksum checksum tagged io session greeting none in
    NoiseSession.respond echo ip_string checksum checksum tagged io guarded greeting ≡ (
      if any (λ key. text_eq key (take 32 (drop 4 greeting))) (own_key ∷ other_key ∷ [])
      then (record guarded { noise = r.session }, r.error)
      else (guarded, none))
unfolding NoiseSession.new_handshake NoiseSession.add_keys insert hex hex_digit
respond_gate_example =
    Agreement.respond_gate echo ip_string checksum checksum tagged io session own_key
      (other_key ∷ []) fresh guarded greeting (bytes 32 7 (omega arith))
      (bytes 32 9 (omega arith), tt) (bytes 32 9 (omega arith)) refl refl (omega arith)

abbrev unary : ℤ → Text
unary (pos n) = replicate n 49
unary (negsuc n) = []

abbrev read_unary : Text → ℤ
read_unary s = pos (length s)

abbrev target : PeerInfo
target = record { node_id = codes "target-id"; ip = codes "10.0.0.2"; port = pos 2; last_seen = 0 }

-- Keys that are fixed texts, and signatures that repeat the message.
abbrev fixed : Ed25519
fixed = record {
  Entropy = Unit;
  generate_key = λ r. some (codes "public-key", codes "private-key");
  sign = λ key message. message;
  verify = λ key message signature. text_eq message signature;
  verify-sign = λ r public_key private_key message h. (text_eq_iff message message).1 refl;
}

abbrev same : Text → Text
same s = s

abbrev open_db : Text → Bool → Bool → ℤ → ℤ → ℤ → Text ⊎ Sorted
open_db path a b c d e = inr (record { entries = []; ascends = tt })

abbrev identity : Identity
identity = record {
  did = record { method = codes "did:maia"; hash = checksum (codes "public-key") };
  private_key = some (codes "private-key");
  public_key = some (codes "public-key");
  name = codes "MaIA-Mesh-Node";
  created_at = 7;
  last_seen = 7;
  reputation = 100;
  signature_curve = codes "ed25519";
}

abbrev files : ReplicatedFs database
files = record {
  store = record {
    db = record { entries = []; ascends = tt };
    path = codes "./data/badger";
    closed = false;
  };
  crdt_store = Store.new;
  files = [];
  chunks = [];
  path_index = [];
  replication_factor = 3;
  chunk_size = 1024 * 1024;
  sync_in_progress = false;
  last_sync_time = 0;
}

abbrev node : SovereignNode database fixed checksum same
node = record {
  identity = identity;
  did = codes "did:maia" ++ 58 ∷ checksum (codes "public-key");
  config = validate default_config;
  storage = files;
  start_time = 7;
  stop_closed = false;
  is_running = false;
  kademlia = none;
  transport_closed = false;
}

made : Node.new database fixed checksum same 7 tt open_db (λ cfg id. none) none ≡ inr node
unfolding Node.new iterate from
made = refl

new-IsNew_example : Lifecycle.IsNew database fixed checksum same node
new-IsNew_example =
    Lifecycle.new-IsNew database fixed checksum same 7 tt open_db (λ cfg id. none) none node made

abbrev running : SovereignNode database fixed checksum same
running = record node { is_running = true }

stop-start_example :
    (m : SovereignNode database fixed checksum same) × (Node.stop database fixed checksum same
        running
      ≡ some m)
    × ((Node.start database fixed checksum same m).1 ≡ none)
    × ((Node.start database fixed checksum same m).0.is_running ≡ true)
    × (Node.stop database fixed checksum same (Node.start database fixed checksum same m).0 ≡ none)
    × (let w =
          Files.write_file database checksum
            (λ n. n ∷ [])
            (λ n. n)
            (Node.start database fixed checksum same m).0.storage
            (codes "note")
            (codes "abc")
            (codes "alice") in
        (w.1 ≡ failed (ReplicatedFs.chunk_not_persisted store_closed))
        × (Files.read_file database w.0 (codes "note") ≡ done []))
unfolding lookup
stop-start_example =
    Lifecycle.stop-start database fixed checksum same checksum (λ n. n ∷ []) (λ n. n) running
      (codes "note") (codes "abc") (codes "alice") refl refl refl
      (λ h. let wrong : false ≡ true = (text_eq_iff (codes "abc") []).1 h in cc)

-- A network on which everything succeeds.
abbrev around : Network.Surroundings
around = record {
  socket_opens = true;
  local_id = codes "id";
  exchange = record {
    fails = λ s. false;
    xor_address = some (codes "10.0.0.9", 5);
    mapped_address = none;
  };
  resolve = λ s. some address;
  fails = λ n. false;
}

process_incoming_message-init_p2p_example :
    (msg : Text) × ((Network.init_p2p read_unary unary some same around node.did).registration
      ≡ some (msg, some address))
    × (Lighthouse.process_incoming_message read_unary unary 7 msg address
          ((codes "target-id", target) ∷ [])
        ≡ none)
unfolding discover_public_ip first_failure new_identity get_did_string
process_incoming_message-init_p2p_example =
    Network.process_incoming_message-init_p2p read_unary unary some same fixed checksum same 7 7 tt
      (codes "MaIA-Mesh-Node") identity around address ((codes "target-id", target) ∷ []) refl refl
      refl
