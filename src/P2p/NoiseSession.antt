-- ===== src/P2p/NoiseSession.antt =====
-- src/p2p/noise.go, NoiseSession, and src/p2p/handshake.go, Handshake. The package flynn/noise is
-- the record NoiseLibrary below, BLAKE2b a function. What the socket does in a call is told by an
-- Io record: the bytes for the nonce, the error of a send, and the datagram of the read.
pub mod Calls
pub mod Agreement
use web5_mesh.Base.{
  ℕ, ◌≡◌, ◌⊎◌, inl, inr, Bool, true, false, not, ◌&&◌, Option, none, some, List, [], ◌∷◌, ltb,
  if◌then◌else◌, length, take, drop, replicate,
}
use web5_mesh.Base.Classes.{Text}
use web5_mesh.Crypto.Aead.{Aead}
use web5_mesh.Pow.Gas.{PowManager}
use web5_mesh.P2p.Bucket.{UdpAddr}
use web5_mesh.P2p.Access.{Acl, new_acl, add_authorized_key, check_handshake}
use web5_mesh.P2p.Transport.{TransportUdp, TransportError, set_session_key, read_from, write_to}

-- Handshake states of the pattern IK. Two states of one handshake, the first of which has read what
-- the second has written after reading what the first wrote, have one channel binding.
pub record NoiseLibrary : Type 1 where
  pub HandshakeState : Type 0
  pub Error : Type 0
  pub new_handshake_state : Bool → Text → Option Text → Error ⊎ HandshakeState
  pub write_message : HandshakeState → Error ⊎ (Text × HandshakeState)
  pub read_message : HandshakeState → Text → Error ⊎ HandshakeState
  pub channel_binding : HandshakeState → Text
  pub binding_agrees :
      (i i' i'' r r' r'' : HandshakeState) (first second : Text)
      → write_message i ≡ inr (first, i')
      → read_message r first ≡ inr r'
      → write_message r' ≡ inr (second, r'')
      → read_message i' second ≡ inr i''
      → channel_binding i'' ≡ channel_binding r''

-- What fails in a handshake; E is the library's own error.
pub data SessionError (E : Type 0) : Type 0 where
  noise_failed : E → SessionError E
  not_written : SessionError E
  not_read : TransportError → SessionError E

pub record Io : Type 0 where
  pub nonce : Option Text
  pub send_fails : Bool
  pub datagram : Option (Text × UdpAddr)
  pub now : ℕ

module _ (N : NoiseLibrary) (ip_string : UdpAddr → Text) (sha256 blake2b : Text → Text)
    (aead : Aead) where
  -- The session with the transport that it writes to, and the manager of tolls of the package. The
  -- handshake state, which no call but the one that makes it reads, and the fixed cipher suite are
  -- left out.
  pub record NoiseSession : Type 0 where
    pub transport : TransportUdp
    pub pow_manager : PowManager
    pub local_key : Text
    pub session_key : Text
    pub ready : Bool

  -- NewNoiseSession makes a key pair of its own and does not use the static key it is given.
  unfoldable pub new : TransportUdp → PowManager → Text → NoiseSession
  new transport pow_manager generated = record {
    transport = transport;
    pow_manager = pow_manager;
    local_key = generated;
    session_key = replicate 32 0;
    ready = false;
  }

  abbrev pub Failure : Type 0
  Failure = SessionError (NoiseLibrary.Error N)

  -- A call's session, its error, and the datagrams it has sent.
  pub record Reply : Type 0 where
    pub session : NoiseSession
    pub error : Option Failure
    pub sent : List Text

  -- The last lines of both handshakes.
  unfoldable pub complete : NoiseSession → NoiseLibrary.HandshakeState N → NoiseSession
  unfolding set_session_key
  complete n hs =
      let key = blake2b (N.channel_binding hs) in
      record n { session_key = key; ready = true; transport = set_session_key key n.transport }

  -- n.transport.WriteTo: the datagram that goes out, none if it fails.
  unfoldable pub send : Io → NoiseSession → Text → Option Text
  unfolding write_to
  send io n msg = elim (write_to ip_string sha256 aead io.nonce n.transport msg) [
    | inl e ↦ none
    | inr datagram ↦ if io.send_fails then none else some datagram
  ]

  -- InitiateIK after its message has been sent.
  unfoldable pub await : Io → NoiseSession → NoiseLibrary.HandshakeState N → Text → Reply
  unfolding complete read_from
  await io n hs datagram =
      let r = read_from ip_string sha256 aead io.now n.transport n.pow_manager io.datagram in
      let heard : NoiseSession = record n { pow_manager = r.0 } in
      elim r.1 [
        | inl e ↦ record { session = heard; error = some (not_read e); sent = datagram ∷ [] }
        | inr packet ↦ elim (N.read_message hs packet.0) [
          | inl e ↦ record { session = heard; error = some (noise_failed e); sent = datagram ∷ [] }
          | inr hs' ↦ record { session = complete heard hs'; error = none; sent = datagram ∷ [] }
        ]
      ]

  unfoldable pub initiate_ik : Io → NoiseSession → Option Text → Reply
  unfolding await send
  initiate_ik io n remote_static = elim (N.new_handshake_state true n.local_key remote_static) [
    | inl e ↦ record { session = n; error = some (noise_failed e); sent = [] }
    | inr hs ↦ elim (N.write_message hs) [
      | inl e ↦ record { session = n; error = some (noise_failed e); sent = [] }
      | inr (msg, hs') ↦ elim (send io n msg) [
        | none ↦ record { session = n; error = some not_written; sent = [] }
        | some datagram ↦ await io n hs' datagram
      ]
    ]
  ]

  -- RespondIK after it has read the message.
  unfoldable pub answer : Io → NoiseSession → NoiseLibrary.HandshakeState N → Reply
  unfolding complete send
  answer io n hs = elim (N.write_message hs) [
    | inl e ↦ record { session = n; error = some (noise_failed e); sent = [] }
    | inr (msg, hs') ↦ elim (send io n msg) [
      | none ↦ record { session = n; error = some not_written; sent = [] }
      | some datagram ↦ record { session = complete n hs'; error = none; sent = datagram ∷ [] }
    ]
  ]

  unfoldable pub respond_ik : Io → NoiseSession → Text → Option Text → Reply
  unfolding answer
  respond_ik io n content remote_static =
      elim (N.new_handshake_state false n.local_key remote_static) [
        | inl e ↦ record { session = n; error = some (noise_failed e); sent = [] }
        | inr hs ↦ elim (N.read_message hs content) [
          | inl e ↦ record { session = n; error = some (noise_failed e); sent = [] }
          | inr hs' ↦ answer io n hs'
        ]
      ]

  -- Handshake: the session behind a whitelist. `has_identity` is that the identity is not nil.
  pub record Handshake : Type 0 where
    pub has_identity : Bool
    pub acl : Acl
    pub noise : NoiseSession

  -- NewHandshake of an identity that is not nil, of which it takes the private key; `none` is the
  -- panic of AddAuthorizedKey.
  unfoldable pub new_handshake : NoiseSession → Text → Option Handshake
  unfolding add_authorized_key
  new_handshake noise public_key = elim (add_authorized_key public_key new_acl) [
    | none ↦ none
    | some acl ↦ some (record { has_identity = true; acl = acl; noise = noise })
  ]

  -- AddAuthorizedKey, and calls of it one after the other; `none` is the panic of a short key.
  unfoldable pub add_key : Text → Handshake → Option Handshake
  unfolding add_authorized_key
  add_key key h = elim (add_authorized_key key h.acl) [
    | none ↦ none
    | some acl ↦ some (record h { acl = acl })
  ]

  unfoldable pub add_keys : List Text → Handshake → Option Handshake
  unfolding add_key
  add_keys [] h = some h
  add_keys (key ∷ keys) h = elim (add_key key h) [ none ↦ none | some g ↦ add_keys keys g ]

  unfoldable pub initiate : Io → Handshake → Handshake × Option Failure
  unfolding initiate_ik
  initiate io h = let r = initiate_ik io h.noise none in (record h { noise = r.session }, r.error)

  -- Respond turns a message of more than 36 bytes down, without an error, if its bytes 4 to 35 are
  -- no authorized key.
  unfoldable pub is_rejected : Handshake → Text → Bool
  unfolding check_handshake
  is_rejected h content =
      (ltb 36 (length content) && h.has_identity)
      && not (check_handshake (take 32 (drop 4 content)) h.acl)

  unfoldable pub respond : Io → Handshake → Text → Handshake × Option Failure
  unfolding respond_ik is_rejected
  respond io h content =
      if is_rejected h content
      then (h, none)
      else (let r = respond_ik io h.noise content none in (record h { noise = r.session }, r.error))
