-- ===== src/P2p/NoiseSession/Agreement.antt =====
-- What the handshakes of src/p2p/noise.go and src/p2p/handshake.go leave: a session with a key that
-- both ends have, or no session.
use web5_mesh.Base.{
  ◌<◌, List, All, any, ◌||◌, Option-cases, ℕ, ◌≡◌, inl, inr, refl, sym, ap, ◌∙◌, Bool, true, false,
  not, Option, none, some, [], ◌∷◌, arith, if◌then◌else◌, Bool-cases, length, ltb, take, drop,
}
use web5_mesh.Base.Classes.{Text, Text_eq, text_eq}
use web5_mesh.Crypto.Aead.{Aead}
use web5_mesh.P2p.Bucket.{UdpAddr}
use web5_mesh.P2p.Access.{
  Acl, new_acl, add_authorized_key, check_handshake, is_authorized,
  check_handshake-add_authorized_key,
}
use web5_mesh.Base.Map.{lookup}
use web5_mesh.Pow.Bits.{IsBytes}
use web5_mesh.P2p.Transport.{set_session_key, read_from, write_to, open_packet, read_from_delivers}
use web5_mesh.P2p.NoiseSession.{
  NoiseLibrary, Io, NoiseSession, send, initiate_ik, respond_ik, Handshake, is_rejected, respond,
  new_handshake, add_key, add_keys,
}
use web5_mesh.P2p.NoiseSession.Calls.{initiate_ik_cases, respond_ik_cases}

module _ (N : NoiseLibrary) (ip_string : UdpAddr → Text) (sha256 blake2b : Text → Text)
    (aead : Aead) where
  abbrev Session : Type 0
  Session = NoiseSession N ip_string sha256 blake2b aead

  -- A transport without a session sends the message itself ...
  plain_send :
      (io : Io) (n : Session) (msg datagram : Text)
      → n.transport.session_ready ≡ false
      → send N ip_string sha256 blake2b aead io n msg ≡ some datagram
      → msg ≡ datagram
  unfolding send write_to
  plain_send io n msg datagram h s = ground (arith, rw (h, send) at s)

  -- ... and reads what arrives as it is.
  plain_read :
      (now : ℕ) (n : Session) (bytes : Text) (addr : UdpAddr) (packet : Text × UdpAddr)
      → n.transport.session_ready ≡ false
      → (read_from ip_string sha256 aead now n.transport n.pow_manager (some (bytes, addr))).1
        ≡ inr packet
      → packet.0 ≡ bytes
  unfolding open_packet
  plain_read now n bytes addr packet h r =
      let delivered =
        read_from_delivers ip_string sha256 aead now n.transport n.pow_manager bytes addr in
      let plain : open_packet ip_string sha256 aead n.transport bytes ≡ bytes =
        rw (h, open_packet) refl in
      let same : inr (
        if n.transport.is_relay then bytes else open_packet ip_string sha256 aead n.transport bytes,
        addr,
      )
          ≡ inr packet =
        sym delivered ∙ r in
      ground (arith, same, plain)

  head_injective : (a b : Text) → a ∷ [] ≡ b ∷ [] → a ≡ b
  head_injective a b h = cc

  -- If the call of InitiateIK and the call of RespondIK that reads its message both succeed, and the
  -- initiator reads the responder's answer, both from transports without a session, then the two
  -- sessions are ready with one key, and their transports with the same key.
  pub handshake_agrees :
      (io io' : Io) (n m : Session) (remote remote' : Option Text) (first second : Text)
      (addr : UdpAddr)
      → n.transport.session_ready ≡ false
      → m.transport.session_ready ≡ false
      → let i = initiate_ik N ip_string sha256 blake2b aead io n remote in
        let r = respond_ik N ip_string sha256 blake2b aead io' m first remote' in
        i.error ≡ none
        → r.error ≡ none
        → i.sent ≡ first ∷ []
        → r.sent ≡ second ∷ []
        → io.datagram ≡ some (second, addr)
        → (i.session.session_key ≡ r.session.session_key)
          × (i.session.transport.session_key ≡ r.session.transport.session_key)
          × (i.session.transport.session_ready ≡ true)
          × (r.session.transport.session_ready ≡ true)
          × (i.session.ready ≡ true)
          × (r.session.ready ≡ true)
  unfolding set_session_key
  handshake_agrees io io' n m remote remote' first second addr p p' ok ok' sent sent' read =
      let i = initiate_ik N ip_string sha256 blake2b aead io n remote in
      let r = respond_ik N ip_string sha256 blake2b aead io' m first remote' in
      elim (initiate_ik_cases N ip_string sha256 blake2b aead io n remote) [
        | inl (e, h, u) ↦ absurd (cc (h, ok))
        | inr (_, a) ↦ elim (respond_ik_cases N ip_string sha256 blake2b aead io' m first remote') [
          | inl (e, h, u) ↦ absurd (cc (h, ok'))
          | inr (_, b) ↦
              let (from, same, went) = a.went in
              let (to, same', went') = b.went in
              let out : a.msg ≡ first =
                plain_send io from a.msg a.datagram (rw same p) went
                ∙ head_injective a.datagram first (sym a.sent ∙ sent) in
              let back : b.msg ≡ second =
                plain_send io' to b.msg b.datagram (rw same' p') went'
                ∙ head_injective b.datagram second (sym b.sent ∙ sent') in
              let heard : a.packet.0 ≡ second =
                plain_read io.now n second addr a.packet p (rw read at a.heard) in
              let binding =
                N.binding_agrees a.hs a.hs' a.hs'' b.hs b.hs' b.hs'' a.msg b.msg a.wrote
                  (rw out b.read) b.wrote (rw (back, ← heard) a.read) in
              let key : blake2b (N.channel_binding a.hs'') ≡ blake2b (N.channel_binding b.hs'') =
                ap blake2b binding in
              (
                a.left.key ∙ key ∙ sym b.left.key,
                rw (a.left.transport, b.left.transport) key,
                rw a.left.transport refl,
                rw b.left.transport refl,
                a.left.ready,
                b.left.ready,
              )
        ]
      ]

  -- What AddAuthorizedKey does for a key that is asked for, and what it leaves alone.
  Adds :
      List Text
      → Text
      → Handshake N ip_string sha256 blake2b aead
      → Handshake N ip_string sha256 blake2b aead
      → Type 0
  Adds keys other h after =
      (check_handshake other after.acl
        ≡ (any (λ key. text_eq key other) keys || check_handshake other h.acl))
      × (after.has_identity ≡ h.has_identity)
      × (after.noise ≡ h.noise)

  short_key :
      (key : Text) (acl : Acl) → ltb (length key) 8 ≡ true → add_authorized_key key acl ≡ none
  unfolding add_authorized_key
  short_key key acl h = rw h refl

  added :
      (key other : Text) (acl after : Acl)
      → IsBytes key
      → IsBytes other
      → add_authorized_key key acl ≡ some after
      → check_handshake other after ≡ (text_eq key other || check_handshake other acl)
  added key other acl after v w e = elim (Bool-cases (ltb (length key) 8)) [
    | inl short ↦ absurd (cc (short_key key acl short, e))
    | inr long ↦
        let (x, f, g) =
          check_handshake-add_authorized_key key other acl (ground (arith, long)) v w in
        let same : x ≡ after = cc (e, f) in rw (← same) g
  ]

  add_keys-Adds :
      (keys : List Text) (other : Text) (h after : Handshake N ip_string sha256 blake2b aead)
      → All IsBytes keys
      → IsBytes other
      → add_keys N ip_string sha256 blake2b aead keys h ≡ some after
      → Adds keys other h after
  unfolding add_keys add_key Adds
  add_keys-Adds [] other h after v w e = let same : h ≡ after = cc in rw (← same) (refl, refl, refl)
  add_keys-Adds (key ∷ keys) other h after v w e =
      elim (Option-cases (add_authorized_key key h.acl)) [
        | inl q ↦ absurd (cc (rw (q, add_keys) at e))
        | inr (acl, q) ↦
            let (known, who, noise) =
              add_keys-Adds keys other (record h { acl = acl }) after v.1 w
                (rw (q, add_keys) at e) in
            (ground (arith, known, added key other h.acl acl v.0 w q), who, noise)
      ]

  new_handshake-Adds :
      (noise : Session) (public_key other : Text) (made : Handshake N ip_string sha256 blake2b aead)
      → IsBytes public_key
      → IsBytes other
      → new_handshake N ip_string sha256 blake2b aead noise public_key ≡ some made
      → (check_handshake other made.acl ≡ text_eq public_key other)
        × (made.has_identity ≡ true)
        × (made.noise ≡ noise)
  unfolding new_handshake check_handshake is_authorized lookup
  new_handshake-Adds noise public_key other made v w e =
      elim (Option-cases (add_authorized_key public_key new_acl)) [
        | inl q ↦ absurd (cc (rw (q, new_handshake) at e))
        | inr (acl, q) ↦
            let known = added public_key other new_acl acl v w q in
            let same = rw (q, new_handshake) at e in
            let same_acl : made.acl ≡ acl = ground (arith, same) in
            (rw same_acl (ground (arith, known)), ground (arith, same), cc (same))
      ]

  rejects :
      (h : Handshake N ip_string sha256 blake2b aead) (content : Text) (known : Bool)
      → h.has_identity ≡ true
      → ltb 36 (length content) ≡ true
      → check_handshake (take 32 (drop 4 content)) h.acl ≡ known
      → is_rejected N ip_string sha256 blake2b aead h content ≡ not known
  unfolding is_rejected
  rejects h content known who long e = rw (who, long, e) refl

  answers :
      (io : Io) (h : Handshake N ip_string sha256 blake2b aead) (noise : Session) (content : Text)
      → h.noise ≡ noise
      → is_rejected N ip_string sha256 blake2b aead h content ≡ false
      → let r = respond_ik N ip_string sha256 blake2b aead io noise content none in
        respond N ip_string sha256 blake2b aead io h content
        ≡ (record h { noise = r.session }, r.error)
  unfolding respond
  answers io h noise content same e = rw (e, respond) (rw same refl)

  drops :
      (io : Io) (h : Handshake N ip_string sha256 blake2b aead) (content : Text)
      → is_rejected N ip_string sha256 blake2b aead h content ≡ true
      → respond N ip_string sha256 blake2b aead io h content ≡ (h, none)
  unfolding respond
  drops io h content e = rw (e, respond) refl

  -- Of a handshake of NewHandshake to which keys have been added, Respond answers a message of more
  -- than 36 bytes, by RespondIK, exactly if its bytes 4 to 35 are the identity's public key or one of
  -- the keys; otherwise it drops the message without an error and changes nothing.
  pub respond_gate :
      (io : Io) (noise : Session) (public_key : Text) (keys : List Text)
      (made h : Handshake N ip_string sha256 blake2b aead) (content : Text)
      → IsBytes public_key
      → All IsBytes keys
      → IsBytes (take 32 (drop 4 content))
      → new_handshake N ip_string sha256 blake2b aead noise public_key ≡ some made
      → add_keys N ip_string sha256 blake2b aead keys made ≡ some h
      → 36 < length content
      → let r = respond_ik N ip_string sha256 blake2b aead io noise content none in
        respond N ip_string sha256 blake2b aead io h content ≡ (
          if any (λ key. text_eq key (take 32 (drop 4 content))) (public_key ∷ keys)
          then (record h { noise = r.session }, r.error)
          else (h, none))
  unfolding Adds
  respond_gate io noise public_key keys made h content v vs w first more long =
      let other = take 32 (drop 4 content) in
      let (first_key, who, session) = new_handshake-Adds noise public_key other made v w first in
      let (all_keys, who', session') = add_keys-Adds keys other made h vs w more in
      let known : check_handshake other h.acl ≡ any (λ key. text_eq key other) (public_key ∷ keys) =
        ground (arith, all_keys, first_key) in
      let same : h.noise ≡ noise = session' ∙ session in
      let identity : h.has_identity ≡ true = who' ∙ who in
      let size : ltb 36 (length content) ≡ true = ground (arith, long) in
      let gate = rejects h content _ identity size known in
      elim (Bool-cases (any (λ key. text_eq key other) (public_key ∷ keys))) [
        | inl a ↦ rw a (answers io h noise content same (gate ∙ rw a refl))
        | inr a ↦ rw a (drops io h content (gate ∙ rw a refl))
      ]
