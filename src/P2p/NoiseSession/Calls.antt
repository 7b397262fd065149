-- ===== src/P2p/NoiseSession/Calls.antt =====
-- The branches of InitiateIK and RespondIK (src/p2p/noise.go): a call that fails leaves the keys as
-- they were, one that succeeds makes the session and its transport ready.
use web5_mesh.Base.{
  ◌≡◌, ◌⊎◌, inl, inr, refl, Bool, true, false, ◌||◌, Option, none, some, [], ◌∷◌, arith,
  Option-cases,
}
use web5_mesh.Base.Classes.{Text}
use web5_mesh.Crypto.Aead.{Aead}
use web5_mesh.P2p.Bucket.{UdpAddr}
use web5_mesh.Storage.Persistence.Laws.{Sum-cases}
use web5_mesh.P2p.Transport.{set_session_key, read_from}
use web5_mesh.P2p.NoiseSession.{
  NoiseLibrary, SessionError, Io, NoiseSession, Reply, complete, send, await, initiate_ik, answer,
  respond_ik,
}

module _ (N : NoiseLibrary) (ip_string : UdpAddr → Text) (sha256 blake2b : Text → Text)
    (aead : Aead) where
  abbrev pub Session : Type 0
  Session = NoiseSession N ip_string sha256 blake2b aead

  abbrev pub State : Type 0
  State = NoiseLibrary.HandshakeState N

  -- The session and its transport have no other key than before, and are ready only if they were.
  pub record IsUnchanged (n after : Session) : Type 0 where
    pub key : after.session_key ≡ n.session_key
    pub ready : after.ready ≡ n.ready
    pub transport : after.transport ≡ n.transport

  -- The session is ready with the key that the binding of this state gives, and so is its transport.
  pub record IsComplete (n after : Session) (hs : State) : Type 0 where
    pub key : after.session_key ≡ blake2b (N.channel_binding hs)
    pub ready : after.ready ≡ true
    pub transport : after.transport ≡ set_session_key (blake2b (N.channel_binding hs)) n.transport

  -- A call of InitiateIK that succeeded, step by step.
  pub record Initiated (io : Io) (n : Session) (remote : Option Text)
      (r : Reply N ip_string sha256 blake2b aead) : Type 0 where
    pub hs : State
    pub hs' : State
    pub hs'' : State
    pub msg : Text
    pub datagram : Text
    pub packet : Text × UdpAddr
    pub wrote : N.write_message hs ≡ inr (msg, hs')
    pub went :
        (sent_as : Session) × (sent_as.transport ≡ n.transport)
        × (send N ip_string sha256 blake2b aead io sent_as msg ≡ some datagram)
    pub heard :
        (read_from ip_string sha256 aead io.now n.transport n.pow_manager io.datagram).1
        ≡ inr packet
    pub read : N.read_message hs' packet.0 ≡ inr hs''
    pub sent : r.sent ≡ datagram ∷ []
    pub left : IsComplete n r.session hs''

  await_cases :
      (io : Io) (n : Session) (hs : State) (datagram : Text)
      → let r = await N ip_string sha256 blake2b aead io n hs datagram in
        ((e : SessionError (NoiseLibrary.Error N)) × (r.error ≡ some e) × IsUnchanged n r.session)
        ⊎ ((packet : Text × UdpAddr) × (hs' : State) × ((read_from ip_string sha256 aead io.now
                n.transport n.pow_manager io.datagram).1
              ≡ inr packet)
            × (N.read_message hs packet.0 ≡ inr hs')
            × (r.error ≡ none)
            × (r.sent ≡ datagram ∷ [])
            × IsComplete n r.session hs')
  unfolding await complete
  await_cases io n hs datagram =
      elim (Sum-cases
        (read_from ip_string sha256 aead io.now n.transport n.pow_manager io.datagram).1) [
          | inl (e, q) ↦
              rw (q, await) (inl (_, refl, record { key = refl; ready = refl; transport = refl }))
          | inr (packet, q) ↦ elim (Sum-cases (N.read_message hs packet.0)) [
            | inl (e, f) ↦
                rw (q, await, f)
                  (inl (_, refl, record { key = refl; ready = refl; transport = refl }))
            | inr (hs', f) ↦
                rw (q, await, f)
                  (inr (
                    packet,
                    hs',
                    refl,
                    f,
                    refl,
                    refl,
                    record { key = refl; ready = refl; transport = refl },
                  ))
          ]
        ]

  pub initiate_ik_cases :
      (io : Io) (n : Session) (remote : Option Text)
      → let r = initiate_ik N ip_string sha256 blake2b aead io n remote in
        ((e : SessionError (NoiseLibrary.Error N)) × (r.error ≡ some e) × IsUnchanged n r.session)
        ⊎ ((r.error ≡ none) × Initiated io n remote r)
  unfolding initiate_ik
  initiate_ik_cases io n remote = elim (Sum-cases (N.new_handshake_state true n.local_key remote)) [
    | inl (e, q) ↦
        rw (q, initiate_ik) (inl (_, refl, record { key = refl; ready = refl; transport = refl }))
    | inr (hs, q) ↦ elim (Sum-cases (N.write_message hs)) [
      | inl (e, w) ↦
          rw (q, initiate_ik, w)
            (inl (_, refl, record { key = refl; ready = refl; transport = refl }))
      | inr ((msg, hs'), w) ↦ elim (Option-cases (send N ip_string sha256 blake2b aead io n msg)) [
        | inl s ↦
            rw (q, initiate_ik, w, s)
              (inl (_, refl, record { key = refl; ready = refl; transport = refl }))
        | inr (datagram, s) ↦ elim (await_cases io n hs' datagram) [
          | inl (e, f, u) ↦
              rw (q, initiate_ik, w, s)
                (inl (e, f, record { key = u.key; ready = u.ready; transport = u.transport }))
          | inr (packet, hs'', heard, read, ok, sent, left) ↦
              rw (q, initiate_ik, w, s)
                (inr (
                  ok,
                  record {
                    hs = hs;
                    hs' = hs';
                    hs'' = hs'';
                    msg = msg;
                    datagram = datagram;
                    packet = packet;
                    wrote = w;
                    went = (n, refl, s);
                    heard = heard;
                    read = read;
                    sent = sent;
                    left = record {
                      key = left.key;
                      ready = left.ready;
                      transport = left.transport;
                    };
                  },
                ))
        ]
      ]
    ]
  ]

  -- A call of RespondIK that succeeded.
  pub record Responded (io : Io) (n : Session) (content : Text)
      (r : Reply N ip_string sha256 blake2b aead) : Type 0 where
    pub hs : State
    pub hs' : State
    pub hs'' : State
    pub msg : Text
    pub datagram : Text
    pub read : N.read_message hs content ≡ inr hs'
    pub wrote : N.write_message hs' ≡ inr (msg, hs'')
    pub went :
        (sent_as : Session) × (sent_as.transport ≡ n.transport)
        × (send N ip_string sha256 blake2b aead io sent_as msg ≡ some datagram)
    pub sent : r.sent ≡ datagram ∷ []
    pub left : IsComplete n r.session hs''

  pub respond_ik_cases :
      (io : Io) (n : Session) (content : Text) (remote : Option Text)
      → let r = respond_ik N ip_string sha256 blake2b aead io n content remote in
        ((e : SessionError (NoiseLibrary.Error N)) × (r.error ≡ some e) × IsUnchanged n r.session)
        ⊎ ((r.error ≡ none) × Responded io n content r)
  unfolding respond_ik answer complete
  respond_ik_cases io n content remote =
      elim (Sum-cases (N.new_handshake_state false n.local_key remote)) [
        | inl (e, q) ↦
            rw (q, respond_ik)
              (inl (_, refl, record { key = refl; ready = refl; transport = refl }))
        | inr (hs, q) ↦ elim (Sum-cases (N.read_message hs content)) [
          | inl (e, d) ↦
              rw (q, respond_ik, d)
                (inl (_, refl, record { key = refl; ready = refl; transport = refl }))
          | inr (hs', d) ↦ elim (Sum-cases (N.write_message hs')) [
            | inl (e, w) ↦
                rw (q, respond_ik, d, answer, w)
                  (inl (_, refl, record { key = refl; ready = refl; transport = refl }))
            | inr ((msg, hs''), w) ↦
                elim (Option-cases (send N ip_string sha256 blake2b aead io n msg)) [
                  | inl s ↦
                      rw (q, respond_ik, d, answer, w, s)
                        (inl (_, refl, record { key = refl; ready = refl; transport = refl }))
                  | inr (datagram, s) ↦
                      rw (q, respond_ik, d, answer, w, s)
                        (inr (
                          refl,
                          record {
                            hs = hs;
                            hs' = hs';
                            hs'' = hs'';
                            msg = msg;
                            datagram = datagram;
                            read = d;
                            wrote = w;
                            went = (n, refl, s);
                            sent = refl;
                            left = record { key = refl; ready = refl; transport = refl };
                          },
                        ))
                ]
          ]
        ]
      ]

  abbrev is_none : Option (SessionError (NoiseLibrary.Error N)) → Bool
  is_none none = true
  is_none (some e) = false

  -- What a call that ended with this error has done with the readiness.
  abbrev ReadyIf : Session → Reply N ip_string sha256 blake2b aead → Type 0
  ReadyIf n r =
      (r.session.ready ≡ (n.ready || is_none r.error))
      × (r.session.transport.session_ready ≡ (n.transport.session_ready || is_none r.error))
      × (r.session.transport.is_relay ≡ n.transport.is_relay)

  unchanged_ready :
      (n : Session) (r : Reply N ip_string sha256 blake2b aead)
      (e : SessionError (NoiseLibrary.Error N))
      → r.error ≡ some e
      → IsUnchanged n r.session
      → ReadyIf n r
  unchanged_ready n r e h u = rw (h, u.ready, u.transport) (ground arith)

  complete_ready :
      (n : Session) (r : Reply N ip_string sha256 blake2b aead) (hs : State)
      → r.error ≡ none
      → IsComplete n r.session hs
      → ReadyIf n r
  unfolding set_session_key
  complete_ready n r hs h c = rw (h, c.ready, c.transport) (ground arith)

  -- InitiateIK and RespondIK make the session and its transport ready exactly if they succeed, and
  -- leave a session that was ready before ready; neither makes a node a relay.
  pub handshake_ready_iff :
      (io : Io) (n : Session) (content : Text) (remote : Option Text)
      → ReadyIf n (initiate_ik N ip_string sha256 blake2b aead io n remote)
        × ReadyIf n (respond_ik N ip_string sha256 blake2b aead io n content remote)
  handshake_ready_iff io n content remote =
      let first = initiate_ik N ip_string sha256 blake2b aead io n remote in
      let second = respond_ik N ip_string sha256 blake2b aead io n content remote in
      (
        elim (initiate_ik_cases io n remote) [
          | inl (e, h, u) ↦ unchanged_ready n first e h u
          | inr (ok, i) ↦ complete_ready n first i.hs'' ok i.left
        ],
        elim (respond_ik_cases io n content remote) [
          | inl (e, h, u) ↦ unchanged_ready n second e h u
          | inr (ok, i) ↦ complete_ready n second i.hs'' ok i.left
        ],
      )
