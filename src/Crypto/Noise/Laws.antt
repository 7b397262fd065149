-- ===== src/Crypto/Noise/Laws.antt =====
-- Proofs about the handshake and the sessions of src/crypto/noise_layer.go.
use web5_mesh.Base.{
  ◌+◌, ◌≡◌, ◌≤◌, ◌<◌, ◌⊎◌, refl, ap, true, false, none, some, List, [], ◌∷◌, ◌++◌, arith, ltb,
  Bool-cases, Option-cases, inl, inr, length, length-append, length-drop, length-take, take, drop,
  map, u64,
}
use web5_mesh.Base.Classes.{Text}
use web5_mesh.Crypto.Aead.{Aead, nonce_size}
use web5_mesh.Crypto.Noise.{
  NoiseHandshakeState, NoiseError, invalid_message, new_noise_handshake, session_nonce,
  write_message, write_response, read_message, read_response, encrypt_handshake_message,
  decrypt_handshake_message, encrypt_session_message, decrypt_session_message, cipher_key,
}

module _ (aead : Aead) (sum256 sum512 : Text → Text) where
  -- What decrypts is 28 bytes shorter; the only error is ErrInvalidMessage.
  abbrev Shrinks : Text → NoiseError ⊎ Text → Type 0
  Shrinks bytes (inl e) = e ≡ invalid_message
  Shrinks bytes (inr plaintext) = length bytes ≡ length plaintext + 28

  decrypt-Shrinks :
      (bytes key : Text) → Shrinks bytes (decrypt_handshake_message aead sum256 sum512 bytes key)
  unfolding decrypt_handshake_message
  decrypt-Shrinks bytes key = elim (Bool-cases (ltb (length bytes) 28)) [
    | inl e ↦ rw e refl
    | inr e ↦
        elim (Option-cases (aead.unseal key (take nonce_size bytes) (drop nonce_size bytes) [])) [
          | inl f ↦ rw (e, f) refl
          | inr (plaintext, f) ↦
              let size =
                aead.length-unseal key (take nonce_size bytes) (drop nonce_size bytes) [] plaintext
                  f in
              let long : 28 ≤ length bytes = ground arith in
              rw (e, f) (omega (arith, size, length-drop 12 bytes, long))
        ]
  ]

  sum-cases :
      (r : NoiseError ⊎ Text) → ((e : NoiseError) × (r ≡ inl e)) ⊎ ((t : Text) × (r ≡ inr t))
  sum-cases (inl e) = inl (e, refl)
  sum-cases (inr t) = inr (t, refl)

  read_response_short :
      (rest : Text) (n : NoiseHandshakeState)
      → length rest < 60
      → read_response aead sum256 sum512 rest n ≡ (n, some invalid_message)
  unfolding read_response
  read_response_short rest n h =
      let s = decrypt-Shrinks rest (cipher_key aead sum256 sum512 n) in
      elim (sum-cases
        (decrypt_handshake_message aead sum256 sum512 rest (cipher_key aead sum256 sum512 n))) [
          | inl (e, f) ↦ let only = rw f at s in rw (f, only, read_response) refl
          | inr (plaintext, f) ↦
              let size = rw f at s in
              let short : ltb (length plaintext) 32 ≡ true = ground (arith, size, h) in
              rw (f, short, read_response) refl
        ]

  -- An initiator in step 1 turns down every message of fewer than 92 bytes with ErrInvalidMessage,
  -- and is not complete afterwards if it was not before.
  pub read_message_short :
      (msg : Text) (n : NoiseHandshakeState)
      → n.step ≡ 1
      → n.is_initiator ≡ true
      → length msg < 92
      → ((read_message aead sum256 sum512 msg n).1 ≡ some invalid_message)
        × ((read_message aead sum256 sum512 msg n).0.complete ≡ n.complete)
  unfolding read_message
  read_message_short msg n at initiator h =
      let short =
        read_response_short (drop 32 msg) (record n { remote_ephemeral = take 32 msg })
          (omega (arith, length-drop 32 msg)) in
      ground (arith, at, initiator, short)

  responder_reads :
      (key : Text) (n : NoiseHandshakeState)
      → n.step ≡ 0
      → n.is_initiator ≡ false
      → length key ≡ 32
      → read_message aead sum256 sum512 key n
        ≡ (record n { remote_ephemeral = take 32 key; step = 1 }, none)
  unfolding read_message
  responder_reads key n at other h = ground (arith, at, other, h)

  responder_writes :
      (key nonce : Text) (n : NoiseHandshakeState)
      → n.step ≡ 1
      → n.is_initiator ≡ false
      → length n.remote_ephemeral ≡ 32
      → length nonce ≡ nonce_size
      → (answer : Text) × ((write_message aead sum256 sum512 (some key) (some nonce) n).1
          ≡ inr answer)
        × (length answer ≡ 60)
  unfolding write_message write_response encrypt_handshake_message
  responder_writes key nonce n at other h k =
      let m = record n { local_ephemeral = key } in
      let c = aead.seal (cipher_key aead sum256 sum512 m) nonce n.remote_ephemeral [] in
      (
        nonce ++ c,
        rw (at, other) refl,
        omega (
          arith,
          length-append nonce c,
          aead.length-seal (cipher_key aead sum256 sum512 m) nonce n.remote_ephemeral [],
        ),
      )

  -- The first two messages of a handshake between fresh states.
  abbrev pub first_message : Text → Text → Text → NoiseHandshakeState × (NoiseError ⊎ Text)
  first_message a b key =
      write_message aead sum256 sum512 (some key) none (new_noise_handshake true a b)

  abbrev pub responder : Text → Text → Text → NoiseHandshakeState
  responder a b key = (read_message aead sum256 sum512 key (new_noise_handshake false b a)).0

  -- A handshake between two fresh states, with ephemeral keys of 32 and a nonce of 12 bytes, ends
  -- with the initiator turning down the 60 bytes of the answer with ErrInvalidMessage, not
  -- complete.
  pub handshake_fails :
      (a b key key' nonce : Text)
      → length key ≡ 32
      → length nonce ≡ nonce_size
      → ((first_message a b key).1 ≡ inr key)
        × ((read_message aead sum256 sum512 key (new_noise_handshake false b a)).1 ≡ none)
        × ((answer : Text) × ((write_message aead sum256 sum512
                (some key')
                (some nonce)
                (responder a b key)).1
              ≡ inr answer)
            × (length answer ≡ 60)
            × ((read_message aead sum256 sum512 answer (first_message a b key).0).1
                ≡ some invalid_message)
            × ((read_message aead sum256 sum512 answer (first_message a b key).0).0.complete
                ≡ false))
  unfolding new_noise_handshake write_message
  handshake_fails a b key key' nonce h k =
      let reads = responder_reads key (new_noise_handshake false b a) refl refl h in
      let (answer, written, size) =
        responder_writes key' nonce
          (record (new_noise_handshake false b a) { remote_ephemeral = take 32 key; step = 1 }) refl
          refl (omega (arith, length-take 32 key)) k in
      let turned_down =
        read_message_short answer (first_message a b key).0 refl refl (omega (arith, size)) in
      (
        refl,
        ap (λ r. r.1) reads,
        (answer, rw (reads, responder) written, size, turned_down.0, turned_down.1),
      )

  -- Messages sent one after the other: what is sealed, or the texts before the first error.
  unfoldable pub send_all : List Text → NoiseHandshakeState → List (NoiseError ⊎ Text)
  unfolding encrypt_session_message
  send_all [] n = []
  send_all (text ∷ texts) n =
      let sent = encrypt_session_message aead sum256 sum512 text n in sent.1 ∷ send_all texts sent.0

  -- The receiver opens what arrives, in the order it was sent.
  unfoldable pub receive_all :
      List (NoiseError ⊎ Text) → NoiseHandshakeState → List (NoiseError ⊎ Text)
  unfolding decrypt_session_message
  receive_all [] n = []
  receive_all (inl e ∷ rest) n = inl e ∷ receive_all rest n
  receive_all (inr c ∷ rest) n =
      let got = decrypt_session_message aead sum256 sum512 c n in got.1 ∷ receive_all rest got.0

  abbrev counted_local : NoiseHandshakeState → NoiseHandshakeState
  counted_local n = record n { session_nonce_local = u64 (n.session_nonce_local + 1) }

  abbrev counted_remote : NoiseHandshakeState → NoiseHandshakeState
  counted_remote n = record n { session_nonce_remote = u64 (n.session_nonce_remote + 1) }

  sealed : Text → NoiseHandshakeState → Text
  sealed text n =
      aead.seal n.session_key_local_to_remote (session_nonce (u64 (n.session_nonce_local + 1))) text
        []

  sends :
      (text : Text) (n : NoiseHandshakeState)
      → n.complete ≡ true
      → encrypt_session_message aead sum256 sum512 text n ≡ (counted_local n, inr (sealed text n))
  unfolding encrypt_session_message sealed
  sends text n c = rw c refl

  opens :
      (text : Text) (from to : NoiseHandshakeState)
      → to.complete ≡ true
      → from.session_key_local_to_remote ≡ to.session_key_remote_to_local
      → from.session_nonce_local ≡ to.session_nonce_remote
      → decrypt_session_message aead sum256 sum512 (sealed text from) to
        ≡ (counted_remote to, inr text)
  unfolding decrypt_session_message sealed
  opens text from to c keys nonces =
      let nonce = session_nonce (u64 (to.session_nonce_remote + 1)) in
      rw (c, keys, nonces, aead.unseal-seal to.session_key_remote_to_local nonce text [] refl) refl

  -- Two complete sessions whose keys and counters for one direction agree deliver every list of
  -- messages sent in that direction in order, whole and unchanged.
  pub session_roundtrip :
      (texts : List Text) (from to : NoiseHandshakeState)
      → from.complete ≡ true
      → to.complete ≡ true
      → from.session_key_local_to_remote ≡ to.session_key_remote_to_local
      → from.session_nonce_local ≡ to.session_nonce_remote
      → receive_all (send_all texts from) to ≡ map inr texts
  unfolding send_all receive_all
  session_roundtrip [] from to c d keys nonces = refl
  session_roundtrip (text ∷ texts) from to c d keys nonces =
      rw (sends text from c, opens text from to d keys nonces)
        (ap (◌∷◌ (inr text)) (
          session_roundtrip texts (counted_local from) (counted_remote to) c d keys
            (ap (λ n. u64 (n + 1)) nonces)))
