-- ===== src/Crypto/Noise.antt =====
-- The handshake and the sessions of src/crypto/noise_layer.go.
use web5_mesh.Base.{
  ℕ, zero, suc, ◌+◌, ◌-◌, ◌*◌, ◌/◌, ◌%◌, ◌^◌, ◌≡◌, ◌≤◌, ◌<◌, ◌⊎◌, refl, sym, ap, ◌∙◌, Bool, true,
  false, not, ◌&&◌, Option, none, some, List, [], ◌∷◌, ◌++◌, arith, ltb, leb, ◌==◌, if◌then◌else◌,
  Bool-cases, Option-cases, inl, inr, length, length-append, take, drop, take-append_left,
  drop-append_left, map, u64, replicate,
}
use web5_mesh.Base.Classes.{Text}
use web5_mesh.Base.Bytes.{codes}
use web5_mesh.Crypto.Aead.{Aead, nonce_size, overhead}
pub mod Laws

pub data NoiseError : Type 0 where
  waits_for_message : NoiseError
  already_sent : NoiseError
  not_expected : NoiseError
  invalid_handshake_state : NoiseError
  invalid_message : NoiseError
  decryption_failed : NoiseError
  no_randomness : NoiseError

pub record NoiseHandshakeState : Type 0 where
  pub step : ℕ
  pub local_static : Text
  pub remote_static : Text
  pub local_ephemeral : Text
  pub remote_ephemeral : Text
  pub session_key_local_to_remote : Text
  pub session_key_remote_to_local : Text
  pub session_nonce_local : ℕ
  pub session_nonce_remote : ℕ
  pub is_initiator : Bool
  pub complete : Bool

abbrev pub zero_key : Text
zero_key = replicate 32 0

unfoldable pub new_noise_handshake : Bool → Text → Text → NoiseHandshakeState
new_noise_handshake initiator local_static remote_static = record {
  step = 0;
  local_static = local_static;
  remote_static = remote_static;
  local_ephemeral = zero_key;
  remote_ephemeral = zero_key;
  session_key_local_to_remote = zero_key;
  session_key_remote_to_local = zero_key;
  session_nonce_local = 0;
  session_nonce_remote = 0;
  is_initiator = initiator;
  complete = false;
}

-- The nonce of a session message: four zero bytes and the counter, the low byte first.
abbrev pub session_nonce : ℕ → Text
session_nonce n =
    0
    ∷ 0
    ∷ 0
    ∷ 0
    ∷ n % 256
    ∷ n / 2 ^ 8 % 256
    ∷ n / 2 ^ 16 % 256
    ∷ n / 2 ^ 24 % 256
    ∷ n / 2 ^ 32 % 256
    ∷ n / 2 ^ 40 % 256
    ∷ n / 2 ^ 48 % 256
    ∷ n / 2 ^ 56 % 256
    ∷ []

-- blake2b.Sum256 and blake2b.Sum512.
module _ (aead : Aead) (sum256 sum512 : Text → Text) where
  unfoldable pub calculate_dh : Text → Text → Text
  calculate_dh private_key public_key = sum256 (private_key ++ public_key)

  unfoldable pub derive_cipher_key : Text → Text → Text
  derive_cipher_key shared_secret context = sum256 (shared_secret ++ context)

  unfoldable pub encrypt_handshake_message : Option Text → Text → Text → NoiseError ⊎ Text
  encrypt_handshake_message none plaintext key = inl no_randomness
  encrypt_handshake_message (some nonce) plaintext key =
      inr (nonce ++ aead.seal key nonce plaintext [])

  unfoldable pub decrypt_handshake_message : Text → Text → NoiseError ⊎ Text
  decrypt_handshake_message bytes key =
      if ltb (length bytes) (nonce_size + overhead)
      then inl invalid_message
      else elim (aead.unseal key (take nonce_size bytes) (drop nonce_size bytes) []) [
        | none ↦ inl invalid_message
        | some plaintext ↦ inr plaintext
      ]

  unfoldable pub derive_session_keys : NoiseHandshakeState → NoiseHandshakeState
  unfolding calculate_dh
  derive_session_keys n =
      let seed =
        calculate_dh n.local_static n.remote_static
        ++ calculate_dh n.local_ephemeral n.remote_static
        ++ calculate_dh n.local_static n.remote_ephemeral
        ++ calculate_dh n.local_ephemeral n.remote_ephemeral in
      let material = sum512 seed in
      record n {
        session_key_local_to_remote = take 32 material;
        session_key_remote_to_local = take 32 (drop 32 material);
        session_nonce_local = 0;
        session_nonce_remote = 0;
      }

  cipher_key : NoiseHandshakeState → Text
  unfolding calculate_dh derive_cipher_key
  cipher_key n =
      derive_cipher_key (calculate_dh n.local_ephemeral n.remote_static) (codes "handshake_cipher")

  -- Step 1 of WriteMessage at the responder, with the ephemeral key drawn.
  unfoldable pub write_response :
      Option Text → NoiseHandshakeState → NoiseHandshakeState × (NoiseError ⊎ Text)
  unfolding cipher_key encrypt_handshake_message
  write_response nonce n =
      elim (encrypt_handshake_message nonce n.remote_ephemeral (cipher_key n)) [
        | inl e ↦ (n, inl e)
        | inr encrypted ↦ (record n { step = 2 }, inr encrypted)
      ]

  -- WriteMessage, with the bytes that rand.Read gives for the ephemeral key and for the nonce.
  unfoldable pub write_message :
      Option Text → Option Text → NoiseHandshakeState → NoiseHandshakeState × (NoiseError ⊎ Text)
  unfolding write_response
  write_message ephemeral nonce n =
      if n.step == 0
      then if not n.is_initiator then (n, inl waits_for_message) else elim ephemeral [
        | none ↦ (n, inl no_randomness)
        | some key ↦ (record n { local_ephemeral = key; step = 1 }, inr key)
      ]
      else if n.step == 1
      then if n.is_initiator then (n, inl already_sent) else elim ephemeral [
        | none ↦ (n, inl no_randomness)
        | some key ↦ write_response nonce (record n { local_ephemeral = key })
      ]
      else (n, inl invalid_handshake_state)

  -- Step 1 of ReadMessage at the initiator, with the first 32 bytes copied; `none` is no error.
  unfoldable pub read_response :
      Text → NoiseHandshakeState → NoiseHandshakeState × Option NoiseError
  unfolding cipher_key decrypt_handshake_message derive_session_keys
  read_response rest n = elim (decrypt_handshake_message rest (cipher_key n)) [
    | inl e ↦ (n, some e)
    | inr decrypted ↦
        if ltb (length decrypted) 32
        then (n, some invalid_message)
        else (derive_session_keys (record n { step = 2; complete = true }), none)
  ]

  unfoldable pub read_message : Text → NoiseHandshakeState → NoiseHandshakeState × Option NoiseError
  unfolding read_response derive_session_keys
  read_message msg n =
      if n.step == 0
      then if n.is_initiator
        then (n, some not_expected)
        else if not (length msg == 32)
        then (n, some invalid_message)
        else (record n { remote_ephemeral = take 32 msg; step = 1 }, none)
      else if n.step == 1
      then if not n.is_initiator
        then (n, some not_expected)
        else if ltb (length msg) (32 + 16)
        then (n, some invalid_message)
        else read_response (drop 32 msg) (record n { remote_ephemeral = take 32 msg })
      else if n.step == 2
      then if n.is_initiator
        then (n, none)
        else if not n.complete
        then (derive_session_keys (record n { complete = true }), none)
        else (n, none)
      else (n, some invalid_handshake_state)

  unfoldable pub encrypt_session_message :
      Text → NoiseHandshakeState → NoiseHandshakeState × (NoiseError ⊎ Text)
  encrypt_session_message plaintext n =
      let counter = u64 (n.session_nonce_local + 1) in
      if not n.complete then (n, inl invalid_handshake_state) else (
        record n { session_nonce_local = counter },
        inr (aead.seal n.session_key_local_to_remote (session_nonce counter) plaintext []),
      )

  unfoldable pub decrypt_session_message :
      Text → NoiseHandshakeState → NoiseHandshakeState × (NoiseError ⊎ Text)
  decrypt_session_message ciphertext n =
      let counter = u64 (n.session_nonce_remote + 1) in
      if not n.complete then (n, inl invalid_handshake_state) else (
        record n { session_nonce_remote = counter },
        elim (aead.unseal n.session_key_remote_to_local (session_nonce counter) ciphertext []) [
          | none ↦ inl decryption_failed
          | some plaintext ↦ inr plaintext
        ],
      )

  unfoldable pub reset_nonces : NoiseHandshakeState → NoiseHandshakeState
  reset_nonces n = record n { session_nonce_local = 0; session_nonce_remote = 0 }
