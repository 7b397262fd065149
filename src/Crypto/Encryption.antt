-- ===== src/Crypto/Encryption.antt =====
-- The symmetric encryption of src/crypto/encryption.go.
use web5_mesh.Base.{
  ◌+◌, ◌≡◌, ◌⊎◌, refl, false, not, Option, none, some, [], ◌++◌, arith, ltb, ◌==◌, if◌then◌else◌,
  inl, inr, length, length-append, take, drop, take-append_left, drop-append_left, map,
}
use web5_mesh.Base.Classes.{Text}
use web5_mesh.Crypto.Aead.{Aead, nonce_size, overhead}

pub data CryptoError : Type 0 where
  no_randomness : CryptoError
  invalid_ciphertext : CryptoError
  invalid_nonce_size : CryptoError
  decryption_failed : CryptoError

pub record EncryptedMessage : Type 0 where
  pub nonce : Text
  pub ciphertext : Text

unfoldable pub derive_session_key : (Text → Text) → Text → Text → Text
derive_session_key sha256 shared_secret salt = sha256 (shared_secret ++ salt)

-- ZeroKey.
unfoldable pub zero_key : Text → Text
zero_key key = map (λ b. 0) key

module _ (aead : Aead) where
  -- EncryptWithAdditionalData. The bytes that rand.Read gives are the first argument, `none` if it
  -- fails. A key is an array of 32 bytes, for which chacha20poly1305.New does not fail.
  unfoldable pub encrypt_with_additional_data :
      Option Text → Text → Text → Text → CryptoError ⊎ EncryptedMessage
  encrypt_with_additional_data none plaintext extra key = inl no_randomness
  encrypt_with_additional_data (some nonce) plaintext extra key =
      inr (record { nonce = nonce; ciphertext = aead.seal key nonce plaintext extra })

  -- EncryptPayload, the same without additional data.
  unfoldable pub encrypt_payload : Option Text → Text → Text → CryptoError ⊎ EncryptedMessage
  encrypt_payload none plaintext key = inl no_randomness
  encrypt_payload (some nonce) plaintext key =
      inr (record { nonce = nonce; ciphertext = aead.seal key nonce plaintext [] })

  unfoldable pub decrypt_with_additional_data : EncryptedMessage → Text → Text → CryptoError ⊎ Text
  decrypt_with_additional_data m extra key =
      if ltb (length (EncryptedMessage.ciphertext m)) overhead
      then inl invalid_ciphertext
      else if not (length (EncryptedMessage.nonce m) == nonce_size)
      then inl invalid_nonce_size
      else elim (aead.unseal key (EncryptedMessage.nonce m) (EncryptedMessage.ciphertext m) extra) [
        | none ↦ inl decryption_failed
        | some plaintext ↦ inr plaintext
      ]

  unfoldable pub decrypt_payload : EncryptedMessage → Text → CryptoError ⊎ Text
  decrypt_payload m key =
      if ltb (length (EncryptedMessage.ciphertext m)) overhead
      then inl invalid_ciphertext
      else if not (length (EncryptedMessage.nonce m) == nonce_size)
      then inl invalid_nonce_size
      else elim (aead.unseal key (EncryptedMessage.nonce m) (EncryptedMessage.ciphertext m) []) [
        | none ↦ inl decryption_failed
        | some plaintext ↦ inr plaintext
      ]

  unfoldable pub encrypt_bytes : Option Text → Text → Text → CryptoError ⊎ Text
  unfolding encrypt_payload
  encrypt_bytes random plaintext key = elim (encrypt_payload random plaintext key) [
    | inl e ↦ inl e
    | inr m ↦ inr (EncryptedMessage.nonce m ++ EncryptedMessage.ciphertext m)
  ]

  unfoldable pub decrypt_bytes : Text → Text → CryptoError ⊎ Text
  unfolding decrypt_payload
  decrypt_bytes encrypted key =
      if ltb (length encrypted) (nonce_size + overhead)
      then inl invalid_ciphertext
      else decrypt_payload
          (record { nonce = take nonce_size encrypted; ciphertext = drop nonce_size encrypted }) key

  sealed_opens :
      (nonce plaintext key : Text)
      → length nonce ≡ nonce_size
      → decrypt_payload
          (record { nonce = nonce; ciphertext = aead.seal key nonce plaintext [] })
          key
        ≡ inr plaintext
  unfolding decrypt_payload
  sealed_opens nonce plaintext key h =
      ground
        (arith, aead.length-seal key nonce plaintext [], aead.unseal-seal key nonce plaintext [] h)

  -- With twelve random bytes EncryptBytes succeeds, its result is 28 bytes longer than the text,
  -- and DecryptBytes with the same key gives the text back.
  pub encrypt_bytes_roundtrip :
      (nonce plaintext key : Text)
      → length nonce ≡ nonce_size
      → (encrypted : Text) × (encrypt_bytes (some nonce) plaintext key ≡ inr encrypted)
        × (length encrypted ≡ length plaintext + 28)
        × (decrypt_bytes encrypted key ≡ inr plaintext)
  unfolding encrypt_bytes decrypt_bytes encrypt_payload
  encrypt_bytes_roundtrip nonce plaintext key h =
      let c = aead.seal key nonce plaintext [] in
      let size : length (nonce ++ c) ≡ length plaintext + 28 =
        omega (arith, length-append nonce c, aead.length-seal key nonce plaintext []) in
      let long : ltb (length (nonce ++ c)) 28 ≡ false = ground (arith, size) in
      (
        nonce ++ c,
        refl,
        size,
        rw (long, take-append_left nonce c 12 h, drop-append_left nonce c 12 h)
            (sealed_opens nonce plaintext key h),
      )

  -- A message sealed with additional data opens with the same data and key.
  pub additional_data_roundtrip :
      (nonce plaintext extra key : Text)
      → length nonce ≡ nonce_size
      → (m : EncryptedMessage) × (encrypt_with_additional_data (some nonce) plaintext extra key
          ≡ inr m)
        × (decrypt_with_additional_data m extra key ≡ inr plaintext)
  unfolding encrypt_with_additional_data decrypt_with_additional_data
  additional_data_roundtrip nonce plaintext extra key h = (
    _,
    refl,
    ground (
      arith,
      aead.length-seal key nonce plaintext extra,
      aead.unseal-seal key nonce plaintext extra h,
    ),
  )
