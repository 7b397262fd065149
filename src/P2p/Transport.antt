-- ===== src/P2p/Transport.antt =====
-- The UDP transport of src/p2p/transport.go: what it does to one datagram. The socket is a
-- parameter: a datagram that arrives, or the error of the read.
use web5_mesh.Base.{
  ℕ, ◌+◌, ◌*◌, ◌≡◌, ◌⊎◌, refl, ◌∙◌, Bool, true, false, not, Option, none, some, [], ◌∷◌, arith, ltb,
  if◌then◌else◌, inl, inr, length, take, drop, u64,
}
use web5_mesh.Base.Int.{pos}
use web5_mesh.Base.Classes.{Text, Text_eq}
use web5_mesh.Pow.Hash.{verify_pow}
use web5_mesh.Pow.Gas.{PowManager, get_difficulty, difficulty_for, load_at}
use web5_mesh.Crypto.Aead.{Aead, nonce_size}
use web5_mesh.Crypto.Encryption.{CryptoError, encrypt_bytes, decrypt_bytes, encrypt_bytes_roundtrip}
use web5_mesh.P2p.Bucket.{UdpAddr}

pub data TransportError : Type 0 where
  socket_failed : TransportError
  nonce_required : TransportError
  pow_failed : TransportError
  out_of_range : TransportError

pub record TransportUdp : Type 0 where
  pub session_key : Text
  pub session_ready : Bool
  pub is_relay : Bool

unfoldable pub set_session_key : Text → TransportUdp → TransportUdp
set_session_key key t = record t { session_key = key; session_ready = true }

unfoldable pub set_relay_mode : Bool → TransportUdp → TransportUdp
set_relay_mode relay t = record t { is_relay = relay }

-- The loop over the first eight bytes.
unfoldable pub read_nonce : ℕ → Text → ℕ
read_nonce nonce [] = nonce
read_nonce nonce (b ∷ rest) = read_nonce (u64 (nonce * 256) + b) rest

-- The function addr.IP.String, and SHA-256.
module _ (ip_string : UdpAddr → Text) (sha256 : Text → Text) (aead : Aead) where
  -- The last part of ReadFrom.
  unfoldable pub open_packet : TransportUdp → Text → Text
  unfolding decrypt_bytes
  open_packet t bytes =
      if t.session_ready
      then elim (decrypt_bytes aead bytes t.session_key) [
        | inl e ↦ bytes
        | inr decrypted ↦ decrypted
      ]
      else bytes

  -- The toll of a packet without a session; `none` lets it through whole. VerifyPoW indexes out of
  -- range for no difficulty that GetDifficulty gives.
  unfoldable pub check_toll : ℕ → Text → Option (TransportError ⊎ Text)
  unfolding verify_pow read_nonce
  check_toll difficulty bytes =
      if not (ltb 0 difficulty)
      then none
      else if ltb (length bytes) 8
      then some (inl nonce_required)
      else elim (verify_pow sha256 (drop 8 bytes) (read_nonce 0 (take 8 bytes)) (pos difficulty)) [
        | none ↦ some (inl out_of_range)
        | some false ↦ some (inl pow_failed)
        | some true ↦ some (inr (drop 8 bytes))
      ]

  -- ReadFrom of a datagram at a time: the manager of the package that it leaves, and the error or
  -- the bytes with their sender.
  unfoldable pub read_from :
      ℕ
      → TransportUdp
      → PowManager
      → Option (Text × UdpAddr)
      → PowManager × (TransportError ⊎ (Text × UdpAddr))
  unfolding open_packet check_toll get_difficulty
  read_from now t pow_manager none = (pow_manager, inl socket_failed)
  read_from now t pow_manager (some (bytes, addr)) =
      let asked = get_difficulty now pow_manager (ip_string addr) (pos 1) in
      if t.is_relay
      then (pow_manager, inr (bytes, addr))
      else if not t.session_ready
      then elim (check_toll asked.1 bytes) [
        | none ↦ (asked.0, inr (open_packet t bytes, addr))
        | some (inl e) ↦ (asked.0, inl e)
        | some (inr payload) ↦ (asked.0, inr (payload, addr))
      ]
      else (pow_manager, inr (open_packet t bytes, addr))

  -- WriteTo: the datagram, with the bytes that rand.Read gives for the nonce.
  unfoldable pub write_to : Option Text → TransportUdp → Text → CryptoError ⊎ Text
  unfolding encrypt_bytes
  write_to nonce t bytes =
      if t.session_ready then encrypt_bytes aead nonce bytes t.session_key else inr bytes

  no_toll : (bytes : Text) → check_toll (difficulty_for (pos 1)) bytes ≡ none
  unfolding check_toll difficulty_for
  no_toll bytes = refl

  -- Every datagram that arrives is delivered with its sender and pays no toll: whole at a relay,
  -- opened where there is a session in which it opens, and as it came otherwise.
  pub read_from_delivers :
      (now : ℕ) (t : TransportUdp) (pow_manager : PowManager) (bytes : Text) (addr : UdpAddr)
      → (read_from now t pow_manager (some (bytes, addr))).1
        ≡ inr (if t.is_relay then bytes else open_packet t bytes, addr)
  unfolding read_from get_difficulty load_at
  read_from_delivers now t pow_manager bytes addr = ground arith

  -- With twelve random bytes, what one end of a session writes the other end reads, if both are
  -- ready with the same key and the reader is no relay.
  pub read_from-write_to :
      (now : ℕ) (from to : TransportUdp) (pow_manager : PowManager) (bytes nonce : Text)
      (addr : UdpAddr)
      → length nonce ≡ nonce_size
      → from.session_ready ≡ true
      → to.session_ready ≡ true
      → to.is_relay ≡ false
      → from.session_key ≡ to.session_key
      → (datagram : Text) × (write_to (some nonce) from bytes ≡ inr datagram)
        × ((read_from now to pow_manager (some (datagram, addr))).1 ≡ inr (bytes, addr))
  unfolding write_to open_packet
  read_from-write_to now from to pow_manager bytes nonce addr h a b c same =
      let (datagram, written, size, read) =
        encrypt_bytes_roundtrip aead nonce bytes to.session_key h in
      (
        datagram,
        rw (a, same) written,
        read_from_delivers now to pow_manager datagram addr ∙ rw (c, b, read, open_packet) refl,
      )
