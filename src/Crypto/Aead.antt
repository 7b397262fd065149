-- ===== src/Crypto/Aead.antt =====
-- ChaCha20-Poly1305 of golang.org/x/crypto: the AEAD that src/crypto calls, with its documented
-- behaviour as laws.
use web5_mesh.Base.{ℕ, ◌+◌, ◌≡◌, Option, some, length}
use web5_mesh.Base.Classes.{Text}

abbrev pub nonce_size : ℕ
nonce_size = 12

abbrev pub overhead : ℕ
overhead = 16

-- Seal and Open of a key, a nonce, a text and additional data. Open undoes Seal, and a text that
-- it accepts is shorter than the sealed one by the tag.
pub record Aead : Type 0 where
  pub seal : Text → Text → Text → Text → Text
  pub unseal : Text → Text → Text → Text → Option Text
  pub unseal-seal :
      (key nonce plaintext extra : Text)
      → length nonce ≡ nonce_size
      → unseal key nonce (seal key nonce plaintext extra) extra ≡ some plaintext
  pub length-seal :
      (key nonce plaintext extra : Text)
      → length (seal key nonce plaintext extra) ≡ length plaintext + overhead
  pub length-unseal :
      (key nonce ciphertext extra plaintext : Text)
      → unseal key nonce ciphertext extra ≡ some plaintext
      → length ciphertext ≡ length plaintext + overhead
