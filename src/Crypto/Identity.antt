-- ===== src/Crypto/Identity.antt =====
-- src/crypto/identity.go: identities with an Ed25519 key pair. The standard library's ed25519 is
-- the record Ed25519 below; base58 and SHA-256 are functions.
use web5_mesh.Base.{
  ◌≡◌, ◌⊎◌, inl, inr, refl, Bool, true, false, Option, none, some, [], ◌∷◌, ◌++◌, ℕ,
}
use web5_mesh.Base.Classes.{Text}
use web5_mesh.Base.Bytes.{codes}
use web5_mesh.P2p.Access.{hex}

-- GenerateKey, none if the source of random bytes fails; a signature with the private key of a pair
-- verifies with its public key.
pub record Ed25519 : Type 1 where
  pub Entropy : Type 0
  pub generate_key : Entropy → Option (Text × Text)
  pub sign : Text → Text → Text
  pub verify : Text → Text → Text → Bool
  pub verify-sign :
      (r : Entropy) (public_key private_key message : Text)
      → generate_key r ≡ some (public_key, private_key)
      → verify public_key message (sign private_key message) ≡ true

pub record Did : Type 0 where
  pub method : Text
  pub hash : Text

-- A nil key is none.
pub record Identity : Type 0 where
  pub did : Did
  pub private_key : Option Text
  pub public_key : Option Text
  pub name : Text
  pub created_at : ℕ
  pub last_seen : ℕ
  pub reputation : ℕ
  pub signature_curve : Text

abbrev bytes_of : Option Text → Text
bytes_of none = []
bytes_of (some b) = b

module _ (E : Ed25519) (sha256 base58 : Text → Text) where
  unfoldable pub did_string : Did → Text
  did_string d = d.method ++ 58 ∷ base58 d.hash

  unfoldable pub new_identity : ℕ → Ed25519.Entropy E → Text → Option Identity
  new_identity now r name = elim (E.generate_key r) [
    | none ↦ none
    | some (public_key, private_key) ↦ some (record {
      did = record { method = codes "did:maia"; hash = sha256 public_key };
      private_key = some private_key;
      public_key = some public_key;
      name = name;
      created_at = now;
      last_seen = now;
      reputation = 100;
      signature_curve = codes "ed25519";
    })
  ]

  -- Sign; none is the error of a missing private key.
  unfoldable pub sign : Identity → Text → Option Text
  sign id content = elim id.private_key [ none ↦ none | some key ↦ some (E.sign key content) ]

  unfoldable pub verify : Identity → Text → Text → Bool
  verify id content signature = elim id.public_key [
    | none ↦ false
    | some key ↦ E.verify key content signature
  ]

  unfoldable pub get_did_string : Identity → Text
  unfolding did_string
  get_did_string id = did_string id.did

  unfoldable pub get_public_key_hex : Identity → Text
  unfolding hex
  get_public_key_hex id = hex (bytes_of id.public_key)

  -- A new identity signs every message, and verifies its signature; its DID is made of the hash of
  -- its public key.
  pub verify-sign :
      (now : ℕ) (r : Ed25519.Entropy E) (name message : Text) (id : Identity)
      → new_identity now r name ≡ some id
      → (public_key : Text) × (signature : Text) × (id.public_key ≡ some public_key)
        × (sign id message ≡ some signature)
        × (verify id message signature ≡ true)
        × (get_did_string id ≡ codes "did:maia:" ++ base58 (sha256 public_key))
  unfolding new_identity sign verify get_did_string did_string
  verify-sign now r name message id h = elim (pair (E.generate_key r)) [
    | inl e ↦ absurd (cc (rw (e, new_identity) at h))
    | inr (public_key, private_key, e) ↦
        let same = rw (e, new_identity) at h in
        let made = made_of same in
        rw made (
          public_key,
          E.sign private_key message,
          refl,
          refl,
          E.verify-sign r public_key private_key message e,
          refl,
        )
  ]
    where
      pair : (o : Option (Text × Text)) → (o ≡ none) ⊎ ((a : Text) × (b : Text) × (o ≡ some (a, b)))
      pair none = inl refl
      pair (some (a, b)) = inr (a, b, refl)

      made_of : {a b : Identity} → some a ≡ some b → b ≡ a
      made_of e = cc
