-- ===== src/Tests/Crypto.antt =====
-- Handshakes and sessions of src/crypto/noise_layer.go.
use web5_mesh.Base.{◌≡◌, false, none, some, length, refl, replicate, inr}
use web5_mesh.Base.Classes.{Text}
use web5_mesh.Crypto.Noise.{invalid_message, new_noise_handshake, read_message, write_message}
use web5_mesh.Crypto.Noise.Laws.{first_message, responder, handshake_fails}
use web5_mesh.Tests.Samples.{checksum, tagged}

abbrev key_a : Text
key_a = replicate 32 1

abbrev key_b : Text
key_b = replicate 32 2

abbrev twelve : Text
twelve = replicate 12 5

handshake_fails_example :
    ((first_message tagged checksum checksum key_a key_b key_b).1 ≡ inr key_b)
    × ((read_message tagged checksum checksum key_b (new_noise_handshake false key_b key_a)).1
        ≡ none)
    × ((answer : Text) × ((write_message tagged checksum checksum
            (some key_a)
            (some twelve)
            (responder tagged checksum checksum key_a key_b key_b)).1
          ≡ inr answer)
        × (length answer ≡ 60)
        × ((read_message tagged checksum checksum answer
              (first_message tagged checksum checksum key_a key_b key_b).0).1
            ≡ some invalid_message)
        × ((read_message tagged checksum checksum answer
              (first_message tagged checksum checksum key_a key_b key_b).0).0.complete
            ≡ false))
handshake_fails_example =
    handshake_fails tagged checksum checksum key_a key_b key_b key_a twelve refl refl
