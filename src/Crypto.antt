-- ===== src/Crypto.antt =====
-- The AEAD wrappers of src/crypto: crypter.hpp (how a packet number becomes a nonce),
-- aead_base_encrypter.cpp and aead_base_decrypter.cpp (key and IV), aead_evp_encrypter.cpp and
-- aead_evp_decrypter.cpp. BoringSSL is the parameter `Aead`: EVP_AEAD_CTX_seal and EVP_AEAD_CTX_open
-- with no associated data, as every caller has it. Words are stored in the order of a
-- little-endian machine.
pub mod Nonce
pub mod Packets
pub mod Plain
mod Tests
use yass.Common.{
  ℕ, zero, suc, ◌+◌, ◌-◌, ◌*◌, ◌/◌, ◌%◌, ◌^◌, ◌≤◌, ◌≡◌, Bool, true, false, Option, none, some, List,
  [], ◌∷◌, ◌++◌, ltb, ◌==◌, if◌then◌else◌, dcheck, length, take, drop,
}

-- `open_aead` has the size of the output buffer as its last argument. What is relied on: what was
-- sealed opens again, and sealing adds a tag of fixed length.
pub record Aead : Type 0 where
  pub tag_len : ℕ
  pub seal : List ℕ → List ℕ → List ℕ → Option (List ℕ)
  pub open_aead : List ℕ → List ℕ → List ℕ → ℕ → Option (List ℕ)
  pub open-seal :
      (key nonce message sealed : List ℕ) (room : ℕ)
      → seal key nonce message ≡ some sealed
      → length message ≤ room
      → open_aead key nonce sealed room ≡ some message
  pub length-seal :
      (key nonce message sealed : List ℕ)
      → seal key nonce message ≡ some sealed
      → length sealed ≡ length message + tag_len

-- The `n` low bytes of a word, lowest first.
abbrev pub le_bytes : ℕ → ℕ → List ℕ
le_bytes zero w = []
le_bytes (suc n) w = (w % 256) ∷ le_bytes n (w / 256)

-- `PacketNumberToNonceEvp`: the last eight bytes of the nonce.
pub packet_number_to_nonce_evp : List ℕ → ℕ → ℕ → List ℕ
packet_number_to_nonce_evp nonce nonce_size packet_number =
    let prefix_len = nonce_size - 8 in
    take prefix_len nonce ++ le_bytes 8 packet_number ++ drop (prefix_len + 8) nonce

-- `PacketNumberToNonceSodium`: the first four bytes of the nonce.
pub packet_number_to_nonce_sodium : List ℕ → ℕ → List ℕ
packet_number_to_nonce_sodium nonce packet_number = le_bytes 4 packet_number ++ drop 4 nonce

-- `AeadBaseEncrypter`, and `AeadBaseDecrypter` with no preliminary key, which nothing sets.
pub record Crypter : Type 0 where
  pub key_size : ℕ
  pub auth_tag_size : ℕ
  pub nonce_size : ℕ
  pub key : List ℕ
  pub iv : List ℕ

unfoldable pub set_key : List ℕ → Crypter → Option (Bool × Crypter)
set_key key c = dcheck (length key == c.key_size) (
    some (
      if length key == c.key_size
      then (true, record c { key = key ++ drop (length key) c.key })
      else (false, c)))

unfoldable pub set_nonce_prefix : List ℕ → Crypter → Option (Bool × Crypter)
set_nonce_prefix prefix c = dcheck (length prefix == c.nonce_size - 8) (
    some (
      if length prefix == c.nonce_size - 8
      then (true, record c { iv = prefix ++ drop (length prefix) c.iv })
      else (false, c)))

pub set_iv : List ℕ → Crypter → Option (Bool × Crypter)
set_iv iv c = dcheck (length iv == c.nonce_size) (
    some (
      if length iv == c.nonce_size
      then (true, record c { iv = iv ++ drop (length iv) c.iv })
      else (false, c)))

-- The key and the nonce of a packet, `key_size_` and `nonce_size_` bytes of their arrays.
abbrev pub key_of : Crypter → List ℕ
key_of c = take c.key_size c.key

pub nonce_of : Crypter → ℕ → List ℕ
nonce_of c packet_number =
    packet_number_to_nonce_evp (take c.nonce_size c.iv) c.nonce_size packet_number

module _ (alg : Aead) where
  -- `EncryptPacket` with an output buffer of `room` bytes
  pub encrypt_packet : Crypter → ℕ → List ℕ → ℕ → Option (List ℕ)
  encrypt_packet c packet_number plaintext room =
      if ltb room (length plaintext + c.auth_tag_size)
      then none
      else alg.seal (key_of c) (nonce_of c packet_number) plaintext

  -- `DecryptPacket` with an output buffer of `room` bytes
  pub decrypt_packet : Crypter → ℕ → List ℕ → ℕ → Option (List ℕ)
  decrypt_packet c packet_number ciphertext room =
      if ltb (length ciphertext) c.auth_tag_size
      then none
      else alg.open_aead (key_of c) (nonce_of c packet_number) ciphertext room
