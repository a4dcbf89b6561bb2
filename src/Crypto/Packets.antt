-- ===== src/Crypto/Packets.antt =====
-- `EncryptPacket` and `DecryptPacket` of src/crypto/aead_evp_encrypter.cpp and aead_evp_decrypter.cpp
-- against each other.
use yass.Common.{
  ℕ, ◌+◌, ◌≤◌, ◌<◌, ◌≡◌, sym, ◌∙◌, none, some, List, arith, lt→ltb, ltb-false, length,
}
use native.Mathlib.Decide.{dec_lt}
use yass.Crypto.{Aead, Crypter, key_of, nonce_of, encrypt_packet, decrypt_packet}

module _ (alg : Aead) where
  pub encrypt_packet-seal :
      (c : Crypter) (n : ℕ) (m : List ℕ) (room : ℕ)
      → length m + c.auth_tag_size ≤ room
      → encrypt_packet alg c n m room ≡ alg.seal (key_of c) (nonce_of c n) m
  unfolding encrypt_packet
  encrypt_packet-seal c n m room h = rw (ltb-false room (length m + c.auth_tag_size) h)

  pub encrypt_packet-small :
      (c : Crypter) (n : ℕ) (m : List ℕ) (room : ℕ)
      → room < length m + c.auth_tag_size
      → encrypt_packet alg c n m room ≡ none
  unfolding encrypt_packet
  encrypt_packet-small c n m room h = rw (lt→ltb room (length m + c.auth_tag_size) h)

  seal-of-encrypt :
      (c : Crypter) (n : ℕ) (m : List ℕ) (room : ℕ) {sealed : List ℕ}
      → encrypt_packet alg c n m room ≡ some sealed
      → alg.seal (key_of c) (nonce_of c n) m ≡ some sealed
  seal-of-encrypt c n m room e = elim (dec_lt room (length m + c.auth_tag_size)) [
    | yes p ↦ cc (encrypt_packet-small c n m room p, e)
    | no p ↦ sym (encrypt_packet-seal c n m room (omega arith)) ∙ e
  ]

  -- A packet has the length of its message and a tag.
  pub length-encrypt_packet :
      (c : Crypter) (n : ℕ) (m : List ℕ) (room : ℕ) {sealed : List ℕ}
      → encrypt_packet alg c n m room ≡ some sealed
      → length sealed ≡ length m + alg.tag_len
  length-encrypt_packet c n m room {sealed} e =
      alg.length-seal (key_of c) (nonce_of c n) m sealed (seal-of-encrypt c n m room e)

  -- A packet sealed under a packet number opens under the same number, with the same key and IV, in
  -- any buffer that has room for the message.
  pub decrypt-encrypt :
      (c d : Crypter) (n : ℕ) (m : List ℕ) (room room' : ℕ) {sealed : List ℕ}
      → key_of c ≡ key_of d
      → nonce_of c n ≡ nonce_of d n
      → d.auth_tag_size ≡ alg.tag_len
      → length m ≤ room'
      → encrypt_packet alg c n m room ≡ some sealed
      → decrypt_packet alg d n sealed room' ≡ some m
  unfolding decrypt_packet
  decrypt-encrypt c d n m room room' {sealed} k i t h e =
      rw
        (
          ltb-false (length sealed) d.auth_tag_size
              (omega (arith, length-encrypt_packet c n m room e)),
          ← k,
          ← i,
        )
        (alg.open-seal (key_of c) (nonce_of c n) m sealed room' (seal-of-encrypt c n m room e) h)
