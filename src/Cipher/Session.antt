-- ===== src/Cipher/Session.antt =====
-- The rest of the class `cipher` of src/net/cipher.cpp: the salt and the key of a direction, the
-- loop of `process_bytes` over the frames, and `encrypt`. The visitor keeps a state of its own.
-- BoringSSL's random bytes are an argument, and so is SHA-1.
use yass.IoBuffer.{read_data}
use yass.Common.{dcheck}
use yass.Common.{
  ℕ, zero, suc, ◌+◌, ◌-◌, Bool, true, false, Option, none, some, List, [], ◌∷◌, ltb, ◌==◌,
  if◌then◌else◌, ◌>>=◌, length, replicate,
}
use yass.IoBuffer.{
  GrowableBuffer, fresh, set_offset, set_capacity, remaining_capacity, write_at, write_data,
  contents,
}
use yass.Hkdf.{crypto_hkdf}
use yass.Crypto.{Aead, Crypter, set_key, set_nonce_prefix}
use yass.Cipher.{
  Cipher, ok, again, bad_message, socket_buf_size, chunk_encrypt_frame_aead,
  chunk_decrypt_frame_aead,
}

-- `cipher_visitor_interface`, over the visitor's state `V`.
pub record Visitor {ℓ} (V : Type ℓ) : Type ℓ where
  pub on_received_data : List ℕ → V → Bool × V
  pub on_protocol_error : V → V

-- "ss-subkey"
abbrev pub subkey_info : List ℕ
subkey_info = 115 ∷ 115 ∷ 45 ∷ 115 ∷ 117 ∷ 98 ∷ 107 ∷ 101 ∷ 121 ∷ []

-- `SetKey` with the derived key, and `SetNoncePrefix` with zeros
abbrev pub key_impl : List ℕ → Crypter → Option (Bool × Crypter)
key_impl skey impl =
    set_key skey impl >>= λ a. set_nonce_prefix (replicate (impl.nonce_size - 8) 0) a.1

module _ (sha1 : List ℕ → List ℕ) where
  -- `LOG(FATAL)` is `none`, as a failed DCHECK on the size of a key or prefix is.
  unfoldable pub set_key_aead : List ℕ → Cipher → Option Cipher
  set_key_aead salt c = dcheck (length salt == c.key_len) (
      crypto_hkdf sha1 salt c.key subkey_info c.key_len >>= λ skey.
      key_impl skey c.impl >>= λ i. some (record c { counter = 0; impl = i.1 }))

  unfoldable pub decrypt_salt : Cipher → GrowableBuffer → Option (Cipher × GrowableBuffer)
  decrypt_salt c chunk =
      let salt = read_data c.key_len chunk in
      dcheck (chunk.offset == 0) (
        set_offset (chunk.offset + c.key_len) chunk >>= λ b.
        set_key_aead salt (record c { salt = salt }) >>= λ d. some (d, b))

  -- `salt` is what `RandBytes` gives.
  unfoldable pub encrypt_salt :
      (ℕ → ℕ) → List ℕ → Cipher → GrowableBuffer → Option (Cipher × GrowableBuffer)
  encrypt_salt fill salt c chunk = dcheck (chunk.offset == 0) (
      set_capacity fill (chunk.capacity + c.key_len) chunk >>= λ b.
      write_at chunk.capacity salt b.real_data >>= λ m.
      set_key_aead salt (record c { salt = salt }) >>= λ d. some (d, record b { real_data = m }))

-- `chunk_`: what was left over, with the new bytes behind it. Without anything left over it is the
-- caller's buffer itself.
unfoldable pub join_chunk : (ℕ → ℕ) → Option GrowableBuffer → GrowableBuffer → Option GrowableBuffer
join_chunk fill none ciphertext = some ciphertext
join_chunk fill (some left) ciphertext =
    set_capacity fill (remaining_capacity left + ciphertext.size) fresh >>= λ b.
    write_data 0 (read_data (remaining_capacity left) left) b >>= λ b'.
    write_data (remaining_capacity left) (read_data (remaining_capacity ciphertext) ciphertext) b'

module _ {ℓ} {V : Type ℓ} (alg : Aead) (fill : ℕ → ℕ) (visitor : Visitor V) where
  -- The `while` loop: the plaintext that a frame gave is delivered, and the loop goes on while the
  -- visitor agrees. `none` is a failed check, or no fuel left.
  unfoldable pub process_frames :
      ℕ → Cipher → GrowableBuffer → V → Option (Cipher × GrowableBuffer × V)
  process_frames zero c chunk v = none
  process_frames (suc fuel) c chunk v = elim (chunk.size == 0) [
    | true ↦ some (c, chunk, v)
    | false ↦ set_capacity fill socket_buf_size fresh >>= λ plaintext.
        chunk_decrypt_frame_aead alg fill c c.counter plaintext chunk >>= λ r. elim r.status [
          | again ↦ some (c, r.ciphertext, v)
          | bad_message ↦ some (c, r.ciphertext, visitor.on_protocol_error v)
          | ok ↦ set_capacity fill r.plaintext.offset r.plaintext >>= λ p. set_offset 0 p >>= λ p'.
              let answer = visitor.on_received_data (contents p') v in
              elim (answer.0) [
                | true ↦
                    process_frames fuel (record c { counter = r.counter }) r.ciphertext (answer.1)
                | false ↦ some (record c { counter = r.counter }, r.ciphertext, answer.1)
              ]
        ]
  ]

  -- Each frame takes bytes, so the loop has at most as many rounds as there are bytes.
  abbrev pub process_chunk : Cipher → GrowableBuffer → V → Option (Cipher × V)
  process_chunk c chunk v = process_frames (chunk.size + 1) c chunk v >>= λ r.
      some (record (r.0) { chunk = some (r.1) }, r.2)

  -- What `encrypt` leaves: the cipher, the buffer and the visitor.
  unfoldable pub encrypt_frame :
      Cipher → List ℕ → GrowableBuffer → V → Option (Cipher × GrowableBuffer × V)
  encrypt_frame c plaintext ciphertext v =
      chunk_encrypt_frame_aead alg fill c c.counter plaintext ciphertext >>= λ r. elim r.status [
        | ok ↦ some (record c { counter = r.counter }, r.ciphertext, v)
        | again ↦ some (c, r.ciphertext, visitor.on_protocol_error v)
        | bad_message ↦ some (c, r.ciphertext, visitor.on_protocol_error v)
      ]

  module _ (sha1 : List ℕ → List ℕ) where
    unfoldable pub process_bytes : Cipher → GrowableBuffer → V → Option (Cipher × V)
    process_bytes c ciphertext v = join_chunk fill c.chunk ciphertext >>= λ chunk.
        if c.init
        then process_chunk c chunk v
        else if ltb chunk.size c.key_len
        then some (record c { chunk = some chunk }, v)
        else (decrypt_salt sha1 c chunk >>= λ d.
            process_chunk (record (d.0) { init = true }) (d.1) v)

    unfoldable pub encrypt :
        List ℕ → Cipher → List ℕ → GrowableBuffer → V → Option (Cipher × GrowableBuffer × V)
    encrypt salt c plaintext ciphertext v =
        if c.init
        then encrypt_frame c plaintext ciphertext v
        else (encrypt_salt sha1 fill salt c ciphertext >>= λ d.
            encrypt_frame (record (d.0) { init = true }) plaintext (d.1) v)
