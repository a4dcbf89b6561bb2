-- ===== src/Cipher.antt =====
-- The class `cipher` of src/net/cipher.cpp with an AEAD method, the framing of a Shadowsocks
-- stream: a salt, then frames of a sealed length and a sealed payload. `cipher_impl` is one
-- `Crypter`. A result `none` is a failed CHECK or DCHECK; DCHECK_GE(c_total_len, clen), which
-- always holds, is left out. What a failed open leaves in the plaintext buffer, which
-- `process_bytes` drops, is not modelled; nor are the stream methods of a build with mbedtls.
mod Growth
pub mod Encrypt
pub mod Failure
pub mod Decrypt
pub mod Frames
pub mod Session
pub mod Delivery
pub mod Stream
pub mod Salt
pub mod RoundTrip
pub mod Key
mod Tests
use yass.IoBuffer.{read_data}
use yass.Common.{dcheck}
use yass.Common.{
  ℕ, zero, suc, ◌+◌, ◌-◌, ◌*◌, ◌/◌, ◌%◌, ◌^◌, Bool, true, false, Option, none, some, List, [], ◌∷◌,
  leb, ltb, ◌==◌, if◌then◌else◌, ◌>>=◌, length, get_or, take, drop, replicate,
}
use yass.IoBuffer.{
  GrowableBuffer, fresh, set_offset, set_capacity, remaining_capacity, write_at, write_data,
  contents,
}
use yass.Crypto.{Aead, Crypter, set_key, set_nonce_prefix, encrypt_packet, decrypt_packet}

-- 0, -EAGAIN and -EBADMSG
pub data Status : Type 0 where
  ok again bad_message : Status

pub record Cipher : Type 0 where
  pub salt : List ℕ
  pub key : List ℕ
  pub key_len : ℕ
  pub tag_len : ℕ
  pub impl : Crypter
  pub counter : ℕ
  pub init : Bool
  pub chunk : Option GrowableBuffer

abbrev pub chunk_size_len : ℕ
chunk_size_len = 2

abbrev pub chunk_size_mask : ℕ
chunk_size_mask = 0x3fff

abbrev pub socket_buf_size : ℕ
socket_buf_size = 17 * 1024

-- `++` on an `uint64_t`
abbrev pub next : ℕ → ℕ
next counter = (counter + 1) % 2 ^ 64

-- `htons(size & CHUNK_SIZE_MASK)` as it lies in memory, and `ntohs` of it.
abbrev pub length_bytes : ℕ → List ℕ
length_bytes size = (size % (chunk_size_mask + 1) / 256) ∷ (size % (chunk_size_mask + 1) % 256) ∷ []

abbrev pub length_of : List ℕ → ℕ
length_of bytes = (get_or bytes 0 0 * 256 + get_or bytes 1 0) % (chunk_size_mask + 1)

-- What the frame functions return and leave behind.
pub record Encrypted : Type 0 where
  pub status : Status
  pub counter : ℕ
  pub ciphertext : GrowableBuffer

pub record Decrypted : Type 0 where
  pub status : Status
  pub counter : ℕ
  pub plaintext : GrowableBuffer
  pub ciphertext : GrowableBuffer

module _ (alg : Aead) (fill : ℕ → ℕ) where
  -- The second half of `chunk_encrypt_frame_aead`, from the first `(*counter)++` on.
  pub encrypt_payload : Cipher → ℕ → List ℕ → ℕ → ℕ → GrowableBuffer → Option Encrypted
  encrypt_payload c counter plaintext previous headroom ciphertext =
      let clen = length plaintext + c.tag_len in
      dcheck (leb clen (remaining_capacity ciphertext)) (
        write_data headroom (replicate clen 0) ciphertext >>= λ b.
        elim (encrypt_packet alg c.impl counter plaintext clen) [
          | none ↦ set_capacity fill previous b >>= λ b'.
              some (record { status = bad_message; counter = counter; ciphertext = b' })
          | some sealed ↦ write_data headroom sealed b >>= λ b'. dcheck (length sealed == clen) (
              dcheck (b'.offset + (headroom + length sealed) == b'.capacity)
                (some (record { status = ok; counter = next counter; ciphertext = b' })))
        ])

  pub chunk_encrypt_frame_aead : Cipher → ℕ → List ℕ → GrowableBuffer → Option Encrypted
  chunk_encrypt_frame_aead c counter plaintext ciphertext =
      let total = 2 * c.tag_len + chunk_size_len + length plaintext in
      let previous = ciphertext.capacity in
      let clen = chunk_size_len + c.tag_len in
      let headroom = remaining_capacity ciphertext in
      dcheck (leb (length plaintext) chunk_size_mask) (
        set_capacity fill (previous + total) ciphertext >>= λ b.
        elim (encrypt_packet alg c.impl counter (length_bytes (length plaintext)) clen) [
          | none ↦ set_capacity fill previous b >>= λ b'.
              some (record { status = bad_message; counter = counter; ciphertext = b' })
          | some sealed ↦ write_data headroom sealed b >>= λ b'.
              dcheck (length sealed == clen)
                (encrypt_payload c (next counter) plaintext previous (headroom + length sealed) b')
        ])

  -- The second half of `chunk_decrypt_frame_aead`, from the second chunk's `clen` on.
  pub decrypt_payload : Cipher → ℕ → ℕ → GrowableBuffer → GrowableBuffer → Option Decrypted
  decrypt_payload c counter mlen plaintext ciphertext =
      let clen = c.tag_len + mlen in
      let back = set_offset (ciphertext.offset - chunk_size_len - c.tag_len) ciphertext in
      if ltb ciphertext.size clen
      then (back >>= λ b.
          some
            (record { status = again; counter = counter; plaintext = plaintext; ciphertext = b }))
      else elim (decrypt_packet alg c.impl (next counter) (read_data clen ciphertext)
          plaintext.capacity) [
            | none ↦ back >>= λ b. some (record {
              status = bad_message;
              counter = next counter;
              plaintext = plaintext;
              ciphertext = b;
            })
            | some message ↦ write_data 0 message plaintext >>= λ p.
                dcheck (length message == mlen) (
                  set_offset (ciphertext.offset + clen) ciphertext >>= λ b.
                  set_offset (p.offset + length message) p >>= λ p'. some (record {
                    status = ok;
                    counter = next (next counter);
                    plaintext = p';
                    ciphertext = b;
                  }))
          ]

  pub chunk_decrypt_frame_aead : Cipher → ℕ → GrowableBuffer → GrowableBuffer → Option Decrypted
  chunk_decrypt_frame_aead c counter plaintext ciphertext =
      let clen = chunk_size_len + c.tag_len in
      let unchanged : Status → Option Decrypted = λ s. some (record {
        status = s;
        counter = counter;
        plaintext = plaintext;
        ciphertext = ciphertext;
      }) in
      if ltb ciphertext.size (c.tag_len + chunk_size_len + c.tag_len)
      then unchanged again
      else elim (decrypt_packet alg c.impl counter (read_data clen ciphertext) chunk_size_len) [
        | none ↦ unchanged bad_message
        | some bytes ↦ dcheck (length bytes == chunk_size_len) (
            if length_of bytes == 0
            then unchanged bad_message
            else (set_offset (ciphertext.offset + clen) ciphertext >>= λ b.
                set_capacity fill (plaintext.offset + length_of bytes) plaintext >>= λ p.
                decrypt_payload c counter (length_of bytes) p b))
      ]
