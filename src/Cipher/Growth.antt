-- ===== src/Cipher/Growth.antt =====
-- The buffer while `chunk_encrypt_frame_aead` of src/net/cipher.cpp writes: what a write leaves before it,
-- what growing keeps, and what shrinking back restores.
use yass.Common.{
  ℕ, ◌+◌, ◌-◌, ◌≤◌, ◌≡◌, refl, ap, ◌∙◌, true, Option, some, List, ◌++◌, arith, leb, length, take,
  drop, min, take-take, take-append_within, length-take_of_le, length-append,
}
use yass.IoBuffer.{GrowableBuffer, set_capacity, write_data, everything}
use yass.IoBuffer.Valid.{IsValid, set_capacity-IsValid}
use yass.IoBuffer.Append.{write_data_lem, take-write}
use yass.Crypto.{Aead, key_of, nonce_of, encrypt_packet}
use yass.Crypto.Packets.{encrypt_packet-seal}
use yass.Cipher.{Cipher, chunk_size_mask}

-- A write of bytes at `at` leaves the bytes before it.
pub take-before_write :
    (at : ℕ) (bytes mem : List ℕ) {mem' : List ℕ}
    → mem' ≡ take at mem ++ bytes ++ drop (at + length bytes) mem
    → at ≤ length mem
    → take at mem' ≡ take at mem
take-before_write at bytes mem e h =
    ap (take at) e
    ∙ take-append_within at (take at mem ++ bytes) (drop (at + length bytes) mem)
        (omega (arith, length-append (take at mem) bytes, length-take_of_le at mem h))
    ∙ take-append_within at (take at mem) bytes (omega (arith, length-take_of_le at mem h))
    ∙ take-take at at mem (omega arith)

-- The cipher's tags have the length that the algorithm adds.
pub record HasTags (alg : Aead) (c : Cipher) : Type 0 where
  pub impl_tag : c.impl.auth_tag_size ≡ c.tag_len
  pub alg_tag : alg.tag_len ≡ c.tag_len

-- What the algorithm makes of a message under a packet number.
abbrev pub sealed_by : Aead → Cipher → ℕ → List ℕ → Option (List ℕ)
sealed_by alg c counter message = alg.seal (key_of c.impl) (nonce_of c.impl counter) message

module _ (alg : Aead) (c : Cipher) (tags : HasTags alg c) where
  pub length-sealed :
      (counter : ℕ) (message : List ℕ) {s : List ℕ}
      → sealed_by alg c counter message ≡ some s
      → length s ≡ length message + c.tag_len
  length-sealed counter message {s} e =
      omega
        (arith, tags.alg_tag, alg.length-seal (key_of c.impl) (nonce_of c.impl counter) message s e)

  pub encrypt-sealed :
      (counter : ℕ) (message : List ℕ) (room : ℕ)
      → room ≡ length message + c.tag_len
      → encrypt_packet alg c.impl counter message room ≡ sealed_by alg c counter message
  encrypt-sealed counter message room e =
      encrypt_packet-seal alg c.impl counter message room (omega (arith, tags.impl_tag))

pub length_ok : (m : List ℕ) → length m ≤ chunk_size_mask → leb (length m) chunk_size_mask ≡ true
length_ok m h = ground arith

module _ (fill : ℕ → ℕ) where
  -- The buffer of `b`, grown by `total` bytes, with `s` written behind what it held.
  pub after_length :
      (total headroom : ℕ) (s : List ℕ) {b : GrowableBuffer}
      → IsValid b
      → headroom ≡ b.capacity - b.offset
      → length s ≤ total
      → (g b1 : GrowableBuffer) × (set_capacity fill (b.capacity + total) b ≡ some g)
        × (write_data headroom s g ≡ some b1)
        × IsValid g
        × IsValid b1
        × (g.offset ≡ b.offset)
        × (g.capacity ≡ b.capacity + total)
        × (b1.offset ≡ b.offset)
        × (b1.capacity ≡ b.capacity + total)
        × (take b.capacity g.real_data ≡ everything b)
        × (take b.capacity b1.real_data ≡ everything b)
        × (take (b.capacity + length s) b1.real_data ≡ everything b ++ s)
  unfolding everything
  after_length total headroom s {b} v h small =
      let (g, grown, vg, offg, capg, kept) =
        set_capacity-IsValid fill (b.capacity + total) v (omega arith) in
      let (b1, written, v1, off1, cap1, mem1) = write_data_lem headroom s vg (omega arith) in
      let low : min (b.capacity + total) b.capacity ≡ b.capacity = omega arith in
      let old : take b.capacity g.real_data ≡ take b.capacity b.real_data = rw low at kept in
      let at : g.offset + headroom ≡ b.capacity = omega arith in
      let mem : b1.real_data
          ≡ take b.capacity g.real_data ++ s ++ drop (b.capacity + length s) g.real_data =
        rw at at mem1 in
      (
        g,
        b1,
        grown,
        written,
        vg,
        v1,
        offg,
        capg,
        off1 ∙ offg,
        cap1 ∙ capg,
        old,
        take-before_write b.capacity s g.real_data mem (omega (arith, vg.allocated)) ∙ old,
        ap (take (b.capacity + length s)) mem
            ∙ take-write b.capacity (b.capacity + length s) s g.real_data refl
                (omega (arith, vg.allocated))
            ∙ ap (λ t. t ++ s) old,
      )

  -- `SetCapacity` back to what the buffer had, after the bytes up to there were left alone.
  pub restored :
      {b b1 : GrowableBuffer}
      → IsValid b
      → IsValid b1
      → b1.offset ≡ b.offset
      → b.capacity ≤ b1.capacity
      → take b.capacity b1.real_data ≡ everything b
      → (b' : GrowableBuffer) × (set_capacity fill b.capacity b1 ≡ some b')
        × IsValid b'
        × (b'.offset ≡ b.offset)
        × (everything b' ≡ everything b)
  unfolding everything
  restored {b} {b1} v v1 off grown kept =
      let (b', shrunk, v', off', cap', mem') =
        set_capacity-IsValid fill b.capacity v1 (omega (arith, v.offset_in)) in
      let low : min b.capacity b1.capacity ≡ b.capacity = omega arith in
      (b', shrunk, v', off' ∙ off, ap (λ k. take k b'.real_data) cap' ∙ rw low at mem' ∙ kept)
