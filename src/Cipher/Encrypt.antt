-- ===== src/Cipher/Encrypt.antt =====
-- `chunk_encrypt_frame_aead` of src/net/cipher.cpp where both packets seal: the frame that it appends.
use yass.Common.{
  ℕ, ◌+◌, ◌-◌, ◌*◌, ◌≤◌, ◌≡◌, refl, ap, ◌∙◌, true, some, List, ◌++◌, arith, leb, ◌==◌, length, take,
  replicate, length-replicate,
}
use yass.IoBuffer.{GrowableBuffer, remaining_capacity, everything}
use yass.IoBuffer.Valid.{IsValid}
use yass.IoBuffer.Append.{write_data_lem, take-write}
use yass.Crypto.{Aead}
use yass.Cipher.{
  Cipher, ok, chunk_size_mask, next, length_bytes, encrypt_payload, chunk_encrypt_frame_aead,
}
use yass.Cipher.Growth.{
  take-before_write, HasTags, sealed_by, length-sealed, encrypt-sealed, length_ok, after_length,
}

module _ (alg : Aead) (fill : ℕ → ℕ) (c : Cipher) (tags : HasTags alg c) where
  encrypt_payload-ok :
      (counter : ℕ) (m : List ℕ) (previous headroom : ℕ) {b : GrowableBuffer} {s : List ℕ}
      → IsValid b
      → b.offset + headroom + (length m + c.tag_len) ≡ b.capacity
      → sealed_by alg c counter m ≡ some s
      → (b' : GrowableBuffer) × (encrypt_payload alg fill c counter m previous headroom b
          ≡ some (record { status = ok; counter = next counter; ciphertext = b' }))
        × IsValid b'
        × (b'.offset ≡ b.offset)
        × (everything b' ≡ take (b.offset + headroom) b.real_data ++ s)
  unfolding encrypt_payload remaining_capacity everything
  encrypt_payload-ok counter m previous headroom {b} {s} v room e =
      let clen = length m + c.tag_len in
      let zeros : List ℕ = replicate clen 0 in
      let size : length zeros ≡ clen = length-replicate clen 0 in
      let (b1, zeroed, v1, off1, cap1, mem1) =
        write_data_lem headroom zeros v (omega (arith, size)) in
      let (b2, written, v2, off2, cap2, mem2) =
        write_data_lem headroom s v1 (omega (arith, length-sealed alg c tags counter m e)) in
      let fits : leb clen (b.capacity - b.offset) ≡ true = ground arith in
      let whole : (length s == clen) ≡ true =
        ground (arith, length-sealed alg c tags counter m e) in
      let full : (b2.offset + (headroom + length s) == b2.capacity) ≡ true =
        ground (arith, length-sealed alg c tags counter m e) in
      (
        b2,
        rw (fits, zeroed, encrypt-sealed alg c tags counter m clen refl, e, written, whole, full)
            refl,
        v2,
        off2 ∙ off1,
        ap (take b2.capacity) mem2
            ∙ take-write (b1.offset + headroom) b2.capacity s b1.real_data
                (omega (arith, length-sealed alg c tags counter m e))
                (omega (arith, length-sealed alg c tags counter m e, v1.allocated))
            ∙ ap (λ t. t ++ s)
                (ap (λ o. take (o + headroom) b1.real_data) off1
                  ∙ take-before_write (b.offset + headroom) zeros b.real_data mem1
                      (omega (arith, v.allocated))),
      )

  -- When both packets seal, the frame is appended to what the buffer holds and the buffer stays
  -- valid with its offset; the counter moves on by two.
  pub chunk_encrypt_frame_aead-ok :
      (counter : ℕ) (m : List ℕ) {b : GrowableBuffer} {s t : List ℕ}
      → IsValid b
      → length m ≤ chunk_size_mask
      → sealed_by alg c counter (length_bytes (length m)) ≡ some s
      → sealed_by alg c (next counter) m ≡ some t
      → (b' : GrowableBuffer) × (chunk_encrypt_frame_aead alg fill c counter m b
          ≡ some (record { status = ok; counter = next (next counter); ciphertext = b' }))
        × IsValid b'
        × (b'.offset ≡ b.offset)
        × (everything b' ≡ everything b ++ s ++ t)
  unfolding chunk_encrypt_frame_aead remaining_capacity
  chunk_encrypt_frame_aead-ok counter m {b} {s} {t} v short e f =
      let n = length m in
      let headroom = b.capacity - b.offset in
      let size : length s ≡ 2 + c.tag_len = length-sealed alg c tags counter (length_bytes n) e in
      let (g, b1, grown, written, _, v1, _, _, off1, cap1, _, _, mem1) =
        after_length fill (2 * c.tag_len + 2 + n) headroom s v refl (omega arith) in
      let (b2, payload, v2, off2, mem2) =
        encrypt_payload-ok (next counter) m b.capacity (headroom + length s) v1 (omega arith) f in
      let whole : (length s == 2 + c.tag_len) ≡ true = ground arith in
      let at : b1.offset + (headroom + length s) ≡ b.capacity + length s = omega arith in
      (
        b2,
        rw
            (
              length_ok m short,
              grown,
              encrypt-sealed alg c tags counter (length_bytes n) (2 + c.tag_len) refl,
              e,
              written,
              whole,
              payload,
            )
            refl,
        v2,
        off2 ∙ off1,
        mem2 ∙ ap (λ o. take o b1.real_data ++ t) at ∙ ap (λ l. l ++ t) mem1,
      )
