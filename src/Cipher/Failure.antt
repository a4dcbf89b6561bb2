-- ===== src/Cipher/Failure.antt =====
-- `chunk_encrypt_frame_aead` of src/net/cipher.cpp where a packet does not seal: the frame is taken back.
use yass.Common.{
  ℕ, ◌+◌, ◌-◌, ◌*◌, ◌≤◌, ◌≡◌, refl, sym, ap, ◌∙◌, ◌⊎◌, inl, inr, true, none, some, List, [], arith,
  leb, ◌==◌, length, take, replicate, take-take, length-replicate,
}
use yass.IoBuffer.{GrowableBuffer, remaining_capacity, everything}
use yass.IoBuffer.Valid.{IsValid}
use yass.IoBuffer.Append.{write_data_lem}
use yass.Crypto.{Aead}
use yass.Cipher.{
  Cipher, bad_message, chunk_size_mask, next, length_bytes, Encrypted, encrypt_payload,
  chunk_encrypt_frame_aead,
}
use yass.Cipher.Growth.{
  take-before_write, HasTags, sealed_by, length-sealed, encrypt-sealed, length_ok, after_length,
  restored,
}

module _ (alg : Aead) (fill : ℕ → ℕ) (c : Cipher) (tags : HasTags alg c) where
  encrypt_payload-fails :
      (counter : ℕ) (m : List ℕ) (headroom : ℕ) {b b1 : GrowableBuffer}
      → IsValid b
      → IsValid b1
      → b1.offset ≡ b.offset
      → b.capacity ≤ b.offset + headroom
      → b1.offset + headroom + (length m + c.tag_len) ≡ b1.capacity
      → take b.capacity b1.real_data ≡ everything b
      → sealed_by alg c counter m ≡ none
      → (b' : GrowableBuffer) × (encrypt_payload alg fill c counter m b.capacity headroom b1
          ≡ some (record { status = bad_message; counter = counter; ciphertext = b' }))
        × IsValid b'
        × (b'.offset ≡ b.offset)
        × (everything b' ≡ everything b)
  unfolding encrypt_payload remaining_capacity
  encrypt_payload-fails counter m headroom {b} {b1} v v1 off behind room kept e =
      let clen = length m + c.tag_len in
      let zeros : List ℕ = replicate clen 0 in
      let size : length zeros ≡ clen = length-replicate clen 0 in
      let (b2, zeroed, v2, off2, cap2, mem2) =
        write_data_lem headroom zeros v1 (omega (arith, size)) in
      let at = b1.offset + headroom in
      let kept2 : take b.capacity b2.real_data ≡ everything b =
        sym (take-take b.capacity at b2.real_data (omega arith))
        ∙ ap (take b.capacity)
            (take-before_write at zeros b1.real_data mem2 (omega (arith, v1.allocated)))
        ∙ take-take b.capacity at b1.real_data (omega arith)
        ∙ kept in
      let (b', shrunk, v', off', mem') = restored fill v v2 (off2 ∙ off) (omega arith) kept2 in
      let fits : leb clen (b1.capacity - b1.offset) ≡ true = ground arith in
      (
        b',
        rw (fits, zeroed, encrypt-sealed alg c tags counter m clen refl, e, shrunk) refl,
        v',
        off',
        mem',
      )

  -- When one of the two packets does not seal, the frame is taken back: the call reports a bad
  -- message, and the buffer is valid and holds what it held, with its offset.
  pub chunk_encrypt_frame_aead-fails :
      (counter : ℕ) (m : List ℕ) {b : GrowableBuffer}
      → IsValid b
      → length m ≤ chunk_size_mask
      → (sealed_by alg c counter (length_bytes (length m)) ≡ none)
        ⊎ ((s : List ℕ) × (sealed_by alg c counter (length_bytes (length m)) ≡ some s)
            × (sealed_by alg c (next counter) m ≡ none))
      → (r : Encrypted) × (chunk_encrypt_frame_aead alg fill c counter m b ≡ some r)
        × (r.status ≡ bad_message)
        × IsValid r.ciphertext
        × (r.ciphertext.offset ≡ b.offset)
        × (everything r.ciphertext ≡ everything b)
  unfolding chunk_encrypt_frame_aead remaining_capacity
  chunk_encrypt_frame_aead-fails counter m {b} v short (inl e) =
      let n = length m in
      let (g, b1, grown, _, vg, _, goff, gcap, _, _, old, _, _) =
        after_length fill (2 * c.tag_len + 2 + n) (b.capacity - b.offset) [] v refl (omega arith) in
      let (b', shrunk, v', off', mem') = restored fill v vg goff (omega arith) old in
      (
        record { status = bad_message; counter = counter; ciphertext = b' },
        rw
            (
              length_ok m short,
              grown,
              encrypt-sealed alg c tags counter (length_bytes n) (2 + c.tag_len) refl,
              e,
              shrunk,
            )
            refl,
        refl,
        v',
        off',
        mem',
      )
  chunk_encrypt_frame_aead-fails counter m {b} v short (inr (s, e, f)) =
      let n = length m in
      let headroom = b.capacity - b.offset in
      let size : length s ≡ 2 + c.tag_len = length-sealed alg c tags counter (length_bytes n) e in
      let (g, b1, grown, written, _, v1, _, _, off1, cap1, _, old, _) =
        after_length fill (2 * c.tag_len + 2 + n) headroom s v refl (omega arith) in
      let (b', payload, v', off', mem') =
        encrypt_payload-fails (next counter) m (headroom + length s) v v1 off1
          (omega (arith, v.offset_in)) (omega (arith, v.offset_in)) old f in
      let whole : (length s == 2 + c.tag_len) ≡ true = ground arith in
      (
        record { status = bad_message; counter = next counter; ciphertext = b' },
        rw
            (
              length_ok m short,
              grown,
              encrypt-sealed alg c tags counter (length_bytes n) (2 + c.tag_len) refl,
              e,
              written,
              whole,
              payload,
            )
            refl,
        refl,
        v',
        off',
        mem',
      )
