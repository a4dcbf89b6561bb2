-- ===== src/Cipher/Frames.antt =====
-- `chunk_decrypt_frame_aead` of src/net/cipher.cpp on a buffer that holds less than a frame, and the
-- frame functions against each other.
use yass.IoBuffer.Read.{size-contents, read-contents, advance, take-front}
use yass.Common.{
  ℕ, ◌+◌, ◌-◌, ◌*◌, ◌≤◌, ◌<◌, ◌≡◌, refl, sym, ap, ◌∙◌, ◌⊎◌, inl, inr, some, List, [], ◌++◌, arith,
  lt→ltb, length, take, drop, length-append, length-take_of_le, drop-append_past,
  drop-append_within,
}
use mathlib.Core.List.{append-nil}
use yass.IoBuffer.{GrowableBuffer, set_offset, everything, contents}
use yass.IoBuffer.Valid.{IsValid, set_capacity-IsValid, set_offset-IsValid}
use yass.IoBuffer.Append.{contents-everything}
use yass.Crypto.{Aead, key_of, nonce_of}
use yass.Cipher.{
  Cipher, ok, again, chunk_size_len, chunk_size_mask, next, length_bytes, Encrypted, Decrypted,
  decrypt_payload, chunk_encrypt_frame_aead, chunk_decrypt_frame_aead,
}
use yass.Cipher.Growth.{HasTags, sealed_by, length-sealed}
use yass.Cipher.Encrypt.{chunk_encrypt_frame_aead-ok}
use yass.Cipher.Decrypt.{length_of-bytes, opened, read_length, chunk_decrypt_frame_aead-ok}

module _ (alg : Aead) (fill : ℕ → ℕ) (c : Cipher) (tags : HasTags alg c) where
  short_header :
      (counter : ℕ) (pt ct : GrowableBuffer)
      → ct.size < c.tag_len + chunk_size_len + c.tag_len
      → chunk_decrypt_frame_aead alg fill c counter pt ct
        ≡ some (record { status = again; counter = counter; plaintext = pt; ciphertext = ct })
  unfolding chunk_decrypt_frame_aead
  short_header counter pt ct h = rw (lt→ltb ct.size (c.tag_len + chunk_size_len + c.tag_len) h)

  short_payload :
      (counter n : ℕ) (pt ct : GrowableBuffer) {b : GrowableBuffer}
      → ct.size < c.tag_len + n
      → set_offset (ct.offset - chunk_size_len - c.tag_len) ct ≡ some b
      → decrypt_payload alg fill c counter n pt ct
        ≡ some (record { status = again; counter = counter; plaintext = pt; ciphertext = b })
  unfolding decrypt_payload
  short_payload counter n pt ct h back = rw (lt→ltb ct.size (c.tag_len + n) h, back)

  -- On a buffer that ends before the frame does, in the length, or in the payload or its tag, the call
  -- asks to be made again: the counter is the old one, and the buffer is valid, with its offset and
  -- its content.
  pub chunk_decrypt_frame_aead-waits :
      (counter n : ℕ) {pt ct : GrowableBuffer} {s : List ℕ}
      → IsValid pt
      → IsValid ct
      → 0 < n
      → n ≤ chunk_size_mask
      → sealed_by alg c counter (length_bytes n) ≡ some s
      → (ct.size < 2 + 2 * c.tag_len)
        ⊎ ((u : List ℕ) × (contents ct ≡ s ++ u)
            × (c.tag_len ≤ length u)
            × (length u < n + c.tag_len))
      → (r : Decrypted) × (chunk_decrypt_frame_aead alg fill c counter pt ct ≡ some r)
        × (r.status ≡ again)
        × (r.counter ≡ counter)
        × IsValid r.ciphertext
        × (r.ciphertext.offset ≡ ct.offset)
        × (contents r.ciphertext ≡ contents ct)
  chunk_decrypt_frame_aead-waits counter n {pt} {ct} vp vc some_bytes short e (inl h) = (
    record { status = again; counter = counter; plaintext = pt; ciphertext = ct },
    short_header counter pt ct (omega arith),
    refl,
    refl,
    vc,
    refl,
    refl,
  )
  chunk_decrypt_frame_aead-waits counter n {pt} {ct} {s} vp vc some_bytes short e
        (inr (u, held, tagged, h)) =
      let clen = chunk_size_len + c.tag_len in
      let size : clen ≡ length s =
        omega (arith, length-sealed alg c tags counter (length_bytes n) e) in
      let total : ct.size ≡ length s + length u =
        size-contents vc ∙ ap length held ∙ length-append s u in
      let (b, moved, v1, off1, taken, cap1, same1) = advance clen vc (omega arith) in
      let (p, grown, v2, off2, cap2, kept) =
        set_capacity-IsValid fill (pt.offset + n) vp (omega arith) in
      let (b', back, v3, off3, cap3, mem3) =
        set_offset-IsValid (b.offset - chunk_size_len - c.tag_len) v1
          (omega (arith, v1.offset_in)) in
      let off : b'.offset ≡ ct.offset = omega arith in
      let all : everything b' ≡ everything ct =
        unfold everything in
        (ap (λ k. take k b'.real_data) cap3 ∙ ap (take b.capacity) mem3 ∙ same1) in
      (
        record { status = again; counter = counter; plaintext = p; ciphertext = b' },
        read_length alg fill c tags counter n s pt ct (omega arith)
              (read-contents clen ct (omega arith) ∙ ap (take clen) held ∙ take-front s u clen size)
              (opened alg fill c tags counter (length_bytes n) chunk_size_len e (omega arith))
              some_bytes (length_of-bytes n short) moved grown
            ∙ short_payload counter n p b (omega (arith, vc.rest, v1.rest, vc.offset_in)) back,
        refl,
        refl,
        v3,
        off,
        contents-everything v3
            ∙ ap (λ o. drop o (everything b')) off
            ∙ ap (drop ct.offset) all
            ∙ sym (contents-everything vc),
      )

-- A frame that one cipher appends to a buffer without content is read back by a cipher with the same
-- key and the same nonces: the second buffer has the message behind its offset, and the first is empty.
pub frame_round_trip :
    (alg : Aead) (fill fill' : ℕ → ℕ) (c d : Cipher) (counter : ℕ) (m : List ℕ)
    {b pt : GrowableBuffer} {s t : List ℕ}
    → HasTags alg c
    → HasTags alg d
    → key_of c.impl ≡ key_of d.impl
    → ((k : ℕ) → nonce_of c.impl k ≡ nonce_of d.impl k)
    → IsValid b
    → contents b ≡ []
    → IsValid pt
    → 0 < length m
    → length m ≤ chunk_size_mask
    → sealed_by alg c counter (length_bytes (length m)) ≡ some s
    → sealed_by alg c (next counter) m ≡ some t
    → (r : Encrypted) × (chunk_encrypt_frame_aead alg fill c counter m b ≡ some r)
      × (q : Decrypted) × (chunk_decrypt_frame_aead alg fill' d counter pt r.ciphertext ≡ some q)
      × (r.status ≡ ok)
      × (q.status ≡ ok)
      × (r.counter ≡ q.counter)
      × (q.plaintext.offset ≡ pt.offset + length m)
      × (everything q.plaintext ≡ take pt.offset pt.real_data ++ m)
      × (contents q.ciphertext ≡ [])
frame_round_trip alg fill fill' c d counter m {b} {pt} {s} {t} tc td key nonce vb empty vp
      some_bytes short e f =
    let (b', made, vb', off, all) =
      chunk_encrypt_frame_aead-ok alg fill c tc counter m vb short e f in
    let as_d : (k : ℕ) (n : List ℕ) → sealed_by alg d k n ≡ sealed_by alg c k n = λ k n.
      ap (λ x. alg.seal x (nonce_of d.impl k) n) (sym key)
      ∙ ap (λ x. alg.seal (key_of c.impl) x n) (sym (nonce k)) in
    let held : contents b' ≡ s ++ (t ++ []) =
      contents-everything vb'
      ∙ ap (λ o. drop o (everything b')) off
      ∙ ap (drop b.offset) all
      ∙ frame_behind vb empty s t in
    let (q, got, st, cnt, _, _, left, off_q, msg) =
      chunk_decrypt_frame_aead-ok alg fill' d td counter m [] vp vb' some_bytes short
        (as_d counter (length_bytes (length m)) ∙ e) (as_d (next counter) m ∙ f) held in
    (
      record { status = ok; counter = next (next counter); ciphertext = b' },
      made,
      q,
      got,
      refl,
      st,
      sym cnt,
      off_q,
      msg,
      left,
    )
  where
    frame_behind :
        {b : GrowableBuffer}
        → IsValid b
        → contents b ≡ []
        → (s t : List ℕ) → drop b.offset (everything b ++ s ++ t) ≡ s ++ (t ++ [])
    frame_behind {b} v empty s t =
        let gone : b.offset ≡ length (everything b) + 0 =
          unfold everything in
          (omega (
            arith,
            size-contents v,
            ap length empty,
            v.rest,
            v.offset_in,
            length-take_of_le b.capacity b.real_data v.allocated,
          )) in
        drop-append_within b.offset (everything b ++ s) t
          (omega (arith, length-append (everything b) s))
        ∙ ap (λ l. l ++ t) (drop-append_past b.offset 0 (everything b) s gone)
        ∙ ap (λ l. s ++ l) (sym (append-nil t))
