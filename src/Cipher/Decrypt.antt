-- ===== src/Cipher/Decrypt.antt =====
-- `chunk_decrypt_frame_aead` of src/net/cipher.cpp on a buffer that starts with a whole frame.
use yass.IoBuffer.Read.{size-contents, read-contents, advance, take-front, drop-front}
use yass.IoBuffer.{read_data}
use yass.Common.{
  ℕ, ◌+◌, ◌≤◌, ◌<◌, ◌≡◌, refl, sym, ap, ◌∙◌, true, false, some, List, ◌++◌, arith, ltb, ltb-false,
  ◌==◌, length, take, drop, min, take-take, length-append,
}
use yass.IoBuffer.{GrowableBuffer, set_capacity, set_offset, everything, contents}
use yass.IoBuffer.Valid.{IsValid, set_capacity-IsValid, set_offset-IsValid}
use yass.IoBuffer.Append.{write_data_lem, take-write}
use yass.Crypto.{Aead, decrypt_packet}
use yass.Crypto.Packets.{decrypt-encrypt}
use yass.Cipher.{
  Cipher, ok, chunk_size_len, chunk_size_mask, next, length_bytes, length_of, Decrypted,
  decrypt_payload, chunk_decrypt_frame_aead,
}
use yass.Cipher.Growth.{HasTags, sealed_by, length-sealed, encrypt-sealed}

pub length_of-bytes : (n : ℕ) → n ≤ chunk_size_mask → length_of (length_bytes n) ≡ n
length_of-bytes n h = omega arith

module _ (alg : Aead) (fill : ℕ → ℕ) (c : Cipher) (tags : HasTags alg c) where
  pub opened :
      (counter : ℕ) (m : List ℕ) (room : ℕ) {s : List ℕ}
      → sealed_by alg c counter m ≡ some s
      → length m ≤ room
      → decrypt_packet alg c.impl counter s room ≡ some m
  opened counter m room e h =
      decrypt-encrypt alg c.impl c.impl counter m (length m + c.tag_len) room refl refl
        (omega (arith, tags.impl_tag, tags.alg_tag)) h
        (encrypt-sealed alg c tags counter m (length m + c.tag_len) refl ∙ e)

  decrypt_payload-ok :
      (counter : ℕ) (m rest : List ℕ) {pt ct : GrowableBuffer} {t : List ℕ}
      → IsValid pt
      → IsValid ct
      → pt.capacity ≡ pt.offset + length m
      → sealed_by alg c (next counter) m ≡ some t
      → contents ct ≡ t ++ rest
      → (r : Decrypted) × (decrypt_payload alg fill c counter (length m) pt ct ≡ some r)
        × (r.status ≡ ok)
        × (r.counter ≡ next (next counter))
        × IsValid r.plaintext
        × IsValid r.ciphertext
        × (contents r.ciphertext ≡ rest)
        × (r.plaintext.offset ≡ pt.offset + length m)
        × (everything r.plaintext ≡ take pt.offset pt.real_data ++ m)
  unfolding decrypt_payload
  decrypt_payload-ok counter m rest {pt} {ct} {t} vp vc room e held =
      let clen = c.tag_len + length m in
      let size : clen ≡ length t = omega (arith, length-sealed alg c tags (next counter) m e) in
      let total : ct.size ≡ length t + length rest =
        size-contents vc ∙ ap length held ∙ length-append t rest in
      let (p, written, v1, off1, cap1, mem1) = write_data_lem 0 m vp (omega (arith, vp.rest)) in
      let (b, moved, v2, off2, taken, _, _) = advance clen vc (omega arith) in
      let (p', forward, v3, off3, cap3, mem3) =
        set_offset-IsValid (p.offset + length m) v1 (omega arith) in
      let enough : ltb ct.size clen ≡ false = ltb-false ct.size clen (omega arith) in
      let read : read_data clen ct ≡ t =
        read-contents clen ct (omega arith) ∙ ap (take clen) held ∙ take-front t rest clen size in
      let whole : (length m == length m) ≡ true = ground arith in
      let at : pt.offset + 0 ≡ pt.offset = omega arith in
      (
        record { status = ok; counter = next (next counter); plaintext = p'; ciphertext = b },
        rw
            (
              enough,
              read,
              opened (next counter) m pt.capacity e (omega arith),
              written,
              whole,
              moved,
              forward,
            )
            refl,
        refl,
        refl,
        v3,
        v2,
        taken ∙ ap (drop clen) held ∙ drop-front t rest clen size,
        omega arith,
        unfold everything in
            (ap (λ k. take k p'.real_data) (cap3 ∙ cap1 ∙ room)
              ∙ ap (take (pt.offset + length m)) (mem3 ∙ rw at at mem1)
              ∙ take-write pt.offset (pt.offset + length m) m pt.real_data refl
                  (omega (arith, vp.allocated))),
      )

  -- The first half on a whole frame: the length is read, and the payload follows.
  pub read_length :
      (counter n : ℕ) (s : List ℕ) (pt ct : GrowableBuffer) {p b : GrowableBuffer}
      → c.tag_len + chunk_size_len + c.tag_len ≤ ct.size
      → read_data (chunk_size_len + c.tag_len) ct ≡ s
      → decrypt_packet alg c.impl counter s chunk_size_len ≡ some (length_bytes n)
      → 0 < n
      → length_of (length_bytes n) ≡ n
      → set_offset (ct.offset + (chunk_size_len + c.tag_len)) ct ≡ some b
      → set_capacity fill (pt.offset + n) pt ≡ some p
      → chunk_decrypt_frame_aead alg fill c counter pt ct ≡ decrypt_payload alg fill c counter n p b
  unfolding chunk_decrypt_frame_aead
  read_length counter n s pt ct enough read unsealed some_bytes same moved grown =
      let nonzero : (n == 0) ≡ false = ground arith in
      rw (
        ltb-false ct.size (c.tag_len + chunk_size_len + c.tag_len) enough,
        read,
        unsealed,
        same,
        nonzero,
        moved,
        grown,
      )

  -- On a buffer that starts with a whole frame, the call succeeds: the payload is in the plaintext
  -- buffer between its old offset and its new one, the frame is gone from the ciphertext, what
  -- follows it is left, both buffers are valid, and the counter moves on by two.
  pub chunk_decrypt_frame_aead-ok :
      (counter : ℕ) (m rest : List ℕ) {pt ct : GrowableBuffer} {s t : List ℕ}
      → IsValid pt
      → IsValid ct
      → 0 < length m
      → length m ≤ chunk_size_mask
      → sealed_by alg c counter (length_bytes (length m)) ≡ some s
      → sealed_by alg c (next counter) m ≡ some t
      → contents ct ≡ s ++ (t ++ rest)
      → (r : Decrypted) × (chunk_decrypt_frame_aead alg fill c counter pt ct ≡ some r)
        × (r.status ≡ ok)
        × (r.counter ≡ next (next counter))
        × IsValid r.plaintext
        × IsValid r.ciphertext
        × (contents r.ciphertext ≡ rest)
        × (r.plaintext.offset ≡ pt.offset + length m)
        × (everything r.plaintext ≡ take pt.offset pt.real_data ++ m)
  chunk_decrypt_frame_aead-ok counter m rest {pt} {ct} {s} {t} vp vc some_bytes short e f held =
      let n = length m in
      let clen = chunk_size_len + c.tag_len in
      let size : clen ≡ length s =
        omega (arith, length-sealed alg c tags counter (length_bytes n) e) in
      let size_t : length t ≡ n + c.tag_len = length-sealed alg c tags (next counter) m f in
      let total : ct.size ≡ length s + (length t + length rest) =
        size-contents vc
        ∙ ap length held
        ∙ length-append s (t ++ rest)
        ∙ ap (λ k. length s + k) (length-append t rest) in
      let (b, moved, v1, off1, taken, _, _) = advance clen vc (omega arith) in
      let (p, grown, v2, off2, cap2, kept) =
        set_capacity-IsValid fill (pt.offset + n) vp (omega arith) in
      let mlen : length_of (length_bytes n) ≡ n = length_of-bytes n short in
      let (r, payload, st, cnt, v3, v4, left, off4, got) =
        decrypt_payload-ok counter m rest v2 v1 (omega arith) f
          (taken ∙ ap (drop clen) held ∙ drop-front s (t ++ rest) clen size) in
      let read : read_data clen ct ≡ s =
        read-contents clen ct (omega arith)
        ∙ ap (take clen) held
        ∙ take-front s (t ++ rest) clen size in
      let low : pt.offset ≤ min (pt.offset + n) pt.capacity = omega (arith, vp.offset_in) in
      let old : take pt.offset p.real_data ≡ take pt.offset pt.real_data =
        sym (take-take pt.offset (min (pt.offset + n) pt.capacity) p.real_data low)
        ∙ ap (take pt.offset) kept
        ∙ take-take pt.offset (min (pt.offset + n) pt.capacity) pt.real_data low in
      (
        r,
        read_length counter n s pt ct (omega arith) read
              (opened counter (length_bytes n) chunk_size_len e (omega arith)) some_bytes mlen moved
              grown
            ∙ payload,
        st,
        cnt,
        v3,
        v4,
        left,
        omega arith,
        got ∙ ap (λ l. l ++ m) (ap (λ o. take o p.real_data) off2 ∙ old),
      )
