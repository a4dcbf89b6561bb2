-- ===== src/Cipher/Delivery.antt =====
-- The loop of `process_bytes` of src/net/cipher.cpp over a chunk that holds whole frames.
use yass.IoBuffer.Read.{size-contents}
use yass.Common.{
  ℕ, zero, suc, ◌≤◌, ◌<◌, ◌≡◌, refl, sym, ap, ◌∙◌, true, false, Option, some, List, [], ◌∷◌, ◌++◌,
  arith, ◌==◌, length, take, drop, min, length-append, length-take_of_le,
}
use yass.IoBuffer.{GrowableBuffer, fresh, set_capacity, set_offset, everything, contents}
use yass.IoBuffer.Valid.{IsValid, fresh-IsValid, set_capacity-IsValid, set_offset-IsValid}
use yass.IoBuffer.Append.{contents-everything}
use yass.Crypto.{Aead}
use yass.Cipher.{
  Cipher, ok, socket_buf_size, chunk_size_mask, next, length_bytes, Decrypted,
  chunk_decrypt_frame_aead,
}
use yass.Cipher.Growth.{HasTags, sealed_by, length-sealed}
use yass.Cipher.Decrypt.{chunk_decrypt_frame_aead-ok}
use yass.Cipher.Session.{Visitor, process_frames}

-- The bytes are the frames of the messages, sealed from one packet number on up to another.
pub data Frames (seals : ℕ → List ℕ → Option (List ℕ))
    : ℕ → List (List ℕ) → List ℕ → ℕ → Type 0 where
  done : {k : ℕ} → Frames seals k [] [] k
  frame :
      {k k' : ℕ} {m s t bytes : List ℕ} {ms : List (List ℕ)}
      → 0 < length m
      → length m ≤ chunk_size_mask
      → seals k (length_bytes (length m)) ≡ some s
      → seals (next k) m ≡ some t
      → Frames seals (next (next k)) ms bytes k'
      → Frames seals k (m ∷ ms) (s ++ (t ++ bytes)) k'

-- The visitor's state after the messages, in their order.
abbrev pub after {ℓ} : {V : Type ℓ} → Visitor V → List (List ℕ) → V → V
after visitor [] v = v
after visitor (m ∷ ms) v = after visitor ms ((visitor.on_received_data m v).1)

-- What `process_bytes` does with the plaintext before it delivers it.
delivered :
    (fill : ℕ → ℕ) (m : List ℕ) {p : GrowableBuffer}
    → IsValid p
    → everything p ≡ m
    → p.offset ≡ length m
    → (p1 p2 : GrowableBuffer) × (set_capacity fill p.offset p ≡ some p1)
      × (set_offset 0 p1 ≡ some p2)
      × (contents p2 ≡ m)
delivered fill m {p} v all off =
    let (p1, shrunk, v1, off1, cap1, mem1) = set_capacity-IsValid fill p.offset v (omega arith) in
    let (p2, moved, v2, off2, cap2, mem2) = set_offset-IsValid 0 v1 (omega arith) in
    let cap : p.capacity ≡ p.offset =
      sym (length-take_of_le p.capacity p.real_data v.allocated)
      ∙ (let e : length (take p.capacity p.real_data) ≡ length m =
            unfold everything in ap length all in
          e)
      ∙ sym off in
    let low : min p.offset p.capacity ≡ p.capacity = omega arith in
    (
      p1,
      p2,
      shrunk,
      moved,
      contents-everything v2
          ∙ ap (λ o. drop o (everything p2)) off2
          ∙ unfold everything in
            (ap (λ k. take k p2.real_data) (cap2 ∙ cap1 ∙ sym cap)
              ∙ ap (take p.capacity) mem2
              ∙ rw low at mem1
              ∙ all),
    )

module _ {ℓ} {V : Type ℓ} (alg : Aead) (fill : ℕ → ℕ) (visitor : Visitor V)
    (willing : (m : List ℕ) (v : V) → (visitor.on_received_data m v).0 ≡ true) where
  -- A round of the loop that finds a frame and whose plaintext the visitor takes.
  one_round :
      (c : Cipher) (fuel : ℕ) (chunk : GrowableBuffer) (v : V) {pt p1 p2 : GrowableBuffer}
      {r : Decrypted} {m : List ℕ}
      → (chunk.size == 0) ≡ false
      → set_capacity fill socket_buf_size fresh ≡ some pt
      → chunk_decrypt_frame_aead alg fill c c.counter pt chunk ≡ some r
      → r.status ≡ ok
      → set_capacity fill r.plaintext.offset r.plaintext ≡ some p1
      → set_offset 0 p1 ≡ some p2
      → contents p2 ≡ m
      → process_frames alg fill visitor (suc fuel) c chunk v
        ≡ process_frames alg fill visitor fuel
            (record c { counter = r.counter })
            r.ciphertext
            ((visitor.on_received_data m v).1)
  unfolding process_frames
  one_round c fuel chunk v {p2 = p2} {r = r} full made got st shrunk moved held =
      rw (full, process_frames, made, got, st, shrunk, moved, willing (contents p2) v)
        (ap
          (λ x.
            process_frames alg fill visitor fuel (record c { counter = r.counter }) r.ciphertext
              ((visitor.on_received_data x v).1))
          held)

  pub process_frames-delivers :
      (c : Cipher) (ms : List (List ℕ)) (fuel : ℕ) {chunk : GrowableBuffer} {bytes : List ℕ}
      {k' : ℕ} (v : V)
      → HasTags alg c
      → IsValid chunk
      → Frames (sealed_by alg c) c.counter ms bytes k'
      → contents chunk ≡ bytes
      → length ms < fuel
      → (rest : GrowableBuffer) × (process_frames alg fill visitor fuel c chunk v
          ≡ some (record c { counter = k' }, rest, after visitor ms v))
        × IsValid rest
        × (contents rest ≡ [])
  unfolding process_frames
  process_frames-delivers c ms zero v tags vc frames held h = absurd (omega arith)
  process_frames-delivers c _ (suc fuel) {chunk} v tags vc done held h =
      let gone : (chunk.size == 0) ≡ true = ground (arith, size-contents vc ∙ ap length held) in
      (chunk, rw (gone, process_frames) refl, vc, held)
  process_frames-delivers c (m ∷ ms) (suc fuel) {chunk} v tags vc
        (frame {s = s} {t = t} {bytes = bytes} some_bytes short e f frames) held h =
      let (pt, made, vpt, off0, _, _) =
        set_capacity-IsValid fill socket_buf_size fresh-IsValid (unfold fresh in omega arith) in
      let start : pt.offset ≡ 0 = off0 ∙ unfold fresh in refl in
      let (r, got, st, cnt, vp, vct, left, off, all) =
        chunk_decrypt_frame_aead-ok alg fill c tags c.counter m bytes vpt vc some_bytes short e f
          held in
      let (p1, p2, shrunk, moved, took) =
        delivered fill m vp (all ∙ ap (λ o. take o pt.real_data ++ m) start) (omega arith) in
      let full : (chunk.size == 0) ≡ false = ground (
        arith,
        size-contents vc ∙ ap length held ∙ length-append s (t ++ bytes),
        length-sealed alg c tags c.counter (length_bytes (length m)) e,
      ) in
      let d : Cipher = record c { counter = r.counter } in
      let tags_d : HasTags alg d = record { impl_tag = tags.impl_tag; alg_tag = tags.alg_tag } in
      let (rest, run, vrest, empty) =
        process_frames-delivers d ms fuel ((visitor.on_received_data m v).1) tags_d vct
          (rw cnt frames) left (omega arith) in
      (rest, one_round c fuel chunk v full made got st shrunk moved took ∙ run, vrest, empty)
