-- ===== src/Cipher/Stream.antt =====
-- `process_bytes` of src/net/cipher.cpp: frames that come in pieces are put together and delivered.
use yass.IoBuffer.Read.{size-contents}
use yass.IoBuffer.{read_data}
use yass.Common.{
  ℕ, ◌+◌, ◌≤◌, ◌≡◌, refl, sym, ap, ◌∙◌, true, Option, none, some, List, [], ◌++◌, arith, length,
  take, drop, length-append,
}
use Prim.{Unit}
use yass.IoBuffer.{GrowableBuffer, fresh, remaining_capacity, everything, contents}
use yass.IoBuffer.Valid.{IsValid, fresh-IsValid, set_capacity-IsValid}
use yass.IoBuffer.Append.{contents-everything, write_data_lem, take-write}
use yass.Crypto.{Aead}
use yass.Cipher.{Cipher, next}
use yass.Cipher.Growth.{HasTags, sealed_by, length-sealed}
use yass.Cipher.Session.{Visitor, process_frames, join_chunk, process_bytes}
use yass.Cipher.Delivery.{Frames, done, frame, after, process_frames-delivers}

-- The bytes that a chunk still holds.
abbrev pub left_over : Option GrowableBuffer → List ℕ
left_over none = []
left_over (some b) = contents b

abbrev pub IsChunk : Option GrowableBuffer → Type 0
IsChunk none = Unit
IsChunk (some b) = IsValid b

read-whole : {b : GrowableBuffer} → IsValid b → read_data (remaining_capacity b) b ≡ contents b
unfolding remaining_capacity contents
read-whole {b} v = ap (λ n. take n (drop b.pos b.real_data)) (sym v.rest)

length-whole : {b : GrowableBuffer} → IsValid b → remaining_capacity b ≡ length (contents b)
unfolding remaining_capacity
length-whole v = sym v.rest ∙ size-contents v

-- The chunk of a call: what was left over, then the new bytes.
pub join_chunk-contents :
    (fill : ℕ → ℕ) (chunk : Option GrowableBuffer) {ct : GrowableBuffer}
    → IsChunk chunk
    → IsValid ct
    → (b : GrowableBuffer) × (join_chunk fill chunk ct ≡ some b)
      × IsValid b
      × (contents b ≡ left_over chunk ++ contents ct)
unfolding join_chunk
join_chunk-contents fill none {ct} vl vc = (ct, refl, vc, refl)
join_chunk-contents fill (some left) {ct} vl vc =
    let n = remaining_capacity left in
    let bytes = contents left in
    let more = contents ct in
    let size : n ≡ length bytes = length-whole vl in
    let size_ct : ct.size ≡ length more = size-contents vc in
    let (b, made, v, off0, cap, _) =
      set_capacity-IsValid fill (n + ct.size) fresh-IsValid (unfold fresh in omega arith) in
    let start : b.offset ≡ 0 = off0 ∙ unfold fresh in refl in
    let (b1, wrote, v1, off1, cap1, mem1) = write_data_lem 0 bytes v (omega (arith, v.rest)) in
    let (b2, wrote2, v2, off2, cap2, mem2) = write_data_lem n more v1 (omega (arith, v1.rest)) in
    let begin : b2.offset ≡ 0 = off2 ∙ off1 ∙ start in
    let at : b.offset + 0 ≡ 0 = omega arith in
    let at1 : b1.offset + n ≡ n = omega arith in
    let front : take n b1.real_data ≡ bytes =
      ap (take n)
        (mem1 ∙ ap (λ o. take o b.real_data ++ bytes ++ drop (o + length bytes) b.real_data) at)
      ∙ take-write 0 n bytes b.real_data (omega arith) (omega (arith, v.allocated)) in
    (
      b2,
      rw (made, read-whole vl, wrote, read-whole vc, wrote2) refl,
      v2,
      contents-everything v2
          ∙ ap (λ o. drop o (everything b2)) begin
          ∙ unfold everything in
            (ap (λ k. take k b2.real_data) (cap2 ∙ cap1 ∙ cap)
              ∙ ap (take (n + ct.size)) (
                  mem2
                  ∙ ap (λ o. take o b1.real_data ++ more ++ drop (o + length more) b1.real_data)
                      at1)
              ∙ take-write n (n + ct.size) more b1.real_data (omega arith)
                  (omega (arith, v1.allocated))
              ∙ ap (λ l. l ++ more) front),
    )

-- Each frame has a byte at least.
Frames-room :
    (alg : Aead) (c : Cipher) (tags : HasTags alg c) {k k' : ℕ} {ms : List (List ℕ)}
    {bytes : List ℕ}
    → Frames (sealed_by alg c) k ms bytes k'
    → length ms ≤ length bytes
Frames-room alg c tags done = omega arith
Frames-room alg c tags {k = k}
      (frame {m = m} {s = s} {t = t} {bytes = bytes} some_bytes short e f frames) =
    omega (
      arith,
      Frames-room alg c tags frames,
      length-append s (t ++ bytes),
      length-append t bytes,
      length-sealed alg c tags (next k) m f,
    )

-- A call after the salt, by the run of its loop.
begun_call {ℓ} :
    {V : Type ℓ} (sha1 : List ℕ → List ℕ) (alg : Aead) (fill : ℕ → ℕ) (visitor : Visitor V)
    (c d : Cipher) (ct : GrowableBuffer) {b rest : GrowableBuffer} (v w : V)
    → join_chunk fill c.chunk ct ≡ some b
    → process_frames alg fill visitor (b.size + 1) c b v ≡ some (d, rest, w)
    → c.init ≡ true
    → process_bytes alg fill visitor sha1 c ct v ≡ some (record d { chunk = some rest }, w)
unfolding process_bytes
begun_call sha1 alg fill visitor c d ct v w joined run begun = rw (joined, run, begun)

-- When the salt has been read, and what was left over and the new bytes are together the frames of
-- some messages, a call delivers all of them in order to a visitor that takes them, leaves no byte
-- over, and moves the counter on to the packet number after the last frame.
pub process_bytes-delivers {ℓ} :
    {V : Type ℓ} (sha1 : List ℕ → List ℕ) (alg : Aead) (fill : ℕ → ℕ) (visitor : Visitor V)
    (c : Cipher) (ms : List (List ℕ)) {ct : GrowableBuffer} {k' : ℕ} (v : V)
    → ((m : List ℕ) (w : V) → (visitor.on_received_data m w).0 ≡ true)
    → HasTags alg c
    → c.init ≡ true
    → IsChunk c.chunk
    → IsValid ct
    → Frames (sealed_by alg c) c.counter ms (left_over c.chunk ++ contents ct) k'
    → (rest : GrowableBuffer) × (process_bytes alg fill visitor sha1 c ct v
        ≡ some (record c { counter = k'; chunk = some rest }, after visitor ms v))
      × IsValid rest
      × (contents rest ≡ [])
process_bytes-delivers sha1 alg fill visitor c ms {ct} {k'} v willing tags begun vl vc frames =
    let (b, joined, vb, held) = join_chunk-contents fill c.chunk vl vc in
    let (rest, run, vrest, empty) =
      process_frames-delivers alg fill visitor willing c ms (b.size + 1) v tags vb frames held
        (omega (arith, Frames-room alg c tags frames, size-contents vb, ap length held)) in
    (
      rest,
      begun_call sha1 alg fill visitor c (record c { counter = k' }) ct v (after visitor ms v)
          joined run begun,
      vrest,
      empty,
    )
