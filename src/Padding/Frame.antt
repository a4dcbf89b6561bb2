-- ===== src/Padding/Frame.antt =====
-- `AddPadding` and `RemovePadding` of src/net/padding.cpp against the layout of a padded payload.
use yass.Common.{
  ℕ, ◌+◌, ◌≤◌, ◌<◌, ◌≡◌, refl, sym, ap, ◌∙◌, true, false, some, List, [], ◌++◌, arith, leb,
  ltb-false, ◌==◌, length, take, drop, replicate, length-append, length-replicate,
}
use mathlib.Core.List.{append_assoc, append-nil}
use yass.IoBuffer.{GrowableBuffer, fresh, set_capacity, set_offset, write_data, contents, read_data}
use yass.IoBuffer.Valid.{IsValid}
use yass.IoBuffer.Read.{size-contents, read-contents, advance, take-front, drop-front}
use yass.IoBuffer.Fill.{fresh-HasFirst, write_data-HasFirst, HasFirst-contents}
use yass.Padding.{
  padding_header_size, padding_header, add_padding, payload, payload_size_of, padding_size_of,
  take_payload, remove_padding,
}

add_steps :
    (fill : ℕ → ℕ) (k : ℕ) (m : List ℕ) {b b1 b2 b3 : GrowableBuffer}
    → length m ≤ 0xffff
    → set_capacity fill (padding_header_size + length m + k) fresh ≡ some b
    → write_data 0 (padding_header (length m) k) b ≡ some b1
    → write_data padding_header_size m b1 ≡ some b2
    → write_data (padding_header_size + length m) (replicate k 0) b2 ≡ some b3
    → b3.size ≡ padding_header_size + length m + k
    → add_padding fill k m ≡ some b3
unfolding add_padding
add_steps fill k m {b3 = b3} short made wrote1 wrote2 wrote3 size =
    let fits : leb (length m) 0xffff ≡ true = ground arith in
    let whole : (b3.size == padding_header_size + length m + k) ≡ true = ground arith in
    rw (fits, made, wrote1, wrote2, wrote3, whole)

-- `AddPadding` gives a valid buffer that holds the header, the payload and as many zeros as the
-- padding is long, for a payload of up to 65535 bytes.
pub add_padding-layout :
    (fill : ℕ → ℕ) (k : ℕ) (m : List ℕ)
    → length m ≤ 0xffff
    → (b : GrowableBuffer) × (add_padding fill k m ≡ some b)
      × IsValid b
      × (contents b ≡ padding_header (length m) k ++ (m ++ replicate k 0))
add_padding-layout fill k m short =
    let n = length m in
    let zs : List ℕ = replicate k 0 in
    let hdr = padding_header n k in
    let size : length zs ≡ k = length-replicate k 0 in
    let (b, made, h) = fresh-HasFirst fill (padding_header_size + n + k) in
    let (b1, wrote1, h1) = write_data-HasFirst hdr h (omega arith) in
    let (b2, wrote2, h2) = write_data-HasFirst m h1 (omega arith) in
    let (b3, wrote3, h3) = write_data-HasFirst zs h2 (omega (arith, size, length-append hdr m)) in
    let e : length (hdr ++ m) ≡ padding_header_size + n = omega (arith, length-append hdr m) in
    let total : length (hdr ++ m ++ zs) ≡ padding_header_size + n + k =
      omega (arith, size, e, length-append (hdr ++ m) zs) in
    (
      b3,
      add_steps fill k m short made wrote1 wrote2 (ap (λ i. write_data i zs b2) (sym e) ∙ wrote3)
          (omega (arith, h3.valid.rest, h3.start, h3.capacity_is)),
      h3.valid,
      HasFirst-contents h3 total ∙ append_assoc hdr m zs,
    )

take_steps :
    (fill : ℕ → ℕ) (n k : ℕ) (buf : GrowableBuffer) {b b' ret ret' : GrowableBuffer}
    → set_offset (buf.offset + padding_header_size) buf ≡ some b
    → set_capacity fill n fresh ≡ some ret
    → write_data 0 (read_data n b) ret ≡ some ret'
    → set_offset (b.offset + (n + k)) b ≡ some b'
    → take_payload fill n k buf ≡ some (payload ret', b')
unfolding take_payload
take_steps fill n k buf moved made wrote gone = rw (moved, made, wrote, gone)

-- The part of `RemovePadding` that takes the payload out.
take_payload-whole :
    (fill : ℕ → ℕ) (k : ℕ) (m rest : List ℕ) {buf : GrowableBuffer}
    → IsValid buf
    → contents buf ≡ padding_header (length m) k ++ (m ++ (replicate k 0 ++ rest))
    → (ret b : GrowableBuffer) × (take_payload fill (length m) k buf ≡ some (payload ret, b))
      × IsValid ret
      × (contents ret ≡ m)
      × IsValid b
      × (contents b ≡ rest)
take_payload-whole fill k m rest {buf} v held =
    let n = length m in
    let zs : List ℕ = replicate k 0 in
    let hdr = padding_header n k in
    let size : length zs ≡ k = length-replicate k 0 in
    let total : buf.size ≡ 3 + (n + (k + length rest)) = omega (
      arith,
      size-contents v,
      ap length held,
      length-append hdr (m ++ (zs ++ rest)),
      length-append m (zs ++ rest),
      length-append zs rest,
      size,
    ) in
    let (b, moved, vb, _, taken, _, _) = advance padding_header_size v (omega arith) in
    let behind : contents b ≡ m ++ (zs ++ rest) =
      taken ∙ ap (drop padding_header_size) held ∙ drop-front hdr (m ++ (zs ++ rest)) 3 refl in
    let size_b : b.size ≡ n + (k + length rest) = omega (
      arith,
      size-contents vb,
      ap length behind,
      length-append m (zs ++ rest),
      length-append zs rest,
      size,
    ) in
    let read : read_data n b ≡ m =
      read-contents n b (omega arith) ∙ ap (take n) behind ∙ take-front m (zs ++ rest) n refl in
    let (ret, made, h) = fresh-HasFirst fill n in
    let (ret', wrote, h') = write_data-HasFirst m h (omega arith) in
    let (b', gone, vb', _, left, _, _) = advance (n + k) vb (omega arith) in
    (
      ret',
      b',
      take_steps fill n k buf moved made (ap (λ l. write_data 0 l ret) read ∙ wrote) gone,
      h'.valid,
      HasFirst-contents h' refl,
      vb',
      left
          ∙ ap (drop (n + k)) (behind ∙ sym (append_assoc m zs rest))
          ∙ drop-front (m ++ zs) rest (n + k) (omega (arith, length-append m zs, size)),
    )

zeros : (k : ℕ) → length {A = ℕ} (replicate k 0) ≡ k
zeros k = length-replicate k 0

-- The header of a whole padded payload, read back.
header_read :
    (fill : ℕ → ℕ) (n k : ℕ) (buf : GrowableBuffer)
    → read_data padding_header_size buf ≡ padding_header n k
    → 0 < n
    → n ≤ 0xffff
    → k ≤ 255
    → padding_header_size + n + k ≤ buf.size
    → remove_padding fill buf ≡ take_payload fill n k buf
unfolding remove_padding
header_read fill n k buf read some_bytes short small enough =
    let size : payload_size_of (padding_header n k) ≡ n = omega arith in
    let pad : padding_size_of (padding_header n k) ≡ k = omega arith in
    let nonzero : (n == 0) ≡ false = ground arith in
    rw (
      ltb-false buf.size padding_header_size (omega arith),
      read,
      size,
      pad,
      nonzero,
      ltb-false buf.size (padding_header_size + n + k) enough,
    )

-- From a buffer that starts with a padded payload, not empty, `RemovePadding` gives a buffer with the
-- payload, and leaves what follows the padding.
pub remove_padding-whole :
    (fill : ℕ → ℕ) (k : ℕ) (m rest : List ℕ) {buf : GrowableBuffer}
    → IsValid buf
    → 0 < length m
    → length m ≤ 0xffff
    → k ≤ 255
    → contents buf ≡ padding_header (length m) k ++ (m ++ (replicate k 0 ++ rest))
    → (ret b : GrowableBuffer) × (remove_padding fill buf ≡ some (payload ret, b))
      × IsValid ret
      × (contents ret ≡ m)
      × IsValid b
      × (contents b ≡ rest)
remove_padding-whole fill k m rest {buf} v some_bytes short small held =
    let n = length m in
    let hdr = padding_header n k in
    let tail = m ++ (replicate k 0 ++ rest) in
    let total : buf.size ≡ 3 + (n + (k + length rest)) = omega (
      arith,
      size-contents v,
      ap length held,
      length-append hdr tail,
      length-append m (replicate k 0 ++ rest),
      length-append (replicate k 0) rest,
      zeros k,
    ) in
    let read : read_data padding_header_size buf ≡ hdr =
      read-contents padding_header_size buf (omega arith)
      ∙ ap (take padding_header_size) held
      ∙ take-front hdr tail padding_header_size refl in
    let (ret, b, took, vr, cr, vb, cb) = take_payload-whole fill k m rest v held in
    (
      ret,
      b,
      header_read fill n k buf read (omega arith) (omega arith) small (omega arith) ∙ took,
      vr,
      cr,
      vb,
      cb,
    )

-- What `AddPadding` makes of a payload that is not empty, `RemovePadding` turns back into the payload,
-- and nothing is left over.
pub padding_round_trip :
    (fill fill' : ℕ → ℕ) (k : ℕ) (m : List ℕ)
    → 0 < length m
    → length m ≤ 0xffff
    → k ≤ 255
    → (padded ret b : GrowableBuffer) × (add_padding fill k m ≡ some padded)
      × (remove_padding fill' padded ≡ some (payload ret, b))
      × (contents ret ≡ m)
      × (contents b ≡ [])
padding_round_trip fill fill' k m some_bytes short small =
    let (padded, added, v, held) = add_padding-layout fill k m short in
    let (ret, b, removed, _, got, _, left) =
      remove_padding-whole fill' k m [] v some_bytes short small (
        held
        ∙ ap (λ l. padding_header (length m) k ++ (m ++ l)) (sym (append-nil (replicate k 0)))) in
    (padded, ret, b, added, removed, got, left)
