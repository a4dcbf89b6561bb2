-- ===== src/IoBuffer/Read.antt =====
-- Reading from the front of a `GrowableIOBuffer` of src/net/io_buffer.cpp by moving its offset.
use yass.Common.{
  ℕ, ◌+◌, ◌≤◌, ◌≡◌, sym, ap, ◌∙◌, some, List, ◌++◌, arith, length, take, drop, take-take, drop-drop,
  take-append_past, drop-append_past, length-take_of_le, length-drop,
}
use mathlib.Core.List.{append-nil}
use yass.IoBuffer.{GrowableBuffer, set_offset, everything, contents, read_data}
use yass.IoBuffer.Valid.{IsValid, set_offset-IsValid}
use yass.IoBuffer.Append.{contents-everything}

pub size-contents : {b : GrowableBuffer} → IsValid b → b.size ≡ length (contents b)
unfolding contents
size-contents {b} v = sym (
    length-take_of_le b.size (drop b.pos b.real_data)
      (omega (arith, length-drop b.pos b.real_data, v.allocated, v.offset_in, v.pos_at, v.rest)))

pub read-contents : (n : ℕ) (b : GrowableBuffer) → n ≤ b.size → read_data n b ≡ take n (contents b)
unfolding contents
read-contents n b h = sym (take-take n b.size (drop b.pos b.real_data) h)

-- Moving the offset on by `n` bytes takes them from the content.
pub advance :
    (n : ℕ) {b : GrowableBuffer}
    → IsValid b
    → n ≤ b.size
    → (c : GrowableBuffer) × (set_offset (b.offset + n) b ≡ some c)
      × IsValid c
      × (c.offset ≡ b.offset + n)
      × (contents c ≡ drop n (contents b))
      × (c.capacity ≡ b.capacity)
      × (everything c ≡ everything b)
advance n {b} v h =
    let (c, moved, vc, off, cap, mem) =
      set_offset-IsValid (b.offset + n) v (omega (arith, v.rest, v.offset_in)) in
    let same : everything c ≡ everything b =
      unfold everything in (ap (λ k. take k c.real_data) cap ∙ ap (take b.capacity) mem) in
    (
      c,
      moved,
      vc,
      off,
      contents-everything vc
          ∙ ap (λ o. drop o (everything c)) off
          ∙ ap (drop (b.offset + n)) same
          ∙ sym (drop-drop n b.offset (b.offset + n) (everything b) (omega arith))
          ∙ ap (drop n) (sym (contents-everything v)),
      cap,
      same,
    )

pub take-front : (s t : List ℕ) (n : ℕ) → n ≡ length s → take n (s ++ t) ≡ s
take-front s t n e = take-append_past n 0 s t (omega (arith, e)) ∙ append-nil s

pub drop-front : (s t : List ℕ) (n : ℕ) → n ≡ length s → drop n (s ++ t) ≡ t
drop-front s t n e = drop-append_past n 0 s t (omega (arith, e))
