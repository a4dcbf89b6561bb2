-- ===== src/IoBuffer/Append.antt =====
-- `appendBytesAtEnd` and `copyBuffer` of src/net/io_buffer.cpp and io_buffer.hpp: what the buffer
-- holds afterwards.
use yass.Common.{
  ℕ, ◌+◌, ◌≤◌, ◌≡◌, refl, sym, ap, ◌∙◌, some, List, ◌++◌, arith, length, take, drop, length-append,
  min, take-append_past, drop-append_within, drop-take, length-take_of_le, length-drop,
}
use mathlib.Core.List.{append-nil}
use yass.IoBuffer.{
  GrowableBuffer, fresh, write_at, write_data, contents, everything, append_bytes_at_end,
  copy_buffer,
}
use yass.IoBuffer.Valid.{IsValid, set_capacity-IsValid, fresh-IsValid}

pub write_at-eq :
    (at : ℕ) (bytes mem : List ℕ)
    → at + length bytes ≤ length mem
    → write_at at bytes mem ≡ some (take at mem ++ bytes ++ drop (at + length bytes) mem)
unfolding write_at
write_at-eq at bytes mem h = ground arith

-- What a write leaves, read as the bytes before it and those up to its end.
pub take-write :
    (at n : ℕ) (bytes mem : List ℕ)
    → n ≡ at + length bytes
    → at + length bytes ≤ length mem
    → take n (take at mem ++ bytes ++ drop (at + length bytes) mem) ≡ take at mem ++ bytes
take-write at n bytes mem e h =
    take-append_past n 0 (take at mem ++ bytes) _
      (omega (arith, length-append (take at mem) bytes, length-take_of_le at mem (omega arith)))
    ∙ append-nil (take at mem ++ bytes)

length-write :
    (at : ℕ) (bytes mem : List ℕ)
    → at + length bytes ≤ length mem
    → length (take at mem ++ bytes ++ drop (at + length bytes) mem) ≡ length mem
length-write at bytes mem h = omega (
  arith,
  length-append (take at mem ++ bytes) (drop (at + length bytes) mem),
  length-append (take at mem) bytes,
  length-take_of_le at mem (omega arith),
  length-drop (at + length bytes) mem,
)

-- The content of a valid buffer is what its whole buffer has behind the offset.
pub contents-everything :
    {b : GrowableBuffer} → IsValid b → contents b ≡ drop b.offset (everything b)
unfolding contents everything
contents-everything {b} v =
    ap (λ p. take b.size (drop p b.real_data)) v.pos_at
    ∙ sym (drop-take b.offset b.size b.capacity b.real_data (omega arith))

-- `appendBytesAtEnd` grows a valid buffer by exactly the given bytes: they follow what the buffer
-- held and what was still to be read, and the offset stays.
pub append_bytes_at_end_lem :
    (fill : ℕ → ℕ) (bytes : List ℕ) {b : GrowableBuffer}
    → IsValid b
    → (c : GrowableBuffer) × (append_bytes_at_end fill bytes b ≡ some c)
      × IsValid c
      × (c.offset ≡ b.offset)
      × (everything c ≡ everything b ++ bytes)
      × (contents c ≡ contents b ++ bytes)
append_bytes_at_end_lem fill bytes {b} v =
    let (c, made, valid, same_offset, cap, kept) =
      set_capacity-IsValid fill (b.capacity + length bytes) v (omega arith) in
    let mem =
      take b.capacity c.real_data ++ bytes ++ drop (b.capacity + length bytes) c.real_data in
    let d : GrowableBuffer = record c { real_data = mem } in
    let fits : b.capacity + length bytes ≤ length c.real_data = omega arith in
    let low : min (b.capacity + length bytes) b.capacity ≡ b.capacity = omega arith in
    let valid_d : IsValid d = record {
      allocated = omega (arith, length-write b.capacity bytes c.real_data fits);
      offset_in = valid.offset_in;
      pos_at = valid.pos_at;
      rest = valid.rest;
    } in
    let all_d : everything d ≡ everything b ++ bytes =
      unfold everything in
      (take-write b.capacity c.capacity bytes c.real_data cap fits
        ∙ ap (λ t. t ++ bytes) (rw low at kept)) in
    (
      d,
      unfold append_bytes_at_end in rw (made, write_at-eq b.capacity bytes c.real_data fits) refl,
      valid_d,
      same_offset,
      all_d,
      contents-everything valid_d
          ∙ ap (drop c.offset) all_d
          ∙ drop-append_within c.offset (everything b) bytes (
              unfold everything in
              omega (arith, length-take_of_le b.capacity b.real_data v.allocated))
          ∙ ap (λ o. drop o (everything b) ++ bytes) same_offset
          ∙ ap (λ t. t ++ bytes) (sym (contents-everything v)),
    )

-- `memcpy` of bytes to the start of a valid buffer that has room for them.
pub write_data_lem :
    (shift : ℕ) (bytes : List ℕ) {b : GrowableBuffer}
    → IsValid b
    → shift + length bytes ≤ b.size
    → (c : GrowableBuffer) × (write_data shift bytes b ≡ some c)
      × IsValid c
      × (c.offset ≡ b.offset)
      × (c.capacity ≡ b.capacity)
      × (c.real_data
          ≡ take (b.offset + shift) b.real_data
            ++ bytes
            ++ drop (b.offset + shift + length bytes) b.real_data)
unfolding write_data
write_data_lem shift bytes {b} v h =
    let fits : b.offset + shift + length bytes ≤ length b.real_data = omega arith in
    let at = b.offset + shift in
    let mem = take at b.real_data ++ bytes ++ drop (at + length bytes) b.real_data in
    (
      record b { real_data = mem },
      rw (v.pos_at, write_at-eq at bytes b.real_data fits),
      record {
        allocated = omega (arith, length-write at bytes b.real_data fits);
        offset_in = v.offset_in;
        pos_at = v.pos_at;
        rest = v.rest;
      },
      refl,
      refl,
      refl,
    )

-- `copyBuffer` makes a valid buffer at offset 0 that holds exactly the given bytes.
pub copy_buffer_lem :
    (fill : ℕ → ℕ) (bytes : List ℕ)
    → (c : GrowableBuffer) × (copy_buffer fill bytes ≡ some c)
      × IsValid c
      × (c.offset ≡ 0)
      × (contents c ≡ bytes)
copy_buffer_lem fill bytes =
    let zero_offset : fresh.offset ≡ 0 = unfold fresh in refl in
    let (b, made, valid, same_offset, cap, _) =
      set_capacity-IsValid fill (length bytes) fresh-IsValid (omega arith) in
    let (c, written, valid_c, same, same_cap, mem) = write_data_lem 0 bytes valid (omega arith) in
    let at : b.offset + 0 ≡ 0 = omega arith in
    let at_zero : c.offset ≡ 0 = omega arith in
    (
      c,
      unfold copy_buffer in rw made written,
      valid_c,
      at_zero,
      contents-everything valid_c
          ∙ ap (λ o. drop o (everything c)) at_zero
          ∙ unfold everything in
            (ap (take c.capacity) (
                mem
                ∙ ap (λ o. take o b.real_data ++ bytes ++ drop (o + length bytes) b.real_data) at)
              ∙ take-append_past c.capacity 0 bytes _ (omega arith)
              ∙ append-nil bytes),
    )
