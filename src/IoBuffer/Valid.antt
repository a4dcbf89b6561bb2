-- ===== src/IoBuffer/Valid.antt =====
-- The representation invariant of `GrowableIOBuffer` (src/net/io_buffer.cpp), and when `SetCapacity`
-- and `set_offset` pass their CHECKs.
use yass.Common.{
  ℕ, zero, suc, ◌+◌, ◌-◌, ◌≤◌, ◌<◌, ◌≡◌, refl, ap, ◌∙◌, none, some, List, arith, length, take,
  length-append, length-take, min, take-take, take-append_within,
}
use native.Mathlib.Decide.{dec_le}
use yass.IoBuffer.{GrowableBuffer, fresh, garbage, realloc, set_offset, set_capacity}

pub record IsValid (b : GrowableBuffer) : Type 0 where
  pub allocated : b.capacity ≤ length b.real_data
  pub offset_in : b.offset ≤ b.capacity
  pub pos_at : b.pos ≡ b.offset
  pub rest : b.size ≡ b.capacity - b.offset

pub fresh-IsValid : IsValid fresh
unfolding fresh
fresh-IsValid = omega arith

length-garbage : (fill : ℕ → ℕ) (i n : ℕ) → length (garbage fill i n) ≡ n
length-garbage fill i zero = refl
length-garbage fill i (suc n) = ap suc (length-garbage fill (i + 1) n)

pub length-realloc : (fill : ℕ → ℕ) (bytes : List ℕ) (n : ℕ) → length (realloc fill bytes n) ≡ n
unfolding realloc
length-realloc fill bytes n = omega (
  arith,
  length-append (take n bytes) (garbage fill (length bytes) (n - length bytes)),
  length-take n bytes,
  length-garbage fill (length bytes) (n - length bytes),
)

pub take-realloc :
    (fill : ℕ → ℕ) (bytes : List ℕ) (m n : ℕ)
    → m ≤ length bytes
    → m ≤ n
    → take m (realloc fill bytes n) ≡ take m bytes
unfolding realloc
take-realloc fill bytes m n h hn =
    take-append_within m (take n bytes) _ (omega (arith, length-take n bytes))
    ∙ take-take m n bytes hn

-- `set_offset` passes its CHECK exactly up to the capacity, moves only the offset, and the result is
-- valid again.
pub set_offset-IsValid :
    (offset : ℕ) {b : GrowableBuffer}
    → IsValid b
    → offset ≤ b.capacity
    → (c : GrowableBuffer) × (set_offset offset b ≡ some c)
      × IsValid c
      × (c.offset ≡ offset)
      × (c.capacity ≡ b.capacity)
      × (c.real_data ≡ b.real_data)
unfolding set_offset
set_offset-IsValid offset {b} v h = (
  record b { offset = offset; pos = offset; size = b.capacity - offset },
  ground arith,
  ground arith,
  refl,
  refl,
  refl,
)

pub set_offset_beyond :
    (offset : ℕ) (b : GrowableBuffer) → b.capacity < offset → set_offset offset b ≡ none
unfolding set_offset
set_offset_beyond offset b h = ground arith

-- `SetCapacity` at the offset or above succeeds, keeps the offset, leaves a valid buffer of that
-- capacity, and keeps the bytes that lie below both capacities.
pub set_capacity-IsValid :
    (fill : ℕ → ℕ) (capacity : ℕ) {b : GrowableBuffer}
    → IsValid b
    → b.offset ≤ capacity
    → (c : GrowableBuffer) × (set_capacity fill capacity b ≡ some c)
      × IsValid c
      × (c.offset ≡ b.offset)
      × (c.capacity ≡ capacity)
      × (take (min capacity b.capacity) c.real_data ≡ take (min capacity b.capacity) b.real_data)
unfolding set_capacity set_offset
set_capacity-IsValid fill capacity {b} v h = elim (dec_le capacity b.capacity) [
  | yes p ↦ (
    record b { capacity = capacity; offset = b.offset; pos = b.offset; size = capacity - b.offset },
    ground arith,
    ground arith,
    refl,
    refl,
    refl,
  )
  | no p ↦ (
    record {
      real_data = realloc fill b.real_data capacity;
      capacity = capacity;
      offset = b.offset;
      size = capacity - b.offset;
      pos = b.offset;
    },
    ground arith,
    ground (arith, length-realloc fill b.real_data capacity),
    refl,
    refl,
    take-realloc fill b.real_data (min capacity b.capacity) capacity (omega arith) (omega arith),
  )
]

-- `SetCapacity` below the offset of a valid buffer fails a CHECK: its last lines, which would move
-- the offset down to the new capacity, are reached only where the capacity grows.
pub set_capacity_below_offset :
    (fill : ℕ → ℕ) (capacity : ℕ) {b : GrowableBuffer}
    → IsValid b
    → capacity < b.offset
    → set_capacity fill capacity b ≡ none
unfolding set_capacity set_offset
set_capacity_below_offset fill capacity v h = ground arith
