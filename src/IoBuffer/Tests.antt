-- ===== src/IoBuffer/Tests.antt =====
-- Concrete runs of `GrowableIOBuffer` of src/net/io_buffer.cpp.
use yass.Common.{◌≡◌, refl, some, [], ◌∷◌, arith, take}
use yass.IoBuffer.{GrowableBuffer, set_capacity}
use yass.IoBuffer.Valid.{IsValid, set_capacity-IsValid}

-- Four bytes, of which one is read.
abbrev read_one : GrowableBuffer
read_one = record { real_data = 7 ∷ 8 ∷ 9 ∷ 10 ∷ []; capacity = 4; offset = 1; size = 3; pos = 1 }

read_one-IsValid : IsValid read_one
read_one-IsValid = record {
  allocated = omega arith;
  offset_in = omega arith;
  pos_at = refl;
  rest = refl;
}

set_capacity-IsValid_example :
    (c : GrowableBuffer) × (set_capacity (λ i. 0) 6 read_one ≡ some c)
    × IsValid c
    × (c.offset ≡ 1)
    × (c.capacity ≡ 6)
    × (take 4 c.real_data ≡ 7 ∷ 8 ∷ 9 ∷ 10 ∷ [])
set_capacity-IsValid_example = set_capacity-IsValid (λ i. 0) 6 read_one-IsValid (omega arith)
