-- ===== src/IoBuffer.antt =====
-- The class `GrowableIOBuffer` of src/net/io_buffer.cpp and io_buffer.hpp. `real_data` is the
-- allocation, `pos` the place of the pointer `data_` in it. A result `none` is a failed CHECK, a null
-- dereference or an access outside the allocation. Lengths are `int`s that do not wrap: callers keep
-- them below 2 ^ 31. What `realloc` leaves in new memory is not determined: `fill` gives it.
pub mod Valid
pub mod Append
pub mod Read
pub mod Fill
mod Tests
use yass.Common.{
  ℕ, zero, suc, ◌+◌, ◌-◌, ◌≤◌, Bool, true, false, Option, none, some, List, [], ◌∷◌, ◌++◌, leb, ltb,
  if◌then◌else◌, ◌>>=◌, length, get_or, take, drop,
}

pub record GrowableBuffer : Type 0 where
  pub real_data : List ℕ
  pub capacity : ℕ
  pub offset : ℕ
  pub size : ℕ
  pub pos : ℕ

-- `GrowableIOBuffer()`
unfoldable pub fresh : GrowableBuffer
fresh = record { real_data = []; capacity = 0; offset = 0; size = 0; pos = 0 }

-- The `n` bytes of `fill` from the place `i` on.
abbrev pub garbage : (ℕ → ℕ) → ℕ → ℕ → List ℕ
garbage fill i zero = []
garbage fill i (suc n) = fill i ∷ garbage fill (i + 1) n

-- `realloc`: the old bytes as far as they fit, then undetermined ones.
pub realloc : (ℕ → ℕ) → List ℕ → ℕ → List ℕ
realloc fill bytes n = take n bytes ++ garbage fill (length bytes) (n - length bytes)

pub set_offset : ℕ → GrowableBuffer → Option GrowableBuffer
set_offset offset b =
    if leb offset b.capacity
    then some (record b { offset = offset; pos = offset; size = b.capacity - offset })
    else none

pub set_capacity : (ℕ → ℕ) → ℕ → GrowableBuffer → Option GrowableBuffer
set_capacity fill capacity b =
    if leb capacity b.capacity
    then set_offset b.offset (record b { capacity = capacity })
    else (let grown = record b {
      pos = 0;
      size = 0;
      real_data = realloc fill b.real_data capacity;
      capacity = capacity;
    } in
        if ltb capacity b.offset then set_offset capacity grown else set_offset b.offset grown)

unfoldable pub remaining_capacity : GrowableBuffer → ℕ
remaining_capacity b = b.capacity - b.offset

-- `memcpy` of `bytes` to the place `at` of an allocation.
pub write_at : ℕ → List ℕ → List ℕ → Option (List ℕ)
write_at at bytes mem =
    if leb (at + length bytes) (length mem)
    then some (take at mem ++ bytes ++ drop (at + length bytes) mem)
    else none

-- `memcpy(buf->data() + shift, bytes, n)`
pub write_data : ℕ → List ℕ → GrowableBuffer → Option GrowableBuffer
write_data shift bytes b =
    write_at (b.pos + shift) bytes b.real_data >>= λ m. some (record b { real_data = m })

-- The bytes of `buf->span()`: the `size()` bytes from `data()` on.
unfoldable pub contents : GrowableBuffer → List ℕ
contents b = take b.size (drop b.pos b.real_data)

-- `everything()` and `span_before_offset()`
unfoldable pub everything : GrowableBuffer → List ℕ
everything b = take b.capacity b.real_data

pub span_before_offset : GrowableBuffer → List ℕ
unfolding everything
span_before_offset b = take b.offset (everything b)

unfoldable pub append_bytes_at_end : (ℕ → ℕ) → List ℕ → GrowableBuffer → Option GrowableBuffer
append_bytes_at_end fill bytes b = set_capacity fill (b.capacity + length bytes) b >>= λ c.
    write_at b.capacity bytes c.real_data >>= λ m. some (record c { real_data = m })

pub copy_buffer : (ℕ → ℕ) → List ℕ → Option GrowableBuffer
copy_buffer fill bytes = set_capacity fill (length bytes) fresh >>= write_data 0 bytes

-- The `n` bytes from `buf->bytes()` on.
abbrev pub read_data : ℕ → GrowableBuffer → List ℕ
read_data n b = take n (drop b.pos b.real_data)
