-- ===== src/Padding.antt =====
-- The padding of src/net/padding.cpp: a payload of up to 65535 bytes gets a header of three bytes, its
-- length and the length of the padding, and zeros behind it. The random length of the padding is an
-- argument. A result `none` is a failed CHECK or DCHECK.
pub mod Frame
mod Tests
use yass.Common.{
  ℕ, ◌+◌, ◌-◌, ◌*◌, ◌/◌, ◌%◌, Option, none, some, List, [], ◌∷◌, leb, ltb, ◌==◌, if◌then◌else◌,
  ◌>>=◌, dcheck, length, get_or, replicate,
}
use yass.IoBuffer.{GrowableBuffer, fresh, set_capacity, set_offset, write_data, read_data}

abbrev pub padding_header_size : ℕ
padding_header_size = 3

-- The bytes `p`, each an `uint8_t`.
abbrev pub padding_header : ℕ → ℕ → List ℕ
padding_header payload_size padding_size =
    (payload_size / 256 % 256) ∷ (payload_size % 256) ∷ (padding_size % 256) ∷ []

pub add_padding : (ℕ → ℕ) → ℕ → List ℕ → Option GrowableBuffer
add_padding fill padding_size payload =
    let n = length payload in
    dcheck (leb n 0xffff) (
      set_capacity fill (padding_header_size + n + padding_size) fresh >>= λ b.
      write_data 0 (padding_header n padding_size) b >>= λ b1.
      write_data padding_header_size payload b1 >>= λ b2.
      write_data (padding_header_size + n) (replicate padding_size 0) b2 >>= λ b3.
      dcheck (b3.size == padding_header_size + n + padding_size) (some b3))

-- The null pointer with one of two error codes, or the payload.
pub data Removed : Type 0 where
  try_again invalid_argument : Removed
  payload : GrowableBuffer → Removed

-- The payload's and the padding's size, as the header has them.
abbrev pub payload_size_of : List ℕ → ℕ
payload_size_of p = get_or p 0 0 * 256 + get_or p 1 0

abbrev pub padding_size_of : List ℕ → ℕ
padding_size_of p = get_or p 2 0

-- `RemovePadding` from `ec = asio::error_code()` on.
pub take_payload : (ℕ → ℕ) → ℕ → ℕ → GrowableBuffer → Option (Removed × GrowableBuffer)
take_payload fill payload_size padding_size buf =
    set_offset (buf.offset + padding_header_size) buf >>= λ b.
    set_capacity fill payload_size fresh >>= λ ret.
    write_data 0 (read_data payload_size b) ret >>= λ ret'.
    set_offset (b.offset + (payload_size + padding_size)) b >>= λ b'. some (payload ret', b')

pub remove_padding : (ℕ → ℕ) → GrowableBuffer → Option (Removed × GrowableBuffer)
remove_padding fill buf =
    let p = read_data padding_header_size buf in
    if ltb buf.size padding_header_size
    then some (try_again, buf)
    else if payload_size_of p == 0
    then some (invalid_argument, buf)
    else if ltb buf.size (padding_header_size + payload_size_of p + padding_size_of p)
    then some (try_again, buf)
    else take_payload fill (payload_size_of p) (padding_size_of p) buf
