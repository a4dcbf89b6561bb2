-- ===== src/Handshake.antt =====
-- What the handshakes of src/cli/cli_connection.cpp and src/server/server_connection.cpp share: the
-- error codes of asio that they compare with, the methods of net/cipher.hpp that speak SOCKS, and a
-- GrowableIOBuffer of net/io_buffer.hpp as its readers see it. `mem` goes on behind the buffer's end,
-- as memory does: a parser that reads past the end takes what it holds.
mod Bytes
pub mod Views
unfoldable pub use Bytes.*
use yass.Common.{
  ℕ, ◌+◌, ◌-◌, ◌≡◌, Bool, true, false, not, ◌&&◌, ◌||◌, Option, none, some, List, [], ◌∷◌, leb, ltb,
  ◌==◌, if◌then◌else◌, Mem, slice, length, get_or,
}
use yass.Address.{Outcome, good, bad, indeterminate}

-- `asio::error_code`: those the code names, and any other of the system.
pub data ErrorCode : Type 0 where
  invalid_argument connection_refused access_denied connection_reset : ErrorCode
  try_again would_block interrupted eof bad_descriptor operation_aborted : ErrorCode
  system : ℕ → ErrorCode

-- `ec == asio::error::try_again || ec == asio::error::would_block`
abbrev pub is_retry : ErrorCode → Bool
is_retry try_again = true
is_retry would_block = true
is_retry _ = false

-- `ec == asio::error::bad_descriptor || ec == asio::error::operation_aborted`
abbrev pub is_cancelled : ErrorCode → Bool
is_cancelled bad_descriptor = true
is_cancelled operation_aborted = true
is_cancelled _ = false

-- `cipher_method`; `other` is each that does not speak SOCKS.
pub data CipherMethod : Type 0 where
  crypto_socks4 crypto_socks4a crypto_socks5 crypto_socks5h other : CipherMethod

abbrev pub is_socks4_method : CipherMethod → Bool
is_socks4_method crypto_socks4 = true
is_socks4_method crypto_socks4a = true
is_socks4_method _ = false

abbrev pub is_socks5_method : CipherMethod → Bool
is_socks5_method crypto_socks5 = true
is_socks5_method crypto_socks5h = true
is_socks5_method _ = false

-- From `data()`, at `offset`, up to the capacity.
pub record View : Type 0 where
  pub mem : Mem
  pub offset : ℕ
  pub capacity : ℕ

abbrev pub size : View → ℕ
size b = b.capacity - b.offset

abbrev pub contents : View → List ℕ
contents b = slice b.mem b.offset (size b)

-- `buf->set_offset(buf->offset() + n)`; `none` is the failed CHECK of `set_offset`.
unfoldable pub advance : ℕ → View → Option View
advance n b =
    if leb (b.offset + n) b.capacity then some (record b { offset = b.offset + n }) else none

-- What `read_some` filled, and the capacity was set to: `behind` is what lies in memory after it.
unfoldable pub received_view : Mem → List ℕ → View
received_view behind bytes = record {
  mem = λ j. if ltb j (length bytes) then get_or bytes j 0 else behind j;
  offset = 0;
  capacity = length bytes;
}

-- What a read gives: an error, or the buffer that it filled.
pub data Received : Type 0 where
  failed : ErrorCode → Received
  received : View → Received

-- `!username.empty() && !password.empty()`
abbrev pub auth_required : List ℕ → List ℕ → Bool
auth_required [] password = false
auth_required (x ∷ username) [] = false
auth_required (x ∷ username) (y ∷ password) = true

abbrev pub is_good : Outcome → Bool
is_good good = true
is_good bad = false
is_good indeterminate = false

-- `address().is_unspecified()`: every byte is zero.
abbrev pub is_unspecified : List ℕ → Bool
is_unspecified [] = true
is_unspecified (x ∷ bytes) = x == 0 && is_unspecified bytes
