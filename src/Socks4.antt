-- ===== src/Socks4.antt =====
-- The SOCKS4 request of src/net/socks4_request.hpp and its parser, `request_parser` of
-- src/net/socks4_request_parser.hpp. The input is what memory holds from `begin` up to `end`.
pub mod Parsing
pub mod Reply
mod Tests
use yass.Common.{
  ℕ, zero, suc, ◌+◌, ◌-◌, ◌*◌, Bool, true, false, not, ◌&&◌, List, [], ltb, ◌==◌, if◌then◌else◌,
  Mem, slice, length,
}
use yass.Address.{Outcome, good, bad, indeterminate, Parsed}

abbrev pub version : ℕ
version = 4

-- `req_`, with the four bytes of the address, and the two strings
pub record Request : Type 0 where
  pub ver : ℕ
  pub command : ℕ
  pub port_high_byte : ℕ
  pub port_low_byte : ℕ
  pub address : Mem
  pub user_id : List ℕ
  pub domain_name : List ℕ

pub create : Request
create = record {
  ver = 0;
  command = 0;
  port_high_byte = 0;
  port_low_byte = 0;
  address = λ j. 0;
  user_id = [];
  domain_name = [];
}

-- `ipnum` is the address read as a little-endian word: its top byte is the address's last.
unfoldable pub is_socks4a : Request → Bool
is_socks4a r =
    not (r.address 3 == 0) && (r.address 0 + r.address 1 * 256 + r.address 2 * 65536 == 0)

unfoldable pub port : Request → ℕ
port r = r.port_high_byte * 256 + r.port_low_byte

unfoldable pub endpoint : Request → List ℕ × ℕ
endpoint r = (slice r.address 0 4, port r)

unfoldable pub request_length : Request → ℕ
request_length r = 8 + length r.user_id + 1 + (if is_socks4a r then length r.domain_name + 1 else 0)

pub data State : Type 0 where
  request_start request_userid_start request_domain_start : State

-- `reset()`, from any state
abbrev reset : State → State
reset st = request_start

-- `while (i != end && *i != '\0') ++i;` with `left` bytes up to the end: where it stops.
pub scan : Mem → ℕ → ℕ → ℕ
scan mem i zero = i
scan mem i (suc left) = let rest = scan mem (i + 1) left in if mem i == 0 then i else rest

-- `std::string(begin, i)`
abbrev pub between : Mem → ℕ → ℕ → List ℕ
between mem begin i = slice mem begin (i - begin)

-- `case request_domain_start`
pub parse_domain : Request → Mem → ℕ → ℕ → Parsed State Request
parse_domain r mem begin end =
    let i = scan mem begin (end - begin) in
    if i == end
    then (request_domain_start, r, indeterminate, i)
    else (request_domain_start, record r { domain_name = between mem begin i }, good, i + 1)

-- `case request_userid_start`
pub parse_userid : Request → Mem → ℕ → ℕ → Parsed State Request
parse_userid r mem begin end =
    let i = scan mem begin (end - begin) in
    let r' : Request = record r { user_id = between mem begin i } in
    if i == end
    then (request_userid_start, r, indeterminate, i)
    else if is_socks4a r'
    then parse_domain r' mem (i + 1) end
    else (request_userid_start, r', good, i + 1)

-- The eight bytes of the header.
abbrev pub read_header : Request → Mem → ℕ → Request
read_header r mem i = record r {
  ver = mem i;
  command = mem (i + 1);
  port_high_byte = mem (i + 2);
  port_low_byte = mem (i + 3);
  address = λ j. mem (i + 4 + j);
}

pub parse : State → Request → Mem → ℕ → ℕ → Parsed State Request
parse request_start r mem begin end =
    if ltb (end - begin) 8
    then (request_start, r, indeterminate, begin)
    else if not ((read_header r mem begin).ver == version)
    then (request_start, read_header r mem begin, bad, begin)
    else parse_userid (read_header r mem begin) mem (begin + 8) end
parse request_userid_start r mem begin end = parse_userid r mem begin end
parse request_domain_start r mem begin end = parse_domain r mem begin end
