-- ===== src/Shadowsocks.antt =====
-- The Shadowsocks request of src/net/ss_request.hpp and its parser, `request_parser` of
-- src/net/ss_request_parser.hpp. The request is its `atyp_req_`, whose first bytes are the message
-- that is sent: the port stands right behind the address, wherever that ends.
pub mod Parsing
pub mod RoundTrip
pub mod Ip
pub mod IpRoundTrip
mod Tests
use yass.Common.{
  ℕ, zero, suc, ◌+◌, ◌-◌, ◌*◌, ◌/◌, ◌%◌, Bool, true, false, not, Option, none, some, List, [], leb,
  ltb, ◌==◌, if◌then◌else◌, Mem, slice, memcpy, length, bytes_of,
}
use yass.Address.{
  Outcome, good, bad, indeterminate, Parsed, AddressHeader, zeroed, poke, address_type, address4,
  address6, domain_name_len, domain_name, is_known_type, ipv4, domain, ipv6,
}

unfoldable pub address_type_size : AddressHeader → ℕ
address_type_size a =
    if address_type a == ipv4
    then 1 + 4 + 2
    else if address_type a == domain
    then 1 + 1 + domain_name_len a + 2
    else if address_type a == ipv6
    then 1 + 16 + 2
    else 0

-- The message: `length()` bytes from `data()` on.
pub wire : AddressHeader → List ℕ
wire a = slice a 0 (address_type_size a)

-- `port_high_byte()` and `port_low_byte()` are references to these places.
unfoldable pub port_place : AddressHeader → ℕ
port_place a = address_type_size a - 2

pub port : AddressHeader → ℕ
port a = a (port_place a) * 256 + a (port_place a + 1)

pub endpoint : AddressHeader → Option (List ℕ × ℕ)
endpoint a =
    if address_type a == ipv4
    then some (address4 a, port a)
    else if address_type a == ipv6
    then some (address6 a, port a)
    else none

-- `htons(port)` copied to `i`: the high byte first.
abbrev pub put_port : ℕ → ℕ → AddressHeader → AddressHeader
put_port i port a = poke (poke a i (port / 256 % 256)) (i + 1) (port % 256)

-- `request(domain_name, port)`; `none` is its failed DCHECK.
unfoldable pub of_domain : List ℕ → ℕ → Option AddressHeader
of_domain name port =
    let n = length name in
    if leb n 255
    then some
        (put_port (2 + n) port (memcpy (poke (poke zeroed 0 domain) 1 n) 2 (bytes_of name) 0 n))
    else none

-- `request(endpoint)`: the address as its 4 or 16 bytes, and the port.
pub of_endpoint : List ℕ → ℕ → AddressHeader
of_endpoint bytes port =
    if length bytes == 4
    then put_port 5 port (memcpy (poke zeroed 0 ipv4) 1 (bytes_of bytes) 0 4)
    else if length bytes == 16
    then put_port 17 port (memcpy (poke zeroed 0 ipv6) 1 (bytes_of bytes) 0 16)
    else put_port 0 port zeroed

-- The only state is `request_address_start`.
pub data State : Type 0 where
  request_address_start : State

-- `reset()`, from any state
abbrev reset : State → State
reset st = request_address_start

-- The two port bytes at `i` and after it, written through the references.
pub copy_port : Mem → ℕ → AddressHeader → AddressHeader
copy_port mem i a =
    let high = poke a (port_place a) (mem i) in poke high (port_place high + 1) (mem (i + 1))

-- The `switch` on the address type, from `i` on.
pub parse_variable_part : AddressHeader → Mem → ℕ → ℕ → Parsed State AddressHeader
parse_variable_part a mem i end =
    if address_type a == ipv4
    then (request_address_start, copy_port mem (i + 4) (memcpy a 1 mem i 4), good, i + 6)
    else if address_type a == domain
    then (let named = poke a 1 (mem i) in
        if ltb (end - i) (domain_name_len named + 2)
        then (request_address_start, named, indeterminate, i)
        else (
          request_address_start,
          copy_port mem (i + 1 + mem i) (memcpy named 2 mem (i + 1) (domain_name_len named)),
          good,
          i + 1 + mem i + 2,
        ))
    else if address_type a == ipv6
    then (request_address_start, copy_port mem (i + 16) (memcpy a 1 mem i 16), good, i + 18)
    else (request_address_start, a, bad, i)

pub parse : AddressHeader → Mem → ℕ → ℕ → Parsed State AddressHeader
parse a mem i end =
    let typed = poke a 0 (mem i) in
    if ltb (end - i) 1
    then (request_address_start, a, indeterminate, i)
    else if not (is_known_type (mem i))
    then (request_address_start, typed, bad, i + 1)
    else if ltb (end - (i + 1)) (address_type_size typed)
    then (request_address_start, typed, indeterminate, i + 1)
    else parse_variable_part typed mem (i + 1) end
