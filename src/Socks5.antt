-- ===== src/Socks5.antt =====
-- The SOCKS5 request of src/net/socks5_request.hpp and its parser, `request_parser` of
-- src/net/socks5_request_parser.hpp. The input is what memory holds from the iterator `begin` up to
-- `end`; memory goes on behind `end`, and a read there takes what it holds.
pub mod Parsing
pub mod Bounds
pub mod Method
pub mod Auth
pub mod Reply
mod Tests
use yass.Common.{
  ℕ, zero, suc, ◌+◌, ◌-◌, ◌*◌, ◌/◌, ◌%◌, Bool, true, false, not, ◌||◌, Option, none, some, List, [],
  ◌∷◌, ltb, ◌==◌, if◌then◌else◌, Mem, slice, memcpy,
}
use yass.Address.{
  Outcome, good, bad, indeterminate, Parsed, AddressHeader, zeroed, poke, address_type, address4,
  address6, domain_name_len, domain_name, is_known_type, ipv4, domain, ipv6,
}

abbrev pub version : ℕ
version = 5

-- `class request`: `req_` and `atyp_req_`
pub record Request : Type 0 where
  pub ver : ℕ
  pub command : ℕ
  pub null_byte : ℕ
  pub atyp_req : AddressHeader

unfoldable pub create : Request
create = record { ver = 0; command = 0; null_byte = 0; atyp_req = zeroed }

unfoldable pub address_type_size : AddressHeader → ℕ
address_type_size a =
    if address_type a == ipv4
    then 4 + 2
    else if address_type a == domain
    then 1 + domain_name_len a + 2
    else if address_type a == ipv6
    then 16 + 2
    else 0

unfoldable pub request_length : Request → ℕ
unfolding address_type_size
request_length r = 3 + 1 + address_type_size r.atyp_req

-- `(high << 8) & 0xff00 | low` on an unsigned short
unfoldable pub port : Request → ℕ
port r = r.atyp_req 257 * 256 + r.atyp_req 258

-- An endpoint's address bytes and port; neither for a domain name (the default endpoint).
unfoldable pub endpoint : Request → Option (List ℕ × ℕ)
endpoint r =
    if address_type r.atyp_req == ipv4
    then some (address4 r.atyp_req, port r)
    else if address_type r.atyp_req == ipv6
    then some (address6 r.atyp_req, port r)
    else none

pub data State : Type 0 where
  request_start request_address_start : State

-- `reset()`, from any state
abbrev reset : State → State
reset st = request_start

-- The two port bytes at `i` and after it, copied to their fields.
abbrev pub copy_port : Mem → ℕ → AddressHeader → AddressHeader
copy_port mem i a = poke (poke a 257 (mem i)) 258 (mem (i + 1))

-- The `switch` on the address type: the variable part of the header, from `i` on.
unfoldable pub parse_variable_part : Request → Mem → ℕ → ℕ → Parsed State Request
parse_variable_part r mem i end =
    let a = r.atyp_req in
    if address_type a == ipv4
    then (
      request_address_start,
      record r { atyp_req = copy_port mem (i + 4) (memcpy a 1 mem i 4) },
      good,
      i + 6,
    )
    else if address_type a == domain
    then (let named = poke a 1 (mem i) in
        if ltb (end - i) (domain_name_len named + 2)
        then (request_address_start, record r { atyp_req = named }, indeterminate, i)
        else (
          request_address_start,
          record r {
            atyp_req =
                copy_port mem (i + 1 + mem i) (memcpy named 2 mem (i + 1) (domain_name_len named));
          },
          good,
          i + 1 + mem i + 2,
        ))
    else if address_type a == ipv6
    then (
      request_address_start,
      record r { atyp_req = copy_port mem (i + 16) (memcpy a 1 mem i 16) },
      good,
      i + 18,
    )
    else (request_address_start, r, bad, i)

-- `case request_address_start`
unfoldable pub parse_address : Request → Mem → ℕ → ℕ → Parsed State Request
parse_address r mem i end =
    let typed : Request = record r { atyp_req = poke r.atyp_req 0 (mem i) } in
    if ltb (end - i) 1
    then (request_address_start, r, indeterminate, i)
    else if not (is_known_type (mem i))
    then (request_address_start, typed, bad, i + 1)
    else if ltb (end - (i + 1)) (address_type_size typed.atyp_req)
    then (request_address_start, typed, indeterminate, i + 1)
    else parse_variable_part typed mem (i + 1) end

unfoldable pub parse : State → Request → Mem → ℕ → ℕ → Parsed State Request
parse request_start r mem begin end =
    let headed : Request = record r {
      ver = mem begin;
      command = mem (begin + 1);
      null_byte = mem (begin + 2);
    } in
    if ltb (end - begin) 3
    then (request_start, r, indeterminate, begin)
    else if not (headed.ver == version)
    then (request_start, headed, bad, begin)
    else parse_address headed mem (begin + 3) end
parse request_address_start r mem begin end = parse_address r mem begin end
