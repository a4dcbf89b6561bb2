-- ===== src/Address.antt =====
-- `address_type_header` of src/net/socks5.hpp and src/net/ss.hpp, which declare it alike: an address
-- type, a union of an IPv4 address, an IPv6 address and a domain name with its length, and a port.
-- The struct is modelled by its 259 bytes, so that the members of the union share their bytes:
-- 0 is the address type, 1 to 256 the union, 257 and 258 the port. The enum `address_type`, and what
-- `parse` of the three request parsers returns, stand here too.
use yass.Common.{ℕ, Bool, ◌||◌, List, ◌==◌, if◌then◌else◌, Mem, slice}

-- `result_type`
pub data Outcome : Type 0 where
  good bad indeterminate : Outcome

-- What `parse` returns and leaves behind: the parser's `state_`, the request, the result and where
-- the iterator stands.
abbrev pub Parsed : Type 0 → Type 0 → Type 0
Parsed S R = S × R × Outcome × ℕ

abbrev pub ipv4 : ℕ
ipv4 = 1

abbrev pub domain : ℕ
domain = 3

abbrev pub ipv6 : ℕ
ipv6 = 4

abbrev pub AddressHeader : Type 0
AddressHeader = Mem

-- `atyp_req_()` sets every byte to zero.
abbrev pub zeroed : AddressHeader
zeroed j = 0

abbrev pub poke : Mem → ℕ → ℕ → Mem
poke m a v j = if j == a then v else m j

abbrev pub address_type : AddressHeader → ℕ
address_type a = a 0

abbrev pub address4 : AddressHeader → List ℕ
address4 a = slice a 1 4

abbrev pub address6 : AddressHeader → List ℕ
address6 a = slice a 1 16

abbrev pub domain_name_len : AddressHeader → ℕ
domain_name_len a = a 1

-- `std::string(domain_name, domain_name_len)`
abbrev pub domain_name : AddressHeader → List ℕ
domain_name a = slice a 2 (a 1)

abbrev pub is_known_type : ℕ → Bool
is_known_type t = t == ipv4 || t == domain || t == ipv6
