-- ===== src/Shadowsocks/RoundTrip.antt =====
-- A request built by the constructor `request(domain_name, port)` of src/net/ss_request.hpp is read
-- back by the parser of src/net/ss_request_parser.hpp.
use yass.Common.{
  ℕ, ◌+◌, ◌/◌, ◌%◌, ◌^◌, ◌≤◌, ◌<◌, ◌≡◌, ap, ◌∙◌, List, arith, Mem, slice, memcpy, slice-memcpy,
  slice-congr, slice-injective, bytes_of, slice-bytes_of, length, some,
}
use yass.Address.{good, AddressHeader, zeroed, poke, domain, domain_name}
use yass.Shadowsocks.{address_type_size, wire, of_domain, put_port, port, parse}
use yass.Shadowsocks.Parsing.{parse_ss_domain}

module _ (name : List ℕ) (port_num : ℕ) where
  pub built : AddressHeader
  built =
      put_port (2 + length name) port_num
        (memcpy (poke (poke zeroed 0 domain) 1 (length name)) 2 (bytes_of name) 0 (length name))

  pub built-eq : length name ≤ 255 → of_domain name port_num ≡ some built
  unfolding of_domain built
  built-eq h = ground arith

  pub type-built : built 0 ≡ domain
  unfolding built memcpy
  type-built = ground arith

  pub len-built : built 1 ≡ length name
  unfolding built memcpy
  len-built = ground arith

  pub name-built : slice built 2 (length name) ≡ name
  unfolding built
  name-built =
      slice-congr built copied 2 2 (length name) (λ k hk. ground arith)
      ∙ slice-memcpy (poke (poke zeroed 0 domain) 1 (length name)) 2 (bytes_of name) 0 (length name)
      ∙ slice-bytes_of name
    where
      copied : Mem
      copied =
          memcpy (poke (poke zeroed 0 domain) 1 (length name)) 2 (bytes_of name) 0 (length name)

  pub high-built : built (2 + length name) ≡ port_num / 256 % 256
  unfolding built
  high-built = ground arith

  pub low-built : built (3 + length name) ≡ port_num % 256
  unfolding built
  low-built = ground arith

  pub size-built : address_type_size built ≡ 4 + length name
  unfolding address_type_size
  size-built = ground (arith, type-built, len-built)

  -- What memory holds where the message of `built` lies.
  module _ (mem : Mem) (i : ℕ)
      (held : slice mem i (4 + length name) ≡ slice built 0 (4 + length name)) where
    byte : (k : ℕ) → k < 4 + length name → mem (i + k) ≡ built k
    byte k h =
        slice-injective mem built i 0 (4 + length name) held k h
        ∙ ap built (let e : 0 + k ≡ k = omega arith in e)

    name_held : slice mem (i + 2) (length name) ≡ name
    name_held =
        slice-congr mem built (i + 2) 2 (length name) (λ k hk.
          ap mem (let e : i + 2 + k ≡ i + (2 + k) = omega arith in e) ∙ byte (2 + k) (omega arith))
        ∙ name-built

    parse-built :
        (end : ℕ)
        → 0 < length name
        → port_num < 2 ^ 16
        → i + 4 + length name ≤ end
        → let (st, r, o, next) = parse zeroed mem i end in
          (o ≡ good) × (next ≡ i + 4 + length name) × (domain_name r ≡ name) × (port r ≡ port_num)
    parse-built end some_name small h =
        let t : mem i ≡ domain =
          ap mem (let e : i ≡ i + 0 = omega arith in e) ∙ byte 0 (omega arith) ∙ type-built in
        let n : mem (i + 1) ≡ length name = byte 1 (omega arith) ∙ len-built in
        let (o, next, size, nm, pt) = parse_ss_domain mem i end t (omega arith) (omega arith) in
        (
          o,
          omega arith,
          nm ∙ ap (slice mem (i + 2)) n ∙ name_held,
          pt
              ∙ omega (
                arith,
                ap (λ k. mem (i + 2 + k)) n,
                ap (λ k. mem (i + 3 + k)) n,
                ap mem (let e : i + 2 + length name ≡ i + (2 + length name) = omega arith in e),
                ap mem (let e : i + 3 + length name ≡ i + (3 + length name) = omega arith in e),
                byte (2 + length name) (omega arith),
                byte (3 + length name) (omega arith),
                high-built,
                low-built,
              ),
        )

-- A request for a domain name of 1 to 255 bytes and a 16-bit port, written as its message anywhere in
-- memory, is read back with the same name and port, to the message's last byte.
pub parse-of_domain :
    (name : List ℕ) (port_num : ℕ) (mem : Mem) (i end : ℕ) {a : AddressHeader}
    → 0 < length name
    → length name ≤ 255
    → port_num < 2 ^ 16
    → of_domain name port_num ≡ some a
    → slice mem i (4 + length name) ≡ wire a
    → i + 4 + length name ≤ end
    → let (st, r, o, next) = parse zeroed mem i end in
      (o ≡ good) × (next ≡ i + 4 + length name) × (domain_name r ≡ name) × (port r ≡ port_num)
unfolding wire
parse-of_domain name port_num mem i end {a} some_name short small made held h =
    let same : a ≡ built name port_num = cc (built-eq name port_num short) in
    parse-built name port_num mem i
      (held
        ∙ ap (λ b. slice b 0 (address_type_size b)) same
        ∙ ap (slice (built name port_num) 0) (size-built name port_num))
      end some_name small h
