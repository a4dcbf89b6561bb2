-- ===== src/Shadowsocks/IpRoundTrip.antt =====
-- A request built by the constructor `request(endpoint)` of src/net/ss_request.hpp is read back by the
-- parser of src/net/ss_request_parser.hpp.
use yass.Common.{
  ℕ, ◌+◌, ◌/◌, ◌%◌, ◌^◌, ◌≤◌, ◌<◌, ◌≡◌, refl, ap, ap₂, ◌∙◌, ◌⊎◌, inl, inr, List, arith, Mem, slice,
  memcpy, slice-memcpy, slice-congr, slice-injective, bytes_of, slice-bytes_of, length, some,
}
use yass.Address.{good, AddressHeader, zeroed, poke, ipv4, ipv6}
use yass.Shadowsocks.{address_type_size, wire, of_endpoint, put_port, endpoint, parse}
use yass.Shadowsocks.Ip.{IsIp, place-ip, parse_ss_ip}

module _ (bytes : List ℕ) (port_num t : ℕ) (kind : IsIp t (length bytes)) where
  built : AddressHeader
  built =
      put_port (1 + length bytes) port_num
        (memcpy (poke zeroed 0 t) 1 (bytes_of bytes) 0 (length bytes))

  built-eq : of_endpoint bytes port_num ≡ built
  unfolding of_endpoint built
  built-eq = by_kind kind
    where
      by_kind :
          IsIp t (length bytes)
          → of_endpoint bytes port_num
            ≡ put_port
                (1 + length bytes)
                port_num
                (memcpy (poke zeroed 0 t) 1 (bytes_of bytes) 0 (length bytes))
      by_kind (inl (e, l)) = rw (l, e)
      by_kind (inr (e, l)) = rw (l, e)

  type-built : built 0 ≡ t
  unfolding built memcpy
  type-built = ground arith

  address-built : slice built 1 (length bytes) ≡ bytes
  unfolding built
  address-built =
      slice-congr built (memcpy (poke zeroed 0 t) 1 (bytes_of bytes) 0 (length bytes)) 1 1
        (length bytes) (λ k hk. ground arith)
      ∙ slice-memcpy (poke zeroed 0 t) 1 (bytes_of bytes) 0 (length bytes)
      ∙ slice-bytes_of bytes

  high-built : built (1 + length bytes) ≡ port_num / 256 % 256
  unfolding built
  high-built = ground arith

  low-built : built (2 + length bytes) ≡ port_num % 256
  unfolding built
  low-built = ground arith

  size-built : address_type_size built ≡ 3 + length bytes
  size-built = (place-ip built (length bytes) (rw type-built kind)).1

-- A request for an IPv4 or IPv6 endpoint, written as its message anywhere in memory with a byte behind
-- it, is read back with the same address and port, to the message's last byte.
pub parse-of_endpoint :
    (bytes : List ℕ) (port_num : ℕ) (mem : Mem) (i end : ℕ)
    → (length bytes ≡ 4) ⊎ (length bytes ≡ 16)
    → port_num < 2 ^ 16
    → slice mem i (3 + length bytes) ≡ wire (of_endpoint bytes port_num)
    → i + 4 + length bytes ≤ end
    → let (st, r, o, next) = parse zeroed mem i end in
      (o ≡ good) × (next ≡ i + 3 + length bytes) × (endpoint r ≡ some (bytes, port_num))
unfolding wire
parse-of_endpoint bytes port_num mem i end kind small held room = elim kind [
  | inl e ↦ read_back ipv4 (inl (refl, e))
  | inr e ↦ read_back ipv6 (inr (refl, e))
]
  where
    n : ℕ
    n = length bytes

    read_back :
        (t : ℕ)
        → IsIp t (length bytes)
        → let (st, r, o, next) = parse zeroed mem i end in
          (o ≡ good) × (next ≡ i + 3 + length bytes) × (endpoint r ≡ some (bytes, port_num))
    read_back t k =
        let b = built bytes port_num t k in
        let message : slice mem i (3 + length bytes) ≡ slice b 0 (3 + length bytes) =
          held
          ∙ ap (λ a. slice a 0 (address_type_size a)) (built-eq bytes port_num t k)
          ∙ ap (slice b 0) (size-built bytes port_num t k) in
        let byte : (j : ℕ) → j < 3 + length bytes → mem (i + j) ≡ b j = λ j h.
          slice-injective mem b i 0 (3 + length bytes) message j h
          ∙ ap b (let e : 0 + j ≡ j = omega arith in e) in
        let type : mem i ≡ t =
          ap mem (let e : i ≡ i + 0 = omega arith in e)
          ∙ byte 0 (omega arith)
          ∙ type-built bytes port_num t k in
        let (o, next, size, ends) = parse_ss_ip mem i end (length bytes) (rw type k) room in
        (
          o,
          omega arith,
          ends
              ∙ ap₂ (λ x y. some (x, y))
                  (slice-congr mem b (i + 1) 1 (length bytes) (λ j hj.
                      ap mem (let e : i + 1 + j ≡ i + (1 + j) = omega arith in e)
                      ∙ byte (1 + j) (omega arith))
                    ∙ address-built bytes port_num t k)
                  (omega (
                    arith,
                    ap mem
                        (let e : i + 1 + length bytes ≡ i + (1 + length bytes) = omega arith in e),
                    ap mem (
                        let e : i + 1 + length bytes + 1 ≡ i + (2 + length bytes) = omega arith in
                        e),
                    byte (1 + length bytes) (omega arith),
                    byte (2 + length bytes) (omega arith),
                    high-built bytes port_num t k,
                    low-built bytes port_num t k,
                  )),
        )
