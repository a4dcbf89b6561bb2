-- ===== src/Shadowsocks/Ip.antt =====
-- `request_parser::parse` of src/net/ss_request_parser.hpp on IPv4 and IPv6 messages that something
-- follows.
use yass.Common.{
  ℕ, ◌+◌, ◌*◌, ◌≤◌, ◌≡◌, refl, ap, ap₂, ◌∙◌, ◌⊎◌, inl, inr, arith, Mem, slice, memcpy, slice-memcpy,
  some,
}
use yass.Address.{good, AddressHeader, zeroed, poke, ipv4, domain, ipv6}
use yass.Shadowsocks.{
  address_type_size, port_place, port, endpoint, request_address_start, copy_port,
  parse_variable_part, parse,
}
use yass.Shadowsocks.Parsing.{typed, parse_head, slice-poke_below}

-- An address type with the length of its address.
abbrev pub IsIp : ℕ → ℕ → Type 0
IsIp t n = ((t ≡ ipv4) × (n ≡ 4)) ⊎ ((t ≡ ipv6) × (n ≡ 16))

pub place-ip :
    (a : AddressHeader) (n : ℕ)
    → IsIp (a 0) n
    → (port_place a ≡ 1 + n) × (address_type_size a ≡ 3 + n)
unfolding port_place address_type_size
place-ip a n (inl (t, e)) = ground arith
place-ip a n (inr (t, e)) = ground arith

module _ (mem : Mem) (i n : ℕ) (kind : IsIp (mem i) n) where
  copied : AddressHeader
  copied = memcpy (typed mem i) 1 mem (i + 1) n

  type-copied : copied 0 ≡ mem i
  unfolding copied memcpy typed
  type-copied = ground arith

  high : AddressHeader
  high = poke copied (1 + n) (mem (i + 1 + n))

  ip_request : AddressHeader
  ip_request = copy_port mem (i + 1 + n) copied

  kind-copied : IsIp (copied 0) n
  kind-copied = rw type-copied kind

  kind-high : IsIp (high 0) n
  unfolding high
  kind-high = rw (let e : high 0 ≡ copied 0 = ground arith in e) kind-copied

  ip_request-eq :
      ip_request ≡ poke (poke copied (1 + n) (mem (i + 1 + n))) (1 + n + 1) (mem (i + 1 + n + 1))
  unfolding ip_request copy_port high
  ip_request-eq = rw ((place-ip copied n kind-copied).0, (place-ip high n kind-high).0)

  type-ip_request : ip_request 0 ≡ mem i
  type-ip_request = rw ip_request-eq (ground (arith, type-copied))

  kind-ip_request : IsIp (ip_request 0) n
  kind-ip_request = rw type-ip_request kind

  address-ip_request : slice ip_request 1 n ≡ slice mem (i + 1) n
  unfolding copied
  address-ip_request =
      ap (λ a. slice a 1 n) ip_request-eq
      ∙ slice-poke_below _ (1 + n + 1) _ 1 n (omega arith)
      ∙ slice-poke_below copied (1 + n) (mem (i + 1 + n)) 1 n (omega arith)
      ∙ slice-memcpy (typed mem i) 1 mem (i + 1) n

  port-ip_request : port ip_request ≡ mem (i + 1 + n) * 256 + mem (i + 1 + n + 1)
  unfolding port
  port-ip_request = rw ((place-ip ip_request n kind-ip_request).0, ip_request-eq) (ground arith)

parse_variable_ip :
    (mem : Mem) (i n end : ℕ) (kind : IsIp (mem i) n)
    → parse_variable_part (typed mem i) mem (i + 1) end
      ≡ (request_address_start, ip_request mem i n kind, good, i + 3 + n)
unfolding parse_variable_part typed ip_request copied
parse_variable_ip mem i n end (inl (t, e)) = rw e (ground arith)
parse_variable_ip mem i n end (inr (t, e)) = rw e (ground arith)

endpoint-ip : (a : AddressHeader) (n : ℕ) → IsIp (a 0) n → endpoint a ≡ some (slice a 1 n, port a)
unfolding endpoint
endpoint-ip a n (inl (t, e)) = rw (t, e)
endpoint-ip a n (inr (t, e)) = rw (t, e)

-- A complete IPv4 or IPv6 message with a byte behind it is accepted to its own last byte, and the
-- request has the address and the port that were sent.
pub parse_ss_ip :
    (mem : Mem) (i end n : ℕ)
    → ((mem i ≡ ipv4) × (n ≡ 4)) ⊎ ((mem i ≡ ipv6) × (n ≡ 16))
    → i + 4 + n ≤ end
    → let (st, a, o, next) = parse zeroed mem i end in
      (o ≡ good)
      × (next ≡ i + address_type_size a)
      × (address_type_size a ≡ 3 + n)
      × (endpoint a ≡ some (slice mem (i + 1) n, mem (i + 1 + n) * 256 + mem (i + 1 + n + 1)))
parse_ss_ip mem i end n kind room =
    let size = (place-ip (ip_request mem i n kind) n (kind-ip_request mem i n kind)).1 in
    rw (parse_head mem i end (long kind), parse_variable_ip mem i n end kind)
      (
        refl,
        omega (arith, size),
        size,
        endpoint-ip (ip_request mem i n kind) n (kind-ip_request mem i n kind)
            ∙ ap₂ (λ x y. some (x, y)) (address-ip_request mem i n kind)
                (port-ip_request mem i n kind),
      )
  where
    long :
        IsIp (mem i) n
        → ((mem i ≡ ipv4) × (i + 8 ≤ end))
          ⊎ ((mem i ≡ domain) × (i + 5 ≤ end))
          ⊎ ((mem i ≡ ipv6) × (i + 20 ≤ end))
    long (inl (t, e)) = inl (t, omega arith)
    long (inr (t, e)) = inr (inr (t, omega arith))
