-- ===== src/Shadowsocks/Parsing.antt =====
-- `request_parser::parse` of src/net/ss_request_parser.hpp: what it accepts, and what it takes from
-- the message.
use yass.Common.{
  ℕ, ◌+◌, ◌*◌, ◌≤◌, ◌≡◌, refl, ap, ap₂, ◌∙◌, ◌⊎◌, inl, inr, arith, Mem, slice, memcpy, slice-memcpy,
  slice-congr,
}
use yass.Address.{good, indeterminate, AddressHeader, zeroed, poke, domain_name, ipv4, domain, ipv6}
use yass.Shadowsocks.{
  address_type_size, port_place, port, request_address_start, copy_port, parse_variable_part, parse,
}

-- The iterator never moves back, and stops at most one byte behind the end of the input; it passes
-- the end only where the address type is a domain name.
pub parse_ss_bounds :
    (a : AddressHeader) (mem : Mem) (i end : ℕ)
    → i ≤ end
    → let (st, a', o, next) = parse a mem i end in
      (i ≤ next) × (next ≤ end + 1) × ((next ≤ end) ⊎ (mem i ≡ domain))
unfolding parse parse_variable_part address_type_size
parse_ss_bounds a mem i end h = ground arith

-- The check in front of the address asks for one byte more than an address and its port have: a
-- complete IPv4 or IPv6 message that nothing follows is taken for an incomplete one.
pub parse_waits :
    (mem : Mem) (i end : ℕ)
    → ((mem i ≡ ipv4) × (end ≡ i + 7)) ⊎ ((mem i ≡ ipv6) × (end ≡ i + 19))
    → (parse zeroed mem i end).2 ≡ indeterminate
unfolding parse address_type_size
parse_waits mem i end (inl (t, e)) = ground arith
parse_waits mem i end (inr (t, e)) = ground arith

unfoldable pub typed : Mem → ℕ → AddressHeader
typed mem i = poke zeroed 0 (mem i)

pub parse_head :
    (mem : Mem) (i end : ℕ)
    → ((mem i ≡ ipv4) × (i + 8 ≤ end))
      ⊎ ((mem i ≡ domain) × (i + 5 ≤ end))
      ⊎ ((mem i ≡ ipv6) × (i + 20 ≤ end))
    → parse zeroed mem i end ≡ parse_variable_part (typed mem i) mem (i + 1) end
unfolding parse address_type_size typed
parse_head mem i end (inl (t, h)) = ground arith
parse_head mem i end (inr (inl (t, h))) = ground arith
parse_head mem i end (inr (inr (t, h))) = ground arith

-- The domain's length byte lies at `j`.
abbrev pub named : Mem → ℕ → ℕ → AddressHeader
named mem i j = poke (typed mem i) 1 (mem j)

abbrev pub copied : Mem → ℕ → ℕ → AddressHeader
copied mem i j = memcpy (named mem i j) 2 mem (j + 1) (mem j)

abbrev pub domain_request : Mem → ℕ → ℕ → AddressHeader
domain_request mem i j = copy_port mem (j + 1 + mem j) (copied mem i j)

pub parse_variable_domain :
    (mem : Mem) (i j end : ℕ)
    → mem i ≡ domain
    → j + 2 + mem j ≤ end
    → parse_variable_part (typed mem i) mem j end
      ≡ (request_address_start, domain_request mem i j, good, j + 1 + mem j + 2)
unfolding parse_variable_part typed
parse_variable_domain mem i j end t d = ground arith

place-domain : (a : AddressHeader) → a 0 ≡ domain → port_place a ≡ 2 + a 1
unfolding port_place address_type_size
place-domain a t = ground arith

-- Where the port's place lies behind the address type and the domain's length, writing the port
-- leaves that place, and puts the two bytes there.
module _ (mem : Mem) (at n : ℕ) (a : AddressHeader) (t : a 0 ≡ domain) (l : a 1 ≡ n) where
  high : AddressHeader
  high = poke a (port_place a) (mem at)

  place-high : port_place high ≡ 2 + n
  unfolding high
  place-high =
      place-domain high (ground (arith, place-domain a t)) ∙ ground (arith, place-domain a t)

  pub copy_port-eq : copy_port mem at a ≡ poke (poke a (2 + n) (mem at)) (2 + n + 1) (mem (at + 1))
  unfolding copy_port high
  copy_port-eq = rw (place-high, place-domain a t, l)

pub slice-poke_below : (m : Mem) (p v i k : ℕ) → i + k ≤ p → slice (poke m p v) i k ≡ slice m i k
slice-poke_below m p v i k h = slice-congr (poke m p v) m i i k (λ j hj. ground arith)

module _ (mem : Mem) (i j : ℕ) (t : mem i ≡ domain) where
  type-copied : copied mem i j 0 ≡ domain
  unfolding memcpy typed
  type-copied = ground arith

  len-copied : copied mem i j 1 ≡ mem j
  unfolding memcpy typed
  len-copied = ground arith

  domain_request-eq :
      domain_request mem i j
      ≡ poke
          (poke (copied mem i j) (2 + mem j) (mem (j + 1 + mem j)))
          (2 + mem j + 1)
          (mem (j + 1 + mem j + 1))
  domain_request-eq =
      copy_port-eq mem (j + 1 + mem j) (mem j) (copied mem i j) type-copied len-copied

  type-domain_request : domain_request mem i j 0 ≡ domain
  type-domain_request = rw domain_request-eq (ground (arith, type-copied))

  len-domain_request : domain_request mem i j 1 ≡ mem j
  len-domain_request = rw domain_request-eq (ground (arith, len-copied))

  name-domain_request : domain_name (domain_request mem i j) ≡ slice mem (j + 1) (mem j)
  name-domain_request =
      ap (slice (domain_request mem i j) 2) len-domain_request
      ∙ ap (λ a. slice a 2 (mem j)) domain_request-eq
      ∙ slice-poke_below _ (2 + mem j + 1) _ 2 (mem j) (omega arith)
      ∙ slice-poke_below (copied mem i j) (2 + mem j) (mem (j + 1 + mem j)) 2 (mem j) (omega arith)
      ∙ slice-memcpy (named mem i j) 2 mem (j + 1) (mem j)

  size-domain_request : address_type_size (domain_request mem i j) ≡ 4 + mem j
  unfolding address_type_size
  size-domain_request = ground (arith, type-domain_request, len-domain_request)

  port-domain_request :
      port (domain_request mem i j) ≡ mem (j + 1 + mem j) * 256 + mem (j + 1 + mem j + 1)
  unfolding port
  port-domain_request =
      rw
        (
          place-domain (domain_request mem i j) type-domain_request,
          len-domain_request,
          domain_request-eq,
        )
        (ground arith)

-- A complete domain message is accepted to its last byte: the parser stands at the end of the
-- request's length, four bytes and the name's, and the request has the name and the port that were sent.
pub parse_ss_domain :
    (mem : Mem) (i end : ℕ)
    → mem i ≡ domain
    → i + 5 ≤ end
    → i + 4 + mem (i + 1) ≤ end
    → let (st, a, o, next) = parse zeroed mem i end in
      (o ≡ good)
      × (next ≡ i + address_type_size a)
      × (address_type_size a ≡ 4 + mem (i + 1))
      × (domain_name a ≡ slice mem (i + 2) (mem (i + 1)))
      × (port a ≡ mem (i + 2 + mem (i + 1)) * 256 + mem (i + 3 + mem (i + 1)))
parse_ss_domain mem i end t h d =
    rw
      (
        parse_head mem i end (inr (inl (t, h))),
        parse_variable_domain mem i (i + 1) end t (omega arith),
      )
      (
        refl,
        omega (arith, size-domain_request mem i (i + 1) t),
        size-domain_request mem i (i + 1) t,
        name-domain_request mem i (i + 1) t
            ∙ ap (λ p. slice mem p (mem (i + 1))) (let e : i + 1 + 1 ≡ i + 2 = omega arith in e),
        port-domain_request mem i (i + 1) t
            ∙ ap₂ (λ p q. mem p * 256 + mem q)
                (let e : i + 1 + 1 + mem (i + 1) ≡ i + 2 + mem (i + 1) = omega arith in e)
                (let e : i + 1 + 1 + mem (i + 1) + 1 ≡ i + 3 + mem (i + 1) = omega arith in e),
      )
