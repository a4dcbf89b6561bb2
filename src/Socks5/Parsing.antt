-- ===== src/Socks5/Parsing.antt =====
-- `request_parser::parse` of src/net/socks5_request_parser.hpp on a complete request.
use yass.Common.{
  ℕ, ◌+◌, ◌*◌, ◌≤◌, ◌<◌, ◌≡◌, refl, ap, ap₂, ◌∙◌, ◌⊎◌, inl, inr, arith, Mem, slice, memcpy,
  slice-memcpy, slice-congr, some,
}
use yass.Address.{good, AddressHeader, zeroed, poke, address_type, domain_name, ipv4, domain, ipv6}
use yass.Socks5.{
  Request, create, address_type_size, request_length, port, endpoint, request_start,
  request_address_start, copy_port, parse_variable_part, parse_address, parse, version,
}

pub slice-poke :
    (m : Mem) (a v i k : ℕ) → (i + k ≤ a) ⊎ (a < i) → slice (poke m a v) i k ≡ slice m i k
slice-poke m a v i k h = slice-congr (poke m a v) m i i k (λ j hj. off j hj h)
  where
    off : (j : ℕ) → j < k → (i + k ≤ a) ⊎ (a < i) → poke m a v (i + j) ≡ m (i + j)
    off j hj (inl x) = ground arith
    off j hj (inr x) = ground arith

-- Writing the port leaves the bytes of the union alone.
pub slice-copy_port :
    (mem : Mem) (at : ℕ) (a : AddressHeader) (i k : ℕ)
    → i + k ≤ 257
    → slice (copy_port mem at a) i k ≡ slice a i k
slice-copy_port mem at a i k h =
    slice-poke (poke a 257 (mem at)) 258 (mem (at + 1)) i k (inl (omega arith))
    ∙ slice-poke a 257 (mem at) i k (inl h)

pub headed : Mem → ℕ → Request
headed mem i = record create {
  ver = mem i;
  command = mem (i + 1);
  null_byte = mem (i + 2);
  atyp_req = poke zeroed 0 (mem (i + 3));
}

pub parse_head :
    (mem : Mem) (begin end : ℕ)
    → mem begin ≡ version
    → ((mem (begin + 3) ≡ ipv4) × (begin + 10 ≤ end))
      ⊎ ((mem (begin + 3) ≡ domain) × (begin + 7 ≤ end))
      ⊎ ((mem (begin + 3) ≡ ipv6) × (begin + 22 ≤ end))
    → parse request_start create mem begin end
      ≡ parse_variable_part (headed mem begin) mem (begin + 4) end
unfolding parse parse_address create address_type_size headed
parse_head mem begin end v (inl (t, h)) = ground arith
parse_head mem begin end v (inr (inl (t, h))) = ground arith
parse_head mem begin end v (inr (inr (t, h))) = ground arith

-- The domain's length byte lies at `i`.
abbrev pub named : Mem → ℕ → ℕ → AddressHeader
named mem begin i = poke (headed mem begin).atyp_req 1 (mem i)

abbrev pub domain_request : Mem → ℕ → ℕ → Request
domain_request mem begin i = record (headed mem begin) {
  atyp_req = copy_port mem (i + 1 + mem i) (memcpy (named mem begin i) 2 mem (i + 1) (mem i));
}

-- `end - i < len + 2` is one short of the length byte, the name and the port.
pub parse_variable_domain :
    (mem : Mem) (begin i end : ℕ)
    → mem (begin + 3) ≡ domain
    → i + 2 + mem i ≤ end
    → parse_variable_part (headed mem begin) mem i end
      ≡ (request_address_start, domain_request mem begin i, good, i + 1 + mem i + 2)
unfolding parse_variable_part headed
parse_variable_domain mem begin i end t d = ground arith

type-copy_port :
    (mem : Mem) (at : ℕ) (a : AddressHeader) (j : ℕ) → j < 257 → copy_port mem at a j ≡ a j
type-copy_port mem at a j h = ground arith

pub port-copy_port :
    (mem : Mem) (at : ℕ) (r : Request) (a : AddressHeader)
    → port (record r { atyp_req = copy_port mem at a }) ≡ mem at * 256 + mem (at + 1)
unfolding port
port-copy_port mem at r a = ground arith

-- The low byte of the port comes from `at + 1`.
pub low-copy_port : (mem : Mem) (at : ℕ) (a : AddressHeader) → copy_port mem at a 258 ≡ mem (at + 1)
low-copy_port mem at a = ground arith

pub command-domain_request :
    (mem : Mem) (begin i : ℕ) → (domain_request mem begin i).command ≡ mem (begin + 1)
unfolding headed
command-domain_request mem begin i = refl

module _ (mem : Mem) (begin i : ℕ) (t : mem (begin + 3) ≡ domain) where
  pub type-domain_request : (domain_request mem begin i).atyp_req 0 ≡ domain
  unfolding memcpy headed
  type-domain_request = ground arith

  len-domain_request : (domain_request mem begin i).atyp_req 1 ≡ mem i
  unfolding memcpy headed
  len-domain_request = ground arith

  pub name-domain_request :
      mem i < 256 → domain_name (domain_request mem begin i).atyp_req ≡ slice mem (i + 1) (mem i)
  name-domain_request small =
      ap (slice (domain_request mem begin i).atyp_req 2) len-domain_request
      ∙ slice-copy_port mem (i + 1 + mem i) (memcpy (named mem begin i) 2 mem (i + 1) (mem i)) 2
          (mem i) (omega arith)
      ∙ slice-memcpy (named mem begin i) 2 mem (i + 1) (mem i)

  pub length-domain_request : request_length (domain_request mem begin i) ≡ 7 + mem i
  unfolding request_length address_type_size
  length-domain_request = ground (arith, type-domain_request, len-domain_request)

-- A complete domain request is accepted to its last byte: the parser stands at the end of the
-- declared length, and the request has the command, the name and the port that were sent.
pub parse-domain :
    (mem : Mem) (begin end : ℕ)
    → mem begin ≡ version
    → mem (begin + 3) ≡ domain
    → mem (begin + 4) < 256
    → begin + 7 + mem (begin + 4) ≤ end
    → let (st, r, o, next) = parse request_start create mem begin end in
      (o ≡ good)
      × (next ≡ begin + request_length r)
      × (r.command ≡ mem (begin + 1))
      × (domain_name r.atyp_req ≡ slice mem (begin + 5) (mem (begin + 4)))
      × (port r ≡ mem (begin + 5 + mem (begin + 4)) * 256 + mem (begin + 6 + mem (begin + 4)))
parse-domain mem begin end v t small d =
    rw
      (
        parse_head mem begin end v (inr (inl (t, omega arith))),
        parse_variable_domain mem begin (begin + 4) end t (omega arith),
      )
      (
        refl,
        omega (arith, length-domain_request mem begin (begin + 4) t),
        unfold headed in refl,
        name-domain_request mem begin (begin + 4) t small
            ∙ ap (λ p. slice mem p (mem (begin + 4)))
                (let e : begin + 4 + 1 ≡ begin + 5 = omega arith in e),
        port-copy_port mem _ (headed mem begin) _
            ∙ ap₂ (λ p q. mem p * 256 + mem q)
                (let e : begin + 4 + 1 + mem (begin + 4) ≡ begin + 5 + mem (begin + 4) =
                    omega arith in
                  e)
                (let e : begin + 4 + 1 + mem (begin + 4) + 1 ≡ begin + 6 + mem (begin + 4) =
                    omega arith in
                  e),
      )

-- The address has `n` bytes, from `i` on.
abbrev pub ip_request : Mem → ℕ → ℕ → ℕ → Request
ip_request mem begin i n = record (headed mem begin) {
  atyp_req = copy_port mem (i + n) (memcpy (headed mem begin).atyp_req 1 mem i n);
}

pub parse_variable_ip :
    (mem : Mem) (begin i end : ℕ)
    → (mem (begin + 3) ≡ ipv4
        → parse_variable_part (headed mem begin) mem i end
          ≡ (request_address_start, ip_request mem begin i 4, good, i + 6))
      × (mem (begin + 3) ≡ ipv6
          → parse_variable_part (headed mem begin) mem i end
            ≡ (request_address_start, ip_request mem begin i 16, good, i + 18))
unfolding parse_variable_part headed
parse_variable_ip mem begin i end = (λ t. ground arith, λ t. ground arith)

module _ (mem : Mem) (begin i n : ℕ) (short : n ≤ 16) where
  pub type-ip_request : (ip_request mem begin i n).atyp_req 0 ≡ mem (begin + 3)
  unfolding memcpy headed
  type-ip_request = ground arith

  pub address-ip_request : slice (ip_request mem begin i n).atyp_req 1 n ≡ slice mem i n
  address-ip_request =
      slice-copy_port mem (i + n) (memcpy (headed mem begin).atyp_req 1 mem i n) 1 n (omega arith)
      ∙ slice-memcpy (headed mem begin).atyp_req 1 mem i n

  pub port-ip_request : port (ip_request mem begin i n) ≡ mem (i + n) * 256 + mem (i + n + 1)
  port-ip_request = port-copy_port mem (i + n) (headed mem begin) _

pub length-ip :
    (mem : Mem) (begin i : ℕ)
    → (mem (begin + 3) ≡ ipv4 → request_length (ip_request mem begin i 4) ≡ 10)
      × (mem (begin + 3) ≡ ipv6 → request_length (ip_request mem begin i 16) ≡ 22)
unfolding request_length address_type_size
length-ip mem begin i = (
  λ t. ground (arith, type-ip_request mem begin i 4 (omega arith)),
  λ t. ground (arith, type-ip_request mem begin i 16 (omega arith)),
)

pub endpoint_type :
    (r : Request)
    → (address_type r.atyp_req ≡ ipv4 → endpoint r ≡ some (slice r.atyp_req 1 4, port r))
      × (address_type r.atyp_req ≡ ipv6 → endpoint r ≡ some (slice r.atyp_req 1 16, port r))
unfolding endpoint
endpoint_type r = (λ t. rw t, λ t. rw t)

-- A complete request for an IPv4 or IPv6 address is accepted to its last byte: the parser stands at
-- the end of the declared length, and the request has the command, address and port that were sent.
pub parse-ip :
    (mem : Mem) (begin end n : ℕ)
    → mem begin ≡ version
    → ((mem (begin + 3) ≡ ipv4) × (n ≡ 4)) ⊎ ((mem (begin + 3) ≡ ipv6) × (n ≡ 16))
    → begin + 6 + n ≤ end
    → let (st, r, o, next) = parse request_start create mem begin end in
      (o ≡ good)
      × (next ≡ begin + request_length r)
      × (r.command ≡ mem (begin + 1))
      × (endpoint r
          ≡ some (slice mem (begin + 4) n, mem (begin + 4 + n) * 256 + mem (begin + 4 + n + 1)))
parse-ip mem begin end n v (inl (t, e)) d =
    rw
      (
        parse_head mem begin end v (inl (t, omega arith)),
        (parse_variable_ip mem begin (begin + 4) end).0 t,
        e,
      )
      (
        refl,
        omega (arith, (length-ip mem begin (begin + 4)).0 t),
        unfold headed in refl,
        (endpoint_type (ip_request mem begin (begin + 4) 4)).0
              (type-ip_request mem begin (begin + 4) 4 (omega arith) ∙ t)
            ∙ ap₂ (λ a p. some (a, p)) (address-ip_request mem begin (begin + 4) 4 (omega arith))
                (port-ip_request mem begin (begin + 4) 4 (omega arith)),
      )
parse-ip mem begin end n v (inr (t, e)) d =
    rw
      (
        parse_head mem begin end v (inr (inr (t, omega arith))),
        (parse_variable_ip mem begin (begin + 4) end).1 t,
        e,
      )
      (
        refl,
        omega (arith, (length-ip mem begin (begin + 4)).1 t),
        unfold headed in refl,
        (endpoint_type (ip_request mem begin (begin + 4) 16)).1
              (type-ip_request mem begin (begin + 4) 16 (omega arith) ∙ t)
            ∙ ap₂ (λ a p. some (a, p)) (address-ip_request mem begin (begin + 4) 16 (omega arith))
                (port-ip_request mem begin (begin + 4) 16 (omega arith)),
      )
