-- ===== src/Socks5/Bounds.antt =====
-- `request_parser::parse` of src/net/socks5_request_parser.hpp on incomplete and invalid requests, and
-- how far its iterator goes.
use yass.Common.{ℕ, ◌+◌, ◌≤◌, ◌<◌, ◌≡◌, ◌≢◌, refl, ap, ◌∙◌, ◌⊎◌, inl, inr, arith, Mem, memcpy}
use yass.Address.{good, bad, indeterminate, ipv4, domain, ipv6, poke}
use yass.Socks5.{
  Request, create, address_type_size, State, request_start, request_address_start,
  parse_variable_part, parse_address, parse, version,
}
use yass.Socks5.Parsing.{parse_head, named, parse_variable_domain, low-copy_port}

parse_variable_part_bounds :
    (r : Request) (mem : Mem) (i end : ℕ)
    → i + address_type_size r.atyp_req ≤ end
    → let (st, r', o, next) = parse_variable_part r mem i end in
      (i ≤ next) × (next ≤ end + 1) × ((next ≤ end) ⊎ (r.atyp_req 0 ≡ domain))
unfolding parse_variable_part address_type_size
parse_variable_part_bounds r mem i end h = ground arith

parse_address_bounds :
    (r : Request) (mem : Mem) (i end : ℕ)
    → i ≤ end
    → let (st, r', o, next) = parse_address r mem i end in
      (i ≤ next) × (next ≤ end + 1) × ((next ≤ end) ⊎ (mem i ≡ domain))
unfolding parse_address
parse_address_bounds r mem i end h = ground (
  arith,
  parse_variable_part_bounds (record r { atyp_req = poke r.atyp_req 0 (mem i) }) mem (i + 1) end,
)

-- From either state and with any request, the iterator never moves back, and stops at most one
-- byte behind the end of the input; it passes the end only where the address type is a domain name.
pub parse_bounds :
    (st : State) (r : Request) (mem : Mem) (begin end at : ℕ)
    → ((st ≡ request_start) × (at ≡ begin + 3)) ⊎ ((st ≡ request_address_start) × (at ≡ begin))
    → begin ≤ end
    → let (st', r', o, next) = parse st r mem begin end in
      (begin ≤ next) × (next ≤ end + 1) × ((next ≤ end) ⊎ (mem at ≡ domain))
unfolding parse
parse_bounds request_start r mem begin end at s h = elim s [
  | inl (_, e) ↦ rw e (
      ground (
        arith,
        parse_address_bounds
            (record r { ver = mem begin; command = mem (begin + 1); null_byte = mem (begin + 2) })
            mem (begin + 3) end,
      ))
  | inr (x, _) ↦ cc
]
parse_bounds request_address_start r mem begin end at s h = elim s [
  | inl (x, _) ↦ cc
  | inr (_, e) ↦ rw e (ground (arith, parse_address_bounds r mem begin end))
]

-- A request with the wrong version is rejected once its header is there, and one of unknown address
-- type as soon as the type is.
pub parse_rejects :
    (mem : Mem) (begin end : ℕ)
    → (begin + 3 ≤ end × (mem begin ≢ version))
      ⊎ (begin + 4 ≤ end
          × (mem (begin + 3) ≢ ipv4)
          × (mem (begin + 3) ≢ domain)
          × (mem (begin + 3) ≢ ipv6))
    → (parse request_start create mem begin end).2 ≡ bad
unfolding parse parse_address
parse_rejects mem begin end (inl (h, v)) = ground arith
parse_rejects mem begin end (inr (h, a, d, b)) = ground arith

-- An IPv4 or IPv6 request of which bytes are missing is asked for again, and so is a domain request
-- of which two bytes or more are missing.
pub parse_incomplete :
    (mem : Mem) (begin end : ℕ)
    → begin ≤ end
    → mem begin ≡ version
    → ((end < begin + 4)
        ⊎ ((mem (begin + 3) ≡ ipv4) × (end < begin + 10))
        ⊎ ((mem (begin + 3) ≡ ipv6) × (end < begin + 22))
        ⊎ ((mem (begin + 3) ≡ domain) × (end + 1 < begin + 7 + mem (begin + 4))))
    → let (st, r, o, next) = parse request_start create mem begin end in
      (o ≡ indeterminate) × (next ≤ end)
unfolding parse parse_address parse_variable_part address_type_size create
parse_incomplete mem begin end h v (inl s) = ground arith
parse_incomplete mem begin end h v (inr (inl (t, s))) = ground arith
parse_incomplete mem begin end h v (inr (inr (inl (t, s)))) = ground arith
parse_incomplete mem begin end h v (inr (inr (inr (t, s)))) =
    ground (arith, ap mem (let e : begin + 3 + 1 ≡ begin + 4 = omega arith in e))

-- A domain request that lacks only its last byte, the low byte of the port, is accepted all the same:
-- the parser takes that byte from behind the input, and its iterator stands past the end.
pub parse_overrun :
    (mem : Mem) (begin end : ℕ)
    → mem begin ≡ version
    → mem (begin + 3) ≡ domain
    → 0 < mem (begin + 4)
    → end + 1 ≡ begin + 7 + mem (begin + 4)
    → let (st, r, o, next) = parse request_start create mem begin end in
      (o ≡ good) × (next ≡ end + 1) × (r.atyp_req 258 ≡ mem end)
parse_overrun mem begin end v t l e =
    rw
      (
        parse_head mem begin end v (inr (inl (t, omega arith))),
        parse_variable_domain mem begin (begin + 4) end t (omega arith),
      )
      (
        refl,
        omega arith,
        low-copy_port mem (begin + 4 + 1 + mem (begin + 4))
              (memcpy (named mem begin (begin + 4)) 2 mem (begin + 4 + 1) (mem (begin + 4)))
            ∙ ap mem (let x : begin + 4 + 1 + mem (begin + 4) + 1 ≡ end = omega arith in x),
      )
