-- ===== src/Socks5/Tests.antt =====
-- Concrete inputs of the SOCKS5 parsers of src/net/socks5_request_parser.hpp.
use yass.Common.{◌≤◌, ◌⊎◌, inl, ◌+◌, ◌≡◌, refl, [], ◌∷◌, arith, Mem, bytes_of}
use yass.Address.{good, domain, domain_name}
use yass.Socks5.{create, request_start, request_length, port, parse}
use yass.Socks5.Parsing.{parse-domain}
use yass.Socks5.Bounds.{parse_bounds}

-- CONNECT to the name "ab" at port 443, at address 0; then to 1.2.3.4 at port 80.
abbrev domain_bytes : Mem
domain_bytes = bytes_of (5 ∷ 1 ∷ 0 ∷ 3 ∷ 2 ∷ 97 ∷ 98 ∷ 1 ∷ 187 ∷ [])

parse-domain_example :
    let (st, r, o, next) = parse request_start create domain_bytes 0 9 in
    (o ≡ good)
    × (next ≡ 0 + request_length r)
    × (r.command ≡ 1)
    × (domain_name r.atyp_req ≡ 97 ∷ 98 ∷ [])
    × (port r ≡ 443)
parse-domain_example = parse-domain domain_bytes 0 9 refl refl (omega arith) (omega arith)

parse_bounds_example :
    let (st, r, o, next) = parse request_start create domain_bytes 0 9 in
    (0 ≤ next) × (next ≤ 10) × ((next ≤ 9) ⊎ (3 ≡ domain))
parse_bounds_example =
    parse_bounds request_start create domain_bytes 0 9 3 (inl (refl, refl)) (omega arith)

-- The name "ab" with the password "c".
abbrev auth_bytes : Mem
auth_bytes = bytes_of (5 ∷ 2 ∷ 97 ∷ 98 ∷ 1 ∷ 99 ∷ [])
