-- ===== src/Shadowsocks/Tests.antt =====
-- Concrete messages of src/net/ss_request.hpp and src/net/ss_request_parser.hpp.
use yass.Common.{◌≡◌, refl, [], ◌∷◌, arith, Mem, bytes_of, memcpy}
use yass.Address.{good, domain_name, zeroed}
use yass.Shadowsocks.{address_type_size, port, of_domain, parse, wire}
use yass.Shadowsocks.RoundTrip.{parse-of_domain}

-- The name "ab" at port 443.
abbrev name_bytes : Mem
name_bytes = bytes_of (3 ∷ 2 ∷ 97 ∷ 98 ∷ 1 ∷ 187 ∷ [])

parse-of_domain_example :
    let (st, r, o, next) = parse zeroed name_bytes 0 6 in
    (o ≡ good) × (next ≡ 6) × (domain_name r ≡ 97 ∷ 98 ∷ []) × (port r ≡ 443)
unfolding of_domain wire memcpy address_type_size
parse-of_domain_example =
    parse-of_domain (97 ∷ 98 ∷ []) 443 name_bytes 0 6 (omega arith) (omega arith) (omega arith) refl
      refl (omega arith)
