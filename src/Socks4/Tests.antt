-- ===== src/Socks4/Tests.antt =====
-- Concrete inputs of the SOCKS4 parser of src/net/socks4_request_parser.hpp.
use yass.Common.{ℕ, zero, suc, ◌+◌, ◌<◌, ◌≡◌, ◌≢◌, refl, [], ◌∷◌, arith, Mem, bytes_of}
use yass.Address.{good}
use yass.Socks4.{create, request_start, request_length, port, parse, is_socks4a}
use yass.Socks4.Parsing.{parse-socks4a}

abbrev name_bytes : Mem
name_bytes = bytes_of (4 ∷ 1 ∷ 1 ∷ 187 ∷ 0 ∷ 0 ∷ 0 ∷ 1 ∷ 0 ∷ 97 ∷ 98 ∷ 0 ∷ [])

two_bytes : (k : ℕ) → k < 2 → name_bytes (9 + k) ≢ 0
two_bytes zero h = omega arith
two_bytes (suc zero) h = omega arith
two_bytes (suc (suc k)) h = absurd (omega arith)

parse-socks4a_example :
    let (st, r, o, next) = parse request_start create name_bytes 0 12 in
    (o ≡ good)
    × (next ≡ 0 + request_length r)
    × (r.user_id ≡ [])
    × (r.domain_name ≡ 97 ∷ 98 ∷ [])
    × (r.command ≡ 1)
    × (port r ≡ 443)
unfolding is_socks4a
parse-socks4a_example =
    parse-socks4a create name_bytes 0 12 0 refl (λ k h. absurd (omega arith)) refl 2 two_bytes refl
      (omega arith) refl
