-- ===== src/Exchange/Target.antt =====
-- The request that the client of src/cli/cli_connection.cpp sends for a destination is the message
-- that the server of src/server/server_connection.cpp takes for it.
use yass.Common.{
  some-injective, ℕ, ◌+◌, ◌%◌, ◌≤◌, ◌≡◌, sym, ap, ap₂, ◌∙◌, arith, some, List, [], ◌∷◌, ◌++◌, slice,
  length,
}
use yass.Address.{AddressHeader, domain, domain_name, address_type}
use yass.Shadowsocks.{of_domain, port_place}
use yass.Shadowsocks.RoundTrip.{
  built, built-eq, type-built, len-built, name-built, high-built, low-built, size-built,
}
use yass.Server.Requests.{domain_bytes, port_bytes}
use yass.Upstream.{Client, request_address, request_port}
use yass.Upstream.Responses.{request_bytes}

module _ (name : List ℕ) (p : ℕ) (short : length name ≤ 255) where
  name_of : domain_name (built name p) ≡ name
  name_of = ap (slice (built name p) 2) (len-built name p) ∙ name-built name p

  port_of : request_port (built name p) ≡ port_bytes p
  unfolding port_place
  port_of =
      ap₂ (λ x y. x ∷ y ∷ [])
        (ap (built name p) (
            let e : port_place (built name p) ≡ 2 + length name =
              omega (arith, size-built name p) in
            e)
          ∙ high-built name p)
        (ap (built name p) (
            let e : port_place (built name p) + 1 ≡ 3 + length name =
              omega (arith, size-built name p) in
            e)
          ∙ low-built name p)

  address_of :
      request_address (built name p) ≡ domain ∷ length name ∷ (name ++ (port_bytes p ++ []))
  address_of =
      let small : length name % 256 ≡ length name = omega arith in
      rw (type-built name p, name_of, port_of, small)

  pub request_bytes-domain :
      (c : Client) → of_domain name p ≡ some c.request → request_bytes c ≡ domain_bytes name p
  unfolding request_bytes
  request_bytes-domain c made =
      let same : c.request ≡ built name p = some-injective (sym made ∙ built-eq name p short) in
      ap (λ a. 5 ∷ 1 ∷ 0 ∷ request_address a) same ∙ ap (λ l. 5 ∷ 1 ∷ 0 ∷ l) address_of

  pub made_type : (a : AddressHeader) → of_domain name p ≡ some a → address_type a ≡ domain
  made_type a made =
      ap address_type (some-injective (sym made ∙ built-eq name p short)) ∙ type-built name p
