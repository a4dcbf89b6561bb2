-- ===== src/Server/Requests.antt =====
-- What `OnReadHandshakeViaSocks5` of src/server/server_connection.cpp does with a SOCKS5 request.
use yass.Common.{
  ℕ, ◌+◌, ◌/◌, ◌%◌, ◌^◌, ◌≤◌, ◌<◌, ◌≡◌, refl, sym, ap, ap₂, ◌∙◌, ◌⊎◌, inl, inr, arith, false, some,
  List, [], ◌∷◌, ◌++◌, ◌==◌, slice, length, length-append,
}
use yass.Address.{AddressHeader, address_type, domain_name, domain, ipv4, ipv6, good}
use yass.Handshake.{View, is_unspecified}
use yass.Handshake.Views.{
  Begins, skip, advance-skip, Begins-byte, Begins-first, Begins-skip, Begins-append, Begins-slice,
}
use yass.Shadowsocks.{of_domain, of_endpoint}
use yass.Socks5.{
  Request, create, State, request_start, request_address_start, parse, request_length, port,
  endpoint,
}
use yass.Socks5.Parsing.{
  headed, parse_head, parse_variable_domain, domain_request, type-domain_request,
  command-domain_request, name-domain_request, length-domain_request, port-copy_port, ip_request,
  type-ip_request, address-ip_request, port-ip_request, parse_variable_ip, length-ip, endpoint_type,
}
use yass.Server.{
  Server, write_handshake_response, on_socks5_request, accept_socks5, with_domain, with_endpoint,
  is_empty,
}

-- The port as its two bytes, the high one first.
abbrev pub port_bytes : ℕ → List ℕ
port_bytes port = (port / 256 % 256) ∷ (port % 256) ∷ []

-- CONNECT to a domain name; then to an address.
abbrev pub domain_bytes : List ℕ → ℕ → List ℕ
domain_bytes name port = 5 ∷ 1 ∷ 0 ∷ domain ∷ length name ∷ (name ++ (port_bytes port ++ []))

abbrev pub ip_bytes : ℕ → List ℕ → ℕ → List ℕ
ip_bytes t address port = 5 ∷ 1 ∷ 0 ∷ t ∷ (address ++ (port_bytes port ++ []))

-- The connection to `a` follows.
abbrev pub asks_for : AddressHeader → ℕ → View → Server → Server
asks_for a n b s = record s {
  request = a;
  handshake_pending_buf = some (skip n b);
  task = write_handshake_response;
}

on_socks5_request-parsed :
    (b : View) (s : Server) {r : Request} {st : State} {next : ℕ}
    → parse request_start create b.mem b.offset b.capacity ≡ (st, r, good, next)
    → b.offset + request_length r ≤ b.capacity
    → on_socks5_request b s ≡ accept_socks5 r (skip (request_length r) b) s
unfolding on_socks5_request
on_socks5_request-parsed b s {r} e h = rw (e, advance-skip (request_length r) b h)

pub is_empty-pos : (l : List ℕ) → 0 < length l → is_empty l ≡ false
is_empty-pos [] h = absurd (omega arith)
is_empty-pos (x ∷ l) h = refl

accept_socks5-named :
    (r : Request) (rest : View) (s : Server)
    → address_type r.atyp_req ≡ domain
    → 0 < port r
    → 0 < length (domain_name r.atyp_req)
    → accept_socks5 r rest s ≡ with_domain (domain_name r.atyp_req) (port r) rest s
unfolding accept_socks5
accept_socks5-named r rest s t p n =
    let some_name = is_empty-pos (domain_name r.atyp_req) n in
    let nonzero : (port r == 0) ≡ false = ground arith in rw (t, nonzero, some_name)

accept_socks5-endpoint :
    (r : Request) (rest : View) (s : Server) {bytes : List ℕ} {p : ℕ}
    → (address_type r.atyp_req ≡ ipv4) ⊎ (address_type r.atyp_req ≡ ipv6)
    → endpoint r ≡ some (bytes, p)
    → 0 < port r
    → is_unspecified bytes ≡ false
    → accept_socks5 r rest s ≡ with_endpoint bytes p rest s
unfolding accept_socks5
accept_socks5-endpoint r rest s (inl t) e p u =
    let nonzero : (port r == 0) ≡ false = ground arith in rw (t, e, nonzero, u)
accept_socks5-endpoint r rest s (inr t) e p u =
    let nonzero : (port r == 0) ≡ false = ground arith in rw (t, e, nonzero, u)

with_domain-made :
    (name : List ℕ) (p : ℕ) (rest : View) (s : Server) {a : AddressHeader}
    → of_domain name p ≡ some a
    → with_domain name p rest s
      ≡ some (record s {
        request = a;
        handshake_pending_buf = some rest;
        task = write_handshake_response;
      })
unfolding with_domain
with_domain-made name p rest s e = rw e

module _ (b : View) (name : List ℕ) (p : ℕ) (h : Begins (domain_bytes name p) b)
    (some_name : 0 < length name) (short : length name ≤ 255) (big : 0 < p)
    (small : p < 2 ^ 16) where
  at : ℕ
  at = b.offset + 4

  length-bytes : length (domain_bytes name p) ≡ 7 + length name
  length-bytes = omega (arith, length-append {0} name (port_bytes p ++ []))

  len_sent : b.mem (b.offset + 4) ≡ length name
  len_sent = Begins-byte h 4 (omega arith)

  type_sent : b.mem (b.offset + 3) ≡ domain
  type_sent = Begins-byte h 3 (omega arith)

  name_sent : slice b.mem (b.offset + 4 + 1) (b.mem (b.offset + 4)) ≡ name
  name_sent =
      Begins-slice (5 ∷ 1 ∷ 0 ∷ domain ∷ length name ∷ []) name (port_bytes p ++ []) h (omega arith)
        len_sent

  tail : Begins (port_bytes p) (skip (length name) (skip 5 b))
  tail = Begins-append (port_bytes p) [] (
      Begins-skip name (port_bytes p ++ [])
        (Begins-skip (5 ∷ 1 ∷ 0 ∷ domain ∷ length name ∷ []) (name ++ (port_bytes p ++ [])) h))

  sent : Request
  sent = domain_request b.mem b.offset (b.offset + 4)

  port_sent : port sent ≡ p
  unfolding sent
  port_sent =
      port-copy_port b.mem _ (headed b.mem b.offset) _
      ∙ omega (
        arith,
        Begins-byte tail 0 (omega arith),
        Begins-byte tail 1 (omega arith),
        ap b.mem (
            let e : b.offset + 4 + 1 + b.mem (b.offset + 4) ≡ b.offset + 5 + length name + 0 =
              omega (arith, len_sent) in
            e),
        ap b.mem (
            let e : b.offset + 4 + 1 + b.mem (b.offset + 4) + 1 ≡ b.offset + 5 + length name + 1 =
              omega (arith, len_sent) in
            e),
      )

  pub sent-parsed : parse request_start create b.mem b.offset b.capacity ≡ (
    request_address_start,
    domain_request b.mem b.offset (b.offset + 4),
    good,
    b.offset + 4 + 1 + b.mem (b.offset + 4) + 2,
  )
  sent-parsed =
      parse_head b.mem b.offset b.capacity (Begins-first h)
        (inr (inl (type_sent, omega (arith, h.room, length-bytes))))
      ∙ parse_variable_domain b.mem b.offset (b.offset + 4) b.capacity type_sent
          (omega (arith, h.room, length-bytes, len_sent))

  pub sent-name : domain_name (domain_request b.mem b.offset (b.offset + 4)).atyp_req ≡ name
  sent-name =
      name-domain_request b.mem b.offset (b.offset + 4) type_sent (omega (arith, len_sent))
      ∙ name_sent

  pub sent-port : port (domain_request b.mem b.offset (b.offset + 4)) ≡ p
  unfolding sent
  sent-port = port_sent

  pub sent-length : request_length (domain_request b.mem b.offset (b.offset + 4)) ≡ 7 + length name
  sent-length =
      omega (arith, length-domain_request b.mem b.offset (b.offset + 4) type_sent, len_sent)

  pub sent-type : address_type (domain_request b.mem b.offset (b.offset + 4)).atyp_req ≡ domain
  sent-type = type-domain_request b.mem b.offset (b.offset + 4) type_sent

  pub sent-room : b.offset + (7 + length name) ≤ b.capacity
  sent-room = omega (arith, h.room, length-bytes)

  pub sent-command : (domain_request b.mem b.offset (b.offset + 4)).command ≡ 1
  sent-command =
      command-domain_request b.mem b.offset (b.offset + 4) ∙ Begins-byte h 1 (omega arith)

  -- A request for a domain name of 1 to 255 bytes and a port that is not 0 is taken: the server's own
  -- request has that name and port, what lies behind the request stays pending, and the response is
  -- next.
  pub on_socks5_request-domain :
      (s : Server) {a : AddressHeader}
      → of_domain name p ≡ some a
      → on_socks5_request b s ≡ some (asks_for a (7 + length name) b s)
  on_socks5_request-domain s {a} made =
      let r = domain_request b.mem b.offset (b.offset + 4) in
      on_socks5_request-parsed b s sent-parsed (omega (arith, sent-length, sent-room))
      ∙ accept_socks5-named r (skip (request_length r) b) s sent-type (omega (arith, sent-port))
          (omega (arith, ap length sent-name))
      ∙ with_domain-made (domain_name r.atyp_req) (port r) (skip (request_length r) b) s
          (ap₂ of_domain sent-name sent-port ∙ made)
      ∙ ap (λ n. some (asks_for a n b s)) sent-length

module _ (b : View) (t : ℕ) (address : List ℕ) (p : ℕ) (h : Begins (ip_bytes t address p) b)
    (kind : ((t ≡ ipv4) × (length address ≡ 4)) ⊎ ((t ≡ ipv6) × (length address ≡ 16)))
    (set_address : is_unspecified address ≡ false) (big : 0 < p) (small : p < 2 ^ 16) where
  ip_request_of : Request
  ip_request_of = ip_request b.mem b.offset (b.offset + 4) (length address)

  ip-room : b.offset + 6 + length address ≤ b.capacity
  ip-room = omega (arith, h.room, length-append {0} address (port_bytes p ++ []))

  kind_sent : b.mem (b.offset + 3) ≡ t
  kind_sent = Begins-byte h 3 (omega arith)

  address_sent : slice b.mem (b.offset + 4) (length address) ≡ address
  address_sent = Begins-slice (5 ∷ 1 ∷ 0 ∷ t ∷ []) address (port_bytes p ++ []) h (omega arith) refl

  ip_tail : Begins (port_bytes p) (skip (length address) (skip 4 b))
  ip_tail = Begins-append (port_bytes p) [] (
      Begins-skip address (port_bytes p ++ [])
        (Begins-skip (5 ∷ 1 ∷ 0 ∷ t ∷ []) (address ++ (port_bytes p ++ [])) h))

  short_address : length address ≤ 16
  short_address = elim kind [ inl (a, e) ↦ omega arith | inr (a, e) ↦ omega arith ]

  ip_port : port ip_request_of ≡ p
  unfolding ip_request_of
  ip_port =
      port-ip_request b.mem b.offset (b.offset + 4) (length address) short_address
      ∙ omega (
        arith,
        Begins-byte ip_tail 0 (omega arith),
        Begins-byte ip_tail 1 (omega arith),
        ap b.mem (
            let e : b.offset + 4 + length address ≡ b.offset + 4 + length address + 0 =
              omega arith in
            e),
      )

  ip_type : address_type ip_request_of.atyp_req ≡ t
  unfolding ip_request_of
  ip_type = type-ip_request b.mem b.offset (b.offset + 4) (length address) short_address ∙ kind_sent

  ip_address : slice ip_request_of.atyp_req 1 (length address) ≡ address
  unfolding ip_request_of
  ip_address =
      address-ip_request b.mem b.offset (b.offset + 4) (length address) short_address ∙ address_sent

  ip_endpoint : endpoint ip_request_of ≡ some (address, p)
  ip_endpoint = elim kind [
    | inl (a, e) ↦
        (endpoint_type ip_request_of).0 (ip_type ∙ a)
        ∙ ap₂ (λ x y. some (x, y)) (ap (slice ip_request_of.atyp_req 1) (sym e) ∙ ip_address)
            ip_port
    | inr (a, e) ↦
        (endpoint_type ip_request_of).1 (ip_type ∙ a)
        ∙ ap₂ (λ x y. some (x, y)) (ap (slice ip_request_of.atyp_req 1) (sym e) ∙ ip_address)
            ip_port
  ]

  ip_length : request_length ip_request_of ≡ 6 + length address
  unfolding ip_request_of
  ip_length = elim kind [
    | inl (a, e) ↦
        ap (λ n. request_length (ip_request b.mem b.offset (b.offset + 4) n)) e
        ∙ (length-ip b.mem b.offset (b.offset + 4)).0 (kind_sent ∙ a)
        ∙ omega arith
    | inr (a, e) ↦
        ap (λ n. request_length (ip_request b.mem b.offset (b.offset + 4) n)) e
        ∙ (length-ip b.mem b.offset (b.offset + 4)).1 (kind_sent ∙ a)
        ∙ omega arith
  ]

  ip_parsed :
      parse request_start create b.mem b.offset b.capacity
      ≡ (request_address_start, ip_request_of, good, b.offset + 4 + length address + 2)
  unfolding ip_request_of
  ip_parsed = elim kind [
    | inl (a, e) ↦
        parse_head b.mem b.offset b.capacity (Begins-first h)
          (inl (kind_sent ∙ a, omega (arith, ip-room)))
        ∙ (parse_variable_ip b.mem b.offset (b.offset + 4) b.capacity).0 (kind_sent ∙ a)
        ∙ ap₂ (λ n k. (request_address_start, ip_request b.mem b.offset (b.offset + 4) n, good, k))
            (sym e) (omega arith)
    | inr (a, e) ↦
        parse_head b.mem b.offset b.capacity (Begins-first h)
          (inr (inr (kind_sent ∙ a, omega (arith, ip-room))))
        ∙ (parse_variable_ip b.mem b.offset (b.offset + 4) b.capacity).1 (kind_sent ∙ a)
        ∙ ap₂ (λ n k. (request_address_start, ip_request b.mem b.offset (b.offset + 4) n, good, k))
            (sym e) (omega arith)
  ]

  -- A request for an address that is not all zero, and a port that is not 0, is taken too.
  pub on_socks5_request-ip :
      (s : Server)
      → on_socks5_request b s ≡ some (asks_for (of_endpoint address p) (6 + length address) b s)
  unfolding with_endpoint
  on_socks5_request-ip s =
      on_socks5_request-parsed b s ip_parsed (omega (arith, ip_length, ip-room))
      ∙ accept_socks5-endpoint ip_request_of (skip (request_length ip_request_of) b) s
          (elim kind [ inl (a, e) ↦ inl (ip_type ∙ a) | inr (a, e) ↦ inr (ip_type ∙ a) ])
          ip_endpoint (omega (arith, ip_port)) set_address
      ∙ ap (λ n. some (asks_for (of_endpoint address p) n b s)) ip_length
