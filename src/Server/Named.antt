-- ===== src/Server/Named.antt =====
-- A SOCKS4a request through the handler of src/server/server_connection.cpp, from its bytes to what the
-- connection does next.
use yass.Common.{
  ℕ, ◌+◌, ◌*◌, ◌≤◌, ◌<◌, ◌≡◌, ◌≢◌, refl, ◌∙◌, ◌⊎◌, inl, inr, arith, true, false, none, some, List,
  [], ◌∷◌, leb, ◌==◌, slice, length-slice, Bool-cases, Option-cases, length,
}
use yass.Address.{AddressHeader}
use yass.Handshake.{View, advance, invalid_argument}
use yass.Handshake.Views.{skip, advance-skip}
use yass.Shadowsocks.{of_domain}
use yass.Socks4
use yass.Socks4.{read_header}
use yass.Socks4.Parsing.{socks4a_request, parse_socks4a_whole, socks4a_request-length}
use yass.Server.{
  Server, write_handshake_response, on_disconnect, on_socks4_request, accept_socks4, with_domain,
  is_empty,
}

of_domain-long : (name : List ℕ) (port : ℕ) → 255 < length name → of_domain name port ≡ none
unfolding of_domain
of_domain-long name port h = ground arith

of_domain-short :
    (name : List ℕ) (port : ℕ)
    → length name ≤ 255
    → (a : AddressHeader) × (of_domain name port ≡ some a)
of_domain-short name port h = elim (Option-cases (of_domain name port)) [
  | inl e ↦ absurd (unfold of_domain in ground (arith, e))
  | inr (a, e) ↦ (a, e)
]

empty_slice : (l : List ℕ) → is_empty l ≡ true → length l ≡ 0
empty_slice [] h = refl
empty_slice (x ∷ l) h = absurd (cc h)

full_slice : (l : List ℕ) → is_empty l ≡ false → 0 < length l
full_slice [] h = absurd (cc h)
full_slice (x ∷ l) h = omega arith

-- What a request with a domain name comes to.
accept-named :
    (r : Socks4.Request) (rest : View) (s : Server)
    → Socks4.is_socks4a r ≡ true
    → (((Socks4.port r ≡ 0) ⊎ (length r.domain_name ≡ 0))
        × (accept_socks4 r rest s ≡ some (on_disconnect invalid_argument s)))
      ⊎ ((0 < Socks4.port r)
          × (0 < length r.domain_name)
          × (accept_socks4 r rest s ≡ with_domain r.domain_name (Socks4.port r) rest s))
unfolding accept_socks4 Socks4.endpoint
accept-named r rest s a = elim (Bool-cases (Socks4.port r == 0)) [
  | inl p ↦ inl (inl (ground arith), rw p refl)
  | inr p ↦ elim (Bool-cases (is_empty r.domain_name)) [
    | inl e ↦ inl (inr (empty_slice r.domain_name e), rw (p, a, e) refl)
    | inr e ↦ inr (ground arith, full_slice r.domain_name e, rw (p, a, e) refl)
  ]
]

module _ (b : View) (s : Server) (n m : ℕ) (version : b.mem b.offset ≡ 4)
    (named : Socks4.is_socks4a (read_header Socks4.create b.mem b.offset) ≡ true)
    (user : (k : ℕ) → k < n → b.mem (b.offset + 8 + k) ≢ 0) (nul : b.mem (b.offset + 8 + n) ≡ 0)
    (name : (k : ℕ) → k < m → b.mem (b.offset + 8 + n + 1 + k) ≢ 0)
    (nul' : b.mem (b.offset + 8 + n + 1 + m) ≡ 0)
    (whole : b.offset + 8 + n + 1 + m < b.capacity) where
  request : Socks4.Request
  request = socks4a_request Socks4.create b.mem b.offset n m

  behind : View
  behind = skip (8 + n + 1 + m + 1) b

  on_socks4-accepts : on_socks4_request b s ≡ accept_socks4 request behind s
  unfolding on_socks4_request request behind
  on_socks4-accepts =
      let p =
        parse_socks4a_whole Socks4.create b.mem b.offset b.capacity n version user nul m name nul'
          whole named in
      let len = socks4a_request-length Socks4.create b.mem b.offset n m named in
      let taken : advance (8 + n + 1 + m + 1) b ≡ some (skip (8 + n + 1 + m + 1) b) =
        advance-skip (8 + n + 1 + m + 1) b (omega arith) in
      rw (p, len, taken)

  -- A complete SOCKS4a request, with an address 0.0.0.x, x not 0, a user id of `n` bytes and a domain
  -- name of `m` bytes, none of them a NUL, and a NUL behind each. At port 0, or with an empty name, it is
  -- refused. At another port and with a name of at most 255 bytes, the connection goes on to the
  -- response, for that name and port, with what stood behind the request. At another port and with a
  -- longer name it is not refused: the name goes to the constructor of `ss::request`, which has room for
  -- 255 bytes and whose DCHECK on that fails.
  pub socks4a_outcomes :
      (((b.mem (b.offset + 2) * 256 + b.mem (b.offset + 3) ≡ 0) ⊎ (m ≡ 0))
        × (on_socks4_request b s ≡ some (on_disconnect invalid_argument s)))
      ⊎ ((0 < b.mem (b.offset + 2) * 256 + b.mem (b.offset + 3))
          × (0 < m)
          × (m ≤ 255)
          × ((a : AddressHeader) × (of_domain
                  (slice b.mem (b.offset + 8 + n + 1) m)
                  (b.mem (b.offset + 2) * 256 + b.mem (b.offset + 3))
                ≡ some a)
              × (on_socks4_request b s
                  ≡ some (record s {
                    request = a;
                    handshake_pending_buf = some (skip (8 + n + 1 + m + 1) b);
                    task = write_handshake_response;
                  }))))
      ⊎ ((0 < b.mem (b.offset + 2) * 256 + b.mem (b.offset + 3))
          × (255 < m)
          × (on_socks4_request b s ≡ none))
  unfolding request behind with_domain Socks4.port Socks4.is_socks4a
  socks4a_outcomes =
      let size = length-slice b.mem (b.offset + 8 + n + 1) m in
      let port = b.mem (b.offset + 2) * 256 + b.mem (b.offset + 3) in
      let l = slice b.mem (b.offset + 8 + n + 1) m in
      elim (accept-named request behind s named) [
        | inl (inl p, e) ↦ inl (inl p, on_socks4-accepts ∙ e)
        | inl (inr z, e) ↦ inl (inr (omega (arith, z, size)), on_socks4-accepts ∙ e)
        | inr (p, z, e) ↦ elim (Bool-cases (leb m 255)) [
          | inl short ↦
              let short_enough : m ≤ 255 = ground arith in
              let (a, made) = of_domain-short l port (omega (arith, size, short_enough)) in
              inr (
                inl (
                  p,
                  omega (arith, size, z),
                  short_enough,
                  (a, made, on_socks4-accepts ∙ e ∙ rw made),
                ))
          | inr long ↦
              let over : 255 < m = ground arith in
              inr (
                inr (
                  p,
                  over,
                  on_socks4-accepts ∙ e ∙ rw (of_domain-long l port (omega (arith, size, over))),
                ))
        ]
      ]
