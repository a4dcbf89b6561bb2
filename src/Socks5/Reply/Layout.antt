-- ===== src/Socks5/Reply/Layout.antt =====
-- A reply of src/net/socks5.hpp has the layout of a request: `request_parser` of
-- src/net/socks5_request_parser.hpp reads its endpoint back.
use yass.Common.{
  ℕ, suc, ◌+◌, ◌*◌, ◌/◌, ◌%◌, ◌^◌, ◌≤◌, ◌<◌, ◌≡◌, refl, sym, ap, ap₂, ◌∙◌, ◌⊎◌, inl, inr, true,
  false, List, [], ◌∷◌, ◌++◌, arith, ◌==◌, length, get_or, get_or-append_left, get_or-append_right,
  Mem, slice, slice-congr, get_or-slice, bytes_of, slice-bytes_of, some,
}
use yass.Address.{good, ipv4, ipv6}
use yass.Socks5.{create, request_start, parse, endpoint, request_length, version}
use yass.Socks5.Parsing.{parse-ip}
use yass.Socks5.Reply.{Reply, buffers, reply_endpoint, set_endpoint}

-- The endpoint that was set is the reply's, and the bytes of the reply are a header, the address and
-- the port.
pub set_endpoint-IsIp :
    (address : List ℕ) (port : ℕ) (r : Reply)
    → (length address ≡ 4) ⊎ (length address ≡ 16)
    → port < 2 ^ 16
    → (reply_endpoint (set_endpoint address port r) ≡ (address, port))
      × (t : ℕ) × (((t ≡ ipv4) × (length address ≡ 4)) ⊎ ((t ≡ ipv6) × (length address ≡ 16)))
      × (buffers (set_endpoint address port r)
          ≡ r.ver
            ∷ r.status
            ∷ r.null_byte
            ∷ t
            ∷ (address ++ ((port / 256 % 256) ∷ (port % 256) ∷ [])))
unfolding set_endpoint buffers reply_endpoint
set_endpoint-IsIp address port r (inl e) small =
    let four : (length address == 4) ≡ true = ground arith in
    let whole : port / 256 % 256 * 256 + port % 256 ≡ port = omega arith in
    rw four (ap (λ p. (address, p)) whole, ipv4, inl (refl, e), refl)
set_endpoint-IsIp address port r (inr e) small =
    let not_four : (length address == 4) ≡ false = ground arith in
    let whole : port / 256 % 256 * 256 + port % 256 ≡ port = omega arith in
    rw not_four (ap (λ p. (address, p)) whole, ipv6, inr (refl, e), refl)

-- What memory holds where a header, an address and a port lie.
module _ (mem : Mem) (begin : ℕ) (a b c d high low : ℕ) (address : List ℕ)
    (held : slice mem begin (6 + length address)
      ≡ a ∷ b ∷ c ∷ d ∷ (address ++ (high ∷ low ∷ []))) where
  byte-held :
      (k : ℕ)
      → k < 6 + length address
      → mem (begin + k) ≡ get_or (a ∷ b ∷ c ∷ d ∷ (address ++ (high ∷ low ∷ []))) k 0
  byte-held k h =
      sym (get_or-slice mem begin (6 + length address) k h) ∙ ap (λ l. get_or l k 0) held

  address-byte :
      (k : ℕ)
      → k < 2 + length address
      → mem (begin + 4 + k) ≡ get_or (address ++ (high ∷ low ∷ [])) k 0
  address-byte k h =
      ap mem (let e : begin + 4 + k ≡ begin + suc (suc (suc (suc k))) = omega arith in e)
      ∙ byte-held (suc (suc (suc (suc k)))) (omega arith)

  address-held : slice mem (begin + 4) (length address) ≡ address
  address-held =
      slice-congr mem (bytes_of address) (begin + 4) 0 (length address) (λ k h.
        address-byte k (omega arith)
        ∙ get_or-append_left address (high ∷ low ∷ []) k 0 h
        ∙ ap (bytes_of address) (let e : k ≡ 0 + k = omega arith in e))
      ∙ slice-bytes_of address

  port-held :
      (mem (begin + 4 + length address) ≡ high) × (mem (begin + 4 + length address + 1) ≡ low)
  port-held = (
    address-byte (length address) (omega arith)
        ∙ get_or-append_right address (high ∷ low ∷ []) (length address) 0 0 (omega arith),
    ap mem (
          let e : begin + 4 + length address + 1 ≡ begin + 4 + (length address + 1) = omega arith in
          e)
        ∙ address-byte (length address + 1) (omega arith)
        ∙ get_or-append_right address (high ∷ low ∷ []) (length address + 1) 1 0 refl,
  )

-- A SOCKS5 reply whose endpoint was set, written anywhere in memory, is a complete request to
-- `request_parser`: it is accepted to its last byte, with the reply's status as the command, and the
-- endpoint that was set.
pub parse-set_endpoint :
    (mem : Mem) (begin end : ℕ) (address : List ℕ) (port : ℕ) (r : Reply)
    → r.ver ≡ version
    → (length address ≡ 4) ⊎ (length address ≡ 16)
    → port < 2 ^ 16
    → slice mem begin (6 + length address) ≡ buffers (set_endpoint address port r)
    → begin + 6 + length address ≤ end
    → let (st, q, o, next) = parse request_start create mem begin end in
      (o ≡ good)
      × (next ≡ begin + request_length q)
      × (q.command ≡ r.status)
      × (endpoint q ≡ some (address, port))
      × (reply_endpoint (set_endpoint address port r) ≡ (address, port))
parse-set_endpoint mem begin end address port r v size small written room =
    let (kept, t, kind, bytes) = set_endpoint-IsIp address port r size small in
    let held = written ∙ bytes in
    let byte =
      byte-held mem begin r.ver r.status r.null_byte t (port / 256 % 256) (port % 256) address
        held in
    let first : mem begin ≡ version =
      ap mem (let e : begin ≡ begin + 0 = omega arith in e) ∙ byte 0 (omega arith) ∙ v in
    let type : mem (begin + 3) ≡ t = byte 3 (omega arith) in
    let (high, low) =
      port-held mem begin r.ver r.status r.null_byte t (port / 256 % 256) (port % 256) address
        held in
    let (o, next, command, ends) =
      parse-ip mem begin end (length address) first
        (elim kind [ inl (e, l) ↦ inl (type ∙ e, l) | inr (e, l) ↦ inr (type ∙ e, l) ]) room in
    (
      o,
      next,
      command ∙ byte 1 (omega arith),
      ends
          ∙ ap₂ (λ x y. some (x, y))
              (address-held mem begin r.ver r.status r.null_byte t (port / 256 % 256) (port % 256)
                address held)
              (omega (arith, high, low)),
      kept,
    )
