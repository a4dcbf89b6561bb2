-- ===== src/Server/Stream.antt =====
-- The handshake of a Shadowsocks stream: `on_received_data` and `ReadHandshake` of
-- src/server/server_connection.cpp. The decoder, which gives the plaintext of a buffer in chunks, is an
-- argument.
use yass.Common.{
  ℕ, ◌+◌, ◌<◌, ◌≤◌, ◌≡◌, ap, refl, ◌∙◌, arith, not, ◌&&◌, ◌||◌, Option, none, some, List, [], ◌∷◌,
  ◌++◌, leb, ◌==◌, if◌then◌else◌, ◌>>=◌, dcheck, Mem,
}
use yass.Address.{good, Parsed, AddressHeader, address_type, domain_name, domain, zeroed}
use yass.Handshake.{
  invalid_argument, is_retry, View, size, contents, advance, received_view, Received, failed,
  received, is_good, is_unspecified,
}
use yass.Shadowsocks
use yass.Shadowsocks.{address_type_size}
use yass.Shadowsocks.Parsing.{parse_ss_domain}
use yass.Server.{Server, relay, on_disconnect, is_empty, endpoint_or_default}
use yass.Server.Faults.{advance-beyond}

-- `on_received_data` in `state_handshake`: a chunk is appended to `handshake_`.
unfoldable pub append_handshake : Mem → Option View → View → View
append_handshake behind none b = b
append_handshake behind (some h) b = received_view behind (contents h ++ contents b)

unfoldable pub received_chunks : Mem → Option View → List View → Option View
received_chunks behind h [] = h
received_chunks behind h (b ∷ bs) = received_chunks behind (some (append_handshake behind h b)) bs

unfoldable pub accept_stream : AddressHeader → View → Server → Option Server
accept_stream a rest s =
    let named = address_type a == domain in
    let (bytes, port) = endpoint_or_default (Shadowsocks.endpoint a) in
    if Shadowsocks.port a == 0
      || (named && is_empty (domain_name a))
      || (not named && is_unspecified bytes)
    then some (on_disconnect invalid_argument s)
    else some (record s { task = relay rest })

-- The parser is given the bytes from `data()` on, as many as were read from the socket.
unfoldable pub stream_request :
    ℕ → View → Server → Parsed Shadowsocks.State AddressHeader → Option Server
stream_request transferred b s (st, a, o, next) =
    let s' : Server = record s { request = a } in
    if is_good o
    then (advance (address_type_size a) b >>= λ rest.
        dcheck (leb (address_type_size a) transferred) (accept_stream a rest s'))
    else some (on_disconnect invalid_argument s')

unfoldable pub on_stream_request : ℕ → View → Server → Option Server
on_stream_request transferred b s =
    stream_request transferred b s
      (Shadowsocks.parse s.request b.mem b.offset (b.offset + transferred))

-- With the connection and `handshake_`.
unfoldable pub take_handshake : ℕ → Server → Option View → Option (Server × Option View)
take_handshake transferred s none = some (s, none)
take_handshake transferred s (some b) =
    on_stream_request transferred b s >>= λ s'. some (s', some b)

parsed_beyond :
    (n : ℕ) (v : View) (s : Server)
    → s.request ≡ zeroed
    → (Shadowsocks.parse zeroed v.mem v.offset (v.offset + n)).2 ≡ good
    → v.capacity
      < v.offset + address_type_size (Shadowsocks.parse zeroed v.mem v.offset (v.offset + n)).1
    → on_stream_request n v s ≡ none
unfolding on_stream_request stream_request
parsed_beyond n v s fresh o long =
    ap (λ a. stream_request n v s (Shadowsocks.parse a v.mem v.offset (v.offset + n))) fresh
    ∙ rw (o, advance-beyond _ v long) refl

module _ (decode : View → List View) where
  unfoldable pub on_read_handshake :
      Mem → Received → Server → Option View → Option (Server × Option View)
  on_read_handshake behind (failed ec) s h =
      some ((if is_retry ec then s else on_disconnect ec s), h)
  on_read_handshake behind (received b) s h =
      take_handshake (size b) s (received_chunks behind h (decode b))

  -- A stream whose first chunk of plaintext breaks off inside a header with a domain name ends the
  -- process. The parser goes as far as there were bytes on the wire, salt, lengths and tags included; it
  -- takes the rest of the header from the memory behind the chunk, and `set_offset` fails its CHECK.
  pub short_header_aborts :
      (behind : Mem) (b v : View) (s : Server)
      → decode b ≡ v ∷ []
      → s.request ≡ zeroed
      → v.mem v.offset ≡ domain
      → v.capacity < v.offset + 4 + v.mem (v.offset + 1)
      → 5 ≤ size b
      → 4 + v.mem (v.offset + 1) ≤ size b
      → on_read_handshake behind (received b) s none ≡ none
  unfolding on_read_handshake take_handshake received_chunks append_handshake
  short_header_aborts behind b v s d fresh t short five wide =
      let (o, next, len, name, port) =
        parse_ss_domain v.mem v.offset (v.offset + size b) t (omega arith) (omega arith) in
      let aborts = parsed_beyond (size b) v s fresh o (omega (arith, len)) in
      ap (λ l. take_handshake (size b) s (received_chunks behind none l)) d
      ∙ ap (λ r. r >>= λ s'. some (s', some v)) aborts
