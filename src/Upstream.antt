-- ===== src/Upstream.antt =====
-- The SOCKS handshake of the client with its upstream server: `WriteUpstreamMethodSelectRequest` to
-- `ReadUpstreamSocksResponse` of src/cli/cli_connection.cpp, and the parts of `connected`,
-- `GetNextUpstreamBuf`, `WriteUpstreamInPipe` and `GetNextDownstreamBuf` that drive it. A buffer of
-- `upstream_` is the list of its bytes from `data()` on: the requests only append to it, and sending
-- moves its offset. A result `none` is a failed CHECK or DCHECK.
pub mod Queue
pub mod Writes
pub mod Responses
pub mod Reachable
mod Tests
use yass.Common.{
  ℕ, ◌+◌, ◌-◌, ◌*◌, ◌%◌, Bool, true, false, not, ◌&&◌, ◌||◌, Option, none, some, List, [], ◌∷◌,
  ◌++◌, leb, ltb, ◌==◌, if◌then◌else◌, ◌>>=◌, dcheck, slice, length, take, drop,
}
use yass.Address.{AddressHeader, address_type, address4, address6, domain_name, domain, ipv4, ipv6}
use yass.Handshake.{
  ErrorCode, connection_refused, access_denied, try_again, is_retry, CipherMethod, crypto_socks4,
  crypto_socks4a, crypto_socks5, crypto_socks5h, other, is_socks5_method, View, size, advance,
  auth_required,
}
use yass.Shadowsocks.{port_place}

pub record Client : Type 0 where
  pub method : CipherMethod
  pub username : List ℕ  -- `remote_config_`
  pub password : List ℕ
  pub request : AddressHeader
  pub upstream : List (List ℕ)
  pub downstream : List View
  pub socks5_method_select_handshake : Bool
  pub socks5_auth_handshake : Bool
  pub socks_handshake : Bool
  pub sent : List ℕ  -- what the channel has taken
  pub disconnected : Option ErrorCode

-- `request_.port_high_byte()` and `request_.port_low_byte()`
abbrev pub request_port : AddressHeader → List ℕ
request_port a = a (port_place a) ∷ a (port_place a + 1) ∷ []

abbrev pub is_empty : List ℕ → Bool
is_empty [] = true
is_empty (x ∷ xs) = false

abbrev pub on_disconnect : ErrorCode → Client → Client
on_disconnect ec c = record c { disconnected = some ec }

abbrev pub needs_auth : Client → Bool
needs_auth c = auth_required c.username c.password

-- Behind the greeting stand empty buffers, to be filled with the requests that follow it.
unfoldable pub write_method_select_request : Client → Client
write_method_select_request c =
    let auth = needs_auth c in
    let greeting : List ℕ = 5 ∷ 1 ∷ (if auth then 2 else 0) ∷ [] in
    record c {
      upstream = c.upstream ++ (greeting ∷ (if auth then [] ∷ [] ∷ [] else [] ∷ []));
      socks5_method_select_handshake = true;
      socks5_auth_handshake = auth;
    }

-- The user name and the password go into the front buffer, which must be empty. Their lengths are
-- narrowed to a byte.
unfoldable pub write_auth_request : Client → Option Client
write_auth_request c = elim c.upstream [
  | [] ↦ none
  | b ∷ rest ↦ dcheck (is_socks5_method c.method && is_empty b) (
      some (record c {
        upstream =
            (5
              ∷ (length c.username % 256)
              ∷ (c.username ++ ((length c.password % 256) ∷ (c.password ++ []))))
            ∷ rest;
      }))
]

-- The address as the SOCKS5 request has it, with its type.
abbrev pub request_address : AddressHeader → List ℕ
request_address a =
    if address_type a == domain
    then domain ∷ (length (domain_name a) % 256) ∷ (domain_name a ++ (request_port a ++ []))
    else if address_type a == ipv6
    then ipv6 ∷ (address6 a ++ (request_port a ++ []))
    else ipv4 ∷ (address4 a ++ (request_port a ++ []))

-- The request is appended to the front buffer.
unfoldable pub write_socks5_request : Client → Option Client
write_socks5_request c = elim c.upstream [
  | [] ↦ none
  | b ∷ rest ↦ some (record c {
    upstream = (b ++ (5 ∷ 1 ∷ 0 ∷ request_address c.request)) ∷ rest;
    socks_handshake = true;
  })
]

unfoldable pub write_socks4_request : Client → Option Client
write_socks4_request c =
    let type = address_type c.request in
    if type == domain
    then none
    else if type == ipv6
    then some (on_disconnect access_denied c)
    else some (record c {
      upstream =
          c.upstream
          ++ ((4 ∷ 1 ∷ (request_port c.request ++ (address4 c.request ++ (0 ∷ [])))) ∷ []);
      socks_handshake = true;
    })

-- `to_string` of asio gives the text of an address.
module _ (to_string : List ℕ → List ℕ) where
  abbrev pub socks4a_name : AddressHeader → List ℕ
  socks4a_name a =
      if address_type a == domain
      then domain_name a
      else if address_type a == ipv6
      then to_string (address6 a)
      else to_string (address4 a)

  unfoldable pub write_socks4a_request : Client → Client
  write_socks4a_request c = record c {
    upstream =
        c.upstream
        ++ ((4
              ∷ 1
              ∷ (request_port c.request
                  ++ (0 ∷ 0 ∷ 0 ∷ 15 ∷ 0 ∷ (socks4a_name c.request ++ (0 ∷ [])))))
            ∷ []);
    socks_handshake = true;
  }

  -- The `switch` of `connected` on the method of a SOCKS upstream.
  unfoldable pub write_first : CipherMethod → Client → Option Client
  write_first crypto_socks4 c = write_socks4_request c
  write_first crypto_socks4a c = some (write_socks4a_request c)
  write_first crypto_socks5 c = some (write_method_select_request c)
  write_first crypto_socks5h c = some (write_method_select_request c)
  write_first other c = none

-- `ec`, or none; what is left of the buffer; and the client.
abbrev pub Answer : Type 0
Answer = Client × View × Option ErrorCode

abbrev pub refuse : Client → View → Answer
refuse c b = (on_disconnect connection_refused c, b, some connection_refused)

-- `if (buf->empty()) ec = try_again;`
abbrev pub answered : Client → View → Answer
answered c b = (c, b, if size b == 0 then some try_again else none)

unfoldable pub read_method_select_response : View → Client → Option Answer
read_method_select_response b c =
    let c' : Client = record c { socks5_method_select_handshake = false } in
    let auth = c.socks5_auth_handshake in
    let ver = b.mem b.offset in
    let method = b.mem (b.offset + 1) in
    if ltb (size b) 2
      || not (ver == 5)
      || (not auth && not (method == 0))
      || (auth && not (method == 2))
    then some (refuse c' b)
    else (advance 2 b >>= λ rest.
        (if auth then write_auth_request c' else write_socks5_request c') >>= λ c''.
        some (answered c'' rest))

unfoldable pub read_auth_response : View → Client → Option Answer
read_auth_response b c =
    let c' : Client = record c { socks5_auth_handshake = false } in
    if ltb (size b) 2 || not (b.mem b.offset == 5) || not (b.mem (b.offset + 1) == 0)
    then some (refuse c' b)
    else (advance 2 b >>= λ rest. write_socks5_request c' >>= λ c''. some (answered c'' rest))

-- `expected_len` is there, or the response is refused.
unfoldable pub skip_reply : ℕ → View → Client → Option Answer
skip_reply n b c =
    if ltb (size b) n then some (refuse c b) else (advance n b >>= λ rest. some (answered c rest))

unfoldable pub read_socks4_response : View → Client → Option Answer
unfolding skip_reply
read_socks4_response b c =
    if ltb (size b) 8 || not (b.mem b.offset == 0) || not (b.mem (b.offset + 1) == 0x5a)
    then some (refuse c b)
    else skip_reply 8 b c

unfoldable pub read_socks5_response : View → Client → Option Answer
unfolding skip_reply
read_socks5_response b c =
    let type = b.mem (b.offset + 3) in
    if ltb (size b) 4
      || not (b.mem b.offset == 5)
      || not (b.mem (b.offset + 1) == 0)
      || not (b.mem (b.offset + 2) == 0)
    then some (refuse c b)
    else if type == ipv4
    then skip_reply (4 + 4 + 2) b c
    else if type == ipv6
    then skip_reply (4 + 16 + 2) b c
    else if type == domain
    then (if ltb (size b) (4 + 1 + 2)
        then some (refuse c b)
        else skip_reply (4 + 1 + 2 + b.mem (b.offset + 4)) b c)
    else some (refuse c b)

-- The `switch` of `ReadUpstreamSocksResponse`
unfoldable pub read_reply : CipherMethod → View → Client → Option Answer
read_reply crypto_socks4 b c = read_socks4_response b c
read_reply crypto_socks4a b c = read_socks4_response b c
read_reply crypto_socks5 b c = read_socks5_response b c
read_reply crypto_socks5h b c = read_socks5_response b c
read_reply other b c = none

unfoldable pub read_socks_response : View → Client → Option Answer
read_socks_response b c = read_reply c.method b (record c { socks_handshake = false })

-- One of the three `if`s of `GetNextDownstreamBuf`: an error ends the call.
unfoldable pub then_read :
    (Client → Bool) → (View → Client → Option Answer) → Answer → Option Answer
then_read flag read (c, b, some ec) = some (c, b, some ec)
then_read flag read (c, b, none) = if flag c then read b c else some (c, b, none)

-- What is left of the buffer is the stream's.
unfoldable pub deliver : Answer → Answer
deliver (c, b, some ec) = (c, b, some ec)
deliver (c, b, none) = (record c { downstream = c.downstream ++ (b ∷ []) }, b, none)

-- What a read from the upstream server goes through: the handshakes that are pending, in turn.
unfoldable pub read_upstream : View → Client → Option Answer
read_upstream b c =
    then_read (λ c. c.socks5_method_select_handshake) read_method_select_response (c, b, none)
    >>= λ x. then_read (λ c. c.socks5_auth_handshake) read_auth_response x >>= λ y.
        then_read (λ c. c.socks_handshake) read_socks_response y >>= λ z. some (deliver z)

-- The head of `GetNextUpstreamBuf`: the front buffer, or none where it has to wait.
unfoldable pub next_upstream_buf : Client → Option (Option (List ℕ))
next_upstream_buf c = elim c.upstream [
  | [] ↦ some none
  | b ∷ rest ↦
      if is_empty b
      then (if c.socks5_method_select_handshake || c.socks5_auth_handshake then some none else none)
      else some (some b)
]

-- What a round of `WriteUpstreamInPipe` meets: a channel that is not connected or at its end; or one
-- whose `write_some` takes some bytes, with an error or none.
pub data Write : Type 0 where
  blocked : Write
  takes : Option ErrorCode → ℕ → Write

abbrev pub is_again : Option ErrorCode → Bool
is_again none = false
is_again (some ec) = is_retry ec

abbrev pub disconnect_on : Option ErrorCode → Client → Client
disconnect_on none c = c
disconnect_on (some ec) c = on_disconnect ec c

-- From `write_some` on, for the front buffer `b`: its offset moves, a write to be tried again must have
-- taken nothing, a buffer that is sent whole is popped, and any other error ends the connection.
unfoldable pub write_to_channel : Option ErrorCode → ℕ → List ℕ → Client → Option Client
write_to_channel ec n b c =
    let c' : Client = record c { sent = c.sent ++ take n b } in
    if ltb (length b) n
    then none
    else if is_again ec
    then dcheck (n == 0) (some c)
    else some (
        disconnect_on ec (
          if is_empty (drop n b)
          then record c' { upstream = drop 1 c.upstream }
          else record c' { upstream = drop n b ∷ drop 1 c.upstream }))

unfoldable pub write_some : Write → Client → Option Client
write_some blocked c = next_upstream_buf c >>= λ front. some c
write_some (takes ec n) c = next_upstream_buf c >>= λ front. elim front [
  | none ↦ some c
  | some b ↦ write_to_channel ec n b c
]

-- `OnStreamRead` with a channel that is connected: the data waits behind the handshake.
unfoldable pub on_stream_read : List ℕ → Client → Client
on_stream_read bytes c = record c { upstream = c.upstream ++ (bytes ∷ []) }
