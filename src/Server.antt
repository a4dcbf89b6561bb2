-- ===== src/Server.antt =====
-- The SOCKS handshake of the server: `ReadHandshakeViaSocks` to `OnReadHandshakeViaSocks5` of
-- src/server/server_connection.cpp. A connection waits for its socket in one of the tasks below; an
-- event runs the handler of the task, and the handler leaves the next task. Where the source calls the
-- next handler at once, because bytes are pending, that is the next event here too. A result `none` is
-- a failed CHECK or DCHECK, or a null dereference.
pub mod Pending
pub mod Messages
pub mod Requests
pub mod Named
pub mod Faults
pub mod Gate
pub mod Gated
pub mod Relay
pub mod Stream
mod Tests
use yass.Common.{
  ℕ, ◌+◌, ◌-◌, ◌*◌, Bool, true, false, not, ◌&&◌, ◌||◌, Option, none, some, List, [], ◌∷◌, ◌++◌,
  ◌==◌, if◌then◌else◌, ◌>>=◌, Mem, slice, length, take,
}
use yass.Address.{AddressHeader, address_type, domain_name, domain, ipv4}
use yass.Handshake.{
  ErrorCode, invalid_argument, connection_refused, is_retry, is_cancelled, CipherMethod,
  is_socks4_method, is_socks5_method, View, size, advance, Received, failed, received,
  auth_required, is_good, is_unspecified, str_eq, contains,
}
use yass.Shadowsocks.{of_domain, of_endpoint}
use yass.Shadowsocks
use yass.Socks4
use yass.Socks4.Reply as Reply4
use yass.Socks5
use yass.Socks5.Method.{MethodRequest, method_length, offered}
use yass.Socks5.Method
use yass.Socks5.Auth.{auth_length, create_auth, parse_auth}
use yass.Socks5.Auth
use yass.Socks5.Reply as Reply5

-- What the connection waits for: `relay` has finished the handshake, and holds what came behind it.
pub data Task : Type 0 where
  read_handshake_via_socks write_method_select_response : Task
  read_username_password_auth write_auth_response : Task
  read_handshake_via_socks5 write_handshake_response cancelled : Task
  relay : View → Task
  disconnected : ErrorCode → Task

pub record Server : Type 0 where
  pub method : CipherMethod
  pub username : List ℕ
  pub password : List ℕ
  pub request : AddressHeader
  pub handshake_pending_buf : Option View
  pub written : List ℕ
  pub task : Task

abbrev pub on_disconnect : ErrorCode → Server → Server
on_disconnect ec s = record s { task = disconnected ec }

abbrev pub no_auth_required : ℕ
no_auth_required = 0

abbrev pub username_or_password : ℕ
username_or_password = 2

-- `request_ = {domain_name, port}`
unfoldable pub with_domain : List ℕ → ℕ → View → Server → Option Server
with_domain name port rest s = of_domain name port >>= λ a.
    some
      (record s { request = a; handshake_pending_buf = some rest; task = write_handshake_response })

-- `request_ = {endpoint}`
unfoldable pub with_endpoint : List ℕ → ℕ → View → Server → Option Server
with_endpoint bytes port rest s = some (record s {
  request = of_endpoint bytes port;
  handshake_pending_buf = some rest;
  task = write_handshake_response;
})

abbrev pub is_empty : List ℕ → Bool
is_empty [] = true
is_empty (x ∷ xs) = false

unfoldable pub accept_socks4 : Socks4.Request → View → Server → Option Server
accept_socks4 r rest s =
    let (bytes, port) = Socks4.endpoint r in
    if port == 0
      || (Socks4.is_socks4a r && is_empty r.domain_name)
      || (not (Socks4.is_socks4a r) && is_unspecified bytes)
    then some (on_disconnect invalid_argument s)
    else if Socks4.is_socks4a r
    then with_domain r.domain_name port rest s
    else with_endpoint bytes port rest s

unfoldable pub on_socks4_request : View → Server → Option Server
on_socks4_request b s =
    let (st, r, o, next) =
      Socks4.parse Socks4.State.request_start Socks4.create b.mem b.offset b.capacity in
    if is_good o
    then (advance (Socks4.request_length r) b >>= λ rest. accept_socks4 r rest s)
    else some (on_disconnect invalid_argument s)

-- `method_select_request()` leaves the 255 bytes of `methods_` as memory has them: `stale`.
abbrev pub create_method : Mem → MethodRequest
create_method stale = record { ver = 0; nmethods = 0; methods = stale }

-- The method that the server wants to be offered.
abbrev pub wanted_method : Server → ℕ
wanted_method s =
    if auth_required s.username s.password then username_or_password else no_auth_required

unfoldable pub on_method_select : Mem → View → Server → Option Server
on_method_select stale b s =
    let (st, r, o, next) =
      Method.parse Method.request_start (create_method stale) b.mem b.offset b.capacity in
    if is_good o
    then (advance (method_length r) b >>= λ rest.
        if contains (wanted_method s) (offered r)
        then some
            (record s { handshake_pending_buf = some rest; task = write_method_select_response })
        else some (on_disconnect invalid_argument s))
    else some (on_disconnect invalid_argument s)

unfoldable pub on_auth_request : View → Server → Option Server
on_auth_request b s =
    let (st, r, o, next) = parse_auth Auth.request_start create_auth b.mem b.offset b.capacity in
    if is_good o
    then (advance (auth_length r) b >>= λ rest.
        if not (str_eq r.username s.username) || not (str_eq r.password s.password)
        then some (on_disconnect invalid_argument s)
        else some (record s { handshake_pending_buf = some rest; task = write_auth_response }))
    else some (on_disconnect invalid_argument s)

-- `request.endpoint()`, which is 0.0.0.0:0 where the request has no address.
abbrev pub endpoint_or_default : Option (List ℕ × ℕ) → List ℕ × ℕ
endpoint_or_default none = (0 ∷ 0 ∷ 0 ∷ 0 ∷ [], 0)
endpoint_or_default (some e) = e

unfoldable pub accept_socks5 : Socks5.Request → View → Server → Option Server
accept_socks5 r rest s =
    let named = address_type r.atyp_req == domain in
    let (bytes, port) = endpoint_or_default (Socks5.endpoint r) in
    if Socks5.port r == 0
      || (named && is_empty (domain_name r.atyp_req))
      || (not named && is_unspecified bytes)
    then some (on_disconnect invalid_argument s)
    else if named
    then with_domain (domain_name r.atyp_req) (Socks5.port r) rest s
    else with_endpoint bytes port rest s

unfoldable pub on_socks5_request : View → Server → Option Server
on_socks5_request b s =
    let (st, r, o, next) =
      Socks5.parse Socks5.request_start Socks5.create b.mem b.offset b.capacity in
    if is_good o
    then (advance (Socks5.request_length r) b >>= λ rest. accept_socks5 r rest s)
    else some (on_disconnect invalid_argument s)

-- A read's outcome: `again` is what the handler calls where the socket had nothing.
unfoldable pub on_received :
    Received → Option Server → (View → Option Server) → Server → Option Server
on_received (failed ec) again k s = if is_retry ec then again else some (on_disconnect ec s)
on_received (received b) again k s = k b

-- `ReadSocks5UsernamePasswordAuth` looks into the pending buffer first.
unfoldable pub start_auth : Server → Option Server
start_auth s = elim s.handshake_pending_buf [
  | none ↦ none
  | some b ↦ some (record s { task = read_username_password_auth })
]

-- `ReadHandshakeViaSocks5` does too.
unfoldable pub start_socks5 : Server → Option Server
start_socks5 s = elim s.handshake_pending_buf [
  | none ↦ none
  | some b ↦ some (record s { task = read_handshake_via_socks5 })
]

-- The pending buffer is moved out; the socket is read only if it is empty.
unfoldable pub with_pending :
    (Server → Option Server) → (View → Server → Option Server) → Received → Server → Option Server
with_pending again k got s =
    let s' : Server = record s { handshake_pending_buf = none } in
    elim s.handshake_pending_buf [
      | none ↦ none
      | some b ↦ if size b == 0 then on_received got (again s') (λ r. k r s') s' else k b s'
    ]

unfoldable pub on_read_handshake_via_socks : Mem → Received → Server → Option Server
on_read_handshake_via_socks stale got s =
    on_received got (some (record s { task = read_handshake_via_socks }))
      (λ b.
        if is_socks4_method s.method
        then on_socks4_request b s
        else if is_socks5_method s.method
        then on_method_select stale b s
        else none)
      s

unfoldable pub on_read_username_password_auth : Received → Server → Option Server
on_read_username_password_auth = with_pending start_auth on_auth_request

-- Where the read would block, this handler goes back to `ReadHandshakeViaSocks`.
unfoldable pub on_read_handshake_via_socks5 : Received → Server → Option Server
on_read_handshake_via_socks5 =
    with_pending (λ s. some (record s { task = read_handshake_via_socks })) on_socks5_request

-- `write_some`: its error code, and how many bytes it took.
pub record Written : Type 0 where
  pub error : Option ErrorCode
  pub count : ℕ

-- A response is sent whole, or the connection is closed.
unfoldable pub send : List ℕ → Written → (Server → Option Server) → Server → Option Server
send bytes w k s =
    let s' : Server = record s { written = s.written ++ take w.count bytes } in
    elim w.error [
      | some ec ↦ some (on_disconnect connection_refused s')
      | none ↦ if w.count == length bytes then k s' else some (on_disconnect connection_refused s')
    ]

-- `method_select_response_stock_reply` and `auth_response_stock_reply`
abbrev pub method_select_response : ℕ → List ℕ
method_select_response method = 5 ∷ method ∷ []

abbrev pub auth_response : List ℕ
auth_response = 5 ∷ 0 ∷ []

unfoldable pub write_method_select : Written → Server → Option Server
write_method_select w s =
    send (method_select_response (wanted_method s)) w
      (λ s'. if auth_required s'.username s'.password then start_auth s' else start_socks5 s') s

unfoldable pub write_auth : Written → Server → Option Server
write_auth w s = send auth_response w start_socks5 s

-- The reply to the request; `high`, `low` and the addresses are what `reply()` leaves unset.
unfoldable pub handshake_reply : List ℕ → List ℕ → ℕ → ℕ → Server → List ℕ
handshake_reply address4 address6 high low s =
    let unspecified : List ℕ = 0 ∷ 0 ∷ 0 ∷ 0 ∷ [] in
    if is_socks4_method s.method
    then Reply4.buffers
        (record (Reply4.set_endpoint unspecified 0 (Reply4.create_reply high low address4)) {
          status = Reply4.request_granted;
        })
    else (let (bytes, port) =
          if address_type s.request == domain
          then (unspecified, 0)
          else endpoint_or_default (Shadowsocks.endpoint s.request) in
        Reply5.buffers
          (record (Reply5.set_endpoint bytes port
            (Reply5.create_reply address4 address6 high low)) { status = Reply5.request_granted }))

-- `ProcessReceivedData` with the moved buffer, in `state_handshake`: the destination is connected.
unfoldable pub process_received : Server → Option Server
process_received s = elim s.handshake_pending_buf [
  | none ↦ none
  | some b ↦ some (record s { handshake_pending_buf = none; task = relay b })
]

unfoldable pub write_handshake : List ℕ → List ℕ → ℕ → ℕ → Written → Server → Option Server
write_handshake address4 address6 high low w s =
    send (handshake_reply address4 address6 high low s) w process_received s

-- What the socket reports: it is readable or writable, or waiting for it failed.
pub data Event : Type 0 where
  readable : Mem → Received → Event
  writable : List ℕ → List ℕ → ℕ → ℕ → Written → Event
  wait_error : ErrorCode → Event

-- The handler of the task that waits. An event that no task waits for changes nothing.
unfoldable pub dispatch : Task → Event → Server → Option Server
dispatch read_handshake_via_socks (readable stale got) s = on_read_handshake_via_socks stale got s
dispatch read_username_password_auth (readable stale got) s = on_read_username_password_auth got s
dispatch read_handshake_via_socks5 (readable stale got) s = on_read_handshake_via_socks5 got s
dispatch write_method_select_response (writable a b h l w) s = write_method_select w s
dispatch write_auth_response (writable a b h l w) s = write_auth w s
dispatch write_handshake_response (writable a b h l w) s = write_handshake a b h l w s
dispatch (relay b) e s = some s
dispatch (disconnected ec) e s = some s
dispatch cancelled e s = some s
dispatch t (wait_error ec) s =
    if is_cancelled ec then some (record s { task = cancelled }) else some (on_disconnect ec s)
dispatch t e s = some s

unfoldable pub step : Event → Server → Option Server
step e s = dispatch s.task e s
