-- ===== src/Local/Reads.antt =====
-- `OnReadSocks5MethodSelect`, `OnReadSocks5Handshake` and `OnReadSocks4Handshake` of
-- src/cli/cli_connection.cpp: a request out of a buffer.
use yass.Common.{ℕ, Bool, true, false, Option, none, some, List, if◌then◌else◌, ◌>>=◌, Mem}
use yass.Handshake.{
  ErrorCode, invalid_argument, connection_refused, View, advance, is_good, contains,
}
use yass.Socks4
use yass.Socks5
use yass.Socks5.Method.{method_length, offered}
use yass.Socks5.Method
use yass.Server.{create_method, no_auth_required}
use yass.Local.{Local, state_method_select, state_socks5_handshake, state_socks4_handshake}

-- A handler's result: the connection, what is left of its buffer, and the error code.
abbrev pub Handled : Type 0
Handled = Local × View × Option ErrorCode

unfoldable pub on_read_socks5_method_select : Mem → View → Local → Option Handled
on_read_socks5_method_select stale b l =
    let (st, r, o, next) =
      Method.parse Method.request_start (create_method stale) b.mem b.offset b.capacity in
    if is_good o
    then (advance (method_length r) b >>= λ rest.
        let l' : Local = record l { state = state_method_select } in
        some (
          l',
          rest,
          if contains no_auth_required (offered r) then none else some connection_refused,
        ))
    else some (l, b, some invalid_argument)

unfoldable pub on_read_socks5_handshake : View → Local → Option Handled
on_read_socks5_handshake b l =
    let (st, r, o, next) =
      Socks5.parse Socks5.request_start l.s5_request b.mem b.offset b.capacity in
    let l' : Local = record l { s5_request = r } in
    if is_good o
    then (advance (Socks5.request_length r) b >>= λ rest.
        some (record l' { state = state_socks5_handshake }, rest, none))
    else some (l', b, some invalid_argument)

unfoldable pub on_read_socks4_handshake : View → Local → Option Handled
on_read_socks4_handshake b l =
    let (st, r, o, next) =
      Socks4.parse Socks4.State.request_start l.s4_request b.mem b.offset b.capacity in
    let l' : Local = record l { s4_request = r } in
    if is_good o
    then (advance (Socks4.request_length r) b >>= λ rest.
        some (record l' { state = state_socks4_handshake }, rest, none))
    else some (l', b, some invalid_argument)

-- What `OnReadHttpRequest` gets out of a request: its parser wraps a library.
pub record HttpRequest : Type 0 where
  pub host : List ℕ
  pub port : ℕ
  pub is_connect : Bool
  pub rest : View

-- `if (ec == asio::error::invalid_argument) ec = f(buf);`
abbrev pub is_invalid : Option ErrorCode → Bool
is_invalid (some invalid_argument) = true
is_invalid _ = false

unfoldable pub then_try : (View → Local → Option Handled) → Handled → Option Handled
then_try f (l, b, ec) = if is_invalid ec then f b l else some (l, b, ec)
