-- ===== src/Local/Handlers.antt =====
-- The commands of a request, `PerformCmdOpsV5` to `OnCmdConnect`, and the handlers `ReadMethodSelect`,
-- `ReadSocks5Handshake` and `ProcessReceivedData` of src/cli/cli_connection.cpp.
use yass.Common.{
  ℕ, true, not, ◌&&◌, ◌||◌, Option, none, some, List, leb, ltb, ◌==◌, if◌then◌else◌, ◌>>=◌, dcheck,
  Mem, length,
}
use yass.Address.{address_type, domain_name, domain}
use yass.Handshake.{
  ErrorCode, invalid_argument, is_retry, is_cancelled, View, Received, failed, received,
  is_unspecified,
}
use yass.Dns.{c_str}
use yass.Shadowsocks.{of_domain}
use yass.Socks4
use yass.Socks4.Reply as Reply4
use yass.Socks5
use yass.Socks5.Reply as Reply5
use yass.Server.{is_empty, endpoint_or_default, method_select_response}
use yass.Local.{
  Local, emit, on_disconnect, fail_with, resolves_locally, on_cmd_connect_endpoint, handle_stream,
  Unset, any_address, state_error, state_method_select, state_socks5_handshake,
  state_socks4_handshake, state_http_handshake, state_stream, read_method_select,
  read_socks5_handshake, connect, write_method_select, resolve,
}
use yass.Local.Reads.{
  Handled, on_read_socks5_method_select, on_read_socks5_handshake, on_read_socks4_handshake,
  HttpRequest, then_try,
}
use yass.Local.Replies.{
  write_handshake_socks5, write_handshake_socks4, write_handshake_http, after_reply, process_sent,
  on_handshake_written, on_resolved, Event, method_select_read, handshake_read, wait_error,
  method_select_written, handshake_written, name_resolved,
}

-- Of other code: the parser of HTTP requests, `make_address` of asio, and what `Init` of the resolver
-- returns.
module _ (http : View → Option HttpRequest) (make_address : List ℕ → Option (List ℕ))
    (init : Option ErrorCode) where
  -- The second `OnCmdConnect`, with a name and a port
  unfoldable pub on_cmd_connect : List ℕ → ℕ → Local → Option Local
  on_cmd_connect name port l = elim (make_address (c_str name)) [
    | some bytes ↦ on_cmd_connect_endpoint bytes port l
    | none ↦
        if ltb 255 (length name)
        then none
        else if resolves_locally l.method
        then (elim (if l.resolver_inited then none else init) [
          | some ec ↦ some (on_disconnect ec l)
          | none ↦ some (emit (resolve name port) (record l { resolver_inited = true }))
        ])
        else dcheck (not (is_empty name) && not (port == 0))
            (of_domain name port >>= λ a. some (emit connect (record l { request = a })))
  ]

  unfoldable pub on_read_http_request : View → Local → Option Handled
  on_read_http_request b l = elim (http b) [
    | none ↦ some (l, b, some invalid_argument)
    | some h ↦ some (
      record l {
        http_host = h.host;
        http_port = h.port;
        http_is_connect = h.is_connect;
        state = state_http_handshake;
      },
      h.rest,
      none,
    )
  ]

  unfoldable pub perform_cmd_ops_v5 :
      Socks5.Request → Reply5.Reply → Local → Option (Local × Reply5.Reply × Option ErrorCode)
  perform_cmd_ops_v5 r reply l =
      let named = address_type r.atyp_req == domain in
      let name = domain_name r.atyp_req in
      let (bytes, port) = endpoint_or_default (Socks5.endpoint r) in
      let granted : Reply5.Reply =
        record (Reply5.set_endpoint (if named then any_address else bytes)
          (if named then 0 else port) reply) { status = Reply5.request_granted } in
      if not (r.command == 1)
      then some (l, record reply { status = 0x07 }, some invalid_argument)
      else if Socks5.port r == 0 || (named && is_empty name) || (not named && is_unspecified bytes)
      then some (l, record reply { status = 0x03 }, some invalid_argument)
      else ((if named
            then dcheck (leb (length name) 255) (on_cmd_connect name (Socks5.port r) l)
            else on_cmd_connect_endpoint bytes port l)
          >>= λ l'. some (l', granted, none))

  unfoldable pub perform_cmd_ops_v4 :
      Socks4.Request → Reply4.Reply → Local → Option (Local × Reply4.Reply × Option ErrorCode)
  perform_cmd_ops_v4 r reply l =
      let named = Socks4.is_socks4a r in
      let (bytes, port) = Socks4.endpoint r in
      let granted : Reply4.Reply = record (Reply4.set_endpoint any_address 0 reply) {
        status = Reply4.request_granted;
      } in
      if not (r.command == 1)
      then some (l, record reply { status = 0x5b }, some invalid_argument)
      else if port == 0 || (named && is_empty r.domain_name) || (not named && is_unspecified bytes)
      then some (l, record reply { status = 0x5b }, some invalid_argument)
      else if named && ltb 255 (length r.domain_name)
      then some (l, record granted { status = 0x5b }, some invalid_argument)
      else ((if named
            then on_cmd_connect r.domain_name port l
            else on_cmd_connect_endpoint bytes port l)
          >>= λ l'. some (l', granted, none))

  unfoldable pub perform_cmd_ops_http : Local → Option (Local × Option ErrorCode)
  perform_cmd_ops_http l =
      if ltb 255 (length l.http_host) || is_empty l.http_host || l.http_port == 0
      then some (l, some invalid_argument)
      else (on_cmd_connect l.http_host l.http_port l >>= λ l'. some (l', none))

  -- `ProcessReceivedData` without an error
  unfoldable pub process_received : Unset → View → Local → Option Local
  process_received u b l = elim l.state [
    | state_method_select ↦ some (emit (write_method_select (method_select_response 0)) l)
    | state_socks5_handshake ↦
        perform_cmd_ops_v5 l.s5_request (Reply5.create_reply u.address4 u.address6 u.high u.low) l
        >>= λ x. write_handshake_socks5 x.1 x.0 >>= λ l'. some (after_reply b x.2 l')
    | state_socks4_handshake ↦
        perform_cmd_ops_v4 l.s4_request (Reply4.create_reply u.high u.low u.address4) l >>= λ x.
        write_handshake_socks4 x.1 x.0 >>= λ l'. some (after_reply b x.2 l')
    | state_http_handshake ↦ perform_cmd_ops_http l >>= λ x. elim x.1 [
      | some ec ↦ some (fail_with ec x.0)
      | none ↦ some (handle_stream b (write_handshake_http x.0))
    ]
    | state_stream ↦ some (handle_stream b l)
    | state_error ↦ some (fail_with invalid_argument l)
  ]

  -- `done:` of `ReadMethodSelect`
  unfoldable pub done : Unset → Handled → Option Local
  done u (l, b, some ec) = some (on_disconnect ec l)
  done u (l, b, none) = process_received u b l

  unfoldable pub on_method_select_read : Mem → Unset → Received → Local → Option Local
  on_method_select_read stale u (failed ec) l =
      some (if is_retry ec then emit read_method_select l else on_disconnect ec l)
  on_method_select_read stale u (received b) l = on_read_socks5_method_select stale b l >>= λ x.
      then_try on_read_socks4_handshake x >>= λ y. then_try on_read_http_request y >>= λ z. done u z

  unfoldable pub on_handshake_read : Unset → Received → Local → Option Local
  on_handshake_read u (failed ec) l =
      some (if is_retry ec then emit read_socks5_handshake l else on_disconnect ec l)
  on_handshake_read u (received b) l = on_read_socks5_handshake b l >>= done u

  unfoldable pub handle : Event → Local → Option Local
  handle (method_select_read stale u got) l = on_method_select_read stale u got l
  handle (handshake_read u got) l = on_handshake_read u got l
  handle (wait_error ec) l = some (if is_cancelled ec then l else fail_with ec l)
  handle (method_select_written ec n) l = some (process_sent ec n l)
  handle (handshake_written granted ec n) l = some (on_handshake_written granted ec n l)
  handle (name_resolved r) l = some (on_resolved r l)

  unfoldable pub step : Event → Local → Option Local
  step e l = if l.closed then some l else handle e l
