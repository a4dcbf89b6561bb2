-- ===== src/Local/Replies.antt =====
-- The replies to a local client, and the completions of what a handler of src/cli/cli_connection.cpp
-- starts.
use yass.Common.{ℕ, Bool, ◌||◌, Option, none, some, List, [], ◌∷◌, ◌==◌, if◌then◌else◌, dcheck, Mem}
use yass.Handshake.{ErrorCode, invalid_argument, operation_aborted, View, Received, is_unspecified}
use yass.Shadowsocks.{of_endpoint}
use yass.Socks4.Reply as Reply4
use yass.Socks5.Reply as Reply5
use yass.Local.{
  in_socks5_handshake, in_socks4_handshake, Local, emit, on_disconnect, fail_with, handle_stream,
  Unset, any_address, state_error, state_method_select, state_socks5_handshake,
  state_socks4_handshake, state_http_handshake, state_stream, read_socks5_handshake, connect,
  read_stream, stream_write, shutdown, write_connect_reply, write_handshake,
}

unfoldable pub write_handshake_socks5 : Reply5.Reply → Local → Option Local
write_handshake_socks5 r l = dcheck (in_socks5_handshake l.state) (
    some (
      emit (write_handshake (Reply5.buffers r) (r.status == Reply5.request_granted))
        (record l { state = state_stream })))

unfoldable pub write_handshake_socks4 : Reply4.Reply → Local → Option Local
write_handshake_socks4 r l = dcheck (in_socks4_handshake l.state) (
    some (
      emit (write_handshake (Reply4.buffers r) (r.status == Reply4.request_granted))
        (record l { state = state_stream })))

unfoldable pub write_handshake_http : Local → Local
write_handshake_http l =
    let l' : Local = record l { state = state_stream } in
    if l.http_is_connect then emit write_connect_reply l' else l'

-- After the reply to a SOCKS request: a refusal is read to its end.
unfoldable pub after_reply : View → Option ErrorCode → Local → Local
after_reply b (some ec) l = emit read_stream l
after_reply b none l = handle_stream b l

unfoldable pub process_sent : Option ErrorCode → ℕ → Local → Local
process_sent (some ec) n l = fail_with ec l
process_sent none n l = elim l.state [
  | state_method_select ↦ emit read_socks5_handshake l
  | state_socks5_handshake ↦ fail_with invalid_argument l
  | state_socks4_handshake ↦ fail_with invalid_argument l
  | state_http_handshake ↦ fail_with invalid_argument l
  | state_stream ↦ if n == 0 then l else emit stream_write l
  | state_error ↦ fail_with invalid_argument l
]

-- The completion of a reply's write: after a refusal the socket is shut down.
unfoldable pub on_handshake_written : Bool → Option ErrorCode → ℕ → Local → Local
on_handshake_written granted ec n l = process_sent ec n (if granted then l else emit shutdown l)

pub data Resolved : Type 0 where
  unresolved : ErrorCode → Resolved
  resolved : List (List ℕ × ℕ) → Resolved

-- `endpoint`, the first of the results
abbrev pub first_endpoint : List (List ℕ × ℕ) → List ℕ × ℕ
first_endpoint [] = (any_address, 0)
first_endpoint (e ∷ results) = e

unfoldable pub on_resolved : Resolved → Local → Local
on_resolved (unresolved operation_aborted) l = l
on_resolved (unresolved ec) l = on_disconnect ec l
on_resolved (resolved results) l =
    let (bytes, port) = first_endpoint results in
    if is_unspecified bytes || port == 0
    then on_disconnect invalid_argument l
    else emit connect (record l { request = of_endpoint bytes port })

-- The completions. A closed connection takes none.
pub data Event : Type 0 where
  method_select_read : Mem → Unset → Received → Event
  handshake_read : Unset → Received → Event
  wait_error : ErrorCode → Event
  method_select_written : Option ErrorCode → ℕ → Event
  handshake_written : Bool → Option ErrorCode → ℕ → Event
  name_resolved : Resolved → Event
