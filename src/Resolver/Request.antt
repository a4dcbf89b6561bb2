-- ===== src/Resolver/Request.antt =====
-- One DNS request over TLS, src/net/dot_request.cpp: the host is asked for, the connection comes up, the
-- message is written and the response is read as it comes. TLS and the system are events. `none` is a
-- failed check, or a loop of the parser that did not end.
use yass.Common.{
  ℕ, ◌+◌, ◌*◌, ◌-◌, ◌/◌, ◌%◌, Bool, true, false, not, Option, none, some, List, [], ◌∷◌, ◌++◌, leb,
  ltb, ◌==◌, ◌>>=◌, if◌then◌else◌, length, drop, Mem,
}
use yass.Address.{good, bad, indeterminate, Parsed}
use yass.Handshake.{ErrorCode, is_cancelled, is_retry, View, received_view}
use yass.Dns.{Response, create, Init, built, init, type_aaaa}
use yass.Dns.Parser.{State, response_start, parse}
use yass.AddrInfo.{AddrInfo, is_localhost, addrinfo_loopback, addrinfo_dup}
use yass.Resolver.{
  ResolveError, host_unreachable, operation_not_supported, connection_refused, other,
}

pub data ReadState : Type 0 where
  read_header read_body : ReadState

-- What asio and TLS were asked for and have not answered yet.
pub record Waits : Type 0 where
  pub posted : Bool
  pub connect : Bool
  pub ssl_connect : Bool
  pub write : Bool
  pub read : Bool

-- `recv_buf` is its bytes from the start, `recv_offset` its offset; `send_buf` is what is left of it.
pub record Request : Type 0 where
  pub dns_type : ℕ
  pub host : List ℕ
  pub port : ℕ
  pub closed : Bool
  pub cb : Bool
  pub waits : Waits
  pub send_buf : List ℕ
  pub recv_buf : List ℕ
  pub recv_offset : ℕ
  pub read_state : ReadState
  pub body_length : ℕ
  pub calls : List (Option ResolveError × List AddrInfo)

abbrev pub is_aaaa : Request → Bool
is_aaaa r = r.dns_type == type_aaaa

-- `OnDoneRequest`: the callback is moved out and called.
unfoldable pub on_done_request : Option ResolveError → List AddrInfo → Request → Request
on_done_request ec infos r =
    if r.cb then record r { cb = false; calls = r.calls ++ ((ec, infos) ∷ []) } else r

abbrev pub fail : ResolveError → Request → Request
fail e r = on_done_request (some e) [] r

unfoldable pub close : Request → Request
close r = if r.closed then r else record r { closed = true; cb = false }

-- The message behind its length, `htons(payload_size)`.
abbrev pub framed : List ℕ → List ℕ
framed message = (length message / 256 % 256) ∷ (length message % 256) ∷ message

-- The socket is opened, which may fail, and connects.
unfoldable pub send_message : Option ResolveError → Init → Request → Option Request
send_message opened Init.refused r = some (fail host_unreachable r)
send_message opened Init.unfinished r = none
send_message opened Init.mismatched r = none
send_message opened (built message) r =
    let r' : Request = record r { send_buf = framed message } in
    elim opened [
      | some e ↦ some (fail e r')
      | none ↦ some (record r' { waits = record r'.waits { connect = true } })
    ]

unfoldable pub do_request : ℕ → List ℕ → ℕ → Option ResolveError → Request → Option Request
do_request dns_type host port opened r0 =
    let r : Request = record r0 { dns_type = dns_type; host = host; port = port; cb = true } in
    if is_localhost host
    then some (record r { waits = record r.waits { posted = true } })
    else send_message opened (init host dns_type) r

unfoldable pub on_posted : Request → Request
on_posted r0 =
    let r : Request = record r0 { waits = record r0.waits { posted = false } } in
    on_done_request none (addrinfo_loopback (is_aaaa r) r.port) r

unfoldable pub on_connect : Option ErrorCode → Request → Request
on_connect ec r0 =
    let r : Request = record r0 { waits = record r0.waits { connect = false } } in
    elim ec [
      | some e ↦ if is_cancelled e then r else fail (other e) r
      | none ↦ record r { waits = record r.waits { ssl_connect = true } }
    ]

-- The callback of `ConfirmHandshake`, with whether its result is below 0.
unfoldable pub on_confirm : Bool → Request → Request
on_confirm negative r = if negative then fail connection_refused r else r

-- `OnSSLConnect`, where `confirmed` is what `ConfirmHandshake` calls back with at once, if it does.
unfoldable pub on_connected : Option Bool → Request → Request
on_connected confirmed r0 =
    let r : Request = elim confirmed [ none ↦ r0 | some negative ↦ on_confirm negative r0 ] in
    if not r.cb then r else record r {
      recv_buf = [];
      recv_offset = 0;
      waits = record r.waits { write = true; read = true };
    }

-- The callback of `Connect`, with whether its result is below 0.
unfoldable pub on_ssl_connect : Bool → Option Bool → Request → Request
on_ssl_connect negative confirmed r0 =
    let r : Request = record r0 { waits = record r0.waits { ssl_connect = false } } in
    if negative then fail connection_refused r else on_connected confirmed r

-- What the wait or `Write` does: an error, or how many bytes it took.
pub data WriteResult : Type 0 where
  write_failed : ErrorCode → WriteResult
  wrote : ℕ → WriteResult

unfoldable pub on_ssl_writable : WriteResult → Request → Option Request
on_ssl_writable w r0 =
    let r : Request = record r0 { waits = record r0.waits { write = false } } in
    elim w [
      | write_failed e ↦ some (fail (other e) r)
      | wrote n ↦
          if leb n (length r.send_buf)
          then some (record r {
            send_buf = drop n r.send_buf;
            waits = record r.waits { write = ltb n (length r.send_buf) };
          })
          else none
    ]

-- What the wait and `Read` do: an error of the one or the other, or the bytes that were read.
pub data ReadResult : Type 0 where
  wait_failed read_failed : ErrorCode → ReadResult
  bytes_read : List ℕ → ReadResult

abbrev pub on_parsed : Option (Parsed State Response) → Request → Option Request
on_parsed none r = none
on_parsed (some (s, response, good, i)) r =
    some (on_done_request none (addrinfo_dup (is_aaaa r) response r.port) r)
on_parsed (some (s, response, bad, i)) r = some (fail operation_not_supported r)
on_parsed (some (s, response, indeterminate, i)) r = some (fail operation_not_supported r)

module _ (fuel : ℕ) (behind : Mem) where
  abbrev pub recv_view : Request → View
  recv_view r = record (received_view behind r.recv_buf) { offset = r.recv_offset }

  -- The parser's end is the capacity, not the length that the server sent.
  unfoldable pub on_parse_dns_response : Request → Option Request
  on_parse_dns_response r =
      let v = recv_view r in
      on_parsed (parse fuel response_start create v.mem v.offset v.offset v.capacity) r

  unfoldable pub on_read_body : Request → Option Request
  on_read_body r =
      if ltb (length r.recv_buf - r.recv_offset) r.body_length
      then some (record r { waits = record r.waits { read = true } })
      else on_parse_dns_response r

  unfoldable pub on_read_header : Request → Option Request
  on_read_header r =
      let v = recv_view r in
      if ltb (length r.recv_buf - r.recv_offset) 2
      then some (fail operation_not_supported r)
      else on_read_body (record r {
        recv_offset = r.recv_offset + 2;
        read_state = read_body;
        body_length = v.mem v.offset * 256 + v.mem (v.offset + 1);
      })

  unfoldable pub on_read : ReadState → Request → Option Request
  on_read read_header r = on_read_header r
  on_read read_body r = on_read_body r

  -- A read that was interrupted is not tried again: `continue` leaves a `do … while (false)`.
  unfoldable pub on_ssl_readable : ReadResult → Request → Option Request
  on_ssl_readable (wait_failed e) r =
      some (fail (other e) (record r { waits = record r.waits { read = false } }))
  on_ssl_readable (read_failed e) r =
      if is_retry e
      then some (record r { waits = record r.waits { read = true } })
      else some (fail (other e) (record r { waits = record r.waits { read = false } }))
  on_ssl_readable (bytes_read bytes) r =
      on_read r.read_state
        (record r { recv_buf = r.recv_buf ++ bytes; waits = record r.waits { read = false } })

  -- Chunk after chunk
  unfoldable pub read_chunks : List (List ℕ) → Request → Option Request
  read_chunks [] r = some r
  read_chunks (c ∷ cs) r = on_ssl_readable (bytes_read c) r >>= read_chunks cs
