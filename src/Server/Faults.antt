-- ===== src/Server/Faults.antt =====
-- Where the handlers of src/server/server_connection.cpp fail: a truncated SOCKS5 request, and reads
-- that have to be tried again.
use yass.Common.{ℕ, ◌+◌, ◌<◌, ◌≡◌, ap, ◌∙◌, inl, inr, arith, true, none, some, Mem}
use yass.Address.{domain}
use yass.Handshake.{ErrorCode, is_retry, View, size, advance, failed}
use yass.Socks5.{request_length}
use yass.Socks5.Parsing.{parse_head, parse_variable_domain, domain_request, length-domain_request}
use yass.Server.{
  Server, Task, read_handshake_via_socks, read_username_password_auth, read_handshake_via_socks5,
  disconnected, on_disconnect, on_socks5_request, on_socks4_request, accept_socks4, with_domain,
  readable, step, dispatch, on_read_handshake_via_socks, on_received, with_pending, start_auth,
  on_read_username_password_auth, on_read_handshake_via_socks5, is_empty,
}

pub advance-beyond : (n : ℕ) (b : View) → b.capacity < b.offset + n → advance n b ≡ none
unfolding advance
advance-beyond n b h = ground arith

-- A SOCKS5 request for a domain name that lacks only its last byte ends the process: the parser
-- accepts it, with a length of one byte more than the buffer has, and `set_offset` fails its CHECK.
pub truncated_request_aborts :
    (b : View) (s : Server)
    → b.mem b.offset ≡ 5
    → b.mem (b.offset + 3) ≡ domain
    → 0 < b.mem (b.offset + 4)
    → b.capacity + 1 ≡ b.offset + 7 + b.mem (b.offset + 4)
    → on_socks5_request b s ≡ none
unfolding on_socks5_request
truncated_request_aborts b s v t l e =
    let r = domain_request b.mem b.offset (b.offset + 4) in
    let long : request_length r ≡ 7 + b.mem (b.offset + 4) =
      length-domain_request b.mem b.offset (b.offset + 4) t in
    let parsed =
      parse_head b.mem b.offset b.capacity v (inr (inl (t, omega arith)))
      ∙ parse_variable_domain b.mem b.offset (b.offset + 4) b.capacity t (omega arith) in
    rw (parsed, advance-beyond (request_length r) b (omega (arith, long)))

step-at : (s : Server) (t : Task) (e : yass.Server.Event) → s.task ≡ t → step e s ≡ dispatch t e s
unfolding step
step-at s t e h = ap (λ (k : Task). dispatch k e s) h

module _ (s : Server) (stale : Mem) (ec : ErrorCode) (b : View)
    (pending : s.handshake_pending_buf ≡ some b) (drained : size b ≡ 0) where
  -- A read of the user name and password that finds nothing on the socket dereferences a null
  -- pointer: the pending buffer was moved out before, and `ReadSocks5UsernamePasswordAuth` looks
  -- into it again.
  pub auth_would_block :
      s.task ≡ read_username_password_auth
      → is_retry ec ≡ true
      → step (readable stale (failed ec)) s ≡ none
  unfolding dispatch on_read_username_password_auth with_pending on_received start_auth
  auth_would_block t r =
      step-at s read_username_password_auth (readable stale (failed ec)) t
      ∙ rw (pending, drained, r)

  -- A read of the request that finds nothing on the socket starts the handshake again: the next
  -- bytes, which are the client's request, are read as a method selection.
  pub request_would_block :
      s.task ≡ read_handshake_via_socks5
      → is_retry ec ≡ true
      → step (readable stale (failed ec)) s
        ≡ some (record s { handshake_pending_buf = none; task = read_handshake_via_socks })
  unfolding dispatch on_read_handshake_via_socks5 with_pending on_received
  request_would_block t r =
      step-at s read_handshake_via_socks5 (readable stale (failed ec)) t ∙ rw (pending, drained, r)
