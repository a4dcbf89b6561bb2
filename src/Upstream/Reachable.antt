-- ===== src/Upstream/Reachable.antt =====
-- The runs of the client's SOCKS5 handshake with its upstream server, src/cli/cli_connection.cpp: the
-- channel takes what it will of the front buffer, the application sends data meanwhile, and the server
-- answers a request once that has gone out.
use yass.Common.{ℕ, ◌≡◌, ◌⊎◌, true, false, Option, none, some, List}
use yass.Handshake.{View, connection_refused}
use yass.Upstream
use yass.Upstream.{
  Client, is_empty, Write, write_some, on_stream_read, read_method_select_response,
  read_auth_response, read_socks_response, Answer, answered,
}
use yass.Upstream.Queue.{IsWaiting, to_come}
use yass.Upstream.Writes.{obeys}

pub data Step (c : Client) : Client → Type 0 where
  write : (w : Write) {c' : Client} → obeys w c ≡ true → write_some w c ≡ some c' → Step c c'
  push : (bytes : List ℕ) → is_empty bytes ≡ false → Step c (on_stream_read bytes c)
  select :
      (b : View) {x : Answer}
      → c.socks5_method_select_handshake ≡ true
      → IsWaiting (to_come c) c.upstream
      → read_method_select_response b c ≡ some x
      → Step c x.0
  auth :
      (b : View) {x : Answer}
      → c.socks5_method_select_handshake ≡ false
      → c.socks5_auth_handshake ≡ true
      → IsWaiting (to_come c) c.upstream
      → read_auth_response b c ≡ some x
      → Step c x.0
  reply :
      (b : View) {x : Answer}
      → c.socks_handshake ≡ true
      → read_socks_response b c ≡ some x
      → Step c x.0

-- A connection that was lost goes no further.
pub data Reach (c : Client) : Client → Type 0 where
  here : Reach c c
  next : {d e : Client} → Reach c d → d.disconnected ≡ none → Step d e → Reach c e

-- Refused, or the queue and the flags are what they were.
abbrev Keeps : Client → Option Answer → Type 0
Keeps c o =
    (x : Answer)
    → o ≡ some x
    → (x.0.disconnected ≡ some connection_refused)
      ⊎ ((x.0.method ≡ c.method)
          × (x.0.upstream ≡ c.upstream)
          × (x.0.socks5_method_select_handshake ≡ c.socks5_method_select_handshake)
          × (x.0.socks5_auth_handshake ≡ c.socks5_auth_handshake))
