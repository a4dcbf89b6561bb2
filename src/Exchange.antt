-- ===== src/Exchange.antt =====
-- The client of src/cli/cli_connection.cpp and the server of src/server/server_connection.cpp against
-- each other in a SOCKS5 handshake: in a round the client sends its front buffer, the server reads it
-- and writes its response, and the client reads that. Each message arrives whole; what memory holds
-- behind a received message is arbitrary.
pub mod Rounds
pub mod Selects
pub mod Target
pub mod Complete
mod Tests
use yass.Common.{ℕ, zero, suc, Option, none, some, List, [], ◌∷◌, ◌>>=◌, Mem, length}
use yass.Handshake.{View, received, received_view}
use yass.Server.{
  Server, Task, write_method_select_response, write_auth_response, write_handshake_response,
  read_handshake_via_socks, read_username_password_auth, read_handshake_via_socks5, cancelled,
  relay, disconnected, Event, readable, writable, Written, step, method_select_response,
  auth_response, wanted_method, handshake_reply,
}
use yass.Upstream.{Client, takes, write_some, read_upstream, Answer}

-- What memory holds where the code leaves it unset: the methods of a method selection, behind a
-- received message, and in a reply.
pub record Memory : Type 0 where
  pub stale : Mem
  pub behind : Mem
  pub address4 : List ℕ
  pub address6 : List ℕ
  pub high : ℕ
  pub low : ℕ

-- The bytes that the server's next write sends.
abbrev pub response_of : Task → Memory → Server → List ℕ
response_of write_method_select_response m s = method_select_response (wanted_method s)
response_of write_auth_response m s = auth_response
response_of write_handshake_response m s = handshake_reply m.address4 m.address6 m.high m.low s
response_of read_handshake_via_socks m s = []
response_of read_username_password_auth m s = []
response_of read_handshake_via_socks5 m s = []
response_of cancelled m s = []
response_of (relay b) m s = []
response_of (disconnected ec) m s = []

abbrev pub response : Memory → Server → List ℕ
response m s = response_of s.task m s

-- A write that takes all of it.
abbrev pub whole : List ℕ → Written
whole bytes = record { error = none; count = length bytes }

abbrev pub reads : Memory → List ℕ → Event
reads m bytes = readable m.stale (received (received_view m.behind bytes))

abbrev pub writes : Memory → Server → Event
writes m s = writable m.address4 m.address6 m.high m.low (whole (response m s))

unfoldable pub round_front : Memory → Client → Server → List (List ℕ) → Option (Client × Server)
round_front m c s [] = none
round_front m c s (front ∷ rest) = write_some (takes none (length front)) c >>= λ c'.
    step (reads m front) s >>= λ s'. step (writes m s') s' >>= λ s''.
    read_upstream (received_view m.behind (response m s')) c' >>= λ x. some (x.0, s'')

unfoldable pub round : Memory → Client → Server → Option (Client × Server)
round m c s = round_front m c s c.upstream

unfoldable pub rounds : ℕ → Memory → Client → Server → Option (Client × Server)
rounds zero m c s = some (c, s)
rounds (suc n) m c s = round m c s >>= λ next. rounds n m next.0 next.1
