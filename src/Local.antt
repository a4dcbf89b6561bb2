-- ===== src/Local.antt =====
-- The handshake of the client with a local client, SOCKS4, SOCKS5 or HTTP: `ReadMethodSelect` to
-- `OnReadSocks4Handshake`, the writes of the replies, and `PerformCmdOpsV5` to `OnCmdConnect` of
-- src/cli/cli_connection.cpp. What a handler starts (reads, writes, a connection) is appended to
-- `effects`; the completions are the events of `step`. A result `none` is a failed CHECK or DCHECK. The
-- redirected connections of `redir_mode` and the counters of the traffic are left out.
pub mod Reads
pub mod Replies
pub mod Handlers
pub mod Steps
pub mod Greeting
pub mod Connects
pub mod Commands
mod Tests
use yass.Common.{
  ℕ, ◌+◌, ◌*◌, Bool, true, false, not, ◌&&◌, ◌||◌, Option, some, List, [], ◌∷◌, ◌++◌, ltb, ◌==◌,
  if◌then◌else◌, dcheck, length,
}
use yass.Address.{AddressHeader, domain_name}
use yass.Handshake.{
  ErrorCode, connection_reset, CipherMethod, crypto_socks4, crypto_socks5, View, size, contents,
  is_unspecified, str_eq,
}
use yass.Shadowsocks.{of_endpoint}
use yass.Shadowsocks
use yass.Socks4
use yass.Socks5
use yass.Server.{is_empty}

pub data State : Type 0 where
  state_error state_method_select state_socks5_handshake state_socks4_handshake : State
  state_http_handshake state_stream : State

abbrev pub in_socks5_handshake : State → Bool
in_socks5_handshake state_socks5_handshake = true
in_socks5_handshake _ = false

abbrev pub in_socks4_handshake : State → Bool
in_socks4_handshake state_socks4_handshake = true
in_socks4_handshake _ = false

-- What a handler starts. A reply is written with whether it grants the request.
pub data Effect : Type 0 where
  read_method_select read_socks5_handshake connect write_upstream : Effect
  read_stream stream_write shutdown write_connect_reply : Effect
  write_method_select : List ℕ → Effect
  write_handshake : List ℕ → Bool → Effect
  resolve : List ℕ → ℕ → Effect
  disconnected : ErrorCode → Effect

pub record Local : Type 0 where
  pub method : CipherMethod
  pub state : State
  pub s5_request : Socks5.Request
  pub s4_request : Socks4.Request
  pub http_host : List ℕ
  pub http_port : ℕ
  pub http_is_connect : Bool
  pub request : AddressHeader
  pub resolver_inited : Bool
  pub pending_data : List (List ℕ)
  pub closed : Bool
  pub effects : List Effect

abbrev pub emit : Effect → Local → Local
emit e l = record l { effects = l.effects ++ (e ∷ []) }

abbrev pub on_disconnect : ErrorCode → Local → Local
on_disconnect ec l = emit (disconnected ec) (record l { closed = true })

-- `SetState(state_error); OnDisconnect(ec);`
abbrev pub fail_with : ErrorCode → Local → Local
fail_with ec l = on_disconnect ec (record l { state = state_error })

-- `CIPHER_METHOD_IS_SOCKS_NON_DOMAIN_NAME`
abbrev pub resolves_locally : CipherMethod → Bool
resolves_locally crypto_socks4 = true
resolves_locally crypto_socks5 = true
resolves_locally _ = false

-- The first `OnCmdConnect`, with an endpoint
unfoldable pub on_cmd_connect_endpoint : List ℕ → ℕ → Local → Option Local
on_cmd_connect_endpoint bytes port l =
    let a = of_endpoint bytes port in
    let same_host = str_eq l.http_host (domain_name a) && l.http_port == Shadowsocks.port a in
    dcheck (not (is_unspecified bytes) && not (port == 0) && (is_empty l.http_host || same_host))
      (some (emit connect (record l { request = a })))

-- `pending_data_.byte_length()`
abbrev pub pending_length : List (List ℕ) → ℕ
pending_length [] = 0
pending_length (bytes ∷ pending) = length bytes + pending_length pending

-- `OnStreamRead` while the channel is not connected
unfoldable pub on_stream_read : List ℕ → Local → Local
on_stream_read bytes l =
    if ltb (1024 * 1024 + 1024) (pending_length l.pending_data + length bytes)
    then on_disconnect connection_reset l
    else record l { pending_data = l.pending_data ++ (bytes ∷ []) }

-- `handle_stream`
unfoldable pub handle_stream : View → Local → Local
handle_stream b l = if size b == 0 then emit write_upstream l else on_stream_read (contents b) l

-- What `reply()` leaves unset in a reply.
pub record Unset : Type 0 where
  pub address4 : List ℕ
  pub address6 : List ℕ
  pub high : ℕ
  pub low : ℕ

abbrev pub any_address : List ℕ
any_address = 0 ∷ 0 ∷ 0 ∷ 0 ∷ []
