-- ===== src/Server/Tests.antt =====
-- Concrete connections of src/server/server_connection.cpp.
use yass.Common.{
  Mem, ◌*◌, ◌≢◌, ◌⊎◌, ◌+◌, slice, ◌<◌, ◌≤◌, ℕ, ◌≡◌, refl, arith, Option, none, some, List, [], ◌∷◌,
  bytes_of, memcpy, get_or, ltb, if◌then◌else◌,
}
use yass.Handshake.{
  invalid_argument, crypto_socks5, View, received, received_view, failed, would_block, advance,
  contains, str_eq,
}
use yass.Address.{AddressHeader, zeroed}
use yass.Shadowsocks.{of_domain}
use yass.Socks4
use yass.Socks5
use yass.Socks5.Method
use yass.Socks5.Method.{method_length}
use yass.Socks5.Auth.{parse_auth, parse_username, parse_password, create_auth, auth_length}
use yass.Socks5.Reply
use yass.Server.{
  on_socks4_request, on_disconnect, write_handshake_response, Server, Task, Event, readable,
  writable, read_handshake_via_socks, read_username_password_auth, read_handshake_via_socks5, step,
  on_socks5_request, dispatch, on_read_handshake_via_socks, on_received, on_method_select,
  write_method_select, send, start_auth, on_read_username_password_auth, with_pending,
  on_auth_request, write_auth, start_socks5, on_read_handshake_via_socks5, accept_socks5,
  with_domain, write_handshake, handshake_reply, process_received,
}
use yass.Server.Gate.{HasCredentials}
use yass.Server.Faults.{truncated_request_aborts, auth_would_block}
use yass.Server.Named.{socks4a_outcomes}
use yass.Handshake.Views.{skip}
use yass.Server.Stream.{on_read_handshake, short_header_aborts}
use yass.Server.Relay.{run, ReceivedIn, relay_needs_auth}

abbrev server : Task → Option View → Server
server task pending = record {
  method = crypto_socks5;
  username = 117 ∷ [];
  password = 112 ∷ [];
  request = zeroed;
  handshake_pending_buf = pending;
  written = [];
  task = task;
}

abbrev nothing : View
nothing = record { mem = bytes_of []; offset = 0; capacity = 0 }

-- A request for the name "ab" that breaks off behind the high byte of the port.
abbrev truncated : View
truncated = record {
  mem = bytes_of (5 ∷ 1 ∷ 0 ∷ 3 ∷ 2 ∷ 97 ∷ 98 ∷ 1 ∷ []);
  offset = 0;
  capacity = 8;
}

truncated_request_aborts_example :
    on_socks5_request truncated (server read_handshake_via_socks5 none) ≡ none
truncated_request_aborts_example =
    truncated_request_aborts truncated (server read_handshake_via_socks5 none) refl refl
      (omega arith) refl

-- To 0.0.0.1 at port 80, with no user id and a name of 256 bytes.
abbrev long_name : Mem
long_name j =
    if ltb j 9
    then bytes_of (4 ∷ 1 ∷ 0 ∷ 80 ∷ 0 ∷ 0 ∷ 0 ∷ 1 ∷ 0 ∷ []) j
    else if ltb j 265
    then 97
    else 0

abbrev long_view : View
long_view = record { mem = long_name; offset = 0; capacity = 266 }

long_name-ne : (k : ℕ) → k < 256 → long_name (0 + 8 + 0 + 1 + k) ≢ 0
long_name-ne k h = ground arith

abbrev waiting : Server
waiting = server read_handshake_via_socks none

socks4a_outcomes_example :
    (((long_name 2 * 256 + long_name 3 ≡ 0) ⊎ (◌≡◌ {A = ℕ} 256 0))
      × (on_socks4_request long_view waiting ≡ some (on_disconnect invalid_argument waiting)))
    ⊎ ((0 < 80)
        × (0 < 256)
        × (256 ≤ 255)
        × ((a : AddressHeader) × (of_domain (slice long_name 9 256) 80 ≡ some a)
            × (on_socks4_request long_view waiting
                ≡ some (record waiting {
                  request = a;
                  handshake_pending_buf = some (skip 266 long_view);
                  task = write_handshake_response;
                }))))
    ⊎ ((0 < 80) × (255 < 256) × (on_socks4_request long_view waiting ≡ none))
unfolding Socks4.is_socks4a
socks4a_outcomes_example =
    socks4a_outcomes long_view waiting 0 256 refl refl (λ k h. absurd (omega arith)) refl
      long_name-ne refl (omega arith)

auth_would_block_example :
    step
      (readable (bytes_of []) (failed would_block))
      (server read_username_password_auth (some nothing))
    ≡ none
auth_would_block_example =
    auth_would_block (server read_username_password_auth (some nothing)) (bytes_of []) would_block
      nothing refl refl refl refl

-- Method selection, credentials and a request for the name "ab" at port 443 in one piece.
abbrev pipelined : List ℕ
pipelined = 5 ∷ 1 ∷ 2 ∷ 5 ∷ 1 ∷ 117 ∷ 1 ∷ 112 ∷ 5 ∷ 1 ∷ 0 ∷ 3 ∷ 2 ∷ 97 ∷ 98 ∷ 1 ∷ 187 ∷ 42 ∷ []

abbrev arrives : Event
arrives = readable (bytes_of []) (received (received_view (bytes_of []) pipelined))

abbrev sends : ℕ → Event
sends n = writable [] [] 0 0 (record { error = none; count = n })

abbrev events : List Event
events = arrives ∷ sends 2 ∷ arrives ∷ sends 2 ∷ arrives ∷ sends 10 ∷ []

abbrev reached : Option Server → Server
reached none = server read_handshake_via_socks none
reached (some t) = t

abbrev start : Server
start = server read_handshake_via_socks none

-- The byte behind the request is what is relayed.
abbrev early : View
early = record {
  mem = λ j. if ltb j 18 then get_or pipelined j 0 else bytes_of [] j;
  offset = 17;
  capacity = 18;
}

relay_needs_auth_example :
    (v : View) × ReceivedIn events v.mem v.capacity × HasCredentials v (117 ∷ []) (112 ∷ [])
unfolding run step dispatch on_read_handshake_via_socks on_received on_method_select advance
    received_view contains Method.parse Method.parse_methods method_length memcpy
    write_method_select send start_auth on_read_username_password_auth with_pending on_auth_request
    parse_auth parse_username parse_password create_auth auth_length str_eq write_auth start_socks5
    on_read_handshake_via_socks5 on_socks5_request Socks5.parse Socks5.create Socks5.parse_address
    Socks5.parse_variable_part Socks5.address_type_size Socks5.request_length Socks5.port
    Socks5.endpoint accept_socks5 with_domain of_domain write_handshake handshake_reply
    Reply.buffers Reply.set_endpoint Reply.create_reply process_received
relay_needs_auth_example =
    relay_needs_auth events start (reached (run events start)) early refl refl refl refl refl refl

-- Two bytes of a header, in 68 bytes of a stream.
abbrev short_header : View
short_header = received_view (λ j. 9) (3 ∷ 5 ∷ [])

abbrev wire : View
wire = record { mem = λ j. 0; offset = 0; capacity = 68 }

short_header_aborts_example :
    on_read_handshake
      (λ b. short_header ∷ [])
      (λ j. 0)
      (received wire)
      (server read_handshake_via_socks none)
      none
    ≡ none
unfolding received_view
short_header_aborts_example =
    short_header_aborts (λ b. short_header ∷ []) (λ j. 0) wire short_header
      (server read_handshake_via_socks none) refl refl refl (omega arith) (omega arith)
      (omega arith)
