-- ===== src/Local/Tests.antt =====
-- Concrete local clients of src/cli/cli_connection.cpp.
use yass.Common.{ℕ, ◌≡◌, ◌≢◌, ◌<◌, ◌⊎◌, refl, arith, Option, none, some, List, [], ◌∷◌, ◌++◌, false}
use yass.Address.{zeroed}
use yass.Handshake.{
  View, CipherMethod, crypto_socks5h, other, received, received_view, contains, invalid_argument,
}
use yass.Handshake.Views.{Begins, skip, Begins-append, received-Begins}
use yass.Shadowsocks.RoundTrip.{built, built-eq}
use yass.Socks4
use yass.Socks5
use yass.Socks5.Reply as Reply5
use yass.Server.Requests.{domain_bytes}
use yass.Local.{Local, state_method_select, Unset, emit, write_method_select, handle_stream}
use yass.Local.Reads.{HttpRequest}
use yass.Local.Replies.{method_select_read, handshake_read}
use yass.Local.Handlers.{step, perform_cmd_ops_v5}
use yass.Local.Greeting.{selection, greeting_answered}
use yass.Local.Connects.{asked, request_connects, unspecified_name_aborts}
use yass.Local.Commands.{perform_v5-cases}

abbrev no_http : View → Option HttpRequest
no_http b = none

-- Every text is a name; every text is 0.0.0.0.
abbrev no_address : List ℕ → Option (List ℕ)
no_address text = none

abbrev zero_address : List ℕ → Option (List ℕ)
zero_address text = some (0 ∷ 0 ∷ 0 ∷ 0 ∷ [])

abbrev unset : Unset
unset = record { address4 = []; address6 = []; high = 1; low = 2 }

abbrev local : CipherMethod → Local
local method = record {
  method = method;
  state = state_method_select;
  s5_request = Socks5.create;
  s4_request = Socks4.create;
  http_host = [];
  http_port = 0;
  http_is_connect = false;
  request = zeroed;
  resolver_inited = false;
  pending_data = [];
  closed = false;
  effects = [];
}

-- A method selection with a request right behind it.
abbrev pipelined : View
pipelined = received_view (λ j. 9) (selection (2 ∷ 0 ∷ []) ++ (5 ∷ 1 ∷ []))

greeting_answered_example :
    step no_http no_address none
      (method_select_read (λ j. 7) unset (received pipelined))
      (local other)
    ≡ some (
        emit
          (write_method_select (5 ∷ 0 ∷ []))
          (record (local other) { state = state_method_select }))
greeting_answered_example =
    greeting_answered no_http no_address none (λ j. 7) unset (2 ∷ 0 ∷ []) pipelined (local other)
      refl
      (Begins-append (selection (2 ∷ 0 ∷ [])) (5 ∷ 1 ∷ [])
        (received-Begins (λ j. 9) (selection (2 ∷ 0 ∷ []) ++ (5 ∷ 1 ∷ []))))
      (unfold contains in refl)

-- The name "ab" at port 443, with two bytes behind the request.
abbrev name : List ℕ
name = 97 ∷ 98 ∷ []

abbrev request_view : View
request_view = received_view (λ j. 9) (domain_bytes name 443 ++ (1 ∷ 2 ∷ []))

request_view-Begins : Begins (domain_bytes name 443) request_view
request_view-Begins =
    Begins-append (domain_bytes name 443) (1 ∷ 2 ∷ [])
      (received-Begins (λ j. 9) (domain_bytes name 443 ++ (1 ∷ 2 ∷ [])))

request_connects_example :
    (r : Socks5.Request) × (step no_http no_address none
        (handshake_read unset (received request_view))
        (local crypto_socks5h)
      ≡ some
          (handle_stream (skip 9 request_view) (asked r (built name 443) (local crypto_socks5h))))
request_connects_example =
    request_connects no_http no_address none request_view name 443 request_view-Begins (omega arith)
      (omega arith) (omega arith) (omega arith) unset (local crypto_socks5h) refl refl refl refl
      (built-eq name 443 (omega arith))

unspecified_name_aborts_example :
    step no_http zero_address none (handshake_read unset (received request_view)) (local other)
    ≡ none
unspecified_name_aborts_example =
    unspecified_name_aborts no_http zero_address none request_view name 443 request_view-Begins
      (omega arith) (omega arith) (omega arith) (omega arith) unset (local other)
      (0 ∷ 0 ∷ 0 ∷ 0 ∷ []) refl refl refl refl

-- BIND is refused.
abbrev bind5 : Socks5.Request
bind5 = record Socks5.create { command = 2 }

abbrev reply5 : Reply5.Reply
reply5 = Reply5.create_reply [] [] 1 2

abbrev refused5 : Reply5.Reply
refused5 = record reply5 { status = 0x07 }

perform_v5-cases_example :
    ((some invalid_argument ≡ some invalid_argument)
      × (local other ≡ local other)
      × (((refused5.status ≡ 0x07) × (bind5.command ≢ 1)) ⊎ (refused5.status ≡ 0x03)))
    ⊎ ((some invalid_argument ≡ none)
        × (refused5.status ≡ 0)
        × (bind5.command ≡ 1)
        × (0 < Socks5.port bind5))
perform_v5-cases_example =
    perform_v5-cases no_http no_address none bind5 reply5 (local other) {reply' = refused5}
      (unfold perform_cmd_ops_v5 in refl)
