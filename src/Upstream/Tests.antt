-- ===== src/Upstream/Tests.antt =====
-- A concrete run of the client's upstream handshake, src/cli/cli_connection.cpp.
use yass.Common.{none, [], ◌∷◌, false}
use yass.Handshake.{crypto_socks5}
use yass.Address.{zeroed}
use yass.Upstream.{Client, write_method_select_request, on_stream_read}

abbrev client : Client
client = record {
  method = crypto_socks5;
  username = [];
  password = [];
  request = zeroed;
  upstream = [];
  downstream = [];
  socks5_method_select_handshake = false;
  socks5_auth_handshake = false;
  socks_handshake = false;
  sent = [];
  disconnected = none;
}

abbrev after_data : Client
after_data = on_stream_read (1 ∷ 2 ∷ []) (write_method_select_request client)
