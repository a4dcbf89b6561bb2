-- ===== src/Exchange/Tests.antt =====
-- A concrete handshake of src/cli/cli_connection.cpp with src/server/server_connection.cpp.
use yass.Common.{◌≡◌, refl, arith, none, some, [], ◌∷◌, false}
use yass.Handshake.{crypto_socks5, crypto_socks5h}
use yass.Shadowsocks.RoundTrip.{built, built-eq}
use yass.Server.{Server, read_handshake_via_socks}
use yass.Upstream.{Client}
use yass.Address.{zeroed}
use yass.Exchange.{Memory, rounds}
use yass.Exchange.Complete.{greeted, IsComplete, handshake_completes}

abbrev memory : Memory
memory = record { stale = λ j. 7; behind = λ j. 9; address4 = []; address6 = []; high = 1; low = 2 }

-- The destination is the name "ab" at port 443; the user name is "u" and the password "p".
abbrev client : Client
client = record {
  method = crypto_socks5h;
  username = 117 ∷ [];
  password = 112 ∷ [];
  request = built (97 ∷ 98 ∷ []) 443;
  upstream = [];
  downstream = [];
  socks5_method_select_handshake = false;
  socks5_auth_handshake = false;
  socks_handshake = false;
  sent = [];
  disconnected = none;
}

abbrev server : Server
server = record {
  method = crypto_socks5;
  username = 117 ∷ [];
  password = 112 ∷ [];
  request = zeroed;
  handshake_pending_buf = none;
  written = [];
  task = read_handshake_via_socks;
}

handshake_completes_example :
    (c' : Client) × (s' : Server) × (rounds 3 memory (greeted client ((1 ∷ 2 ∷ []) ∷ [])) server
      ≡ some (c', s'))
    × IsComplete client ((1 ∷ 2 ∷ []) ∷ []) c' s'
handshake_completes_example =
    handshake_completes memory client server ((1 ∷ 2 ∷ []) ∷ []) (97 ∷ 98 ∷ []) 443 (omega arith)
      (omega arith) (omega arith) (omega arith) refl refl refl refl
      (built-eq (97 ∷ 98 ∷ []) 443 (omega arith)) refl refl (omega arith) (omega arith)
