-- ===== src/Server/Pending.antt =====
-- The handlers of src/server/server_connection.cpp that look into the pending buffer, where there is
-- one.
use yass.Common.{◌≡◌, refl, none, some, true, false}
use yass.Handshake.{
  View, CipherMethod, crypto_socks4, crypto_socks4a, crypto_socks5, crypto_socks5h, other,
  is_socks4_method, is_socks5_method,
}
use yass.Server.{
  Server, read_username_password_auth, read_handshake_via_socks5, relay, start_auth, start_socks5,
  process_received,
}

pub not_socks4 : (m : CipherMethod) → is_socks5_method m ≡ true → is_socks4_method m ≡ false
not_socks4 crypto_socks4 e = absurd (cc e)
not_socks4 crypto_socks4a e = absurd (cc e)
not_socks4 crypto_socks5 e = refl
not_socks4 crypto_socks5h e = refl
not_socks4 other e = refl

pub start_auth-pending :
    (s : Server) {p : View}
    → s.handshake_pending_buf ≡ some p
    → start_auth s ≡ some (record s { task = read_username_password_auth })
unfolding start_auth
start_auth-pending s q = rw q

pub start_socks5-pending :
    (s : Server) {p : View}
    → s.handshake_pending_buf ≡ some p
    → start_socks5 s ≡ some (record s { task = read_handshake_via_socks5 })
unfolding start_socks5
start_socks5-pending s q = rw q

pub process_received-pending :
    (s : Server) {p : View}
    → s.handshake_pending_buf ≡ some p
    → process_received s ≡ some (record s { handshake_pending_buf = none; task = relay p })
unfolding process_received
process_received-pending s q = rw q

pub start_auth-missing : (s : Server) → s.handshake_pending_buf ≡ none → start_auth s ≡ none
unfolding start_auth
start_auth-missing s q = rw q

pub start_socks5-missing : (s : Server) → s.handshake_pending_buf ≡ none → start_socks5 s ≡ none
unfolding start_socks5
start_socks5-missing s q = rw q

pub process_received-missing :
    (s : Server) → s.handshake_pending_buf ≡ none → process_received s ≡ none
unfolding process_received
process_received-missing s q = rw q
