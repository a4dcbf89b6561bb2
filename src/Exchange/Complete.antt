-- ===== src/Exchange/Complete.antt =====
-- A whole SOCKS5 handshake between the client of src/cli/cli_connection.cpp and the server of
-- src/server/server_connection.cpp, for a destination that is a domain name.
use yass.Common.{
  ℕ, ◌+◌, ◌^◌, ◌≤◌, ◌<◌, ◌≡◌, refl, ap, ◌∙◌, inl, inr, arith, true, false, none, some, List, [],
  ◌∷◌, ◌++◌, if◌then◌else◌, length, length-append, Bool-cases,
}
use yass.Address.{address_type, domain}
use yass.Handshake.{
  View, size, advance, received_view, is_socks5_method, auth_required, try_again, CipherMethod,
  crypto_socks5, crypto_socks5h, crypto_socks4, crypto_socks4a, other,
}
use yass.Handshake.Views.{skip, received-Begins}
use yass.Shadowsocks.{of_domain}
use yass.Server.{
  Server, read_handshake_via_socks, read_username_password_auth, read_handshake_via_socks5,
  handshake_reply, relay, on_socks5_request,
}
use yass.Server.Pending.{not_socks4}
use yass.Server.Messages.{greeting, auth_bytes}
use yass.Server.Requests.{domain_bytes, port_bytes, asks_for, on_socks5_request-domain}
use yass.Upstream.{
  Client, needs_auth, write_method_select_request, read_upstream, read_socks_response, read_reply,
  read_socks5_response, skip_reply, request_address,
}
use yass.Upstream.Responses.{request_bytes, credentials}
use yass.Socks5.Reply.{buffers, set_endpoint, create_reply}
use yass.Exchange.{Memory, round, rounds}
use yass.Exchange.Rounds.{
  send_front, reads_request, writes_reply, selecting, authenticating, replying, reads_reply,
  round-steps,
}
use yass.Exchange.Selects.{
  selects, authenticates, round-selects_auth, round-selects_plain, round-authenticates,
}
use yass.Exchange.Target.{request_bytes-domain, made_type}

-- The reply to a request for a domain name: granted, with the address 0.0.0.0 and the port 0.
abbrev granted : List ℕ
granted = 5 ∷ 0 ∷ 0 ∷ 1 ∷ 0 ∷ 0 ∷ 0 ∷ 0 ∷ 0 ∷ 0 ∷ []

granted_reply :
    (m : Memory) (s : Server)
    → is_socks5_method s.method ≡ true
    → address_type s.request ≡ domain
    → handshake_reply m.address4 m.address6 m.high m.low s ≡ granted
unfolding handshake_reply buffers set_endpoint create_reply
granted_reply m s five t = rw (not_socks4 s.method five, t)

reads_granted :
    (m : Memory) (method : CipherMethod) (c : Client)
    → is_socks5_method method ≡ true
    → read_reply method (received_view m.behind granted) c
      ≡ some (c, skip 10 (received_view m.behind granted), some try_again)
unfolding read_reply read_socks5_response skip_reply advance received_view
reads_granted m crypto_socks4 c e = absurd (cc e)
reads_granted m crypto_socks4a c e = absurd (cc e)
reads_granted m crypto_socks5 c e = refl
reads_granted m crypto_socks5h c e = refl
reads_granted m other c e = absurd (cc e)

module _ (m : Memory) (c : Client) (s : Server) (rest : List (List ℕ)) (p : View) (name : List ℕ)
    (port : ℕ) (some_name : 0 < length name) (short : length name ≤ 255) (big : 0 < port)
    (small : port < 2 ^ 16) (five : is_socks5_method c.method ≡ true)
    (five' : is_socks5_method s.method ≡ true) (start : s.task ≡ read_handshake_via_socks5)
    (pending : s.handshake_pending_buf ≡ some p) (drained : size p ≡ 0)
    (made : of_domain name port ≡ some c.request) where
  message : View
  message = received_view m.behind (domain_bytes name port)

  asked : Server
  asked = asks_for c.request (7 + length name) message (record s { handshake_pending_buf = none })

  unfoldable pub connects : Server
  connects = record s {
    request = c.request;
    handshake_pending_buf = none;
    written = s.written ++ granted;
    task = relay (skip (7 + length name) (received_view m.behind (domain_bytes name port)));
  }

  pub round-connects :
      selecting c ≡ false
      → authenticating c ≡ false
      → replying c ≡ true
      → c.upstream ≡ request_bytes c ∷ rest
      → round m c s
        ≡ some (
          record c { sent = c.sent ++ request_bytes c; upstream = rest; socks_handshake = false },
          connects,
        )
  unfolding message asked connects request_bytes read_socks_response
  round-connects f a k u =
      let c' : Client = record c { sent = c.sent ++ request_bytes c; upstream = rest } in
      let reply_is = granted_reply m asked five' (made_type name port short c.request made) in
      round-steps m c s (request_bytes c) rest u
        (send_front c 5 (1 ∷ 0 ∷ request_address c.request) rest u)
        (reads_request m s five' (request_bytes c) start pending drained (
          ap
            (λ l.
              on_socks5_request (received_view m.behind l)
                (record s { handshake_pending_buf = none }))
            (request_bytes-domain name port short c made)
          ∙ on_socks5_request-domain message name port
              (received-Begins m.behind (domain_bytes name port)) some_name short big small
              (record s { handshake_pending_buf = none }) made))
        (writes_reply m asked refl refl
          ∙ ap
              (λ l. some (record asked {
                written = s.written ++ l;
                handshake_pending_buf = none;
                task = relay (skip (7 + length name) message);
              }))
              reply_is)
        (ap (λ l. read_upstream (received_view m.behind l) c') reply_is
          ∙ reads_reply (received_view m.behind granted) c' (record c' { socks_handshake = false })
              (skip 10 (received_view m.behind granted)) f a k
              (reads_granted m c.method (record c' { socks_handshake = false }) five))

-- The client when it has written its greeting, and the application has sent `early` meanwhile.
unfoldable pub greeted : Client → List (List ℕ) → Client
greeted c early =
    let g = write_method_select_request c in record g { upstream = g.upstream ++ early }

-- The handshake is over: the server connects to the client's destination and holds nothing of the
-- stream back, and the client has nothing to wait for, and only the application's data to send.
pub record IsComplete (c : Client) (early : List (List ℕ)) (c' : Client) (s' : Server)
    : Type 0 where
  pub same_request : s'.request ≡ c.request
  pub relays : View
  pub relaying : s'.task ≡ relay relays
  pub drained : size relays ≡ 0
  pub early_next : c'.upstream ≡ early
  pub method_selected : c'.socks5_method_select_handshake ≡ false
  pub authenticated : c'.socks5_auth_handshake ≡ false
  pub replied : c'.socks_handshake ≡ false
  pub connected : c'.disconnected ≡ c.disconnected
  pub nothing_read : c'.downstream ≡ c.downstream

rounds_two :
    (m : Memory) (c c' c'' : Client) (s s' s'' : Server)
    → round m c s ≡ some (c', s')
    → round m c' s' ≡ some (c'', s'')
    → rounds 2 m c s ≡ some (c'', s'')
unfolding rounds
rounds_two m c c' c'' s s' s'' e f = rw (e, f)

rounds_three :
    (m : Memory) (c c' c'' d : Client) (s s' s'' t : Server)
    → round m c s ≡ some (c', s')
    → round m c' s' ≡ some (c'', s'')
    → round m c'' s'' ≡ some (d, t)
    → rounds 3 m c s ≡ some (d, t)
unfolding rounds
rounds_three m c c' c'' d s s' s'' t e f g = rw (e, f, g)

auth-nonempty : (u p : List ℕ) → auth_required u p ≡ true → (0 < length u) × (0 < length p)
auth-nonempty [] p e = absurd (cc e)
auth-nonempty (x ∷ u) [] e = absurd (cc e)
auth-nonempty (x ∷ u) (y ∷ p) e = (omega arith, omega arith)

module _ (m : Memory) (c : Client) (s : Server) (early : List (List ℕ)) (name : List ℕ) (port : ℕ)
    (some_name : 0 < length name) (short : length name ≤ 255) (big : 0 < port)
    (small : port < 2 ^ 16) (five : is_socks5_method c.method ≡ true)
    (five' : is_socks5_method s.method ≡ true) (start : s.task ≡ read_handshake_via_socks)
    (idle : c.upstream ≡ []) (made : of_domain name port ≡ some c.request)
    (user : s.username ≡ c.username) (secret : s.password ≡ c.password) where
  greeted-queue :
      (greeted c early).upstream
      ≡ greeting (if needs_auth c then 2 else 0)
        ∷ ((if needs_auth c then [] ∷ [] ∷ [] else [] ∷ []) ++ early)
  unfolding greeted write_method_select_request
  greeted-queue =
      ap
        (λ (l : List (List ℕ)).
          (l
            ++ (greeting (if needs_auth c then 2 else 0)
                ∷ (if needs_auth c then [] ∷ [] ∷ [] else [] ∷ [])))
          ++ early)
        idle

  server-auth : auth_required s.username s.password ≡ needs_auth c
  server-auth = rw (user, secret)

  completes-plain :
      needs_auth c ≡ false
      → (c' : Client) × (s' : Server) × (rounds 2 m (greeted c early) s ≡ some (c', s'))
        × IsComplete c early c' s'
  unfolding greeted write_method_select_request selects connects request_bytes received_view
  completes-plain a =
      let g = greeted c early in
      let first = round-selects_plain m g s early five five' refl start a (server-auth ∙ a) (
        greeted-queue
        ∙ ap (λ b. greeting (if b then 2 else 0) ∷ ((if b then [] ∷ [] ∷ [] else [] ∷ []) ++ early))
            a) in
      let c' : Client = record g {
        sent = g.sent ++ greeting 0;
        upstream = request_bytes g ∷ early;
        socks5_method_select_handshake = false;
        socks_handshake = true;
      } in
      let s' = selects m g s early five five' refl start 0 read_handshake_via_socks5 in
      let p = skip 3 (received_view m.behind (greeting 0)) in
      let second =
        round-connects m c' s' early p name port some_name short big small five five' refl refl refl
          made refl a refl refl in
      (
        record c' { sent = c'.sent ++ request_bytes c'; upstream = early; socks_handshake = false },
        connects m c' s' early p name port some_name short big small five five' refl refl refl made,
        rounds_two m g c' _ s s' _ first second,
        record {
          same_request = refl;
          relays = skip (7 + length name) (received_view m.behind (domain_bytes name port));
          relaying = refl;
          drained = omega (arith, length-append {0} name (port_bytes port ++ []));
          early_next = refl;
          method_selected = refl;
          authenticated = a;
          replied = refl;
          connected = refl;
          nothing_read = refl;
        },
      )

  completes-auth :
      needs_auth c ≡ true
      → length c.username < 256
      → length c.password < 256
      → (c' : Client) × (s' : Server) × (rounds 3 m (greeted c early) s ≡ some (c', s'))
        × IsComplete c early c' s'
  unfolding greeted write_method_select_request selects authenticates connects request_bytes
      received_view
  completes-auth a lu lp =
      let g = greeted c early in
      let first = round-selects_auth m g s ([] ∷ early) five five' refl start a (server-auth ∙ a) (
        greeted-queue
        ∙ ap (λ b. greeting (if b then 2 else 0) ∷ ((if b then [] ∷ [] ∷ [] else [] ∷ []) ++ early))
            a) in
      let c' : Client = record g {
        sent = g.sent ++ greeting 2;
        upstream = credentials g ∷ [] ∷ early;
        socks5_method_select_handshake = false;
      } in
      let s' = selects m g s ([] ∷ early) five five' refl start 2 read_username_password_auth in
      let p = skip 3 (received_view m.behind (greeting 2)) in
      let (hu, hp) = auth-nonempty c.username c.password a in
      let second =
        round-authenticates m c' s' early p five five' refl a refl refl refl hu hp lu lp user secret
          refl in
      let c'' : Client = record c' {
        sent = c'.sent ++ credentials c';
        upstream = request_bytes c' ∷ early;
        socks5_auth_handshake = false;
        socks_handshake = true;
      } in
      let s'' = authenticates m c' s' early p five five' refl a refl refl refl in
      let q =
        skip (3 + length c.username + length c.password)
          (received_view m.behind (auth_bytes c.username c.password)) in
      let empty : size q ≡ 0 = omega (
        arith,
        length-append {0} c.username (length c.password ∷ (c.password ++ [])),
        length-append {0} c.password [],
      ) in
      let third =
        round-connects m c'' s'' early q name port some_name short big small five five' refl refl
          empty made refl refl refl refl in
      (
        record c'' {
          sent = c''.sent ++ request_bytes c'';
          upstream = early;
          socks_handshake = false;
        },
        connects m c'' s'' early q name port some_name short big small five five' refl refl empty
            made,
        rounds_three m g c' c'' _ s s' s'' _ first second third,
        record {
          same_request = refl;
          relays = skip (7 + length name) (received_view m.behind (domain_bytes name port));
          relaying = refl;
          drained = omega (arith, length-append {0} name (port_bytes port ++ []));
          early_next = refl;
          method_selected = refl;
          authenticated = refl;
          replied = refl;
          connected = refl;
          nothing_read = refl;
        },
      )

  -- A SOCKS5 handshake between a client and a server that have the same user name and password, of at
  -- most 255 bytes each, for a domain name of 1 to 255 bytes and a port that is not 0, completes, in
  -- three rounds where there are credentials and in two where there are none. The server then
  -- connects to the client's destination, and the client's queue holds what the application sent
  -- meanwhile, in order, and nothing else.
  pub handshake_completes :
      length c.username < 256
      → length c.password < 256
      → (c' : Client) × (s' : Server) × (rounds
            (if needs_auth c then 3 else 2)
            m
            (greeted c early)
            s
          ≡ some (c', s'))
        × IsComplete c early c' s'
  handshake_completes lu lp = elim (Bool-cases (needs_auth c)) [
    | inl a ↦ rw a (completes-auth a lu lp)
    | inr a ↦ rw a (completes-plain a)
  ]
