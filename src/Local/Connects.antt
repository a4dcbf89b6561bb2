-- ===== src/Local/Connects.antt =====
-- A SOCKS5 request for a domain name from a local client, as src/cli/cli_connection.cpp takes it.
use yass.Common.{
  ℕ, ◌+◌, ◌^◌, ◌≤◌, ◌<◌, ◌≡◌, refl, ap, ◌∙◌, arith, true, false, Option, some, none, List, [], ◌∷◌,
  length, ltb, leb, ◌==◌, ◌>>=◌, dcheck,
}
use yass.Address.{AddressHeader, address_type, domain_name, domain, good}
use yass.Handshake.{View, ErrorCode, received, is_unspecified}
use yass.Handshake.Views.{Begins, skip, advance-skip}
use yass.Dns.{c_str}
use yass.Shadowsocks.{of_domain}
use yass.Socks5.{Request, create, port, endpoint, request_length, parse, request_start}
use yass.Socks5
use yass.Socks5.Parsing.{domain_request}
use yass.Socks5.Reply as Reply5
use yass.Server.Requests.{
  domain_bytes, sent-parsed, sent-name, sent-port, sent-length, sent-type, sent-room, sent-command,
  is_empty-pos,
}
use yass.Local.{
  Local, in_socks5_handshake, state_socks5_handshake, state_stream, Unset, emit, connect,
  write_handshake, handle_stream, any_address, resolves_locally, on_cmd_connect_endpoint,
}
use yass.Local.Reads.{HttpRequest, on_read_socks5_handshake}
use yass.Local.Replies.{handshake_read, write_handshake_socks5, after_reply}
use yass.Local.Steps.{step-handle}
use yass.Local.Handlers.{
  step, handle, on_handshake_read, done, process_received, perform_cmd_ops_v5, on_cmd_connect,
}

-- The reply of version 5 that grants, with the address 0.0.0.0 and the port 0.
abbrev pub granted_reply : List ℕ
granted_reply = 5 ∷ 0 ∷ 0 ∷ 1 ∷ 0 ∷ 0 ∷ 0 ∷ 0 ∷ 0 ∷ 0 ∷ []

-- The connection after it: `a` is asked for.
abbrev pub asked : Request → AddressHeader → Local → Local
asked r a l =
    emit (write_handshake granted_reply true)
      (record (emit connect
        (record l { s5_request = r; state = state_socks5_handshake; request = a })) {
          state = state_stream;
        })

module _ (http : View → Option HttpRequest) (make_address : List ℕ → Option (List ℕ))
    (init : Option ErrorCode) where
  on_cmd_connect-name :
      (name : List ℕ) (p : ℕ) (l : Local) {a : AddressHeader}
      → make_address (c_str name) ≡ none
      → resolves_locally l.method ≡ false
      → 0 < length name
      → length name ≤ 255
      → 0 < p
      → of_domain name p ≡ some a
      → on_cmd_connect http make_address init name p l
        ≡ some (emit connect (record l { request = a }))
  unfolding on_cmd_connect
  on_cmd_connect-name name p l text m n short big made =
      let nonzero : (p == 0) ≡ false = ground arith in
      let fits : ltb 255 (length name) ≡ false = ground arith in
      rw (text, on_cmd_connect, fits, m, is_empty-pos name n, nonzero, made) refl

  on_cmd_connect-zeros :
      (name : List ℕ) (p : ℕ) (l : Local) {bytes : List ℕ}
      → make_address (c_str name) ≡ some bytes
      → is_unspecified bytes ≡ true
      → on_cmd_connect http make_address init name p l ≡ none
  unfolding on_cmd_connect on_cmd_connect_endpoint
  on_cmd_connect-zeros name p l text zeros = rw (text, on_cmd_connect, zeros) refl

  perform-named :
      (r : Request) (reply : Reply5.Reply) (l : Local) {name : List ℕ} {p : ℕ} {o : Option Local}
      → r.command ≡ 1
      → address_type r.atyp_req ≡ domain
      → domain_name r.atyp_req ≡ name
      → port r ≡ p
      → 0 < p
      → 0 < length name
      → length name ≤ 255
      → on_cmd_connect http make_address init name p l ≡ o
      → perform_cmd_ops_v5 http make_address init r reply l ≡ (
          o >>= λ l'. some (
            l',
            record (Reply5.set_endpoint any_address 0 reply) { status = Reply5.request_granted },
            none,
          ))
  unfolding perform_cmd_ops_v5
  perform-named r reply l c t nm pt big n short made =
      let nonzero : (port r == 0) ≡ false = ground arith in
      let some_name = is_empty-pos (domain_name r.atyp_req) (omega (arith, ap length nm)) in
      let fits : leb (length (domain_name r.atyp_req)) 255 ≡ true = ground (arith, ap length nm) in
      let is_connect : (r.command == 1) ≡ true = ground (arith, c) in
      rw (is_connect, t, nonzero, some_name, fits, nm, pt, made) refl

read_request :
    (b : View) (l : Local) (n : ℕ) {r : Request} {st : yass.Socks5.State} {next : ℕ}
    → parse request_start l.s5_request b.mem b.offset b.capacity ≡ (st, r, good, next)
    → request_length r ≡ n
    → b.offset + n ≤ b.capacity
    → on_read_socks5_handshake b l
      ≡ some (record l { s5_request = r; state = state_socks5_handshake }, skip n b, none)
unfolding on_read_socks5_handshake
read_request b l n e size_of room = rw (e, size_of, advance-skip n b room) refl

grant_written :
    (u : Unset) (l : Local)
    → l.state ≡ state_socks5_handshake
    → write_handshake_socks5
        (record (Reply5.set_endpoint any_address 0
          (Reply5.create_reply u.address4 u.address6 u.high u.low)) {
            status = Reply5.request_granted;
          })
        l
      ≡ some (emit (write_handshake granted_reply true) (record l { state = state_stream }))
unfolding write_handshake_socks5 Reply5.set_endpoint Reply5.create_reply Reply5.buffers
grant_written u l s =
    ap
      (λ st.
        dcheck (in_socks5_handshake st)
          (some (emit (write_handshake granted_reply true) (record l { state = state_stream }))))
      s

module _ (http : View → Option HttpRequest) (make_address : List ℕ → Option (List ℕ))
    (init : Option ErrorCode) (b : View) (name : List ℕ) (p : ℕ)
    (h : Begins (domain_bytes name p) b) (some_name : 0 < length name) (short : length name ≤ 255)
    (big : 0 < p) (small : p < 2 ^ 16) where
  reads :
      (l : Local)
      → l.s5_request ≡ create
      → let r = domain_request b.mem b.offset (b.offset + 4) in
        on_read_socks5_handshake b l
        ≡ some (
          record l { s5_request = r; state = state_socks5_handshake },
          skip (7 + length name) b,
          none,
        )
  reads l fresh =
      read_request b l (7 + length name)
        (ap (λ q. parse request_start q b.mem b.offset b.capacity) fresh
          ∙ sent-parsed b name p h some_name short big small)
        (sent-length b name p h some_name short big small)
        (sent-room b name p h some_name short big small)

  -- A local client's SOCKS5 request for a domain name of 1 to 255 bytes, which is not the text of an
  -- address, and a port that is not 0, on an open connection that has had no request, where the upstream
  -- server resolves names: the connection to the server is started for exactly that name and port, the
  -- request is granted, and what stood behind it goes on as data.
  pub request_connects :
      (u : Unset) (l : Local) {a : AddressHeader}
      → l.closed ≡ false
      → l.s5_request ≡ create
      → resolves_locally l.method ≡ false
      → make_address (c_str name) ≡ none
      → of_domain name p ≡ some a
      → (r : Request) × (step http make_address init (handshake_read u (received b)) l
          ≡ some (handle_stream (skip (7 + length name) b) (asked r a l)))
  unfolding handle on_handshake_read done process_received after_reply
  request_connects u l {a} alive fresh method text made =
      let r = domain_request b.mem b.offset (b.offset + 4) in
      let l1 : Local = record l { s5_request = r; state = state_socks5_handshake } in
      let reply = Reply5.create_reply u.address4 u.address6 u.high u.low in
      let performed =
        perform-named http make_address init r reply l1
          (sent-command b name p h some_name short big small)
          (sent-type b name p h some_name short big small)
          (sent-name b name p h some_name short big small)
          (sent-port b name p h some_name short big small) big some_name short
          (on_cmd_connect-name http make_address init name p l1 text method some_name short big
            made) in
      let written = grant_written u (emit connect (record l1 { request = a })) refl in
      (
        r,
        step-handle http make_address init (handshake_read u (received b)) l alive
            ∙ rw (reads l fresh, performed, written) refl,
      )

  -- A local client's SOCKS5 request, the first on an open connection, for a domain name of 1 to 255 bytes
  -- that is the text of an address of zeros, and a port that is not 0, passes the check of the request,
  -- which looks at addresses only, and fails the DCHECK of `OnCmdConnect` that the address is not
  -- unspecified.
  pub unspecified_name_aborts :
      (u : Unset) (l : Local) (bytes : List ℕ)
      → l.closed ≡ false
      → l.s5_request ≡ create
      → make_address (c_str name) ≡ some bytes
      → is_unspecified bytes ≡ true
      → step http make_address init (handshake_read u (received b)) l ≡ none
  unfolding handle on_handshake_read done process_received
  unspecified_name_aborts u l bytes alive fresh text zeros =
      let r = domain_request b.mem b.offset (b.offset + 4) in
      let l1 : Local = record l { s5_request = r; state = state_socks5_handshake } in
      let performed =
        perform-named http make_address init r
          (Reply5.create_reply u.address4 u.address6 u.high u.low) l1
          (sent-command b name p h some_name short big small)
          (sent-type b name p h some_name short big small)
          (sent-name b name p h some_name short big small)
          (sent-port b name p h some_name short big small) big some_name short
          (on_cmd_connect-zeros http make_address init name p l1 text zeros) in
      step-handle http make_address init (handshake_read u (received b)) l alive
      ∙ rw (reads l fresh, performed) refl
