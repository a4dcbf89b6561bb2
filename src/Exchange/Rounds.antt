-- ===== src/Exchange/Rounds.antt =====
-- The steps of one round, each from what it needs.
use yass.Common.{
  ℕ, ◌≡◌, refl, ap, ◌∙◌, inl, inr, arith, Bool, true, false, Option, none, some, List, [], ◌∷◌,
  ◌++◌, ◌==◌, if◌then◌else◌, Bool-cases, length, take, drop, drop_all, take_all,
}
use yass.Handshake.{
  View, size, received_view, is_socks5_method, auth_required, ErrorCode, try_again,
}
use yass.Server.{
  Server, Task, read_handshake_via_socks, read_username_password_auth, read_handshake_via_socks5,
  write_method_select_response, write_auth_response, write_handshake_response, relay, step,
  dispatch, on_read_handshake_via_socks, on_received, on_method_select, wanted_method, with_pending,
  on_read_username_password_auth, on_auth_request, on_read_handshake_via_socks5, on_socks5_request,
  start_auth, start_socks5, write_method_select, write_auth, write_handshake, process_received,
  send, method_select_response, auth_response, handshake_reply, username_or_password,
  no_auth_required,
}
use yass.Server.Pending.{
  not_socks4, start_auth-pending, start_socks5-pending, process_received-pending,
}
use yass.Upstream.{
  Client, is_empty, takes, write_some, read_upstream, Answer, deliver, then_read,
  read_method_select_response, read_auth_response, read_socks_response,
}
use yass.Upstream.Queue.{next-full}
use yass.Upstream.Writes.{wrote, write_some-takes}
use yass.Exchange.{Memory, response, response_of, reads, writes, whole, round_front, round}

-- The front buffer, sent whole.
sent_front : List ℕ → List (List ℕ) → Client → Client
sent_front b rest c = record c { sent = c.sent ++ b; upstream = rest }

pub send_front :
    (c : Client) (x : ℕ) (b : List ℕ) (rest : List (List ℕ))
    → c.upstream ≡ (x ∷ b) ∷ rest
    → write_some (takes none (length (x ∷ b))) c
      ≡ some (record c { sent = c.sent ++ (x ∷ b); upstream = rest })
unfolding wrote
send_front c x b rest e =
    let d : drop (length (x ∷ b)) (x ∷ b) ≡ [] = drop_all (length (x ∷ b)) (x ∷ b) (omega arith) in
    let t : take (length (x ∷ b)) (x ∷ b) ≡ x ∷ b =
      take_all (length (x ∷ b)) (x ∷ b) (omega arith) in
    write_some-takes (length (x ∷ b)) c (x ∷ b) rest e (omega arith)
      (next-full c (x ∷ b) rest e refl)
    ∙ ap
        (λ l. some (record c {
          sent = c.sent ++ l;
          upstream =
              if is_empty (drop (length (x ∷ b)) (x ∷ b))
              then rest
              else drop (length (x ∷ b)) (x ∷ b) ∷ rest;
        }))
        t
    ∙ ap
        (λ l.
          some (record c {
            sent = c.sent ++ (x ∷ b);
            upstream = if is_empty l then rest else l ∷ rest;
          }))
        d

step-at : (s : Server) (t : Task) (e : yass.Server.Event) → s.task ≡ t → step e s ≡ dispatch t e s
unfolding step
step-at s t e h = ap (λ (k : Task). dispatch k e s) h

send-whole :
    (bytes : List ℕ) (k : Server → Option Server) (s : Server)
    → send bytes (whole bytes) k s ≡ k (record s { written = s.written ++ bytes })
unfolding send
send-whole bytes k s =
    let same : (length bytes == length bytes) ≡ true = ground arith in
    rw (same, take_all (length bytes) bytes (omega arith))

module _ (m : Memory) (s : Server) (five : is_socks5_method s.method ≡ true) where
  pub reads_greeting :
      (bytes : List ℕ) {s' : Server}
      → s.task ≡ read_handshake_via_socks
      → on_method_select m.stale (received_view m.behind bytes) s ≡ some s'
      → step (reads m bytes) s ≡ some s'
  unfolding dispatch on_read_handshake_via_socks on_received
  reads_greeting bytes t e =
      step-at s read_handshake_via_socks (reads m bytes) t ∙ rw (not_socks4 s.method five, five) e

  pub reads_auth :
      (bytes : List ℕ) {p : View} {s' : Server}
      → s.task ≡ read_username_password_auth
      → s.handshake_pending_buf ≡ some p
      → size p ≡ 0
      → on_auth_request (received_view m.behind bytes) (record s { handshake_pending_buf = none })
        ≡ some s'
      → step (reads m bytes) s ≡ some s'
  unfolding dispatch on_read_username_password_auth with_pending on_received
  reads_auth bytes {p} t q z e =
      step-at s read_username_password_auth (reads m bytes) t ∙ rw (q, z) e

  pub reads_request :
      (bytes : List ℕ) {p : View} {s' : Server}
      → s.task ≡ read_handshake_via_socks5
      → s.handshake_pending_buf ≡ some p
      → size p ≡ 0
      → on_socks5_request (received_view m.behind bytes) (record s { handshake_pending_buf = none })
        ≡ some s'
      → step (reads m bytes) s ≡ some s'
  unfolding dispatch on_read_handshake_via_socks5 with_pending on_received
  reads_request bytes {p} t q z e =
      step-at s read_handshake_via_socks5 (reads m bytes) t ∙ rw (q, z) e

module _ (m : Memory) (s : Server) {p : View} (q : s.handshake_pending_buf ≡ some p) where
  written_method : Server
  written_method = record s {
    written = s.written ++ method_select_response (wanted_method s);
    task =
        if auth_required s.username s.password
        then read_username_password_auth
        else read_handshake_via_socks5;
  }

  pub writes_method :
      s.task ≡ write_method_select_response
      → step (writes m s) s
        ≡ some (record s {
          written = s.written ++ method_select_response (wanted_method s);
          task =
              if auth_required s.username s.password
              then read_username_password_auth
              else read_handshake_via_socks5;
        })
  unfolding dispatch write_method_select
  writes_method t =
      step-at s write_method_select_response (writes m s) t
      ∙ ap (λ (k : Task). write_method_select (whole (response_of k m s)) s) t
      ∙ send-whole (method_select_response (wanted_method s)) _ s
      ∙ elim (Bool-cases (auth_required s.username s.password)) [
        | inl a ↦ rw a (
            start_auth-pending
              (record s { written = s.written ++ method_select_response username_or_password }) q)
        | inr a ↦ rw a (
            start_socks5-pending
              (record s { written = s.written ++ method_select_response no_auth_required }) q)
      ]

  pub writes_auth :
      s.task ≡ write_auth_response
      → step (writes m s) s
        ≡ some (record s { written = s.written ++ auth_response; task = read_handshake_via_socks5 })
  unfolding dispatch write_auth
  writes_auth t =
      step-at s write_auth_response (writes m s) t
      ∙ ap (λ (k : Task). write_auth (whole (response_of k m s)) s) t
      ∙ send-whole auth_response start_socks5 s
      ∙ start_socks5-pending (record s { written = s.written ++ auth_response }) q

  pub writes_reply :
      s.task ≡ write_handshake_response
      → step (writes m s) s
        ≡ some (record s {
          written = s.written ++ handshake_reply m.address4 m.address6 m.high m.low s;
          handshake_pending_buf = none;
          task = relay p;
        })
  unfolding dispatch write_handshake
  writes_reply t =
      let bytes = handshake_reply m.address4 m.address6 m.high m.low s in
      step-at s write_handshake_response (writes m s) t
      ∙ ap
          (λ (k : Task).
            write_handshake m.address4 m.address6 m.high m.low (whole (response_of k m s)) s)
          t
      ∙ send-whole bytes process_received s
      ∙ process_received-pending (record s { written = s.written ++ bytes }) q

then_read-open :
    (flag : Client → Bool) (read : View → Client → Option Answer) (c : Client) (b : View)
    → flag c ≡ true
    → then_read flag read (c, b, none) ≡ read b c
unfolding then_read
then_read-open flag read c b f = rw f

then_read-closed :
    (flag : Client → Bool) (read : View → Client → Option Answer) (c : Client) (b : View)
    → flag c ≡ false
    → then_read flag read (c, b, none) ≡ some (c, b, none)
unfolding then_read
then_read-closed flag read c b f = rw f

then_read-stop :
    (flag : Client → Bool) (read : View → Client → Option Answer) (c : Client) (b : View)
    (ec : ErrorCode)
    → then_read flag read (c, b, some ec) ≡ some (c, b, some ec)
unfolding then_read
then_read-stop flag read c b ec = refl

abbrev pub selecting : Client → Bool
selecting c = c.socks5_method_select_handshake

abbrev pub authenticating : Client → Bool
authenticating c = c.socks5_auth_handshake

abbrev pub replying : Client → Bool
replying c = c.socks_handshake

-- What the client reads, while one response is awaited and nothing follows it.
module _ (b : View) (c c' : Client) (rest : View) where
  pub reads_method :
      selecting c ≡ true
      → read_method_select_response b c ≡ some (c', rest, some try_again)
      → read_upstream b c ≡ some (c', rest, some try_again)
  unfolding read_upstream deliver
  reads_method f e =
      let first = then_read-open selecting read_method_select_response c b f ∙ e in
      rw (
        first,
        then_read-stop authenticating read_auth_response c' rest try_again,
        then_read-stop replying read_socks_response c' rest try_again,
      )

  pub reads_auth_response :
      selecting c ≡ false
      → authenticating c ≡ true
      → read_auth_response b c ≡ some (c', rest, some try_again)
      → read_upstream b c ≡ some (c', rest, some try_again)
  unfolding read_upstream deliver
  reads_auth_response f a e =
      let second = then_read-open authenticating read_auth_response c b a ∙ e in
      rw (
        then_read-closed selecting read_method_select_response c b f,
        second,
        then_read-stop replying read_socks_response c' rest try_again,
      )

  pub reads_reply :
      selecting c ≡ false
      → authenticating c ≡ false
      → replying c ≡ true
      → read_socks_response b c ≡ some (c', rest, some try_again)
      → read_upstream b c ≡ some (c', rest, some try_again)
  unfolding read_upstream deliver
  reads_reply f a k e =
      let third = then_read-open replying read_socks_response c b k ∙ e in
      rw (
        then_read-closed selecting read_method_select_response c b f,
        then_read-closed authenticating read_auth_response c b a,
        third,
      )

-- A round, from its four steps.
pub round-steps :
    (m : Memory) (c : Client) (s : Server) (front : List ℕ) (rest : List (List ℕ)) {c' : Client}
    {s' s'' : Server} {x : Answer}
    → c.upstream ≡ front ∷ rest
    → write_some (takes none (length front)) c ≡ some c'
    → step (reads m front) s ≡ some s'
    → step (writes m s') s' ≡ some s''
    → read_upstream (received_view m.behind (response m s')) c' ≡ some x
    → round m c s ≡ some (x.0, s'')
unfolding round round_front
round-steps m c s front rest {c'} {s'} {s''} {x} u w r t a =
    ap (round_front m c s) u ∙ rw (w, r, t, a)
