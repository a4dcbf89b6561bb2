-- ===== src/Exchange/Selects.antt =====
-- The rounds of the method selection, with and without credentials, and of the credentials.
use yass.Common.{
  ℕ, ◌+◌, ◌%◌, ◌<◌, ◌≡◌, refl, ap, ◌∙◌, arith, true, false, none, some, List, [], ◌∷◌, ◌++◌, length,
}
use yass.Handshake.{View, size, received_view, is_socks5_method, auth_required, try_again}
use yass.Handshake.Views.{skip, received-Begins}
use yass.Server.{
  Server, Task, read_handshake_via_socks, read_username_password_auth, read_handshake_via_socks5,
  write_method_select_response, write_auth_response, wanted_method, method_select_response,
  auth_response, on_auth_request,
}
use yass.Server.Messages.{
  greeting, goes_on, on_method_select-greeting, auth_bytes, on_auth_request-credentials,
}
use yass.Upstream.{Client, read_upstream, answered}
use yass.Upstream.Responses.{
  request_bytes, credentials, selected, authenticated, method_refused, method_accepted-auth,
  method_accepted-plain, write_auth_request-front, write_socks5_request-front, auth_refused,
  auth_accepted,
}
use yass.Exchange.{Memory, round}
use yass.Exchange.Rounds.{
  send_front, reads_greeting, reads_auth, writes_method, writes_auth, selecting, authenticating,
  reads_method, reads_auth_response, round-steps,
}

-- Two bytes that the client received, and nothing behind them.
abbrev pub two_bytes : Memory → ℕ → ℕ → View
two_bytes m x y = received_view m.behind (x ∷ y ∷ [])

two_bytes-size : (m : Memory) (x y : ℕ) → size (two_bytes m x y) ≡ 2
unfolding received_view
two_bytes-size m x y = refl

answers :
    (c : Client) (m : Memory) (x y : ℕ)
    → answered c (skip 2 (two_bytes m x y)) ≡ (c, skip 2 (two_bytes m x y), some try_again)
unfolding received_view
answers c m x y = refl

module _ (m : Memory) (c : Client) (s : Server) (rest : List (List ℕ))
    (five : is_socks5_method c.method ≡ true) (five' : is_socks5_method s.method ≡ true)
    (select : selecting c ≡ true) (start : s.task ≡ read_handshake_via_socks) where
  -- What the server holds behind a greeting.
  greeted : ℕ → Server
  greeted method =
      goes_on write_method_select_response 3 (received_view m.behind (greeting method)) s

  unfoldable pub selects : ℕ → Task → Server
  selects method t = record s {
    handshake_pending_buf = some (skip 3 (received_view m.behind (greeting method)));
    written = s.written ++ method_select_response method;
    task = t;
  }

  pub round-selects_auth :
      authenticating c ≡ true
      → auth_required s.username s.password ≡ true
      → c.upstream ≡ greeting 2 ∷ [] ∷ rest
      → round m c s
        ≡ some (
          record c {
            sent = c.sent ++ greeting 2;
            upstream = credentials c ∷ rest;
            socks5_method_select_handshake = false;
          },
          selects 2 read_username_password_auth,
        )
  unfolding selects greeted
  round-selects_auth a r u =
      let w : wanted_method s ≡ 2 = rw r in
      let c' : Client = record c { sent = c.sent ++ greeting 2; upstream = [] ∷ rest } in
      let ok : method_refused (two_bytes m 5 2) c' ≡ false = unfold received_view in ground arith in
      round-steps m c s (greeting 2) ([] ∷ rest) u (send_front c 5 (1 ∷ 2 ∷ []) ([] ∷ rest) u)
        (reads_greeting m s five' (greeting 2) start (
          on_method_select-greeting (received_view m.behind (greeting 2)) 2
            (received-Begins m.behind (greeting 2)) m.stale s w))
        (writes_method m (greeted 2) refl refl ∙ rw r)
        (ap (λ k. read_upstream (received_view m.behind (method_select_response k)) c') w
          ∙ reads_method (two_bytes m 5 2) c'
              (record c' {
                socks5_method_select_handshake = false;
                upstream = credentials c ∷ rest;
              })
              (skip 2 (two_bytes m 5 2)) select
              (method_accepted-auth (two_bytes m 5 2) c' ok (omega (arith, two_bytes-size m 5 2)) a
                  (write_auth_request-front (selected c') rest five refl)
                ∙ ap some (answers _ m 5 2)))

  pub round-selects_plain :
      authenticating c ≡ false
      → auth_required s.username s.password ≡ false
      → c.upstream ≡ greeting 0 ∷ [] ∷ rest
      → round m c s
        ≡ some (
          record c {
            sent = c.sent ++ greeting 0;
            upstream = request_bytes c ∷ rest;
            socks5_method_select_handshake = false;
            socks_handshake = true;
          },
          selects 0 read_handshake_via_socks5,
        )
  unfolding selects greeted request_bytes
  round-selects_plain a r u =
      let w : wanted_method s ≡ 0 = rw r in
      let c' : Client = record c { sent = c.sent ++ greeting 0; upstream = [] ∷ rest } in
      let ok : method_refused (two_bytes m 5 0) c' ≡ false = unfold received_view in ground arith in
      round-steps m c s (greeting 0) ([] ∷ rest) u (send_front c 5 (1 ∷ 0 ∷ []) ([] ∷ rest) u)
        (reads_greeting m s five' (greeting 0) start (
          on_method_select-greeting (received_view m.behind (greeting 0)) 0
            (received-Begins m.behind (greeting 0)) m.stale s w))
        (writes_method m (greeted 0) refl refl ∙ rw r)
        (ap (λ k. read_upstream (received_view m.behind (method_select_response k)) c') w
          ∙ reads_method (two_bytes m 5 0) c'
              (record c' {
                socks5_method_select_handshake = false;
                upstream = request_bytes c ∷ rest;
                socks_handshake = true;
              })
              (skip 2 (two_bytes m 5 0)) select
              (method_accepted-plain (two_bytes m 5 0) c' ok (omega (arith, two_bytes-size m 5 0)) a
                  (write_socks5_request-front (selected c') [] rest refl)
                ∙ ap some (answers _ m 5 0)))

credentials-auth_bytes :
    (c : Client)
    → length c.username < 256
    → length c.password < 256
    → credentials c ≡ auth_bytes c.username c.password
credentials-auth_bytes c u p =
    let a : length c.username % 256 ≡ length c.username = omega arith in
    let b : length c.password % 256 ≡ length c.password = omega arith in
    ap (λ n. 5 ∷ n ∷ (c.username ++ ((length c.password % 256) ∷ (c.password ++ [])))) a
    ∙ ap (λ n. 5 ∷ length c.username ∷ (c.username ++ (n ∷ (c.password ++ [])))) b

-- The server has the client's credentials, and nothing pending.
module _ (m : Memory) (c : Client) (s : Server) (rest : List (List ℕ)) (p : View)
    (five : is_socks5_method c.method ≡ true) (five' : is_socks5_method s.method ≡ true)
    (selected_ : selecting c ≡ false) (awaited : authenticating c ≡ true)
    (start : s.task ≡ read_username_password_auth) (pending : s.handshake_pending_buf ≡ some p)
    (drained : size p ≡ 0) where
  unfoldable pub authenticates : Server
  authenticates = record s {
    handshake_pending_buf = some (
        skip (3 + length c.username + length c.password)
          (received_view m.behind (auth_bytes c.username c.password)));
    written = s.written ++ auth_response;
    task = read_handshake_via_socks5;
  }

  verified : Server
  verified =
      goes_on write_auth_response (3 + length c.username + length c.password)
        (received_view m.behind (auth_bytes c.username c.password))
        (record s { handshake_pending_buf = none })

  pub round-authenticates :
      0 < length c.username
      → 0 < length c.password
      → length c.username < 256
      → length c.password < 256
      → s.username ≡ c.username
      → s.password ≡ c.password
      → c.upstream ≡ credentials c ∷ [] ∷ rest
      → round m c s
        ≡ some (
          record c {
            sent = c.sent ++ credentials c;
            upstream = request_bytes c ∷ rest;
            socks5_auth_handshake = false;
            socks_handshake = true;
          },
          authenticates,
        )
  unfolding authenticates verified request_bytes
  round-authenticates hu hp lu lp eu ep u =
      let c' : Client = record c { sent = c.sent ++ credentials c; upstream = [] ∷ rest } in
      let same = credentials-auth_bytes c lu lp in
      let ok : auth_refused (two_bytes m 5 0) ≡ false = unfold received_view in refl in
      round-steps m c s (credentials c) ([] ∷ rest) u (send_front c 5 _ ([] ∷ rest) u)
        (reads_auth m s five' (credentials c) start pending drained (
          ap
            (λ l.
              on_auth_request (received_view m.behind l)
                (record s { handshake_pending_buf = none }))
            same
          ∙ on_auth_request-credentials (received_view m.behind (auth_bytes c.username c.password))
              c.username c.password (received-Begins m.behind (auth_bytes c.username c.password))
              (record s { handshake_pending_buf = none }) hu hp eu ep))
        (writes_auth m verified refl refl)
        (reads_auth_response (two_bytes m 5 0) c'
          (record c' {
            socks5_auth_handshake = false;
            upstream = request_bytes c ∷ rest;
            socks_handshake = true;
          })
          (skip 2 (two_bytes m 5 0)) selected_ awaited
          (auth_accepted (two_bytes m 5 0) c' ok (omega (arith, two_bytes-size m 5 0))
              (write_socks5_request-front (authenticated c') [] rest refl)
            ∙ ap some (answers _ m 5 0)))
