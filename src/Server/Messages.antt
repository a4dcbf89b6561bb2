-- ===== src/Server/Messages.antt =====
-- What the handlers of src/server/server_connection.cpp do with the messages of a client: a method
-- selection, a user name and a password, and a request.
use yass.Common.{
  ℕ, suc, ◌+◌, ◌≤◌, ◌<◌, ◌≡◌, refl, sym, ap, ◌∙◌, arith, some, List, [], ◌∷◌, ◌++◌, Mem, slice,
  memcpy, length, length-append, get_or-append_right,
}
use yass.Address.{good}
use yass.Handshake.{View, advance, str_eq_refl, contains}
use yass.Handshake.Views.{
  Begins, skip, advance-skip, Begins-byte, Begins-first, Begins-skip, Begins-slice,
}
use yass.Socks5.Method.{MethodRequest, MethodState, method_length, offered}
use yass.Socks5.Method
use yass.Socks5.Auth.{parse_auth, create_auth, parse_auth_complete, auth_length}
use yass.Socks5.Auth
use yass.Server.{
  Server, Task, write_method_select_response, write_auth_response, wanted_method, create_method,
  on_method_select, on_auth_request,
}

-- What is left pending behind a message of `n` bytes, and the task that follows.
abbrev pub goes_on : Task → ℕ → View → Server → Server
goes_on t n b s = record s { handshake_pending_buf = some (skip n b); task = t }

-- One method is offered.
abbrev pub greeting : ℕ → List ℕ
greeting method = 5 ∷ 1 ∷ method ∷ []

module _ (b : View) (method : ℕ) (h : Begins (greeting method) b) where
  parse_greeting :
      (stale : Mem)
      → let r : MethodRequest = record {
        ver = b.mem b.offset;
        nmethods = b.mem (b.offset + 1);
        methods = memcpy stale 0 b.mem (b.offset + 2) (b.mem (b.offset + 1));
      } in
        Method.parse Method.request_start (create_method stale) b.mem b.offset b.capacity
        ≡ (Method.MethodState.request, r, good, b.offset + 2 + b.mem (b.offset + 1))
  unfolding Method.parse Method.parse_methods
  parse_greeting stale = ground (arith, h.room, Begins-first h, Begins-byte h 1 (omega arith))

  one : b.mem (b.offset + 1) ≡ 1
  one = Begins-byte h 1 (omega arith)

  third : b.mem (b.offset + 2) ≡ method
  third = Begins-byte h 2 (omega arith)

  pub on_method_select-greeting :
      (stale : Mem) (s : Server)
      → wanted_method s ≡ method
      → on_method_select stale b s ≡ some (goes_on write_method_select_response 3 b s)
  unfolding on_method_select advance contains method_length memcpy
  on_method_select-greeting stale s w =
      rw (parse_greeting stale, one) (ground (arith, h.room, third))

-- `username` and `password` with their lengths.
abbrev pub auth_bytes : List ℕ → List ℕ → List ℕ
auth_bytes u p = 5 ∷ length u ∷ (u ++ (length p ∷ (p ++ [])))

abbrev sent_auth : View → Auth.AuthRequest
sent_auth b = (parse_auth Auth.request_start create_auth b.mem b.offset b.capacity).1

on_auth_request-good :
    (b : View) (s : Server)
    → (parse_auth Auth.request_start create_auth b.mem b.offset b.capacity).2 ≡ good
    → b.offset + auth_length (sent_auth b) ≤ b.capacity
    → (sent_auth b).username ≡ s.username
    → (sent_auth b).password ≡ s.password
    → on_auth_request b s ≡ some (goes_on write_auth_response (auth_length (sent_auth b)) b s)
unfolding on_auth_request
on_auth_request-good b s o h u p = rw (
  o,
  advance-skip (auth_length (sent_auth b)) b h,
  u,
  p,
  str_eq_refl s.username,
  str_eq_refl s.password,
)

module _ (b : View) (u p : List ℕ) (h : Begins (auth_bytes u p) b) where
  auth-room : b.offset + 3 + length u + length p ≤ b.capacity
  auth-room =
      omega (arith, h.room, length-append {0} u (length p ∷ (p ++ [])), length-append {0} p [])

  name_len : b.mem (b.offset + 1) ≡ length u
  name_len = Begins-byte h 1 (omega arith)

  password_len : b.mem (b.offset + 1 + 1 + length u) ≡ length p
  password_len =
      ap b.mem
        (let e : b.offset + 1 + 1 + length u ≡ b.offset + suc (suc (length u)) = omega arith in e)
      ∙ Begins-byte h (suc (suc (length u)))
          (omega (arith, length-append {0} u (length p ∷ (p ++ []))))
      ∙ get_or-append_right u (length p ∷ (p ++ [])) (length u) 0 0 (omega arith)

  name_sent : slice b.mem (b.offset + 1 + 1) (length u) ≡ u
  name_sent = Begins-slice (5 ∷ length u ∷ []) u (length p ∷ (p ++ [])) h (omega arith) refl

  password_sent : slice b.mem (b.offset + 1 + 1 + length u + 1) (length p) ≡ p
  password_sent =
      Begins-slice (length p ∷ []) p []
        (Begins-skip u (length p ∷ (p ++ []))
          (Begins-skip (5 ∷ length u ∷ []) (u ++ (length p ∷ (p ++ []))) h))
        (omega arith) refl

  pub on_auth_request-credentials :
      (s : Server)
      → 0 < length u
      → 0 < length p
      → s.username ≡ u
      → s.password ≡ p
      → on_auth_request b s ≡ some (goes_on write_auth_response (3 + length u + length p) b s)
  unfolding auth_length
  on_auth_request-credentials s hu hp eu ep =
      let (o, next, name, password) =
        parse_auth_complete create_auth b.mem b.offset b.capacity (length u) (length p)
          (Begins-first h) name_len password_len hu hp auth-room in
      let r = sent_auth b in
      let named : r.username ≡ u = name ∙ name_sent in
      let secret : r.password ≡ p = password ∙ password_sent in
      let whole : auth_length r ≡ 3 + length u + length p =
        omega (arith, ap length named, ap length secret) in
      on_auth_request-good b s o (omega (arith, whole, auth-room)) (named ∙ sym eu)
        (secret ∙ sym ep)
      ∙ ap (λ n. some (goes_on write_auth_response n b s)) whole
