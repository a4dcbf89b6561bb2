-- ===== src/Server/Gate.antt =====
-- What a SOCKS5 client must have sent before the server of src/server/server_connection.cpp relays for
-- it, where the server has a user name and a password.
use yass.Common.{
  some-injective, ℕ, ◌≡◌, refl, sym, ap, ◌∙◌, ◌⊎◌, inl, inr, arith, Option, none, some, List, ◌==◌,
  if◌then◌else◌, Mem, Bool-cases, Option-cases,
}
use yass.Address.{good, domain_name}
use yass.Handshake.{
  ErrorCode, invalid_argument, is_retry, View, size, advance, Received, failed, received,
  str_eq_sound,
}
use yass.Handshake.Views.{skip}
use yass.Shadowsocks.{of_domain}
use yass.Socks5.{Request, create, request_start, parse, request_length, port}
use yass.Socks5.Method.{MethodRequest, method_length, offered}
use yass.Socks5.Method
use yass.Socks5.Auth.{AuthRequest, parse_auth, create_auth, auth_length}
use yass.Socks5.Auth
use yass.Server.{
  Server, Task, write_method_select_response, write_auth_response, write_handshake_response,
  disconnected, on_disconnect, on_socks5_request, accept_socks5, with_domain, with_endpoint,
  on_auth_request, on_method_select, create_method, on_received, with_pending,
}

-- The client's settings are the server's own before and after.
abbrev pub Settings : Server → Server → Type 0
Settings s t = (t.method ≡ s.method) × (t.username ≡ s.username) × (t.password ≡ s.password)

-- Closed, with nothing new pending; or in the task `k`, with what lies behind `n` bytes pending.
abbrev pub Outcome : Task → ℕ → View → Server → Server → Type 0
Outcome k n b s t =
    Settings s t
    × (((t.task ≡ disconnected invalid_argument)
          × (t.handshake_pending_buf ≡ s.handshake_pending_buf))
        ⊎ ((t.task ≡ k) × (t.handshake_pending_buf ≡ some (skip n b))))

accept_socks5-Outcome :
    (r : Request) (n : ℕ) (b : View) (s t : Server)
    → accept_socks5 r (skip n b) s ≡ some t
    → Outcome write_handshake_response n b s t
unfolding accept_socks5 with_domain with_endpoint
accept_socks5-Outcome r n b s t h =
    ground (arith, Option-cases (of_domain (domain_name r.atyp_req) (port r)))

-- The buffer holds an auth request with this user name and password.
abbrev pub HasCredentials : View → List ℕ → List ℕ → Type 0
HasCredentials b username password =
    let (st, r, o, next) = parse_auth Auth.request_start create_auth b.mem b.offset b.capacity in
    (o ≡ good) × (r.username ≡ username) × (r.password ≡ password)

module _ (b : View) (s t : Server) where
  pub socks5_request : Request
  socks5_request = (parse request_start create b.mem b.offset b.capacity).1

  pub on_socks5_request-Outcome :
      on_socks5_request b s ≡ some t
      → Outcome write_handshake_response (request_length socks5_request) b s t
  unfolding on_socks5_request advance socks5_request
  on_socks5_request-Outcome h =
      ground (arith, accept_socks5-Outcome socks5_request (request_length socks5_request) b s t)

  pub auth_request : AuthRequest
  auth_request = (parse_auth Auth.request_start create_auth b.mem b.offset b.capacity).1

  pub on_auth_request-Outcome :
      on_auth_request b s ≡ some t
      → Outcome write_auth_response (auth_length auth_request) b s t
        × ((t.task ≡ disconnected invalid_argument) ⊎ HasCredentials b s.username s.password)
  unfolding on_auth_request advance auth_request
  on_auth_request-Outcome h = ground (
    arith,
    str_eq_sound auth_request.username s.username,
    str_eq_sound auth_request.password s.password,
  )

  pub method_request : Mem → MethodRequest
  method_request stale =
      (Method.parse Method.request_start (create_method stale) b.mem b.offset b.capacity).1

  pub on_method_select-Outcome :
      (stale : Mem)
      → on_method_select stale b s ≡ some t
      → Outcome write_method_select_response (method_length (method_request stale)) b s t
  unfolding on_method_select advance method_request
  on_method_select-Outcome stale h = ground arith

-- What a handler does that looks into the pending buffer first.
module _ (again : Server → Option Server) (k : View → Server → Option Server) (s t : Server) where
  abbrev pub emptied : Server
  emptied = record s { handshake_pending_buf = none }

  abbrev pub Took : Received → Type 0
  Took got =
      ((q : View) × (s.handshake_pending_buf ≡ some q) × (k q emptied ≡ some t))
      ⊎ ((v : View) × (got ≡ received v) × (k v emptied ≡ some t))
      ⊎ (again emptied ≡ some t)
      ⊎ ((ec : ErrorCode) × (t ≡ on_disconnect ec emptied))

  pub on_received-Took :
      (got : Received)
      → on_received got (again emptied) (λ r. k r emptied) emptied ≡ some t
      → Took got
  unfolding on_received
  on_received-Took (received v) h = inr (inl (v, refl, h))
  on_received-Took (failed ec) h = elim (Bool-cases (is_retry ec)) [
    | inl r ↦ inr (inr (inl (rw r at h)))
    | inr r ↦ inr (inr (inr (ec, sym (some-injective (rw r at h)))))
  ]

  with_pending-some :
      (got : Received) (q : View)
      → s.handshake_pending_buf ≡ some q
      → with_pending again k got s ≡ (
          if size q == 0
          then on_received got (again emptied) (λ r. k r emptied) emptied
          else k q emptied)
  unfolding with_pending
  with_pending-some got q e =
      ap
        (λ (o : Option View). elim o [
          | none ↦ none
          | some b ↦
              if size b == 0
              then on_received got (again emptied) (λ r. k r emptied) emptied
              else k b emptied
        ])
        e

  with_pending-none :
      (got : Received) → s.handshake_pending_buf ≡ none → with_pending again k got s ≡ none
  unfolding with_pending
  with_pending-none got e =
      ap
        (λ (o : Option View). elim o [
          | none ↦ none
          | some b ↦
              if size b == 0
              then on_received got (again emptied) (λ r. k r emptied) emptied
              else k b emptied
        ])
        e

  pub with_pending-Took : (got : Received) → with_pending again k got s ≡ some t → Took got
  with_pending-Took got h = elim (Option-cases s.handshake_pending_buf) [
    | inl e ↦ absurd (cc (with_pending-none got e, h))
    | inr (q, e) ↦
        let h' = sym (with_pending-some got q e) ∙ h in
        elim (Bool-cases (size q == 0)) [
          | inl z ↦ on_received-Took got (rw z at h')
          | inr z ↦ inl (q, e, rw z at h')
        ]
  ]
