-- ===== src/Server/Gated.antt =====
-- A server of src/server/server_connection.cpp with a user name and a password relays for a SOCKS5
-- client only once it has read them from it.
use yass.Common.{
  some-injective, ℕ, ◌≡◌, refl, sym, ap, ◌∙◌, ◌⊎◌, inl, inr, true, Option, none, some, List, ◌++◌,
  ◌==◌, Mem, length, take, Bool-cases, Option-cases,
}
use mathlib.Core.Path.{subst}
use yass.Handshake.{
  ErrorCode, invalid_argument, connection_refused, is_retry, View, is_socks5_method, Received,
  failed, received, auth_required,
}
use yass.Server.{
  Server, Task, read_handshake_via_socks, read_username_password_auth, read_handshake_via_socks5,
  write_method_select_response, write_auth_response, write_handshake_response, cancelled, relay,
  disconnected, on_disconnect, on_socks5_request, on_auth_request, on_received, start_auth,
  start_socks5, send, Written, process_received, Event, readable, writable, wait_error,
  on_read_handshake_via_socks, on_read_username_password_auth, on_read_handshake_via_socks5,
}
use yass.Server.Pending.{
  not_socks4, start_auth-pending, start_socks5-pending, process_received-pending,
  start_auth-missing, start_socks5-missing, process_received-missing,
}
use yass.Server.Gate.{
  Settings, Outcome, HasCredentials, on_socks5_request-Outcome, on_auth_request-Outcome,
  on_method_select-Outcome, with_pending-Took,
}

abbrev moved : Server → Server
moved s = record s { handshake_pending_buf = none }

received-injective : {a b : View} → received a ≡ received b → a ≡ b
received-injective h = cc

-- `Seen` tells the buffers that were received, by their memory and their end.
module _ (Seen : Mem → ℕ → Type 0) (username password : List ℕ) where
  abbrev pub Granted : Type 0
  Granted = (b : View) × Seen b.mem b.capacity × HasCredentials b username password

  -- The tasks behind the check of the credentials.
  abbrev pub Due : Task → Type 0
  Due read_handshake_via_socks = Unit
  Due write_method_select_response = Unit
  Due read_username_password_auth = Unit
  Due write_auth_response = Granted
  Due read_handshake_via_socks5 = Granted
  Due write_handshake_response = Granted
  Due cancelled = Unit
  Due (relay b) = Granted
  Due (disconnected ec) = Unit

  pub record IsGated (s : Server) : Type 0 where
    pub method_is : is_socks5_method s.method ≡ true
    pub required : auth_required s.username s.password ≡ true
    pub user : s.username ≡ username
    pub secret : s.password ≡ password
    pub pending_seen : (q : View) → s.handshake_pending_buf ≡ some q → Seen q.mem q.capacity
    pub due : Due s.task

  -- The same but for the task, and what is pending.
  pub keep :
      {s t : Server}
      → IsGated s
      → Settings s t
      → ((q : View) → t.handshake_pending_buf ≡ some q → Seen q.mem q.capacity)
      → Due t.task
      → IsGated t
  keep {s} {t} g (m, u, p) seen due = record {
    method_is = ap is_socks5_method m ∙ g.method_is;
    required =
        ap (λ a. auth_required a t.password) u ∙ ap (auth_required s.username) p ∙ g.required;
    user = u ∙ g.user;
    secret = p ∙ g.secret;
    pending_seen = seen;
    due = due;
  }

  outcome-IsGated :
      (k : Task) (n : ℕ) (b : View) (s t : Server)
      → Outcome k n b s t
      → IsGated s
      → Seen b.mem b.capacity
      → (t.task ≡ k → Due k)
      → IsGated t
  outcome-IsGated k n b s t (st, inl (e, f)) g seen due =
      keep g st (λ q h. g.pending_seen q (sym f ∙ h)) (subst Due (sym e) tt)
  outcome-IsGated k n b s t (st, inr (e, f)) g seen due =
      keep g st
        (λ q h. subst (λ (v : View). Seen v.mem v.capacity) (some-injective (sym f ∙ h)) seen)
        (subst Due (sym e) (due e))

  pub lost-IsGated : (ec : ErrorCode) (s : Server) → IsGated s → IsGated (on_disconnect ec s)
  lost-IsGated ec s g = keep g (refl, refl, refl) g.pending_seen tt

  emptied-IsGated : (s : Server) → IsGated s → Due s.task → IsGated (moved s)
  emptied-IsGated s g due = keep g (refl, refl, refl) (λ q h. cc) due

  abbrev pub EventSeen : Event → Type 0
  EventSeen (readable stale (received v)) = Seen v.mem v.capacity
  EventSeen (readable stale (failed ec)) = Unit
  EventSeen (writable a b h l w) = Unit
  EventSeen (wait_error ec) = Unit

  pub socks-IsGated :
      (stale : Mem) (got : Received) (s t : Server)
      → IsGated s
      → EventSeen (readable stale got)
      → on_read_handshake_via_socks stale got s ≡ some t
      → IsGated t
  unfolding on_read_handshake_via_socks on_received
  socks-IsGated stale (received v) s t g seen h =
      outcome-IsGated write_method_select_response _ v s t
        (on_method_select-Outcome v s t stale
          (rw (not_socks4 s.method g.method_is, g.method_is) at h))
        g seen (λ e. tt)
  socks-IsGated stale (failed ec) s t g seen h = elim (Bool-cases (is_retry ec)) [
    | inl r ↦
        subst IsGated (some-injective (rw r at h)) (keep g (refl, refl, refl) g.pending_seen tt)
    | inr r ↦ subst IsGated (some-injective (rw r at h)) (lost-IsGated ec s g)
  ]

  -- What the handler of the credentials leaves.
  checked-IsGated :
      (b : View) (s t : Server)
      → IsGated s
      → Seen b.mem b.capacity
      → on_auth_request b s ≡ some t
      → IsGated t
  checked-IsGated b s t g seen h =
      let (o, c) = on_auth_request-Outcome b s t h in
      outcome-IsGated write_auth_response _ b s t o g seen (λ e. granted e c)
    where
      granted :
          t.task ≡ write_auth_response
          → (t.task ≡ disconnected invalid_argument) ⊎ HasCredentials b s.username s.password
          → Granted
      granted e (inl lost) = absurd (cc (e, lost))
      granted e (inr c) = (b, seen, (c.0, c.1 ∙ g.user, c.2 ∙ g.secret))

  seen_of_got :
      (stale : Mem) (got : Received) (v : View)
      → EventSeen (readable stale got)
      → got ≡ received v
      → Seen v.mem v.capacity
  seen_of_got stale (received w) v seen e =
      subst (λ (x : View). Seen x.mem x.capacity) (received-injective e) seen
  seen_of_got stale (failed ec) v seen e = absurd (cc e)

  pub auth-IsGated :
      (stale : Mem) (got : Received) (s t : Server)
      → IsGated s
      → Due s.task
      → EventSeen (readable stale got)
      → on_read_username_password_auth got s ≡ some t
      → IsGated t
  unfolding on_read_username_password_auth start_auth
  auth-IsGated stale got s t g due seen h =
      elim (with_pending-Took start_auth on_auth_request s t got h) [
        | inl (q, e, k) ↦
            checked-IsGated q (moved s) t (emptied-IsGated s g due) (g.pending_seen q e) k
        | inr (inl (v, e, k)) ↦
            checked-IsGated v (moved s) t (emptied-IsGated s g due) (seen_of_got stale got v seen e)
              k
        | inr (inr (inl none_pending)) ↦ absurd (cc none_pending)
        | inr (inr (inr (ec, e))) ↦
            subst IsGated (sym e) (lost-IsGated ec (moved s) (emptied-IsGated s g due))
      ]

  pub request-IsGated :
      (stale : Mem) (got : Received) (s t : Server)
      → IsGated s
      → Due s.task
      → Granted
      → EventSeen (readable stale got)
      → on_read_handshake_via_socks5 got s ≡ some t
      → IsGated t
  unfolding on_read_handshake_via_socks5
  request-IsGated stale got s t g due granted seen h =
      let again = λ (x : Server). some (record x { task = read_handshake_via_socks }) in
      elim (with_pending-Took again on_socks5_request s t got h) [
        | inl (q, e, k) ↦
            outcome-IsGated write_handshake_response _ q (moved s) t
              (on_socks5_request-Outcome q (moved s) t k) (emptied-IsGated s g due)
              (g.pending_seen q e) (λ e. granted)
        | inr (inl (v, e, k)) ↦
            outcome-IsGated write_handshake_response _ v (moved s) t
              (on_socks5_request-Outcome v (moved s) t k) (emptied-IsGated s g due)
              (seen_of_got stale got v seen e) (λ e. granted)
        | inr (inr (inl start)) ↦
            subst IsGated (some-injective start)
              (keep (emptied-IsGated s g due) (refl, refl, refl) (λ q h. cc) tt)
        | inr (inr (inr (ec, e))) ↦
            subst IsGated (sym e) (lost-IsGated ec (moved s) (emptied-IsGated s g due))
      ]

  pub send-IsGated :
      (bytes : List ℕ) (w : Written) (k : Server → Option Server) (s t : Server)
      → IsGated s
      → send bytes w k s ≡ some t
      → ((s' : Server) → IsGated s' → s'.task ≡ s.task → k s' ≡ some t → IsGated t)
      → IsGated t
  unfolding send
  send-IsGated bytes w k s t g h next =
      let s' : Server = record s { written = s.written ++ take w.count bytes } in
      let g' : IsGated s' = keep g (refl, refl, refl) g.pending_seen g.due in
      elim (Option-cases w.error) [
        | inl e ↦ elim (Bool-cases (w.count == length bytes)) [
          | inl all ↦ next s' g' refl (rw (e, all) at h)
          | inr part ↦
              subst IsGated (some-injective (rw (e, part) at h))
                (lost-IsGated connection_refused s' g')
        ]
        | inr (ec, e) ↦
            subst IsGated (some-injective (rw e at h)) (lost-IsGated connection_refused s' g')
      ]

  -- The pending buffer is looked into, and stays.
  pub start_auth-IsGated : (s t : Server) → IsGated s → start_auth s ≡ some t → IsGated t
  start_auth-IsGated s t g h = elim (Option-cases s.handshake_pending_buf) [
    | inl e ↦ absurd (cc (start_auth-missing s e, h))
    | inr (q, e) ↦
        subst IsGated (some-injective (sym (start_auth-pending s e) ∙ h))
          (keep g (refl, refl, refl) g.pending_seen tt)
  ]

  pub start_socks5-IsGated :
      (s t : Server) → IsGated s → Granted → start_socks5 s ≡ some t → IsGated t
  start_socks5-IsGated s t g granted h = elim (Option-cases s.handshake_pending_buf) [
    | inl e ↦ absurd (cc (start_socks5-missing s e, h))
    | inr (q, e) ↦
        subst IsGated (some-injective (sym (start_socks5-pending s e) ∙ h))
          (keep g (refl, refl, refl) g.pending_seen granted)
  ]

  pub process_received-IsGated :
      (s t : Server) → IsGated s → Granted → process_received s ≡ some t → IsGated t
  process_received-IsGated s t g granted h = elim (Option-cases s.handshake_pending_buf) [
    | inl e ↦ absurd (cc (process_received-missing s e, h))
    | inr (q, e) ↦
        subst IsGated (some-injective (sym (process_received-pending s e) ∙ h))
          (keep g (refl, refl, refl) (λ q h. cc) granted)
  ]
