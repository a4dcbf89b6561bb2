-- ===== src/Server/Relay.antt =====
-- The runs of the SOCKS handshake of src/server/server_connection.cpp over any sequence of events, and
-- what has been received where one of them ends in relaying.
use yass.Common.{
  some-injective, ℕ, ◌≡◌, refl, sym, ◌∙◌, inl, inr, true, Option, none, some, List, [], ◌∷◌, ◌>>=◌,
  Mem, Bool-cases, Option-cases, All, if◌then◌else◌,
}
use mathlib.Core.List.{Memᴰ}
use mathlib.Core.Path.{subst}
use yass.Handshake.{
  ErrorCode, is_cancelled, View, is_socks5_method, failed, received, auth_required,
}
use yass.Server.{
  Server, Task, read_handshake_via_socks, read_username_password_auth, read_handshake_via_socks5,
  write_method_select_response, write_auth_response, write_handshake_response, cancelled, relay,
  disconnected, on_disconnect, start_socks5, process_received, Event, readable, writable,
  wait_error, step, dispatch, write_method_select, write_auth, write_handshake, wanted_method,
  method_select_response, auth_response, handshake_reply,
}
use yass.Server.Gate.{HasCredentials}
use yass.Server.Gated.{
  Due, IsGated, keep, EventSeen, lost-IsGated, socks-IsGated, auth-IsGated, request-IsGated,
  send-IsGated, start_auth-IsGated, start_socks5-IsGated, process_received-IsGated,
}

unfoldable pub run : List Event → Server → Option Server
run [] s = some s
run (e ∷ es) s = step e s >>= run es

module _ (Seen : Mem → ℕ → Type 0) (username password : List ℕ) where
  abbrev Gated : Server → Type 0
  Gated = IsGated Seen username password

  -- Waiting for the socket failed.
  failed-IsGated :
      (ec : ErrorCode) (s t : Server)
      → Gated s
      → (if is_cancelled ec
          then some (record s { task = cancelled })
          else some (on_disconnect ec s))
        ≡ some t
      → Gated t
  failed-IsGated ec s t g h = elim (Bool-cases (is_cancelled ec)) [
    | inl c ↦
        subst Gated (some-injective (rw c at h))
          (keep Seen username password g (refl, refl, refl) g.pending_seen tt)
    | inr c ↦ subst Gated (some-injective (rw c at h)) (lost-IsGated Seen username password ec s g)
  ]

  stays : (s t : Server) → Gated s → some s ≡ some t → Gated t
  stays s t g h = subst Gated (some-injective h) g

  dispatch-IsGated :
      (k : Task) (e : Event) (s t : Server)
      → Gated s
      → s.task ≡ k
      → EventSeen Seen username password e
      → dispatch k e s ≡ some t
      → Gated t
  unfolding dispatch write_method_select write_auth write_handshake
  dispatch-IsGated read_handshake_via_socks (readable stale got) s t g r seen h =
      socks-IsGated Seen username password stale got s t g seen h
  dispatch-IsGated read_handshake_via_socks (writable a b c d w) s t g r seen h = stays s t g h
  dispatch-IsGated read_handshake_via_socks (wait_error ec) s t g r seen h =
      failed-IsGated ec s t g h
  dispatch-IsGated read_username_password_auth (readable stale got) s t g r seen h =
      auth-IsGated Seen username password stale got s t g g.due seen h
  dispatch-IsGated read_username_password_auth (writable a b c d w) s t g r seen h = stays s t g h
  dispatch-IsGated read_username_password_auth (wait_error ec) s t g r seen h =
      failed-IsGated ec s t g h
  dispatch-IsGated read_handshake_via_socks5 (readable stale got) s t g r seen h =
      request-IsGated Seen username password stale got s t g g.due
        (subst (Due Seen username password) r g.due) seen h
  dispatch-IsGated read_handshake_via_socks5 (writable a b c d w) s t g r seen h = stays s t g h
  dispatch-IsGated read_handshake_via_socks5 (wait_error ec) s t g r seen h =
      failed-IsGated ec s t g h
  dispatch-IsGated write_method_select_response (writable a b c d w) s t g r seen h =
      send-IsGated Seen username password (method_select_response (wanted_method s)) w _ s t g h
        (λ s' g' same k. start_auth-IsGated Seen username password s' t g' (rw g'.required at k))
  dispatch-IsGated write_method_select_response (readable stale got) s t g r seen h = stays s t g h
  dispatch-IsGated write_method_select_response (wait_error ec) s t g r seen h =
      failed-IsGated ec s t g h
  dispatch-IsGated write_auth_response (writable a b c d w) s t g r seen h =
      send-IsGated Seen username password auth_response w start_socks5 s t g h (λ s' g' same k.
        start_socks5-IsGated Seen username password s' t g'
          (subst (Due Seen username password) (same ∙ r) g'.due) k)
  dispatch-IsGated write_auth_response (readable stale got) s t g r seen h = stays s t g h
  dispatch-IsGated write_auth_response (wait_error ec) s t g r seen h = failed-IsGated ec s t g h
  dispatch-IsGated write_handshake_response (writable a b c d w) s t g r seen h =
      send-IsGated Seen username password (handshake_reply a b c d s) w process_received s t g h
        (λ s' g' same k.
          process_received-IsGated Seen username password s' t g'
            (subst (Due Seen username password) (same ∙ r) g'.due) k)
  dispatch-IsGated write_handshake_response (readable stale got) s t g r seen h = stays s t g h
  dispatch-IsGated write_handshake_response (wait_error ec) s t g r seen h =
      failed-IsGated ec s t g h
  dispatch-IsGated cancelled e s t g r seen h = stays s t g h
  dispatch-IsGated (relay b) e s t g r seen h = stays s t g h
  dispatch-IsGated (disconnected ec) e s t g r seen h = stays s t g h

  run-IsGated :
      (es : List Event) (s t : Server)
      → Gated s
      → All (EventSeen Seen username password) es
      → run es s ≡ some t
      → Gated t
  unfolding run step
  run-IsGated [] s t g seen h = stays s t g h
  run-IsGated (e ∷ es) s t g seen h = elim (Option-cases (dispatch s.task e s)) [
    | inl stop ↦ absurd (cc (rw stop at h))
    | inr (s', next) ↦
        run-IsGated es s' t (dispatch-IsGated s.task e s s' g refl seen.0 next) seen.1
          (rw next at h)
  ]

-- One of the events brought a buffer of this memory and this end.
abbrev pub ReceivedIn : List Event → Mem → ℕ → Type 0
ReceivedIn es mem capacity =
    (stale : Mem) × (v : View) × Memᴰ (readable stale (received v)) es
    × (v.mem ≡ mem)
    × (v.capacity ≡ capacity)

event_seen :
    (username password : List ℕ) (es : List Event) (e : Event)
    → Memᴰ e es
    → EventSeen (ReceivedIn es) username password e
event_seen u p es (readable stale (received v)) m = (stale, v, m, refl, refl)
event_seen u p es (readable stale (failed ec)) m = tt
event_seen u p es (writable a b c d w) m = tt
event_seen u p es (wait_error ec) m = tt

all_seen :
    (username password : List ℕ) (es sub : List Event)
    → ((e : Event) → Memᴰ e sub → Memᴰ e es)
    → All (EventSeen (ReceivedIn es) username password) sub
all_seen u p es [] i = tt
all_seen u p es (e ∷ sub) i =
    (event_seen u p es e (i e (Memᴰ.head refl)), all_seen u p es sub (λ x m. i x (Memᴰ.tail m)))

-- A server that has a user name and a password, and begins with nothing pending, relays for a SOCKS5
-- client only once it has received these: whatever the events are, there is a place in a buffer that
-- one of them brought where the parser of auth requests finds exactly the server's user name and
-- password.
pub relay_needs_auth :
    (es : List Event) (s t : Server) (b : View)
    → is_socks5_method s.method ≡ true
    → auth_required s.username s.password ≡ true
    → s.task ≡ read_handshake_via_socks
    → s.handshake_pending_buf ≡ none
    → run es s ≡ some t
    → t.task ≡ relay b
    → (v : View) × ReceivedIn es v.mem v.capacity × HasCredentials v s.username s.password
relay_needs_auth es s t b five auth start idle h done =
    let g : IsGated (ReceivedIn es) s.username s.password s = record {
      method_is = five;
      required = auth;
      user = refl;
      secret = refl;
      pending_seen = λ q e. absurd (cc (idle, e));
      due = subst (Due (ReceivedIn es) s.username s.password) (sym start) tt;
    } in
    let g' =
      run-IsGated (ReceivedIn es) s.username s.password es s t g
        (all_seen s.username s.password es es (λ e m. m)) h in
    subst (Due (ReceivedIn es) s.username s.password) done g'.due
