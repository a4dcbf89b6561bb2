-- ===== src/Relay/Calls.antt =====
-- The relay of src/server/server_connection.cpp through any sequence of calls.
use yass.Common.{
  All, ℕ, ◌≡◌, refl, sym, ap, ◌∙◌, inl, inr, true, false, List, [], ◌∷◌, ◌++◌, Bool-cases,
}
use mathlib.Core.List.{append_assoc, append-nil}
use yass.Server.{is_empty}
use yass.Relay.{
  Relay, Piped, running, ended, on_upstream_write, connected, sent, Call, connects, writable,
  readable, pushes, call, calls,
}
use yass.Relay.Transparent.{
  queued, AllFull, IsRelay, IsAwake, IsIo, Kept, flush-IsRelay, flush-IsAwake,
}
use yass.Relay.Loop.{write_in_pipe-Kept, then_flush-Kept}

-- The sockets of a call are as `IsIo` says.
abbrev pub IsCall : Call → Type 0
IsCall (connects ios) = All IsIo ios
IsCall (writable ios) = All IsIo ios
IsCall (readable ios) = All IsIo ios
IsCall (pushes bytes) = Unit

queued-snoc : (bs : List (List ℕ)) (b : List ℕ) → queued (bs ++ (b ∷ [])) ≡ queued bs ++ b
queued-snoc [] b = append-nil b
queued-snoc (x ∷ bs) b = ap (λ l. x ++ l) (queued-snoc bs b) ∙ sym (append_assoc x (queued bs) b)

full-snoc :
    (bs : List (List ℕ)) (b : List ℕ) → AllFull bs → is_empty b ≡ false → AllFull (bs ++ (b ∷ []))
full-snoc [] b f e = (e, tt)
full-snoc (x ∷ bs) b (y, f) e = (y, full-snoc bs b f e)

push-Kept : (bytes : List ℕ) (t : Relay) → IsRelay t → Kept (ended (on_upstream_write bytes t))
unfolding on_upstream_write
push-Kept bytes t v = elim (Bool-cases (is_empty bytes)) [
  | inl z ↦ rw z (flush-IsRelay t v, flush-IsAwake t v)
  | inr z ↦
      let t' : Relay = record t {
        upstream = t.upstream ++ (bytes ∷ []);
        received = t.received ++ bytes;
      } in
      let v' : IsRelay t' = record {
        conserved =
            ap (λ l. t.sent ++ l) (queued-snoc t.upstream bytes)
            ∙ sym (append_assoc t.sent (queued t.upstream) bytes)
            ∙ ap (λ l. l ++ bytes) v.conserved;
        full = full-snoc t.upstream bytes v.full z;
        wired = v.wired;
      } in
      rw z (flush-IsRelay t' v', flush-IsAwake t' v')
]

call-Kept : (c : Call) (t : Relay) → IsCall c → IsRelay t → Kept (call c t)
unfolding call connected sent
call-Kept (connects ios) t i v = then_flush-Kept _ (
    write_in_pipe-Kept ios (record t { channel_open = true; upstream_writable = true }) i
      (record { conserved = v.conserved; full = v.full; wired = inr (inl refl) }))
call-Kept (writable ios) t i v = then_flush-Kept _ (
    write_in_pipe-Kept ios (record t { write_waiting = false; upstream_writable = true }) i
      (record { conserved = v.conserved; full = v.full; wired = inr (inl refl) }))
call-Kept (readable ios) t i v = then_flush-Kept _ (
    write_in_pipe-Kept ios (record t { downstream_read_inprogress = false }) i
      (record { conserved = v.conserved; full = v.full; wired = v.wired }))
call-Kept (pushes bytes) t i v = push-Kept bytes t v

calls_go_on :
    (cs : List Call) (p : Piped)
    → ((t : Relay) → IsRelay t → IsAwake t → Kept (calls cs t))
    → Kept p
    → Kept (elim p [
      | Piped.check_failed ↦ Piped.check_failed
      | running t' ↦ running t'
      | ended t' ↦ calls cs t'
    ])
calls_go_on cs Piped.check_failed rest k = k
calls_go_on cs (running t') rest k = k
calls_go_on cs (ended t') rest (v, w) = rest t' v w

-- However a relay that is well-formed and awake is called, and whatever the sockets give and take, as
-- long as a write that is to be tried again takes nothing: no check fails; the bytes that the channel has
-- taken, and behind them the bytes in the queue, are exactly those that were received, in their order; no
-- buffer in the queue is empty; and when a call has ended the relay is awake: with the connection open,
-- bytes in the queue and an open channel, the channel is waited for.
pub relay_transparent :
    (cs : List Call) (t : Relay) → All IsCall cs → IsRelay t → IsAwake t → Kept (calls cs t)
unfolding calls
relay_transparent [] t is v w = (v, w)
relay_transparent (c ∷ cs) t (i, is) v w =
    calls_go_on cs (call c t) (λ t. relay_transparent cs t is) (call-Kept c t i v)
