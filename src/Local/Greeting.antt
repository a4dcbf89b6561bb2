-- ===== src/Local/Greeting.antt =====
-- `ReadMethodSelect` of src/cli/cli_connection.cpp on a SOCKS5 method selection.
use yass.Common.{
  ℕ, ◌+◌, ◌≤◌, ◌≡◌, refl, sym, ap, ◌∙◌, inl, inr, arith, true, false, Option, some, none, List, [],
  ◌∷◌, Mem, slice, length, length-append, length-slice, ◌++◌,
}
use yass.Address.{good}
use yass.Handshake.{View, contains, received, ErrorCode}
use yass.Handshake.Views.{Begins, skip, advance-skip, Begins-byte, Begins-first, Begins-slice}
use yass.Server.{create_method, no_auth_required}
use yass.Socks5.Method.{parse-cases, method_length, offered}
use yass.Socks5.Method
use yass.Local.{Local, state_method_select, Unset, emit, write_method_select}
use yass.Local.Reads.{on_read_socks5_method_select, HttpRequest, then_try}
use yass.Local.Replies.{method_select_read}
use yass.Local.Steps.{step-handle}
use yass.Local.Handlers.{step, handle, on_method_select_read, done, process_received}

-- A method selection that offers `methods`.
abbrev pub selection : List ℕ → List ℕ
selection methods = 5 ∷ length methods ∷ (methods ++ [])

method_length-offered : (r : Method.MethodRequest) → method_length r ≡ 2 + length (offered r)
unfolding method_length
method_length-offered r = ap (λ n. 2 + n) (sym (length-slice r.methods 0 r.nmethods))

module _ (http : View → Option HttpRequest) (make_address : List ℕ → Option (List ℕ))
    (init : Option ErrorCode) where
  read_method_select-good :
      (stale : Mem) (b : View) (l : Local) (n : ℕ) {methods : List ℕ}
      → (Method.parse Method.request_start (create_method stale) b.mem b.offset b.capacity).2 ≡ good
      → offered
          (Method.parse Method.request_start (create_method stale) b.mem b.offset b.capacity).1
        ≡ methods
      → method_length
          (Method.parse Method.request_start (create_method stale) b.mem b.offset b.capacity).1
        ≡ n
      → b.offset + n ≤ b.capacity
      → contains no_auth_required methods ≡ true
      → on_read_socks5_method_select stale b l
        ≡ some (record l { state = state_method_select }, skip n b, none)
  unfolding on_read_socks5_method_select
  read_method_select-good stale b l n g o m room c = rw (g, o, m, advance-skip n b room, c)

  selection_read :
      (stale : Mem) (b : View) (l : Local) (methods : List ℕ)
      → Begins (selection methods) b
      → contains no_auth_required methods ≡ true
      → on_read_socks5_method_select stale b l
        ≡ some (record l { state = state_method_select }, skip (2 + length methods) b, none)
  selection_read stale b l methods h c =
      let room : b.offset + (2 + length methods) ≤ b.capacity =
        omega (arith, h.room, length-append {0} methods []) in
      let count : b.mem (b.offset + 1) ≡ length methods = Begins-byte h 1 (omega arith) in
      let held : slice b.mem (b.offset + 2) (length methods) ≡ methods =
        Begins-slice (5 ∷ length methods ∷ []) methods [] h (omega arith) refl in
      elim (parse-cases (create_method stale) b.mem b.offset b.capacity (omega arith)) [
        | inl (o, next, short) ↦ absurd (omega (arith, count))
        | inr (inl (o, next, bad)) ↦ absurd (bad (Begins-first h))
        | inr (inr (o, v, next, inside, sent)) ↦
            read_method_select-good stale b l (2 + length methods) o
              (sent ∙ ap (slice b.mem (b.offset + 2)) count ∙ held)
              (method_length-offered _
                ∙ ap (λ ms. 2 + length ms) (sent ∙ ap (slice b.mem (b.offset + 2)) count ∙ held))
              room c
      ]

  -- On an open connection, a method selection that offers to go without authentication is answered with that method, whatever
  -- the parser of HTTP requests makes of it. The connection is the same whatever stood behind the
  -- selection in the buffer: bytes that came with it are dropped.
  pub greeting_answered :
      (stale : Mem) (u : Unset) (methods : List ℕ) (b : View) (l : Local)
      → l.closed ≡ false
      → Begins (selection methods) b
      → contains no_auth_required methods ≡ true
      → step http make_address init (method_select_read stale u (received b)) l
        ≡ some (emit (write_method_select (5 ∷ 0 ∷ [])) (record l { state = state_method_select }))
  unfolding handle on_method_select_read then_try done process_received
  greeting_answered stale u methods b l alive h c =
      step-handle http make_address init (method_select_read stale u (received b)) l alive
      ∙ rw (selection_read stale b l methods h c) refl
