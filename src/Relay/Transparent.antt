-- ===== src/Relay/Transparent.antt =====
-- The relay of src/server/server_connection.cpp loses, repeats and reorders nothing, and does not stop
-- with bytes that nothing will send.
use yass.Common.{
  All, ℕ, zero, suc, ◌≡◌, refl, sym, ap, ◌∙◌, ◌⊎◌, inl, inr, arith, Bool, true, false, not, ◌&&◌,
  Option, List, [], ◌∷◌, ◌++◌, take, drop, ◌==◌, Bool-cases,
}
use mathlib.Core.List.{append_assoc}
use mathlib.Core.Path.{subst}
use yass.Handshake.{ErrorCode}
use yass.Server.{is_empty}
use yass.Relay.{
  Relay, Io, Round, next_round, break_loop, returned, Piped, running, ended, is_try_again,
  is_failure, no_buffers, put_back, write_front, on_upstream_write_flush, read_stream, after_loop,
}

abbrev pub queued : List (List ℕ) → List ℕ
queued [] = []
queued (b ∷ bs) = b ++ queued bs

-- No buffer is empty.
abbrev pub AllFull : List (List ℕ) → Type 0
AllFull bs = All (λ b. is_empty b ≡ false) bs

pub record IsRelay (t : Relay) : Type 0 where
  pub conserved : t.sent ++ queued t.upstream ≡ t.received
  pub full : AllFull t.upstream
  pub wired : (t.channel_open ≡ false) ⊎ (t.upstream_writable ≡ true) ⊎ (t.write_waiting ≡ true)

-- The connection or the channel is closed, nothing is queued, or the channel is waited for.
abbrev pub IsAwake : Relay → Type 0
IsAwake t =
    (t.closed ≡ true) ⊎ (t.channel_open ≡ false) ⊎ (t.upstream ≡ []) ⊎ (t.write_waiting ≡ true)

-- `write_some` takes nothing when it is to be tried again.
abbrev pub IsIo : Io → Type 0
IsIo io = is_try_again io.write_error ≡ true → io.written ≡ 0

take-drop : (n : ℕ) (b : List ℕ) → take n b ++ drop n b ≡ b
take-drop zero b = refl
take-drop (suc n) [] = refl
take-drop (suc n) (x ∷ b) = ap (λ l. x ∷ l) (take-drop n b)

put_back-queued : (b : List ℕ) (bs : List (List ℕ)) → queued (put_back b bs) ≡ b ++ queued bs
unfolding put_back
put_back-queued [] bs = refl
put_back-queued (x ∷ b) bs = refl

put_back-full : (b : List ℕ) (bs : List (List ℕ)) → AllFull bs → AllFull (put_back b bs)
unfolding put_back
put_back-full [] bs f = f
put_back-full (x ∷ b) bs f = (refl, f)

-- The front buffer after `n` bytes of it are sent.
abbrev sends : ℕ → List ℕ → Relay → Relay
sends n b t = record t {
  upstream = put_back (drop n b) (drop 1 t.upstream);
  sent = t.sent ++ take n b;
}

sends-IsRelay :
    (n : ℕ) (b : List ℕ) (bs : List (List ℕ)) (t : Relay)
    → t.upstream ≡ b ∷ bs
    → IsRelay t
    → IsRelay (sends n b t)
sends-IsRelay n b bs t e v =
    let tail : drop 1 t.upstream ≡ bs = ap (drop 1) e in
    record {
      conserved =
          ap (λ l. (t.sent ++ take n b) ++ queued (put_back (drop n b) l)) tail
          ∙ ap (λ l. (t.sent ++ take n b) ++ l) (put_back-queued (drop n b) bs)
          ∙ append_assoc t.sent (take n b) (drop n b ++ queued bs)
          ∙ ap (λ l. t.sent ++ l) (sym (append_assoc (take n b) (drop n b) (queued bs)))
          ∙ ap (λ l. t.sent ++ (l ++ queued bs)) (take-drop n b)
          ∙ ap (λ l. t.sent ++ queued l) (sym e)
          ∙ v.conserved;
      full =
          subst (λ l. AllFull (put_back (drop n b) l)) (sym tail)
            (put_back-full (drop n b) bs (subst AllFull e v.full).1);
      wired = v.wired;
    }

pub flush-IsRelay : (t : Relay) → IsRelay t → IsRelay (on_upstream_write_flush t)
unfolding on_upstream_write_flush
flush-IsRelay t v = elim (Bool-cases (not (no_buffers t.upstream) && t.upstream_writable)) [
  | inl y ↦ rw y (record { conserved = v.conserved; full = v.full; wired = inr (inr refl) })
  | inr n ↦ rw n v
]

no_buffers-nil : (bs : List (List ℕ)) → no_buffers bs ≡ true → bs ≡ []
no_buffers-nil [] e = refl
no_buffers-nil (b ∷ bs) e = absurd (cc e)

pub flush-IsAwake : (t : Relay) → IsRelay t → IsAwake (on_upstream_write_flush t)
unfolding on_upstream_write_flush
flush-IsAwake t v = elim (Bool-cases (not (no_buffers t.upstream) && t.upstream_writable)) [
  | inl y ↦ rw y (inr (inr (inr refl)))
  | inr n ↦ rw n (elim (Bool-cases (no_buffers t.upstream)) [
    | inl z ↦ inr (inr (inl (no_buffers-nil t.upstream z)))
    | inr z ↦ elim v.wired [
      | inl c ↦ inr (inl c)
      | inr (inl w) ↦ absurd (cc (rw (z, w) at n))
      | inr (inr w) ↦ inr (inr (inr w))
    ]
  ])
]

-- The relay is well-formed, and awake unless the loop goes on.
abbrev pub Kept : Piped → Type 0
Kept Piped.check_failed = ⊥
Kept (running t) = IsRelay t
Kept (ended t) = IsRelay t × IsAwake t

read_stream-IsRelay : (a : Bool) (t : Relay) → IsRelay t → IsRelay (read_stream a t)
unfolding read_stream
read_stream-IsRelay a t v = elim (Bool-cases (a && not t.closed)) [
  | inl y ↦ rw y (record { conserved = v.conserved; full = v.full; wired = v.wired })
  | inr n ↦ rw n v
]

read_stream-IsAwake : (a : Bool) (t : Relay) → IsAwake t → IsAwake (read_stream a t)
unfolding read_stream
read_stream-IsAwake a t w = elim (Bool-cases (a && not t.closed)) [
  | inl y ↦ rw y w
  | inr n ↦ rw n w
]

-- A loop that breaks has an error to try again, or is awake.
pub after_loop-Kept :
    (ec : Option ErrorCode) (a : Bool) (t : Relay)
    → IsRelay t
    → (is_try_again ec ≡ true) ⊎ IsAwake t
    → Kept (ended (after_loop ec a t))
unfolding after_loop
after_loop-Kept ec a t v h =
    let v' = read_stream-IsRelay a t v in
    elim (Bool-cases (is_try_again ec)) [
      | inl y ↦ rw y (flush-IsRelay (read_stream a t) v', flush-IsAwake (read_stream a t) v')
      | inr n ↦ rw n (v', elim h [ inl y ↦ absurd (cc (y, n)) | inr w ↦ read_stream-IsAwake a t w ])
    ]

-- What a round hands on.
abbrev pub RoundKept : Round → Type 0
RoundKept Round.check_failed = ⊥
RoundKept (next_round a t) = IsRelay t
RoundKept (break_loop ec a t) = IsRelay t × ((is_try_again ec ≡ true) ⊎ IsAwake t)
RoundKept (returned t) = IsRelay t × IsAwake t

pub write_front-Kept :
    (io : Io) (a : Bool) (b : List ℕ) (bs : List (List ℕ)) (t : Relay)
    → IsIo io
    → t.upstream ≡ b ∷ bs
    → IsRelay t
    → RoundKept (write_front io a b t)
unfolding write_front
write_front-Kept io a b bs t none_taken e v =
    let v' = sends-IsRelay io.written b bs t e v in
    elim (Bool-cases (is_try_again io.write_error)) [
      | inl y ↦
          let zero_taken : (io.written == 0) ≡ true = ground (arith, none_taken y) in
          rw (y, zero_taken) (v, inl y)
      | inr n ↦ elim (Bool-cases (is_failure io.write_error)) [
        | inl f ↦
            rw (n, f)
              (record { conserved = v'.conserved; full = v'.full; wired = v'.wired }, inl refl)
        | inr g ↦ elim (Bool-cases (is_empty (drop io.written b))) [
          | inr l ↦ rw (n, g, l) (v', inl refl)
          | inl l ↦ elim (Bool-cases io.yields) [
            | inr k ↦ rw (n, g, l, k) v'
            | inl k ↦ elim (Bool-cases (no_buffers (sends io.written b t).upstream)) [
              | inl z ↦ rw (n, g, l, k, z) (v', inr (inr (inr (inl (no_buffers-nil _ z)))))
              | inr z ↦ rw (n, g, l, k, z) (v', inl refl)
            ]
          ]
        ]
      ]
    ]
