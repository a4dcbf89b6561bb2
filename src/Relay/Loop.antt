-- ===== src/Relay/Loop.antt =====
-- The loop of `WriteUpstreamInPipe` of src/server/server_connection.cpp, round by round.
use yass.Common.{
  All, ℕ, ◌≡◌, refl, sym, ap, ◌∙◌, inl, inr, Bool, false, ◌||◌, Option, none, some, List, [], ◌∷◌,
  ◌++◌, if◌then◌else◌, Bool-cases,
}
use mathlib.Core.List.{append-nil}
use mathlib.Core.Path.{subst}
use yass.Handshake.{ErrorCode, eof, try_again, is_retry}
use yass.Server.{is_empty}
use yass.Relay.{
  write_front, after_loop, then_flush, Relay, Io, Next, buffer, nothing, Round, next_round,
  break_loop, returned, Piped, running, ended, is_try_again, is_failure, read_downlink,
  next_or_read, next_of, get_next_upstream_buf, round_of, round, pipe, write_upstream_in_pipe,
}
use yass.Relay.Transparent.{
  queued, AllFull, IsRelay, IsIo, Kept, RoundKept, write_front-Kept, after_loop-Kept, flush-IsRelay,
  flush-IsAwake,
}

NextKept : Next → Type 0
NextKept Next.check_failed = ⊥
NextKept (buffer b ec t) =
    (bs : List (List ℕ)) × (t.upstream ≡ b ∷ bs) × IsRelay t × (is_failure ec ≡ false)
NextKept (nothing ec t) = IsRelay t × (t.upstream ≡ [])

read_downlink-Kept :
    (io : Io) (t : Relay) → t.upstream ≡ [] → IsRelay t → NextKept (read_downlink io t)
unfolding read_downlink NextKept
read_downlink-Kept io t e v = elim (Bool-cases (is_failure io.read_error)) [
  | inl f ↦ rw f (record { conserved = v.conserved; full = v.full; wired = v.wired }, e)
  | inr g ↦ elim (Bool-cases (is_empty io.read)) [
    | inl z ↦ rw (g, z) (v, e)
    | inr z ↦
        rw (g, z)
          (
            [],
            refl,
            record {
              conserved =
                  ap (λ l. t.sent ++ l) (append-nil io.read)
                  ∙ ap (λ l. l ++ io.read)
                      (sym (append-nil t.sent)
                        ∙ ap (λ l. t.sent ++ queued l) (sym e)
                        ∙ v.conserved);
              full = (z, tt);
              wired = v.wired;
            },
            g,
          )
  ]
]

next_or_read-Kept :
    (io : Io) (t : Relay) (o : Option ErrorCode)
    → t.upstream ≡ []
    → IsRelay t
    → NextKept (next_or_read io t o)
unfolding next_or_read NextKept
next_or_read-Kept io t (some ec) e v = (v, e)
next_or_read-Kept io t none e v = elim (Bool-cases t.closed) [
  | inl c ↦
      subst NextKept (sym (ap (λ x. if x then nothing eof t else read_downlink io t) c)) (v, e)
  | inr c ↦
      subst NextKept (sym (ap (λ x. if x then nothing eof t else read_downlink io t) c))
        (read_downlink-Kept io t e v)
]

next_of-Kept :
    (io : Io) (t : Relay) (bs : List (List ℕ))
    → t.upstream ≡ bs
    → IsRelay t
    → NextKept (next_of io t bs)
unfolding next_of NextKept
next_of-Kept io t [] e v = next_or_read-Kept io t t.pending_upstream_read_error e v
next_of-Kept io t (b ∷ bs) e v =
    let full : is_empty b ≡ false = (subst AllFull e v.full).0 in rw full (bs, e, v, refl)

-- A round with a buffer, by whether the channel is open.
abbrev channel_round : Io → Bool → List ℕ → Relay → Bool → Round
channel_round io again b t x =
    if x then write_front io again b t else break_loop (some try_again) again t

round_of-Kept : (io : Io) (a : Bool) (n : Next) → IsIo io → NextKept n → RoundKept (round_of io a n)
unfolding round_of NextKept
round_of-Kept io a Next.check_failed i k = absurd k
round_of-Kept io a (nothing ec t) i (v, e) = elim (Bool-cases (is_retry ec)) [
  | inl r ↦ rw r (v, inr (inr (inr (inl e))))
  | inr r ↦ rw r (v, inr (inr (inl e)))
]
round_of-Kept io a (buffer b ec t) i (bs, e, v, f) =
    let again = a || is_try_again ec in
    rw f (elim (Bool-cases t.channel_open) [
      | inl c ↦
          subst RoundKept (sym (ap (λ x. channel_round io again b t x) c))
            (write_front-Kept io again b bs t i e v)
      | inr c ↦ subst RoundKept (sym (ap (λ x. channel_round io again b t x) c)) (v, inl refl)
    ])

round_goes_on :
    (ios : List Io) (r : Round)
    → ((a : Bool) (t : Relay) → IsRelay t → Kept (pipe ios a t))
    → RoundKept r
    → Kept (elim r [
      | Round.check_failed ↦ Piped.check_failed
      | next_round again' t' ↦ pipe ios again' t'
      | break_loop ec again' t' ↦ ended (after_loop ec again' t')
      | returned t' ↦ ended t'
    ])
round_goes_on ios Round.check_failed rest k = k
round_goes_on ios (next_round a t) rest k = rest a t k
round_goes_on ios (break_loop ec a t) rest (v, w) = after_loop-Kept ec a t v w
round_goes_on ios (returned t) rest k = k

pipe-Kept : (ios : List Io) (a : Bool) (t : Relay) → All IsIo ios → IsRelay t → Kept (pipe ios a t)
unfolding pipe round get_next_upstream_buf
pipe-Kept [] a t is v = v
pipe-Kept (io ∷ ios) a t (i, is) v =
    round_goes_on ios (round_of io a (next_of io t t.upstream)) (λ a t. pipe-Kept ios a t is)
      (round_of-Kept io a (next_of io t t.upstream) i (next_of-Kept io t t.upstream refl v))

pub write_in_pipe-Kept :
    (ios : List Io) (t : Relay) → All IsIo ios → IsRelay t → Kept (write_upstream_in_pipe ios t)
unfolding write_upstream_in_pipe
write_in_pipe-Kept ios t is v = elim (Bool-cases t.write_waiting) [
  | inl w ↦
      subst Kept (sym (ap (λ x. if x then ended t else pipe ios false t) w)) (v, inr (inr (inr w)))
  | inr w ↦
      subst Kept (sym (ap (λ x. if x then ended t else pipe ios false t) w))
        (pipe-Kept ios false t is v)
]

pub then_flush-Kept : (p : Piped) → Kept p → Kept (then_flush p)
unfolding then_flush
then_flush-Kept Piped.check_failed k = k
then_flush-Kept (running t) k = k
then_flush-Kept (ended t) (v, w) = (flush-IsRelay t v, flush-IsAwake t v)
