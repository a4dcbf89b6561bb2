-- ===== src/Upstream/Writes.antt =====
-- What the channel does with the queue `upstream_` of src/cli/cli_connection.cpp: a round of
-- `WriteUpstreamInPipe`.
use mathlib.Core.List.{append_assoc}
use yass.Common.{
  take-append-drop, ◌∙◌, ◌≤◌, ◌==◌, ◌&&◌, ◌||◌, not, leb, ltb, length, Bool, Option, ℕ, ◌≡◌, refl,
  sym, ap, ◌⊎◌, inl, inr, arith, true, false, none, some, List, [], ◌∷◌, ◌++◌, if◌then◌else◌, take,
  drop, Bool-cases, List-cases,
}
use yass.Handshake.{ErrorCode}
use yass.Upstream.{
  Client, is_empty, next_upstream_buf, Write, blocked, takes, is_again, disconnect_on,
  write_to_channel, write_some,
}
use yass.Upstream.Queue.{
  IsWaiting, IsQueue, IsValid, to_come, head_or, behind_front, empty_front, next-empty, next-full,
  next-none,
}

-- The client after the channel took `n` bytes of the front `b`.
unfoldable pub wrote : ℕ → List ℕ → List (List ℕ) → Client → Client
wrote n b rest c = record c {
  sent = c.sent ++ take n b;
  upstream = if is_empty (drop n b) then rest else drop n b ∷ rest;
}

pub write_some-waits :
    (w : Write) (c : Client) → next_upstream_buf c ≡ some none → write_some w c ≡ some c
unfolding write_some
write_some-waits blocked c e = rw e
write_some-waits (takes ec n) c e = rw e

pub write_to_channel-wrote :
    (ec : Option ErrorCode) (n : ℕ) (c : Client) (b : List ℕ) (rest : List (List ℕ))
    → c.upstream ≡ b ∷ rest
    → n ≤ length b
    → is_again ec ≡ false
    → write_to_channel ec n b c ≡ some (disconnect_on ec (wrote n b rest c))
unfolding write_to_channel wrote
write_to_channel-wrote ec n c b rest e h g =
    let fits : ltb (length b) n ≡ false = ground arith in
    elim (Bool-cases (is_empty (drop n b))) [
      | inl d ↦
          rw (fits, g, d)
            (ap
              (λ (l : List (List ℕ)).
                some
                  (disconnect_on ec (record c { sent = c.sent ++ take n b; upstream = drop 1 l })))
              e)
      | inr d ↦
          rw (fits, g, d)
            (ap
              (λ (l : List (List ℕ)). some (
                disconnect_on ec
                  (record c { sent = c.sent ++ take n b; upstream = drop n b ∷ drop 1 l })))
              e)
    ]

write_to_channel-again :
    (ec : Option ErrorCode) (n : ℕ) (c : Client) (b : List ℕ)
    → n ≡ 0
    → is_again ec ≡ true
    → write_to_channel ec n b c ≡ some c
unfolding write_to_channel
write_to_channel-again ec n c b z g =
    let fits : ltb (length b) n ≡ false = ground arith in
    let none_taken : (n == 0) ≡ true = ground arith in rw (fits, g, none_taken)

write_some-front :
    (ec : Option ErrorCode) (n : ℕ) (c : Client) (b : List ℕ)
    → next_upstream_buf c ≡ some (some b)
    → write_some (takes ec n) c ≡ write_to_channel ec n b c
unfolding write_some
write_some-front ec n c b f = rw f

-- A front buffer that the channel takes a part of.
pub write_some-takes :
    (n : ℕ) (c : Client) (b : List ℕ) (rest : List (List ℕ))
    → c.upstream ≡ b ∷ rest
    → n ≤ length b
    → next_upstream_buf c ≡ some (some b)
    → write_some (takes none n) c ≡ some (wrote n b rest c)
write_some-takes n c b rest e h f =
    write_some-front none n c b f ∙ write_to_channel-wrote none n c b rest e h refl

wrote-IsQueue :
    (m n : ℕ) (b : List ℕ) (rest : List (List ℕ))
    → IsWaiting m rest
    → IsQueue m (if is_empty (drop n b) then rest else drop n b ∷ rest)
wrote-IsQueue m n b rest w = elim (Bool-cases (is_empty (drop n b))) [
  | inl d ↦ rw d (inl w)
  | inr d ↦ rw d (inr (drop n b, rest, refl, d, w))
]

abbrev pub queued : List (List ℕ) → List ℕ
queued [] = []
queued (b ∷ l) = b ++ queued l

-- What the channel has taken, and behind it what waits.
abbrev pub stream : Client → List ℕ
stream c = c.sent ++ queued c.upstream

empty-list : (l : List ℕ) → is_empty l ≡ true → l ≡ []
empty-list [] e = refl
empty-list (x ∷ l) e = absurd (cc e)

unpopped :
    (d : List ℕ) (rest : List (List ℕ))
    → queued (if is_empty d then rest else d ∷ rest) ≡ d ++ queued rest
unpopped d rest = elim (Bool-cases (is_empty d)) [
  | inl e ↦ rw e (ap (λ l. l ++ queued rest) (sym (empty-list d e)))
  | inr e ↦ rw e
]

wrote-stream :
    (n : ℕ) (b : List ℕ) (rest : List (List ℕ)) (c : Client)
    → c.upstream ≡ b ∷ rest
    → stream (wrote n b rest c) ≡ stream c
unfolding wrote
wrote-stream n b rest c e =
    ap (λ l. (c.sent ++ take n b) ++ l) (unpopped (drop n b) rest)
    ∙ append_assoc c.sent (take n b) (drop n b ++ queued rest)
    ∙ ap (λ l. c.sent ++ l)
        (sym (append_assoc (take n b) (drop n b) (queued rest))
          ∙ ap (λ l. l ++ queued rest) (take-append-drop n b))
    ∙ ap (λ l. c.sent ++ queued l) (sym e)

-- What a channel does: it takes no more than the front buffer has, and nothing when the write is to be
-- tried again.
abbrev pub obeys : Write → Client → Bool
obeys blocked c = true
obeys (takes ec n) c = leb n (length (head_or c.upstream)) && (not (is_again ec) || n == 0)

-- The connection was lost, or the queue is in order.
abbrev pub Holds : Client → Type 0
Holds c = ((ec : ErrorCode) × (c.disconnected ≡ some ec)) ⊎ IsValid c

abbrev Writes : Client → Option Client → Type 0
Writes c o = (c' : Client) × (o ≡ some c') × Holds c' × (stream c' ≡ stream c)

disconnect_on-Holds : (ec : Option ErrorCode) (c : Client) → IsValid c → Holds (disconnect_on ec c)
disconnect_on-Holds none c v = inr v
disconnect_on-Holds (some e) c v = inl (e, refl)

disconnect_on-stream : (ec : Option ErrorCode) (c : Client) → stream (disconnect_on ec c) ≡ stream c
disconnect_on-stream none c = refl
disconnect_on-stream (some e) c = refl

full-Writes :
    (ec : Option ErrorCode) (n : ℕ) (c : Client) (b : List ℕ) (rest : List (List ℕ))
    → IsValid c
    → obeys (takes ec n) c ≡ true
    → c.upstream ≡ b ∷ rest
    → is_empty b ≡ false
    → Writes c (write_to_channel ec n b c)
unfolding wrote
full-Writes ec n c b rest v o e z =
    let fits : (leb n (length b) && (not (is_again ec) || n == 0)) ≡ true =
      sym
        (ap (λ (l : List (List ℕ)). leb n (length (head_or l)) && (not (is_again ec) || n == 0)) e)
      ∙ o in
    elim (Bool-cases (is_again ec)) [
      | inl g ↦ (c, write_to_channel-again ec n c b (ground (arith, g, fits)) g, inr v, refl)
      | inr g ↦ (
        disconnect_on ec (wrote n b rest c),
        write_to_channel-wrote ec n c b rest e (ground (arith, fits)) g,
        disconnect_on-Holds ec (wrote n b rest c) (record {
          method_is = v.method_is;
          queue =
              wrote-IsQueue (to_come c) n b rest
                (behind_front (to_come c) b rest z (rw e at v.queue));
        }),
        disconnect_on-stream ec (wrote n b rest c) ∙ wrote-stream n b rest c e,
      )
    ]

blocked-Writes :
    (c : Client) (front : Option (List ℕ))
    → IsValid c
    → next_upstream_buf c ≡ some front
    → Writes c (write_some blocked c)
unfolding write_some
blocked-Writes c front v e = (c, rw e, inr v, refl)

-- Whatever the channel does, no DCHECK fails: an empty front is never sent, but waited for, and the
-- queue stays in order.
pub write_some-Writes :
    (w : Write) (c : Client) → IsValid c → obeys w c ≡ true → Writes c (write_some w c)
write_some-Writes w c v o = elim (List-cases c.upstream) [
  | inl e ↦ (c, write_some-waits w c (next-none c e), inr v, refl)
  | inr (b, rest, e) ↦ elim (Bool-cases (is_empty b)) [
    | inl z ↦ (
      c,
      write_some-waits w c
          (next-empty c b rest e z (empty_front (to_come c) b rest z (rw e at v.queue))),
      inr v,
      refl,
    )
    | inr z ↦ write_full w o e z
  ]
]
  where
    write_full :
        (w : Write)
        → obeys w c ≡ true
        → {b : List ℕ} → {rest : List (List ℕ)} → c.upstream ≡ b ∷ rest
        → is_empty b ≡ false
        → Writes c (write_some w c)
    write_full blocked o {b} {rest} e z = blocked-Writes c (some b) v (next-full c b rest e z)
    write_full (takes ec n) o {b} {rest} e z =
        let (c', f, k, l) = full-Writes ec n c b rest v o e z in
        (c', write_some-front ec n c b (next-full c b rest e z) ∙ f, k, l)
