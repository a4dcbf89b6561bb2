-- ===== src/Upstream/Queue.antt =====
-- The queue `upstream_` of src/cli/cli_connection.cpp during the SOCKS5 handshake: empty buffers keep
-- the places of the requests that are still to come, and are told by the two flags.
use yass.Common.{
  ℕ, zero, suc, ◌+◌, ◌<◌, ◌≡◌, sym, ap, ◌⊎◌, inl, inr, arith, true, false, none, some, List, [],
  ◌∷◌, ◌++◌, if◌then◌else◌, drop, All,
}
use yass.Handshake.{is_socks5_method}
use yass.Upstream.{Client, is_empty, next_upstream_buf, on_stream_read}

-- `n` empty buffers, and then buffers that are not empty.
abbrev pub IsWaiting : ℕ → List (List ℕ) → Type 0
IsWaiting zero l = All (λ b. is_empty b ≡ false) l
IsWaiting (suc n) [] = ⊥
IsWaiting (suc n) (b ∷ l) = (is_empty b ≡ true) × IsWaiting n l

-- The requests still to come: one for each flag.
abbrev pub to_come : Client → ℕ
to_come c =
    (if c.socks5_method_select_handshake then 1 else 0) + (if c.socks5_auth_handshake then 1 else 0)

-- At most one buffer stands in front of those places, and it is not empty.
abbrev pub IsQueue : ℕ → List (List ℕ) → Type 0
IsQueue n l =
    IsWaiting n l
    ⊎ (b : List ℕ) × (r : List (List ℕ)) × (l ≡ b ∷ r) × (is_empty b ≡ false) × IsWaiting n r

abbrev pub head_or : List (List ℕ) → List ℕ
head_or [] = []
head_or (b ∷ l) = b

pub record IsValid (c : Client) : Type 0 where
  pub method_is : is_socks5_method c.method ≡ true
  pub queue : IsQueue (to_come c) c.upstream

pub IsWaiting-snoc :
    (n : ℕ) (l : List (List ℕ)) (b : List ℕ)
    → IsWaiting n l
    → is_empty b ≡ false
    → IsWaiting n (l ++ (b ∷ []))
IsWaiting-snoc zero [] b w e = (e, tt)
IsWaiting-snoc zero (x ∷ l) b w e = (w.0, IsWaiting-snoc zero l b w.1 e)
IsWaiting-snoc (suc n) [] b w e = absurd w
IsWaiting-snoc (suc n) (x ∷ l) b w e = (w.0, IsWaiting-snoc n l b w.1 e)

-- Data of the stream waits behind the handshake.
pub on_stream_read-IsValid :
    (bytes : List ℕ) (c : Client)
    → IsValid c
    → is_empty bytes ≡ false
    → IsValid (on_stream_read bytes c)
unfolding on_stream_read
on_stream_read-IsValid bytes c v e = record {
  method_is = v.method_is;
  queue = elim v.queue [
    | inl w ↦ inl (IsWaiting-snoc (to_come c) c.upstream bytes w e)
    | inr (b, r, same, full, w) ↦ inr (
      b,
      r ++ (bytes ∷ []),
      ap (λ l. l ++ (bytes ∷ [])) same,
      full,
      IsWaiting-snoc (to_come c) r bytes w e,
    )
  ];
}

pub behind_front :
    (m : ℕ) (b : List ℕ) (rest : List (List ℕ))
    → is_empty b ≡ false
    → IsQueue m (b ∷ rest)
    → IsWaiting m rest
behind_front zero b rest e (inl w) = w.1
behind_front (suc m) b rest e (inl w) = absurd (cc (e, w.0))
behind_front m b rest e (inr (b', r, same, full, w)) =
    rw (sym (ap (λ (l : List (List ℕ)). drop 1 l) same)) at w

-- Behind a front that is empty a request is still to come.
pub empty_front :
    (m : ℕ) (b : List ℕ) (rest : List (List ℕ)) → is_empty b ≡ true → IsQueue m (b ∷ rest) → 0 < m
empty_front zero b rest e (inl w) = absurd (cc (e, w.0))
empty_front (suc m) b rest e (inl w) = omega arith
empty_front m b rest e (inr (b', r, same, full, w)) =
    absurd (cc (e, full, ap (λ (l : List (List ℕ)). head_or l) same))

pub next-empty :
    (c : Client) (b : List ℕ) (rest : List (List ℕ))
    → c.upstream ≡ b ∷ rest
    → is_empty b ≡ true
    → 0 < to_come c
    → next_upstream_buf c ≡ some none
unfolding next_upstream_buf
next-empty c b rest e z h = rw (e, z) (ground arith)

pub next-full :
    (c : Client) (b : List ℕ) (rest : List (List ℕ))
    → c.upstream ≡ b ∷ rest
    → is_empty b ≡ false
    → next_upstream_buf c ≡ some (some b)
unfolding next_upstream_buf
next-full c b rest e z = rw (e, z)

pub next-none : (c : Client) → c.upstream ≡ [] → next_upstream_buf c ≡ some none
unfolding next_upstream_buf
next-none c e = rw e
