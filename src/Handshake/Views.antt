-- ===== src/Handshake/Views.antt =====
-- A buffer that begins with given bytes, and what stands at each place of it.
use yass.Common.{
  ℕ, ◌+◌, ◌≤◌, ◌<◌, ◌≡◌, refl, sym, ap, ◌∙◌, arith, some, List, ◌∷◌, ◌++◌, slice, slice-congr,
  length, length-append, get_or, get_or-slice, bytes_of, slice-bytes_of, get_or-append_left,
  get_or-append_right,
}
use yass.Handshake.{View, advance, received_view}

-- The buffer has the bytes `l` at its front.
pub record Begins (l : List ℕ) (b : View) : Type 0 where
  pub room : b.offset + length l ≤ b.capacity
  pub held : slice b.mem b.offset (length l) ≡ l

abbrev pub skip : ℕ → View → View
skip n b = record b { offset = b.offset + n }

pub advance-skip : (n : ℕ) (b : View) → b.offset + n ≤ b.capacity → advance n b ≡ some (skip n b)
unfolding advance
advance-skip n b h = ground arith

pub Begins-byte :
    {l : List ℕ} {b : View}
    → Begins l b
    → (k : ℕ) → k < length l
    → b.mem (b.offset + k) ≡ get_or l k 0
Begins-byte {l} {b} h k lt =
    sym (get_or-slice b.mem b.offset (length l) k lt) ∙ ap (λ t. get_or t k 0) h.held

pub Begins-first : {x : ℕ} {l : List ℕ} {b : View} → Begins (x ∷ l) b → b.mem b.offset ≡ x
Begins-first {b = b} h =
    ap b.mem (let e : b.offset ≡ b.offset + 0 = omega arith in e) ∙ Begins-byte h 0 (omega arith)

-- Behind a first part lies the second.
pub Begins-skip : (l t : List ℕ) {b : View} → Begins (l ++ t) b → Begins t (skip (length l) b)
Begins-skip l t {b} h = record {
  room = omega (arith, h.room, length-append {0} l t);
  held =
      slice-congr b.mem (bytes_of t) (b.offset + length l) 0 (length t) (λ k hk.
        ap b.mem (let e : b.offset + length l + k ≡ b.offset + (length l + k) = omega arith in e)
        ∙ Begins-byte h (length l + k) (omega (arith, length-append {0} l t))
        ∙ get_or-append_right l t (length l + k) k 0 refl
        ∙ ap (bytes_of t) (let e : k ≡ 0 + k = omega arith in e))
      ∙ slice-bytes_of t;
}

pub Begins-append : (l t : List ℕ) {b : View} → Begins (l ++ t) b → Begins l b
Begins-append l t {b} h = record {
  room = omega (arith, h.room, length-append {0} l t);
  held =
      slice-congr b.mem (bytes_of l) b.offset 0 (length l) (λ k hk.
        Begins-byte h k (omega (arith, length-append {0} l t))
        ∙ get_or-append_left l t k 0 hk
        ∙ ap (bytes_of l) (let e : k ≡ 0 + k = omega arith in e))
      ∙ slice-bytes_of l;
}

-- A slice inside the front.
pub Begins-slice :
    (l t r : List ℕ) {b : View} {i n : ℕ}
    → Begins (l ++ (t ++ r)) b
    → i ≡ b.offset + length l
    → n ≡ length t
    → slice b.mem i n ≡ t
Begins-slice l t r {b} {i} {n} h e f =
    let inner = Begins-append t r (Begins-skip l (t ++ r) h) in
    ap (λ j. slice b.mem j n) e ∙ ap (slice b.mem (b.offset + length l)) f ∙ inner.held

pub received-Begins : (behind : ℕ → ℕ) (l : List ℕ) → Begins l (received_view behind l)
unfolding received_view
received-Begins behind l = record {
  room = omega arith;
  held =
      slice-congr (received_view behind l).mem (bytes_of l) 0 0 (length l) (λ k hk. ground arith)
      ∙ slice-bytes_of l;
}
