-- ===== src/Common/Memory.antt =====
-- Memory that a parser reads: a byte at each address, and what a `memcpy` of `n` bytes takes.
use Prim.Native.Nat.{ℕ, zero, suc, ◌+◌, ◌-◌, ◌≤◌, ◌<◌}
use mathlib.Core.Path.{◌≡◌, refl, sym, ap, ap₂, ◌∙◌}
use mathlib.Core.Bool.{true, ◌&&◌}
use mathlib.Core.Logic.{◌⊎◌, inl, inr}
use mathlib.Core.List.{List, [], ◌∷◌, ◌++◌}
use native.Mathlib.Omega.{arith}
use yass.Common.Lists.{length, get_or}
use yass.Common.Tests.{leb, ltb, if◌then◌else◌}

abbrev pub Mem : Type 0
Mem = ℕ → ℕ

-- The `n` bytes from the address `i` on.
abbrev pub slice : Mem → ℕ → ℕ → List ℕ
slice m i zero = []
slice m i (suc n) = m i ∷ slice m (i + 1) n

pub length-slice : (m : Mem) (i n : ℕ) → length (slice m i n) ≡ n
length-slice m i zero = refl
length-slice m i (suc n) = ap suc (length-slice m (i + 1) n)

pub slice-congr :
    (m m' : Mem) (i i' n : ℕ)
    → ((k : ℕ) → k < n → m (i + k) ≡ m' (i' + k))
    → slice m i n ≡ slice m' i' n
slice-congr m m' i i' zero h = refl
slice-congr m m' i i' (suc n) h =
    ap₂ ◌∷◌
      (ap m (let e : i ≡ i + 0 = omega arith in e)
        ∙ h 0 (omega arith)
        ∙ ap m' (let e : i' + 0 ≡ i' = omega arith in e))
      (slice-congr m m' (i + 1) (i' + 1) n (λ k hk.
        ap m (let e : i + 1 + k ≡ i + suc k = omega arith in e)
        ∙ h (suc k) (omega arith)
        ∙ ap m' (let e : i' + suc k ≡ i' + 1 + k = omega arith in e)))

pub slice-append : (m : Mem) (i n k : ℕ) → slice m i (n + k) ≡ slice m i n ++ slice m (i + n) k
slice-append m i zero k =
    ap₂ (slice m) (let e : i ≡ i + 0 = omega arith in e) (let e : 0 + k ≡ k = omega arith in e)
slice-append m i (suc n) k =
    ap (slice m i) (let e : suc n + k ≡ suc (n + k) = omega arith in e)
    ∙ ap (λ l. m i ∷ l)
        (slice-append m (i + 1) n k
          ∙ ap (λ j. slice m (i + 1) n ++ slice m j k)
              (let e : i + 1 + n ≡ i + suc n = omega arith in e))

-- `memcpy(dst + at, src + from, n)`
unfoldable pub memcpy : Mem → ℕ → Mem → ℕ → ℕ → Mem
memcpy dst at src from n j = if leb at j && ltb j (at + n) then src (from + (j - at)) else dst j

pub memcpy_inside :
    (dst : Mem) (at : ℕ) (src : Mem) (from n j k : ℕ)
    → j ≡ at + k
    → k < n
    → memcpy dst at src from n j ≡ src (from + k)
unfolding memcpy
memcpy_inside dst at src from n j k e h =
    let e' : from + (j - at) ≡ from + k = omega arith in rw (lemma, e')
  where
    lemma : (leb at j && ltb j (at + n)) ≡ true
    lemma = ground arith

pub memcpy_outside :
    (dst : Mem) (at : ℕ) (src : Mem) (from n j : ℕ)
    → (j < at) ⊎ (at + n ≤ j)
    → memcpy dst at src from n j ≡ dst j
unfolding memcpy
memcpy_outside dst at src from n j h = ground arith

pub slice-memcpy :
    (dst : Mem) (at : ℕ) (src : Mem) (from n : ℕ)
    → slice (memcpy dst at src from n) at n ≡ slice src from n
slice-memcpy dst at src from n =
    slice-congr (memcpy dst at src from n) src at from n
      (λ k hk. memcpy_inside dst at src from n (at + k) k refl hk)

-- Bytes that lie off the target of a `memcpy` are not changed.
pub slice-memcpy_off :
    (dst : Mem) (at : ℕ) (src : Mem) (from n i k : ℕ)
    → (i + k ≤ at) ⊎ (at + n ≤ i)
    → slice (memcpy dst at src from n) i k ≡ slice dst i k
slice-memcpy_off dst at src from n i k h =
    slice-congr (memcpy dst at src from n) dst i i k
      (λ j hj. memcpy_outside dst at src from n (i + j) (off j hj h))
  where
    off : (j : ℕ) → j < k → (i + k ≤ at) ⊎ (at + n ≤ i) → (i + j < at) ⊎ (at + n ≤ i + j)
    off j hj (inl a) = inl (omega arith)
    off j hj (inr b) = inr (omega arith)

pub get_or-slice : (m : Mem) (i n k : ℕ) → k < n → get_or (slice m i n) k 0 ≡ m (i + k)
get_or-slice m i zero k h = absurd (omega arith)
get_or-slice m i (suc n) zero h = ap m (omega arith)
get_or-slice m i (suc n) (suc k) h = get_or-slice m (i + 1) n k (omega arith) ∙ ap m (omega arith)

-- Equal slices are equal byte for byte.
pub slice-injective :
    (m m' : Mem) (i i' n : ℕ)
    → slice m i n ≡ slice m' i' n
    → (k : ℕ) → k < n
    → m (i + k) ≡ m' (i' + k)
slice-injective m m' i i' n e k h =
    sym (get_or-slice m i n k h) ∙ ap (λ l. get_or l k 0) e ∙ get_or-slice m' i' n k h

-- The memory of a string or an array, from address 0 on.
abbrev pub bytes_of : List ℕ → Mem
bytes_of l j = get_or l j 0

pub slice-bytes_of : (l : List ℕ) → slice (bytes_of l) 0 (length l) ≡ l
slice-bytes_of [] = refl
slice-bytes_of (x ∷ l) =
    ap (λ t. x ∷ t)
      (slice-congr (bytes_of (x ∷ l)) (bytes_of l) (0 + 1) 0 (length l) (λ k hk.
          ap (bytes_of (x ∷ l)) (let e : 0 + 1 + k ≡ suc k = omega arith in e)
          ∙ ap (bytes_of l) (let e : k ≡ 0 + k = omega arith in e))
        ∙ slice-bytes_of l)
