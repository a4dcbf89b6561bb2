-- ===== src/IoQueue/Wrap.antt =====
-- Indices that go round a vector of `n` slots.
use yass.Common.{ℕ, suc, ◌+◌, ◌-◌, ◌%◌, ◌≤◌, ◌<◌, ◌≡◌, ◌∙◌, ap, arith}
use native.Mathlib.Nat.{mod-eq_of_lt, mod-eq-sub-mod, mod-add-mod}
use native.Mathlib.Decide.{dec_lt}

-- Where an index goes from `i`, below `n`, by `k` steps, at most `n`.
pub wrap_low : (i k n : ℕ) → i + k < n → (i + k) % n ≡ i + k
wrap_low i k n h = mod-eq_of_lt h

pub wrap_high : (i k n : ℕ) → i < n → k ≤ n → n ≤ i + k → (i + k) % n ≡ i + k - n
wrap_high i k n h hk c = omega (
  arith,
  mod-eq-sub-mod {n = i + k} {m = n} c,
  mod-eq_of_lt {n = i + k - n} {m = n} (omega arith),
)

pub wrap-lt : (i k n : ℕ) → i < n → k ≤ n → (i + k) % n < n
wrap-lt i k n h hk = elim (dec_lt (i + k) n) [
  | yes p ↦ omega (arith, wrap_low i k n p)
  | no p ↦ omega (arith, wrap_high i k n h hk (omega arith))
]

pub wrap_suc : (i k n : ℕ) → i < n → suc k ≤ n → ((i + 1) % n + k) % n ≡ (i + suc k) % n
wrap_suc i k n h hk = elim (dec_lt (i + 1) n) [
  | yes p ↦ rw (wrap_low i 1 n p) (ap (λ t. t % n) (omega arith))
  | no p ↦ elim (dec_lt (i + suc k) n) [
    | yes s ↦ absurd (omega arith)
    | no s ↦ omega (
      arith,
      wrap_high i 1 n h (omega arith) (omega arith),
      wrap_high i (suc k) n h hk (omega arith),
      wrap_low 0 k n (omega arith),
      ap (λ (t : ℕ). (t + k) % n) (wrap_high i 1 n h (omega arith) (omega arith)),
      ap (λ (t : ℕ). (t + k) % n) (let e : i + 1 - n ≡ 0 = omega arith in e),
    )
  ]
]

pub wrap-injective : (i j k n : ℕ) → i < n → j < n → k < n → (i + j) % n ≡ (i + k) % n → j ≡ k
wrap-injective i j k n h hj hk e = elim (dec_lt (i + j) n) [
  | yes p ↦ elim (dec_lt (i + k) n) [
    | yes s ↦ omega (arith, wrap_low i j n p, wrap_low i k n s)
    | no s ↦ omega (arith, wrap_low i j n p, wrap_high i k n h (omega arith) (omega arith))
  ]
  | no p ↦ elim (dec_lt (i + k) n) [
    | yes s ↦ omega (arith, wrap_high i j n h (omega arith) (omega arith), wrap_low i k n s)
    | no s ↦ omega (
      arith,
      wrap_high i j n h (omega arith) (omega arith),
      wrap_high i k n h (omega arith) (omega arith),
    )
  ]
]

pub wrap_next : (i k n : ℕ) → ((i + k) % n + 1) % n ≡ (i + (k + 1)) % n
wrap_next i k n = rw mod-add-mod (ap (λ t. t % n) (omega arith))

pub wrap_zero : (i n : ℕ) → i < n → (i + 0) % n ≡ i
wrap_zero i n h = omega (arith, wrap_low i 0 n (omega arith))

pub wrap_full : (i n : ℕ) → i < n → (i + n) % n ≡ i
wrap_full i n h = omega (arith, wrap_high i n n h (omega arith) (omega arith))

-- Every index is reached from `i`.
pub wrap_reach : (i j n : ℕ) → i < n → j < n → (i + (j + n - i) % n) % n ≡ j
wrap_reach i j n h hj = elim (dec_lt j i) [
  | yes p ↦
      ap (λ t. (i + t) % n) (mod-eq_of_lt {n = j + n - i} {m = n} (omega arith))
      ∙ wrap_high i (j + n - i) n h (omega arith) (omega arith)
      ∙ omega arith
  | no p ↦
      ap (λ t. (i + t) % n)
        (mod-eq-sub-mod {n = j + n - i} {m = n} (omega arith)
          ∙ mod-eq_of_lt {n = j + n - i - n} {m = n} (omega arith))
      ∙ wrap_low i (j + n - i - n) n (omega arith)
      ∙ omega arith
]

-- How far the index that is `k` steps behind `i` lies from `i`.
pub wrap_back : (i k n : ℕ) → i < n → k < n → ((i + k) % n + n - i) % n ≡ k
wrap_back i k n h hk = elim (dec_lt (i + k) n) [
  | yes p ↦
      ap (λ t. (t + n - i) % n) (wrap_low i k n p)
      ∙ mod-eq-sub-mod {n = i + k + n - i} {m = n} (omega arith)
      ∙ mod-eq_of_lt {n = i + k + n - i - n} {m = n} (omega arith)
      ∙ omega arith
  | no p ↦
      ap (λ t. (t + n - i) % n) (wrap_high i k n h (omega arith) (omega arith))
      ∙ mod-eq_of_lt {n = i + k - n + n - i} {m = n} (omega arith)
      ∙ omega arith
]

-- One step back.
pub wrap_pred : (i k n : ℕ) → i < n → k + 1 < n → ((i + (k + 1)) % n + n - 1) % n ≡ (i + k) % n
wrap_pred i k n h hk = elim (dec_lt (i + (k + 1)) n) [
  | yes p ↦
      ap (λ t. (t + n - 1) % n) (wrap_low i (k + 1) n p)
      ∙ mod-eq-sub-mod {n = i + (k + 1) + n - 1} {m = n} (omega arith)
      ∙ ap (λ t. t % n) (let e : i + (k + 1) + n - 1 - n ≡ i + k = omega arith in e)
  | no p ↦
      ap (λ t. (t + n - 1) % n) (wrap_high i (k + 1) n h (omega arith) (omega arith))
      ∙ ap (λ t. t % n) (let e : i + (k + 1) - n + n - 1 ≡ i + k = omega arith in e)
]
