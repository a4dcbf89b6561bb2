-- ===== src/IoQueue/Bytes.antt =====
-- `byte_length` of src/net/io_queue.hpp: the loop over the ring ends, and adds up the buffers' sizes.
use yass.Common.{
  ℕ, zero, suc, ◌+◌, ◌%◌, ◌^◌, ◌<◌, ◌≡◌, ◌≢◌, sym, ap, ◌∙◌, Option, none, some, List, [], ◌∷◌,
  arith, length, get_or, get_elem?,
}
use yass.IoQueue.Wrap.{wrap-lt, wrap_suc, wrap-injective, wrap_zero}
use yass.IoQueue.Refine.{Represents}
use yass.IoQueue.Access.{is_empty_refines}
use yass.IoQueue.{IoQueue, byte_loop, byte_length}

module _ {ℓ} {T : Type ℓ} (size : T → ℕ) where
  abbrev pub total_size : List T → ℕ
  total_size [] = 0
  total_size (x ∷ xs) = size x + total_size xs

  module _ (buf : List (Option T)) (end_idx : ℕ) where
    loop_stop : (fuel ret : ℕ) → byte_loop (suc fuel) size buf end_idx end_idx ret ≡ some ret
    unfolding byte_loop
    loop_stop fuel ret = ground arith

    loop_step :
        (fuel i ret : ℕ) (x : T)
        → i ≢ end_idx
        → get_or buf i none ≡ some x
        → byte_loop (suc fuel) size buf end_idx i ret
          ≡ byte_loop fuel size buf end_idx ((i + 1) % length buf) ((ret + size x) % 2 ^ 64)
    unfolding byte_loop
    loop_step fuel i ret x ne e = rw e (ground arith)

    -- From the index `i`, with the buffers `ys` still ahead.
    loop_total :
        (ys : List T) (fuel i ret : ℕ)
        → length ys < fuel
        → i < length buf
        → length ys < length buf
        → end_idx ≡ (i + length ys) % length buf
        → ((k : ℕ) → k < length ys → get_or buf ((i + k) % length buf) none ≡ get_elem? ys k)
        → ret < 2 ^ 64
        → byte_loop fuel size buf end_idx i ret ≡ some ((ret + total_size ys) % 2 ^ 64)
    loop_total ys zero i ret hf hi hn e slots hr = absurd (omega arith)
    loop_total [] (suc fuel) i ret hf hi hn e slots hr =
        ap (λ j. byte_loop (suc fuel) size buf end_idx j ret) (sym (wrap_zero i _ hi) ∙ sym e)
        ∙ loop_stop fuel ret
        ∙ ap some (omega arith)
    loop_total (y ∷ ys) (suc fuel) i ret hf hi hn e slots hr =
        loop_step fuel i ret y apart
          (ap (λ j. get_or buf j none) (sym (wrap_zero i _ hi)) ∙ slots 0 (omega arith))
        ∙ loop_total ys fuel ((i + 1) % length buf) ((ret + size y) % 2 ^ 64) (omega arith)
            (wrap-lt i 1 (length buf) hi (omega arith)) (omega arith)
            (e ∙ sym (wrap_suc i (length ys) (length buf) hi (omega arith)))
            (λ k hk.
              ap (λ j. get_or buf j none) (wrap_suc i k (length buf) hi (omega arith))
              ∙ slots (suc k) (omega arith))
            (omega arith)
        ∙ ap some (omega arith)
      where
        apart : i ≢ end_idx
        apart h = absurd (
            omega (
              arith,
              wrap-injective i 0 (suc (length ys)) (length buf) hi (omega arith) hn
                  (wrap_zero i _ hi ∙ h ∙ e),
            ))

  -- The loop of `byte_length` ends with no null pointer met, and returns the sum of the sizes of all
  -- buffers held, modulo 2 ^ 64.
  pub byte_length_refines :
      {min_len : ℕ} {q : IoQueue T} {xs : List T}
      → Represents min_len q xs
      → byte_length size q ≡ some (total_size xs % 2 ^ 64)
  unfolding byte_length
  byte_length_refines {xs = []} r = rw (is_empty_refines r)
  byte_length_refines {q = q} {xs = x ∷ xs} r = rw (is_empty_refines r) (
      loop_total q.queue q.end_idx (x ∷ xs) (length q.queue) q.idx 0 r.room r.idx_in r.room r.end_at
        (λ k hk. r.slots k (omega (arith, r.room))) (omega arith)
      ∙ ap some (omega arith))
