-- ===== src/IoQueue/Tests.antt =====
-- Concrete runs of `IoQueue` of src/net/io_queue.hpp.
use yass.Common.{
  ℕ, zero, suc, ◌+◌, ◌%◌, ◌<◌, ◌≡◌, refl, none, some, [], ◌∷◌, arith, get_or, get_elem?,
}
use yass.IoQueue.{IoQueue, push_back}
use yass.IoQueue.Refine.{Represents}
use yass.IoQueue.Enlarge.{push_back_refines}

-- A queue of three slots whose two buffers, 5 and 8 bytes long, lie across the end of the vector.
abbrev wrapped : IoQueue ℕ
wrapped = record { idx = 2; end_idx = 1; queue = some 8 ∷ none ∷ some 5 ∷ [] }

slots-wrapped : (k : ℕ) → k < 3 → get_or wrapped.queue ((2 + k) % 3) none ≡ get_elem? (5 ∷ 8 ∷ []) k
slots-wrapped zero h = refl
slots-wrapped (suc zero) h = refl
slots-wrapped (suc (suc zero)) h = refl
slots-wrapped (suc (suc (suc k))) h = absurd (omega arith)

wrapped-Represents : Represents 2 wrapped (5 ∷ 8 ∷ [])
wrapped-Represents = record {
  deep = omega arith;
  wide = omega arith;
  idx_in = omega arith;
  end_at = refl;
  room = omega arith;
  slots = slots-wrapped;
}

push_back_refines_example :
    (q : IoQueue ℕ) × (push_back 9 wrapped ≡ some q) × Represents 2 q (5 ∷ 8 ∷ 9 ∷ [])
push_back_refines_example = push_back_refines 9 wrapped-Represents (omega arith)
