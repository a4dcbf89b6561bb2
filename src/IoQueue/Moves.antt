-- ===== src/IoQueue/Moves.antt =====
-- Whole queues: `clear`, move assignment and `swap` of src/net/io_queue.hpp.
use yass.Common.{ℕ, List, []}
use yass.IoQueue.Refine.{Represents, create-Represents}
use yass.IoQueue.{IoQueue, clear, move_assign, move_construct, swap}

-- `clear` and being moved from leave an empty queue of the default size; move construction and move
-- assignment hand over the right side's buffers, and `swap` exchanges the two lists.
pub moves_refine {ℓ} :
    {T : Type ℓ} {min_len : ℕ} {p q : IoQueue T} {xs ys : List T}
    → Represents min_len p xs
    → Represents min_len q ys
    → Represents min_len (clear min_len p) []
      × Represents min_len (move_assign min_len p q).0 ys
      × Represents min_len (move_assign min_len p q).1 []
      × Represents min_len (move_construct min_len q).0 ys
      × Represents min_len (move_construct min_len q).1 []
      × Represents min_len (swap p q).0 ys
      × Represents min_len (swap p q).1 xs
unfolding clear move_assign move_construct swap
moves_refine {min_len = m} r s =
    (create-Represents m r.deep, s, create-Represents m r.deep, s, create-Represents m r.deep, s, r)
