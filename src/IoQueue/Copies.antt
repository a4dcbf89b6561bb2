-- ===== src/IoQueue/Copies.antt =====
-- `push_back` of bytes in src/net/io_queue.hpp.
use yass.Common.{ℕ, ◌*◌, ◌≤◌, ◌≡◌, ◌∙◌, ap, some, List, [], ◌∷◌, ◌++◌, length, ◌>>=◌}
use yass.IoBuffer.{GrowableBuffer, contents}
use yass.IoBuffer.Append.{copy_buffer_lem}
use yass.IoQueue.{IoQueue, int_max, push_back, push_back_bytes}
use yass.IoQueue.Refine.{Represents}
use yass.IoQueue.Enlarge.{push_back_refines}

-- Below the index limit a new buffer with exactly the given bytes is appended to the list.
push_back_bytes_refines :
    (fill : ℕ → ℕ) (bytes : List ℕ) {min_len : ℕ} {q : IoQueue GrowableBuffer}
    {xs : List GrowableBuffer}
    → Represents min_len q xs
    → length q.queue * 4 ≤ int_max
    → (b : GrowableBuffer) × (q' : IoQueue GrowableBuffer) × (push_back_bytes fill bytes q
        ≡ some q')
      × (contents b ≡ bytes)
      × Represents min_len q' (xs ++ (b ∷ []))
unfolding push_back_bytes
push_back_bytes_refines fill bytes {q = q} r small =
    let (b, made, _, _, held) = copy_buffer_lem fill bytes in
    let (q', pushed, r') = push_back_refines b r small in
    (b, q', ap (λ o. o >>= λ x. push_back x q) made ∙ pushed, held, r')
