-- ===== src/IoQueue.antt =====
-- The class `IoQueue` of src/net/io_queue.hpp: a ring of buffers that doubles when it is full. A
-- slot of the vector `queue_` is a `scoped_refptr`, null or not: an option. A result `none` is a
-- failed DCHECK of the method's body, but for those that the vector has the default size at least,
-- which are left out: a queue that holds a list is of that size (`Represents.wide`). `min_len` is
-- the template's DEFAULT_QUEUE_LENGTH. The vector's size is below 2 ^ 29 (the DCHECK of
-- `enlarge_queue_by_2x`), so no `int` index wraps.
mod Wrap
pub mod Refine
pub mod Enlarge
pub mod Access
pub mod Bytes
pub mod Moves
mod Copies
mod Tests
use yass.IoBuffer.{GrowableBuffer, copy_buffer}
use yass.Common.{
  ℕ, zero, suc, ◌+◌, ◌-◌, ◌*◌, ◌%◌, ◌^◌, Bool, true, false, ◌&&◌, Option, none, some, List, [], ◌∷◌,
  ◌++◌, ltb, leb, ◌==◌, if◌then◌else◌, ◌>>=◌, length, get_or, set, take, drop, replicate,
}

pub record IoQueue {ℓ} (T : Type ℓ) : Type ℓ where
  pub idx : ℕ
  pub end_idx : ℕ
  pub queue : List (Option T)

abbrev pub int_max : ℕ
int_max = 2 ^ 31 - 1

module _ {ℓ} {T : Type ℓ} where
  -- `IoQueue()`, over a vector of `min_len` null pointers.
  pub create : ℕ → IoQueue T
  create min_len = record { idx = 0; end_idx = 0; queue = replicate min_len none }

  pub all_null : List (Option T) → Bool
  all_null [] = true
  all_null (none ∷ xs) = all_null xs
  all_null (some x ∷ xs) = false

  pub is_empty : IoQueue T → Option Bool
  is_empty q =
      if q.idx == q.end_idx then (if all_null q.queue then some true else none) else some false

  -- The vector of twice the size: the elements in order, then null pointers.
  pub unrolled : IoQueue T → List (Option T)
  unrolled q =
      if ltb q.idx q.end_idx
      then take (q.end_idx - q.idx) (drop q.idx q.queue)
      else drop q.idx q.queue ++ take q.end_idx q.queue

  pub enlarge_queue_by_2x : IoQueue T → Option (IoQueue T)
  enlarge_queue_by_2x q =
      let n = length q.queue in
      let grown = unrolled q in
      if ltb 0 n && q.idx == q.end_idx && leb (n * 4) int_max
      then some
          (record { idx = 0; end_idx = n; queue = grown ++ replicate (n * 2 - length grown) none })
      else none

  -- The first half of `push_back`: the slot is written and the end moves on.
  pub store_back : T → IoQueue T → IoQueue T
  store_back x q = record q {
    end_idx = (q.end_idx + 1) % length q.queue;
    queue = set q.queue q.end_idx (some x);
  }

  pub push_back : T → IoQueue T → Option (IoQueue T)
  push_back x q =
      let q' = store_back x q in if q'.end_idx == q'.idx then enlarge_queue_by_2x q' else some q'

  -- `DCHECK(!empty())`, before the rest of a method.
  pub unless_empty {κ} : {A : Type κ} → IoQueue T → A → Option A
  unless_empty q a = is_empty q >>= λ e. if e then none else some a

  pub front : IoQueue T → Option (Option T)
  front q = unless_empty q (get_or q.queue q.idx none)

  pub pop_front : IoQueue T → Option (IoQueue T)
  pop_front q =
      unless_empty q
        (record q { idx = (q.idx + 1) % length q.queue; queue = set q.queue q.idx none })

  pub back : IoQueue T → Option (Option T)
  back q = let n = length q.queue in unless_empty q (get_or q.queue ((q.end_idx + n - 1) % n) none)

  pub queue_length : IoQueue T → ℕ
  queue_length q = let n = length q.queue in (q.end_idx + n - q.idx) % n

  -- The loop of `byte_length` from the index `i` on; `none` is a null dereference, or no fuel left.
  pub byte_loop : ℕ → (T → ℕ) → List (Option T) → ℕ → ℕ → ℕ → Option ℕ
  byte_loop zero size buf end_idx i ret = none
  byte_loop (suc fuel) size buf end_idx i ret =
      let rest = get_or buf i none >>= λ x.
      byte_loop fuel size buf end_idx ((i + 1) % length buf) ((ret + size x) % 2 ^ 64) in
      if i == end_idx then some ret else rest

  -- The indices go round the vector once at most, so its size bounds the rounds.
  pub byte_length : (T → ℕ) → IoQueue T → Option ℕ
  byte_length size q = is_empty q >>= λ e.
      if e then some 0 else byte_loop (length q.queue) size q.queue q.end_idx q.idx 0

  -- `operator=(IoQueue&&)`: the left side takes the right side's fields, and the right side is fresh.
  pub move_assign : ℕ → IoQueue T → IoQueue T → IoQueue T × IoQueue T
  unfolding create
  move_assign min_len lhs rhs =
      (record lhs { idx = rhs.idx; end_idx = rhs.end_idx; queue = rhs.queue }, create min_len)

  -- `IoQueue(IoQueue&&)`: the new queue, and the right side with the new one's first vector.
  pub move_construct : ℕ → IoQueue T → IoQueue T × IoQueue T
  unfolding create
  move_construct min_len rhs =
      let made : IoQueue T = create min_len in
      (
        record { idx = rhs.idx; end_idx = rhs.end_idx; queue = rhs.queue },
        record rhs { idx = 0; end_idx = 0; queue = made.queue },
      )

  -- `*this = IoQueue()`
  pub clear : ℕ → IoQueue T → IoQueue T
  unfolding create move_assign
  clear min_len q = (move_assign min_len q (create min_len)).0

  -- `swap` of two queues that are not one object
  pub swap : IoQueue T → IoQueue T → IoQueue T × IoQueue T
  swap lhs rhs = (
    record lhs { idx = rhs.idx; end_idx = rhs.end_idx; queue = rhs.queue },
    record rhs { idx = lhs.idx; end_idx = lhs.end_idx; queue = lhs.queue },
  )

-- `push_back(const char*, size_t)`, of a copy of the bytes.
pub push_back_bytes : (ℕ → ℕ) → List ℕ → IoQueue GrowableBuffer → Option (IoQueue GrowableBuffer)
push_back_bytes fill bytes q = copy_buffer fill bytes >>= λ b. push_back b q
