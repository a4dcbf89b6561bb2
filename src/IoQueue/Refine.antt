-- ===== src/IoQueue/Refine.antt =====
-- `IoQueue` of src/net/io_queue.hpp behaves as the list of the buffers that it holds, oldest first.
use yass.Common.{
  ℕ, ◌+◌, ◌%◌, ◌≤◌, ◌<◌, ◌≡◌, ◌≢◌, sym, ap, ◌∙◌, Option, none, some, List, [], ◌∷◌, ◌++◌, arith,
  length, get_or, get_elem?, replicate, length-append, length-set, length-replicate,
  get_or-set_self, get_or-set_ne, get_or-replicate, get_elem?-append_right, get_elem?-snoc_ne,
}
use native.Mathlib.Decide.{ℕ_discrete}
use yass.IoQueue.Wrap.{wrap_low, wrap-lt, wrap-injective, wrap_next}
use yass.IoQueue.{IoQueue, create, store_back}

-- The queue `q` holds the list `xs`: counted from the front, each slot is what the list has there.
pub record Represents {ℓ} {T : Type ℓ} (min_len : ℕ) (q : IoQueue T) (xs : List T) : Type ℓ where
  pub deep : 2 ≤ min_len
  pub wide : min_len ≤ length q.queue
  pub idx_in : q.idx < length q.queue
  pub end_at : q.end_idx ≡ (q.idx + length xs) % length q.queue
  pub room : length xs < length q.queue
  pub slots :
      (k : ℕ)
      → k < length q.queue
      → get_or q.queue ((q.idx + k) % length q.queue) none ≡ get_elem? xs k

module _ {ℓ} {T : Type ℓ} (min_len : ℕ) where
  pub create-Represents : 2 ≤ min_len → Represents {T = T} min_len (create min_len) []
  unfolding create
  create-Represents h =
      let n : length (replicate {A = Option T} min_len none) ≡ min_len =
        length-replicate min_len none in
      record {
        deep = h;
        wide = omega (arith, n);
        idx_in = omega (arith, n);
        end_at =
            omega (arith, n, wrap_low 0 0 min_len (omega arith), ap (λ (t : ℕ). (0 + 0) % t) n);
        room = omega (arith, n);
        slots = λ k hk. get_or-replicate min_len none _;
      }

module _ {ℓ} {T : Type ℓ} {min_len : ℕ} {q : IoQueue T} {xs : List T} (r : Represents min_len q xs)
    (x : T) where
  pub length-store_back : length (store_back x q).queue ≡ length q.queue
  unfolding store_back
  length-store_back = length-set q.queue q.end_idx (some x)

  pub end-in : q.end_idx < length q.queue
  end-in =
      rw (r.end_at) (wrap-lt q.idx (length xs) (length q.queue) r.idx_in (omega (arith, r.room)))

  pub slot-store_back :
      (k : ℕ)
      → k < length q.queue
      → get_or (store_back x q).queue ((q.idx + k) % length q.queue) none
        ≡ get_elem? (xs ++ (x ∷ [])) k
  unfolding store_back
  slot-store_back k hk = elim (ℕ_discrete k (length xs)) [
    | yes e ↦ rw (
      e,
      ← r.end_at,
      get_or-set_self q.queue q.end_idx (some x) none end-in,
      get_elem?-append_right xs (x ∷ []) (length xs) 0 (omega arith),
    )
    | no ne ↦
        get_or-set_ne q.queue q.end_idx _ (some x) none (apart ne)
        ∙ r.slots k hk
        ∙ sym (get_elem?-snoc_ne xs x k ne)
  ]
    where
      apart : k ≢ length xs → q.end_idx ≢ (q.idx + k) % length q.queue
      apart ne e = ne (
          sym (
            wrap-injective q.idx (length xs) k (length q.queue) r.idx_in r.room hk
              (sym r.end_at ∙ e)))

  pub end_idx-store_back :
      (store_back x q).end_idx ≡ (q.idx + length (xs ++ (x ∷ []))) % length q.queue
  unfolding store_back
  end_idx-store_back = rw (r.end_at, length-append) (wrap_next q.idx (length xs) (length q.queue))

  -- Where a slot is left, the vector keeps its size.
  pub store_back-Represents :
      length xs + 1 < length q.queue → Represents min_len (store_back x q) (xs ++ (x ∷ []))
  store_back-Represents h = record {
    deep = r.deep;
    wide = rw length-store_back r.wide;
    idx_in = rw length-store_back (unfold store_back in r.idx_in);
    end_at = rw length-store_back (unfold store_back in end_idx-store_back);
    room = rw (length-store_back, length-append) (omega (arith, h));
    slots = rw length-store_back (unfold store_back in slot-store_back);
  }
