-- ===== src/IoQueue/Access.antt =====
-- The reading methods of `IoQueue` of src/net/io_queue.hpp, and `pop_front`, against the list.
use yass.Common.{
  ℕ, suc, ◌+◌, ◌-◌, ◌%◌, ◌<◌, ◌≡◌, ◌≢◌, refl, sym, ap, ◌∙◌, Bool, true, false, Option, none, some,
  List, [], ◌∷◌, ◌++◌, arith, length, get_or, get_elem?, set, length-append, length-set,
  get_or-set_self, get_or-set_ne, get_elem?-beyond, get_elem?-append_right,
}
use native.Mathlib.Decide.{ℕ_discrete}
use native.Mathlib.Nat.{mod-lt}
use yass.IoQueue.Wrap.{
  wrap-lt, wrap_suc, wrap-injective, wrap_zero, wrap_full, wrap_reach, wrap_back, wrap_pred,
}
use yass.IoQueue.Refine.{Represents}
use yass.IoQueue.{IoQueue, all_null, is_empty, unless_empty, front, pop_front, back, queue_length}

abbrev pub is_nil {ℓ} : {A : Type ℓ} → List A → Bool
is_nil [] = true
is_nil (x ∷ xs) = false

all_null-true {ℓ} :
    {T : Type ℓ} (b : List (Option T))
    → ((j : ℕ) → j < length b → get_or b j none ≡ none)
    → all_null b ≡ true
unfolding all_null
all_null-true [] h = refl
all_null-true (none ∷ b) h = all_null-true b (λ j hj. h (suc j) (omega arith))
all_null-true (some x ∷ b) h = cc (h 0 (omega arith))

module _ {ℓ} {T : Type ℓ} {min_len : ℕ} {q : IoQueue T} where
  ends_apart : {x : T} {xs : List T} → Represents min_len q (x ∷ xs) → q.idx ≢ q.end_idx
  ends_apart {x} {xs} r e = absurd (
      omega (
        arith,
        wrap-injective q.idx 0 (length (x ∷ xs)) (length q.queue) r.idx_in (omega (arith, r.room))
            r.room (wrap_zero q.idx _ r.idx_in ∙ e ∙ r.end_at),
      ))

  ends_meet : Represents min_len q [] → q.idx ≡ q.end_idx
  ends_meet r = sym (r.end_at ∙ wrap_zero q.idx _ r.idx_in)

  no_slot_left : Represents min_len q [] → all_null q.queue ≡ true
  no_slot_left r = all_null-true q.queue (λ j hj.
      ap (λ i. get_or q.queue i none) (sym (wrap_reach q.idx j (length q.queue) r.idx_in hj))
      ∙ r.slots ((j + length q.queue - q.idx) % length q.queue)
          (mod-lt (j + length q.queue - q.idx) (omega arith)))

  -- `empty` answers whether the list is empty; its DCHECK that an empty queue holds no buffer passes.
  pub is_empty_refines : {xs : List T} → Represents min_len q xs → is_empty q ≡ some (is_nil xs)
  unfolding is_empty
  is_empty_refines {xs = []} r = ground (arith, ends_meet r, no_slot_left r)
  is_empty_refines {xs = x ∷ xs} r = ground (arith, ends_apart r)

  unless_empty-some {κ} :
      {A : Type κ} {x : T} {xs : List T} (a : A)
      → Represents min_len q (x ∷ xs)
      → unless_empty q a ≡ some a
  unfolding unless_empty
  unless_empty-some a r = rw (is_empty_refines r)

  unless_empty-none {κ} : {A : Type κ} (a : A) → Represents min_len q [] → unless_empty q a ≡ none
  unfolding unless_empty
  unless_empty-none a r = rw (is_empty_refines r)

  -- On an empty queue `front`, `back` and `pop_front` fail their DCHECK.
  pub access_empty :
      Represents min_len q [] → (front q ≡ none) × (back q ≡ none) × (pop_front q ≡ none)
  unfolding front back pop_front
  access_empty r = (unless_empty-none _ r, unless_empty-none _ r, unless_empty-none _ r)

  -- `front` returns the oldest buffer, never a null pointer.
  pub front_refines :
      {x : T} {xs : List T} → Represents min_len q (x ∷ xs) → front q ≡ some (some x)
  unfolding front
  front_refines {x = x} r =
      unless_empty-some _ r
      ∙ ap some (
          ap (λ i. get_or q.queue i none) (sym (wrap_zero q.idx _ r.idx_in))
          ∙ r.slots 0 (omega (arith, r.room)))

  back_unless :
      (x : T) (xs : List T)
      → Represents min_len q (xs ++ (x ∷ []))
      → back q ≡ some (get_or q.queue ((q.end_idx + length q.queue - 1) % length q.queue) none)
  unfolding back
  back_unless x [] r = unless_empty-some _ r
  back_unless x (y ∷ ys) r = unless_empty-some _ r

  -- `back` returns the buffer that was pushed last.
  pub back_refines :
      (x : T) (xs : List T) → Represents min_len q (xs ++ (x ∷ [])) → back q ≡ some (some x)
  unfolding back
  back_refines x xs r =
      let n = length q.queue in
      let size : length (xs ++ (x ∷ [])) ≡ length xs + 1 = length-append xs (x ∷ []) in
      let behind : (q.end_idx + n - 1) % n ≡ (q.idx + length xs) % n =
        ap (λ t. (t + n - 1) % n) (r.end_at ∙ ap (λ t. (q.idx + t) % n) size)
        ∙ wrap_pred q.idx (length xs) n r.idx_in (omega (arith, r.room, size)) in
      back_unless x xs r
      ∙ ap some (
          ap (λ i. get_or q.queue i none) behind
          ∙ r.slots (length xs) (omega (arith, r.room, size))
          ∙ get_elem?-append_right xs (x ∷ []) (length xs) 0 (omega arith))

  -- `length` counts the buffers.
  pub queue_length_refines : {xs : List T} → Represents min_len q xs → queue_length q ≡ length xs
  unfolding queue_length
  queue_length_refines {xs = xs} r =
      ap (λ t. (t + length q.queue - q.idx) % length q.queue) r.end_at
      ∙ wrap_back q.idx (length xs) (length q.queue) r.idx_in r.room

module _ {ℓ} {T : Type ℓ} {min_len : ℕ} {q : IoQueue T} {x : T} {xs : List T}
    (r : Represents min_len q (x ∷ xs)) where
  popped : IoQueue T
  popped = record q { idx = (q.idx + 1) % length q.queue; queue = set q.queue q.idx none }

  slot-popped :
      (k : ℕ)
      → k < length q.queue
      → get_or (set q.queue q.idx none) (((q.idx + 1) % length q.queue + k) % length q.queue) none
        ≡ get_elem? xs k
  slot-popped k hk = elim (ℕ_discrete (suc k) (length q.queue)) [
    | yes e ↦
        ap (λ i. get_or (set q.queue q.idx none) i none)
          (wrap_suc q.idx k (length q.queue) r.idx_in hk
            ∙ ap (λ t. (q.idx + t) % length q.queue) e
            ∙ wrap_full q.idx _ r.idx_in)
        ∙ get_or-set_self q.queue q.idx none none r.idx_in
        ∙ sym (get_elem?-beyond xs k (omega (arith, r.room)))
    | no ne ↦
        ap (λ i. get_or (set q.queue q.idx none) i none)
          (wrap_suc q.idx k (length q.queue) r.idx_in hk)
        ∙ get_or-set_ne q.queue q.idx _ none none (apart ne)
        ∙ r.slots (suc k) (omega arith)
  ]
    where
      apart : suc k ≢ length q.queue → q.idx ≢ (q.idx + suc k) % length q.queue
      apart ne e = absurd (
          omega (
            arith,
            wrap-injective q.idx 0 (suc k) (length q.queue) r.idx_in (omega (arith, r.room))
                (omega arith) (wrap_zero q.idx _ r.idx_in ∙ e),
          ))

  popped-Represents : Represents min_len popped xs
  unfolding popped
  popped-Represents =
      let n : length (set q.queue q.idx none) ≡ length q.queue = length-set q.queue q.idx none in
      record {
        deep = r.deep;
        wide = rw n r.wide;
        idx_in = rw n (wrap-lt q.idx 1 (length q.queue) r.idx_in (omega (arith, r.deep, r.wide)));
        end_at =
            rw n (r.end_at ∙ sym (wrap_suc q.idx (length xs) _ r.idx_in (omega (arith, r.room))));
        room = rw n (omega (arith, r.room));
        slots = rw n slot-popped;
      }

  -- `pop_front` drops the oldest buffer, and leaves a queue of the others in order.
  pub pop_front_refines : (q' : IoQueue T) × (pop_front q ≡ some q') × Represents min_len q' xs
  unfolding pop_front popped
  pop_front_refines = (popped, unless_empty-some _ r, popped-Represents)
