-- ===== src/IoQueue/Enlarge.antt =====
-- `enlarge_queue_by_2x` and `push_back` of src/net/io_queue.hpp: a full queue is unrolled to the
-- front of a vector of twice the size.
use yass.Common.{
  ℕ, ◌+◌, ◌-◌, ◌*◌, ◌%◌, ◌≤◌, ◌<◌, ◌≡◌, ◌≢◌, refl, sym, ap, ◌∙◌, Option, none, some, List, [], ◌∷◌,
  ◌++◌, arith, length, get_or, get_elem?, take, drop, replicate, length-append, length-take,
  length-drop, length-replicate, get_or-append_left, get_or-append_right, get_or-drop, get_or-take,
  get_or-replicate, get_elem?-beyond,
}
use native.Mathlib.Decide.{dec_lt}
use yass.IoQueue.Wrap.{wrap_low, wrap_high, wrap-injective, wrap_zero, wrap_full}
use yass.IoQueue.Refine.{
  Represents, length-store_back, slot-store_back, end_idx-store_back, store_back-Represents,
}
use yass.IoQueue.{IoQueue, int_max, unrolled, enlarge_queue_by_2x, store_back, push_back}

-- A full vector, unrolled, lies at the front of one of twice the size.
module _ {ℓ} {T : Type ℓ} (b : List (Option T)) (i : ℕ) (i_in : i < length b) where
  length-rotate : length (drop i b ++ take i b) ≡ length b
  length-rotate =
      omega (arith, length-append (drop i b) (take i b), length-drop i b, length-take i b)

  get_or-rotate :
      (k : ℕ)
      → k < length b
      → get_or (drop i b ++ take i b) k none ≡ get_or b ((i + k) % length b) none
  get_or-rotate k hk = elim (dec_lt (i + k) (length b)) [
    | yes p ↦
        get_or-append_left (drop i b) (take i b) k none (omega (arith, length-drop i b))
        ∙ get_or-drop i b k (i + k) none refl
        ∙ ap (λ j. get_or b j none) (sym (wrap_low i k (length b) p))
    | no p ↦
        get_or-append_right (drop i b) (take i b) k (i + k - length b) none
          (omega (arith, length-drop i b))
        ∙ get_or-take i b (i + k - length b) none (omega arith)
        ∙ ap (λ j. get_or b j none)
            (sym (wrap_high i k (length b) i_in (omega arith) (omega arith)))
  ]

  length-doubled :
      length
        ((drop i b ++ take i b) ++ replicate (length b * 2 - length (drop i b ++ take i b)) none)
      ≡ length b * 2
  length-doubled = omega (
    arith,
    length-rotate,
    length-append (drop i b ++ take i b)
        (replicate (length b * 2 - length (drop i b ++ take i b)) none),
    length-replicate {A = Option T} (length b * 2 - length (drop i b ++ take i b)) none,
  )

  pub get_or-doubled_low :
      (k : ℕ)
      → k < length b
      → get_or
          ((drop i b ++ take i b) ++ replicate (length b * 2 - length (drop i b ++ take i b)) none)
          k
          none
        ≡ get_or b ((i + k) % length b) none
  get_or-doubled_low k hk =
      get_or-append_left (drop i b ++ take i b) _ k none (omega (arith, length-rotate))
      ∙ get_or-rotate k hk

  pub get_or-doubled_high :
      (k : ℕ)
      → length b ≤ k
      → get_or
          ((drop i b ++ take i b) ++ replicate (length b * 2 - length (drop i b ++ take i b)) none)
          k
          none
        ≡ none
  get_or-doubled_high k hk =
      get_or-append_right (drop i b ++ take i b) _ k (k - length b) none
        (omega (arith, length-rotate))
      ∙ get_or-replicate (length b * 2 - length (drop i b ++ take i b)) none (k - length b)

module _ {ℓ} {T : Type ℓ} (q : IoQueue T) where
  grown : IoQueue T
  grown =
      let rotated = drop q.idx q.queue ++ take q.idx q.queue in
      record {
        idx = 0;
        end_idx = length q.queue;
        queue = rotated ++ replicate (length q.queue * 2 - length rotated) none;
      }

  enlarge-eq :
      q.idx ≡ q.end_idx
      → q.idx < length q.queue
      → length q.queue * 4 ≤ int_max
      → enlarge_queue_by_2x q ≡ some grown
  unfolding enlarge_queue_by_2x unrolled grown
  enlarge-eq e h small = rw (← e) (ground arith)

  length-grown : q.idx < length q.queue → length grown.queue ≡ length q.queue * 2
  unfolding grown
  length-grown h = length-doubled q.queue q.idx h

module _ {ℓ} {T : Type ℓ} (min_len : ℕ) (q : IoQueue T) (ys : List T) where
  grown-Represents :
      2 ≤ min_len
      → min_len ≤ length q.queue
      → q.idx < length q.queue
      → length ys ≡ length q.queue
      → ((k : ℕ)
          → k < length q.queue
          → get_or q.queue ((q.idx + k) % length q.queue) none ≡ get_elem? ys k)
      → Represents min_len (grown q) ys
  unfolding grown
  grown-Represents deep wide h full slots = record {
    deep = deep;
    wide = omega (arith, length-grown q h);
    idx_in = omega (arith, length-grown q h);
    end_at =
        rw (length-grown q h)
          (omega (arith, wrap_low 0 (length ys) (length q.queue * 2) (omega arith)));
    room = omega (arith, length-grown q h);
    slots =
        rw (length-grown q h)
          (λ k hk. rw (wrap_low 0 k (length q.queue * 2) (omega arith)) (slot k));
  }
    where
      slot : (k : ℕ) → get_or (grown q).queue (0 + k) none ≡ get_elem? ys k
      slot k = elim (dec_lt k (length q.queue)) [
        | yes p ↦
            ap (λ j. get_or (grown q).queue j none) (let e : 0 + k ≡ k = omega arith in e)
            ∙ get_or-doubled_low q.queue q.idx h k p
            ∙ slots k p
        | no p ↦
            ap (λ j. get_or (grown q).queue j none) (let e : 0 + k ≡ k = omega arith in e)
            ∙ get_or-doubled_high q.queue q.idx h k (omega arith)
            ∙ sym (get_elem?-beyond ys k (omega arith))
      ]

module _ {ℓ} {T : Type ℓ} (x : T) (q : IoQueue T) where
  push_back_room :
      (store_back x q).end_idx ≢ (store_back x q).idx → push_back x q ≡ some (store_back x q)
  unfolding push_back
  push_back_room ne = ground arith

  push_back_full :
      (store_back x q).end_idx ≡ (store_back x q).idx
      → push_back x q ≡ enlarge_queue_by_2x (store_back x q)
  unfolding push_back
  push_back_full e = ground arith

-- Below the index limit `push_back` passes its DCHECKs and appends the buffer to the list, whether
-- the vector has room or has to be enlarged.
pub push_back_refines {ℓ} :
    {T : Type ℓ} {min_len : ℕ} {q : IoQueue T} {xs : List T} (x : T)
    → Represents min_len q xs
    → length q.queue * 4 ≤ int_max
    → (q' : IoQueue T) × (push_back x q ≡ some q') × Represents min_len q' (xs ++ (x ∷ []))
push_back_refines {min_len = m} {q = q} {xs = xs} x r small =
    elim (dec_lt (length xs + 1) (length q.queue)) [
      | yes p ↦ (store_back x q, push_back_room x q (open_end p), store_back-Represents r x p)
      | no p ↦ (
        grown (store_back x q),
        push_back_full x q (closed (omega arith))
            ∙ enlarge-eq (store_back x q) (sym (closed (omega arith)))
                (rw (length-store_back r x) idx_in) (rw (length-store_back r x) small),
        grown-Represents m (store_back x q) (xs ++ (x ∷ [])) r.deep
            (rw (length-store_back r x) r.wide) (rw (length-store_back r x) idx_in)
            (rw (length-store_back r x) (omega (arith, length-append xs (x ∷ []))))
            (rw (length-store_back r x) (unfold store_back in slot-store_back r x)),
      )
    ]
  where
    n : ℕ
    n = length q.queue

    same_idx : (store_back x q).idx ≡ q.idx
    same_idx = unfold store_back in refl

    idx_in : (store_back x q).idx < n
    idx_in = rw same_idx r.idx_in

    end_at : (store_back x q).end_idx ≡ (q.idx + (length xs + 1)) % n
    end_at = end_idx-store_back r x ∙ ap (λ t. (q.idx + t) % n) (length-append xs (x ∷ []))

    open_end : length xs + 1 < n → (store_back x q).end_idx ≢ (store_back x q).idx
    open_end p e = absurd (
        omega (
          arith,
          wrap-injective q.idx (length xs + 1) 0 n r.idx_in p (omega (arith, r.room))
              (sym end_at ∙ e ∙ same_idx ∙ sym (wrap_zero q.idx n r.idx_in)),
        ))

    closed : length xs + 1 ≡ n → (store_back x q).end_idx ≡ (store_back x q).idx
    closed e = end_at ∙ ap (λ t. (q.idx + t) % n) e ∙ wrap_full q.idx n r.idx_in ∙ sym same_idx
