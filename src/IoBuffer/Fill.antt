-- ===== src/IoBuffer/Fill.antt =====
-- A new `GrowableIOBuffer` of src/net/io_buffer.cpp that is written piece by piece from its start.
use yass.Common.{
  ℕ, ◌+◌, ◌≤◌, ◌≡◌, refl, sym, ap, ◌∙◌, some, List, [], ◌++◌, arith, length, take, drop,
  length-append,
}
use yass.IoBuffer.{GrowableBuffer, fresh, set_capacity, write_data, everything, contents}
use yass.IoBuffer.Valid.{IsValid, fresh-IsValid, set_capacity-IsValid}
use yass.IoBuffer.Append.{contents-everything, write_data_lem, take-write}

-- The buffer, `n` bytes large, has got its first bytes, `pre`.
pub record HasFirst (n : ℕ) (pre : List ℕ) (b : GrowableBuffer) : Type 0 where
  pub valid : IsValid b
  pub start : b.offset ≡ 0
  pub capacity_is : b.capacity ≡ n
  pub first : take (length pre) b.real_data ≡ pre

pub fresh-HasFirst :
    (fill : ℕ → ℕ) (n : ℕ)
    → (b : GrowableBuffer) × (set_capacity fill n fresh ≡ some b) × HasFirst n [] b
fresh-HasFirst fill n =
    let (b, made, v, off, cap, _) =
      set_capacity-IsValid fill n fresh-IsValid (unfold fresh in omega arith) in
    (
      b,
      made,
      record { valid = v; start = off ∙ unfold fresh in refl; capacity_is = cap; first = refl },
    )

pub write_data-HasFirst :
    (bytes : List ℕ) {n : ℕ} {pre : List ℕ} {b : GrowableBuffer}
    → HasFirst n pre b
    → length pre + length bytes ≤ n
    → (c : GrowableBuffer) × (write_data (length pre) bytes b ≡ some c)
      × HasFirst n (pre ++ bytes) c
write_data-HasFirst bytes {n} {pre} {b} h room =
    let (c, wrote, v, off, cap, mem) =
      write_data_lem (length pre) bytes h.valid
        (omega (arith, h.valid.rest, h.start, h.capacity_is)) in
    let at : b.offset + length pre ≡ length pre = omega (arith, h.start) in
    (
      c,
      wrote,
      record {
        valid = v;
        start = off ∙ h.start;
        capacity_is = cap ∙ h.capacity_is;
        first =
            ap (λ k. take k c.real_data) (length-append pre bytes)
            ∙ ap (take (length pre + length bytes)) (
                mem
                ∙ ap (λ o. take o b.real_data ++ bytes ++ drop (o + length bytes) b.real_data) at)
            ∙ take-write (length pre) (length pre + length bytes) bytes b.real_data refl
                (omega (arith, h.valid.allocated, h.capacity_is))
            ∙ ap (λ l. l ++ bytes) h.first;
      },
    )

pub HasFirst-contents :
    {n : ℕ} {pre : List ℕ} {b : GrowableBuffer}
    → HasFirst n pre b
    → length pre ≡ n
    → contents b ≡ pre
HasFirst-contents {n} {pre} {b} h e =
    contents-everything h.valid
    ∙ ap (λ o. drop o (everything b)) h.start
    ∙ unfold everything in (ap (λ k. take k b.real_data) (h.capacity_is ∙ sym e) ∙ h.first)
