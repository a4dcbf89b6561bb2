-- ===== src/Dns/Replies.antt =====
-- A whole response, with a question and addresses as answers, through `response_parser::parse` of
-- src/net/dns_message_response_parser.hpp.
use yass.Common.{
  ℕ, suc, ◌+◌, ◌-◌, ◌≤◌, ◌<◌, ◌≡◌, refl, sym, ap, ap₂, ◌∙◌, arith, false, List, [], ◌∷◌, ◌++◌, ltb,
  Mem, slice, length, length-append, All,
}
use mathlib.Core.List.{append_assoc, append-nil}
use yass.Handshake.{View}
use yass.Handshake.Views.{Begins, skip, Begins-byte, Begins-first, Begins-skip, Begins-append}
use yass.Dns.{Response, get16bit, type_a, skip_labels, skipqname, passed}
use yass.Dns.Parser.{accepted, rdata, Section, through, answer, answers}

-- An answer of type A: a pointer as its name, type, class, time to live, length and address.
pub record Answer : Type 0 where
  pub pointer : ℕ
  pub ttl : List ℕ
  pub address : List ℕ

pub record IsAnswer (x : Answer) : Type 0 where
  pub ttl_whole : length x.ttl ≡ 4
  pub address_whole : length x.address ≡ 4

abbrev pub answer_bytes : Answer → List ℕ
answer_bytes x = 0xc0 ∷ x.pointer ∷ 0 ∷ 1 ∷ 0 ∷ 1 ∷ (x.ttl ++ (0 ∷ 4 ∷ x.address))

abbrev pub answers_bytes : List Answer → List ℕ
answers_bytes [] = []
answers_bytes (x ∷ xs) = answer_bytes x ++ answers_bytes xs

abbrev pub addresses : List Answer → List (List ℕ)
addresses [] = []
addresses (x ∷ xs) = x.address ∷ addresses xs

skip-pointer :
    (fuel : ℕ) (mem : Mem) (i end : ℕ)
    → mem i ≡ 0xc0
    → i + 2 ≤ end
    → end < i + 65536
    → skipqname (suc fuel) mem i end ≡ passed (i + 2)
unfolding skipqname skip_labels
skip-pointer fuel mem i end p h s = ground arith

rdata-a :
    (fuel : ℕ) (r : Response) (mem : Mem) (start i end : ℕ)
    → rdata fuel r mem start i end 4 type_a
      ≡ accepted (record r { a = r.a ++ (slice mem i 4 ∷ []) })
unfolding rdata
rdata-a fuel r mem start i end = refl

answer-a :
    (fuel : ℕ) (r : Response) (mem : Mem) (start j end : ℕ) (next : Response → ℕ → Section)
    → get16bit mem j ≡ 1
    → get16bit mem (j + 2) ≡ 1
    → get16bit mem (j + 8) ≡ 4
    → j + 14 ≤ end
    → answer fuel r mem start j end next
      ≡ next (record r { a = r.a ++ (slice mem (j + 10) 4 ∷ []) }) (j + 14)
unfolding answer
answer-a fuel r mem start j end next t c l h =
    let a : ltb (end - j) 2 ≡ false = ground arith in
    let b : ltb (end - (j + 2)) 2 ≡ false = ground arith in
    let d : ltb (end - (j + 4)) 4 ≡ false = ground arith in
    let e : ltb (end - (j + 8)) 2 ≡ false = ground arith in
    let f : ltb (end - (j + 10)) 4 ≡ false = ground arith in
    rw (a, t, b, c, d, e, l, f, rdata-a fuel r mem start (j + 10) end)
      (ap (next (record r { a = r.a ++ (slice mem (j + 10) 4 ∷ []) })) (omega arith))

answers-one :
    (fuel count : ℕ) (r : Response) (mem : Mem) (start i end : ℕ)
    → mem i ≡ 0xc0
    → get16bit mem (i + 2) ≡ 1
    → get16bit mem (i + 2 + 2) ≡ 1
    → get16bit mem (i + 2 + 8) ≡ 4
    → i + 16 ≤ end
    → end < i + 65536
    → answers (suc fuel) (suc count) r mem start i end
      ≡ answers
          (suc fuel)
          count
          (record r { a = r.a ++ (slice mem (i + 2 + 10) 4 ∷ []) })
          mem
          start
          (i + 2 + 14)
          end
unfolding answers
answers-one fuel count r mem start i end p t c l h s =
    rw (skip-pointer fuel mem i end p (omega arith) s, answers)
      (answer-a (suc fuel) r mem start (i + 2) end _ t c l (omega arith))

length-answer : (x : Answer) → IsAnswer x → length (answer_bytes x) ≡ 16
length-answer x h =
    omega (arith, h.ttl_whole, h.address_whole, length-append {0} x.ttl (0 ∷ 4 ∷ x.address))

-- What stands where in an answer.
module _ (x : Answer) (good_ : IsAnswer x) (b : View) (held : Begins (answer_bytes x) b) where
  type_there : get16bit b.mem (b.offset + 2) ≡ 1
  type_there = omega (
    arith,
    Begins-byte held 2 (omega arith),
    Begins-byte held 3 (omega arith),
    ap b.mem (let e : b.offset + 2 + 1 ≡ b.offset + 3 = omega arith in e),
  )

  class_there : get16bit b.mem (b.offset + 2 + 2) ≡ 1
  class_there = omega (
    arith,
    Begins-byte held 4 (omega arith),
    Begins-byte held 5 (omega arith),
    ap b.mem (let e : b.offset + 2 + 2 ≡ b.offset + 4 = omega arith in e),
    ap b.mem (let e : b.offset + 2 + 2 + 1 ≡ b.offset + 5 = omega arith in e),
  )

  behind_ttl : Begins (0 ∷ 4 ∷ x.address) (skip (length x.ttl) (skip 6 b))
  behind_ttl =
      Begins-skip x.ttl (0 ∷ 4 ∷ x.address)
        (Begins-skip (0xc0 ∷ x.pointer ∷ 0 ∷ 1 ∷ 0 ∷ 1 ∷ []) (x.ttl ++ (0 ∷ 4 ∷ x.address)) held)

  length_there : get16bit b.mem (b.offset + 2 + 8) ≡ 4
  length_there = omega (
    arith,
    Begins-byte behind_ttl 0 (omega arith),
    Begins-byte behind_ttl 1 (omega arith),
    ap b.mem (
        let e : b.offset + 2 + 8 ≡ b.offset + 6 + length x.ttl + 0 =
          omega (arith, good_.ttl_whole) in
        e),
    ap b.mem (
        let e : b.offset + 2 + 8 + 1 ≡ b.offset + 6 + length x.ttl + 1 =
          omega (arith, good_.ttl_whole) in
        e),
  )

  address_there : slice b.mem (b.offset + 2 + 10) 4 ≡ x.address
  address_there =
      ap₂ (slice b.mem)
        (let e : b.offset + 2 + 10 ≡ b.offset + 6 + length x.ttl + 2 =
            omega (arith, good_.ttl_whole) in
          e)
        (sym good_.address_whole)
      ∙ (Begins-skip (0 ∷ 4 ∷ []) x.address behind_ttl).held

-- `xs` more answers, and where the iterator stands then.
pub answers-all :
    (fuel : ℕ) (xs : List Answer) (r : Response) (start end : ℕ) (b : View)
    → All IsAnswer xs
    → b.offset + length (answers_bytes xs) ≤ end
    → end < b.offset + 65536
    → Begins (answers_bytes xs) b
    → answers (suc fuel) (length xs) r b.mem start b.offset end
      ≡ through (record r { a = r.a ++ addresses xs }) (b.offset + length (answers_bytes xs))
answers-all fuel [] r start end b p e s held =
    unfold answers in
    ap₂ (λ x i. through (record r { a = x }) i) (sym (append-nil r.a)) (omega arith)
answers-all fuel (x ∷ xs) r start end b p e s held =
    let first = Begins-append (answer_bytes x) (answers_bytes xs) held in
    let size_is = length-answer x p.0 in
    let whole = length-append {0} (answer_bytes x) (answers_bytes xs) in
    let there : b.offset + 2 + 14 ≡ b.offset + length (answer_bytes x) = omega (arith, size_is) in
    answers-one fuel (length xs) r b.mem start b.offset end (Begins-first first)
      (type_there x p.0 b first) (class_there x p.0 b first) (length_there x p.0 b first)
      (omega (arith, e, whole, size_is)) s
    ∙ ap₂
        (λ l j. answers (suc fuel) (length xs) (record r { a = r.a ++ (l ∷ []) }) b.mem start j end)
        (address_there x p.0 b first) there
    ∙ answers-all fuel xs (record r { a = r.a ++ (x.address ∷ []) }) start end
        (skip (length (answer_bytes x)) b) p.1 (omega (arith, e, whole)) (omega (arith, s, size_is))
        (Begins-skip (answer_bytes x) (answers_bytes xs) held)
    ∙ ap₂ (λ l j. through (record r { a = l }) j) (append_assoc r.a (x.address ∷ []) (addresses xs))
        (omega (arith, whole))
