-- ===== src/Dns/Parser.antt =====
-- `response_parser::parse` and `rdata` of src/net/dns_message_response_parser.hpp. The iterator `i`
-- is a place in memory; a difference of iterators below zero is compared as zero is.
use yass.Common.{
  ℕ, zero, suc, ◌+◌, ◌-◌, ◌*◌, ◌/◌, Bool, not, ◌||◌, Option, none, some, List, [], ◌∷◌, ◌++◌, ltb,
  ◌==◌, if◌then◌else◌, Mem, slice,
}
use yass.Address.{good, bad, indeterminate, Parsed}
use yass.Dns.{
  Response, get16bit, type_a, type_aaaa, type_cname, type_dname, class_in, Skipped, skipqname,
  stopped, passed, Name, read_name, malformed, complete,
}

pub data Rdata : Type 0 where
  unfinished : Rdata
  rejected accepted : Response → Rdata

abbrev pub push_cname : Response → List ℕ → Response
push_cname r name = record r { cname = r.cname ++ (name ∷ []) }

pub named : Response → Name → Rdata
named r (Name.unfinished name) = Rdata.unfinished
named r (malformed name) = rejected (push_cname r name)
named r (complete name) = accepted (push_cname r name)

-- `rdata`, with the data at `i`
unfoldable pub rdata : ℕ → Response → Mem → ℕ → ℕ → ℕ → ℕ → ℕ → Rdata
rdata fuel r mem init i end rdlength type =
    if type == type_a
    then (if not (rdlength == 4)
        then rejected r
        else accepted (record r { a = r.a ++ (slice mem i 4 ∷ []) }))
    else if type == type_aaaa
    then (if not (rdlength == 16)
        then rejected r
        else accepted (record r { aaaa = r.aaaa ++ (slice mem i 16 ∷ []) }))
    else if type == type_cname
    then named r (read_name fuel mem init end i [])
    else accepted r

-- A section: it stopped, with the iterator there, or went through.
pub data Section : Type 0 where
  unfinished : Section
  halted through : Response → ℕ → Section

-- `while (qdcount)`
unfoldable pub questions : ℕ → ℕ → Response → Mem → ℕ → ℕ → Section
questions fuel zero r mem i end = through r i
questions fuel (suc count) r mem i end = elim (skipqname fuel mem i end) [
  | Skipped.unfinished ↦ Section.unfinished
  | stopped j ↦ halted r j
  | passed j ↦
      let rest = questions fuel count r mem (j + 4) end in
      if ltb (end - j) 4 then halted r j else rest
]

abbrev pub is_known : ℕ → Bool
is_known type = type == type_a || type == type_aaaa || type == type_cname || type == type_dname

-- The fixed part of an answer, from its type at `j` on, up to its data.
unfoldable pub answer : ℕ → Response → Mem → ℕ → ℕ → ℕ → (Response → ℕ → Section) → Section
answer fuel r mem init j end next =
    let type = get16bit mem j in
    let rdlength = get16bit mem (j + 8) in
    if ltb (end - j) 2
    then halted r j
    else if not (is_known type)
    then halted r j
    else if ltb (end - (j + 2)) 2
    then halted r (j + 2)
    else if not (get16bit mem (j + 2) == class_in)
    then halted r (j + 2)
    else if ltb (end - (j + 4)) 4
    then halted r (j + 4)
    else if ltb (end - (j + 8)) 2
    then halted r (j + 8)
    else if ltb (end - (j + 10)) rdlength
    then halted r (j + 10)
    else elim (rdata fuel r mem init (j + 10) end rdlength type) [
      | Rdata.unfinished ↦ Section.unfinished
      | rejected r' ↦ halted r' (j + 10)
      | accepted r' ↦ next r' (j + 10 + rdlength)
    ]

-- `while (ancount)`
unfoldable pub answers : ℕ → ℕ → Response → Mem → ℕ → ℕ → ℕ → Section
answers fuel zero r mem init i end = through r i
answers fuel (suc count) r mem init i end = elim (skipqname fuel mem i end) [
  | Skipped.unfinished ↦ Section.unfinished
  | stopped j ↦ halted r j
  | passed j ↦ answer fuel r mem init j end (λ r' k. answers fuel count r' mem init k end)
]

-- `while (nscount)`, and `while (arcount)` likewise: the records are passed over.
unfoldable pub records : ℕ → ℕ → Response → Mem → ℕ → ℕ → Section
records fuel zero r mem i end = through r i
records fuel (suc count) r mem i end = elim (skipqname fuel mem i end) [
  | Skipped.unfinished ↦ Section.unfinished
  | stopped j ↦ halted r j
  | passed j ↦
      let rest = records fuel count r mem (j + 10 + get16bit mem (j + 8)) end in
      if ltb (end - j) 8
      then halted r j
      else if ltb (end - (j + 8)) 2
      then halted r (j + 8)
      else if ltb (end - (j + 10)) (get16bit mem (j + 8))
      then halted r (j + 10)
      else rest
]

pub data State : Type 0 where
  response_start response_qd_start response_an_start response_ns_start response_ar_start : State

-- `reset()`, from any state
abbrev pub reset : State → State
reset st = response_start

-- A section that went through hands on to the next; `none` is a loop that did not end.
unfoldable pub after :
    State
    → Section
    → (Response → ℕ → Option (Parsed State Response))
    → Option (Parsed State Response)
after st Section.unfinished k = none
after st (halted r i) k = some (st, r, indeterminate, i)
after st (through r i) k = k r i

-- `get16bit` of a count in the header that was copied to the response.
abbrev pub count_at : List ℕ → ℕ → ℕ
count_at [] n = 0
count_at (x ∷ []) n = 0
count_at (x ∷ y ∷ header) zero = x * 256 + y
count_at (x ∷ y ∷ header) (suc n) = count_at header n

unfoldable pub parse_ar : ℕ → Response → Mem → ℕ → ℕ → Option (Parsed State Response)
parse_ar fuel r mem i end =
    after response_ar_start (records fuel (count_at r.header 5) r mem i end)
      (λ r' j. some (response_ar_start, r', good, j))

unfoldable pub parse_ns : ℕ → Response → Mem → ℕ → ℕ → Option (Parsed State Response)
parse_ns fuel r mem i end =
    after response_ns_start (records fuel (count_at r.header 4) r mem i end)
      (λ r' j. parse_ar fuel r' mem j end)

unfoldable pub parse_an : ℕ → Response → Mem → ℕ → ℕ → ℕ → Option (Parsed State Response)
parse_an fuel r mem init i end =
    after response_an_start (answers fuel (count_at r.header 3) r mem init i end)
      (λ r' j. parse_ns fuel r' mem j end)

unfoldable pub parse_qd : ℕ → Response → Mem → ℕ → ℕ → ℕ → Option (Parsed State Response)
parse_qd fuel r mem init i end =
    after response_qd_start (questions fuel (count_at r.header 2) r mem i end)
      (λ r' j. parse_an fuel r' mem init j end)

unfoldable pub parse : ℕ → State → Response → Mem → ℕ → ℕ → ℕ → Option (Parsed State Response)
parse fuel response_start r mem init begin end =
    let headed : Response = record r { header = slice mem begin 12 } in
    if ltb (end - begin) 12
    then some (response_start, r, indeterminate, begin)
    else if not (mem (begin + 2) / 128 == 1)
    then some (response_start, headed, bad, begin)
    else parse_qd fuel headed mem init (begin + 12) end
parse fuel response_qd_start r mem init begin end = parse_qd fuel r mem init begin end
parse fuel response_an_start r mem init begin end = parse_an fuel r mem init begin end
parse fuel response_ns_start r mem init begin end = parse_ns fuel r mem begin end
parse fuel response_ar_start r mem init begin end = parse_ar fuel r mem begin end
