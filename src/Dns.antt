-- ===== src/Dns.antt =====
-- DNS messages: the request of src/net/dns_message_request.hpp, the response of
-- src/net/dns_message_response.hpp and its parser, src/net/dns_message_response_parser.hpp. The input
-- of the parser is what memory holds from `begin` up to `end`; memory goes on behind `end`. The two
-- loops over names have fuel, and say so when it runs out.
pub mod Parser
pub mod Labels
pub mod Termination
pub mod Names
pub mod Replies
pub mod Messages
mod Tests
use yass.Common.{
  ℕ, zero, suc, ◌+◌, ◌-◌, ◌*◌, ◌/◌, ◌%◌, Bool, true, false, not, ◌&&◌, ◌||◌, Option, none, some,
  List, [], ◌∷◌, ◌++◌, leb, ltb, ◌==◌, if◌then◌else◌, Mem, slice, length, take, drop,
}
use yass.Address.{Outcome, good, bad, indeterminate}

abbrev pub type_a : ℕ
type_a = 1

abbrev pub type_cname : ℕ
type_cname = 5

abbrev pub type_aaaa : ℕ
type_aaaa = 28

abbrev pub type_dname : ℕ
type_dname = 39

abbrev pub class_in : ℕ
class_in = 1

-- How many bytes stand in front of the first dot, or of the end.
pub label_len : List ℕ → ℕ
label_len [] = 0
label_len (c ∷ host) = let rest = label_len host in if c == b'.' then 0 else suc rest

-- `strlen` counts up to the first NUL.
pub c_str : List ℕ → List ℕ
c_str [] = []
c_str (c ∷ host) = let rest = c_str host in if c == 0 then [] else c ∷ rest

pub data Encoded : Type 0 where
  out_of_fuel bad_label : Encoded
  encoded : List ℕ → Encoded

abbrev pub prepend : List ℕ → Encoded → Encoded
prepend bytes out_of_fuel = out_of_fuel
prepend bytes bad_label = bad_label
prepend bytes (encoded more) = encoded (bytes ++ more)

-- `while (*hostp)`: one label a round. The dot behind it, if there is one, is passed over.
pub encode_labels : ℕ → List ℕ → Encoded
encode_labels zero host = out_of_fuel
encode_labels (suc fuel) [] = encoded []
encode_labels (suc fuel) (c ∷ host) =
    let n = label_len (c ∷ host) in
    let rest = prepend (n ∷ take n (c ∷ host)) (encode_labels fuel (drop (n + 1) (c ∷ host))) in
    if ltb 63 n || n == 0 then bad_label else rest

abbrev pub last_byte : List ℕ → ℕ
last_byte [] = 0
last_byte (c ∷ []) = c
last_byte (c ∷ d ∷ host) = last_byte (d ∷ host)

abbrev pub expected_len : List ℕ → ℕ
expected_len host = 12 + 1 + length host + 4 + (if last_byte host == b'.' then 0 else 1)

-- The header's bytes: `rd` is 1, `qdcount` is 1 in network order.
abbrev pub request_header : List ℕ
request_header = 0 ∷ 0 ∷ 1 ∷ 0 ∷ 0 ∷ 1 ∷ 0 ∷ 0 ∷ 0 ∷ 0 ∷ 0 ∷ 0 ∷ []

-- The zero-length label of the root, the type and the class.
abbrev pub question_tail : ℕ → List ℕ
question_tail dnstype = 0 ∷ (dnstype / 256 % 256) ∷ (dnstype % 256) ∷ 0 ∷ class_in ∷ []

-- What `init` returns and leaves: false, or true and the two buffers, header and body; or a failed
-- DCHECK on the length, or a loop that did not end.
pub data Init : Type 0 where
  refused unfinished mismatched : Init
  built : List ℕ → Init

unfoldable pub finish : List ℕ → ℕ → Encoded → Init
finish host dnstype out_of_fuel = unfinished
finish host dnstype bad_label = refused
finish host dnstype (encoded labels) =
    let body = labels ++ question_tail dnstype in
    if 12 + length body == expected_len host then built (request_header ++ body) else mismatched

unfoldable pub init : List ℕ → ℕ → Init
init [] dnstype = refused
init (c ∷ host) dnstype =
    if ltb (256 + 16) (expected_len (c ∷ host))
    then refused
    else finish (c ∷ host) dnstype (encode_labels (suc (length (c ∷ host))) (c_str (c ∷ host)))

-- `response`: the header's bytes, and the answers in the order they came.
pub record Response : Type 0 where
  pub header : List ℕ
  pub a : List (List ℕ)
  pub aaaa : List (List ℕ)
  pub cname : List (List ℕ)

unfoldable pub create : Response
create = record { header = []; a = []; aaaa = []; cname = [] }

abbrev pub get16bit : Mem → ℕ → ℕ
get16bit mem i = mem i * 256 + mem (i + 1)

pub data Skipped : Type 0 where
  unfinished : Skipped
  stopped : ℕ → Skipped  -- false, with the iterator there
  passed : ℕ → Skipped

-- `dohlen` is set once, from the whole length, narrowed to 16 bits.
pub skip_labels : ℕ → Mem → ℕ → ℕ → Skipped
skip_labels zero mem dohlen i = Skipped.unfinished
skip_labels (suc fuel) mem dohlen i =
    let rest = skip_labels fuel mem dohlen (i + (1 + mem i)) in
    if ltb dohlen 1
    then stopped i
    else if leb 0xc0 (mem i)
    then (if ltb dohlen 2 then stopped i else passed (i + 2))
    else if leb 0x40 (mem i)
    then stopped i
    else if ltb dohlen (1 + mem i)
    then stopped i
    else if mem i == 0
    then passed (i + 1)
    else rest

-- Each call of the parser has the iterator in front of `end` or at it.
unfoldable pub skipqname : ℕ → Mem → ℕ → ℕ → Skipped
skipqname fuel mem i end = skip_labels fuel mem ((end - i) % 65536) i

-- The name that was read so far, and whether it is complete.
pub data Name : Type 0 where
  unfinished : List ℕ → Name
  malformed : List ℕ → Name
  complete : List ℕ → Name

abbrev pub join_label : List ℕ → List ℕ → List ℕ
join_label [] label = label
join_label (c ∷ name) label = (c ∷ name) ++ (b'.' ∷ label)

-- The loop of `rdata` on a CNAME. A pointer goes to an offset from `init`, wherever that lies.
pub read_name : ℕ → Mem → ℕ → ℕ → ℕ → List ℕ → Name
read_name zero mem init end i name = Name.unfinished name
read_name (suc fuel) mem init end i name =
    let len = mem i in
    let pointed = read_name fuel mem init end (init + ((len % 64) * 256 + mem (i + 1))) name in
    let next =
      read_name fuel mem init end (i + 1 + len) (join_label name (slice mem (i + 1) len)) in
    if leb 0xc0 len
    then (if ltb (end - i) 1 then malformed name else pointed)
    else if leb 0x40 len
    then malformed name
    else if len == 0
    then complete name
    else if ltb (end - (i + 1)) len
    then malformed name
    else next
