-- ===== src/Dns/Tests.antt =====
-- Concrete messages of src/net/dns_message_request.hpp and src/net/dns_message_response_parser.hpp.
use yass.Common.{
  ℕ, suc, length, ◌≡◌, ◌≢◌, refl, arith, some, List, [], ◌∷◌, ◌++◌, Mem, bytes_of, slice,
}
use yass.Address.{good}
use yass.Handshake.{View, received_view}
use yass.Handshake.Views.{received-Begins}
use yass.Dns.{
  out_of_fuel, encode_labels, encoded, c_str, init, built, request_header, question_tail, create,
  Name, read_name, complete, skipqname, passed,
}
use yass.Dns.Parser.{parse, response_start, response_ar_start}
use yass.Dns.Labels.{IsLabel, join, wire, init-join, encode_join}
use yass.Dns.Termination.{encode_labels-ends, read_name-never_ends}
use yass.Dns.Names.{qname, names_round_trip}
use yass.Dns.Replies.{Answer, answers_bytes}
use yass.Dns.Messages.{response_header, question, parse-addresses}

-- The host "ab.c".
abbrev labels : List (List ℕ)
labels = (97 ∷ 98 ∷ []) ∷ (99 ∷ []) ∷ []

first-IsLabel : IsLabel (97 ∷ 98 ∷ [])
first-IsLabel = record {
  some_byte = omega arith;
  short = omega arith;
  plain = ((omega arith, omega arith), ((omega arith, omega arith), tt));
}

second-IsLabel : IsLabel (99 ∷ [])
second-IsLabel = record {
  some_byte = omega arith;
  short = omega arith;
  plain = ((omega arith, omega arith), tt);
}

init-join_example :
    init (join labels) 28 ≡ built (request_header ++ (wire labels ++ question_tail 28))
init-join_example =
    init-join labels 28 (first-IsLabel, (second-IsLabel, tt)) (omega arith) (omega arith)

encode_labels-ends_example : encode_labels 4 (46 ∷ 46 ∷ 0 ∷ []) ≢ out_of_fuel
encode_labels-ends_example = encode_labels-ends 4 (46 ∷ 46 ∷ 0 ∷ []) (omega arith)

-- At offset 12, a pointer to offset 12.
abbrev self_pointer : Mem
self_pointer = bytes_of (0 ∷ 0 ∷ 0 ∷ 0 ∷ 0 ∷ 0 ∷ 0 ∷ 0 ∷ 0 ∷ 0 ∷ 0 ∷ 0 ∷ 192 ∷ 12 ∷ [])

read_name-never_ends_example : read_name 1000 self_pointer 0 14 12 [] ≡ Name.unfinished []
read_name-never_ends_example =
    read_name-never_ends 1000 self_pointer 0 14 12 [] (omega arith) (omega arith) refl

abbrev name_view : View
name_view = received_view (bytes_of []) (qname labels)

labels_encoded :
    encode_labels (suc (length (join labels))) (c_str (join labels))
    ≡ encoded (2 ∷ 97 ∷ 98 ∷ 1 ∷ 99 ∷ [])
labels_encoded = encode_join labels (first-IsLabel, (second-IsLabel, tt))

names_round_trip_example :
    (skipqname 3 name_view.mem 0 6 ≡ passed 6)
    × (read_name 3 name_view.mem 0 6 0 [] ≡ complete (97 ∷ 98 ∷ 46 ∷ 99 ∷ []))
unfolding received_view
names_round_trip_example =
    names_round_trip 3 labels (2 ∷ 97 ∷ 98 ∷ 1 ∷ 99 ∷ []) 0 6 name_view
      (first-IsLabel, (second-IsLabel, tt)) labels_encoded (omega arith) (omega arith) (omega arith)
      (received-Begins (bytes_of []) (qname labels))

abbrev one_answer : List Answer
one_answer = record { pointer = 12; ttl = 0 ∷ 0 ∷ 0 ∷ 60 ∷ []; address = 1 ∷ 2 ∷ 3 ∷ 4 ∷ [] } ∷ []

abbrev message : List ℕ
message = response_header 0 0 129 128 0 1 ++ (question labels 0 1 0 1 ++ answers_bytes one_answer)

abbrev message_view : View
message_view = received_view (bytes_of []) message

parse-addresses_example :
    parse 3 response_start create message_view.mem 0 0 38
    ≡ some (
      response_ar_start,
      record create { header = slice message_view.mem 0 12; a = (1 ∷ 2 ∷ 3 ∷ 4 ∷ []) ∷ [] },
      good,
      38,
    )
unfolding received_view
parse-addresses_example =
    parse-addresses 2 labels one_answer message_view 38 0 0 129 128 0 1 0 1 0 1
      (first-IsLabel, (second-IsLabel, tt)) (omega arith)
      (record { ttl_whole = refl; address_whole = refl }, tt) refl refl
      (received-Begins (bytes_of []) message) (omega arith) (omega arith)
