-- ===== src/Dns/Messages.antt =====
-- A whole response, with one question and addresses as answers, through `response_parser::parse` of
-- src/net/dns_message_response_parser.hpp.
use yass.Common.{
  ℕ, suc, ◌+◌, ◌-◌, ◌*◌, ◌/◌, ◌≤◌, ◌<◌, ◌≡◌, refl, sym, ap, ap₂, ◌∙◌, arith, false, some, List, [],
  ◌∷◌, ◌++◌, ltb, Mem, slice, length, length-append, All,
}
use yass.Address.{good}
use yass.Handshake.{View}
use yass.Handshake.Views.{Begins, skip, Begins-byte, Begins-skip, Begins-append}
use yass.Dns.{Response, create, passed, skipqname}
use yass.Dns.Parser.{
  through, questions, answers, records, response_start, response_ar_start, after, count_at,
  parse_ar, parse_ns, parse_an, parse_qd, parse,
}
use yass.Dns.Labels.{IsLabel}
use yass.Dns.Names.{qname, qname_read}
use yass.Dns.Replies.{Answer, IsAnswer, answers_bytes, addresses, answers-all}

parse-headed :
    (fuel : ℕ) (r : Response) (mem : Mem) (start begin end : ℕ)
    → 12 ≤ end - begin
    → mem (begin + 2) / 128 ≡ 1
    → parse fuel response_start r mem start begin end
      ≡ parse_qd fuel (record r { header = slice mem begin 12 }) mem start (begin + 12) end
unfolding parse
parse-headed fuel r mem start begin end h q =
    let room : ltb (end - begin) 12 ≡ false = ground arith in rw (room, q)

one_question :
    (fuel : ℕ) (r : Response) (mem : Mem) (i j end : ℕ)
    → skipqname fuel mem i end ≡ passed j
    → 4 ≤ end - j
    → questions fuel 1 r mem i end ≡ through r (j + 4)
unfolding questions
one_question fuel r mem i j end e h =
    let room : ltb (end - j) 4 ≡ false = ground arith in rw (e, questions) (rw (room, questions))

-- Nothing in the last two sections.
parse_ns-empty :
    (fuel : ℕ) (r : Response) (mem : Mem) (i end : ℕ)
    → count_at r.header 4 ≡ 0
    → count_at r.header 5 ≡ 0
    → parse_ns fuel r mem i end ≡ some (response_ar_start, r, good, i)
unfolding parse_ns parse_ar after records
parse_ns-empty fuel r mem i end a b = rw (a, b)

parse_an-through :
    (fuel : ℕ) (r : Response) (mem : Mem) (start i end n : ℕ) {r' : Response} {j : ℕ}
    → count_at r.header 3 ≡ n
    → answers fuel n r mem start i end ≡ through r' j
    → parse_an fuel r mem start i end ≡ parse_ns fuel r' mem j end
unfolding parse_an after
parse_an-through fuel r mem start i end n c e = rw (c, e)

parse_qd-through :
    (fuel : ℕ) (r : Response) (mem : Mem) (start i end : ℕ) {j : ℕ}
    → count_at r.header 2 ≡ 1
    → questions fuel 1 r mem i end ≡ through r j
    → parse_qd fuel r mem start i end ≡ parse_an fuel r mem start j end
unfolding parse_qd after
parse_qd-through fuel r mem start i end c e = rw (c, e)

-- The header of a response to one question: identifier, flags, and the number of answers.
abbrev pub response_header : ℕ → ℕ → ℕ → ℕ → ℕ → ℕ → List ℕ
response_header id_high id_low flags rcode high low =
    id_high ∷ id_low ∷ flags ∷ rcode ∷ 0 ∷ 1 ∷ high ∷ low ∷ 0 ∷ 0 ∷ 0 ∷ 0 ∷ []

-- The type and class of the question, behind its name.
abbrev pub question : List (List ℕ) → ℕ → ℕ → ℕ → ℕ → List ℕ
question ls a b c d = qname ls ++ (a ∷ b ∷ c ∷ d ∷ [])

module _ (fuel : ℕ) (ls : List (List ℕ)) (xs : List Answer) (v : View) (end : ℕ)
    (id_high id_low flags rcode high low a b c d : ℕ) (labels : All IsLabel ls)
    (enough : length ls < suc fuel) (whole : All IsAnswer xs) (responds : flags / 128 ≡ 1)
    (counted : high * 256 + low ≡ length xs)
    (held : Begins
      (response_header id_high id_low flags rcode high low
        ++ (question ls a b c d ++ answers_bytes xs))
      v)
    (inside : v.offset
        + length (
            response_header id_high id_low flags rcode high low
            ++ (question ls a b c d ++ answers_bytes xs))
      ≤ end)
    (short : end < v.offset + 65536) where
  header : List ℕ
  header = response_header id_high id_low flags rcode high low

  header-held : slice v.mem v.offset 12 ≡ header
  unfolding header
  header-held = (Begins-append header (question ls a b c d ++ answers_bytes xs) held).held

  body : Begins (question ls a b c d ++ answers_bytes xs) (skip 12 v)
  unfolding header
  body = Begins-skip header (question ls a b c d ++ answers_bytes xs) held

  sizes :
      (length (question ls a b c d) ≡ length (qname ls) + 4)
      × (length (question ls a b c d ++ answers_bytes xs)
          ≡ length (question ls a b c d) + length (answers_bytes xs))
  sizes = (
    length-append {0} (qname ls) (a ∷ b ∷ c ∷ d ∷ []),
    length-append {0} (question ls a b c d) (answers_bytes xs),
  )

  -- A response whose header has the response bit, one question and the number of answers, whose
  -- question is a name of labels with a type and a class, and whose answers are addresses of type A
  -- behind a pointer, is accepted to its last byte; its addresses are those of the answers, in order.
  pub parse-addresses :
      parse (suc fuel) response_start create v.mem v.offset v.offset end
      ≡ some (
        response_ar_start,
        record create { header = slice v.mem v.offset 12; a = addresses xs },
        good,
        v.offset
            + length (
                response_header id_high id_low flags rcode high low
                ++ (question ls a b c d ++ answers_bytes xs)),
      )
  unfolding header create
  parse-addresses =
      let r : Response = record create { header = header } in
      let flag : v.mem (v.offset + 2) ≡ flags = Begins-byte held 2 (omega arith) in
      let names =
        qname_read (suc fuel) ls v.offset end (skip 12 v) labels enough
          (omega (arith, inside, sizes)) (omega (arith, short))
          (Begins-append (qname ls) (a ∷ b ∷ c ∷ d ∷ [])
            (Begins-append (question ls a b c d) (answers_bytes xs) body)) in
      let place : v.offset + 12 + length (qname ls) + 4
          ≡ v.offset + 12 + length (question ls a b c d) =
        omega (arith, sizes) in
      parse-headed (suc fuel) create v.mem v.offset v.offset end (omega (arith, inside))
        (ap (λ n. n / 128) flag ∙ responds)
      ∙ ap
          (λ h.
            parse_qd (suc fuel) (record create { header = h }) v.mem v.offset (v.offset + 12) end)
          header-held
      ∙ parse_qd-through (suc fuel) r v.mem v.offset (v.offset + 12) end refl (
          one_question (suc fuel) r v.mem (v.offset + 12) (v.offset + 12 + length (qname ls)) end
            names.0 (omega (arith, inside, sizes)))
      ∙ ap (λ j. parse_an (suc fuel) r v.mem v.offset j end) place
      ∙ parse_an-through (suc fuel) r v.mem v.offset (v.offset + 12 + length (question ls a b c d))
          end (length xs) counted
          (answers-all fuel xs r v.offset end (skip (length (question ls a b c d)) (skip 12 v))
            whole (omega (arith, inside, sizes)) (omega (arith, short))
            (Begins-skip (question ls a b c d) (answers_bytes xs) body))
      ∙ parse_ns-empty (suc fuel) (record r { a = addresses xs }) v.mem _ end refl refl
      ∙ ap₂
          (λ h j. some (response_ar_start, record create { header = h; a = addresses xs }, good, j))
          (sym header-held) (omega (arith, sizes))
