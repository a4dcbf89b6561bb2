-- ===== src/Resolver/Resolves.antt =====
-- A response with addresses through src/net/dot_request.cpp and the parser of DNS messages.
use yass.Common.{
  ℕ, suc, ◌+◌, ◌*◌, ◌/◌, ◌<◌, ◌≡◌, refl, sym, ap, ◌∙◌, arith, Bool, true, false, none, some, List,
  [], ◌∷◌, ◌++◌, map, ◌==◌, if◌then◌else◌, length, Mem, All,
}
use yass.Handshake.{View, received_view}
use yass.Handshake.Views.{Begins, received-Begins, Begins-skip}
use yass.Dns.{create}
use yass.Dns.Labels.{IsLabel}
use yass.Dns.Replies.{Answer, IsAnswer, answers_bytes, addresses}
use yass.Dns.Messages.{response_header, question, parse-addresses}
use yass.AddrInfo.{addrinfo_of, dup_all, addrinfo_dup}
use yass.Resolver.Request.{
  Request, on_parsed, bytes_read, on_ssl_readable, on_parse_dns_response, read_chunks,
  on_done_request,
}
use yass.Resolver.Chunks.{concat, receiving, awaiting, chunked_whole, header_whole}

dup_all-map :
    (is_ipv6 : Bool) (port : ℕ) (l : List (List ℕ))
    → dup_all is_ipv6 port none l ≡ map (addrinfo_of is_ipv6 port none) l
unfolding dup_all
dup_all-map is_ipv6 port [] = refl
dup_all-map is_ipv6 port (x ∷ l) =
    ap (λ t. addrinfo_of is_ipv6 port none x ∷ t) (dup_all-map is_ipv6 port l)

module _ (behind : Mem) (fuel : ℕ) (ls : List (List ℕ)) (xs : List Answer)
    (id_high id_low flags rcode many few a b c d : ℕ) (labels : All IsLabel ls)
    (enough : length ls < suc fuel) (whole : All IsAnswer xs) (responds : flags / 128 ≡ 1)
    (counted : many * 256 + few ≡ length xs) where
  abbrev pub message : List ℕ
  message =
      response_header id_high id_low flags rcode many few
      ++ (question ls a b c d ++ answers_bytes xs)

  -- What is received, behind the length.
  abbrev arrived : ℕ → ℕ → View
  arrived high low = record (received_view behind (high ∷ low ∷ message)) { offset = 2 }

  arrived-Begins : (high low : ℕ) → Begins message (arrived high low)
  unfolding received_view
  arrived-Begins high low =
      Begins-skip (high ∷ low ∷ []) message (received-Begins behind (high ∷ low ∷ message))

  -- The callback has been called with the addresses of the answers, in order.
  abbrev pub Answers : Request → Request → Type 0
  Answers r r' =
      (r'.cb ≡ false)
      × (r'.calls ≡ r.calls ++ ((none, map (addrinfo_of false r.port none) (addresses xs)) ∷ []))

  parsed-Answers :
      (high low : ℕ) (r : Request)
      → length message < 65536
      → r.cb ≡ true
      → r.dns_type ≡ 1
      → let r1 = receiving (high ∷ low ∷ message) (length message) false r in
        (r' : Request) × (on_parse_dns_response (suc fuel) behind r1 ≡ some r') × Answers r r'
  unfolding on_parse_dns_response on_done_request addrinfo_dup received_view create
  parsed-Answers high low r short held type =
      let p =
        parse-addresses fuel ls xs (arrived high low) (suc (suc (length message))) id_high id_low
          flags rcode many few a b c d labels enough whole responds counted
          (arrived-Begins high low) (omega arith) (omega arith) in
      let r1 : Request = receiving (high ∷ low ∷ message) (length message) false r in
      let infos =
        dup_all (r.dns_type == 28) r.port none (if r.dns_type == 28 then [] else addresses xs) in
      let called : Request = record r1 { cb = false; calls = r.calls ++ ((none, infos) ∷ []) } in
      (
        if r.cb then called else r1,
        ap (λ o. on_parsed o r1) p,
        (
          ap (λ (t : Bool). (if t then called else r1).cb) held,
          ap (λ (t : Bool). (if t then called else r1).calls) held
              ∙ ap
                  (λ (n : ℕ).
                    r.calls
                    ++ ((none, dup_all (n == 28) r.port none (if n == 28 then [] else addresses xs))
                        ∷ []))
                  type
              ∙ ap (λ l. r.calls ++ ((none, l) ∷ [])) (dup_all-map false r.port (addresses xs)),
        ),
      )

  -- A request of type A whose callback is held, in front of a response, reads the response in chunks: the
  -- length in two bytes, in the first chunk, and a message with the response bit, one question, the
  -- number of answers, and as answers addresses of type A behind a pointer. The request calls its
  -- callback once, without an error, with the addresses of the answers, in order, at its port.
  pub request_resolves :
      (high low : ℕ) (first : List ℕ) (cs : List (List ℕ)) (r : Request)
      → All (λ x. 0 < length x) cs
      → first ++ concat cs ≡ message
      → high * 256 + low ≡ length message
      → length message < 65536
      → r.cb ≡ true
      → r.dns_type ≡ 1
      → (r' : Request) × (read_chunks (suc fuel) behind ((high ∷ low ∷ first) ∷ cs) (awaiting r)
          ≡ some r')
        × Answers r r'
  request_resolves high low first cs r p e n short held type =
      let (r', q, answers) = parsed-Answers high low r short held type in
      (
        r',
        chunked_whole (suc fuel) behind high low first cs r p (n ∙ ap length (sym e))
            ∙ ap (λ t. on_ssl_readable (suc fuel) behind (bytes_read (high ∷ low ∷ t)) (awaiting r))
                e
            ∙ header_whole (suc fuel) behind high low message (length message) r n (omega arith)
            ∙ q,
        answers,
      )
