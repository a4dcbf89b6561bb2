-- ===== src/Resolver/Chunks.antt =====
-- A response in chunks, through `OnSSLReadable` of src/net/dot_request.cpp.
use mathlib.Core.List.{append_assoc, append-nil}
use yass.Common.{
  ℕ, suc, ◌+◌, ◌*◌, ◌-◌, ◌≤◌, ◌<◌, ◌≡◌, refl, sym, ap, ◌∙◌, arith, Bool, true, false, Option, none,
  some, List, [], ◌∷◌, ◌++◌, ltb, ◌>>=◌, length, length-append, Mem, All,
}
use yass.Handshake.{received_view}
use yass.Resolver.{operation_not_supported}
use yass.Resolver.Request.{
  Request, read_header, read_body, bytes_read, on_read, on_ssl_readable, on_read_header,
  on_read_body, on_parse_dns_response, read_chunks, fail,
}

abbrev pub concat : List (List ℕ) → List ℕ
concat [] = []
concat (c ∷ cs) = c ++ concat cs

bind_some {ℓ} : {A : Type ℓ} (o : Option A) → (o >>= some) ≡ o
bind_some none = refl
bind_some (some x) = refl

-- The header is read, and `got` came so far.
abbrev pub receiving : List ℕ → ℕ → Bool → Request → Request
receiving got n waiting b = record b {
  recv_buf = got;
  recv_offset = 2;
  read_state = read_body;
  body_length = n;
  waits = record b.waits { read = waiting };
}

-- Nothing of the response has come.
abbrev pub awaiting : Request → Request
awaiting b = record b { recv_buf = []; recv_offset = 0; read_state = read_header }

module _ (fuel : ℕ) (behind : Mem) where
  body_waits :
      (got c : List ℕ) (n : ℕ) (w : Bool) (b : Request)
      → 2 ≤ length got
      → length (got ++ c) < 2 + n
      → on_ssl_readable fuel behind (bytes_read c) (receiving got n w b)
        ≡ some (receiving (got ++ c) n true b)
  unfolding on_ssl_readable on_read on_read_body
  body_waits got c n w b h k =
      let short : ltb (length (got ++ c) - 2) n ≡ true = ground (arith, length-append {0} got c) in
      rw short

  body_whole :
      (got c : List ℕ) (n : ℕ) (w : Bool) (b : Request)
      → 2 + n ≤ length (got ++ c)
      → on_ssl_readable fuel behind (bytes_read c) (receiving got n w b)
        ≡ on_parse_dns_response fuel behind (receiving (got ++ c) n false b)
  unfolding on_ssl_readable on_read on_read_body
  body_whole got c n w b h =
      let room : ltb (length (got ++ c) - 2) n ≡ false = ground arith in rw room

  -- The rest of the response, in chunks that are not empty.
  rest_whole :
      (got : List ℕ) (cs : List (List ℕ)) (whole : List ℕ) (n : ℕ) (w : Bool) (b : Request)
      → All (λ c. 0 < length c) cs
      → 2 ≤ length got
      → length got < 2 + n
      → length whole ≡ 2 + n
      → got ++ concat cs ≡ whole
      → read_chunks fuel behind cs (receiving got n w b)
        ≡ on_parse_dns_response fuel behind (receiving whole n false b)
  unfolding read_chunks
  rest_whole got [] whole n w b p two h l e =
      absurd (omega (arith, l, ap length e, ap length (append-nil got)))
  rest_whole got (c ∷ []) whole n w b p two h l e =
      let same : got ++ c ≡ whole = ap (λ t. got ++ t) (sym (append-nil c)) ∙ e in
      let done : on_ssl_readable fuel behind (bytes_read c) (receiving got n w b)
          ≡ on_parse_dns_response fuel behind (receiving whole n false b) =
        body_whole got c n w b (omega (arith, l, ap length same))
        ∙ ap (λ t. on_parse_dns_response fuel behind (receiving t n false b)) same in
      bind_some (on_ssl_readable fuel behind (bytes_read c) (receiving got n w b)) ∙ done
  rest_whole got (c ∷ d ∷ cs) whole n w b (p, (q, ps)) two h l e =
      let same : (got ++ c) ++ concat (d ∷ cs) ≡ whole = append_assoc got c (d ++ concat cs) ∙ e in
      let more : 2 ≤ length (got ++ c) = omega (arith, length-append {0} got c) in
      let short : length (got ++ c) < 2 + n = omega (
        arith,
        l,
        ap length same,
        length-append {0} (got ++ c) (d ++ concat cs),
        length-append {0} d (concat cs),
      ) in
      rw (body_waits got c n w b two short)
        (rest_whole (got ++ c) (d ∷ cs) whole n true b (q, ps) more short l same)

  -- The first chunk, with the header.
  header_read :
      (high low : ℕ) (c : List ℕ) (b : Request)
      → on_ssl_readable fuel behind (bytes_read (high ∷ low ∷ c)) (awaiting b)
        ≡ on_read_body fuel behind (receiving (high ∷ low ∷ c) (high * 256 + low) false b)
  unfolding on_ssl_readable on_read on_read_header received_view
  header_read high low c b =
      let room : ltb (suc (suc (length c)) - 0) 2 ≡ false = ground arith in
      let first : ltb 0 (suc (suc (length c))) ≡ true = ground arith in
      let second : ltb 1 (suc (suc (length c))) ≡ true = ground arith in rw (room, first, second)

  header_waits :
      (high low : ℕ) (c : List ℕ) (n : ℕ) (b : Request)
      → high * 256 + low ≡ n
      → length c < n
      → on_ssl_readable fuel behind (bytes_read (high ∷ low ∷ c)) (awaiting b)
        ≡ some (receiving (high ∷ low ∷ c) n true b)
  unfolding on_read_body
  header_waits high low c n b e h =
      let short : ltb (suc (suc (length c)) - 2) n ≡ true = ground arith in
      header_read high low c b ∙ rw (e, short)

  pub header_whole :
      (high low : ℕ) (c : List ℕ) (n : ℕ) (b : Request)
      → high * 256 + low ≡ n
      → n ≤ length c
      → on_ssl_readable fuel behind (bytes_read (high ∷ low ∷ c)) (awaiting b)
        ≡ on_parse_dns_response fuel behind (receiving (high ∷ low ∷ c) n false b)
  unfolding on_read_body
  header_whole high low c n b e h =
      let room : ltb (suc (suc (length c)) - 2) n ≡ false = ground arith in
      header_read high low c b ∙ rw (e, room)

  -- A response, whose first two bytes are the length of what follows, comes in chunks, each of one byte
  -- at least and the first of two at least: the request ends in the same state, with the same call of
  -- its callback, as if the response came at once.
  pub chunked_whole :
      (high low : ℕ) (c : List ℕ) (cs : List (List ℕ)) (b : Request)
      → All (λ d. 0 < length d) cs
      → high * 256 + low ≡ length (c ++ concat cs)
      → read_chunks fuel behind ((high ∷ low ∷ c) ∷ cs) (awaiting b)
        ≡ on_ssl_readable fuel behind (bytes_read (high ∷ low ∷ c ++ concat cs)) (awaiting b)
  unfolding read_chunks
  chunked_whole high low c [] b p e =
      bind_some (on_ssl_readable fuel behind (bytes_read (high ∷ low ∷ c)) (awaiting b))
      ∙ ap (λ t. on_ssl_readable fuel behind (bytes_read (high ∷ low ∷ t)) (awaiting b))
          (sym (append-nil c))
  chunked_whole high low c (d ∷ cs) b p e =
      let n = length (c ++ concat (d ∷ cs)) in
      let short : length c < n =
        omega (arith, p, length-append {0} c (d ++ concat cs), length-append {0} d (concat cs)) in
      rw (header_waits high low c n b e short) (
        rest_whole (high ∷ low ∷ c) (d ∷ cs) (high ∷ low ∷ c ++ concat (d ∷ cs)) n true b p
          (omega arith) (omega (arith, short)) (omega arith) refl
        ∙ sym (header_whole high low (c ++ concat (d ∷ cs)) n b e (omega arith)))

  -- A first read of one byte, half of the length, fails the request whatever would follow.
  short_read_fails :
      (x : ℕ) (b : Request)
      → on_ssl_readable fuel behind (bytes_read (x ∷ [])) (awaiting b)
        ≡ some (
            fail operation_not_supported
              (record (awaiting b) { recv_buf = x ∷ []; waits = record b.waits { read = false } }))
  unfolding on_ssl_readable on_read on_read_header
  short_read_fails x b = refl
