-- ===== src/Socks4/Parsing.antt =====
-- `request_parser::parse` of src/net/socks4_request_parser.hpp: the scan for a NUL ends, a complete
-- request is accepted to its last byte, and the iterator stays inside the input.
use yass.Common.{
  ℕ, zero, suc, ◌+◌, ◌-◌, ◌*◌, ◌≤◌, ◌<◌, ◌≡◌, ◌≢◌, refl, ap, ◌∙◌, ◌⊎◌, inl, arith, true, false,
  List, Mem, slice, length-slice,
}
use yass.Address.{good}
use yass.Socks4.{
  Request, is_socks4a, request_length, port, State, request_start, request_userid_start,
  request_domain_start, scan, between, parse_domain, parse_userid, parse, read_header, version,
}

-- The scan stops inside the input, at a NUL or at the end.
scan_stops :
    (mem : Mem) (i left : ℕ)
    → (i ≤ scan mem i left)
      × (scan mem i left ≤ i + left)
      × ((scan mem i left ≡ i + left) ⊎ (mem (scan mem i left) ≡ 0))
unfolding scan
scan_stops mem i zero = (omega arith, omega arith, inl (omega arith))
scan_stops mem i (suc left) = ground (arith, scan_stops mem (i + 1) left)

-- Over `n` bytes that are no NUL, followed by one, the scan goes to that one.
scan-finds :
    (mem : Mem) (i n left : ℕ)
    → ((k : ℕ) → k < n → mem (i + k) ≢ 0)
    → mem (i + n) ≡ 0
    → n < left
    → scan mem i left ≡ i + n
unfolding scan
scan-finds mem i n zero h z l = absurd (omega arith)
scan-finds mem i zero (suc left) h z l =
    ground (arith, ap mem (let e : i + 0 ≡ i = omega arith in e))
scan-finds mem i (suc n) (suc left) h z l = ground (
  arith,
  h 0 (omega arith),
  ap mem (let e : i + 0 ≡ i = omega arith in e),
  scan-finds mem (i + 1) n left
      (λ k hk e.
        h (suc k) (omega arith) (ap mem (let x : i + suc k ≡ i + 1 + k = omega arith in x) ∙ e))
      (ap mem (let x : i + 1 + n ≡ i + suc n = omega arith in x) ∙ z) (omega arith),
)

parse_domain_bounds :
    (r : Request) (mem : Mem) (begin end : ℕ)
    → begin ≤ end
    → (begin ≤ (parse_domain r mem begin end).3) × ((parse_domain r mem begin end).3 ≤ end)
unfolding parse_domain
parse_domain_bounds r mem begin end h = ground (arith, scan_stops mem begin (end - begin))

parse_userid_bounds :
    (r : Request) (mem : Mem) (begin end : ℕ)
    → begin ≤ end
    → (begin ≤ (parse_userid r mem begin end).3) × ((parse_userid r mem begin end).3 ≤ end)
unfolding parse_userid
parse_userid_bounds r mem begin end h = ground (
  arith,
  scan_stops mem begin (end - begin),
  parse_domain_bounds (record r { user_id = between mem begin (scan mem begin (end - begin)) }) mem
      (scan mem begin (end - begin) + 1) end,
)

-- From any state and on any input, the iterator ends between the input's beginning and its end.
pub parse_socks4_bounds :
    (st : State) (r : Request) (mem : Mem) (begin end : ℕ)
    → begin ≤ end
    → (begin ≤ (parse st r mem begin end).3) × ((parse st r mem begin end).3 ≤ end)
unfolding parse
parse_socks4_bounds request_start r mem begin end h =
    ground (arith, parse_userid_bounds (read_header r mem begin) mem (begin + 8) end)
parse_socks4_bounds request_userid_start r mem begin end h = parse_userid_bounds r mem begin end h
parse_socks4_bounds request_domain_start r mem begin end h = parse_domain_bounds r mem begin end h

parse-headed :
    (r : Request) (mem : Mem) (begin end : ℕ)
    → mem begin ≡ version
    → begin + 8 ≤ end
    → parse request_start r mem begin end
      ≡ parse_userid (read_header r mem begin) mem (begin + 8) end
unfolding parse
parse-headed r mem begin end v h = ground arith

parse_userid-plain :
    (r : Request) (mem : Mem) (begin end i : ℕ)
    → scan mem begin (end - begin) ≡ i
    → i < end
    → is_socks4a (record r { user_id = between mem begin i }) ≡ false
    → parse_userid r mem begin end
      ≡ (request_userid_start, record r { user_id = between mem begin i }, good, i + 1)
unfolding parse_userid
parse_userid-plain r mem begin end i s h a = rw s (ground arith)

parse_userid-domain :
    (r : Request) (mem : Mem) (begin end i : ℕ)
    → scan mem begin (end - begin) ≡ i
    → i < end
    → is_socks4a (record r { user_id = between mem begin i }) ≡ true
    → parse_userid r mem begin end
      ≡ parse_domain (record r { user_id = between mem begin i }) mem (i + 1) end
unfolding parse_userid
parse_userid-domain r mem begin end i s h a = rw s (ground arith)

parse_domain_complete :
    (r : Request) (mem : Mem) (begin end i : ℕ)
    → scan mem begin (end - begin) ≡ i
    → i < end
    → parse_domain r mem begin end
      ≡ (request_domain_start, record r { domain_name = between mem begin i }, good, i + 1)
unfolding parse_domain
parse_domain_complete r mem begin end i s h = rw s (ground arith)

between-eq : (mem : Mem) (i n : ℕ) → between mem i (i + n) ≡ slice mem i n
between-eq mem i n = ap (slice mem i) (omega arith)

socks4a-user : (r : Request) (u : List ℕ) → is_socks4a (record r { user_id = u }) ≡ is_socks4a r
unfolding is_socks4a
socks4a-user r u = refl

socks4a-domain :
    (r : Request) (d : List ℕ) → is_socks4a (record r { domain_name = d }) ≡ is_socks4a r
unfolding is_socks4a
socks4a-domain r d = refl

-- What the parser leaves of a complete SOCKS4a request.
abbrev pub socks4a_request : Request → Mem → ℕ → ℕ → ℕ → Request
socks4a_request r mem begin n m = record (read_header r mem begin) {
  user_id = slice mem (begin + 8) n;
  domain_name = slice mem (begin + 8 + n + 1) m;
}

pub socks4a_request-length :
    (r : Request) (mem : Mem) (begin n m : ℕ)
    → is_socks4a (read_header r mem begin) ≡ true
    → request_length (socks4a_request r mem begin n m) ≡ 8 + n + 1 + m + 1
unfolding request_length
socks4a_request-length r mem begin n m named =
    rw
      (
        socks4a-domain (record (read_header r mem begin) { user_id = slice mem (begin + 8) n })
            (slice mem (begin + 8 + n + 1) m),
        socks4a-user (read_header r mem begin) (slice mem (begin + 8) n),
        named,
      )
      (omega (arith, length-slice mem (begin + 8) n, length-slice mem (begin + 8 + n + 1) m))

module _ (r : Request) (mem : Mem) (begin end n : ℕ) (v : mem begin ≡ version)
    (user : (k : ℕ) → k < n → mem (begin + 8 + k) ≢ 0) (nul : mem (begin + 8 + n) ≡ 0) where
  -- A complete SOCKS4 request, whose address is not of the form 0.0.0.x, with a user id of `n` bytes
  -- closed by a NUL, is accepted: the parser stands at the request's length, and has the user id,
  -- the command and the port sent.
  pub parse-socks4 :
      begin + 8 + n < end
      → is_socks4a (read_header r mem begin) ≡ false
      → let (st, r', o, next) = parse request_start r mem begin end in
        (o ≡ good)
        × (next ≡ begin + request_length r')
        × (r'.user_id ≡ slice mem (begin + 8) n)
        × (r'.command ≡ mem (begin + 1))
        × (port r' ≡ mem (begin + 2) * 256 + mem (begin + 3))
  unfolding request_length port
  parse-socks4 h plain =
      rw
        (
          parse-headed r mem begin end v (omega arith),
          parse_userid-plain (read_header r mem begin) mem (begin + 8) end (begin + 8 + n)
              (scan-finds mem (begin + 8) n (end - (begin + 8)) user nul (omega arith)) h
              (socks4a-user (read_header r mem begin) (between mem (begin + 8) (begin + 8 + n))
                ∙ plain),
          between-eq mem (begin + 8) n,
          socks4a-user (read_header r mem begin) (slice mem (begin + 8) n),
          plain,
        )
        (refl, omega (arith, length-slice mem (begin + 8) n), refl, refl, refl)

  pub parse_socks4a_whole :
      (m : ℕ)
      → ((k : ℕ) → k < m → mem (begin + 8 + n + 1 + k) ≢ 0)
      → mem (begin + 8 + n + 1 + m) ≡ 0
      → begin + 8 + n + 1 + m < end
      → is_socks4a (read_header r mem begin) ≡ true
      → parse request_start r mem begin end
        ≡ (request_domain_start, socks4a_request r mem begin n m, good, begin + 8 + n + 1 + m + 1)
  parse_socks4a_whole m name nul' h named =
      let named_user : Request = record (read_header r mem begin) {
        user_id = between mem (begin + 8) (begin + 8 + n);
      } in
      rw (
        parse-headed r mem begin end v (omega arith),
        parse_userid-domain (read_header r mem begin) mem (begin + 8) end (begin + 8 + n)
            (scan-finds mem (begin + 8) n (end - (begin + 8)) user nul (omega arith)) (omega arith)
            (socks4a-user (read_header r mem begin) (between mem (begin + 8) (begin + 8 + n))
              ∙ named),
        parse_domain_complete named_user mem (begin + 8 + n + 1) end (begin + 8 + n + 1 + m)
            (scan-finds mem (begin + 8 + n + 1) m (end - (begin + 8 + n + 1)) name nul'
              (omega arith))
            h,
        between-eq mem (begin + 8) n,
        between-eq mem (begin + 8 + n + 1) m,
      )

  -- A complete SOCKS4a request, whose address is 0.0.0.x with x not 0, has a domain name of `m`
  -- bytes behind the user id, closed by a NUL too. It is accepted to its last byte, with the user
  -- id, the domain name, the command and the port sent.
  pub parse-socks4a :
      (m : ℕ)
      → ((k : ℕ) → k < m → mem (begin + 8 + n + 1 + k) ≢ 0)
      → mem (begin + 8 + n + 1 + m) ≡ 0
      → begin + 8 + n + 1 + m < end
      → is_socks4a (read_header r mem begin) ≡ true
      → let (st, r', o, next) = parse request_start r mem begin end in
        (o ≡ good)
        × (next ≡ begin + request_length r')
        × (r'.user_id ≡ slice mem (begin + 8) n)
        × (r'.domain_name ≡ slice mem (begin + 8 + n + 1) m)
        × (r'.command ≡ mem (begin + 1))
        × (port r' ≡ mem (begin + 2) * 256 + mem (begin + 3))
  unfolding request_length port
  parse-socks4a m name nul' h named =
      rw (parse_socks4a_whole m name nul' h named)
        (refl, omega (arith, socks4a_request-length r mem begin n m named), refl, refl, refl, refl)
