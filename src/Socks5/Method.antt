-- ===== src/Socks5/Method.antt =====
-- The method selection of SOCKS5: `method_select_request` of src/net/socks5_request.hpp and
-- `method_select_request_parser` of src/net/socks5_request_parser.hpp. The bytes of `methods_` are
-- those of an array of 255.
use yass.Common.{
  ℕ, ◌+◌, ◌-◌, ◌≤◌, ◌<◌, ◌≡◌, ◌≢◌, refl, sym, ap, ◌∙◌, ◌⊎◌, inl, inr, arith, List, not, ltb, ◌==◌,
  if◌then◌else◌, Mem, slice, memcpy, slice-memcpy, true, false, lt→ltb, ltb-false,
}
use native.Mathlib.Decide.{dec_lt, ℕ_discrete}
use yass.Address.{good, bad, indeterminate, Parsed}
use yass.Socks5.{version}

pub record MethodRequest : Type 0 where
  pub ver : ℕ
  pub nmethods : ℕ
  pub methods : Mem

-- From `begin()` to `end()`
abbrev pub offered : MethodRequest → List ℕ
offered r = slice r.methods 0 r.nmethods

unfoldable pub method_length : MethodRequest → ℕ
method_length r = 2 + r.nmethods

pub data MethodState : Type 0 where
  request_start request : MethodState

-- `reset()`, from any state
abbrev reset : MethodState → MethodState
reset st = request_start

-- `case request`
unfoldable pub parse_methods : MethodRequest → Mem → ℕ → ℕ → Parsed MethodState MethodRequest
parse_methods r mem i end =
    if ltb (end - i) r.nmethods
    then (request, r, indeterminate, i)
    else (request, record r { methods = memcpy r.methods 0 mem i r.nmethods }, good, i + r.nmethods)

unfoldable pub parse : MethodState → MethodRequest → Mem → ℕ → ℕ → Parsed MethodState MethodRequest
parse request_start r mem begin end =
    let headed : MethodRequest = record r { ver = mem begin; nmethods = mem (begin + 1) } in
    if ltb (end - begin) 2
    then (request_start, r, indeterminate, begin)
    else if not (headed.ver == version)
    then (request_start, headed, bad, begin)
    else parse_methods headed mem (begin + 2) end
parse request r mem begin end = parse_methods r mem begin end

parse_methods-cases :
    (r : MethodRequest) (mem : Mem) (i end : ℕ)
    → i ≤ end
    → let (st, r', o, next) = parse_methods r mem i end in
      ((o ≡ indeterminate) × (next ≡ i) × (end < i + r.nmethods))
      ⊎ ((o ≡ good)
          × (next ≡ i + r.nmethods)
          × (next ≤ end)
          × (r'.nmethods ≡ r.nmethods)
          × (offered r' ≡ slice mem i r.nmethods))
unfolding parse_methods
parse_methods-cases r mem i end h = elim (dec_lt (end - i) r.nmethods) [
  | yes p ↦ rw (lt→ltb (end - i) r.nmethods p) (inl (refl, refl, omega arith))
  | no p ↦
      rw (ltb-false (end - i) r.nmethods (omega arith))
        (inr (refl, refl, omega arith, refl, slice-memcpy r.methods 0 mem i r.nmethods))
]

-- On any input that begins before its end, `parse` from the start state does one of three things. It
-- asks for more bytes, when the declared methods are not all there; it rejects a wrong version; or it
-- accepts, stands at the request's declared length, inside the input, and offers exactly the methods
-- sent.
pub parse-cases :
    (r : MethodRequest) (mem : Mem) (begin end : ℕ)
    → begin ≤ end
    → let (st, r', o, next) = parse request_start r mem begin end in
      ((o ≡ indeterminate)
        × (next ≤ end)
        × ((end < begin + 2) ⊎ (end < begin + 2 + mem (begin + 1))))
      ⊎ ((o ≡ bad) × (next ≡ begin) × (mem begin ≢ version))
      ⊎ ((o ≡ good)
          × (mem begin ≡ version)
          × (next ≡ begin + method_length r')
          × (next ≤ end)
          × (offered r' ≡ slice mem (begin + 2) (mem (begin + 1))))
unfolding parse method_length
parse-cases r mem begin end h = elim (dec_lt (end - begin) 2) [
  | yes p ↦ rw (lt→ltb (end - begin) 2 p) (inl (refl, h, inl (omega arith)))
  | no p ↦ elim (ℕ_discrete (mem begin) version) [
    | no ne ↦
        rw (ltb-false (end - begin) 2 (omega arith), not_version ne) (inr (inl (refl, refl, ne)))
    | yes v ↦
        rw (ltb-false (end - begin) 2 (omega arith), is_version v)
          (elim (parse_methods-cases headed mem (begin + 2) end (omega arith)) [
            | inl (a, b, c) ↦ inl (a, omega arith, inr c)
            | inr (a, b, c, d, e) ↦ inr (inr (a, v, omega arith, c, e))
          ])
  ]
]
  where
    headed : MethodRequest
    headed = record r { ver = mem begin; nmethods = mem (begin + 1) }

    not_version : mem begin ≢ version → (mem begin == version) ≡ false
    not_version ne = ground arith

    is_version : mem begin ≡ version → (mem begin == version) ≡ true
    is_version v = ground arith

module _ (r : MethodRequest) (mem : Mem) (begin end : ℕ) where
  headed : MethodRequest
  headed = record r { ver = mem begin; nmethods = mem (begin + 1) }

  parse-short :
      end - begin < 2
      → parse request_start r mem begin end ≡ (request_start, r, indeterminate, begin)
  unfolding parse
  parse-short h = rw (lt→ltb (end - begin) 2 h)

  parse-unversioned :
      2 ≤ end - begin
      → mem begin ≢ version
      → parse request_start r mem begin end ≡ (request_start, headed, bad, begin)
  unfolding parse headed
  parse-unversioned h ne = ground arith

  parse-headed :
      2 ≤ end - begin
      → mem begin ≡ version
      → parse request_start r mem begin end ≡ parse_methods headed mem (begin + 2) end
  unfolding parse headed
  parse-headed h v = ground arith

parse_methods_resumes :
    (r : MethodRequest) (mem : Mem) (i end more : ℕ)
    → (parse_methods r mem i end).2 ≡ indeterminate
    → let (st, r', o, next) = parse_methods r mem i end in
      parse st r' mem next more ≡ parse_methods r mem i more
unfolding parse
parse_methods_resumes r mem i end more e = elim (dec_lt (end - i) r.nmethods) [
  | yes p ↦ rw (pending p)
  | no p ↦ cc (sym e, ap (λ (x : Parsed MethodState MethodRequest). x.2) (complete (omega arith)))
]
  where
    pending : end - i < r.nmethods → parse_methods r mem i end ≡ (request, r, indeterminate, i)
    pending p = unfold parse_methods in ground arith

    complete :
        r.nmethods ≤ end - i
        → parse_methods r mem i end ≡ (
          request,
          record r { methods = memcpy r.methods 0 mem i r.nmethods },
          good,
          i + r.nmethods,
        )
    complete p = unfold parse_methods in ground arith

-- A request for more input is resumed where it stopped: with more bytes there, `parse` from the state
-- and the request that it left behind, and from where it stood, gives what it would have given on the
-- longer input at once.
pub parse_resumes :
    (r : MethodRequest) (mem : Mem) (begin end more : ℕ)
    → begin ≤ end
    → end ≤ more
    → (parse request_start r mem begin end).2 ≡ indeterminate
    → let (st, r', o, next) = parse request_start r mem begin end in
      parse st r' mem next more ≡ parse request_start r mem begin more
unfolding headed
parse_resumes r mem begin end more h k i = elim (dec_lt (end - begin) 2) [
  | yes p ↦ rw (parse-short r mem begin end p)
  | no p ↦ elim (ℕ_discrete (mem begin) version) [
    | no ne ↦ cc (
      sym i,
      ap (λ (x : Parsed MethodState MethodRequest). x.2)
          (parse-unversioned r mem begin end (omega arith) ne),
    )
    | yes v ↦
        rw
          (
            parse-headed r mem begin end (omega arith) v,
            parse-headed r mem begin more (omega arith) v,
          )
          (parse_methods_resumes (headed r mem begin end) mem (begin + 2) end more (
            ap (λ (x : Parsed MethodState MethodRequest). x.2)
              (sym (parse-headed r mem begin end (omega arith) v))
            ∙ i))
  ]
]
