-- ===== src/Socks5/Auth.antt =====
-- The user name and password sub-negotiation of SOCKS5: `auth_request` of src/net/socks5_request.hpp
-- and `auth_request_parser` of src/net/socks5_request_parser.hpp.
use yass.Common.{
  ℕ, ◌+◌, ◌-◌, ◌≤◌, ◌<◌, ◌≡◌, refl, ◌⊎◌, inl, inr, arith, List, [], not, ltb, ◌==◌, if◌then◌else◌,
  Mem, slice, length, length-slice,
}
use yass.Address.{good, bad, indeterminate, Parsed}
use yass.Socks5.{version}

pub record AuthRequest : Type 0 where
  pub ver : ℕ
  pub username : List ℕ
  pub password : List ℕ

unfoldable pub create_auth : AuthRequest
create_auth = record { ver = 0; username = []; password = [] }

unfoldable pub auth_length : AuthRequest → ℕ
auth_length r = 1 + 1 + length r.username + 1 + length r.password

pub data AuthState : Type 0 where
  request_start request_username request_password : AuthState

-- `reset()`, from any state
abbrev reset : AuthState → AuthState
reset st = request_start

-- `case request_password`
unfoldable pub parse_password : AuthRequest → Mem → ℕ → ℕ → Parsed AuthState AuthRequest
parse_password r mem i end =
    if ltb (end - i) 1
    then (request_password, r, indeterminate, i)
    else if mem i == 0
    then (request_password, r, bad, i)
    else if ltb (end - (i + 1)) (mem i)
    then (request_password, r, indeterminate, i + 1)
    else (request_password, record r { password = slice mem (i + 1) (mem i) }, good, i + 1 + mem i)

-- `case request_username`
unfoldable pub parse_username : AuthRequest → Mem → ℕ → ℕ → Parsed AuthState AuthRequest
parse_username r mem i end =
    if ltb (end - i) 1
    then (request_username, r, indeterminate, i)
    else if mem i == 0
    then (request_username, r, bad, i)
    else if ltb (end - (i + 1)) (mem i)
    then (request_username, r, indeterminate, i + 1)
    else parse_password (record r { username = slice mem (i + 1) (mem i) }) mem (i + 1 + mem i) end

unfoldable pub parse_auth : AuthState → AuthRequest → Mem → ℕ → ℕ → Parsed AuthState AuthRequest
parse_auth request_start r mem begin end =
    let headed : AuthRequest = record r { ver = mem begin } in
    if ltb (end - begin) 1
    then (request_start, r, indeterminate, begin)
    else if not (headed.ver == version)
    then (request_start, headed, bad, begin)
    else parse_username headed mem (begin + 1) end
parse_auth request_username r mem begin end = parse_username r mem begin end
parse_auth request_password r mem begin end = parse_password r mem begin end

-- From any state, the iterator stays between the beginning and the end of the input.
pub parse_auth_bounds :
    (st : AuthState) (r : AuthRequest) (mem : Mem) (begin end : ℕ)
    → begin ≤ end
    → (begin ≤ (parse_auth st r mem begin end).3) × ((parse_auth st r mem begin end).3 ≤ end)
unfolding parse_auth parse_username parse_password
parse_auth_bounds request_start r mem begin end h = ground arith
parse_auth_bounds request_username r mem begin end h = ground arith
parse_auth_bounds request_password r mem begin end h = ground arith

parse_password_complete :
    (r : AuthRequest) (mem : Mem) (i end : ℕ)
    → 0 < mem i
    → i + 1 + mem i ≤ end
    → parse_password r mem i end
      ≡ (request_password, record r { password = slice mem (i + 1) (mem i) }, good, i + 1 + mem i)
unfolding parse_password
parse_password_complete r mem i end p h = ground arith

parse_username_complete :
    (r : AuthRequest) (mem : Mem) (i end : ℕ)
    → 0 < mem i
    → i + 1 + mem i ≤ end
    → parse_username r mem i end
      ≡ parse_password (record r { username = slice mem (i + 1) (mem i) }) mem (i + 1 + mem i) end
unfolding parse_username
parse_username_complete r mem i end p h = ground arith

parse_auth-headed :
    (r : AuthRequest) (mem : Mem) (begin end : ℕ)
    → mem begin ≡ version
    → begin + 1 ≤ end
    → parse_auth request_start r mem begin end
      ≡ parse_username (record r { ver = mem begin }) mem (begin + 1) end
unfolding parse_auth
parse_auth-headed r mem begin end v h = ground arith

-- A complete request, with a name of `u` bytes and a password of `p` bytes, neither empty, is
-- accepted: the parser stands at the request's length, and has the name and the password sent.
pub parse_auth_complete :
    (r : AuthRequest) (mem : Mem) (begin end u p : ℕ)
    → mem begin ≡ version
    → mem (begin + 1) ≡ u
    → mem (begin + 1 + 1 + u) ≡ p
    → 0 < u
    → 0 < p
    → begin + 3 + u + p ≤ end
    → let (st, r', o, next) = parse_auth request_start r mem begin end in
      (o ≡ good)
      × (next ≡ begin + auth_length r')
      × (r'.username ≡ slice mem (begin + 1 + 1) u)
      × (r'.password ≡ slice mem (begin + 1 + 1 + u + 1) p)
unfolding auth_length
parse_auth_complete r mem begin end u p v hu hp pu pp h =
    rw
      (
        parse_auth-headed r mem begin end v (omega arith),
        parse_username_complete (record r { ver = mem begin }) mem (begin + 1) end (omega arith)
            (omega arith),
        hu,
        parse_password_complete
            (record r { ver = mem begin; username = slice mem (begin + 1 + 1) u }) mem
            (begin + 1 + 1 + u) end (omega arith) (omega arith),
        hp,
      )
      (
        refl,
        omega
            (arith, length-slice mem (begin + 1 + 1) u, length-slice mem (begin + 1 + 1 + u + 1) p),
        refl,
        refl,
      )

-- An empty user name or password is rejected as soon as its length byte is there.
pub parse_auth-rejects_empty :
    (r : AuthRequest) (mem : Mem) (begin end : ℕ)
    → mem begin ≡ version
    → ((mem (begin + 1) ≡ 0) × (begin + 2 ≤ end))
      ⊎ ((0 < mem (begin + 1))
          × (mem (begin + 1 + 1 + mem (begin + 1)) ≡ 0)
          × (begin + 3 + mem (begin + 1) ≤ end))
    → (parse_auth request_start r mem begin end).2 ≡ bad
unfolding parse_auth parse_username parse_password
parse_auth-rejects_empty r mem begin end v (inl (z, h)) = ground arith
parse_auth-rejects_empty r mem begin end v (inr (u, z, h)) = ground arith

-- On a request that breaks off inside the user name the parser asks for more, and leaves the iterator
-- behind the length byte, in the state `request_username`, which begins by reading the length byte.
pub parse_auth-misplaced :
    (r : AuthRequest) (mem : Mem) (begin end : ℕ)
    → mem begin ≡ version
    → 0 < mem (begin + 1)
    → begin + 2 ≤ end
    → end < begin + 2 + mem (begin + 1)
    → let (st, r', o, next) = parse_auth request_start r mem begin end in
      (o ≡ indeterminate) × (st ≡ request_username) × (next ≡ begin + 2)
unfolding parse_auth parse_username
parse_auth-misplaced r mem begin end v u h s = ground arith
