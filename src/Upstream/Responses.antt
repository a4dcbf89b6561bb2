-- ===== src/Upstream/Responses.antt =====
-- The responses that the client of src/cli/cli_connection.cpp reads during the SOCKS5 handshake, and
-- the places in `upstream_` that its next request takes.
use yass.Common.{
  ℕ, suc, ◌+◌, ◌%◌, ◌≤◌, ◌≡◌, refl, ap, ◌⊎◌, inl, inr, arith, Bool, true, false, not, ◌&&◌, ◌||◌,
  Option, some, List, [], ◌∷◌, ◌++◌, ◌==◌, ltb, length, Bool-cases,
}
use yass.Handshake.{View, size, is_socks5_method, connection_refused}
use yass.Handshake.Views.{skip, advance-skip}
use yass.Upstream.{
  Client, is_empty, write_auth_request, write_socks5_request, read_method_select_response,
  read_auth_response, request_address, Answer, refuse, answered,
}
use yass.Upstream.Queue.{IsWaiting, IsValid, to_come}

unfoldable pub request_bytes : Client → List ℕ
request_bytes c = 5 ∷ 1 ∷ 0 ∷ request_address c.request

full-append : (b : List ℕ) (x : ℕ) (l : List ℕ) → is_empty (b ++ (x ∷ l)) ≡ false
full-append [] x l = refl
full-append (y ∷ b) x l = refl

empty_is_nil : (b : List ℕ) → is_empty b ≡ true → b ≡ []
empty_is_nil [] h = refl
empty_is_nil (y ∷ b) h = cc

-- The first place is there, and is empty.
first_place :
    (m : ℕ) (l : List (List ℕ))
    → IsWaiting (suc m) l
    → (rest : List (List ℕ)) × (l ≡ [] ∷ rest) × IsWaiting m rest
first_place m [] w = absurd w
first_place m (b ∷ l) w = (l, ap (λ x. x ∷ l) (empty_is_nil b w.0), w.1)

pub write_socks5_request-front :
    (c : Client) (b : List ℕ) (rest : List (List ℕ))
    → c.upstream ≡ b ∷ rest
    → write_socks5_request c
      ≡ some (record c { upstream = (b ++ request_bytes c) ∷ rest; socks_handshake = true })
unfolding write_socks5_request request_bytes
write_socks5_request-front c b rest e = rw e

abbrev pub credentials : Client → List ℕ
credentials c =
    5 ∷ (length c.username % 256) ∷ (c.username ++ ((length c.password % 256) ∷ (c.password ++ [])))

pub write_auth_request-front :
    (c : Client) (rest : List (List ℕ))
    → is_socks5_method c.method ≡ true
    → c.upstream ≡ [] ∷ rest
    → write_auth_request c ≡ some (record c { upstream = credentials c ∷ rest })
unfolding write_auth_request
write_auth_request-front c rest m e = rw (e, m)

-- A response is refused, or it is skipped and the next request takes its place.
abbrev pub Goes : Option Answer → Type 0
Goes o = (x : Answer) × (o ≡ some x) × ((x.0.disconnected ≡ some connection_refused) ⊎ IsValid x.0)

abbrev pub method_refused : View → Client → Bool
method_refused b c =
    ltb (size b) 2
    || not (b.mem b.offset == 5)
    || (not c.socks5_auth_handshake && not (b.mem (b.offset + 1) == 0))
    || (c.socks5_auth_handshake && not (b.mem (b.offset + 1) == 2))

abbrev pub selected : Client → Client
selected c = record c { socks5_method_select_handshake = false }

pub method_rejected :
    (b : View) (c : Client)
    → method_refused b c ≡ true
    → read_method_select_response b c ≡ some (refuse (selected c) b)
unfolding read_method_select_response
method_rejected b c h = rw h

pub method_accepted-auth :
    (b : View) (c : Client) {c' : Client}
    → method_refused b c ≡ false
    → 2 ≤ size b
    → c.socks5_auth_handshake ≡ true
    → write_auth_request (selected c) ≡ some c'
    → read_method_select_response b c ≡ some (answered c' (skip 2 b))
unfolding read_method_select_response
method_accepted-auth b c h two a w = rw (h, advance-skip 2 b (omega arith), w, a)

pub method_accepted-plain :
    (b : View) (c : Client) {c' : Client}
    → method_refused b c ≡ false
    → 2 ≤ size b
    → c.socks5_auth_handshake ≡ false
    → write_socks5_request (selected c) ≡ some c'
    → read_method_select_response b c ≡ some (answered c' (skip 2 b))
unfolding read_method_select_response
method_accepted-plain b c h two a w = rw (h, advance-skip 2 b (omega arith), w, a)

with_credentials : List (List ℕ) → Client → Client
with_credentials rest c = record (selected c) { upstream = credentials c ∷ rest }

with_request : List (List ℕ) → Client → Client
with_request rest c = record c { upstream = request_bytes c ∷ rest; socks_handshake = true }

module _ (b : View) (c : Client) (v : IsValid c) (open_ : c.socks5_method_select_handshake ≡ true)
    (sent_all : IsWaiting (to_come c) c.upstream) (ok : method_refused b c ≡ false) where
  whole : 2 ≤ size b
  whole = ground (arith, ok)

  method-auth : c.socks5_auth_handshake ≡ true → Goes (read_method_select_response b c)
  unfolding with_credentials
  method-auth a =
      let two : to_come c ≡ 2 = ground arith in
      let (rest, e, w) = first_place 1 c.upstream (rw two at sent_all) in
      (
        answered (with_credentials rest c) (skip 2 b),
        method_accepted-auth b c ok whole a
            (write_auth_request-front (selected c) rest v.method_is e),
        inr (record {
          method_is = v.method_is;
          queue =
              let one : to_come (with_credentials rest c) ≡ 1 = ground arith in
              rw one (inr (credentials c, rest, refl, refl, w));
        }),
      )

  method-plain : c.socks5_auth_handshake ≡ false → Goes (read_method_select_response b c)
  unfolding with_request request_bytes
  method-plain a =
      let two : to_come c ≡ 1 = ground arith in
      let (rest, e, w) = first_place 0 c.upstream (rw two at sent_all) in
      (
        answered (with_request rest (selected c)) (skip 2 b),
        method_accepted-plain b c ok whole a (write_socks5_request-front (selected c) [] rest e),
        inr (record {
          method_is = v.method_is;
          queue =
              let none_left : to_come (with_request rest (selected c)) ≡ 0 = ground arith in
              rw none_left (inr (request_bytes c, rest, refl, refl, w));
        }),
      )

pub read_method_select-Goes :
    (b : View) (c : Client)
    → IsValid c
    → c.socks5_method_select_handshake ≡ true
    → IsWaiting (to_come c) c.upstream
    → Goes (read_method_select_response b c)
read_method_select-Goes b c v o w = elim (Bool-cases (method_refused b c)) [
  | inl bad ↦ (refuse (selected c) b, method_rejected b c bad, inl refl)
  | inr ok ↦ elim (Bool-cases c.socks5_auth_handshake) [
    | inl a ↦ method-auth b c v o w ok a
    | inr a ↦ method-plain b c v o w ok a
  ]
]

abbrev pub auth_refused : View → Bool
auth_refused b = ltb (size b) 2 || not (b.mem b.offset == 5) || not (b.mem (b.offset + 1) == 0)

abbrev pub authenticated : Client → Client
authenticated c = record c { socks5_auth_handshake = false }

pub auth_rejected :
    (b : View) (c : Client)
    → auth_refused b ≡ true
    → read_auth_response b c ≡ some (refuse (authenticated c) b)
unfolding read_auth_response
auth_rejected b c h = rw h

pub auth_accepted :
    (b : View) (c : Client) {c' : Client}
    → auth_refused b ≡ false
    → 2 ≤ size b
    → write_socks5_request (authenticated c) ≡ some c'
    → read_auth_response b c ≡ some (answered c' (skip 2 b))
unfolding read_auth_response
auth_accepted b c h two w = rw (h, advance-skip 2 b (omega arith), w)

pub read_auth-Goes :
    (b : View) (c : Client)
    → IsValid c
    → c.socks5_method_select_handshake ≡ false
    → c.socks5_auth_handshake ≡ true
    → IsWaiting (to_come c) c.upstream
    → Goes (read_auth_response b c)
unfolding with_request request_bytes
read_auth-Goes b c v s a w = elim (Bool-cases (auth_refused b)) [
  | inl bad ↦ (refuse (authenticated c) b, auth_rejected b c bad, inl refl)
  | inr ok ↦
      let one : to_come c ≡ 1 = ground arith in
      let (rest, e, w') = first_place 0 c.upstream (rw one at w) in
      let two : 2 ≤ size b = ground arith in
      (
        answered (with_request rest (authenticated c)) (skip 2 b),
        auth_accepted b c ok two (write_socks5_request-front (authenticated c) [] rest e),
        inr (record {
          method_is = v.method_is;
          queue =
              let none_left : to_come (with_request rest (authenticated c)) ≡ 0 = ground arith in
              rw none_left (inr (request_bytes c, rest, refl, refl, w'));
        }),
      )
]
