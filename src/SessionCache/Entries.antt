-- ===== src/SessionCache/Entries.antt =====
-- An entry of src/net/ssl_client_session_cache.cpp through any operations on it.
use yass.Common.{
  ℕ, ◌+◌, ◌≤◌, ◌≡◌, refl, arith, inl, inr, Bool, true, false, not, ◌&&◌, ◌||◌, Option, none, some,
  List, [], ◌∷◌, if◌then◌else◌, Bool-cases,
}
use yass.SessionCache.{
  Session, Now, Entry, push, pop, expire_sessions, is_expired, is_single_use, is_null,
}

-- What a connection does with an entry.
pub data Operation : Type 0 where
  pushed : Session → Operation
  popped : Operation
  expired : Now → Operation

-- The entry after the operations, and what they returned, the last first.
unfoldable pub perform : Operation → Entry → Option Session × Entry
perform (pushed s) e = (none, push s e)
perform popped e = pop e
perform (expired now) e = (none, (expire_sessions now e).1)

-- How often a session with the property `p` is there: in a slot; in an entry; among what was returned,
-- and among what was pushed, by the operations.
abbrev pub held : (Session → Bool) → Option Session → ℕ
held p none = 0
held p (some s) = if p s then 1 else 0

abbrev pub held_in : (Session → Bool) → Entry → ℕ
held_in p e = held p e.first + held p e.second

unfoldable pub returned : (Session → Bool) → List Operation → Entry → ℕ
returned p [] e = 0
returned p (o ∷ os) e = let (s, e') = perform o e in held p s + returned p os e'

unfoldable pub given : (Session → Bool) → List Operation → ℕ
given p [] = 0
given p (pushed s ∷ os) = held p (some s) + given p os
given p (popped ∷ os) = given p os
given p (expired now ∷ os) = given p os

-- A slot is emptied for the other, or has no session with the property.
pop_choice :
    (p : Session → Bool) (u : Bool) (a b : Option Session)
    → (u ≡ false → held p a ≡ 0)
    → held p a
        + held_in p
            (if u then record { first = b; second = none } else record { first = a; second = b })
      ≤ held p a + held p b
pop_choice p true a b h = omega arith
pop_choice p false a b h = omega (arith, h refl)

not_single_use :
    (p : Session → Bool) (a : Option Session)
    → ((s : Session) → p s ≡ true → s.single_use ≡ true)
    → is_single_use a ≡ false
    → held p a ≡ 0
not_single_use p none once u = refl
not_single_use p (some s) once u = elim (Bool-cases (p s)) [
  | inl x ↦ absurd (cc (once s x, u))
  | inr x ↦ rw x refl
]

pop-held :
    (p : Session → Bool) (e : Entry)
    → ((s : Session) → p s ≡ true → s.single_use ≡ true)
    → held p (pop e).0 + held_in p (pop e).1 ≤ held_in p e
unfolding pop
pop-held p e once =
    pop_choice p (is_single_use e.first) e.first e.second (not_single_use p e.first once)

push-held :
    (p : Session → Bool) (s : Session) (e : Entry)
    → held_in p (push s e) ≤ held p (some s) + held_in p e
unfolding push
push-held p s e = elim (Bool-cases (is_single_use e.first)) [
  | inl u ↦ rw u (omega arith)
  | inr u ↦ rw u (omega arith)
]

expire-held :
    (p : Session → Bool) (now : Now) (e : Entry) → held_in p (expire_sessions now e).1 ≤ held_in p e
unfolding expire_sessions
expire-held p now e = elim (Bool-cases (is_null e.first || is_expired e.first now)) [
  | inl u ↦ rw u (omega arith)
  | inr u ↦ elim (Bool-cases (not (is_null e.second) && is_expired e.second now)) [
    | inl v ↦ rw (u, v) (omega arith)
    | inr v ↦ rw (u, v) (omega arith)
  ]
]

-- Whatever is pushed to an entry, popped from it and expired, in any order: sessions that should be used
-- once are returned at most as often as they were pushed, counting those that the entry held before.
pub single_use_once :
    (p : Session → Bool) (os : List Operation) (e : Entry)
    → ((s : Session) → p s ≡ true → s.single_use ≡ true)
    → returned p os e ≤ given p os + held_in p e
unfolding returned perform given
single_use_once p [] e once = omega arith
single_use_once p (pushed s ∷ os) e once =
    omega (arith, single_use_once p os (push s e) once, push-held p s e)
single_use_once p (popped ∷ os) e once =
    omega (arith, single_use_once p os (pop e).1 once, pop-held p e once)
single_use_once p (expired now ∷ os) e once =
    omega (arith, single_use_once p os (expire_sessions now e).1 once, expire-held p now e)
