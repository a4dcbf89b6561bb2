-- ===== src/Resolver/Valid.antt =====
-- The states between the events of a resolver, src/net/dot_resolver.cpp: idle, looking up the server, or
-- waiting for one request or two.
use yass.Common.{ℕ, ◌≡◌, ◌<◌, ◌⊎◌, true, false, Option, none, some, List, [], ◌∷◌, ◌++◌, map}
use yass.Resolver.{Endpoint, Kind, a, aaaa, Query, Call, Resolver, is_nil}
use yass.Resolver.Steps.{fails_alike, Event, resolves, fires, looked_up, finishes}

abbrev pub query : Kind → ℕ → Endpoint → Query
query k n e = record { id = n; kind = k; endpoint = e }

-- The requests that are out: one, or one of each kind.
pub data Shape : Type 0 where
  only : Kind → ℕ → Endpoint → Shape
  both : ℕ → Endpoint → ℕ → Endpoint → Shape

abbrev pub queries : Shape → List Query
queries (only k n e) = query k n e ∷ []
queries (both n e m f) = query a n e ∷ query aaaa m f ∷ []

abbrev pub idle_state : Resolver → Resolver
idle_state b = record b {
  init = true;
  timer = false;
  lookups = 0;
  done = true;
  cb = none;
  reqs = [];
  addrinfo = [];
}

abbrev pub busy_state : ℕ → ℕ → List Query → Resolver → Resolver
busy_state callback lookups reqs b = record b {
  init = true;
  timer = true;
  lookups = lookups;
  done = false;
  cb = some callback;
  reqs = reqs;
}

abbrev pub looking_state : ℕ → Resolver → Resolver
looking_state callback b = record (busy_state callback 1 [] b) { addrinfo = []; endpoints = [] }

pub data Valid (r : Resolver) : Type 0 where
  idle : (b : Resolver) → r ≡ idle_state b → Valid r
  looking : (callback : ℕ) (b : Resolver) → r ≡ looking_state callback b → Valid r
  asking :
      (callback : ℕ) (s : Shape) (b : Resolver) → r ≡ busy_state callback 0 (queries s) b → Valid r

abbrev pub Among : Query → List Query → Type 0
Among q [] = ⊥
Among q (x ∷ xs) = (q ≡ x) ⊎ Among q xs

-- What comes when: a resolution when none is under way, the timer when it is set and the server's name
-- is not being looked up, a request's answer while it is out.
abbrev pub Allowed : Event → Resolver → Type 0
Allowed (resolves s host port callback) r = (r.done ≡ true) × (fails_alike s ≡ true)
Allowed fires r = (r.timer ≡ true) × (r.lookups ≡ 0)
Allowed (looked_up s none results) r =
    (0 < r.lookups) × (is_nil results ≡ false) × (fails_alike s ≡ true)
Allowed (looked_up s (some e) results) r = 0 < r.lookups
Allowed (finishes q ec addrinfo) r = Among q r.reqs

-- The callbacks that an event brings, those that were called, in order, and the one still to be called.
abbrev pub asked : Event → List ℕ
asked (resolves s host port callback) = callback ∷ []
asked _ = []

abbrev pub callback_of : Call → ℕ
callback_of c = c.callback

abbrev pub answered : Resolver → List ℕ
answered r = map callback_of r.calls

abbrev pub to_list {ℓ} : {A : Type ℓ} → Option A → List A
to_list none = []
to_list (some x) = x ∷ []

abbrev pub accounted : Resolver → List ℕ
accounted r = answered r ++ to_list r.cb

-- An outcome: no DCHECK failed, the state is one of those above, and `bill` is accounted for.
pub record Fine (bill : List ℕ) (o : Option Resolver) : Type 0 where
  pub after : Resolver
  pub succeeds : o ≡ some after
  pub valid : Valid after
  pub settled : accounted after ≡ bill
