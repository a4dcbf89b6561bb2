-- ===== src/Resolver/Steps.antt =====
-- `AsyncResolve` and `DoRequest` of src/net/dot_resolver.cpp, and the events that a resolver sees.
use yass.Common.{
  ℕ, ◌+◌, ◌-◌, Bool, true, false, not, ◌&&◌, ◌||◌, Option, none, some, List, [], ◌∷◌, ◌++◌, ◌>>=◌,
  if◌then◌else◌,
}
use yass.AddrInfo.{AddrInfo}
use yass.Resolver.{
  ResolveError, timed_out, Endpoint, Asio, Kind, a, aaaa, Query, Resolver, is_nil, dot_port,
  on_do_request_done, on_query_done, start_query,
}

-- What the system does while a resolution starts: whether IPv6 works, and for each of the two requests
-- whether its `DoRequest` fails at once.
pub record Start : Type 0 where
  pub ipv6works : Bool
  pub failure : Kind → Option ResolveError

-- Failures at once: that of a name that cannot be asked for is one of both requests.
abbrev pub is_failed : Option ResolveError → Bool
is_failed none = false
is_failed (some e) = true

abbrev pub fails_alike : Start → Bool
fails_alike s = not (is_failed (s.failure a)) || is_failed (s.failure aaaa)

pub data Event : Type 0 where
  resolves : Start → List ℕ → ℕ → ℕ → Event  -- `AsyncResolve` with host, port and callback
  fires : Event  -- the timer
  looked_up : Start → Option ResolveError → List Endpoint → Event  -- the server's own name
  finishes : Query → Option ResolveError → List AddrInfo → Event  -- a request calls back

module _ (asio : Asio) where
  unfoldable pub do_request : Start → Endpoint → Resolver → Option Resolver
  do_request s endpoint r = start_query asio a endpoint (s.failure a) r >>= λ r'.
      if s.ipv6works then start_query asio aaaa endpoint (s.failure aaaa) r' else some r'

  -- `DoRequest(..., endpoints_.front())`
  unfoldable pub do_request_front : Start → List Endpoint → Resolver → Option Resolver
  do_request_front s [] r = none
  do_request_front s (endpoint ∷ rest) r = do_request s endpoint r

  -- The address of the server: known already, written as an address, or to be looked up.
  unfoldable pub reach_server : Start → List Endpoint → Resolver → Option Resolver
  reach_server s (endpoint ∷ rest) r = do_request s endpoint r
  reach_server s [] r = elim (asio.make_address r.dot_host) [
    | some address ↦
        do_request s (record { address = address; port = dot_port })
          (record r { endpoints = record { address = address; port = dot_port } ∷ [] })
    | none ↦ some (record r { lookups = r.lookups + 1 })
  ]

  unfoldable pub async_resolve : Start → List ℕ → ℕ → ℕ → Resolver → Option Resolver
  async_resolve s host port callback r =
      if r.init && r.done
      then reach_server s r.endpoints
          (record r { host = host; port = port; cb = some callback; done = false; timer = true })
      else none

  unfoldable pub on_timer : Resolver → Resolver
  on_timer r =
      let r' : Resolver = record r { timer = false } in
      if r'.done then r' else on_do_request_done asio (some timed_out) r'

  -- The callback of `resolver_.async_resolve`; an aborted one does nothing.
  unfoldable pub on_looked_up :
      Start → Option ResolveError → List Endpoint → Resolver → Option Resolver
  on_looked_up s ec results r0 =
      let r : Resolver = record r0 { lookups = r0.lookups - 1 } in
      elim ec [
        | some e ↦ if is_nil r.reqs then some (on_do_request_done asio (some e) r) else none
        | none ↦
            do_request_front s (r.endpoints ++ results)
              (record r { endpoints = r.endpoints ++ results })
      ]

  unfoldable pub step : Event → Resolver → Option Resolver
  step (resolves s host port callback) r = async_resolve s host port callback r
  step fires r = some (on_timer r)
  step (looked_up s ec results) r = on_looked_up s ec results r
  step (finishes q ec addrinfo) r = on_query_done asio q ec addrinfo r

  unfoldable pub run : List Event → Resolver → Option Resolver
  run [] r = some r
  run (e ∷ es) r = step e r >>= run es
