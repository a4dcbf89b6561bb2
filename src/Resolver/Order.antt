-- ===== src/Resolver/Order.antt =====
-- Two answers in either order, in src/net/dot_resolver.cpp.
use mathlib.Core.List.{append_assoc}
use yass.Common.{ℕ, ◌+◌, ◌≡◌, ap, true, none, some, List, [], ◌∷◌, ◌++◌}
use yass.AddrInfo.{AddrInfo}
use yass.Resolver.{
  Endpoint, Asio, a, aaaa, Resolver, on_do_request_done, on_do_request_done_a,
  on_do_request_done_aaaa, on_query_done, start_query,
}
use yass.Resolver.Steps.{
  Start, Event, resolves, finishes, do_request, reach_server, async_resolve, step, run,
}
use yass.Resolver.Valid.{query, idle_state}
use yass.Resolver.Answers.{finished, same}

-- IPv6 works, and no request fails at once.
abbrev pub works : Start
works = record { ipv6works = true; failure = λ k. none }

-- An idle resolver that knows its server, with `left` as its list of addresses.
abbrev pub knowing : Endpoint → List Endpoint → List AddrInfo → Resolver → Resolver
knowing f eps left b = record (idle_state b) { endpoints = f ∷ eps; addrinfo = left }

-- The answers to the two requests, which were the `n`-th and the next.
abbrev pub answers_a : ℕ → Endpoint → List AddrInfo → Event
answers_a n f u = finishes (query a n f) none u

abbrev pub answers_aaaa : ℕ → Endpoint → List AddrInfo → Event
answers_aaaa n f v = finishes (query aaaa (n + 1) f) none v

module _ (asio : Asio) where
  abbrev pub resolved :
      List ℕ → ℕ → ℕ → Endpoint → List Endpoint → List AddrInfo → Resolver → Resolver
  resolved host port callback f eps infos b = finished asio callback none (record b {
    host = host;
    port = port;
    endpoints = f ∷ eps;
    addrinfo = infos;
    created = b.created + 1 + 1;
  })

  pub a_first :
      (host : List ℕ) (port callback : ℕ) (f : Endpoint) (eps : List Endpoint)
      (left u v : List AddrInfo) (b : Resolver)
      → run asio
          (resolves works host port callback
            ∷ answers_a b.created f u
            ∷ answers_aaaa b.created f v
            ∷ [])
          (knowing f eps left b)
        ≡ some (resolved host port callback f eps (u ++ (left ++ v)) b)
  unfolding run step async_resolve reach_server do_request start_query on_query_done
      on_do_request_done_a on_do_request_done_aaaa on_do_request_done
  a_first host port callback f eps left u v b =
      rw (same asio b.created, same asio (b.created + 1))
        (ap (λ l. some (resolved host port callback f eps l b)) (append_assoc u left v))

  pub aaaa_first :
      (host : List ℕ) (port callback : ℕ) (f : Endpoint) (eps : List Endpoint)
      (left u v : List AddrInfo) (b : Resolver)
      → run asio
          (resolves works host port callback
            ∷ answers_aaaa b.created f v
            ∷ answers_a b.created f u
            ∷ [])
          (knowing f eps left b)
        ≡ some (resolved host port callback f eps (u ++ (left ++ v)) b)
  unfolding run step async_resolve reach_server do_request start_query on_query_done
      on_do_request_done_a on_do_request_done_aaaa on_do_request_done
  aaaa_first host port callback f eps left u v b =
      rw (same asio (b.created + 1), same asio b.created)

  -- An idle resolver that knows its server asks for a host, IPv6 works and no request fails at once.
  -- When both requests are answered, in either order, the resolver is idle again and has called the
  -- callback once, with the IPv4 addresses in front of the IPv6 ones, each in their order; with the
  -- error `host_not_found` when there are none, and without an error otherwise.
  pub resolved_in_order :
      (host : List ℕ) (port callback : ℕ) (f : Endpoint) (eps : List Endpoint) (u v : List AddrInfo)
      (b : Resolver)
      → (run asio
            (resolves works host port callback
              ∷ answers_a b.created f u
              ∷ answers_aaaa b.created f v
              ∷ [])
            (knowing f eps [] b)
          ≡ some (resolved host port callback f eps (u ++ v) b))
        × (run asio
              (resolves works host port callback
                ∷ answers_aaaa b.created f v
                ∷ answers_a b.created f u
                ∷ [])
              (knowing f eps [] b)
            ≡ some (resolved host port callback f eps (u ++ v) b))
  resolved_in_order host port callback f eps u v b =
      (a_first host port callback f eps [] u v b, aaaa_first host port callback f eps [] u v b)
