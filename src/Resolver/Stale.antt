-- ===== src/Resolver/Stale.antt =====
-- A time-out while the server's own name is looked up, and a resolution that was cancelled, in
-- src/net/dot_resolver.cpp.
use mathlib.Core.List.{append-nil}
use yass.Common.{
  ℕ, ◌+◌, ◌≡◌, ap, ◌∙◌, true, false, none, some, some-injective, Option-cases, inl, inr, List, [],
  ◌∷◌, ◌++◌,
}
use yass.AddrInfo.{AddrInfo}
use yass.Resolver.{
  Endpoint, Asio, Resolver, timed_out, cancel, on_do_request_done, on_do_request_done_a,
  on_do_request_done_aaaa, on_query_done, start_query,
}
use yass.Resolver.Steps.{
  Start, Event, resolves, fires, looked_up, do_request, do_request_front, reach_server,
  async_resolve, on_timer, on_looked_up, step, run,
}
use yass.Resolver.Valid.{idle_state}
use yass.Resolver.Answers.{same}
use yass.Resolver.Order.{works, knowing, answers_a, answers_aaaa, resolved, a_first}

-- The resolver times out while it looks up the server, which is found later.
abbrev pub late : List ℕ → ℕ → ℕ → Endpoint → List AddrInfo → List AddrInfo → ℕ → List Event
late host port callback f u v n =
    resolves works host port callback
    ∷ fires
    ∷ looked_up works none (f ∷ [])
    ∷ answers_a n f u
    ∷ answers_aaaa n f v
    ∷ []

module _ (asio : Asio) where
  -- The state after that: the addresses are kept.
  abbrev pub left_over : List ℕ → ℕ → ℕ → Endpoint → List AddrInfo → Resolver → Resolver
  left_over host port callback f infos b = knowing f [] infos (record b {
    host = host;
    port = port;
    created = b.created + 1 + 1;
    calls =
        b.calls
        ++ (record {
          callback = callback;
          error = some timed_out;
          results = asio.create [] host port;
        }
            ∷ []);
  })

  late-left_over :
      (host : List ℕ) (port callback : ℕ) (f : Endpoint) (u v : List AddrInfo) (b : Resolver)
      → asio.make_address b.dot_host ≡ none
      → run asio
          (late host port callback f u v b.created)
          (record (idle_state b) { endpoints = [] })
        ≡ some (left_over host port callback f (u ++ v) b)
  unfolding run step async_resolve reach_server on_timer on_looked_up do_request_front do_request
      start_query on_query_done on_do_request_done_a on_do_request_done_aaaa on_do_request_done
  late-left_over host port callback f u v b m =
      rw (m, reach_server, same asio b.created, same asio (b.created + 1))
        (ap (λ w. some (left_over host port callback f (w ++ v) b)) (append-nil u))

  run-append :
      (es fs : List Event) (r r' : Resolver)
      → run asio es r ≡ some r'
      → run asio (es ++ fs) r ≡ run asio fs r'
  unfolding run
  run-append [] fs r r' h = ap (run asio fs) (some-injective h)
  run-append (e ∷ es) fs r r' h = elim (Option-cases (step asio e r)) [
    | inl n ↦ absurd (cc (rw n at h))
    | inr (r1, s) ↦ rw s (run-append es fs r1 r' (rw s at h))
  ]

  -- An idle resolver whose server has a name that is not known yet times out while that name is looked
  -- up. When the lookup then ends, the two requests for the old host are made all the same, and their
  -- addresses `u` and `v` are kept; so the next resolution, for another host, answers with them between
  -- its own addresses `x` and `y`, without an error of its own.
  pub late_lookup_leaks :
      (host : List ℕ) (port callback : ℕ) (f : Endpoint) (u v : List AddrInfo) (host' : List ℕ)
      (port' callback' : ℕ) (x y : List AddrInfo) (b : Resolver)
      → asio.make_address b.dot_host ≡ none
      → run asio
          (late host port callback f u v b.created
            ++ (resolves works host' port' callback'
                ∷ answers_a (b.created + 1 + 1) f x
                ∷ answers_aaaa (b.created + 1 + 1) f y
                ∷ []))
          (record (idle_state b) { endpoints = [] })
        ≡ some (
            resolved asio host' port' callback' f []
              (x ++ ((u ++ v) ++ y))
              (left_over host port callback f (u ++ v) b))
  late_lookup_leaks host port callback f u v host' port' callback' x y b m =
      run-append (late host port callback f u v b.created) _ _ _
        (late-left_over host port callback f u v b m)
      ∙ a_first asio host' port' callback' f [] (u ++ v) x y
          (left_over host port callback f (u ++ v) b)

  -- `Cancel` while a resolution is under way does not set `done_`: the next `AsyncResolve` fails its
  -- DCHECK.
  async_resolve-cancel :
      (s : Start) (host : List ℕ) (port callback : ℕ) (r : Resolver)
      → r.init ≡ true
      → r.done ≡ false
      → async_resolve asio s host port callback (cancel r) ≡ none
  unfolding cancel async_resolve
  async_resolve-cancel s host port callback r i d = rw (i, d)
