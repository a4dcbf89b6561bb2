-- ===== src/Resolver/Preserve.antt =====
-- Each event of src/net/dot_resolver.cpp leads from one of the states between events to another.
use yass.Common.{
  ℕ, ◌+◌, ◌≡◌, inl, inr, refl, true, none, some, [], ◌∷◌, ◌++◌, Bool-cases, Option-cases,
}
use yass.Resolver.{
  ResolveError, Endpoint, Asio, Kind, a, aaaa, Resolver, on_do_request_done, on_do_request_done_a,
  on_do_request_done_aaaa, on_query_done, start_query,
}
use yass.Resolver.Steps.{Start, fails_alike, do_request}
use yass.Resolver.Valid.{query, only, both, idle_state, busy_state, answered, Fine}
use yass.Resolver.Answers.{finished, finished-Fine, asking-Fine, same}

module _ (asio : Asio) where
  -- A request is started: it is out, or it failed and the callback was called.
  start_out :
      (k : Kind) (f : Endpoint) (r : Resolver)
      → start_query asio k f none r
        ≡ some (record r { reqs = r.reqs ++ (query k r.created f ∷ []); created = r.created + 1 })
  unfolding start_query
  start_out k f r = refl

  abbrev created_one : Resolver → Resolver
  created_one b = record b { created = b.created + 1 }

  start_a_failed :
      (f : Endpoint) (e : ResolveError) (callback : ℕ) (b : Resolver)
      → start_query asio a f (some e) (busy_state callback 0 [] b)
        ≡ some (finished asio callback (some e) (created_one b))
  unfolding start_query on_query_done on_do_request_done_a on_do_request_done
  start_a_failed f e callback b = rw (same asio b.created)

  start_aaaa_failed :
      (f : Endpoint) (e : ResolveError) (n : ℕ) (callback : ℕ) (b : Resolver)
      → start_query asio aaaa f (some e) (busy_state callback 0 (query a n f ∷ []) b)
        ≡ some (
            finished asio callback
              (some e)
              (record (created_one b) { addrinfo = b.addrinfo ++ [] }))
  unfolding start_query on_query_done on_do_request_done_aaaa on_do_request_done
  start_aaaa_failed f e n callback b = rw (same asio b.created)

  -- The callback has been called: the second failure does nothing.
  start_idle :
      (f : Endpoint) (e : ResolveError) (b : Resolver)
      → start_query asio aaaa f (some e) (idle_state b) ≡ some (idle_state (created_one b))
  unfolding start_query on_query_done on_do_request_done_aaaa on_do_request_done
  start_idle f e b = rw (same asio b.created)

  -- A failure of the first request is one of the second as well.
  alike :
      (s : Start) (e : ResolveError)
      → fails_alike s ≡ true
      → s.failure a ≡ some e
      → (e' : ResolveError) × (s.failure aaaa ≡ some e')
  alike s e h f = elim (Option-cases (s.failure aaaa)) [
    | inl n ↦ absurd (cc (rw (f, n) at h))
    | inr t ↦ t
  ]

  abbrev pub Starts : Start → Endpoint → ℕ → Resolver → Type 0
  Starts s f callback b =
      Fine (answered b ++ (callback ∷ [])) (do_request asio s f (busy_state callback 0 [] b))

  -- The first request is out.
  first_out-Fine :
      (s : Start) (f : Endpoint) (callback : ℕ) (b : Resolver)
      → s.failure a ≡ none
      → Starts s f callback b
  unfolding do_request
  first_out-Fine s f callback b n = elim (Bool-cases s.ipv6works) [
    | inr v ↦
        rw (n, start_out a f, v) (asking-Fine asio callback (only a b.created f) (created_one b))
    | inl v ↦ elim (Option-cases (s.failure aaaa)) [
      | inl m ↦
          rw (n, start_out a f, v, m, start_out aaaa f)
            (asking-Fine asio callback (both b.created f (b.created + 1) f)
              (created_one (created_one b)))
      | inr (e, m) ↦
          rw (n, start_out a f, v, m, start_aaaa_failed f e b.created callback (created_one b))
            (finished-Fine asio callback (some e)
              (record (created_one (created_one b)) { addrinfo = b.addrinfo ++ [] }))
    ]
  ]

  -- The first request failed, and so does the second, if there is one.
  first_failed-Fine :
      (s : Start) (f : Endpoint) (callback : ℕ) (b : Resolver) (e : ResolveError)
      → fails_alike s ≡ true
      → s.failure a ≡ some e
      → Starts s f callback b
  unfolding do_request
  first_failed-Fine s f callback b e h n = elim (Bool-cases s.ipv6works) [
    | inr v ↦
        rw (n, start_a_failed f e callback b, v)
          (finished-Fine asio callback (some e) (created_one b))
    | inl v ↦
        let (e', m) = alike s e h n in
        let r : Resolver = finished asio callback (some e) (created_one b) in
        rw (n, start_a_failed f e callback b, v, m, start_idle f e' r)
          (finished-Fine asio callback (some e) (created_one (created_one b)))
  ]

  pub do_request-Fine :
      (s : Start) (f : Endpoint) (callback : ℕ) (b : Resolver)
      → fails_alike s ≡ true
      → Starts s f callback b
  do_request-Fine s f callback b h = elim (Option-cases (s.failure a)) [
    | inl n ↦ first_out-Fine s f callback b n
    | inr (e, n) ↦ first_failed-Fine s f callback b e h n
  ]
