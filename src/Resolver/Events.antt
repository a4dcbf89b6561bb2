-- ===== src/Resolver/Events.antt =====
-- Each event that may come, from each state between events, in src/net/dot_resolver.cpp.
use mathlib.Core.Path.{subst}
use mathlib.Core.List.{append-nil}
use yass.Common.{
  ℕ, ◌≡◌, inl, inr, refl, sym, arith, true, Option, none, some, List, [], ◌∷◌, ◌++◌, Option-cases,
}
use yass.Resolver.{
  ResolveError, timed_out, Endpoint, Asio, Query, Resolver, dot_port, on_do_request_done,
}
use yass.Resolver.Steps.{
  Start, fails_alike, Event, resolves, fires, looked_up, finishes, step, do_request_front,
  reach_server, async_resolve, on_timer, on_looked_up,
}
use yass.Resolver.Valid.{
  queries, idle_state, busy_state, looking_state, Valid, idle, looking, asking, Allowed, asked,
  answered, accounted, Fine,
}
use yass.Resolver.Answers.{finished-Fine, finishes-Fine}
use yass.Resolver.Preserve.{do_request-Fine}

module _ (asio : Asio) where
  abbrev Reaches : Start → List Endpoint → ℕ → Resolver → Type 0
  Reaches s eps callback b = Fine (answered b ++ (callback ∷ [])) (
      reach_server asio s eps
        (record (busy_state callback 0 [] b) { endpoints = eps; addrinfo = [] }))

  reach_server-Fine :
      (s : Start) (eps : List Endpoint) (callback : ℕ) (b : Resolver)
      → fails_alike s ≡ true
      → Reaches s eps callback b
  unfolding reach_server
  reach_server-Fine s (f ∷ eps) callback b h =
      do_request-Fine asio s f callback (record b { endpoints = f ∷ eps; addrinfo = [] }) h
  reach_server-Fine s [] callback b h = elim (Option-cases (asio.make_address b.dot_host)) [
    | inr (address, m) ↦
        let f : Endpoint = record { address = address; port = dot_port } in
        rw (m, reach_server)
          (do_request-Fine asio s f callback (record b { endpoints = f ∷ []; addrinfo = [] }) h)
    | inl m ↦
        rw (m, reach_server)
          (record {
            after = looking_state callback b;
            succeeds = refl;
            valid = looking callback b refl;
            settled = refl;
          })
  ]

  resolve-Fine :
      (s : Start) (host : List ℕ) (port callback : ℕ) (b : Resolver)
      → fails_alike s ≡ true
      → Fine
          (answered b ++ (callback ∷ []))
          (async_resolve asio s host port callback (idle_state b))
  unfolding async_resolve
  resolve-Fine s host port callback b h =
      reach_server-Fine s b.endpoints callback (record b { host = host; port = port }) h

  looked_up-Fine :
      (s : Start) (ec : Option ResolveError) (results : List Endpoint) (callback : ℕ) (b : Resolver)
      → Allowed (looked_up s ec results) (looking_state callback b)
      → Fine
          (answered b ++ (callback ∷ []))
          (on_looked_up asio s ec results (looking_state callback b))
  unfolding on_looked_up do_request_front on_do_request_done
  looked_up-Fine s (some e) results callback b h =
      finished-Fine asio callback (some e) (record b { addrinfo = []; endpoints = [] })
  looked_up-Fine s none [] callback b (h, k, l) = absurd (cc k)
  looked_up-Fine s none (f ∷ results) callback b (h, k, l) =
      do_request-Fine asio s f callback (record b { addrinfo = []; endpoints = f ∷ results }) l

  timer-Fine :
      (callback : ℕ) (reqs : List Query) (b : Resolver)
      → Fine (answered b ++ (callback ∷ [])) (some (on_timer asio (busy_state callback 0 reqs b)))
  unfolding on_timer on_do_request_done
  timer-Fine callback reqs b = finished-Fine asio callback (some timed_out) b

  -- From each state, by each event that may come.
  idle-step :
      (e : Event) (b : Resolver)
      → Allowed e (idle_state b)
      → Fine (accounted (idle_state b) ++ asked e) (step asio e (idle_state b))
  unfolding step
  idle-step (resolves s host port callback) b (d, h) =
      rw (append-nil (answered (idle_state b))) (resolve-Fine s host port callback b h)
  idle-step fires b (t, l) = absurd (cc t)
  idle-step (looked_up s none results) b (h, k, l) = absurd (omega arith)
  idle-step (looked_up s (some e) results) b h = absurd (omega arith)
  idle-step (finishes q ec infos) b h = absurd h

  looking-step :
      (e : Event) (callback : ℕ) (b : Resolver)
      → Allowed e (looking_state callback b)
      → Fine
          (accounted (looking_state callback b) ++ asked e)
          (step asio e (looking_state callback b))
  unfolding step
  looking-step (resolves s host port c) callback b (d, h) = absurd (cc d)
  looking-step fires callback b (t, l) = absurd (omega (arith, l))
  looking-step (looked_up s ec results) callback b h =
      rw append-nil (looked_up-Fine s ec results callback b h)
  looking-step (finishes q ec infos) callback b h = absurd h

  asking-step :
      (e : Event) (callback : ℕ) (s : _) (b : Resolver)
      → Allowed e (busy_state callback 0 (queries s) b)
      → Fine
          (accounted (busy_state callback 0 (queries s) b) ++ asked e)
          (step asio e (busy_state callback 0 (queries s) b))
  unfolding step
  asking-step (resolves s' host port c) callback s b (d, h) = absurd (cc d)
  asking-step fires callback s b h = rw append-nil (timer-Fine callback (queries s) b)
  asking-step (looked_up s' none results) callback s b (h, k, l) = absurd (omega arith)
  asking-step (looked_up s' (some e) results) callback s b h = absurd (omega arith)
  asking-step (finishes q ec infos) callback s b h =
      rw append-nil (finishes-Fine asio q s ec infos callback b h)

  pub step-Fine :
      (e : Event) (r : Resolver)
      → Valid r
      → Allowed e r
      → Fine (accounted r ++ asked e) (step asio e r)
  step-Fine e r (idle b q) h =
      subst (λ (x : Resolver). Fine (accounted x ++ asked e) (step asio e x)) (sym q)
        (idle-step e b (subst (λ (x : Resolver). Allowed e x) q h))
  step-Fine e r (looking callback b q) h =
      subst (λ (x : Resolver). Fine (accounted x ++ asked e) (step asio e x)) (sym q)
        (looking-step e callback b (subst (λ (x : Resolver). Allowed e x) q h))
  step-Fine e r (asking callback s b q) h =
      subst (λ (x : Resolver). Fine (accounted x ++ asked e) (step asio e x)) (sym q)
        (asking-step e callback s b (subst (λ (x : Resolver). Allowed e x) q h))
