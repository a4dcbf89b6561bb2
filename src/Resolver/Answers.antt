-- ===== src/Resolver/Answers.antt =====
-- A request calls back in src/net/dot_resolver.cpp: the other one is waited for, or all is done.
use mathlib.Core.List.{append-nil, map-append}
use yass.Common.{
  ℕ, ◌≡◌, inl, inr, refl, ◌∙◌, true, Option, none, some, List, [], ◌∷◌, ◌++◌, ◌==◌, ==_iff,
}
use yass.AddrInfo.{AddrInfo}
use yass.Resolver.{
  ResolveError, Endpoint, Asio, Kind, a, aaaa, Query, Resolver, or_not_found, joined,
  on_do_request_done, on_do_request_done_a, on_do_request_done_aaaa, on_query_done,
}
use yass.Resolver.Valid.{
  query, Shape, only, both, queries, idle_state, busy_state, idle, asking, Among, answered,
  callback_of, Fine,
}

module _ (asio : Asio) where
  -- The callback is called with what there is, and the resolver is idle.
  abbrev pub finished : ℕ → Option ResolveError → Resolver → Resolver
  finished callback ec b =
      let results = asio.create b.addrinfo b.host b.port in
      idle_state (record b {
        calls =
            b.calls
            ++ (record { callback = callback; error = or_not_found ec results; results = results }
                ∷ []);
      })

  pub on_done_last :
      (ec : Option ResolveError) (callback : ℕ) (b : Resolver)
      → on_do_request_done asio ec (busy_state callback 0 [] b) ≡ finished callback ec b
  unfolding on_do_request_done
  on_done_last none callback b = refl
  on_done_last (some e) callback b = refl

  pub finished-Fine :
      (callback : ℕ) (ec : Option ResolveError) (b : Resolver)
      → Fine (answered b ++ (callback ∷ [])) (some (finished callback ec b))
  finished-Fine callback ec b = record {
    after = finished callback ec b;
    succeeds = refl;
    valid = idle (finished callback ec b) refl;
    settled = append-nil (answered (finished callback ec b)) ∙ map-append callback_of b.calls _;
  }

  pub asking-Fine :
      (callback : ℕ) (s : Shape) (b : Resolver)
      → Fine (answered b ++ (callback ∷ [])) (some (busy_state callback 0 (queries s) b))
  asking-Fine callback s b = record {
    after = _;
    succeeds = refl;
    valid = asking callback s b refl;
    settled = refl;
  }

  pub same : (n : ℕ) → (n == n) ≡ true
  same n = (==_iff n n).1 refl

  -- The last request that is out calls back.
  last_answer-Fine :
      (k : Kind) (n : ℕ) (f : Endpoint) (ec : Option ResolveError) (infos : List AddrInfo)
      (callback : ℕ) (b : Resolver)
      → Fine (answered b ++ (callback ∷ [])) (
          on_query_done asio
            (query k n f)
            ec
            infos
            (busy_state callback 0 (queries (only k n f)) b))
  unfolding on_query_done on_do_request_done_a on_do_request_done_aaaa
  last_answer-Fine a n f ec infos callback b =
      let r : Resolver = record b { addrinfo = joined infos b.addrinfo } in
      rw (same n, on_done_last ec callback r) (finished-Fine callback ec r)
  last_answer-Fine aaaa n f ec infos callback b =
      let r : Resolver = record b { addrinfo = joined b.addrinfo infos } in
      rw (same n, on_done_last ec callback r) (finished-Fine callback ec r)

  -- One of two calls back: without an error the other one is waited for.
  first_answer-Fine :
      (n : ℕ) (f : Endpoint) (m : ℕ) (g : Endpoint) (ec : Option ResolveError)
      (infos : List AddrInfo) (callback : ℕ) (b : Resolver)
      → Fine (answered b ++ (callback ∷ [])) (
          on_query_done asio
            (query a n f)
            ec
            infos
            (busy_state callback 0 (queries (both n f m g)) b))
  unfolding on_query_done on_do_request_done_a on_do_request_done
  first_answer-Fine n f m g none infos callback b =
      rw (same n)
        (asking-Fine callback (only aaaa m g) (record b { addrinfo = joined infos b.addrinfo }))
  first_answer-Fine n f m g (some e) infos callback b =
      rw (same n)
        (finished-Fine callback (some e) (record b { addrinfo = joined infos b.addrinfo }))

  second_answer-Fine :
      (n : ℕ) (f : Endpoint) (m : ℕ) (g : Endpoint) (ec : Option ResolveError)
      (infos : List AddrInfo) (callback : ℕ) (b : Resolver)
      → Fine (answered b ++ (callback ∷ [])) (
          on_query_done asio
            (query aaaa m g)
            ec
            infos
            (busy_state callback 0 (queries (both n f m g)) b))
  unfolding on_query_done on_do_request_done_aaaa on_do_request_done
  second_answer-Fine n f m g none infos callback b =
      rw (same m)
        (asking-Fine callback (only a n f) (record b { addrinfo = joined b.addrinfo infos }))
  second_answer-Fine n f m g (some e) infos callback b =
      rw (same m)
        (finished-Fine callback (some e) (record b { addrinfo = joined b.addrinfo infos }))

  pub finishes-Fine :
      (q : Query) (s : Shape) (ec : Option ResolveError) (infos : List AddrInfo) (callback : ℕ)
      (b : Resolver)
      → Among q (queries s)
      → Fine
          (answered b ++ (callback ∷ []))
          (on_query_done asio q ec infos (busy_state callback 0 (queries s) b))
  finishes-Fine q (only k n f) ec infos callback b (inl e) =
      rw e (last_answer-Fine k n f ec infos callback b)
  finishes-Fine q (both n f m g) ec infos callback b (inl e) =
      rw e (first_answer-Fine n f m g ec infos callback b)
  finishes-Fine q (both n f m g) ec infos callback b (inr (inl e)) =
      rw e (second_answer-Fine n f m g ec infos callback b)
  finishes-Fine q (only k n f) ec infos callback b (inr none_else) = absurd none_else
  finishes-Fine q (both n f m g) ec infos callback b (inr (inr none_else)) = absurd none_else
