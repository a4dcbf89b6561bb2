-- ===== src/Resolver/Tests.antt =====
-- A resolver of src/net/dot_resolver.cpp, and a request of src/net/dot_request.cpp, at concrete inputs: no text is an address, and a result is the
-- address and the port of each entry.
use yass.Common.{
  ◌⊎◌, inl, bytes_of, take, drop, List, ℕ, ◌≡◌, refl, arith, Bool, true, false, none, some, [], ◌∷◌,
  ◌++◌, map,
}
use yass.AddrInfo.{AddrInfo, addrinfo_of}
use yass.Resolver.{Endpoint, Asio, Resolver, create, init_resolver, start_query}
use yass.Resolver.Steps.{
  resolves, looked_up, do_request, do_request_front, reach_server, async_resolve, on_looked_up,
  step, run,
}
use yass.Resolver.Valid.{both, queries, idle_state, busy_state, looking_state, answered, to_list}
use yass.Dns.Replies.{Answer, answers_bytes}
use yass.Dns.Messages.{response_header, question}
use yass.Resolver.Request.{Request, read_header, bytes_read, on_ssl_readable, read_chunks}
use yass.Resolver.Chunks.{awaiting, chunked_whole}
use yass.Resolver.Resolves.{request_resolves}
use yass.Resolver.Reachable.{Reach, here, next, ready, Reach-answers_once}
use yass.Resolver.Order.{works, knowing, answers_a, answers_aaaa, resolved, resolved_in_order}
use yass.Resolver.Stale.{late, left_over, late_lookup_leaks}

abbrev endpoint_of : AddrInfo → Endpoint
endpoint_of i = record { address = i.address; port = i.port }

abbrev plain : Asio
plain = record { make_address = λ host. none; create = λ infos host port. map endpoint_of infos }

abbrev server : Endpoint
server = record { address = 1 ∷ 1 ∷ 1 ∷ 1 ∷ []; port = 853 }

abbrev info : Bool → ℕ → AddrInfo
info is_ipv6 n = addrinfo_of is_ipv6 443 none (n ∷ [])

abbrev started : Resolver
started = ready (b'd' ∷ []) 0

abbrev known : Resolver
known = record create { init = true; dot_host = b'd' ∷ []; timeout_ms = 300_000 }

abbrev looking_up : Resolver
looking_up = looking_state 7 (record known { host = b'h' ∷ []; port = 443 })

abbrev waiting : Resolver
waiting =
    busy_state 7 0 (queries (both 0 server 1 server))
      (record known { host = b'h' ∷ []; port = 443; endpoints = server ∷ []; created = 2 })

runs : Reach plain started (7 ∷ []) waiting
unfolding init_resolver step async_resolve reach_server on_looked_up do_request_front do_request
    start_query
runs =
    next (looked_up works none (server ∷ []))
      (next {r' = looking_up} (resolves works (b'h' ∷ []) 443 7) here (refl, refl) refl)
      (omega arith, refl, refl) refl

Reach-answers_once_example :
    ((r' : Resolver) × (step plain (answers_a 0 server []) waiting ≡ some r'))
    × (answered waiting ++ to_list waiting.cb ≡ 7 ∷ [])
    × (((waiting.done ≡ true) × (answered waiting ≡ 7 ∷ []))
        ⊎ ((waiting.done ≡ false) × (waiting.timer ≡ true)))
Reach-answers_once_example =
    Reach-answers_once plain (b'd' ∷ []) 0 (7 ∷ []) waiting (answers_a 0 server []) (omega arith)
      runs (inl refl)

resolved_in_order_example :
    (run plain
        (resolves works (b'h' ∷ []) 443 7
          ∷ answers_a 0 server (info false 1 ∷ [])
          ∷ answers_aaaa 0 server (info true 2 ∷ [])
          ∷ [])
        (knowing server [] [] known)
      ≡ some (resolved plain (b'h' ∷ []) 443 7 server [] (info false 1 ∷ info true 2 ∷ []) known))
    × (run plain
          (resolves works (b'h' ∷ []) 443 7
            ∷ answers_aaaa 0 server (info true 2 ∷ [])
            ∷ answers_a 0 server (info false 1 ∷ [])
            ∷ [])
          (knowing server [] [] known)
        ≡ some (resolved plain (b'h' ∷ []) 443 7 server [] (info false 1 ∷ info true 2 ∷ []) known))
resolved_in_order_example =
    resolved_in_order plain (b'h' ∷ []) 443 7 server [] (info false 1 ∷ []) (info true 2 ∷ []) known

late_lookup_leaks_example :
    run plain
      (late (b'h' ∷ []) 443 7 server (info false 1 ∷ []) [] 0
        ++ (resolves works (b'i' ∷ []) 443 8
            ∷ answers_a 2 server (info false 3 ∷ [])
            ∷ answers_aaaa 2 server []
            ∷ []))
      (record (idle_state known) { endpoints = [] })
    ≡ some (
        resolved plain
          (b'i' ∷ [])
          443
          8
          server
          []
          (info false 3 ∷ info false 1 ∷ [])
          (left_over plain (b'h' ∷ []) 443 7 server (info false 1 ∷ []) known))
late_lookup_leaks_example =
    late_lookup_leaks plain (b'h' ∷ []) 443 7 server (info false 1 ∷ []) [] (b'i' ∷ []) 443 8
      (info false 3 ∷ []) [] known refl

abbrev request : Request
request = record {
  dns_type = 1;
  host = [];
  port = 443;
  closed = false;
  cb = true;
  waits = record {
    posted = false;
    connect = false;
    ssl_connect = false;
    write = false;
    read = true;
  };
  send_buf = [];
  recv_buf = [];
  recv_offset = 0;
  read_state = read_header;
  body_length = 0;
  calls = [];
}

chunked_whole_example :
    read_chunks 3 (bytes_of []) ((0 ∷ 2 ∷ 8 ∷ []) ∷ (9 ∷ []) ∷ []) (awaiting request)
    ≡ on_ssl_readable 3 (bytes_of []) (bytes_read (0 ∷ 2 ∷ 8 ∷ 9 ∷ [])) (awaiting request)
chunked_whole_example =
    chunked_whole 3 (bytes_of []) 0 2 (8 ∷ []) ((9 ∷ []) ∷ []) request (omega arith, tt) refl

-- The name is the root's.
abbrev one : List Answer
one = record { pointer = 12; ttl = 0 ∷ 0 ∷ 0 ∷ 60 ∷ []; address = 1 ∷ 2 ∷ 3 ∷ 4 ∷ [] } ∷ []

abbrev reply : List ℕ
reply = response_header 0 0 129 128 0 1 ++ (question [] 0 1 0 1 ++ answers_bytes one)

request_resolves_example :
    (r' : Request) × (read_chunks 1
        (bytes_of [])
        ((0 ∷ 33 ∷ take 20 reply) ∷ drop 20 reply ∷ [])
        (awaiting request)
      ≡ some r')
    × ((r'.cb ≡ false)
        × (r'.calls ≡ (none, addrinfo_of false 443 none (1 ∷ 2 ∷ 3 ∷ 4 ∷ []) ∷ []) ∷ []))
request_resolves_example =
    request_resolves (bytes_of []) 0 [] one 0 0 129 128 0 1 0 1 0 1 tt (omega arith)
      (record { ttl_whole = refl; address_whole = refl }, tt) refl refl 0 33 (take 20 reply)
      (drop 20 reply ∷ []) request (omega arith, tt) refl refl (omega arith) refl refl
