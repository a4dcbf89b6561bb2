-- ===== src/Resolver.antt =====
-- The resolver of names over TLS, src/net/dot_resolver.cpp. What asio and the system do is a parameter
-- or an event: `lookups` counts the resolutions of the server's own name that asio has under way, and
-- `timer` says whether the timer is set. A failed DCHECK is `none`. A vector or a callback that was
-- moved from is empty.
pub mod Steps
pub mod Valid
pub mod Answers
pub mod Preserve
pub mod Events
pub mod Reachable
pub mod Order
pub mod Stale
pub mod Request
pub mod Chunks
pub mod Resolves
mod Tests
use yass.Common.{
  ℕ, ◌+◌, ◌*◌, Bool, true, false, not, Option, none, some, List, [], ◌∷◌, ◌++◌, ltb, ◌==◌,
  if◌then◌else◌, length,
}
use yass.Handshake.{ErrorCode}
use yass.AddrInfo.{AddrInfo}

-- The codes that the resolver and its requests make, and any other.
pub data ResolveError : Type 0 where
  invalid_argument host_not_found host_unreachable timed_out : ResolveError
  operation_not_supported connection_refused : ResolveError
  other : ErrorCode → ResolveError

pub record Endpoint : Type 0 where
  pub address : List ℕ
  pub port : ℕ

-- What the code calls: `make_address`, and `results_type::create` with a list, a host and a port.
pub record Asio : Type 0 where
  pub make_address : List ℕ → Option (List ℕ)
  pub create : List AddrInfo → List ℕ → ℕ → List Endpoint

pub data Kind : Type 0 where
  a aaaa : Kind

-- A `DoTRequest`, as the resolver keeps it.
pub record Query : Type 0 where
  pub id : ℕ
  pub kind : Kind
  pub endpoint : Endpoint

-- A call of the callback that `AsyncResolve` was given.
pub record Call : Type 0 where
  pub callback : ℕ
  pub error : Option ResolveError
  pub results : List Endpoint

pub record Resolver : Type 0 where
  pub init : Bool
  pub dot_host : List ℕ
  pub timeout_ms : ℕ
  pub timer : Bool
  pub lookups : ℕ
  pub done : Bool
  pub endpoints : List Endpoint
  pub host : List ℕ
  pub port : ℕ
  pub cb : Option ℕ
  pub reqs : List Query
  pub addrinfo : List AddrInfo
  pub created : ℕ  -- how many requests were created
  pub calls : List Call

abbrev pub create : Resolver
create = record {
  init = false;
  dot_host = [];
  timeout_ms = 0;
  timer = false;
  lookups = 0;
  done = true;
  endpoints = [];
  host = [];
  port = 0;
  cb = none;
  reqs = [];
  addrinfo = [];
  created = 0;
  calls = [];
}

abbrev pub is_nil {ℓ} : {A : Type ℓ} → List A → Bool
is_nil [] = true
is_nil (x ∷ xs) = false

abbrev pub dot_port : ℕ
dot_port = 853

-- `Init`, with what `SetupSSLContext` ends with
unfoldable pub init_resolver :
    List ℕ → ℕ → Option ResolveError → Resolver → Option ResolveError × Resolver
init_resolver dot_host timeout_ms ssl r =
    let r' = record r {
      timeout_ms = if timeout_ms == 0 then 300 * 1000 else timeout_ms;
      dot_host = dot_host;
    } in
    if ltb 255 (length dot_host)
    then (some invalid_argument, r')
    else elim ssl [ some e ↦ (some e, r') | none ↦ (none, record r' { init = true }) ]

-- `Cancel` and `Destroy`: asio aborts the lookups, a closed request does not call back.
unfoldable pub cancel : Resolver → Resolver
cancel r =
    if not r.init
    then r
    else record r { cb = none; lookups = 0; timer = false; reqs = []; addrinfo = [] }

abbrev pub or_not_found : Option ResolveError → List Endpoint → Option ResolveError
or_not_found (some e) results = some e
or_not_found none [] = some host_not_found
or_not_found none (x ∷ xs) = none

abbrev pub call_back : Option ℕ → Option ResolveError → List Endpoint → List Call → List Call
call_back none ec results calls = calls
call_back (some callback) ec results calls =
    calls ++ (record { callback = callback; error = ec; results = results } ∷ [])

abbrev pub close_all : Option ResolveError → List Query → List Query
close_all none reqs = reqs
close_all (some e) reqs = []

-- `while (addrinfo->ai_next)` and a store at the end: one list in front of the other.
abbrev pub joined : List AddrInfo → List AddrInfo → List AddrInfo
joined first second = first ++ second

-- `reqs_.back()` and `reqs_.pop_back()`
abbrev pub back : Query → List Query → Query
back q [] = q
back q (x ∷ xs) = back x xs

abbrev pub pop_back : Query → List Query → List Query
pop_back q [] = []
pop_back q (x ∷ xs) = q ∷ pop_back x xs

module _ (asio : Asio) where
  unfoldable pub on_do_request_done : Option ResolveError → Resolver → Resolver
  on_do_request_done ec r0 =
      let r : Resolver = record r0 { reqs = close_all ec r0.reqs } in
      if not (is_nil r.reqs)
      then r
      else if r.done
      then r
      else (let results = asio.create r.addrinfo r.host r.port in
          record r {
            done = true;
            timer = false;
            addrinfo = [];
            cb = none;
            calls = call_back r.cb (or_not_found ec results) results r.calls;
          })

  -- IPv4 addresses come first.
  unfoldable pub on_do_request_done_a :
      ℕ → Option ResolveError → List AddrInfo → Resolver → Option Resolver
  on_do_request_done_a id ec addrinfo r = elim r.reqs [
    | [] ↦ none
    | q ∷ qs ↦
        if q.id == id
        then some
            (on_do_request_done ec (record r { addrinfo = joined addrinfo r.addrinfo; reqs = qs }))
        else none
  ]

  unfoldable pub on_do_request_done_aaaa :
      ℕ → Option ResolveError → List AddrInfo → Resolver → Option Resolver
  on_do_request_done_aaaa id ec addrinfo r = elim r.reqs [
    | [] ↦ none
    | q ∷ qs ↦
        if (back q qs).id == id
        then some (
            on_do_request_done ec
              (record r { addrinfo = joined r.addrinfo addrinfo; reqs = pop_back q qs }))
        else none
  ]

  unfoldable pub on_query_done :
      Query → Option ResolveError → List AddrInfo → Resolver → Option Resolver
  on_query_done q ec addrinfo r = elim q.kind [
    | Kind.a ↦ on_do_request_done_a q.id ec addrinfo r
    | Kind.aaaa ↦ on_do_request_done_aaaa q.id ec addrinfo r
  ]

  -- One request: it is created, pushed and started; when it fails at once, its callback is called.
  unfoldable pub start_query : Kind → Endpoint → Option ResolveError → Resolver → Option Resolver
  start_query kind endpoint failure r =
      let q : Query = record { id = r.created; kind = kind; endpoint = endpoint } in
      let r' : Resolver = record r { reqs = r.reqs ++ (q ∷ []); created = r.created + 1 } in
      elim failure [ none ↦ some r' | some e ↦ on_query_done q (some e) [] r' ]
