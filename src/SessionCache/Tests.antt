-- ===== src/SessionCache/Tests.antt =====
-- A concrete cache for src/net/ssl_client_session_cache.cpp, without a limit on its keys.
use yass.Common.{
  ℕ, ◌+◌, ◌≤◌, ◌≡◌, refl, arith, Bool, true, false, Option, none, some, [], ◌∷◌, ◌==◌, ==_iff,
  if◌then◌else◌,
}
use yass.SessionCache.{
  Session, at, Entry, empty_entry, LruCache, SessionCache, lookup, insert, is_expired,
}
use yass.SessionCache.Entries.{pushed, popped, returned, given, single_use_once}
use yass.SessionCache.Lookups.{lookup-insert}

abbrev assign : ℕ → Option Entry → (ℕ → Option Entry) → ℕ → Option Entry
assign k o c = λ j. if j == k then o else c j

abbrev keep : Bool × Entry → Option Entry
keep (true, e) = none
keep (false, e) = some e

abbrev retained : (Entry → Bool × Entry) → Option Entry → Option Entry
retained f none = none
retained f (some e) = keep (f e)

assign-same : (k : ℕ) (o : Option Entry) (c : ℕ → Option Entry) → assign k o c k ≡ o
assign-same k o c = let same : (k == k) ≡ true = (==_iff k k).1 refl in rw same refl

abbrev unlimited : LruCache
unlimited = record {
  Key = ℕ;
  Cache = ℕ → Option Entry;
  find = λ k c. c k;
  get = λ k c. c;
  put = λ k e c. assign k (some e) c;
  set = λ k e c. assign k (some e) c;
  erase = λ k c. assign k none c;
  retain = λ f c j. retained f (c j);
  empty = λ j. none;
  find-get = λ k c. refl;
  find-put = λ k e c. assign-same k (some e) c;
  find-set = λ k e c. assign-same k (some e) c;
}

abbrev fresh : SessionCache unlimited
fresh = record {
  config = record { expiration_check_count = 256 };
  cache = λ j. none;
  lookups_since_flush = 0;
}

abbrev ticket : Session
ticket = record { time = 100; timeout = 50; single_use = true; early_data = true; ticket = 1 }

abbrev stored : SessionCache unlimited
stored = insert unlimited 7 ticket fresh

ticket_live : is_expired (some ticket) (at 120) ≡ false
unfolding is_expired
ticket_live = refl

lookup-insert_example : (lookup unlimited 7 (at 120) stored).0 ≡ some ticket
lookup-insert_example =
    lookup-insert unlimited 7 ticket (at 120) fresh ticket_live (omega arith) (omega arith)

single_use_once_example :
    returned (λ s. s.single_use) (pushed ticket ∷ popped ∷ popped ∷ []) empty_entry
    ≤ given (λ s. s.single_use) (pushed ticket ∷ popped ∷ popped ∷ []) + 0
single_use_once_example =
    single_use_once (λ s. s.single_use) (pushed ticket ∷ popped ∷ popped ∷ []) empty_entry
      (λ s h. h)
