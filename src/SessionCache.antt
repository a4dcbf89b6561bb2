-- ===== src/SessionCache.antt =====
-- The cache of TLS sessions: src/net/ssl_client_session_cache.cpp, in a build without TBB. A session is
-- BoringSSL's, of which the cache asks the time, the timeout and whether it should be used once; a null
-- session has time and timeout 0. The map from keys to entries is a library's, as a parameter with the
-- laws that the cache relies on.
pub mod Entries
pub mod Lookups
mod Tests
use yass.Common.{
  ℕ, ◌+◌, ◌-◌, ◌*◌, ◌%◌, ◌^◌, ◌≡◌, Bool, true, false, ◌||◌, ◌&&◌, not, Option, none, some, List, [],
  ◌∷◌, ltb, leb, if◌then◌else◌,
}

pub record Session : Type 0 where
  pub time : ℕ
  pub timeout : ℕ
  pub single_use : Bool
  pub early_data : Bool
  pub ticket : ℕ

-- A `time_t`: a time before the epoch is below 0.
pub data Now : Type 0 where
  before_epoch : Now
  at : ℕ → Now

abbrev pub time_of : Option Session → ℕ
time_of none = 0
time_of (some s) = s.time

abbrev pub timeout_of : Option Session → ℕ
timeout_of none = 0
timeout_of (some s) = s.timeout

-- The times are of 64 bits and wrap.
unfoldable pub is_expired : Option Session → Now → Bool
is_expired s before_epoch = true
is_expired s (at now) =
    ltb now ((time_of s + 2 ^ 64 - 1) % 2 ^ 64) || leb ((time_of s + timeout_of s) % 2 ^ 64) now

-- `sessions[0]` and `sessions[1]`
pub record Entry : Type 0 where
  pub first : Option Session
  pub second : Option Session

abbrev pub empty_entry : Entry
empty_entry = record { first = none; second = none }

abbrev pub is_single_use : Option Session → Bool
is_single_use none = false
is_single_use (some s) = s.single_use

-- `SSL_SESSION_copy_without_early_data`, of a session that is there
abbrev pub without_early_data : Option Session → Option Session
without_early_data none = none
without_early_data (some s) = some (record s { early_data = false })

unfoldable pub push : Session → Entry → Entry
push s e = record e { first = some s; second = if is_single_use e.first then e.first else e.second }

unfoldable pub pop : Entry → Option Session × Entry
pop e = (e.first, if is_single_use e.first then record { first = e.second; second = none } else e)

abbrev pub is_null : Option Session → Bool
is_null none = true
is_null (some s) = false

unfoldable pub expire_sessions : Now → Entry → Bool × Entry
expire_sessions now e = if is_null e.first || is_expired e.first now then (true, e) else (
  false,
  if not (is_null e.second) && is_expired e.second now then record e { second = none } else e,
)

-- `base::LRUCache`: `find` is what a key has; `get` moves it to the front; `set` is an assignment
-- through an iterator; `put` may drop other keys; `retain` goes through all and erases some.
pub record LruCache : Type 1 where
  pub Key : Type 0
  pub Cache : Type 0
  pub find : Key → Cache → Option Entry
  pub get : Key → Cache → Cache
  pub put : Key → Entry → Cache → Cache
  pub set : Key → Entry → Cache → Cache
  pub erase : Key → Cache → Cache
  pub retain : (Entry → Bool × Entry) → Cache → Cache
  pub empty : Cache
  pub find-get : (k : Key) (c : Cache) → find k (get k c) ≡ find k c
  pub find-put : (k : Key) (e : Entry) (c : Cache) → find k (put k e c) ≡ some e
  pub find-set : (k : Key) (e : Entry) (c : Cache) → find k (set k e c) ≡ some e

pub record Config : Type 0 where
  pub expiration_check_count : ℕ

module _ (lru : LruCache) where
  pub record SessionCache : Type 0 where
    pub config : Config
    pub cache : lru.Cache
    pub lookups_since_flush : ℕ

  unfoldable pub flush_expired_sessions : Now → SessionCache → SessionCache
  flush_expired_sessions now t = record t { cache = lru.retain (expire_sessions now) t.cache }

  unfoldable pub flush : SessionCache → SessionCache
  flush t = record t { cache = lru.empty }

  -- The head of `Lookup`: every so many lookups, stale sessions go.
  unfoldable pub count_lookup : Now → SessionCache → SessionCache
  count_lookup now t =
      let n = (t.lookups_since_flush + 1) % 2 ^ 64 in
      if leb t.config.expiration_check_count n
      then flush_expired_sessions now (record t { lookups_since_flush = 0 })
      else record t { lookups_since_flush = n }

  unfoldable pub look_into :
      lru.Key → Now → SessionCache → Option Entry → Option Session × SessionCache
  look_into k now t none = (none, t)
  look_into k now t (some e) =
      let (session, e') = pop e in
      let (expired, e'') = expire_sessions now e' in
      (
        if is_expired session now then none else session,
        record t { cache = if expired then lru.erase k t.cache else lru.set k e'' t.cache },
      )

  unfoldable pub lookup : lru.Key → Now → SessionCache → Option Session × SessionCache
  lookup k now t =
      let t' = count_lookup now t in
      look_into k now (record t' { cache = lru.get k t'.cache }) (lru.find k t'.cache)

  unfoldable pub insert_into : lru.Key → Session → SessionCache → Option Entry → SessionCache
  insert_into k s t none = record t {
    cache = lru.set k (push s empty_entry) (lru.put k empty_entry t.cache);
  }
  insert_into k s t (some e) = record t { cache = lru.set k (push s e) t.cache }

  unfoldable pub insert : lru.Key → Session → SessionCache → SessionCache
  insert k s t = insert_into k s (record t { cache = lru.get k t.cache }) (lru.find k t.cache)

  unfoldable pub clear_into : lru.Key → SessionCache → Option Entry → SessionCache
  clear_into k t none = t
  clear_into k t (some e) = record t {
    cache =
        lru.set k
          (record { first = without_early_data e.first; second = without_early_data e.second })
          t.cache;
  }

  unfoldable pub clear_early_data : lru.Key → SessionCache → SessionCache
  clear_early_data k t = clear_into k (record t { cache = lru.get k t.cache }) (lru.find k t.cache)
