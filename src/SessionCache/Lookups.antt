-- ===== src/SessionCache/Lookups.antt =====
-- What `Lookup` of src/net/ssl_client_session_cache.cpp returns.
use yass.Common.{
  ℕ, ◌+◌, ◌%◌, ◌^◌, ◌≤◌, ◌<◌, ◌≡◌, refl, sym, ap, ◌∙◌, arith, inl, inr, false, Option, none, some,
  if◌then◌else◌, Bool-cases, leb,
}
use yass.SessionCache.{
  Session, Now, at, Entry, push, pop, is_expired, LruCache, SessionCache, count_lookup, look_into,
  lookup, insert, insert_into, empty_entry, flush_expired_sessions,
}

module _ (lru : LruCache) (k : lru.Key) where
  expired_or_not :
      (now : Now) (a : Option Session) {s : Session}
      → (if is_expired a now then none else a) ≡ some s
      → is_expired (some s) now ≡ false
  expired_or_not now a {s} h = elim (Bool-cases (is_expired a now)) [
    | inl x ↦ absurd (cc (rw x at h))
    | inr x ↦ let e = rw x at h in ap (λ a. is_expired a now) (sym e) ∙ x
  ]

  look_into-unexpired :
      (now : Now) (t : SessionCache lru) (o : Option Entry) {s : Session}
      → (look_into lru k now t o).0 ≡ some s
      → is_expired (some s) now ≡ false
  unfolding look_into
  look_into-unexpired now t none h = absurd (cc h)
  look_into-unexpired now t (some e) h = expired_or_not now (pop e).0 h

  -- A session that a lookup returns is one of its time: `now` is not more than a second before the
  -- session's time, and before its end, where the sum of time and timeout does not overflow.
  pub lookup-valid :
      (now : ℕ) (t : SessionCache lru) {s : Session}
      → 0 < s.time
      → s.time + s.timeout < 2 ^ 64
      → (lookup lru k (at now) t).0 ≡ some s
      → (s.time ≤ now + 1) × (now < s.time + s.timeout)
  unfolding lookup is_expired
  lookup-valid now t {s} some_time fits h =
      let live : is_expired (some s) (at now) ≡ false = look_into-unexpired (at now) _ _ h in
      (ground (arith, live), ground (arith, live))

  inserted :
      (s : Session) (t : SessionCache lru) (o : Option Entry)
      → (e : Entry) × (lru.find k (insert_into lru k s t o).cache ≡ some (push s e))
  unfolding insert_into
  inserted s t none = (empty_entry, lru.find-set k (push s empty_entry) _)
  inserted s t (some e) = (e, lru.find-set k (push s e) t.cache)

  kept :
      (s : Session) (t : SessionCache lru) (o : Option Entry)
      → ((insert_into lru k s t o).lookups_since_flush ≡ t.lookups_since_flush)
        × ((insert_into lru k s t o).config ≡ t.config)
  unfolding insert_into
  kept s t none = (refl, refl)
  kept s t (some e) = (refl, refl)

  count_lookup-early :
      (now : Now) (t : SessionCache lru)
      → t.lookups_since_flush + 1 < 2 ^ 64
      → t.lookups_since_flush + 1 < t.config.expiration_check_count
      → (count_lookup lru now t).cache ≡ t.cache
  unfolding count_lookup
  count_lookup-early now t small early =
      let n = (t.lookups_since_flush + 1) % 2 ^ 64 in
      let not_yet : leb t.config.expiration_check_count n ≡ false = ground arith in
      ap
        (λ x.
          (if x
            then flush_expired_sessions lru now (record t { lookups_since_flush = 0 })
            else record t { lookups_since_flush = n }).cache)
        not_yet

  finds :
      (s : Session) (e : Entry) (now : Now) (t : SessionCache lru)
      → is_expired (some s) now ≡ false
      → (look_into lru k now t (some (push s e))).0 ≡ some s
  unfolding look_into pop push
  finds s e now t live = rw live refl

  -- What is inserted for a key is what the next lookup of it returns, unless it is expired by then or
  -- the lookup is one that goes through the whole cache first; the count of lookups must not overflow.
  pub lookup-insert :
      (s : Session) (now : Now) (t : SessionCache lru)
      → is_expired (some s) now ≡ false
      → t.lookups_since_flush + 1 < 2 ^ 64
      → t.lookups_since_flush + 1 < t.config.expiration_check_count
      → (lookup lru k now (insert lru k s t)).0 ≡ some s
  unfolding lookup insert
  lookup-insert s now t live small early =
      let t1 : SessionCache lru = record t { cache = lru.get k t.cache } in
      let o = lru.find k t.cache in
      let (e, found) = inserted s t1 o in
      let (same, config) = kept s t1 o in
      let t2 = insert_into lru k s t1 o in
      let counted = count_lookup lru now t2 in
      let t3 : SessionCache lru = record counted { cache = lru.get k counted.cache } in
      let cached =
        count_lookup-early now t2 (omega (arith, same))
          (omega (arith, same, ap (λ c. c.expiration_check_count) config)) in
      ap (λ o. (look_into lru k now t3 o).0) (ap (lru.find k) cached ∙ found)
      ∙ finds s e now t3 live
