-- ===== src/Relaying/Lookup/Agrees.antt =====
-- The leader of a lookup and the followers of its flight.
use dns_relay.Prelude.{
  ℕ, ◌<◌, ◌≡◌, refl, ap, sym, ◌∙◌, subst, ◌⊎◌, inl, inr, none, some, List, Outcome, ok, refuse,
  panic, out_of_fuel, Returns, Returns-bind, Settles,
}
use dns_relay.Prelude.Slices.{Bytes}
use dns_relay.Dns.Ipv4.{Ipv4Addr}
use dns_relay.Dns.Respond.{with_txid}
use dns_relay.Cache.Lru.{Lru}
use dns_relay.Cache.Key.{CacheKey}
use dns_relay.Cache.Store.{CacheEntry, cache_store, cache_lookup_stale, stale_answer}
use dns_relay.Relaying.{addresses_of}
use dns_relay.InFlight.{wait}
use dns_relay.Cache.Store.Total.{cache_store-Returns, stale_answer-Settles}
use dns_relay.InFlight.Ends.{wait_published, wait_dropped}
use dns_relay.Relaying.Lookup.{
  DnsResolver, found, reply_or_stale, published, lead_lookup, follow_lookup, look,
}

module _ (lower_wide : Bytes → Bytes) (lru : Lru CacheKey CacheEntry)
    (same : (k j : CacheKey) → Dec (k ≡ j)) where
  abbrev State : Type 0
  State = DnsResolver lower_wide lru same

  -- The reply that a lookup has: the transport's, else the stale one of the cache.
  abbrev pub Source : State → CacheKey → Outcome Bytes → ℕ → Bytes → Type 0
  Source s key transported now reply =
      (transported ≡ ok reply)
      ⊎ ((transported ≡ refuse) × ((cache_lookup_stale lru s.cache key now).0 ≡ ok reply))

  -- With a reply the leader has its addresses, and a follower that has joined gets the same result.
  pub record Answers (s : State) (key : CacheKey) (flight : ℕ) (transported : Outcome Bytes)
      (now : ℕ) (reply : Bytes) (result : Outcome (List Ipv4Addr)) (s' : State) : Type 0 where
    pub source : Source s key transported now reply
    pub addresses : result ≡ addresses_of (with_txid reply 0 0)
    pub stored : transported ≡ ok reply → cache_store lru s.cache key reply now ≡ ok s'.cache
    pub flown :
        0 < s.in_flight.receivers flight
        → (wait same s'.in_flight flight ≡ some (some (with_txid reply 0 0)))
          × (follow_lookup lower_wide lru same s' key (some (with_txid reply 0 0)) now
              ≡ ok (found result, s'))

  -- Without one the leader fails, and a follower looks again.
  pub record Fails (s : State) (key : CacheKey) (flight : ℕ) (transported : Outcome Bytes) (now : ℕ)
      (result : Outcome (List Ipv4Addr)) (s' : State) : Type 0 where
    pub unanswered : transported ≡ refuse
    pub not_stale : (cache_lookup_stale lru s.cache key now).0 ≡ refuse
    pub failed : result ≡ refuse
    pub ended : wait same s'.in_flight flight ≡ some none
    pub again :
        follow_lookup lower_wide lru same s' key none now ≡ look lower_wide lru same s' key now

  abbrev pub Agrees :
      State → CacheKey → ℕ → Outcome Bytes → ℕ → Outcome (List Ipv4Addr) × State → Type 0
  Agrees s key flight transported now (result, s') =
      ((reply : Bytes) × Answers s key flight transported now reply result s')
      ⊎ Fails s key flight transported now result s'

  -- The reply or its absence, over the flights of before.
  abbrev Replied : State → CacheKey → Outcome Bytes → ℕ → Outcome Bytes × State → Type 0
  Replied s key transported now (ok reply, s') =
      Source s key transported now reply
      × (transported ≡ ok reply → cache_store lru s.cache key reply now ≡ ok s'.cache)
      × (s'.in_flight ≡ s.in_flight)
  Replied s key transported now (refuse, s') =
      (transported ≡ refuse)
      × ((cache_lookup_stale lru s.cache key now).0 ≡ refuse)
      × (s'.in_flight ≡ s.in_flight)
  Replied s key transported now (panic, s') = ⊥
  Replied s key transported now (out_of_fuel, s') = ⊥

  stale-Replied :
      (s : State) (key : CacheKey) (now : ℕ) (stale : Outcome Bytes) (store : lru.Store)
      → cache_lookup_stale lru s.cache key now ≡ (stale, store)
      → Settles stale
      → Replied s key refuse now (stale, record s { cache = store })
  stale-Replied s key now (ok reply) store e h =
      (inr (refl, ap (λ out. out.0) e), (λ refuted. cc), refl)
  stale-Replied s key now refuse store e h = (refl, ap (λ out. out.0) e, refl)
  stale-Replied s key now panic store e h = h
  stale-Replied s key now out_of_fuel store e h = h

  reply_or_stale-Replied :
      (s : State) (key : CacheKey) (transported : Outcome Bytes) (now : ℕ)
      → Settles transported
      → Returns
          (Replied s key transported now)
          (reply_or_stale lower_wide lru same s key transported now)
  unfolding cache_lookup_stale
  reply_or_stale-Replied s key (ok reply) now h =
      Returns-bind (λ _. Unit {0}) _ (cache_store lru s.cache key reply now) _
        (cache_store-Returns lru s.cache key reply now)
        (λ store stored _. (inl refl, (λ _. stored), refl))
  reply_or_stale-Replied s key refuse now h =
      let stale = stale_answer lru s.cache key (lru.peek s.cache key) now in
      stale-Replied s key now stale.0 stale.1 refl
        (stale_answer-Settles lru s.cache key (lru.peek s.cache key) now)
  reply_or_stale-Replied s key panic now h = h
  reply_or_stale-Replied s key out_of_fuel now h = h

  published-Agrees :
      (s : State) (key : CacheKey) (flight : ℕ) (transported : Outcome Bytes) (now : ℕ)
      (out : Outcome Bytes × State)
      → s.in_flight.packets flight ≡ none
      → Replied s key transported now out
      → Returns (Agrees s key flight transported now) (published lower_wide lru same key flight out)
  unfolding follow_lookup
  published-Agrees s key flight transported now (ok reply, s') quiet
        (source, stored, same_flights) =
      inl (
        reply,
        record {
          source = source;
          addresses = refl;
          stored = stored;
          flown = λ followed. (
            wait_published same s'.in_flight flight key (with_txid reply 0 0)
                (subst (λ flights. 0 < flights.receivers flight) (sym same_flights) followed),
            refl,
          );
        },
      )
  published-Agrees s key flight transported now (refuse, s') quiet
        (unanswered, not_stale, same_flights) =
      inr (record {
        unanswered = unanswered;
        not_stale = not_stale;
        failed = refl;
        ended =
            wait_dropped same s'.in_flight flight key
              (ap (λ flights. flights.packets flight) same_flights ∙ quiet);
        again = refl;
      })
  published-Agrees s key flight transported now (panic, s') quiet h = absurd h
  published-Agrees s key flight transported now (out_of_fuel, s') quiet h = absurd h

  -- The leader of a lookup returns the addresses of the transport's reply, which it stores in the cache, or
  -- else of the stale answer, and a follower that has joined gets the same result from its flight;
  -- if there is neither, the leader fails, and a follower looks again on its own. The flight has sent
  -- nothing before, and the transport gives a reply or an error.
  pub lead_lookup-Agrees :
      (s : State) (key : CacheKey) (flight : ℕ) (transported : Outcome Bytes) (now : ℕ)
      → s.in_flight.packets flight ≡ none
      → Settles transported
      → Returns
          (Agrees s key flight transported now)
          (lead_lookup lower_wide lru same s key flight transported now)
  unfolding lead_lookup
  lead_lookup-Agrees s key flight transported now quiet h =
      Returns-bind (Replied s key transported now) (Agrees s key flight transported now)
        (reply_or_stale lower_wide lru same s key transported now) _
        (reply_or_stale-Replied s key transported now h)
        (λ out _ replied. published-Agrees s key flight transported now out quiet replied)
