-- ===== src/Handler/Query/Lead.antt =====
-- The query that leads a flight, behind the answer of the upstream.
use dns_relay.Prelude.{
  ap, sym, ◌∙◌, ◌⊎◌, ℕ, ◌≤◌, ◌<◌, ◌≡◌, refl, Option, none, some, map, length, get_or, Outcome, ok,
  refuse, panic, out_of_fuel, attempt, Returns, Returns-bind, Settles, arith, inl, inr,
}
use dns_relay.Prelude.Slices.{Bytes, at_lem}
use dns_relay.Dns.Ipv4.{Ipv4Addr}
use dns_relay.Dns.Records.{parse_a_records}
use dns_relay.Dns.Records.Total.{parse_a_records-Returns}
use dns_relay.Dns.Respond.{craft_servfail_response, with_txid}
use dns_relay.Cache.Lru.{Lru}
use dns_relay.Cache.Key.{CacheKey}
use dns_relay.Cache.Store.{CacheEntry, cache_store, cache_lookup_stale, stale_answer}
use dns_relay.InFlight.{publish, wait}
use dns_relay.Handler.History.{HistoryBuffer, push_many}
use dns_relay.Handler.History.Total.{push_many-Returns}
use dns_relay.Handler.Query.{Shared, recorded, responded, delivered, lead_query}
use dns_relay.Handler.Query.Ids.{with_txid-with_txid}
use dns_relay.Cache.Store.Total.{cache_store-Returns, stale_answer-Settles}
use dns_relay.InFlight.Ends.{wait_published}

module _ (lower_wide : Bytes → Bytes) (lru : Lru CacheKey CacheEntry)
    (same : (k j : CacheKey) → Dec (k ≡ j)) (to_string : Ipv4Addr → Bytes) where
  recorded-Returns :
      (buffer : Option HistoryBuffer) (domain reply : Bytes)
      → Returns (λ _. Unit {0}) (recorded lower_wide lru same to_string buffer domain reply)
  recorded-Returns none domain reply = tt
  recorded-Returns (some b) domain reply =
      Returns-bind (λ _. Unit {0}) _ (parse_a_records reply) _ (parse_a_records-Returns reply)
        (λ addresses _ _.
          Returns-bind (λ _. Unit {0}) _ (push_many b domain (map to_string addresses)) _
            (push_many-Returns b domain (map to_string addresses)) (λ grown _ _. tt))

  abbrev State : Type 0
  State = Shared lower_wide lru same to_string

  -- Where the response comes from: the upstream, else the stale cache, else SERVFAIL.
  abbrev pub Source : State → Bytes → CacheKey → Option Bytes → ℕ → Bytes → Type 0
  Source s payload key upstream now response =
      (upstream ≡ some response)
      ⊎ ((upstream ≡ none)
          × (((cache_lookup_stale lru s.cache key now).0 ≡ ok response)
              ⊎ (((cache_lookup_stale lru s.cache key now).0 ≡ refuse)
                  × (craft_servfail_response payload ≡ ok response))))

  -- The response is there, the flights are as before, and a reply of the upstream goes to the cache.
  abbrev Answered : State → Bytes → CacheKey → Option Bytes → ℕ → Outcome Bytes × State → Type 0
  Answered s payload key upstream now (result, s') =
      Returns (Source s payload key upstream now) result
      × (s'.in_flight ≡ s.in_flight)
      × ((reply : Bytes)
          → upstream ≡ some reply
          → cache_store lru s.cache key reply now ≡ ok s'.cache)

  servfail :
      (payload : Bytes)
      → 12 ≤ length payload
      → Returns (λ _. Unit {0}) (craft_servfail_response payload)
  unfolding craft_servfail_response
  servfail payload long = ground (arith, long)

  stale_or_servfail :
      (s : State) (payload : Bytes) (key : CacheKey) (now : ℕ) (stale : Outcome Bytes)
      → 12 ≤ length payload
      → (cache_lookup_stale lru s.cache key now).0 ≡ stale
      → Settles stale
      → Returns
          (Source s payload key none now)
          (attempt stale (λ packet. ok packet) (craft_servfail_response payload))
  stale_or_servfail s payload key now (ok packet) long e h = inr (refl, inl e)
  stale_or_servfail s payload key now refuse long e h =
      on (craft_servfail_response payload) refl (servfail payload long)
    where
      on :
          (m : Outcome Bytes)
          → craft_servfail_response payload ≡ m
          → Returns (λ _. Unit {0}) m
          → Returns (Source s payload key none now) m
      on (ok response) crafted _ = inr (refl, inr (e, crafted))
      on refuse crafted h = h
      on panic crafted h = h
      on out_of_fuel crafted h = h
  stale_or_servfail s payload key now panic long e h = h
  stale_or_servfail s payload key now out_of_fuel long e h = h

  same_reply : {x y : Bytes} → some x ≡ some y → x ≡ y
  same_reply e = cc

  responded-Answered :
      (s : State) (domain payload : Bytes) (key : CacheKey) (upstream : Option Bytes) (now : ℕ)
      → 12 ≤ length payload
      → Returns
          (Answered s payload key upstream now)
          (responded lower_wide lru same to_string s domain payload key upstream now)
  unfolding cache_lookup_stale
  responded-Answered s domain payload key (some reply) now long =
      Returns-bind (λ _. Unit {0}) _ (cache_store lru s.cache key reply now) _
        (cache_store-Returns lru s.cache key reply now)
        (λ store stored _.
          Returns-bind (λ _. Unit {0}) _
            (recorded lower_wide lru same to_string s.history_buffer domain reply) _
            (recorded-Returns s.history_buffer domain reply)
            (λ buffer _ _. (
              inl refl,
              refl,
              λ other e. ap (λ r. cache_store lru s.cache key r now) (sym (same_reply e)) ∙ stored,
            )))
  responded-Answered s domain payload key none now long = (
    stale_or_servfail s payload key now (stale_answer lru s.cache key (lru.peek s.cache key) now).0
        long refl (stale_answer-Settles lru s.cache key (lru.peek s.cache key) now),
    refl,
    λ reply e. (let refuted = e in cc),
  )

  -- The client gets the response with the id of its query, and the flight publishes it with the id 0: a
  -- follower that has joined gets that.
  pub record Shares (s : State) (payload : Bytes) (key : CacheKey) (flight : ℕ)
      (upstream : Option Bytes) (now : ℕ) (out : Outcome Bytes × State) : Type 0 where
    pub response : Bytes
    pub source : Source s payload key upstream now response
    pub answer : out.0 ≡ ok (with_txid response (get_or payload 0 0) (get_or payload 1 0))
    pub published : out.1.in_flight ≡ publish same s.in_flight flight key (with_txid response 0 0)
    pub flown :
        0 < s.in_flight.receivers flight
        → wait same out.1.in_flight flight ≡ some (some (with_txid response 0 0))
    pub stored :
        (reply : Bytes)
        → upstream ≡ some reply
        → cache_store lru s.cache key reply now ≡ ok out.1.cache

  delivered-Shares :
      (s : State) (payload : Bytes) (key : CacheKey) (flight : ℕ) (upstream : Option Bytes)
      (now : ℕ) (out : Outcome Bytes × State)
      → 12 ≤ length payload
      → Answered s payload key upstream now out
      → Returns
          (Shares s payload key flight upstream now)
          (delivered lower_wide lru same to_string payload key flight out)
  delivered-Shares s payload key flight upstream now (ok response, s') long
        (source, quiet, stored) =
      let published =
        ap (λ flights. publish same flights flight key (with_txid response 0 0)) quiet in
      rw (at_lem payload 0 (omega arith), at_lem payload 1 (omega arith))
        (record {
          response = response;
          source = source;
          answer =
              ap ok (with_txid-with_txid response 0 0 (get_or payload 0 0) (get_or payload 1 0));
          published = published;
          flown = λ followed.
              ap (λ flights. wait same flights flight) published
              ∙ wait_published same s.in_flight flight key (with_txid response 0 0) followed;
          stored = stored;
        })
  delivered-Shares s payload key flight upstream now (refuse, s') long h = absurd h.0
  delivered-Shares s payload key flight upstream now (panic, s') long h = absurd h.0
  delivered-Shares s payload key flight upstream now (out_of_fuel, s') long h = absurd h.0

  -- The leader of a flight always answers its client, whatever the upstream gave, with the id of the
  -- client's query: the upstream's reply, which it stores in the cache; without one the stale answer of the
  -- cache; without either SERVFAIL. What it publishes is that response with the id 0, which a follower
  -- that has joined gets. The query has a header.
  pub lead_query-Shares :
      (s : State) (domain payload : Bytes) (key : CacheKey) (flight : ℕ) (upstream : Option Bytes)
      (now : ℕ)
      → 12 ≤ length payload
      → Returns
          (Shares s payload key flight upstream now)
          (lead_query lower_wide lru same to_string s domain payload key flight upstream now)
  unfolding lead_query
  lead_query-Shares s domain payload key flight upstream now long =
      Returns-bind (Answered s payload key upstream now) (Shares s payload key flight upstream now)
        (responded lower_wide lru same to_string s domain payload key upstream now) _
        (responded-Answered s domain payload key upstream now long)
        (λ out _ h. delivered-Shares s payload key flight upstream now out long h)
