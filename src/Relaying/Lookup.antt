-- ===== src/Relaying/Lookup.antt =====
-- DnsResolver::resolve_ipv4 of dns_relay/src/client.rs, in its steps between two waits: a round of its
-- loop, what comes behind the wait of a follower, and what comes behind the answer of the transport.
pub mod Agrees
use dns_relay.Prelude.{
  ℕ, ◌≡◌, Bool, Option, none, some, List, [], ◌∷◌, Outcome, ok, refuse, panic, out_of_fuel, attempt,
  ◌>>=◌,
}
use dns_relay.Prelude.Slices.{Bytes}
use dns_relay.Dns.Edns.{Ipv4Subnet}
use dns_relay.Dns.Ipv4.{Ipv4Addr}
use dns_relay.Dns.Query.{build_lookup_query}
use dns_relay.Dns.Respond.{with_txid}
use dns_relay.Cache.Lru.{Lru}
use dns_relay.Cache.Key.{CacheKey, cache_key_from_query_for_subnet}
use dns_relay.Cache.Store.{CacheEntry, cache_lookup, cache_lookup_stale, cache_store}
use dns_relay.InFlight.{Flights, Flight, leader, follower, join, publish, drop_leader}
use dns_relay.Relaying.{addresses_of}

-- What a lookup comes to at its first wait: its result, or a flight that it leads or follows.
pub data Looked : Type 0 where
  found : Outcome (List Ipv4Addr) → Looked
  leads : ℕ → Looked
  follows : ℕ → Looked

module _ (lower_wide : Bytes → Bytes) (lru : Lru CacheKey CacheEntry)
    (same : (k j : CacheKey) → Dec (k ≡ j)) where
  -- The state that lookups share.
  pub record DnsResolver : Type 0 where
    pub cache : lru.Store
    pub in_flight : Flights same

  abbrev pub on_flight : DnsResolver → Flight × Flights same → Looked × DnsResolver
  on_flight s (leader flight, flights) = (leads flight, record s { in_flight = flights })
  on_flight s (follower flight, flights) = (follows flight, record s { in_flight = flights })

  abbrev pub cached_or_flight :
      DnsResolver → CacheKey → Outcome Bytes × lru.Store → Outcome (Looked × DnsResolver)
  cached_or_flight s key (cached, store) =
      let touched = record s { cache = store } in
      attempt cached (λ reply. ok (found (addresses_of reply), touched))
        (ok (on_flight touched (join same touched.in_flight key)))

  -- One round of the loop.
  unfoldable pub look : DnsResolver → CacheKey → ℕ → Outcome (Looked × DnsResolver)
  unfolding cache_lookup join addresses_of
  look s key now = cached_or_flight s key (cache_lookup lru s.cache key now)

  -- The query has the random id `txid`.
  unfoldable pub enter_lookup :
      DnsResolver → ℕ → Bytes → Option Ipv4Subnet → ℕ → Outcome (CacheKey × Looked × DnsResolver)
  unfolding build_lookup_query cache_key_from_query_for_subnet look
  enter_lookup s txid domain effective_subnet now = do
    key ←
        cache_key_from_query_for_subnet lower_wide (build_lookup_query txid domain) effective_subnet
    looked ← look s key now
    ok (key, looked.0, looked.1)

  -- A follower whose leader ended without a reply starts another round.
  unfoldable pub follow_lookup :
      DnsResolver → CacheKey → Option Bytes → ℕ → Outcome (Looked × DnsResolver)
  unfolding look addresses_of
  follow_lookup s key (some reply) now = ok (found (addresses_of reply), s)
  follow_lookup s key none now = look s key now

  -- The reply of the transport, else the stale one.
  abbrev pub reply_or_stale :
      DnsResolver → CacheKey → Outcome Bytes → ℕ → Outcome (Outcome Bytes × DnsResolver)
  reply_or_stale s key (ok reply) now = do
    store ← cache_store lru s.cache key reply now
    ok (ok reply, record s { cache = store })
  reply_or_stale s key refuse now =
      let stale = cache_lookup_stale lru s.cache key now in
      ok (stale.0, record s { cache = stale.1 })
  reply_or_stale s key panic now = panic
  reply_or_stale s key out_of_fuel now = out_of_fuel

  -- `leader.publish`, or the end of the leader on an early return.
  abbrev pub published :
      CacheKey → ℕ → Outcome Bytes × DnsResolver → Outcome (Outcome (List Ipv4Addr) × DnsResolver)
  published key flight (ok reply, s) =
      let cleared = with_txid reply 0 0 in
      ok
        (addresses_of cleared, record s { in_flight = publish same s.in_flight flight key cleared })
  published key flight (refuse, s) =
      ok (refuse, record s { in_flight = drop_leader same s.in_flight flight key })
  published key flight (panic, s) = panic
  published key flight (out_of_fuel, s) = out_of_fuel

  unfoldable pub lead_lookup :
      DnsResolver
      → CacheKey
      → ℕ
      → Outcome Bytes
      → ℕ
      → Outcome (Outcome (List Ipv4Addr) × DnsResolver)
  unfolding cache_store cache_lookup_stale with_txid addresses_of publish drop_leader
  lead_lookup s key flight transported now = do
    result ← reply_or_stale s key transported now
    published key flight result
