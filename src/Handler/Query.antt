-- ===== src/Handler/Query.antt =====
-- The handling of a query, resolve_query of dns_relay/src/handler.rs, in its steps between two waits: up
-- to the answer or the flight that the query leads or follows, and behind the answer of the upstream or
-- of the flight. `refuse` is a query without an answer. Metrics and log lines are left out. The address
-- of an upstream that timed out and one that failed are told apart by the log alone.
pub mod Ids
pub mod Enter
pub mod Lead
use dns_relay.Prelude.{
  ℕ, ◌+◌, ◌≡◌, Bool, Option, none, some, List, [], ◌∷◌, map, ltb, if◌then◌else◌, length, Outcome,
  ok, refuse, panic, out_of_fuel, attempt, guard, not, ◌>>=◌, ◌>>◌,
}
use dns_relay.Prelude.Slices.{Bytes, at}
use dns_relay.Dns.Name.{parse_domain}
use dns_relay.Dns.Ipv4.{Ipv4Addr}
use dns_relay.Dns.Edns.{Ipv4Subnet}
use dns_relay.Dns.Records.{parse_a_records}
use dns_relay.Dns.Respond.{
  craft_nxdomain_response, craft_redirect_response, craft_servfail_response, with_txid,
}
use dns_relay.Dns.Subnet.{IpAddr, public_ipv4_subnet}
use dns_relay.Cache.Lru.{Lru}
use dns_relay.Cache.Key.{CacheKey, cache_key_from_query_for_subnet}
use dns_relay.Cache.Store.{CacheEntry, cache_lookup, cache_lookup_stale, cache_store}
use dns_relay.InFlight.{Flights, Flight, leader, follower, join, publish, drop_leader}
use dns_relay.Trie.{DomainTrie}
use dns_relay.Trie.Glob.{RuleMatch, match_drop, match_redirect, match_none, check_rules}
use dns_relay.Handler.History.{HistoryBuffer, push_many}

-- What a query comes to at its first wait.
pub data Entered : Type 0 where
  answered : Bytes → Entered
  leads : CacheKey → ℕ → Entered
  follows : ℕ → Entered

module _ (lower_wide : Bytes → Bytes) (lru : Lru CacheKey CacheEntry)
    (same : (k j : CacheKey) → Dec (k ≡ j)) (to_string : Ipv4Addr → Bytes) where
  -- The state that queries share.
  pub record Shared : Type 0 where
    pub cache : lru.Store
    pub in_flight : Flights same
    pub history_buffer : Option HistoryBuffer

  -- The subnet of the relay, or the public one of the client.
  abbrev pub effective_subnet_of : Option (IpAddr → Option Ipv4Subnet) → IpAddr → Option Ipv4Subnet
  effective_subnet_of none src_addr = public_ipv4_subnet src_addr
  effective_subnet_of (some relay_subnet) src_addr = relay_subnet src_addr

  abbrev pub on_flight : Shared → CacheKey → Flight × Flights same → Entered × Shared
  on_flight s key (leader flight, flights) = (leads key flight, record s { in_flight = flights })
  on_flight s key (follower flight, flights) = (follows flight, record s { in_flight = flights })

  -- The cache, and behind it the flights.
  abbrev pub looked_up :
      Shared → Bytes → CacheKey → Outcome Bytes × lru.Store → Outcome (Entered × Shared)
  looked_up s payload key (cached, store) = do
    hi ← at payload 0
    lo ← at payload 1
    let touched = record s { cache = store }
    attempt cached (λ packet. ok (answered (with_txid packet hi lo), touched))
        (ok (on_flight touched key (join same touched.in_flight key)))

  abbrev pub by_rule :
      Shared
      → Bytes
      → ℕ
      → Option (IpAddr → Option Ipv4Subnet)
      → IpAddr
      → ℕ
      → RuleMatch
      → Outcome (Entered × Shared)
  by_rule s payload qname_end relay src_addr now match_drop = do
    resp ← craft_nxdomain_response payload
    ok (answered resp, s)
  by_rule s payload qname_end relay src_addr now (match_redirect ips) = do
    resp ← craft_redirect_response payload qname_end ips
    ok (answered resp, s)
  by_rule s payload qname_end relay src_addr now match_none = do
    key ← cache_key_from_query_for_subnet lower_wide payload (effective_subnet_of relay src_addr)
    looked_up s payload key (cache_lookup lru s.cache key now)

  unfoldable pub enter_query :
      Shared
      → DomainTrie
      → Option (IpAddr → Option Ipv4Subnet)
      → Bytes
      → IpAddr
      → ℕ
      → Outcome (Entered × Shared)
  unfolding parse_domain check_rules craft_nxdomain_response craft_redirect_response
      cache_key_from_query_for_subnet cache_lookup at join with_txid public_ipv4_subnet
  enter_query s rule_trie relay payload src_addr now = do
    guard (not (ltb (length payload) 12))
    (domain, qname_end) ← parse_domain lower_wide payload 12
    rule ← check_rules lower_wide domain rule_trie
    by_rule s payload qname_end relay src_addr now rule

  -- The answer of the upstream, or its failure, a timeout among them.
  abbrev pub Upstream : Type 0
  Upstream = Option Bytes

  abbrev pub recorded : Option HistoryBuffer → Bytes → Bytes → Outcome (Option HistoryBuffer)
  recorded none domain reply = ok none
  recorded (some buffer) domain reply = do
    addresses ← parse_a_records reply
    grown ← push_many buffer domain (map to_string addresses)
    ok (some grown)

  -- The response for the client, if any, and the state.
  abbrev pub responded :
      Shared → Bytes → Bytes → CacheKey → Upstream → ℕ → Outcome (Outcome Bytes × Shared)
  responded s domain payload key (some reply) now = do
    store ← cache_store lru s.cache key reply now
    buffer ← recorded s.history_buffer domain reply
    ok (ok reply, record s { cache = store; history_buffer = buffer })
  responded s domain payload key none now =
      let stale = cache_lookup_stale lru s.cache key now in
      ok (
        attempt stale.0 (λ packet. ok packet) (craft_servfail_response payload),
        record s { cache = stale.1 },
      )

  -- The leader publishes the response with the transaction id 0, or ends without one.
  abbrev pub delivered :
      Bytes → CacheKey → ℕ → Outcome Bytes × Shared → Outcome (Outcome Bytes × Shared)
  delivered payload key flight (ok response, s) = do
    hi ← at payload 0
    lo ← at payload 1
    let normalized = with_txid response 0 0
    ok (
      ok (with_txid normalized hi lo),
      record s { in_flight = publish same s.in_flight flight key normalized },
    )
  delivered payload key flight (refuse, s) =
      ok (refuse, record s { in_flight = drop_leader same s.in_flight flight key })
  delivered payload key flight (panic, s) = panic
  delivered payload key flight (out_of_fuel, s) = out_of_fuel

  unfoldable pub lead_query :
      Shared → Bytes → Bytes → CacheKey → ℕ → Upstream → ℕ → Outcome (Outcome Bytes × Shared)
  unfolding cache_store cache_lookup_stale push_many parse_a_records craft_servfail_response at
      with_txid publish drop_leader
  lead_query s domain payload key flight upstream now = do
    result ← responded s domain payload key upstream now
    delivered payload key flight result

  -- A follower's answer, from what its flight came to.
  abbrev pub stamped : Bytes → Option Bytes → Outcome Bytes
  stamped payload none = refuse
  stamped payload (some packet) = do
    hi ← at payload 0
    lo ← at payload 1
    ok (with_txid packet hi lo)

  unfoldable pub follow_query : Bytes → Option Bytes → Outcome Bytes
  unfolding with_txid at
  follow_query payload waited = stamped payload waited
