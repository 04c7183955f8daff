-- ===== src/Handler/Query/Enter.antt =====
-- A query up to its first wait.
use dns_relay.Prelude.{
  ℕ, ◌≡◌, Option, [], ◌∷◌, ltb, length, get_or, Outcome, ok, refuse, panic, out_of_fuel, attempt,
  Ensures, Ensures-bind, Ensures-Returns, Settles, arith, Bool-cases, inl, inr,
}
use dns_relay.Prelude.Slices.{Bytes, at_lem}
use dns_relay.Dns.Name.{parse_domain}
use dns_relay.Dns.Name.Total.{parse_domain-NameWithin, NameWithin}
use dns_relay.Dns.Ipv4.{Ipv4Addr}
use dns_relay.Dns.Edns.{Ipv4Subnet}
use dns_relay.Dns.Respond.{craft_nxdomain_response, craft_redirect_response, with_txid}
use dns_relay.Dns.Subnet.{IpAddr}
use dns_relay.Cache.Lru.{Lru}
use dns_relay.Cache.Key.{CacheKey, cache_key_from_query_for_subnet}
use dns_relay.Cache.Key.Total.{cache_key_from_query_for_subnet-Settles}
use dns_relay.Cache.Store.{CacheEntry, fresh_answer, cache_lookup}
use dns_relay.InFlight.{Flights, Flight, leader, follower, join}
use dns_relay.Cache.Store.Total.{fresh_answer-Settles}
use dns_relay.Trie.{DomainTrie}
use dns_relay.Trie.Glob.{RuleMatch, match_drop, match_redirect, match_none, lookup, check_rules}
use dns_relay.Trie.Glob.Total.{lookup-Returns}
use dns_relay.Handler.Query.{
  Entered, answered, leads, follows, Shared, effective_subnet_of, on_flight, looked_up, by_rule,
  enter_query,
}
use dns_relay.Handler.Query.Ids.{
  IsStamped, with_txid-IsStamped, craft_nxdomain_response-IsStamped,
  craft_redirect_response-IsStamped,
}

-- An answer has the transaction id of the query.
abbrev pub Stamped : Bytes → Entered → Type 0
Stamped payload (answered packet) = IsStamped (get_or payload 0 0) (get_or payload 1 0) packet
Stamped payload (leads key flight) = Unit
Stamped payload (follows flight) = Unit

module _ (lower_wide : Bytes → Bytes) (lru : Lru CacheKey CacheEntry)
    (same : (k j : CacheKey) → Dec (k ≡ j)) (to_string : Ipv4Addr → Bytes) where
  check_rules-Settles :
      (domain : Bytes) (trie : DomainTrie) → Settles (check_rules lower_wide domain trie)
  unfolding check_rules
  check_rules-Settles domain trie =
      Ensures-bind (λ _. Unit {0}) _ (lookup lower_wide domain trie) _
        (Ensures-Returns (λ _. Unit {0}) (lookup lower_wide domain trie)
          (lookup-Returns lower_wide domain trie))
        (λ policy _ _. tt)

  abbrev pub State : Type 0
  State = Shared lower_wide lru same to_string

  abbrev pub Good : Bytes → Entered × State → Type 0
  Good payload out = Stamped payload out.0

  looked_up-Stamped :
      (a b : ℕ) (rest : Bytes) (s : State) (key : CacheKey) (cached : Outcome Bytes)
      (store : lru.Store)
      → Settles cached
      → Ensures
          (Good (a ∷ b ∷ rest))
          (looked_up lower_wide lru same to_string s (a ∷ b ∷ rest) key (cached, store))
  looked_up-Stamped a b rest s key cached store settled =
      rw (at_lem (a ∷ b ∷ rest) 0 (omega arith), at_lem (a ∷ b ∷ rest) 1 (omega arith))
        (on cached settled)
    where
      touched : State
      touched = record s { cache = store }

      flown :
          (out : Flight × Flights same)
          → Good (a ∷ b ∷ rest) (on_flight lower_wide lru same to_string touched key out)
      flown (leader flight, flights) = tt
      flown (follower flight, flights) = tt

      on :
          (o : Outcome Bytes)
          → Settles o
          → Ensures (Good (a ∷ b ∷ rest)) (
              attempt o
                (λ packet. ok (answered (with_txid packet a b), touched))
                (ok (
                  on_flight lower_wide lru same to_string touched key
                    (join same touched.in_flight key))))
      on (ok packet) h = with_txid-IsStamped packet a b
      on refuse h = flown (join same touched.in_flight key)
      on panic h = h
      on out_of_fuel h = h

  by_rule-Stamped :
      (a b : ℕ) (rest : Bytes) (s : State) (q : ℕ) (relay : Option (IpAddr → Option Ipv4Subnet))
      (src : IpAddr) (now : ℕ) (rule : RuleMatch)
      → Ensures
          (Good (a ∷ b ∷ rest))
          (by_rule lower_wide lru same to_string s (a ∷ b ∷ rest) q relay src now rule)
  unfolding cache_lookup
  by_rule-Stamped a b rest s q relay src now match_drop =
      Ensures-bind (IsStamped a b) _ (craft_nxdomain_response (a ∷ b ∷ rest)) _
        (craft_nxdomain_response-IsStamped a b rest) (λ resp _ h. h)
  by_rule-Stamped a b rest s q relay src now (match_redirect ips) =
      Ensures-bind (IsStamped a b) _ (craft_redirect_response (a ∷ b ∷ rest) q ips) _
        (craft_redirect_response-IsStamped a b rest q ips) (λ resp _ h. h)
  by_rule-Stamped a b rest s q relay src now match_none =
      let subnet = effective_subnet_of lower_wide lru same to_string relay src in
      Ensures-bind (λ _. Unit {0}) _
        (cache_key_from_query_for_subnet lower_wide (a ∷ b ∷ rest) subnet) _
        (cache_key_from_query_for_subnet-Settles lower_wide (a ∷ b ∷ rest) subnet)
        (λ key _ _.
          looked_up-Stamped a b rest s key (fresh_answer lru (lru.peek s.cache key) now)
            (lru.touch s.cache key) (fresh_answer-Settles lru (lru.peek s.cache key) now))

  -- Whatever a client sends, the handling of its query comes to its first wait, to an answer or to
  -- none, without a panic; an answer from the rules or the cache that is long enough for a
  -- transaction id has the query's.
  pub enter_query-Stamped :
      (s : State) (rule_trie : DomainTrie) (relay : Option (IpAddr → Option Ipv4Subnet))
      (payload : Bytes) (src_addr : IpAddr) (now : ℕ)
      → Ensures
          (Good payload)
          (enter_query lower_wide lru same to_string s rule_trie relay payload src_addr now)
  unfolding enter_query
  enter_query-Stamped s rule_trie relay [] src_addr now = tt
  enter_query-Stamped s rule_trie relay (a ∷ []) src_addr now = tt
  enter_query-Stamped s rule_trie relay (a ∷ b ∷ rest) src_addr now =
      let payload = a ∷ b ∷ rest in
      elim (Bool-cases (ltb (length payload) 12)) [
        | inl e ↦ rw e tt
        | inr e ↦ rw e (
            Ensures-bind (NameWithin payload 12) _ (parse_domain lower_wide payload 12) _
              (parse_domain-NameWithin lower_wide payload 12)
              (λ name _ _.
                Ensures-bind (λ _. Unit {0}) _ (check_rules lower_wide name.0 rule_trie) _
                  (check_rules-Settles name.0 rule_trie)
                  (λ rule _ _. by_rule-Stamped a b rest s name.1 relay src_addr now rule)))
      ]
