-- ===== src/Proxy.antt =====
-- resolver_proxy/src/handler.rs: the targets of the proxy, and the handling of a query by it. One exchange
-- of datagrams with an address, or its failure, is the parameter `exchange`; the cipher is that of Obfs.
pub mod Forward
use dns_relay.Prelude.{
  ℕ, zero, suc, ◌+◌, ◌%◌, ◌^◌, Bool, true, false, not, Option, none, some, List, [], ◌∷◌, ◌++◌, ltb,
  if◌then◌else◌, length, take, drop, Outcome, ok, refuse, panic, out_of_fuel, attempt, guard, ◌>>=◌,
  ◌>>◌,
}
use dns_relay.Prelude.Slices.{Bytes, at}
use dns_relay.Dns.Name.{parse_domain}
use dns_relay.Dns.Respond.{
  craft_nxdomain_response, craft_redirect_response, craft_servfail_response, with_txid,
}
use dns_relay.Obfs.{Aead, Draws, encode, decode}
use dns_relay.Cache.Lru.{Lru}
use dns_relay.Cache.Key.{CacheKey, cache_key_from_query}
use dns_relay.Cache.Store.{CacheEntry, cache_lookup, cache_store}
use dns_relay.Trie.{DomainTrie}
use dns_relay.Trie.Glob.{RuleMatch, match_drop, match_redirect, match_none, check_rules}

pub data TransportMode : Type 0 where
  plain_udp : TransportMode
  udp_obfs : TransportMode

pub data ProxyStrategy : Type 0 where
  in_order : ProxyStrategy
  round_robin : ProxyStrategy

module _ (Key Addr : Type 0) where
  pub record ResolvedTarget : Type 0 where
    pub name : Bytes
    pub mode : TransportMode
    pub addr : Addr
    pub key : Option Key

  pub record TargetPicker : Type 0 where
    pub targets : List ResolvedTarget
    pub strategy : ProxyStrategy
    pub cursor : ℕ

  -- A target as the configuration has it.
  pub record ProxyTarget : Type 0 where
    pub target_name : Bytes
    pub address : Bytes
    pub transport : TransportMode
    pub shared_key : Option Bytes

  abbrev pub first_address : Option (List Addr) → Outcome Addr
  first_address none = refuse
  first_address (some []) = refuse
  first_address (some (addr ∷ _)) = ok addr

  abbrev pub parsed_key : (Bytes → Option Key) → Option Bytes → Outcome (Option Key)
  parsed_key from_base64 none = refuse
  parsed_key from_base64 (some text) = elim (from_base64 text) [
    | none ↦ refuse
    | some k ↦ ok (some k)
  ]

  abbrev pub key_of : (Bytes → Option Key) → TransportMode → Option Bytes → Outcome (Option Key)
  key_of from_base64 plain_udp shared = ok none
  key_of from_base64 udp_obfs shared = parsed_key from_base64 shared

  -- The targets with their addresses and keys, or the first error; the lookup of an address and the
  -- reading of a key are arguments.
  unfoldable pub resolve_targets :
      (Bytes → Option (List Addr))
      → (Bytes → Option Key)
      → List ProxyTarget
      → Outcome (List ResolvedTarget)
  resolve_targets to_socket_addrs from_base64 [] = ok []
  resolve_targets to_socket_addrs from_base64 (t ∷ ts) =
      let rest = resolve_targets to_socket_addrs from_base64 ts in
      do
        addr ← first_address (to_socket_addrs t.address)
        key ← key_of from_base64 t.transport t.shared_key
        others ← rest
        ok (record { name = t.target_name; mode = t.transport; addr = addr; key = key } ∷ others)

  unfoldable pub new_picker : List ResolvedTarget → ProxyStrategy → Outcome TargetPicker
  new_picker [] strategy = refuse
  new_picker (t ∷ ts) strategy = ok (record { targets = t ∷ ts; strategy = strategy; cursor = 0 })

  -- The remainder by the number of targets panics without targets.
  abbrev pub rotated : List ResolvedTarget → ℕ → Outcome (List ResolvedTarget)
  rotated [] cursor = panic
  rotated (t ∷ ts) cursor =
      let start = cursor % length (t ∷ ts) in ok (drop start (t ∷ ts) ++ take start (t ∷ ts))

  abbrev pub ordered_by :
      ProxyStrategy → TargetPicker → Outcome (List ResolvedTarget) × TargetPicker
  ordered_by in_order picker = (ok picker.targets, picker)
  ordered_by round_robin picker = (
    rotated picker.targets picker.cursor,
    record picker { cursor = (picker.cursor + 1) % 2 ^ 64 },
  )

  unfoldable pub try_order : TargetPicker → Outcome (List ResolvedTarget) × TargetPicker
  try_order picker = ordered_by picker.strategy picker

  module _ (aead : Aead Key) (draws : Addr → Draws) (exchange : Addr → Bytes → Option Bytes) where
    abbrev pub received : Option Bytes → Outcome Bytes
    received none = refuse
    received (some reply) = ok reply

    unfoldable pub send_plain : Addr → Bytes → Outcome Bytes
    send_plain addr query = received (exchange addr query)

    unfoldable pub send_obfs : Addr → Key → Bytes → Outcome Bytes
    unfolding encode decode
    send_obfs addr key query = do
      reply ← received (exchange addr (encode aead key (draws addr) query))
      decode aead key reply

    -- `.expect(..)` on the key.
    abbrev pub with_key : Addr → Option Key → Bytes → Outcome Bytes
    with_key addr none query = panic
    with_key addr (some key) query = send_obfs addr key query

    abbrev pub by_mode : TransportMode → ResolvedTarget → Bytes → Outcome Bytes
    by_mode plain_udp target query = send_plain target.addr query
    by_mode udp_obfs target query = with_key target.addr target.key query

    unfoldable pub send_to : ResolvedTarget → Bytes → Outcome Bytes
    unfolding send_plain send_obfs
    send_to target query = by_mode target.mode target query

    unfoldable pub first_reply : List ResolvedTarget → Bytes → Outcome Bytes
    unfolding send_to
    first_reply [] query = refuse
    first_reply (target ∷ targets) query =
        let rest = first_reply targets query in
        attempt (send_to target query) (λ reply. ok reply) rest

    unfoldable pub forward_query : TargetPicker → Bytes → Outcome Bytes × TargetPicker
    unfolding try_order first_reply
    forward_query picker query =
        ((do targets ← (try_order picker).0; first_reply targets query), (try_order picker).1)

module _ (lower_wide : Bytes → Bytes) (lru : Lru CacheKey CacheEntry) where
  -- What is sent to the client, if anything, and the cache.
  abbrev pub Sent : Type 0
  Sent = Option Bytes × lru.Store

  abbrev pub sent_if : lru.Store → Outcome Bytes → Outcome Sent
  sent_if s crafted = attempt crafted (λ resp. ok (some resp, s)) (ok (none, s))

  -- Behind the forwarding: a failure crafts a SERVFAIL answer and drops it.
  abbrev pub forwarded : lru.Store → Bytes → CacheKey → ℕ → ℕ → ℕ → Outcome Bytes → Outcome Sent
  forwarded s payload key hi lo now (ok reply) = do
    store ← cache_store lru s key reply now
    ok (some (with_txid reply hi lo), store)
  forwarded s payload key hi lo now refuse =
      attempt (craft_servfail_response payload) (λ _. ok (none, s)) (ok (none, s))
  forwarded s payload key hi lo now panic = panic
  forwarded s payload key hi lo now out_of_fuel = out_of_fuel

  abbrev pub unless_cached :
      Bytes → CacheKey → ℕ → Outcome Bytes → Outcome Bytes × lru.Store → Outcome Sent
  unless_cached payload key now upstream (cached, s) = do
    hi ← at payload 0
    lo ← at payload 1
    attempt cached (λ packet. ok (some (with_txid packet hi lo), s))
        (forwarded s payload key hi lo now upstream)

  abbrev pub keyed : lru.Store → Bytes → ℕ → Outcome Bytes → Outcome Sent
  keyed s payload now upstream =
      attempt (cache_key_from_query lower_wide payload)
        (λ key. unless_cached payload key now upstream (cache_lookup lru s key now)) (ok (none, s))

  abbrev pub ruled : lru.Store → Bytes → ℕ → ℕ → Outcome Bytes → RuleMatch → Outcome Sent
  ruled s payload qname_end now upstream match_drop = sent_if s (craft_nxdomain_response payload)
  ruled s payload qname_end now upstream (match_redirect ips) =
      sent_if s (craft_redirect_response payload qname_end ips)
  ruled s payload qname_end now upstream match_none = keyed s payload now upstream

  -- `upstream` is what forward_query gives for the payload.
  unfoldable pub handle_query : lru.Store → DomainTrie → Bytes → ℕ → Outcome Bytes → Outcome Sent
  unfolding parse_domain check_rules craft_nxdomain_response craft_redirect_response
      craft_servfail_response cache_key_from_query cache_lookup cache_store with_txid at
  handle_query s rule_trie payload now upstream =
      if ltb (length payload) 12
      then ok (none, s)
      else attempt (parse_domain lower_wide payload 12)
          (λ (domain, qname_end). do
            rule ← check_rules lower_wide domain rule_trie
            ruled s payload qname_end now upstream rule)
          (ok (none, s))
