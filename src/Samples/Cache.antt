-- ===== src/Samples/Cache.antt =====
-- The response cache on the answer to the probe packet, and its theorems there.
use dns_relay.Prelude.{
  ◌+◌, ◌-◌, ◌/◌, ◌<◌, ◌≡◌, refl, true, false, none, some, List, [], ◌∷◌, arith, ok, All,
  if◌then◌else◌,
}
use dns_relay.Prelude.Slices.{at, u16_at, u32_at}
use dns_relay.Prelude.Writes.{IsBytes-of_all}
use dns_relay.Dns.Text.Affix.{eq_bytes}
use dns_relay.Dns.Name.{skip_name, parse_domain}
use dns_relay.Dns.Edns.{find_opt_record}
use dns_relay.Dns.Records.{Rr, read_rr}
use dns_relay.Dns.Ttl.{response_cache_ttl, age_response_ttls}
use dns_relay.Dns.Ttl.Minimum.{answer_records, LivesFor, response_cache_ttl-answers}
use dns_relay.Cache.Lru.{Lru}
use dns_relay.Cache.Key.{CacheKey, cache_key_from_query}
use dns_relay.Cache.Store.{
  CacheEntry, from_secs, nanos, new_entry, cache_lookup, cache_store, remove_domains_from_cache,
  any_pattern, clamp_cache_ttl, zero_txid,
}
use dns_relay.Cache.Store.Invariant.{
  IsEntry, IsStore, Reachable, Step, Step-IsStore, Reachable-IsStore,
}
use dns_relay.Cache.Store.Lookups.{IsFresh, cache_lookup-IsFresh, cache_store-cache_lookup}
use dns_relay.Cache.Store.Removal.{peek-remove_domains_from_cache}
use dns_relay.Samples.Store.{bounded, bounded-LruLaws, key_test}
use dns_relay.Samples.Wire.{same_text, google, probe, reply, cleared_reply, cache_ttl_run}

abbrev cache : Lru CacheKey CacheEntry
cache = bounded key_test 2

abbrev key : CacheKey
key = record {
  name = google;
  qtype = 1;
  qclass = 1;
  query_flags = 1;
  dnssec_ok = false;
  client_subnet = none;
}

key_run : cache_key_from_query same_text probe ≡ ok key
unfolding cache_key_from_query parse_domain find_opt_record at u16_at
key_run = refl

abbrev entry : CacheEntry
entry = new_entry reply 60 0

abbrev filled : List (CacheKey × CacheEntry)
filled = (key, entry) ∷ []

store_run : cache_store cache [] key reply 0 ≡ ok filled
unfolding cache_store response_cache_ttl at u16_at skip_name read_rr
store_run = refl

lookup_run : (cache_lookup cache filled key (from_secs 10)).0 ≡ ok cleared_reply
unfolding cache_lookup age_response_ttls u16_at u32_at skip_name eq_bytes clamp_cache_ttl zero_txid
lookup_run = refl

Reachable-IsStore_example : IsStore cache filled
Reachable-IsStore_example = Reachable-IsStore same_text cache (bounded-LruLaws key_test 2) filled (
    Reachable.after (Reachable.empty {s = []} (λ key. refl))
      (Step.stored key reply 0 (IsBytes-of_all reply refl) store_run))

empty-IsStore : IsStore cache []
unfolding IsStore
empty-IsStore = λ key entry h. (let refuted = h in cc)

filled-IsStore : IsStore cache filled
filled-IsStore =
    Step-IsStore same_text cache (bounded-LruLaws key_test 2) [] filled
      (Step.stored key reply 0 (IsBytes-of_all reply refl) store_run) empty-IsStore

peek_run : cache.peek filled key ≡ some entry
unfolding eq_bytes
peek_run = refl

cache_lookup-IsFresh_example :
    (e : CacheEntry) × (cache.peek filled key ≡ some e)
    × ((w : IsEntry e) × IsFresh e (from_secs 10) w.response cleared_reply)
cache_lookup-IsFresh_example =
    cache_lookup-IsFresh cache filled key (from_secs 10) cleared_reply filled-IsStore lookup_run

young : from_secs 10 < 0 + clamp_cache_ttl 60
unfolding clamp_cache_ttl
young = omega arith

walked_run :
    age_response_ttls (zero_txid reply) ((from_secs 10 - 0) / nanos) false
    ≡ ok (cleared_reply, true)
unfolding age_response_ttls u16_at u32_at skip_name zero_txid
walked_run = refl

cache_store-cache_lookup_example :
    (s : cache.Store) × (cache_store cache [] key reply 0 ≡ ok s)
    × ((cache_lookup cache s key (from_secs 10)).0 ≡ ok cleared_reply)
    × IsFresh entry (from_secs 10) reply cleared_reply
cache_store-cache_lookup_example =
    cache_store-cache_lookup cache [] key reply cleared_reply 60 0 (from_secs 10)
      (bounded-LruLaws key_test 2) (IsBytes-of_all reply refl) cache_ttl_run (omega arith) young
      walked_run

peek-remove_domains_from_cache_example :
    cache.peek (remove_domains_from_cache same_text cache filled (google ∷ [])) key
    ≡ (if any_pattern same_text (google ∷ []) key then none else cache.peek filled key)
peek-remove_domains_from_cache_example =
    peek-remove_domains_from_cache cache (bounded-LruLaws key_test 2) same_text filled (google ∷ [])
      key

response_cache_ttl-answers_example :
    (0 < 60) × ((rs : List Rr) × (answer_records reply ≡ ok rs) × All (LivesFor 60) rs)
response_cache_ttl-answers_example = response_cache_ttl-answers reply 60 cache_ttl_run
