-- ===== src/Cache/Store.antt =====
-- The response cache: its entries, lookups, stores and removals.
pub mod Invariant
pub mod Answers
pub mod Lookups
pub mod Removal
pub mod Total
use dns_relay.Prelude.{
  ℕ, ◌+◌, ◌-◌, ◌*◌, ◌/◌, Bool, true, false, ◌||◌, Option, none, some, List, [], ◌∷◌, ltb, leb,
  if◌then◌else◌, length, set, any, Outcome, ok, refuse, attempt, guard, ◌>>=◌, ◌>>◌,
}
use dns_relay.Prelude.Slices.{Bytes}
use dns_relay.Dns.Ttl.{response_cache_ttl, age_response_ttls}
use dns_relay.Dns.Patterns.{matches_domain_pattern}
use dns_relay.Cache.Lru.{Lru}
use dns_relay.Cache.Key.{CacheKey}

pub record CacheEntry : Type 0 where
  pub packet : Bytes
  pub inserted_at : ℕ
  pub fresh_until : ℕ
  pub stale_until : ℕ

abbrev pub nanos : ℕ
nanos = 1000000000

-- `Duration::from_secs`
abbrev pub from_secs : ℕ → ℕ
from_secs n = n * nanos

abbrev pub cache_ttl_min : ℕ
cache_ttl_min = from_secs 1

abbrev pub cache_ttl_max : ℕ
cache_ttl_max = from_secs 3600

abbrev pub cache_stale_ttl : ℕ
cache_stale_ttl = from_secs 300

unfoldable pub clamp_cache_ttl : ℕ → ℕ
clamp_cache_ttl ttl_secs =
    let ttl = from_secs ttl_secs in
    if ltb ttl cache_ttl_min
    then cache_ttl_min
    else if ltb cache_ttl_max ttl
    then cache_ttl_max
    else ttl

-- `now.duration_since(inserted_at).as_secs()`
abbrev pub elapsed_secs : CacheEntry → ℕ → ℕ
elapsed_secs entry now = (now - entry.inserted_at) / nanos

-- `age_response_ttls(&mut packet, ..).then_some(packet)` on a copy of the packet.
unfoldable pub served : CacheEntry → ℕ → Bool → Outcome Bytes
unfolding age_response_ttls
served entry now stale = do
  (packet, aged) ← age_response_ttls entry.packet (elapsed_secs entry now) stale
  guard aged
  ok packet

-- `stored[0] = 0; stored[1] = 0`
unfoldable pub zero_txid : Bytes → Bytes
zero_txid packet = if ltb (length packet) 2 then packet else set (set packet 0 0) 1 0

abbrev pub new_entry : Bytes → ℕ → ℕ → CacheEntry
new_entry packet ttl now = record {
  packet = zero_txid packet;
  inserted_at = now;
  fresh_until = now + clamp_cache_ttl ttl;
  stale_until = now + clamp_cache_ttl ttl + cache_stale_ttl;
}

module _ (lru : Lru CacheKey CacheEntry) where
  abbrev pub fresh_answer : Option CacheEntry → ℕ → Outcome Bytes
  fresh_answer none now = refuse
  fresh_answer (some entry) now =
      if leb entry.fresh_until now then refuse else served entry now false

  -- The packet, and the cache afterwards.
  unfoldable pub cache_lookup : lru.Store → CacheKey → ℕ → Outcome Bytes × lru.Store
  unfolding served
  cache_lookup s key now = (fresh_answer (lru.peek s key) now, lru.touch s key)

  abbrev pub stale_answer : lru.Store → CacheKey → Option CacheEntry → ℕ → Outcome Bytes × lru.Store
  stale_answer s key none now = (refuse, s)
  stale_answer s key (some entry) now =
      if leb entry.stale_until now
      then (refuse, lru.pop s key)
      else (if ltb now entry.fresh_until then refuse else served entry now true, lru.touch s key)

  unfoldable pub cache_lookup_stale : lru.Store → CacheKey → ℕ → Outcome Bytes × lru.Store
  unfolding served
  cache_lookup_stale s key now = stale_answer s key (lru.peek s key) now

  unfoldable pub cache_store : lru.Store → CacheKey → Bytes → ℕ → Outcome lru.Store
  unfolding response_cache_ttl clamp_cache_ttl zero_txid
  cache_store s key packet now =
      attempt (response_cache_ttl packet) (λ ttl. ok (lru.put s key (new_entry packet ttl now)))
        (ok s)

  abbrev pub pop_all : lru.Store → List CacheKey → lru.Store
  pop_all s [] = s
  pop_all s (key ∷ keys) = pop_all (lru.pop s key) keys

module _ (lower_wide : Bytes → Bytes) where
  abbrev pub any_pattern : List Bytes → CacheKey → Bool
  any_pattern patterns key =
      any (λ pattern. matches_domain_pattern lower_wide key.name pattern) patterns

  -- `cache.iter().filter(..).map(|(key, _)| key.clone()).collect()`
  unfoldable pub matching_keys : List Bytes → List (CacheKey × CacheEntry) → List CacheKey
  matching_keys patterns [] = []
  matching_keys patterns ((key, entry) ∷ rest) =
      let keys = matching_keys patterns rest in
      if any_pattern patterns key then key ∷ keys else keys

  unfoldable pub remove_domains_from_cache :
      (lru : Lru CacheKey CacheEntry) → lru.Store → List Bytes → lru.Store
  unfolding matching_keys matches_domain_pattern
  remove_domains_from_cache lru s patterns = pop_all lru s (matching_keys patterns (lru.iter s))
