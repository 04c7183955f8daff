-- ===== src/Cache/Domains.antt =====
-- The cache of addresses: `cache_url_ip` and `get_cached_domain`.
use dns_relay.Prelude.{Option, List}
use dns_relay.Prelude.Slices.{Bytes}
use dns_relay.Dns.Ipv4.{Ipv4Addr}
use dns_relay.Cache.Lru.{Lru}

module _ (lru : Lru Bytes (List Ipv4Addr)) where
  unfoldable pub cache_url_ip : lru.Store → Bytes → List Ipv4Addr → lru.Store
  cache_url_ip s domain ipv4 = lru.put s domain ipv4

  unfoldable pub get_cached_domain : lru.Store → Bytes → Option (List Ipv4Addr) × lru.Store
  get_cached_domain s domain = (lru.peek s domain, lru.touch s domain)
