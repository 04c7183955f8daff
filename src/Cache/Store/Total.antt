-- ===== src/Cache/Store/Total.antt =====
-- The response cache never panics.
use dns_relay.Prelude.{
  ℕ, Bool, true, false, Option, none, some, ltb, leb, ok, guard, ◌>>◌, Settles, Returns,
  Returns-attempt, Ensures-bind, Ensures-Returns, Bool-cases, inl, inr,
}
use dns_relay.Prelude.Slices.{Bytes}
use dns_relay.Dns.Ttl.{response_cache_ttl, age_response_ttls}
use dns_relay.Dns.Ttl.Total.{response_cache_ttl-Settles, age_response_ttls-Returns}
use dns_relay.Cache.Lru.{Lru}
use dns_relay.Cache.Key.{CacheKey}
use dns_relay.Cache.Store.{
  CacheEntry, elapsed_secs, served, fresh_answer, stale_answer, cache_store,
}

pub served-Settles :
    (entry : CacheEntry) (now : ℕ) (stale : Bool) → Settles (served entry now stale)
unfolding served
served-Settles entry now stale =
    Ensures-bind (λ _. Unit {0}) _ (age_response_ttls entry.packet (elapsed_secs entry now) stale) _
      (Ensures-Returns (λ _. Unit {0})
        (age_response_ttls entry.packet (elapsed_secs entry now) stale)
        (age_response_ttls-Returns entry.packet (elapsed_secs entry now) stale))
      (λ out _ _. flagged out.0 out.1)
  where
    flagged : (packet : Bytes) (aged : Bool) → Settles (guard aged >> ok packet)
    flagged packet true = tt
    flagged packet false = tt

module _ (lru : Lru CacheKey CacheEntry) where
  pub fresh_answer-Settles :
      (found : Option CacheEntry) (now : ℕ) → Settles (fresh_answer lru found now)
  fresh_answer-Settles none now = tt
  fresh_answer-Settles (some entry) now = elim (Bool-cases (leb entry.fresh_until now)) [
    | inl e ↦ rw e tt
    | inr e ↦ rw e (served-Settles entry now false)
  ]

  pub cache_store-Returns :
      (s : lru.Store) (key : CacheKey) (packet : Bytes) (now : ℕ)
      → Returns (λ _. Unit {0}) (cache_store lru s key packet now)
  unfolding cache_store
  cache_store-Returns s key packet now =
      Returns-attempt (λ _. Unit {0}) _ (response_cache_ttl packet) _ (ok s)
        (response_cache_ttl-Settles packet) (λ ttl _ _. tt) tt

  pub stale_answer-Settles :
      (s : lru.Store) (key : CacheKey) (found : Option CacheEntry) (now : ℕ)
      → Settles (stale_answer lru s key found now).0
  stale_answer-Settles s key none now = tt
  stale_answer-Settles s key (some entry) now = elim (Bool-cases (leb entry.stale_until now)) [
    | inl e ↦ rw e tt
    | inr e ↦ rw e (elim (Bool-cases (ltb now entry.fresh_until)) [
      | inl f ↦ rw f tt
      | inr f ↦ rw f (served-Settles entry now true)
    ])
  ]
