-- ===== src/Cache/Store/Invariant.antt =====
-- What every entry of the response cache satisfies, whatever was done to the cache.
use dns_relay.Prelude.{
  ◌+◌, ◌*◌, min, max, arith, ℕ, ◌≡◌, refl, ◌∙◌, inl, inr, Option, none, some, List, [], ◌∷◌, leb,
  ok, attempt-eq-ok, Bool-cases, subst, sym,
}
use dns_relay.Prelude.Slices.{Bytes}
use dns_relay.Prelude.Writes.{IsBytes}
use dns_relay.Dns.Ttl.{response_cache_ttl}
use dns_relay.Cache.Lru.{Lru, LruLaws}
use dns_relay.Cache.Key.{CacheKey}
use dns_relay.Cache.Store.{
  zero_txid, nanos, clamp_cache_ttl, CacheEntry, new_entry, cache_lookup, cache_lookup_stale,
  cache_store, stale_answer, pop_all, matching_keys, remove_domains_from_cache,
}

-- An entry holds a response that may be cached, without its transaction id. It is fresh for the
-- response's time to live, but for at least a second and at most an hour, and stale for five minutes
-- more.
pub record IsEntry (entry : CacheEntry) : Type 0 where
  pub response : Bytes
  pub ttl : ℕ
  pub bytes : IsBytes response
  pub cacheable : response_cache_ttl response ≡ ok ttl
  pub kept : entry.packet ≡ zero_txid response
  pub fresh : entry.fresh_until ≡ entry.inserted_at + max 1 (min ttl 3600) * nanos
  pub stale : entry.stale_until ≡ entry.fresh_until + 300 * nanos

pub clamp_cache_ttl-seconds : (ttl : ℕ) → clamp_cache_ttl ttl ≡ max 1 (min ttl 3600) * nanos
unfolding clamp_cache_ttl
clamp_cache_ttl-seconds ttl = ground arith

pub ok_injective {ℓ} : {A : Type ℓ} {x y : A} → ok x ≡ ok y → x ≡ y
ok_injective e = cc

unfoldable pub IsStore : (lru : Lru CacheKey CacheEntry) → lru.Store → Type 0
IsStore lru s = (key : CacheKey) (entry : CacheEntry) → lru.peek s key ≡ some entry → IsEntry entry

new_entry-IsEntry :
    (response : Bytes) (ttl now : ℕ)
    → IsBytes response
    → response_cache_ttl response ≡ ok ttl
    → IsEntry (new_entry response ttl now)
new_entry-IsEntry response ttl now b h = record {
  response = response;
  ttl = ttl;
  bytes = b;
  cacheable = h;
  kept = refl;
  fresh = omega (arith, clamp_cache_ttl-seconds ttl);
  stale = refl;
}

module _ (lower_wide : Bytes → Bytes) (lru : Lru CacheKey CacheEntry) where
  -- What the relay does to the cache.
  pub data Step : lru.Store → lru.Store → Type 0 where
    looked_up :
        {s s' : lru.Store} (key : CacheKey) (now : ℕ)
        → (cache_lookup lru s key now).1 ≡ s'
        → Step s s'
    looked_up_stale :
        {s s' : lru.Store} (key : CacheKey) (now : ℕ)
        → (cache_lookup_stale lru s key now).1 ≡ s'
        → Step s s'
    stored :
        {s s' : lru.Store} (key : CacheKey) (packet : Bytes) (now : ℕ)
        → IsBytes packet
        → cache_store lru s key packet now ≡ ok s'
        → Step s s'
    removed :
        {s s' : lru.Store} (patterns : List Bytes)
        → remove_domains_from_cache lower_wide lru s patterns ≡ s'
        → Step s s'

  pub data Reachable : lru.Store → Type 0 where
    empty : {s : lru.Store} → ((key : CacheKey) → lru.peek s key ≡ none) → Reachable s
    after : {s s' : lru.Store} → Reachable s → Step s s' → Reachable s'

  module _ (laws : LruLaws lru) where
    touch-IsStore : (s : lru.Store) (key : CacheKey) → IsStore lru s → IsStore lru (lru.touch s key)
    unfolding IsStore
    touch-IsStore s key h k e p = h k e (sym (laws.peek-touch s key k) ∙ p)

    put-IsStore :
        (s : lru.Store) (key : CacheKey) (entry : CacheEntry)
        → IsEntry entry
        → IsStore lru s
        → IsStore lru (lru.put s key entry)
    unfolding IsStore
    put-IsStore s key entry w h k e p = elim (laws.peek-put s key k entry e p) [
      | inl (_, same) ↦ subst IsEntry (sym same) w
      | inr before ↦ h k e before
    ]

    pop-IsStore : (s : lru.Store) (key : CacheKey) → IsStore lru s → IsStore lru (lru.pop s key)
    unfolding IsStore
    pop-IsStore s key h k e p = h k e (laws.peek-pop s key k e p)

    pop_all-IsStore :
        (keys : List CacheKey) (s : lru.Store) → IsStore lru s → IsStore lru (pop_all lru s keys)
    pop_all-IsStore [] s h = h
    pop_all-IsStore (key ∷ keys) s h = pop_all-IsStore keys (lru.pop s key) (pop-IsStore s key h)

    stale-IsStore :
        (s : lru.Store) (key : CacheKey) (found : Option CacheEntry) (now : ℕ)
        → IsStore lru s
        → IsStore lru (stale_answer lru s key found now).1
    stale-IsStore s key none now h = h
    stale-IsStore s key (some entry) now h = elim (Bool-cases (leb entry.stale_until now)) [
      | inl e ↦ rw e (pop-IsStore s key h)
      | inr e ↦ rw e (touch-IsStore s key h)
    ]

    cache_store-IsStore :
        (s s' : lru.Store) (key : CacheKey) (packet : Bytes) (now : ℕ)
        → IsBytes packet
        → IsStore lru s
        → cache_store lru s key packet now ≡ ok s'
        → IsStore lru s'
    unfolding cache_store
    cache_store-IsStore s s' key packet now b h e =
        elim (attempt-eq-ok (response_cache_ttl packet) _ s s' e) [
          | inl (ttl, cacheable, put) ↦ subst (IsStore lru) (ok_injective put) (
              put-IsStore s key (new_entry packet ttl now)
                (new_entry-IsEntry packet ttl now b cacheable) h)
          | inr (_, same) ↦ subst (IsStore lru) same h
        ]

    -- Each thing that the relay does to the cache keeps every entry well formed.
    pub Step-IsStore : (s s' : lru.Store) → Step s s' → IsStore lru s → IsStore lru s'
    unfolding cache_lookup cache_lookup_stale remove_domains_from_cache
    Step-IsStore s s' (looked_up key now e) h = subst (IsStore lru) e (touch-IsStore s key h)
    Step-IsStore s s' (looked_up_stale key now e) h =
        subst (IsStore lru) e (stale-IsStore s key (lru.peek s key) now h)
    Step-IsStore s s' (stored key packet now b e) h = cache_store-IsStore s s' key packet now b h e
    Step-IsStore s s' (removed patterns e) h =
        subst (IsStore lru) e (pop_all-IsStore (matching_keys lower_wide patterns (lru.iter s)) s h)

    -- Whatever sequence of lookups, stores and removals ran on an empty cache, each of its entries was
    -- made from a cacheable response of bytes, with its transaction id cleared, and times out by the
    -- response's time to live.
    pub Reachable-IsStore : (s : lru.Store) → Reachable s → IsStore lru s
    unfolding IsStore
    Reachable-IsStore s (empty e) = λ k entry p. (let refuted = sym (e k) ∙ p in cc)
    Reachable-IsStore s' (after {s} r step) = Step-IsStore s s' step (Reachable-IsStore s r)
